-- ===== src/Subscription/Parsed.antt =====
-- What the parser of subscribe requests accepts.
use pi_pilot.Base.{negsuc, pos, ℤ, ℕ, ◌≤◌, ◌≡◌, Option, none, some, arith, nat_key, string_key}
use pi_pilot.Base.Json.{
  Json, null, boolean, number, text, array, object, Fields, lookup, as_record, as_name, as_count,
  largest_safe, end, IsName, as_name-IsName, as_count-small, Read, bind-Read, read_as, as_integer,
}
use pi_pilot.Subscription.State.{
  NotificationCursor, SubscribeRequest, max_page_events, max_background_elapsed_ms,
}
use pi_pilot.Subscription.Requests.{
  parse_scopes, read_cursor, parse_notification_cursor, clamp_limit, parse_page_limit,
  parse_elapsed, read_subscribe, parse_subscribe_request,
}

abbrev pub IsCursor : Option NotificationCursor → Type 0
IsCursor none = Unit
IsCursor (some c) = IsName c.event_epoch × (c.sequence ≤ largest_safe)

abbrev pub IsLimit : Option ℕ → Type 0
IsLimit none = ⊥
IsLimit (some n) = (1 ≤ n) × (n ≤ max_page_events)

abbrev pub IsElapsed : Option ℕ → Type 0
IsElapsed none = Unit
IsElapsed (some n) = n ≤ max_background_elapsed_ms

-- A request that is well formed.
pub record IsRequest (r : SubscribeRequest) : Type 0 where
  pub named : IsName r.id
  pub installed : IsName r.installation_id
  pub starts : IsCursor r.cursor
  pub versioned : r.scope_version ≤ largest_safe
  pub limited : IsLimit r.page_limit
  pub timed : IsElapsed r.background_elapsed_ms

abbrev Anything : {A : Type 0} → A → Type 0
Anything a = Unit

anything : {A : Type 0} (m : Option A) → Read Anything m
anything none = tt
anything (some a) = tt

read_cursor-IsCursor : (fs : Fields) → Read IsCursor (read_cursor fs)
read_cursor-IsCursor fs =
    bind-Read IsName IsCursor (as_name (lookup "eventEpoch" fs)) _
      (as_name-IsName (lookup "eventEpoch" fs))
      (λ epoch named.
        bind-Read (λ n. n ≤ largest_safe) IsCursor (as_count (lookup "sequence" fs)) _
          (as_count-small (lookup "sequence" fs)) (λ n small. (named, small)))

parse_cursor-IsCursor : (v : Option Json) → Read IsCursor (parse_notification_cursor v)
unfolding parse_notification_cursor
parse_cursor-IsCursor none = tt
parse_cursor-IsCursor (some null) = tt
parse_cursor-IsCursor (some (object fs)) = read_cursor-IsCursor fs
parse_cursor-IsCursor (some (array xs)) = read_cursor-IsCursor end
parse_cursor-IsCursor (some (boolean b)) = tt
parse_cursor-IsCursor (some (number n)) = tt
parse_cursor-IsCursor (some (text s)) = tt

clamp-IsLimit : (n : ℕ) → IsLimit (some (clamp_limit n))
clamp-IsLimit n = omega arith

page_limit-IsLimit : (v : Option Json) → IsLimit (some (parse_page_limit v))
page_limit-IsLimit v = of_integer (as_integer v)
  where
    of_integer :
        (o : Option ℤ)
        → IsLimit (
            some (elim o [
              | none ↦ max_page_events
              | some (pos n) ↦ clamp_limit n
              | some (negsuc n) ↦ 1
            ]))
    of_integer none = omega arith
    of_integer (some (pos n)) = clamp-IsLimit n
    of_integer (some (negsuc n)) = omega arith

parse_elapsed-IsElapsed : (v : Option Json) → Read IsElapsed (parse_elapsed v)
parse_elapsed-IsElapsed none = tt
parse_elapsed-IsElapsed (some v) =
    bind-Read (λ n. n ≤ largest_safe) IsElapsed (as_count (some v)) _ (as_count-small (some v))
      (λ n small. omega arith)

read_subscribe-IsRequest : (fs : Fields) → Read IsRequest (read_subscribe fs)
read_subscribe-IsRequest fs =
    bind-Read IsName IsRequest (as_name (lookup "id" fs)) _ (as_name-IsName (lookup "id" fs))
      (λ id named.
        bind-Read IsName IsRequest (as_name (lookup "installationId" fs)) _
          (as_name-IsName (lookup "installationId" fs))
          (λ installation installed.
            bind-Read IsCursor IsRequest (parse_notification_cursor (lookup "cursor" fs)) _
              (parse_cursor-IsCursor (lookup "cursor" fs))
              (λ cursor starts.
                bind-Read Anything IsRequest (parse_scopes (lookup "scopes" fs)) _
                  (anything (parse_scopes (lookup "scopes" fs)))
                  (λ scopes any.
                    bind-Read (λ n. n ≤ largest_safe) IsRequest
                      (as_count (lookup "scopeVersion" fs)) _
                      (as_count-small (lookup "scopeVersion" fs))
                      (λ version versioned.
                        bind-Read IsElapsed IsRequest
                          (parse_elapsed (lookup "backgroundElapsedMs" fs)) _
                          (parse_elapsed-IsElapsed (lookup "backgroundElapsedMs" fs))
                          (λ elapsed timed. record {
                            named = named;
                            installed = installed;
                            starts = starts;
                            versioned = versioned;
                            limited = page_limit-IsLimit (lookup "pageLimit" fs);
                            timed = timed;
                          }))))))

-- Whatever value comes in as a subscribe request, one that is accepted is well formed: its names are
-- not empty, its numbers are safe integers of at least 0, a page has from 1 to 100 events, and the
-- time in the background is a day at most.
pub accepted-IsRequest :
    (v : Option Json) (r : SubscribeRequest) → parse_subscribe_request v ≡ some r → IsRequest r
unfolding parse_subscribe_request
accepted-IsRequest v r h =
    read_as IsRequest (parse_subscribe_request v) r
      (bind-Read Anything IsRequest (as_record v) read_subscribe (anything (as_record v))
        (λ fs any. read_subscribe-IsRequest fs))
      h
