-- ===== src/Subscription/Written.antt =====
-- Subscribe requests as JSON, which the parser reads back.
use pi_pilot.Base.{
  pos, ℕ, ◌≤◌, min, String, ◌≡◌, refl, sym, subst, Option, none, some, List, [], ◌∷◌, arith,
  String_discrete, nat_key, string_key,
}
use pi_pilot.Base.Json.{
  Json, null, number, text, array, object, Fields, whole, lookup, of_texts, all_texts-of,
  largest_safe, field, end, as_name-text, as_count-whole, as_integer-whole,
}
use pi_pilot.Notify.Event.{EventType, task_completed, input_required, input_resolved}
use pi_pilot.Subscription.State.{
  NotificationScopes, NotificationCursor, SubscribeRequest, max_background_elapsed_ms,
}
use pi_pilot.Subscription.Requests.{
  event_type, event_types, parse_scopes, parse_notification_cursor, clamp_limit, parse_page_limit,
  parse_elapsed, parse_subscribe_request,
}
use pi_pilot.Subscription.Parsed.{IsCursor, IsLimit, IsRequest}

-- The JSON of a request.
abbrev type_name : EventType → String
type_name task_completed = "task_completed"
type_name input_required = "input_required"
type_name input_resolved = "input_resolved"

abbrev type_names : List EventType → List String
type_names [] = []
type_names (t ∷ ts) = type_name t ∷ type_names ts

abbrev count : ℕ → Json
count n = number (whole (pos n))

abbrev cursor_json : Option NotificationCursor → Json
cursor_json none = null
cursor_json (some c) =
    object (field "eventEpoch" (text c.event_epoch) (field "sequence" (count c.sequence) end))

abbrev ids_field : Option (List String) → Fields → Fields
ids_field none fs = fs
ids_field (some ss) fs = field "sourceIds" (array (of_texts ss)) fs

abbrev types_field : Option (List EventType) → Fields
types_field none = end
types_field (some ts) = field "eventTypes" (array (of_texts (type_names ts))) end

abbrev scopes_json : NotificationScopes → Json
scopes_json s = object (ids_field s.source_ids (types_field s.event_types))

abbrev limit_field : Option ℕ → Fields → Fields
limit_field none fs = fs
limit_field (some n) fs = field "pageLimit" (count n) fs

abbrev elapsed_field : Option ℕ → Fields
elapsed_field none = end
elapsed_field (some n) = field "backgroundElapsedMs" (count n) end

abbrev pub subscribe_json : SubscribeRequest → Json
subscribe_json r = object (
    field "id" (text r.id) (
      field "installationId" (text r.installation_id) (
        field "cursor" (cursor_json r.cursor) (
          field "scopes" (scopes_json r.scopes) (
            field "scopeVersion" (count r.scope_version)
              (limit_field r.page_limit (elapsed_field r.background_elapsed_ms)))))))

event_type-name : (t : EventType) → event_type (type_name t) ≡ some t
unfolding String_discrete
event_type-name task_completed = refl
event_type-name input_required = refl
event_type-name input_resolved = refl

event_types-names : (ts : List EventType) → event_types (type_names ts) ≡ some ts
event_types-names [] = refl
event_types-names (t ∷ ts) = rw (event_type-name t, event_types-names ts) refl

cursor_back :
    (c : Option NotificationCursor)
    → IsCursor c
    → parse_notification_cursor (some (cursor_json c)) ≡ some c
unfolding parse_notification_cursor lookup String_discrete
cursor_back none h = refl
cursor_back (some c) h = rw (as_name-text c.event_epoch h.0, as_count-whole c.sequence h.1) refl

scopes_back : (s : NotificationScopes) → parse_scopes (some (scopes_json s)) ≡ some s
unfolding parse_scopes lookup String_discrete
scopes_back s = both s.source_ids s.event_types
  where
    both :
        (ids : Option (List String)) (types : Option (List EventType))
        → parse_scopes (some (scopes_json (record { source_ids = ids; event_types = types })))
          ≡ some (record { source_ids = ids; event_types = types })
    both none none = refl
    both (some ss) none = rw (all_texts-of ss) refl
    both none (some ts) = rw (all_texts-of (type_names ts), event_types-names ts) refl
    both (some ss) (some ts) =
        rw (all_texts-of ss, all_texts-of (type_names ts), event_types-names ts) refl

elapsed_back :
    (n : ℕ) → n ≤ max_background_elapsed_ms → parse_elapsed (some (count n)) ≡ some (some n)
elapsed_back n h =
    let small : n ≤ largest_safe = omega arith in
    let same_time : min n max_background_elapsed_ms ≡ n = omega arith in
    rw (as_count-whole n small, same_time) refl

limit_back : (n : ℕ) → IsLimit (some n) → parse_page_limit (some (count n)) ≡ n
limit_back n h =
    let small : n ≤ largest_safe = omega (arith, h.0, h.1) in
    let inside : clamp_limit n ≡ n = omega (arith, h.0, h.1) in
    rw (parse_page_limit, as_integer-whole n small) inside

abbrev request_of :
    String
    → String
    → Option NotificationCursor
    → NotificationScopes
    → ℕ
    → ℕ
    → Option ℕ
    → SubscribeRequest
request_of id installation cursor scopes version limit elapsed = record {
  id = id;
  installation_id = installation;
  cursor = cursor;
  scopes = scopes;
  scope_version = version;
  page_limit = some limit;
  background_elapsed_ms = elapsed;
}

parts_back :
    (id installation : String) (cursor : Option NotificationCursor) (scopes : NotificationScopes)
    (version limit : ℕ) (elapsed : Option ℕ)
    → IsRequest (request_of id installation cursor scopes version limit elapsed)
    → parse_subscribe_request
        (some (subscribe_json (request_of id installation cursor scopes version limit elapsed)))
      ≡ some (request_of id installation cursor scopes version limit elapsed)
unfolding parse_subscribe_request lookup String_discrete
parts_back id installation cursor scopes version limit none h =
    rw
      (
        as_name-text id h.named,
        as_name-text installation h.installed,
        cursor_back cursor h.starts,
        scopes_back scopes,
        as_count-whole version h.versioned,
        limit_back limit h.limited,
      )
      refl
parts_back id installation cursor scopes version limit (some n) h =
    rw
      (
        as_name-text id h.named,
        as_name-text installation h.installed,
        cursor_back cursor h.starts,
        scopes_back scopes,
        as_count-whole version h.versioned,
        limit_back limit h.limited,
        elapsed_back n h.timed,
      )
      refl

-- A well-formed subscribe request that is written as JSON is read back as it was.
pub parse_subscribe-json :
    (r : SubscribeRequest)
    → IsRequest r
    → parse_subscribe_request (some (subscribe_json r)) ≡ some r
parse_subscribe-json r h = by_limit r.page_limit refl
  where
    by_limit :
        (o : Option ℕ)
        → r.page_limit ≡ o
        → parse_subscribe_request (some (subscribe_json r)) ≡ some r
    by_limit none e = absurd (subst IsLimit e h.limited)
    by_limit (some n) e =
        let same_request : request_of r.id r.installation_id r.cursor r.scopes r.scope_version n
              r.background_elapsed_ms
            ≡ r =
          rw (← e) refl in
        subst (λ q. parse_subscribe_request (some (subscribe_json q)) ≡ some q) same_request
          (parts_back r.id r.installation_id r.cursor r.scopes r.scope_version n
            r.background_elapsed_ms (subst IsRequest (sym same_request) h))
