-- ===== src/Subscription/Paging.antt =====
-- A page of a subscription, the ranges it reports as skipped, and the subscribe operation.
use pi_pilot.Base.{
  ℕ, zero, suc, ◌+◌, ◌-◌, String, Bool, true, false, ◌&&◌, ◌||◌, not, Option, none, some, List, [],
  ◌∷◌, ◌++◌, ltb, leb, ◌==◌, if◌then◌else◌, or_else, nat_key, string_key, same, length,
}
use pi_pilot.Base.Map
use pi_pilot.Base.Map.{Map}
use pi_pilot.Notify.Event.{NotificationEvent}
use pi_pilot.Notify.Store.{EventStore}
use pi_pilot.Notify.Log.{oldest_available}
use pi_pilot.Subscription.State.{
  max_page_events, max_page_bytes, SubscribeRequest, SkippedRange, EventsPage, retention,
  store_reset, SubscribeResult, notification_events, cursor_expired, scope_changed, resync_required,
  SubscriptionState, Manager, Around, event_by_sequence, tip, is_left_out, NotificationCursor,
}

-- `sort` by number
abbrev pub insert_number : ℕ → List ℕ → List ℕ
insert_number n [] = n ∷ []
insert_number n (m ∷ ms) = let rest = insert_number n ms in if leb n m then n ∷ m ∷ ms else m ∷ rest

abbrev pub sort_numbers : List ℕ → List ℕ
sort_numbers [] = []
sort_numbers (n ∷ ns) = insert_number n (sort_numbers ns)

-- The loop of `mergeSkipped`, with the range it is in.
abbrev pub merge_from : ℕ → ℕ → List ℕ → List SkippedRange
merge_from start prev [] = record { from = start; through = prev } ∷ []
merge_from start prev (current ∷ rest) =
    let longer = merge_from start current rest in
    let next = merge_from current current rest in
    if current == prev + 1 then longer else record { from = start; through = prev } ∷ next

abbrev pub merge_sorted : List ℕ → List SkippedRange
merge_sorted [] = []
merge_sorted (n ∷ ns) = merge_from n n ns

-- `mergeSkipped`
unfoldable pub merge_skipped : List ℕ → List SkippedRange
merge_skipped ns = merge_sorted (sort_numbers ns)

-- `coversContinuously`: the set of what is seen is a list.
abbrev pub has_number : ℕ → List ℕ → Bool
has_number n [] = false
has_number n (m ∷ ms) = n == m || has_number n ms

abbrev pub count_up : ℕ → ℕ → List ℕ
count_up from zero = []
count_up from (suc rounds) = from ∷ count_up (suc from) rounds

abbrev pub sequences_of : List NotificationEvent → List ℕ
sequences_of [] = []
sequences_of (e ∷ es) = e.sequence ∷ sequences_of es

abbrev pub numbers_in : List SkippedRange → List ℕ
numbers_in [] = []
numbers_in (r ∷ rs) = count_up r.from (suc r.through - r.from) ++ numbers_in rs

abbrev pub all_seen : ℕ → ℕ → List ℕ → Bool
all_seen n zero seen = true
all_seen n (suc rounds) seen = has_number n seen && all_seen (suc n) rounds seen

unfoldable pub covers_continuously : ℕ → ℕ → List NotificationEvent → List SkippedRange → Bool
covers_continuously from_exclusive through events skipped =
    if leb through from_exclusive
    then length events == 0 && length skipped == 0
    else all_seen (suc from_exclusive) (through - from_exclusive)
        (sequences_of events ++ numbers_in skipped)

-- What the loop of `nextPage` gathers.
pub record Batch : Type 0 where
  pub events : List NotificationEvent
  pub skipped : List ℕ
  pub cursor : ℕ

abbrev pub with_event : NotificationEvent → Batch → Batch
with_event e b = record b { events = e ∷ b.events }

abbrev pub with_skipped : ℕ → Batch → Batch
with_skipped n b = record b { skipped = n ∷ b.skipped }

abbrev pub ends_at : ℕ → Batch
ends_at cursor = record { events = []; skipped = []; cursor = cursor }

-- The loop of `nextPage` on the rounds that are left, with the events on the page and their bytes.
unfoldable pub page_from : Around → SubscriptionState → ℕ → ℕ → ℕ → ℕ → Batch
page_from a s zero cursor count bytes = ends_at cursor
page_from a s (suc rounds) cursor count bytes =
    let next = suc cursor in
    let passed = with_skipped next (page_from a s rounds next count bytes) in
    if not (ltb cursor s.tip && ltb count s.page_limit)
    then ends_at cursor
    else elim (event_by_sequence next a.store) [
      | none ↦ passed
      | some e ↦
          let taken =
            with_event e (page_from a s rounds next (count + 1) (bytes + a.json_length e)) in
          if is_left_out a s e
          then passed
          else if ltb 0 count && ltb max_page_bytes (bytes + a.json_length e)
          then ends_at cursor
          else taken
    ]

-- Each round moves the cursor, so that as many are enough as are missing to the tip.
abbrev pub batch_of : Around → SubscriptionState → Batch
batch_of a s = page_from a s (s.tip - s.delivered) s.delivered 0 0

abbrev pub advanced : Batch → SubscriptionState → SubscriptionState
advanced b s = record s {
  delivered = b.cursor;
  caught_up = not (ltb b.cursor s.tip) || s.caught_up;
}

abbrev pub page_of : Around → Manager → SubscriptionState → Batch → EventsPage
page_of a m s b = record {
  id = s.id;
  event_epoch = m.event_epoch;
  scope_version = s.scope_version;
  bridge_now = a.now;
  from_exclusive = s.delivered;
  through = b.cursor;
  tip = s.tip;
  events = b.events;
  skipped_ranges = merge_skipped b.skipped;
  has_more = ltb b.cursor s.tip;
  oldest_available = oldest_available a.store;
}

abbrev pub put_back : SubscriptionState → Manager → Manager
put_back s m = record m { subscriptions = Map.set s.id s m.subscriptions }

abbrev pub is_other_scope : Option ℕ → SubscriptionState → Bool
is_other_scope none s = false
is_other_scope (some version) s = not (version == s.scope_version)

-- `nextPage`
unfoldable pub next_page : Around → String → Option ℕ → Manager → Manager × Option SubscribeResult
next_page a id scope_version m = elim (Map.get id m.subscriptions) [
  | none ↦ (m, none)
  | some s ↦
      if is_other_scope scope_version s
      then (m, some (scope_changed s.id s.scope_version))
      else if s.overflowed
      then (m, some (resync_required s.id))
      else let b = batch_of a s in
        (put_back (advanced b s) m, some (notification_events (page_of a m s b)))
]

abbrev pub empty_page : Around → Manager → SubscriptionState → EventsPage
empty_page a m s = record {
  id = s.id;
  event_epoch = m.event_epoch;
  scope_version = s.scope_version;
  bridge_now = a.now;
  from_exclusive = s.delivered;
  through = s.delivered;
  tip = s.tip;
  events = [];
  skipped_ranges = [];
  has_more = false;
  oldest_available = oldest_available a.store;
}

abbrev pub is_other_epoch : Option NotificationCursor → String → Bool
is_other_epoch none epoch = false
is_other_epoch (some c) epoch = not (same c.event_epoch epoch)

-- The cursor stands before the events that are left.
abbrev pub is_expired_cursor : Option NotificationCursor → EventStore → Bool
is_expired_cursor none s = false
is_expired_cursor (some c) s = ltb 0 (tip s) && ltb (c.sequence + 1) (oldest_available s)

abbrev pub start_of : Option NotificationCursor → EventStore → ℕ
start_of none s = oldest_available s - 1
start_of (some c) s = c.sequence

-- A clock that is below the time in the background leaves no event before the window.
abbrev pub new_subscription : Around → SubscribeRequest → ℕ → SubscriptionState
new_subscription a r generation = record {
  id = r.id;
  installation_id = r.installation_id;
  scopes = r.scopes;
  scope_version = r.scope_version;
  tip = tip a.store;
  delivered = start_of r.cursor a.store;
  page_limit = or_else r.page_limit max_page_events;
  live_buffer = [];
  live_buffer_bytes = 0;
  overflowed = false;
  caught_up = tip a.store == 0;
  ready = false;
  generation = generation;
  completion_not_before = elim r.background_elapsed_ms [
    | none ↦ none
    | some elapsed ↦ some (a.now - elapsed)
  ];
}

abbrev pub or_empty :
    Around → SubscriptionState → Manager × Option SubscribeResult → Manager × SubscribeResult
or_empty a s (m, none) = (m, notification_events (empty_page a m s))
or_empty a s (m, some result) = (m, result)

-- `subscribe`
unfoldable pub subscribe : Around → SubscribeRequest → Manager → Manager × SubscribeResult
subscribe a r m =
    if is_other_epoch r.cursor m.event_epoch
    then (m, cursor_expired r.id m.event_epoch (oldest_available a.store) (tip a.store) store_reset)
    else if is_expired_cursor r.cursor a.store
    then (m, cursor_expired r.id m.event_epoch (oldest_available a.store) (tip a.store) retention)
    else let generation = m.generation_counter + 1 in
      let s = new_subscription a r generation in
      or_empty a s (
        next_page a r.id (some r.scope_version)
          (put_back s (record m { generation_counter = generation })))
