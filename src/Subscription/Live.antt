-- ===== src/Subscription/Live.antt =====
-- Events that come in while a subscription is open, the end of the catch-up, and acknowledgements.
use pi_pilot.Base.{
  ℕ, ◌+◌, max, String, Bool, true, false, ◌||◌, not, Option, none, some, List, [], ◌∷◌, ◌++◌, ltb,
  leb, if◌then◌else◌, nat_key, string_key, same, length,
}
use pi_pilot.Base.Map
use pi_pilot.Base.Map.{Map}
use pi_pilot.Notify.Event.{NotificationEvent}
use pi_pilot.Notify.Store.{EventStore, Write, record_ack}
use pi_pilot.Subscription.State.{
  max_live_buffer, max_live_buffer_bytes, ReadyFrame, SubscriptionState, Manager, Around, tip,
  matches_scope,
}
use pi_pilot.Subscription.Paging.{put_back}

-- Into the buffer, or over its limits.
abbrev pub buffer_event : Around → NotificationEvent → SubscriptionState → SubscriptionState
buffer_event a e s =
    if leb max_live_buffer (length s.live_buffer)
      || ltb max_live_buffer_bytes (s.live_buffer_bytes + a.json_length e)
    then record s { overflowed = true }
    else record s {
      live_buffer = s.live_buffer ++ e ∷ [];
      live_buffer_bytes = s.live_buffer_bytes + a.json_length e;
    }

-- One round of `onEvent`: the subscription, and whether the event goes out at once.
unfoldable pub offer : Around → NotificationEvent → SubscriptionState → SubscriptionState × Bool
offer a e s =
    if not (matches_scope e s.scopes)
    then (s, false)
    else if s.ready
    then (record s { delivered = max s.delivered e.sequence }, true)
    else (buffer_event a e s, false)

unfoldable pub offer_each :
    Around
    → NotificationEvent
    → Map String SubscriptionState
    → Map String SubscriptionState × Map String (List NotificationEvent)
offer_each a e [] = ([], [])
offer_each a e ((k, s) ∷ m) =
    let (s', now) = offer a e s in
    let (m', out) = offer_each a e m in ((k, s') ∷ m', if now then (s'.id, e ∷ []) ∷ out else out)

-- `onEvent`
unfoldable pub on_event :
    Around → NotificationEvent → Manager → Manager × Map String (List NotificationEvent)
on_event a e m =
    let (subscriptions, out) = offer_each a e m.subscriptions in
    (record m { subscriptions = subscriptions }, out)

pub record DrainedLiveEvents : Type 0 where
  pub events : List NotificationEvent
  pub skipped : List ℕ

abbrev pub also_skipped : ℕ → DrainedLiveEvents → DrainedLiveEvents
also_skipped n d = record d { skipped = n ∷ d.skipped }

abbrev pub also_event : NotificationEvent → DrainedLiveEvents → DrainedLiveEvents
also_event e d = record d { events = e ∷ d.events }

-- The loop of `drainLiveBuffer`, with how far the subscription is.
unfoldable pub drain_from : Around → ℕ → List NotificationEvent → DrainedLiveEvents × ℕ
drain_from a delivered [] = (record { events = []; skipped = [] }, delivered)
drain_from a delivered (e ∷ es) =
    let (d, end) = drain_from a (max delivered e.sequence) es in
    let passed = drain_from a delivered es in
    if leb e.sequence delivered
    then passed
    else if a.is_stale_event e
    then (also_skipped e.sequence d, end)
    else (also_event e d, end)

-- What `drainLiveBuffer` gives: the events, or the frame that asks for a new start.
pub data DrainResult : Type 0 where
  drained : DrainedLiveEvents → DrainResult
  drain_resync : String → DrainResult

abbrev pub emptied : ℕ → SubscriptionState → SubscriptionState
emptied delivered s = record s { delivered = delivered; live_buffer = []; live_buffer_bytes = 0 }

unfoldable pub drain_live_buffer : Around → String → Manager → Manager × DrainResult
drain_live_buffer a id m = elim (Map.get id m.subscriptions) [
  | none ↦ (m, drained (record { events = []; skipped = [] }))
  | some s ↦
      if s.overflowed
      then (m, drain_resync s.id)
      else let (d, delivered) = drain_from a s.delivered s.live_buffer in
        (put_back (emptied delivered s) m, drained d)
]

abbrev pub ready_frame : Manager → SubscriptionState → ReadyFrame
ready_frame m s = record {
  subscription_id = s.id;
  bridge_installation_id = m.bridge_installation_id;
  event_epoch = m.event_epoch;
  through = s.delivered;
  generation = s.generation;
}

-- `markReady`
unfoldable pub mark_ready : String → Manager → Manager × Option ReadyFrame
mark_ready id m = elim (Map.get id m.subscriptions) [
  | none ↦ (m, none)
  | some s ↦
      if not s.caught_up || ltb 0 (length s.live_buffer) || s.overflowed
      then (m, none)
      else (put_back (record s { ready = true }) m, some (ready_frame m s))
]

-- `isReady`
abbrev pub is_ready : String → Manager → Bool
is_ready id m = elim (Map.get id m.subscriptions) [ none ↦ false | some s ↦ s.ready ]

pub data AckResult : Type 0 where
  ack_ok epoch_mismatch ack_beyond_tip ack_not_persisted : AckResult

pub record AckRequest : Type 0 where
  pub installation_id : String
  pub event_epoch : String
  pub through : ℕ

-- `ack`: it writes to the store.
unfoldable pub ack : ℕ → Write → AckRequest → Manager → EventStore → EventStore × AckResult
ack now w r m store =
    if not (same r.event_epoch m.event_epoch)
    then (store, epoch_mismatch)
    else if ltb (tip store) r.through
    then (store, ack_beyond_tip)
    else let (store', persisted) =
        record_ack now w r.installation_id r.event_epoch r.through store in
      (store', if persisted then ack_ok else ack_not_persisted)

-- `unsubscribe`
abbrev pub unsubscribe : String → Manager → Manager
unsubscribe id m = record m { subscriptions = Map.delete id m.subscriptions }

-- `unsubscribeInstallation`
unfoldable pub without_installation :
    String → Map String SubscriptionState → Map String SubscriptionState
without_installation i [] = []
without_installation i ((k, s) ∷ m) =
    let rest = without_installation i m in if same s.installation_id i then rest else (k, s) ∷ rest

abbrev pub unsubscribe_installation : String → Manager → Manager
unsubscribe_installation i m = record m { subscriptions = without_installation i m.subscriptions }

-- `activeCount` and `readyCount`
abbrev pub active_count : Manager → ℕ
active_count m = length m.subscriptions

abbrev pub ready_in : Map String SubscriptionState → ℕ
ready_in [] = 0
ready_in ((k, s) ∷ m) = let n = ready_in m in if s.ready then n + 1 else n

abbrev pub ready_count : Manager → ℕ
ready_count m = ready_in m.subscriptions
