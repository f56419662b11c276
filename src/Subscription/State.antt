-- ===== src/Subscription/State.antt =====
-- The subscriptions of the notification protocol, the frames they are answered with, and what a
-- subscription leaves out.
use pi_pilot.Base.{
  ℕ, ◌*◌, String, Bool, true, false, ◌&&◌, ◌||◌, not, Option, none, some, List, [], ◌∷◌, ltb, same,
  string_key, nat_key,
}
use pi_pilot.Base.Map
use pi_pilot.Base.Map.{Map}
use pi_pilot.Notify.Event.{
  EventType, task_completed, input_required, input_resolved, NotificationEvent,
}
use pi_pilot.Notify.Store.{EventStore}

abbrev pub max_page_events : ℕ
max_page_events = 100

abbrev pub max_page_bytes : ℕ
max_page_bytes = 64 * 1024

abbrev pub max_live_buffer : ℕ
max_live_buffer = 256

abbrev pub max_live_buffer_bytes : ℕ
max_live_buffer_bytes = 1024 * 1024

abbrev pub max_background_elapsed_ms : ℕ
max_background_elapsed_ms = 24 * 60 * 60 * 1000

pub record NotificationScopes : Type 0 where
  pub source_ids : Option (List String)
  pub event_types : Option (List EventType)

pub record NotificationCursor : Type 0 where
  pub event_epoch : String
  pub sequence : ℕ

pub record SubscribeRequest : Type 0 where
  pub id : String
  pub installation_id : String
  pub cursor : Option NotificationCursor
  pub scopes : NotificationScopes
  pub scope_version : ℕ
  pub page_limit : Option ℕ
  pub background_elapsed_ms : Option ℕ

pub record SkippedRange : Type 0 where
  pub from : ℕ
  pub through : ℕ

pub record EventsPage : Type 0 where
  pub id : String
  pub event_epoch : String
  pub scope_version : ℕ
  pub bridge_now : ℕ
  pub from_exclusive : ℕ
  pub through : ℕ
  pub tip : ℕ
  pub events : List NotificationEvent
  pub skipped_ranges : List SkippedRange
  pub has_more : Bool
  pub oldest_available : ℕ

pub data CursorExpiredReason : Type 0 where
  retention store_reset identity_changed : CursorExpiredReason

-- `SubscribeResult`
pub data SubscribeResult : Type 0 where
  notification_events : EventsPage → SubscribeResult
  cursor_expired : String → String → ℕ → ℕ → CursorExpiredReason → SubscribeResult
  scope_changed : String → ℕ → SubscribeResult
  resync_required : String → SubscribeResult

pub record ReadyFrame : Type 0 where
  pub subscription_id : String
  pub bridge_installation_id : String
  pub event_epoch : String
  pub through : ℕ
  pub generation : ℕ

pub record SubscriptionState : Type 0 where
  pub id : String
  pub installation_id : String
  pub scopes : NotificationScopes
  pub scope_version : ℕ
  pub tip : ℕ
  pub delivered : ℕ
  pub page_limit : ℕ
  pub live_buffer : List NotificationEvent
  pub live_buffer_bytes : ℕ
  pub overflowed : Bool
  pub caught_up : Bool
  pub ready : Bool
  pub generation : ℕ
  pub completion_not_before : Option ℕ

pub record Manager : Type 0 where
  pub subscriptions : Map String SubscriptionState
  pub generation_counter : ℕ
  pub bridge_installation_id : String
  pub event_epoch : String

-- What a call reads beside the manager: the store, the clock, the test for stale events that the
-- manager was made with, and the length of an event's JSON text.
pub record Around : Type 0 where
  pub store : EventStore
  pub now : ℕ
  pub is_stale_event : NotificationEvent → Bool
  pub json_length : NotificationEvent → ℕ

abbrev pub event_by_sequence : ℕ → EventStore → Option NotificationEvent
event_by_sequence n s = Map.get n s.events

-- `tip`
abbrev pub tip : EventStore → ℕ
tip s = s.last_sequence

-- `includes`
abbrev pub includes : String → List String → Bool
includes s [] = false
includes s (t ∷ ts) = same t s || includes s ts

abbrev pub same_type : EventType → EventType → Bool
same_type task_completed t = elim t [
  | task_completed ↦ true
  | input_required ↦ false
  | input_resolved ↦ false
]
same_type input_required t = elim t [
  | task_completed ↦ false
  | input_required ↦ true
  | input_resolved ↦ false
]
same_type input_resolved t = elim t [
  | task_completed ↦ false
  | input_required ↦ false
  | input_resolved ↦ true
]

abbrev pub includes_type : EventType → List EventType → Bool
includes_type t [] = false
includes_type t (u ∷ us) = same_type u t || includes_type t us

-- A scope that is absent or empty lets everything through.
abbrev pub in_sources : Option String → Option (List String) → Bool
in_sources s none = true
in_sources s (some []) = true
in_sources none (some (x ∷ xs)) = false
in_sources (some s) (some (x ∷ xs)) = includes s (x ∷ xs)

abbrev pub in_types : EventType → Option (List EventType) → Bool
in_types t none = true
in_types t (some []) = true
in_types t (some (x ∷ xs)) = includes_type t (x ∷ xs)

-- `matchesScope`
unfoldable pub matches_scope : NotificationEvent → NotificationScopes → Bool
matches_scope e s = in_sources e.source_id s.source_ids && in_types e.type s.event_types

-- A completion from before the phone went to the background; a time that is not one is not before.
abbrev pub is_before_background_window : NotificationEvent → SubscriptionState → Bool
is_before_background_window e s = same_type e.type task_completed && (elim s.completion_not_before [
  | none ↦ false
  | some limit ↦ elim e.created_at [ none ↦ false | some created ↦ ltb created limit ]
])

-- What a page passes over.
unfoldable pub is_left_out : Around → SubscriptionState → NotificationEvent → Bool
is_left_out a s e =
    a.is_stale_event e || is_before_background_window e s || not (matches_scope e s.scopes)
