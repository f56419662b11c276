-- ===== src/Subscription/Requests.antt =====
-- The requests of the notification protocol, read from JSON values.
use pi_pilot.Base.{
  negsuc, pos, ℕ, max, min, String, Option, none, some, List, [], ◌∷◌, if◌then◌else◌, or_else,
  nat_key, string_key, same,
}
use pi_pilot.Base.Json
use pi_pilot.Base.Json.{
  Json, null, boolean, number, text, array, object, Items, nil, cons, Fields, whole, fraction,
  lookup, as_record, as_text, as_name, as_count, as_texts, ◌>>=◌, ◌>>◌, guard, largest_safe, field,
  end,
}
use pi_pilot.Notify.Event.{EventType, task_completed, input_required, input_resolved}
use pi_pilot.Notify.Receipts.{
  received, display_requested, display_confirmed, suppressed_duplicate, blocked_permission,
  blocked_channel, ReceiptState, ReceiptRequest,
}
use pi_pilot.Subscription.State.{
  NotificationScopes, NotificationCursor, SubscribeRequest, max_page_events,
  max_background_elapsed_ms,
}
use pi_pilot.Subscription.Live.{AckRequest}

-- EVENT_TYPES, and the type that a text names
abbrev pub event_type : String → Option EventType
event_type s =
    if same s "task_completed"
    then some task_completed
    else if same s "input_required"
    then some input_required
    else if same s "input_resolved"
    then some input_resolved
    else none

abbrev pub event_types : List String → Option (List EventType)
event_types [] = some []
event_types (s ∷ ss) = do let t = (← event_type s); let ts = (← event_types ss); some (t ∷ ts)

-- A field of the scopes that is absent stays absent; `null` is not an array.
abbrev pub parse_source_ids : Option Json → Option (Option (List String))
parse_source_ids none = some none
parse_source_ids (some v) = do let ss = (← as_texts v); some (some ss)

abbrev pub parse_event_types : Option Json → Option (Option (List EventType))
parse_event_types none = some none
parse_event_types (some v) = do let ss = (← as_texts v); let ts = (← event_types ss); some (some ts)

abbrev pub no_scopes : NotificationScopes
no_scopes = record { source_ids = none; event_types = none }

abbrev pub read_scopes : Fields → Option NotificationScopes
read_scopes fs = do
  let ids = (← parse_source_ids (lookup "sourceIds" fs))
  let types = (← parse_event_types (lookup "eventTypes" fs))
  some (record { source_ids = ids; event_types = types })

-- `parseScopes`
unfoldable pub parse_scopes : Option Json → Option NotificationScopes
parse_scopes none = some no_scopes
parse_scopes (some null) = some no_scopes
parse_scopes (some v) = do let fs = (← as_record (some v)); read_scopes fs

-- `parseNotificationCursor`: the outer `none` is a value that is not a cursor.
abbrev pub read_cursor : Fields → Option (Option NotificationCursor)
read_cursor fs = do
  let epoch = (← as_name (lookup "eventEpoch" fs))
  let sequence = (← as_count (lookup "sequence" fs))
  some (some (record { event_epoch = epoch; sequence = sequence }))

unfoldable pub parse_notification_cursor : Option Json → Option (Option NotificationCursor)
parse_notification_cursor none = some none
parse_notification_cursor (some null) = some none
parse_notification_cursor (some v) = do let fs = (← as_record (some v)); read_cursor fs

-- A page limit of another kind is the greatest one.
abbrev pub clamp_limit : ℕ → ℕ
clamp_limit n = min (max n 1) max_page_events

abbrev pub parse_page_limit : Option Json → ℕ
parse_page_limit v = elim (Json.as_integer v) [
  | none ↦ max_page_events
  | some (pos n) ↦ clamp_limit n
  | some (negsuc n) ↦ 1
]

abbrev pub parse_elapsed : Option Json → Option (Option ℕ)
parse_elapsed none = some none
parse_elapsed (some v) = do
  let n = (← as_count (some v))
  some (some (min n max_background_elapsed_ms))

-- `parseSubscribeRequest`
abbrev pub read_subscribe : Fields → Option SubscribeRequest
read_subscribe fs = do
  let id = (← as_name (lookup "id" fs))
  let installation = (← as_name (lookup "installationId" fs))
  let cursor = (← parse_notification_cursor (lookup "cursor" fs))
  let scopes = (← parse_scopes (lookup "scopes" fs))
  let version = (← as_count (lookup "scopeVersion" fs))
  let elapsed = (← parse_elapsed (lookup "backgroundElapsedMs" fs))
  some (record {
    id = id;
    installation_id = installation;
    cursor = cursor;
    scopes = scopes;
    scope_version = version;
    page_limit = some (parse_page_limit (lookup "pageLimit" fs));
    background_elapsed_ms = elapsed;
  })

unfoldable pub parse_subscribe_request : Option Json → Option SubscribeRequest
parse_subscribe_request v = do let fs = (← as_record v); read_subscribe fs

-- `parseAckRequest`
unfoldable pub parse_ack_request : Option Json → Option AckRequest
parse_ack_request v = do
  let fs = (← as_record v)
  let installation = (← as_name (lookup "installationId" fs))
  let epoch = (← as_name (lookup "eventEpoch" fs))
  let through = (← as_count (lookup "through" fs))
  some (record { installation_id = installation; event_epoch = epoch; through = through })

-- RECEIPT_STATES, and the state that a text names
abbrev pub receipt_state : String → Option ReceiptState
receipt_state s =
    if same s "received"
    then some received
    else if same s "display_requested"
    then some display_requested
    else if same s "display_confirmed"
    then some display_confirmed
    else if same s "suppressed_duplicate"
    then some suppressed_duplicate
    else if same s "blocked_permission"
    then some blocked_permission
    else if same s "blocked_channel"
    then some blocked_channel
    else none

-- `parseReceiptRequest`; a time that is no text is the clock's.
unfoldable pub parse_receipt_request : String → Option Json → Option ReceiptRequest
parse_receipt_request now v = do
  let fs = (← as_record v)
  let installation = (← as_name (lookup "installationId" fs))
  let event = (← as_name (lookup "eventId" fs))
  let name = (← as_text (lookup "state" fs))
  let state = (← receipt_state name)
  some (record {
    installation_id = installation;
    event_id = event;
    state = state;
    at = or_else (as_text (lookup "at" fs)) now;
  })
