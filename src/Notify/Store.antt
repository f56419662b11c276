-- ===== src/Notify/Store.antt =====
-- The event store's state, its log, and the operations that write to it. The log is a list of lines;
-- how a write to the file ended, the clock and the size of the file are arguments.
use pi_pilot.Base.{
  ℕ, ◌+◌, ◌*◌, String, Bool, true, false, Option, none, some, List, [], ◌∷◌, ◌++◌, ltb, leb,
  if◌then◌else◌, nat_key, string_key, length,
}
use pi_pilot.Base.Map
use pi_pilot.Base.Map.{Map}
use pi_pilot.Notify.Event.{NotificationEvent, high, normal}

pub record AckRecord : Type 0 where
  pub installation_id : String
  pub event_epoch : String
  pub through : ℕ
  pub at : ℕ

pub data GenerationState : Type 0 where
  in_flight completed cancelled : GenerationState

pub record GenerationRecord : Type 0 where
  pub source_id : String
  pub task_generation_id : String
  pub state : GenerationState
  pub event_id : Option String
  pub at : ℕ

pub data LogRecord : Type 0 where
  event_line : NotificationEvent → LogRecord
  ack_line : AckRecord → LogRecord
  generation_line : GenerationRecord → LogRecord
  tombstone_line : ℕ → LogRecord
  delivery_line : LogRecord

-- A line whose checksum is right, or one that is damaged.
pub data Line : Type 0 where
  whole : LogRecord → Line
  damaged : Line

-- `torn`: the last line, a damaged one, has no line end, so that what is written next joins it.
pub record Log : Type 0 where
  pub lines : List Line
  pub torn : Bool

-- How an append ends: synced to disk, or failed with nothing, the whole line or a part of it written.
pub data Write : Type 0 where
  synced failed_clean failed_whole failed_torn : Write

abbrev pub add_line : LogRecord → Log → Log
add_line r l =
    if l.torn then record l { torn = false } else record l { lines = l.lines ++ whole r ∷ [] }

abbrev pub add_torn : Log → Log
add_torn l = if l.torn then l else record { lines = l.lines ++ damaged ∷ []; torn = true }

abbrev pub written : Write → LogRecord → Log → Log
written synced r l = add_line r l
written failed_clean r l = l
written failed_whole r l = add_line r l
written failed_torn r l = add_torn l

-- The ratio of tombstones is in tenths.
pub record StoreOptions : Type 0 where
  pub max_bytes : ℕ
  pub max_events : ℕ
  pub tombstone_tenths : ℕ
  pub retention_ms : ℕ
  pub max_pending : ℕ

abbrev pub default_options : StoreOptions
default_options = record {
  max_bytes = 16 * 1024 * 1024;
  max_events = 10000;
  tombstone_tenths = 3;
  retention_ms = 7 * 24 * 60 * 60 * 1000;
  max_pending = 1000;
}

pub record EventStore : Type 0 where
  pub events : Map ℕ NotificationEvent
  pub event_id_index : Map String ℕ
  pub acks : Map String AckRecord
  pub generations : Map String GenerationRecord
  pub tombstones : ℕ
  pub compactions : ℕ
  pub corrupt_records : ℕ
  pub dropped_backpressure : ℕ
  pub write_failures : ℕ
  pub last_sequence : ℕ
  pub pending : List NotificationEvent
  pub degraded : Bool
  pub log : Log

abbrev pub new_store : Log → EventStore
new_store log = record {
  events = [];
  event_id_index = [];
  acks = [];
  generations = [];
  tombstones = 0;
  compactions = 0;
  corrupt_records = 0;
  dropped_backpressure = 0;
  write_failures = 0;
  last_sequence = 0;
  pending = [];
  degraded = false;
  log = log;
}

abbrev pub is_synced : Write → Bool
is_synced synced = true
is_synced failed_clean = false
is_synced failed_whole = false
is_synced failed_torn = false

-- `appendSync`; whether it succeeded is `is_synced`.
unfoldable pub append_sync : Write → LogRecord → EventStore → EventStore
append_sync w r s =
    if is_synced w then record s { log = written w r s.log; degraded = false } else record s {
      log = written w r s.log;
      degraded = true;
      write_failures = s.write_failures + 1;
    }

-- An event that is on disk.
unfoldable pub take_in : NotificationEvent → EventStore → EventStore
take_in e s = record s {
  events = Map.set e.sequence e s.events;
  event_id_index = Map.set e.event_id e.sequence s.event_id_index;
  last_sequence = if ltb s.last_sequence e.sequence then e.sequence else s.last_sequence;
}

-- The first pending event of normal priority is taken out, if there is one.
abbrev pub without_normal : List NotificationEvent → Option (List NotificationEvent)
without_normal [] = none
without_normal (e ∷ es) =
    let rest = without_normal es in
    elim e.priority [
      | normal ↦ some es
      | high ↦ elim rest [ none ↦ none | some xs ↦ some (e ∷ xs) ]
    ]

unfoldable pub set_aside : StoreOptions → NotificationEvent → EventStore → EventStore
set_aside o e s =
    if ltb (length s.pending) o.max_pending
    then record s { pending = s.pending ++ e ∷ [] }
    else elim (without_normal s.pending) [
      | none ↦ record s { dropped_backpressure = s.dropped_backpressure + 1 }
      | some rest ↦ record s {
        pending = rest ++ e ∷ [];
        dropped_backpressure = s.dropped_backpressure + 1;
      }
    ]

-- `nextSequence` and `tip`
unfoldable pub next_sequence : EventStore → ℕ
next_sequence s = s.last_sequence + 1

unfoldable pub begin_generation : ℕ → Write → String → String → EventStore → EventStore × Bool
begin_generation now w source_id id s =
    let r : GenerationRecord = record {
      source_id = source_id;
      task_generation_id = id;
      state = in_flight;
      event_id = none;
      at = now;
    } in
    let s' = append_sync w (generation_line r) s in
    (record s' { generations = Map.set id r s'.generations }, is_synced w)

abbrev pub source_of : Option GenerationRecord → String
source_of none = ""
source_of (some g) = g.source_id

abbrev pub is_completed : Option GenerationRecord → Bool
is_completed none = false
is_completed (some g) = elim g.state [ in_flight ↦ false | completed ↦ true | cancelled ↦ false ]

-- There is one, and it is not in flight.
abbrev pub is_over : Option GenerationRecord → Bool
is_over none = false
is_over (some g) = elim g.state [ in_flight ↦ false | completed ↦ true | cancelled ↦ true ]

abbrev pub ended : ℕ → Write → GenerationRecord → EventStore → EventStore
ended now w r s =
    let s' = append_sync w (generation_line r) s in
    record s' { generations = Map.set r.task_generation_id r s'.generations }

abbrev pub ending : ℕ → GenerationState → Option String → String → EventStore → GenerationRecord
ending now state event_id id s = record {
  source_id = source_of (Map.get id s.generations);
  task_generation_id = id;
  state = state;
  event_id = event_id;
  at = now;
}

unfoldable pub complete_generation : ℕ → Write → String → String → EventStore → EventStore × Bool
complete_generation now w id event_id s =
    if is_completed (Map.get id s.generations)
    then (s, false)
    else (ended now w (ending now completed (some event_id) id s) s, true)

unfoldable pub cancel_generation : ℕ → Write → String → EventStore → EventStore × Bool
cancel_generation now w id s =
    if is_over (Map.get id s.generations)
    then (s, false)
    else (ended now w (ending now cancelled none id s) s, true)

-- `recordAck`; an absent acknowledgement is below every number.
abbrev pub reaches : Option AckRecord → ℕ → Bool
reaches none through = false
reaches (some a) through = leb through a.through

unfoldable pub record_ack : ℕ → Write → String → String → ℕ → EventStore → EventStore × Bool
record_ack now w installation_id event_epoch through s =
    if reaches (Map.get installation_id s.acks) through
    then (s, true)
    else let r : AckRecord = record {
      installation_id = installation_id;
      event_epoch = event_epoch;
      through = through;
      at = now;
    } in
      let s' = append_sync w (ack_line r) s in
      if is_synced w
      then (record s' { acks = Map.set installation_id r s'.acks }, true)
      else (s', false)
