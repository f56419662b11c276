-- ===== src/Notify/Durable.antt =====
-- What is reported as persisted is found after a restart; and what becomes of events that are not.
use pi_pilot.Base.{
  ℕ, String, ◌≡◌, refl, Bool, false, List, [], ◌∷◌, ◌++◌, arith, nat_key, string_key,
}
use pi_pilot.Base.Map
use pi_pilot.Base.Map.{Map}
use pi_pilot.Notify.Event.{NotificationEvent}
use pi_pilot.Notify.Store.{
  AckRecord, GenerationRecord, event_line, Line, Log, Write, synced, StoreOptions, EventStore,
  new_store, append_sync, is_synced, take_in, set_aside, next_sequence,
}
use pi_pilot.Notify.Restart.{Restart, replayed}
use pi_pilot.Notify.Log.{append_event, apply_line, replay_lines}

-- What a restart has to restore.
pub record Data : Type 0 where
  pub events : Map ℕ NotificationEvent
  pub event_id_index : Map String ℕ
  pub acks : Map String AckRecord
  pub generations : Map String GenerationRecord
  pub last_sequence : ℕ

abbrev pub data_of : EventStore → Data
data_of s = record {
  events = s.events;
  event_id_index = s.event_id_index;
  acks = s.acks;
  generations = s.generations;
  last_sequence = s.last_sequence;
}

-- Replaying the log gives what the store holds, and the log ends with a line's end.
pub record IsDurable (s : EventStore) : Type 0 where
  pub same_data : data_of (replayed s) ≡ data_of s
  pub ended : s.log.torn ≡ false

pub replay_lines-append :
    (ls ms : List Line) (s : EventStore)
    → replay_lines (ls ++ ms) s ≡ replay_lines ms (replay_lines ls s)
unfolding replay_lines
replay_lines-append [] ms s = refl
replay_lines-append (l ∷ ls) ms s = replay_lines-append ls ms (apply_line l s)

-- The log itself has no part in a replay.
with_log : Log → EventStore → EventStore
with_log log s = record s { log = log }

-- The store right after the event's line was synced.
abbrev pub noted : NotificationEvent → EventStore → EventStore
noted e s = take_in e (append_sync synced (event_line e) s)

after_log : Log → EventStore
after_log l = replay_lines l.lines (new_store l)

-- An event that could not be written keeps its sequence for the next one: the number is given out
-- again, whatever was written of the line.
pub failed_append_reuses :
    (o : StoreOptions) (w : Write) (bytes : ℕ) (done : Bool) (e : NotificationEvent)
    (s : EventStore)
    → is_synced w ≡ false
    → ((append_event o w bytes done e s).1 ≡ false)
      × (next_sequence (append_event o w bytes done e s).0 ≡ next_sequence s)
      × ((append_event o w bytes done e s).0.events ≡ s.events)
unfolding append_event set_aside next_sequence append_sync
failed_append_reuses o w bytes done e s h = ground arith
