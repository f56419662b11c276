-- ===== src/Notify/Tests.antt =====
-- The event store, the detector and the receipts at concrete inputs.
use pi_pilot.Base.{
  ◌≤◌, String, ◌≡◌, refl, true, false, none, some, [], ◌∷◌, arith, nat_key, string_key,
}
use pi_pilot.Base.Map
use pi_pilot.Base.Map.{Map}
use pi_pilot.Notify.Event.{NotificationEvent, task_completed, high, generic}
use pi_pilot.Notify.Store.{
  append_sync, set_aside, GenerationRecord, in_flight, synced, failed_clean, default_options,
  EventStore, new_store, next_sequence, record_ack,
}
use pi_pilot.Notify.Log.{append_event, flush_each, compact}
use pi_pilot.Notify.Detector.{Call, Context, Detector, on_task_end}
use pi_pilot.Notify.Receipts.{
  ReceiptRequest, display_confirmed, new_receipts, record_receipt, receipt,
}
use pi_pilot.Notify.Acks.{acked, record_ack_forward}
use pi_pilot.Notify.Restart.{Restart, after_restart}
use pi_pilot.Notify.Reuse.{both_failed, flush_hides_first, compact_forgets_sequence}
use pi_pilot.Notify.Once.{task_end_once}
use pi_pilot.Notify.Shown.{rank_of, receipt_forward}

abbrev event : String → NotificationEvent
event id = record {
  bridge_installation_id = "b";
  event_epoch = "e";
  event_id = id;
  sequence = 1;
  task_generation_id = none;
  source_id = none;
  session_id = none;
  type = task_completed;
  created_at = some 0;
  ttl_seconds = 60;
  priority = high;
  collapse_key = none;
  presentation = record { title = "t"; body = none; privacy = generic };
}

abbrev empty : EventStore
empty = new_store (record { lines = []; torn = false })

record_ack_forward_example :
    (acked "phone" empty ≤ acked "phone" (record_ack 5 synced "phone" "e" 3 empty).0)
    × ((record_ack 5 synced "phone" "e" 3 empty).1 ≡ true
        → 3 ≤ acked "phone" (record_ack 5 synced "phone" "e" 3 empty).0)
    × ((record_ack 5 synced "phone" "e" 3 empty).1 ≡ false
        → (record_ack 5 synced "phone" "e" 3 empty).0.acks ≡ empty.acks)
record_ack_forward_example = record_ack_forward 5 3 synced "phone" "e" "phone" empty

abbrev restart : Restart
restart = record {
  options = default_options;
  now = 50;
  writes = λ k. synced;
  bytes = 10;
  done = true;
}

flush_hides_first_example :
    (Map.get 1
        (flush_each
          (synced ∷ synced ∷ [])
          (both_failed default_options failed_clean 10 true (event "x") (event "y") empty).pending
          (both_failed default_options failed_clean 10 true (event "x") (event "y") empty)).0.events
      ≡ some (event "y"))
    × ((flush_each
          (synced ∷ synced ∷ [])
          (both_failed default_options failed_clean 10 true (event "x") (event "y") empty).pending
          (both_failed default_options failed_clean 10 true (event "x") (event "y") empty)).1
        ≡ 2)
unfolding next_sequence append_event set_aside append_sync
flush_hides_first_example =
    flush_hides_first default_options failed_clean 10 true (event "x") (event "y") empty refl
      (omega arith) refl refl refl

abbrev acked_store : EventStore
acked_store = record empty {
  acks =
      ("phone", record { installation_id = "phone"; event_epoch = "e"; through = 9; at = 0 }) ∷ [];
  last_sequence = 9;
}

compact_forgets_sequence_example :
    next_sequence (after_restart restart (compact default_options true acked_store).0) ≡ 1
compact_forgets_sequence_example = compact_forgets_sequence default_options acked_store restart refl

abbrev call : String → Call
call id = record {
  now = 7;
  new_id = id;
  options = default_options;
  generation_write = synced;
  event_write = synced;
  log_bytes = 10;
  compact_done = true;
}

abbrev no_context : Context
no_context = record { source_id = none; session_id = none; session_name = none }

abbrev running : GenerationRecord
running = record {
  source_id = "s";
  task_generation_id = "g";
  state = in_flight;
  event_id = none;
  at = 1;
}

abbrev detector : Detector
detector = record {
  bridge_installation_id = "b";
  event_epoch = "e";
  privacy = generic;
  store = record empty { generations = ("g", running) ∷ [] };
  active_generation = ("s", "g") ∷ [];
  latest_started_at = [];
  input_requests = [];
}

task_end_once_example :
    (on_task_end (call "y") "s" no_context (on_task_end (call "x") "s" no_context detector).0).1
    ≡ none
task_end_once_example = task_end_once (call "x") (call "y") "s" no_context no_context detector

abbrev shown : ReceiptRequest
shown = record { installation_id = "phone"; event_id = "x"; state = display_confirmed; at = "noon" }

receipt_forward_example :
    (rank_of (receipt "phone" "x" new_receipts)
      ≤ rank_of (receipt "phone" "x" (record_receipt 1 shown new_receipts).0))
    × (4 ≤ rank_of (receipt "phone" "x" (record_receipt 1 shown new_receipts).0))
receipt_forward_example = receipt_forward 1 shown new_receipts
