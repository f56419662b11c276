-- ===== src/Registry/Tests.antt =====
-- A desktop source, its events, a snapshot and a reconnecting client.
use pi_pilot.Base.{
  ℕ, String, ◌≡◌, refl, subst, ◌≢◌, ◌↔◌, ◌⊎◌, Bool, true, false, none, some, List, [], ◌∷◌, arith,
  String_discrete, nat_key, string_key,
}
use pi_pilot.Base.{pos}
use pi_pilot.Base.Map
use pi_pilot.Lease.{new_manager}
use pi_pilot.Replay.{SourceEvent, push, filter_events}
use pi_pilot.Replay.Runs.{Runs}
use pi_pilot.Replay.Trim.{AllOf}
use pi_pilot.Registry.State.{
  desktop, SourceDescriptor, SourceSnapshot, SourceRecord, HubCursor, replay, Registry, lookup,
  rejected, sequence_gap,
}
use pi_pilot.Registry.Metadata.{register, patched}
use pi_pilot.Registry.Streams.{JsonAccess, set_snapshot, record_desktop_event, record_local_event}
use pi_pilot.Registry.Syncs.{sync, snapshot_is_continuous, after_snapshot}
use pi_pilot.Registry.Leasing.{validate}
use pi_pilot.Registry.History.{RegistryCall, registers, desktops, snapshots, locals, step, run}
use pi_pilot.Registry.Changes.{IsRegistry}
use pi_pilot.Registry.Steps.{run-IsRegistry}
use pi_pilot.Registry.Delivery.{replay_complete, next_event_delivered}
use pi_pilot.Registry.Continuity.{
  snapshot_continuous_iff, register_again, desktop_event_once, Carries, StartsOver,
}

-- Objects of this test are numbers: the length of the text.
abbrev json : JsonAccess ℕ
json = record { text_length = λ n. n; string_field = λ name n. none }

abbrev window : SourceDescriptor
window = record {
  id = "d1";
  kind = desktop;
  label = "tui";
  connected = true;
  epoch = "e1";
  cwd = none;
  session_id = none;
  session_file = none;
  session_name = none;
  capabilities = [];
}

abbrev empty_hub : Registry ℕ ℕ
empty_hub = record {
  hub_id = "hub";
  records = [];
  limits = record { replay_capacity = 2; replay_byte_budget = 100 };
}

abbrev base_one : SourceSnapshot ℕ
base_one = record {
  epoch = "e1";
  base_seq = pos 1;
  captured_at = 0;
  state = 0;
  entries = [];
  leaf_id = none;
  extras = [];
}

abbrev calls : List (RegistryCall ℕ ℕ)
calls = registers window 7 ∷ desktops "d1" "e1" 1 10 ∷ snapshots "d1" base_one ∷ locals "d1" 20 ∷ []

abbrev event : ℕ → ℕ → SourceEvent ℕ
event seq payload = record { source_id = "d1"; source_epoch = "e1"; seq = seq; payload = payload }

-- The hub after these calls: the ring holds the event after the snapshot.
abbrev window_record : SourceRecord ℕ ℕ
window_record = record {
  descriptor = window;
  transport = 7;
  snapshot = some base_one;
  ring = record { events = event 2 20 ∷ []; sizes = 20 ∷ []; bytes = 20 };
  last_seq = 2;
  lease = new_manager;
}

abbrev hub : Registry ℕ ℕ
hub = record empty_hub { records = ("d1", window_record) ∷ [] }

abbrev by_label : String → String → Bool
by_label a b = false

hub_reached : run json by_label empty_hub calls ≡ hub
unfolding run step register record_desktop_event record_local_event Map.get Map.set String_discrete
    push set_snapshot patched filter_events
hub_reached = refl

empty-IsRegistry : IsRegistry empty_hub.limits empty_hub
empty-IsRegistry = record { limits = refl; each = tt; distinct = tt }

run-IsRegistry_example : IsRegistry empty_hub.limits (run json by_label empty_hub calls)
run-IsRegistry_example =
    run-IsRegistry json by_label empty_hub.limits empty_hub calls (tt, (tt, (tt, (tt, tt))))
      empty-IsRegistry

hub-IsRegistry : IsRegistry empty_hub.limits hub
hub-IsRegistry = subst (IsRegistry empty_hub.limits) hub_reached run-IsRegistry_example

abbrev cursor : ℕ → HubCursor
cursor seq = record { hub_id = "hub"; source_id = "d1"; source_epoch = "e1"; seq = seq }

replay_complete_example :
    ("e1" ≡ window_record.descriptor.epoch)
    × AllOf "e1" (event 2 20 ∷ [])
    × Runs 2 (event 2 20 ∷ []) 2
unfolding sync Map.get String_discrete
replay_complete_example =
    replay_complete empty_hub.limits hub "d1" (cursor 1) window_record (event 2 20 ∷ [])
      hub-IsRegistry refl refl

next_event_delivered_example :
    sync "d1" (some (cursor 2)) (record_local_event json "d1" 30 hub).0
    ≡ some (replay (event 3 30 ∷ []))
unfolding Map.get String_discrete
next_event_delivered_example =
    next_event_delivered json hub "d1" (cursor 2) 30 window_record (omega arith) hub-IsRegistry refl
      refl refl refl refl

snapshot_continuous_iff_example : (snapshot_is_continuous "d1" hub ≡ true) ↔ (
    ("e1" ≡ window_record.descriptor.epoch)
    × Runs 2 (after_snapshot base_one window_record) window_record.last_seq)
unfolding Map.get String_discrete
snapshot_continuous_iff_example =
    snapshot_continuous_iff empty_hub.limits hub "d1" window_record base_one 1 hub-IsRegistry refl
      refl refl

register_again_example :
    (r' : SourceRecord ℕ ℕ) × (lookup (register window 8 hub) "d1" ≡ some r')
    × ((validate "d1" "phone" none none 0 (register window 8 hub)).1
        ≡ (validate "d1" "phone" none none 0 hub).1)
    × (((window_record.descriptor.epoch ≡ window.epoch) × Carries window_record r')
        ⊎ ((window_record.descriptor.epoch ≢ window.epoch) × StartsOver r'))
unfolding Map.get String_discrete
register_again_example = register_again window 8 window_record hub "phone" none none 0 refl

desktop_event_once_example :
    record_desktop_event json "d1" "e1" 3 99 (record_desktop_event json "d1" "e1" 3 30 hub).0
    ≡ ((record_desktop_event json "d1" "e1" 3 30 hub).0, rejected sequence_gap)
unfolding record_desktop_event Map.get String_discrete
desktop_event_once_example =
    desktop_event_once json hub (record_desktop_event json "d1" "e1" 3 30 hub).0 "d1" "e1" 3 30 99
      (event 3 30) refl
