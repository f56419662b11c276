-- ===== src/Notify/Detector.antt =====
-- `NotificationDetector`: the edges of tasks and of questions become events. Ids that are made, the
-- clock and the ends of writes are arguments.
use pi_pilot.Base.{
  ℕ, String, Bool, true, false, ◌&&◌, not, Option, none, some, List, [], ◌∷◌, ltb, if◌then◌else◌,
  is_some, nat_key, string_key, same,
}
use pi_pilot.Base.Map
use pi_pilot.Base.Map.{Map}
use Prim.Native.String
use pi_pilot.Notify.Event.{
  NotificationEvent, EventInput, EventType, task_completed, input_required, input_resolved,
  Priority, normal, Privacy, generic, session_name, create_event,
}
use pi_pilot.Notify.Store.{
  GenerationRecord, Write, StoreOptions, EventStore, next_sequence, begin_generation,
  complete_generation, cancel_generation,
}
use pi_pilot.Notify.Log.{append_event, in_flight_generations}

pub record Detector : Type 0 where
  pub bridge_installation_id : String
  pub event_epoch : String
  pub privacy : Privacy
  pub store : EventStore
  pub active_generation : Map String String
  pub latest_started_at : Map String ℕ
  pub input_requests : Map String String

pub record DetectResult : Type 0 where
  pub event : NotificationEvent
  pub persisted : Bool

-- What a call finds: the time, the ids it makes, and how its writes end.
pub record Call : Type 0 where
  pub now : ℕ
  pub new_id : String
  pub options : StoreOptions
  pub generation_write : Write
  pub event_write : Write
  pub log_bytes : ℕ
  pub compact_done : Bool

pub record Context : Type 0 where
  pub source_id : Option String
  pub session_id : Option String
  pub session_name : Option String

-- `completionTitle` and `inputTitle`
abbrev pub titled : String → String → Option String → Privacy → String
titled plain suffix name generic = plain
titled plain suffix none session_name = plain
titled plain suffix (some String.[]) session_name = plain
titled plain suffix (some (String.◌∷◌ c s)) session_name = String.◌++◌ (String.◌∷◌ c s) suffix

abbrev pub completion_title : Option String → Privacy → String
completion_title name privacy = titled "任务完成" " 任务完成" name privacy

abbrev pub input_title : Option String → Privacy → String
input_title name privacy = titled "等待输入" " 等待输入" name privacy

-- A generation of a source without a name is not restored. A later start of the same source wins.
abbrev pub later_start : Option ℕ → ℕ → ℕ
later_start none at = at
later_start (some known) at = if ltb known at then at else known

unfoldable pub restore_generations : List GenerationRecord → Detector → Detector
restore_generations [] d = d
restore_generations (g ∷ gs) d = restore_generations gs (
    if same g.source_id "" then d else record d {
      active_generation = Map.set g.source_id g.task_generation_id d.active_generation;
      latest_started_at =
          Map.set g.source_id (later_start (Map.get g.source_id d.latest_started_at) g.at)
            d.latest_started_at;
    })

unfoldable pub new_detector : String → String → Privacy → EventStore → Detector
new_detector bridge_installation_id event_epoch privacy store =
    restore_generations (in_flight_generations store) (record {
      bridge_installation_id = bridge_installation_id;
      event_epoch = event_epoch;
      privacy = privacy;
      store = store;
      active_generation = [];
      latest_started_at = [];
      input_requests = [];
    })

-- A new generation under an id.
unfoldable pub start_generation : Call → String → String → Detector → Detector × String
start_generation c source_id id d = elim (Map.get source_id d.active_generation) [
  | some existing ↦ (d, existing)
  | none ↦ (
    record d {
      active_generation = Map.set source_id id d.active_generation;
      latest_started_at = Map.set source_id c.now d.latest_started_at;
      store = (begin_generation c.now c.generation_write source_id id d.store).0;
    },
    id,
  )
]

-- `onTaskStart`
unfoldable pub on_task_start : Call → String → Detector → Detector × String
on_task_start c source_id d = start_generation c source_id c.new_id d

-- `adoptStreamingSource`
unfoldable pub adopt_streaming_source : Call → String → Detector → Detector × String
adopt_streaming_source c source_id d =
    start_generation c source_id (String.◌++◌ "recovery-" c.new_id) d

-- `onTaskAborted`
unfoldable pub on_task_aborted : Call → String → Detector → Detector
on_task_aborted c source_id d = elim (Map.get source_id d.active_generation) [
  | none ↦ d
  | some id ↦ record d {
    store = (cancel_generation c.now c.generation_write id d.store).0;
    active_generation = Map.delete source_id d.active_generation;
  }
]

-- An event is made with the next sequence and appended.
abbrev pub emitted : Call → EventInput → Detector → Detector × Option DetectResult
emitted c i d =
    let e = create_event c.new_id c.now i in
    let (s, persisted) =
      append_event c.options c.event_write c.log_bytes c.compact_done e d.store in
    (record d { store = s }, some (record { event = e; persisted = persisted }))

abbrev pub completion_input : Call → String → String → Context → Detector → EventInput
completion_input c source_id id x d = record {
  bridge_installation_id = d.bridge_installation_id;
  event_epoch = d.event_epoch;
  sequence = next_sequence d.store;
  type = task_completed;
  task_generation_id = some id;
  source_id = some source_id;
  session_id = x.session_id;
  priority = none;
  collapse_key = none;
  presentation = record {
    title = completion_title x.session_name d.privacy;
    body = none;
    privacy = d.privacy;
  };
  ttl_seconds = none;
  event_id = some c.new_id;
  created_at = some c.now;
}

-- `onTaskEnd` for the generation found.
unfoldable pub end_generation :
    Call → String → Context → String → Detector → Detector × Option DetectResult
end_generation c source_id x id d =
    let (s, first) = complete_generation c.now c.generation_write id c.new_id d.store in
    if not first
    then (d, none)
    else let d' = record d {
      store = s;
      active_generation = Map.delete source_id d.active_generation;
    } in
      emitted c (completion_input c source_id id x d') d'

unfoldable pub on_task_end : Call → String → Context → Detector → Detector × Option DetectResult
on_task_end c source_id x d = elim (Map.get source_id d.active_generation) [
  | none ↦ (d, none)
  | some id ↦ end_generation c source_id x id d
]

abbrev pub input_collapse_key : String → String
input_collapse_key request_id = String.◌++◌ "input:" request_id

abbrev pub question_input :
    Call
    → EventType
    → Option Priority
    → Option String
    → String
    → String
    → Context
    → Detector
    → EventInput
question_input c type priority event_id title request_id x d = record {
  bridge_installation_id = d.bridge_installation_id;
  event_epoch = d.event_epoch;
  sequence = next_sequence d.store;
  type = type;
  task_generation_id = none;
  source_id = x.source_id;
  session_id = x.session_id;
  priority = priority;
  collapse_key = some (input_collapse_key request_id);
  presentation = record { title = title; body = none; privacy = d.privacy };
  ttl_seconds = none;
  event_id = event_id;
  created_at = some c.now;
}

-- `onInputRequired`
unfoldable pub on_input_required :
    Call → String → Context → Detector → Detector × Option DetectResult
on_input_required c request_id x d =
    if is_some (Map.get request_id d.input_requests)
    then (d, none)
    else let d' = record d { input_requests = Map.set request_id c.new_id d.input_requests } in
      emitted c
        (question_input c input_required none (some c.new_id) (input_title x.session_name d.privacy)
          request_id x d')
        d'

-- `onInputResolved`
unfoldable pub on_input_resolved :
    Call → String → Context → Detector → Detector × Option DetectResult
on_input_resolved c request_id x d =
    if not (is_some (Map.get request_id d.input_requests))
    then (d, none)
    else let d' = record d { input_requests = Map.delete request_id d.input_requests } in
      emitted c (question_input c input_resolved (some normal) none "输入已处理" request_id x d') d'

-- `onSourceEpochChanged`
unfoldable pub on_source_epoch_changed : Call → String → Detector → Detector
on_source_epoch_changed c source_id d = elim (Map.get source_id d.active_generation) [
  | none ↦ d
  | some id ↦ record d {
    store = (complete_generation c.now c.generation_write id "" d.store).0;
    active_generation = Map.delete source_id d.active_generation;
  }
]

-- `isStaleCompletion`
abbrev pub started_after : Option ℕ → Option ℕ → Bool
started_after none created = false
started_after (some started) none = false
started_after (some started) (some created) = ltb created started

abbrev pub is_completion : NotificationEvent → Bool
is_completion e = elim e.type [
  | task_completed ↦ true
  | input_required ↦ false
  | input_resolved ↦ false
]

unfoldable pub is_stale_completion : NotificationEvent → Detector → Bool
is_stale_completion e d = elim e.source_id [
  | none ↦ false
  | some source_id ↦
      is_completion e && started_after (Map.get source_id d.latest_started_at) e.created_at
]
