-- ===== src/Notify/Once.antt =====
-- One notification for a task's end, and one for a question.
use pi_pilot.Base.{
  String, ◌≡◌, refl, ap, inl, inr, true, false, none, some, Bool-cases, Option-cases, is_some,
  nat_key, string_key,
}
use pi_pilot.Base.Map
use pi_pilot.Base.Map.{Map, get-set_self, get-delete_self}
use pi_pilot.Notify.Store.{complete_generation, is_completed}
use pi_pilot.Notify.Detector.{
  Call, Context, Detector, on_task_end, end_generation, on_input_required, on_input_resolved,
}

-- A task that has ended for the detector: its generation is gone or was completed before.
end_again :
    (c : Call) (k id : String) (x : Context) (d : Detector)
    → Map.get k d.active_generation ≡ some id
    → is_completed (Map.get id d.store.generations) ≡ true
    → on_task_end c k x d ≡ (d, none)
unfolding on_task_end end_generation complete_generation
end_again c k id x d h q = rw (h, on_task_end, end_generation, q) refl

ended_gone :
    (c : Call) (k id : String) (x : Context) (d : Detector)
    → Map.get k d.active_generation ≡ some id
    → is_completed (Map.get id d.store.generations) ≡ false
    → Map.get k (on_task_end c k x d).0.active_generation ≡ none
unfolding on_task_end end_generation complete_generation
ended_gone c k id x d h q =
    rw (h, on_task_end, end_generation, q) (get-delete_self k d.active_generation)

no_task :
    (c : Call) (k : String) (x : Context) (d : Detector)
    → Map.get k d.active_generation ≡ none
    → on_task_end c k x d ≡ (d, none)
unfolding on_task_end
no_task c k x d n = rw (n, on_task_end) refl

-- The end of a source's task is notified once: a second report of it (`agent_end` and
-- `agent_settled`, or a report that comes again) gives no event, whatever the first one gave.
pub task_end_once :
    (c c' : Call) (k : String) (x x' : Context) (d : Detector)
    → (on_task_end c' k x' (on_task_end c k x d).0).1 ≡ none
task_end_once c c' k x x' d = elim (Option-cases (Map.get k d.active_generation)) [
  | inl n ↦ rw (no_task c k x d n) (ap (λ r. r.1) (no_task c' k x' d n))
  | inr (id, h) ↦ elim (Bool-cases (is_completed (Map.get id d.store.generations))) [
    | inl q ↦ rw (end_again c k id x d h q) (ap (λ r. r.1) (end_again c' k id x' d h q))
    | inr q ↦ ap (λ r. r.1) (no_task c' k x' _ (ended_gone c k id x d h q))
  ]
]

asked_first :
    (c : Call) (request_id : String) (x : Context) (d : Detector)
    → is_some (Map.get request_id (on_input_required c request_id x d).0.input_requests) ≡ true
unfolding on_input_required
asked_first c request_id x d = elim (Bool-cases (is_some (Map.get request_id d.input_requests))) [
  | inl h ↦ rw (h, on_input_required, h) refl
  | inr h ↦
      rw (h, on_input_required) (ap is_some (get-set_self request_id c.new_id d.input_requests))
]

asked_again :
    (c : Call) (request_id : String) (x : Context) (d : Detector)
    → is_some (Map.get request_id d.input_requests) ≡ true
    → on_input_required c request_id x d ≡ (d, none)
unfolding on_input_required
asked_again c request_id x d h = rw (h, on_input_required) refl

answered_first :
    (c : Call) (request_id : String) (x : Context) (d : Detector)
    → is_some (Map.get request_id (on_input_resolved c request_id x d).0.input_requests) ≡ false
unfolding on_input_resolved
answered_first c request_id x d =
    elim (Bool-cases (is_some (Map.get request_id d.input_requests))) [
      | inl h ↦ rw (h, on_input_resolved) (ap is_some (get-delete_self request_id d.input_requests))
      | inr h ↦ rw (h, on_input_resolved, h) refl
    ]

answered_again :
    (c : Call) (request_id : String) (x : Context) (d : Detector)
    → is_some (Map.get request_id d.input_requests) ≡ false
    → on_input_resolved c request_id x d ≡ (d, none)
unfolding on_input_resolved
answered_again c request_id x d h = rw (h, on_input_resolved) refl

-- A question is notified once while it is open, and its answer once: asking again gives no event,
-- and neither does a second answer.
pub question_once :
    (c c' : Call) (request_id : String) (x x' : Context) (d : Detector)
    → ((on_input_required c' request_id x' (on_input_required c request_id x d).0).1 ≡ none)
      × ((on_input_resolved c' request_id x' (on_input_resolved c request_id x d).0).1 ≡ none)
question_once c c' request_id x x' d = (
  ap (λ r. r.1) (asked_again c' request_id x' _ (asked_first c request_id x d)),
  ap (λ r. r.1) (answered_again c' request_id x' _ (answered_first c request_id x d)),
)
