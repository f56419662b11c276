-- ===== src/Nav/Run.antt =====
-- `runNavigate`: what it asks of pi, in which order, and what it answers.
use pi_pilot.Base.{
  String, Bool, true, false, ◌⊎◌, inl, inr, Option, none, some, List, [], ◌∷◌, if◌then◌else◌,
}
use pi_pilot.Base.Json.{Json, as_text, is_empty}
use pi_pilot.Nav.Tree.{Nodes, undo_target_id}

-- What `navigateTree` resolves to
pub record Moved : Type 0 where
  pub cancelled : Bool
  pub editor_text : Option Json

-- pi's side, over a state of its own: each call may throw, with the error's text. `tree_and_leaf` is
-- `getTree` and then `getLeafId`.
pub record NavRuntime (S : Type 0) : Type 0 where
  pub abort : S → S × Option String
  pub wait_for_idle : S → S × Option String
  pub tree_and_leaf : S → String ⊎ (Nodes × Option String)
  pub navigate_tree : String → S → S × (String ⊎ Moved)

pub data NavCall : Type 0 where
  aborts waits : NavCall
  navigates : String → NavCall

-- `rejected` is an error that `runNavigate` itself throws.
pub data NavResult : Type 0 where
  moved : Option String → NavResult
  cancelled : NavResult
  failed : String → NavResult
  rejected : String → NavResult

abbrev pub nothing_to_undo : String
nothing_to_undo = "没有可撤销的回合"

-- An entry id that is empty is as none in the first test.
abbrev pub is_given : Option String → Bool
is_given none = false
is_given (some id) = if is_empty id then false else true

abbrev pub undo_target : String ⊎ (Nodes × Option String) → String ⊎ Option String
undo_target (inl error) = inl error
undo_target (inr (tree, leaf)) = inr (undo_target_id tree leaf)

abbrev pub answer_of : String ⊎ Moved → NavResult
answer_of (inl error) = failed error
answer_of (inr m) = if m.cancelled then cancelled else moved (as_text m.editor_text)

-- A run's calls of pi, in order, and its answer
module _ {S : Type 0} where
  -- `entryId ?? undoTargetId(...)`: the tree is read only where no entry is given.
  abbrev pub target_now : NavRuntime S → Option String → S → String ⊎ Option String
  target_now r (some id) s = inr (some id)
  target_now r none s = undo_target (r.tree_and_leaf s)

  abbrev pub navigate : NavRuntime S → String → S → S × List NavCall × NavResult
  navigate r target s =
      let (t, result) = r.navigate_tree target s in (t, navigates target ∷ [], answer_of result)

  abbrev pub go_to : NavRuntime S → String ⊎ Option String → S → S × List NavCall × NavResult
  go_to r (inl error) s = (s, [], failed error)
  go_to r (inr none) s = (s, [], failed nothing_to_undo)
  go_to r (inr (some target)) s =
      let run = navigate r target s in
      if is_empty target then (s, [], failed nothing_to_undo) else run

  abbrev pub after_call :
      NavCall
      → S × Option String
      → (S → S × List NavCall × NavResult)
      → S × List NavCall × NavResult
  after_call call (s, some error) k = (s, call ∷ [], failed error)
  after_call call (s, none) k = let (t, calls, result) = k s in (t, call ∷ calls, result)

  -- The part in the `try`
  abbrev pub interrupt : NavRuntime S → Option String → S → S × List NavCall × NavResult
  interrupt r entry_id s =
      after_call aborts (r.abort s)
        (λ t. after_call waits (r.wait_for_idle t) (λ u. go_to r (target_now r entry_id u) u))

  -- Nothing is interrupted where there is nothing to undo.
  abbrev pub check_first :
      NavRuntime S → Option String → String ⊎ Option String → S → S × List NavCall × NavResult
  check_first r entry_id (inl error) s = (s, [], rejected error)
  check_first r entry_id (inr none) s = (s, [], failed nothing_to_undo)
  check_first r entry_id (inr (some target)) s =
      let run = interrupt r entry_id s in
      if is_empty target then (s, [], failed nothing_to_undo) else run

  unfoldable pub run_navigate : NavRuntime S → Option String → S → S × List NavCall × NavResult
  run_navigate r entry_id s =
      let run = interrupt r entry_id s in
      let checked = check_first r entry_id (undo_target (r.tree_and_leaf s)) s in
      if is_given entry_id then run else checked
