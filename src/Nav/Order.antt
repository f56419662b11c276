-- ===== src/Nav/Order.antt =====
-- What a run asks of pi, and in which order.
use pi_pilot.Base.{
  String, ◌≡◌, refl, inl, inr, ◌⊎◌, Bool, true, false, Option, none, some, List, [], ◌∷◌,
  if◌then◌else◌,
}
use pi_pilot.Base.Json.{is_empty}
use pi_pilot.Nav.Run.{
  NavRuntime, NavCall, aborts, waits, navigates, NavResult, failed, rejected, is_given, undo_target,
  answer_of, target_now, navigate, go_to, after_call, interrupt, check_first, run_navigate,
  nothing_to_undo,
}

-- The answer where no target is named: reading the tree threw, or there is nothing to go back to.
abbrev pub Refuses : (String → NavResult) → String ⊎ Option String → NavResult → Type 0
Refuses wrap (inl error) result = result ≡ wrap error
Refuses wrap (inr none) result = result ≡ failed nothing_to_undo
Refuses wrap (inr (some target)) result =
    (is_empty target ≡ true) × (result ≡ failed nothing_to_undo)

module _ {S : Type 0} where
  -- The runtime after it was told to stop and has come to rest, where neither call threw
  abbrev pub at_rest : NavRuntime S → S → S
  at_rest r s = (r.wait_for_idle (r.abort s).0).0

  -- There is something to go back to, before anything is done.
  abbrev pub Meant : NavRuntime S → Option String → S → Type 0
  Meant r entry_id s =
      (is_given entry_id ≡ true)
      ⊎ ((id : String) × (undo_target (r.tree_and_leaf s) ≡ inr (some id)) × (is_empty id ≡ false))

  -- A target of the tree as it is once pi has come to rest
  abbrev pub IsGoal : NavRuntime S → Option String → S → String → Type 0
  IsGoal r entry_id s target =
      ((r.abort s).1 ≡ none)
      × ((r.wait_for_idle (r.abort s).0).1 ≡ none)
      × (target_now r entry_id (at_rest r s) ≡ inr (some target))
      × (is_empty target ≡ false)

  -- The calls of a run, with its answer
  pub data Called (r : NavRuntime S) (entry_id : Option String) (s : S)
      : List NavCall → NavResult → Type 0 where
    left_alone :
        {result : NavResult}
        → is_given entry_id ≡ false
        → Refuses rejected (undo_target (r.tree_and_leaf s)) result
        → Called r entry_id s [] result
    not_stopped :
        {error : String}
        → Meant r entry_id s
        → (r.abort s).1 ≡ some error
        → Called r entry_id s (aborts ∷ []) (failed error)
    not_rested :
        {error : String}
        → Meant r entry_id s
        → (r.abort s).1 ≡ none
        → (r.wait_for_idle (r.abort s).0).1 ≡ some error
        → Called r entry_id s (aborts ∷ waits ∷ []) (failed error)
    not_moved :
        {result : NavResult}
        → Meant r entry_id s
        → (r.abort s).1 ≡ none
        → (r.wait_for_idle (r.abort s).0).1 ≡ none
        → Refuses failed (target_now r entry_id (at_rest r s)) result
        → Called r entry_id s (aborts ∷ waits ∷ []) result
    went :
        {target : String}
        → Meant r entry_id s
        → IsGoal r entry_id s target
        → Called r entry_id s
            (aborts ∷ waits ∷ navigates target ∷ [])
            (answer_of (r.navigate_tree target (at_rest r s)).1)

  abbrev pub Ran : NavRuntime S → Option String → S → S × List NavCall × NavResult → Type 0
  Ran r entry_id s (t, calls, result) = Called r entry_id s calls result

  go_to-Ran :
      (r : NavRuntime S) (entry_id : Option String) (s : S) (goal : String ⊎ Option String)
      → Meant r entry_id s
      → (r.abort s).1 ≡ none
      → (r.wait_for_idle (r.abort s).0).1 ≡ none
      → target_now r entry_id (at_rest r s) ≡ goal
      → Ran r entry_id s (
          after_call aborts
            ((r.abort s).0, none)
            (λ t. after_call waits (at_rest r s, none) (λ u. go_to r goal u)))
  go_to-Ran r entry_id s (inl error) m a w g = not_moved m a w (rw g refl)
  go_to-Ran r entry_id s (inr none) m a w g = not_moved m a w (rw g refl)
  go_to-Ran r entry_id s (inr (some target)) m a w g = by_test (is_empty target) refl
    where
      by_test :
          (b : Bool)
          → is_empty target ≡ b
          → Ran r entry_id s (
              after_call aborts
                ((r.abort s).0, none)
                (λ t.
                  after_call waits
                    (at_rest r s, none)
                    (λ u. if b then (u, [], failed nothing_to_undo) else navigate r target u)))
      by_test true e = not_moved m a w (rw g (e, refl))
      by_test false e = went m (a, w, g, e)

  interrupt-Ran :
      (r : NavRuntime S) (entry_id : Option String) (s : S)
      → Meant r entry_id s
      → Ran r entry_id s (interrupt r entry_id s)
  interrupt-Ran r entry_id s m = by_abort (r.abort s).1 refl
    where
      by_wait :
          (w : Option String)
          → (r.wait_for_idle (r.abort s).0).1 ≡ w
          → (r.abort s).1 ≡ none
          → Ran r entry_id s (
              after_call aborts
                ((r.abort s).0, none)
                (λ t. after_call waits (at_rest r s, w) (λ u. go_to r (target_now r entry_id u) u)))
      by_wait (some error) e a = not_rested m a e
      by_wait none e a = go_to-Ran r entry_id s (target_now r entry_id (at_rest r s)) m a e refl

      by_abort :
          (a : Option String)
          → (r.abort s).1 ≡ a
          → Ran r entry_id s (
              after_call aborts
                ((r.abort s).0, a)
                (λ t.
                  after_call waits (r.wait_for_idle t) (λ u. go_to r (target_now r entry_id u) u)))
      by_abort (some error) e = not_stopped m e
      by_abort none e = by_wait (r.wait_for_idle (r.abort s).0).1 refl e

  check-Ran :
      (r : NavRuntime S) (entry_id : Option String) (s : S) (goal : String ⊎ Option String)
      → undo_target (r.tree_and_leaf s) ≡ goal
      → is_given entry_id ≡ false
      → Ran r entry_id s (check_first r entry_id goal s)
  check-Ran r entry_id s (inl error) g n = left_alone n (rw g refl)
  check-Ran r entry_id s (inr none) g n = left_alone n (rw g refl)
  check-Ran r entry_id s (inr (some id)) g n = by_test (is_empty id) refl
    where
      by_test :
          (b : Bool)
          → is_empty id ≡ b
          → Ran r entry_id s (if b then (s, [], failed nothing_to_undo) else interrupt r entry_id s)
      by_test true e = left_alone n (rw g (e, refl))
      by_test false e = interrupt-Ran r entry_id s (inr (id, g, e))

  -- A run that is given no entry, where the tree has nothing to undo, asks pi for nothing. Any other
  -- asks pi to stop, then waits until it has come to rest, and then goes back to the entry given, or
  -- to the target that the tree has by then, and answers what came of it. Only a call that throws,
  -- or a target that is gone by then, ends the run before, with that error as its answer.
  pub run_navigate-Ran :
      (r : NavRuntime S) (entry_id : Option String) (s : S)
      → Ran r entry_id s (run_navigate r entry_id s)
  unfolding run_navigate
  run_navigate-Ran r entry_id s = by_test (is_given entry_id) refl
    where
      by_test :
          (b : Bool)
          → is_given entry_id ≡ b
          → Ran r entry_id s (
              if b
              then interrupt r entry_id s
              else check_first r entry_id (undo_target (r.tree_and_leaf s)) s)
      by_test true e = interrupt-Ran r entry_id s (inl e)
      by_test false e = check-Ran r entry_id s (undo_target (r.tree_and_leaf s)) refl e
