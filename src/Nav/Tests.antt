-- ===== src/Nav/Tests.antt =====
-- Going back at a concrete tree.
use pi_pilot.Base.{
  String_discrete, ℕ, zero, suc, ◌+◌, String, ◌≡◌, refl, inr, false, Option, none, some, [], ◌∷◌,
}
use pi_pilot.Base.Json.{text}
use pi_pilot.Nav.Tree.{Entry, Nodes, no_nodes, node, parse_nav_args, path_to_leaf, undo_target_id}
use pi_pilot.Nav.Run.{NavRuntime, aborts, waits, navigates, moved, run_navigate}
use pi_pilot.Nav.Cache.{get, remember}
use pi_pilot.Nav.Target.{Undoes, undo_target_id-Undoes}
use pi_pilot.Nav.Order.{Ran, run_navigate-Ran}

abbrev said : String → String → Option Entry
said id role =
    some (record { id = some (text id); type = some (text "message"); role = some (text role) })

-- A question with two answers, the second of which the user asked on about.
abbrev tree : Nodes
tree =
    node (said "q" "user")
      (node (said "a" "assistant") no_nodes (
        node (said "b" "assistant")
          (node (said "r" "user") (node (said "c" "assistant") no_nodes no_nodes) no_nodes)
          no_nodes))
      no_nodes

undone : undo_target_id tree (some "c") ≡ some "r"
unfolding undo_target_id path_to_leaf String_discrete
undone = refl

undone_before : undo_target_id tree (some "a") ≡ some "q"
unfolding undo_target_id path_to_leaf String_discrete
undone_before = refl

undo_target_id-Undoes_example : Undoes "c" tree (undo_target_id tree (some "c"))
undo_target_id-Undoes_example = undo_target_id-Undoes "c" tree refl

-- A runtime whose state is how often it was asked; the leaf is "c" until it was told to stop.
abbrev pi : NavRuntime ℕ
pi = record {
  abort = λ n. (n + 1, none);
  wait_for_idle = λ n. (n + 1, none);
  tree_and_leaf = λ n. inr (tree, some (elim n [ zero ↦ "c" | suc k ↦ "a" ]));
  navigate_tree =
      λ target n. (n + 1, inr (record { cancelled = false; editor_text = some (text target) }));
}

-- The target is that of the tree after the stop.
went_back : run_navigate pi none 0 ≡ (3, aborts ∷ waits ∷ navigates "q" ∷ [], moved (some "q"))
unfolding run_navigate undo_target_id path_to_leaf String_discrete
went_back = refl

run_navigate-Ran_example : Ran pi none 0 (run_navigate pi none 0)
run_navigate-Ran_example = run_navigate-Ran pi none 0

first_argument : parse_nav_args "  e1 e2 " ≡ some "e1"
unfolding parse_nav_args
first_argument = refl

abbrev files : ℕ → Option String
files n = some "one.jsonl"

other_session : (get files (some "two.jsonl") (remember files 1)).1 ≡ none
unfolding get remember String_discrete
other_session = refl
