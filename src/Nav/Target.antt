-- ===== src/Nav/Target.antt =====
-- What an undo goes back to.
use pi_pilot.Base.{
  String, ◌≡◌, refl, ap, inl, inr, ◌⊎◌, Bool, true, false, Option, none, some, List, [], ◌∷◌, ◌++◌,
  if◌then◌else◌,
}
use pi_pilot.Base.Json.{is_empty}
use pi_pilot.Nav.Tree.{
  Entry, Nodes, no_nodes, node, is_entry, path_to_leaf, user_message, last_user_message, target_on,
  undo_target_id,
}

-- The entries on the way from a root to a node of the leaf's id
pub data IsWay (leaf : String) : Nodes → List (Option Entry) → Type 0 where
  here :
      {e : Option Entry} {c o : Nodes} → is_entry leaf e ≡ true → IsWay leaf (node e c o) (e ∷ [])
  below :
      {e : Option Entry} {c o : Nodes} {path : List (Option Entry)}
      → IsWay leaf c path
      → IsWay leaf (node e c o) (e ∷ path)
  beside :
      {e : Option Entry} {c o : Nodes} {path : List (Option Entry)}
      → IsWay leaf o path
      → IsWay leaf (node e c o) path

-- What a search says of the ways to the leaf
abbrev pub Finds : String → Nodes → Option (List (Option Entry)) → Type 0
Finds leaf t none = (path : List (Option Entry)) → ¬ (IsWay leaf t path)
Finds leaf t (some path) = IsWay leaf t path

no_way :
    (leaf : String) (e : Option Entry) (c o : Nodes)
    → is_entry leaf e ≡ false
    → Finds leaf c none
    → Finds leaf o none
    → Finds leaf (node e c o) none
no_way leaf e c o f below_none beside_none path (here t) = cc
no_way leaf e c o f below_none beside_none _ (below {path = p} w) = below_none p w
no_way leaf e c o f below_none beside_none path (beside w) = beside_none path w

found_below :
    (leaf : String) (e : Option Entry) (c o : Nodes) (down across : Option (List (Option Entry)))
    → is_entry leaf e ≡ false
    → Finds leaf c down
    → Finds leaf o across
    → Finds leaf (node e c o) (elim down [ some path ↦ some (e ∷ path) | none ↦ across ])
found_below leaf e c o (some path) across f d a = below d
found_below leaf e c o none (some path) f d a = beside a
found_below leaf e c o none none f d a = no_way leaf e c o f d a

found :
    (leaf : String) (e : Option Entry) (c o : Nodes) (b : Bool) (x : Option (List (Option Entry)))
    → is_entry leaf e ≡ b
    → (b ≡ false → Finds leaf (node e c o) x)
    → Finds leaf (node e c o) (if b then some (e ∷ []) else x)
found leaf e c o true x h later = here h
found leaf e c o false x h later = later refl

pub path_to_leaf-Finds : (leaf : String) (t : Nodes) → Finds leaf t (path_to_leaf leaf t)
unfolding path_to_leaf
path_to_leaf-Finds leaf no_nodes = λ path w. elim w [ ]
path_to_leaf-Finds leaf (node e c o) =
    let down = path_to_leaf-Finds leaf c in
    let across = path_to_leaf-Finds leaf o in
    found leaf e c o (is_entry leaf e) _ refl
      (λ f. found_below leaf e c o (path_to_leaf leaf c) (path_to_leaf leaf o) f down across)

-- No message of a user
abbrev pub NoMessages : List (Option Entry) → Type 0
NoMessages [] = Unit
NoMessages (e ∷ es) = (user_message e ≡ none) × NoMessages es

-- An entry on a way, a user's message, and no other such message after it
pub record IsTarget (path : List (Option Entry)) (id : String) : Type 0 where
  pub earlier : List (Option Entry)
  pub entry : Option Entry
  pub later : List (Option Entry)
  pub parts : path ≡ earlier ++ entry ∷ later
  pub message : user_message entry ≡ some id
  pub last : NoMessages later

abbrev pub Tells : List (Option Entry) → Option String → Type 0
Tells path none = NoMessages path
Tells path (some id) = IsTarget path id

more-Tells :
    (e : Option Entry) (es : List (Option Entry)) (later own : Option String)
    → user_message e ≡ own
    → Tells es later
    → Tells (e ∷ es) (elim later [ some id ↦ some id | none ↦ own ])
more-Tells e es (some id) own h t = record {
  earlier = e ∷ t.earlier;
  entry = t.entry;
  later = t.later;
  parts = ap (λ xs. e ∷ xs) t.parts;
  message = t.message;
  last = t.last;
}
more-Tells e es none (some id) h t = record {
  earlier = [];
  entry = e;
  later = es;
  parts = refl;
  message = h;
  last = t;
}
more-Tells e es none none h t = (h, t)

last_user_message-Tells : (path : List (Option Entry)) → Tells path (last_user_message path)
last_user_message-Tells [] = tt
last_user_message-Tells (e ∷ es) =
    more-Tells e es (last_user_message es) (user_message e) refl (last_user_message-Tells es)

-- The answer of an undo, of the ways from a root to the leaf
abbrev pub Undoes : String → Nodes → Option String → Type 0
Undoes leaf t (some id) = (path : List (Option Entry)) × IsWay leaf t path × IsTarget path id
Undoes leaf t none =
    Finds leaf t none ⊎ ((path : List (Option Entry)) × IsWay leaf t path × NoMessages path)

on_path :
    (leaf : String) (t : Nodes) (found_path : Option (List (Option Entry)))
    → Finds leaf t found_path
    → Undoes leaf t (target_on found_path)
on_path leaf t none f = inl f
on_path leaf t (some path) w = by_target (last_user_message path) (last_user_message-Tells path)
  where
    by_target : (o : Option String) → Tells path o → Undoes leaf t o
    by_target none n = inr (path, w, n)
    by_target (some id) target = (path, w, target)

-- For a leaf with an id the undo names the last message of a user on the way from a root of the tree
-- to that leaf. It names nothing only if the tree has no such leaf, or no user's message stands on
-- the way to it.
pub undo_target_id-Undoes :
    (leaf : String) (t : Nodes)
    → is_empty leaf ≡ false
    → Undoes leaf t (undo_target_id t (some leaf))
unfolding undo_target_id
undo_target_id-Undoes leaf t h = by_test (is_empty leaf) h
  where
    by_test :
        (b : Bool) → b ≡ false → Undoes leaf t (if b then none else target_on (path_to_leaf leaf t))
    by_test false f = on_path leaf t (path_to_leaf leaf t) (path_to_leaf-Finds leaf t)
    by_test true f = cc
