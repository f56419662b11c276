-- ===== src/Base/Map.antt =====
-- The JavaScript `Map`: entries in the order of insertion, with distinct keys.
use Prim.Native.Nat.{ℕ, ◌+◌, ◌≤◌}
use mathlib.Core.Path.{◌≡◌, refl, subst}
use mathlib.Core.Logic.{◌≢◌, ite, if_pos, if_neg}
use mathlib.Core.List.{List, [], ◌∷◌, ◌++◌}
use mathlib.Core.Option.{Option, none, some}
use native.Mathlib.Omega.{arith}
use pi_pilot.Base.Tests.{Key}
use pi_pilot.Base.Lists.{length}

abbrev pub Map {ℓ} : Type ℓ → Type ℓ → Type ℓ
Map K V = List (K × V)

abbrev pub weight {ℓ} : {V : Type ℓ} → (V → ℕ) → Option V → ℕ
weight w none = 0
weight w (some v) = w v

module _ {ℓ} {K V : Type ℓ} ⦃e : Key K⦄ where
  unfoldable pub get : K → Map K V → Option V
  get k [] = none
  get k ((j, v) ∷ m) = ite (e.dec j k) (some v) (get k m)

  -- An entry that is there keeps its place; a new one goes to the end.
  unfoldable pub set : K → V → Map K V → Map K V
  set k v [] = (k, v) ∷ []
  set k v ((j, w) ∷ m) = ite (e.dec j k) ((k, v) ∷ m) ((j, w) ∷ set k v m)

  unfoldable pub delete : K → Map K V → Map K V
  delete k [] = []
  delete k ((j, w) ∷ m) = ite (e.dec j k) (delete k m) ((j, w) ∷ delete k m)

  pub get-set :
      (k j : K) (v : V) (m : Map K V) → get j (set k v m) ≡ ite (e.dec k j) (some v) (get j m)
  unfolding get set
  get-set k j v [] = refl
  get-set k j v ((i, w) ∷ m) = ground (arith, get-set k j v m)

  pub get-delete : (k j : K) (m : Map K V) → get j (delete k m) ≡ ite (e.dec k j) none (get j m)
  unfolding get delete
  get-delete k j [] = ground arith
  get-delete k j ((i, w) ∷ m) = ground (arith, get-delete k j m)

  pub get-set_self : (k : K) (v : V) (m : Map K V) → get k (set k v m) ≡ some v
  get-set_self k v m = rw get-set (if_pos (e.dec k k) refl _ _)

  pub get-set_ne : (k j : K) (v : V) (m : Map K V) → k ≢ j → get j (set k v m) ≡ get j m
  get-set_ne k j v m h = rw get-set (if_neg (e.dec k j) h _ _)

  pub get-delete_self : (k : K) (m : Map K V) → get k (delete k m) ≡ none
  get-delete_self k m = rw get-delete (if_pos (e.dec k k) refl _ _)

  pub get-delete_ne : (k j : K) (m : Map K V) → k ≢ j → get j (delete k m) ≡ get j m
  get-delete_ne k j m h = rw get-delete (if_neg (e.dec k j) h _ _)

  -- No key stands twice.
  abbrev pub Distinct : Map K V → Type ℓ
  Distinct [] = Unit
  Distinct ((k, v) ∷ m) = (get k m ≡ none) × Distinct m

  pub Distinct-set : (k : K) (v : V) (m : Map K V) → Distinct m → Distinct (set k v m)
  unfolding get set
  Distinct-set k v [] d = (refl, tt)
  Distinct-set k v ((i, w) ∷ m) d = ground (arith, get-set k i v m, Distinct-set k v m d.1)

  pub Distinct-delete : (k : K) (m : Map K V) → Distinct m → Distinct (delete k m)
  unfolding delete
  Distinct-delete k [] d = tt
  Distinct-delete k ((i, w) ∷ m) d = ground (arith, get-delete k i m, Distinct-delete k m d.1)

  pub delete_absent : (k : K) (m : Map K V) → get k m ≡ none → delete k m ≡ m
  unfolding get delete
  delete_absent k [] h = refl
  delete_absent k ((i, w) ∷ m) h = ground (arith, delete_absent k m)

  pub length-delete-le : (k : K) (m : Map K V) → length (delete k m) ≤ length m
  unfolding delete
  length-delete-le k [] = omega arith
  length-delete-le k ((i, w) ∷ m) = ground (arith, length-delete-le k m)

  -- `delete` of a key that is there takes one entry out.
  pub length-delete :
      (k : K) (v : V) (m : Map K V)
      → Distinct m
      → get k m ≡ some v
      → length (delete k m) + 1 ≡ length m
  unfolding get delete
  length-delete k v [] d h = absurd (ground arith)
  length-delete k v ((i, w) ∷ m) d h = ground (arith, length-delete k v m d.1, delete_absent k m)

  pub length-set-le : (k : K) (v : V) (m : Map K V) → length (set k v m) ≤ length m + 1
  unfolding set
  length-set-le k v [] = omega arith
  length-set-le k v ((i, w) ∷ m) = ground (arith, length-set-le k v m)

  -- The sum of a measure over the entries.
  unfoldable pub total : (V → ℕ) → Map K V → ℕ
  total w [] = 0
  total w ((k, v) ∷ m) = w v + total w m

  pub total-delete :
      (w : V → ℕ) (k : K) (m : Map K V)
      → Distinct m
      → total w (delete k m) + weight w (get k m) ≡ total w m
  unfolding get delete total
  total-delete w k [] d = omega arith
  total-delete w k ((i, v) ∷ m) d = ground (arith, total-delete w k m d.1, delete_absent k m)

  pub total-set :
      (w : V → ℕ) (k : K) (v : V) (m : Map K V)
      → total w (set k v m) + weight w (get k m) ≡ total w m + w v
  unfolding get set total
  total-set w k v [] = omega arith
  total-set w k v ((i, u) ∷ m) = ground (arith, total-set w k v m)

  -- What holds of every value.
  abbrev pub Every {κ} : (V → Type κ) → Map K V → Type κ
  Every P [] = Unit
  Every P ((k, v) ∷ m) = P v × Every P m

  pub Every-get {κ} :
      (P : V → Type κ) (k : K) (v : V) (m : Map K V) → Every P m → get k m ≡ some v → P v
  unfolding get
  Every-get P k v [] a h = cc
  Every-get P k v ((i, w) ∷ m) a h = elim (e.dec i k) [
    | yes p ↦ let same : w ≡ v = ground arith in subst P same a.0
    | no p ↦ Every-get P k v m a.1 (ground arith)
  ]

  pub Every-set {κ} :
      (P : V → Type κ) (k : K) (v : V) (m : Map K V) → Every P m → P v → Every P (set k v m)
  unfolding set
  Every-set P k v [] a h = (h, tt)
  Every-set P k v ((i, w) ∷ m) a h = elim (e.dec i k) [
    | yes p ↦ rw (if_pos (e.dec i k) p) (h, a.1)
    | no p ↦ rw (if_neg (e.dec i k) p) (a.0, Every-set P k v m a.1 h)
  ]

  pub Every-delete {κ} : (P : V → Type κ) (k : K) (m : Map K V) → Every P m → Every P (delete k m)
  unfolding delete
  Every-delete P k [] a = tt
  Every-delete P k ((i, w) ∷ m) a = elim (e.dec i k) [
    | yes p ↦ rw (if_pos (e.dec i k) p) (Every-delete P k m a.1)
    | no p ↦ rw (if_neg (e.dec i k) p) (a.0, Every-delete P k m a.1)
  ]

  pub set_absent : (k : K) (v : V) (m : Map K V) → get k m ≡ none → set k v m ≡ m ++ (k, v) ∷ []
  unfolding get set
  set_absent k v [] h = refl
  set_absent k v ((i, w) ∷ m) h = ground (arith, set_absent k v m)

  pub delete-snoc_ne :
      (k j : K) (v : V) (m : Map K V)
      → j ≢ k
      → delete k (m ++ (j, v) ∷ []) ≡ delete k m ++ (j, v) ∷ []
  unfolding delete
  delete-snoc_ne k j v [] h = ground arith
  delete-snoc_ne k j v ((i, w) ∷ m) h = ground (arith, delete-snoc_ne k j v m h)

  pub get-snoc : (k : K) (v : V) (m : Map K V) → get k m ≡ none → get k (m ++ (k, v) ∷ []) ≡ some v
  unfolding get
  get-snoc k v [] h = ground arith
  get-snoc k v ((i, w) ∷ m) h = ground (arith, get-snoc k v m)

  -- The first key of a map with a key that is missed is another one.
  pub ne_of_absent : (k i : K) (w : V) (m : Map K V) → get k ((i, w) ∷ m) ≡ none → i ≢ k
  unfolding get
  ne_of_absent k i w m h e = ground arith

  pub absent_tail : (k i : K) (w : V) (m : Map K V) → get k ((i, w) ∷ m) ≡ none → get k m ≡ none
  unfolding get
  absent_tail k i w m h = ground arith
