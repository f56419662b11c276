-- ===== src/Base/Tests.antt =====
-- Boolean tests on numbers and texts, the conditional, and decisions.
use Prim.Native.Nat.{ℕ, ◌≤◌, ◌<◌, compare, Ordering}
use Prim.Native.String.{String}
use mathlib.Core.Path.{◌≡◌, refl, sym, ◌∙◌}
use mathlib.Core.Logic.{◌≢◌, ◌↔◌, ◌⊎◌, inl, inr}
use mathlib.Core.Bool.{Bool, true, false, false≢true}
use mathlib.Core.Option.{Option, none, some}
use native.Mathlib.Omega.{arith}
use native.Mathlib.Decide.{ℕ_discrete}
use text.Mathlib.Text.{◌==◌ as str_eq}
use text.Mathlib.TextEquality.{eq_iff}

abbrev pub ltb : ℕ → ℕ → Bool
ltb a b = elim (compare a b) [ Ordering.lt ↦ true | _ ↦ false ]

abbrev pub leb : ℕ → ℕ → Bool
leb a b = elim (compare a b) [ Ordering.gt ↦ false | _ ↦ true ]

infix 50 ◌==◌
abbrev pub ◌==◌ : ℕ → ℕ → Bool
a == b = elim (compare a b) [ Ordering.eq ↦ true | _ ↦ false ]

infix 1 if◌then◌else◌
abbrev pub if◌then◌else◌ {ℓ} : {A : Type ℓ} → Bool → A → A → A
if true then x else y = x
if false then x else y = y

pub ltb→lt : (a b : ℕ) → ltb a b ≡ true → a < b
ltb→lt a b h = ground arith

pub lt→ltb : (a b : ℕ) → a < b → ltb a b ≡ true
lt→ltb a b h = ground arith

pub leb→le : (a b : ℕ) → leb a b ≡ true → a ≤ b
leb→le a b h = ground arith

pub ruleset tests = (arith, ltb→lt, lt→ltb, leb→le)

pub Bool-cases : (b : Bool) → (b ≡ true) ⊎ (b ≡ false)
Bool-cases true = inl refl
Bool-cases false = inr refl

pub if_yes {ℓ} : {A : Type ℓ} (b : Bool) (x y : A) → b ≡ true → (if b then x else y) ≡ x
if_yes b x y h = rw h refl

pub if_no {ℓ} : {A : Type ℓ} (b : Bool) (x y : A) → b ≡ false → (if b then x else y) ≡ y
if_no b x y h = rw h refl

pub Option-cases {ℓ} : {A : Type ℓ} (o : Option A) → (o ≡ none) ⊎ ((a : A) × (o ≡ some a))
Option-cases none = inl refl
Option-cases (some a) = inr (a, refl)

pub Either-cases {ℓ κ} :
    {A : Type ℓ} {B : Type κ} (s : A ⊎ B) → ((a : A) × (s ≡ inl a)) ⊎ ((b : B) × (s ≡ inr b))
Either-cases (inl a) = inl (a, refl)
Either-cases (inr b) = inr (b, refl)

-- A number of the wire that may be negative; `negsuc n` is -(n + 1).
pub data ℤ : Type 0 where
  pos : ℕ → ℤ
  negsuc : ℕ → ℤ

abbrev pub is_some {ℓ} : {A : Type ℓ} → Option A → Bool
is_some none = false
is_some (some a) = true

-- `a ?? b`
abbrev pub or_else {ℓ} : {A : Type ℓ} → Option A → A → A
or_else none d = d
or_else (some a) d = a

-- A test that decides a statement gives a decision of it.
decided {ℓ} : {P : Type ℓ} (b : Bool) → (b ≡ true) ↔ P → Dec P
decided true h = yes (h.0 refl)
decided false h = no (λ p. false≢true (h.1 p))

-- `===` on texts
unfoldable pub String_discrete : Discrete String
unfolding decided
String_discrete s t = decided (str_eq s t) (eq_iff s t)

pub text_ne : (s t : String) → str_eq s t ≡ false → s ≢ t
text_ne s t h e = false≢true (sym h ∙ (eq_iff s t).1 e)

-- What a key of a map needs: an equality that can be tested.
pub record Key {ℓ} (K : Type ℓ) : Type ℓ where
  pub dec : Discrete K

instance abbrev pub nat_key : Key ℕ
nat_key = record { dec = ℕ_discrete }

instance abbrev pub string_key : Key String
string_key = record { dec = String_discrete }

-- `===` as a Boolean
abbrev pub same {ℓ} : {K : Type ℓ} ⦃k : Key K⦄ → K → K → Bool
same ⦃k⦄ a b = elim (k.dec a b) [ yes _ ↦ true | no _ ↦ false ]

as_test {ℓ} : {P : Type ℓ} → Dec P → Bool
as_test (yes p) = true
as_test (no n) = false

of_test {ℓ} : {P : Type ℓ} (d : Dec P) → as_test d ≡ true → P
unfolding as_test
of_test (yes p) h = p
of_test (no n) h = absurd (false≢true h)

of_failed {ℓ} : {P : Type ℓ} (d : Dec P) → as_test d ≡ false → P → ⊥
unfolding as_test
of_failed (yes p) h q = false≢true (sym h)
of_failed (no n) h q = n q

pub same_eq {ℓ} : {K : Type ℓ} ⦃k : Key K⦄ (a b : K) → same a b ≡ true → a ≡ b
unfolding as_test
same_eq ⦃k⦄ a b h = of_test (k.dec a b) h

pub same_ne {ℓ} : {K : Type ℓ} ⦃k : Key K⦄ (a b : K) → same a b ≡ false → a ≢ b
unfolding as_test
same_ne ⦃k⦄ a b h = of_failed (k.dec a b) h

test_refl {ℓ} : {P : Type ℓ} (d : Dec P) → P → as_test d ≡ true
unfolding as_test
test_refl (yes p) q = refl
test_refl (no n) q = absurd (n q)

pub same_refl {ℓ} : {K : Type ℓ} ⦃k : Key K⦄ (a : K) → same a a ≡ true
unfolding as_test
same_refl ⦃k⦄ a = test_refl (k.dec a a) refl
