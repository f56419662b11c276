-- ===== src/Transfer/Stored.antt =====
-- The bytes of the pages that an assembler holds, and that dropping assemblies keeps them counted.
use pi_pilot.Base.{
  ℕ, zero, suc, ◌+◌, ◌<◌, ◌≡◌, refl, inl, inr, Bool, true, false, Option, none, some, List, [], ◌∷◌,
  arith, if◌then◌else◌, Bool-cases, Option-cases, nat_key, string_key, length, replicate, set,
}
use pi_pilot.Base.Map
use pi_pilot.Base.Map.{Map, Distinct, total, Every, Every-get, Every-set, Every-delete}
use pi_pilot.Transfer.Retained.{id_key}
use pi_pilot.Transfer.Assembler.{
  sweep_idle, drop_assembly, Assembly, Assembler, Outcome, oldest, over_caps, enforce_from,
  enforce_caps,
}
use pi_pilot.Transfer.Pages.{is_there}

-- The bytes of the pages that are there
abbrev pub stored_bytes : List (Option (List ℕ)) → ℕ
stored_bytes [] = 0
stored_bytes (none ∷ ps) = stored_bytes ps
stored_bytes (some part ∷ ps) = length part + stored_bytes ps

abbrev pub stored_in : Assembly → ℕ
stored_in x = stored_bytes x.parts

-- An assembly has a place for each page, and its count is that of the pages there.
pub record IsMeasured (x : Assembly) : Type 0 where
  pub placed : length x.parts ≡ x.page_count
  pub measured : x.bytes ≡ stored_in x

abbrev pub Measured : Assembler → Type 0
Measured a = Every IsMeasured a.assemblies

pub record Leaves (r : Assembler × Outcome) : Type 0 where
  pub left : Measured r.0

pub leaves : {a : Assembler} {o : Outcome} → Measured a → Leaves (a, o)
leaves v = record { left = v }

pub if-Leaves :
    (b : Bool) {x y : Assembler × Outcome}
    → (b ≡ true → Leaves x)
    → (b ≡ false → Leaves y)
    → Leaves (if b then x else y)
if-Leaves true u v = u refl
if-Leaves false u v = v refl

pub stored-replicate : (n : ℕ) → stored_bytes (replicate n none) ≡ 0
stored-replicate zero = refl
stored-replicate (suc n) = stored-replicate n

pub stored-set :
    (i : ℕ) (part : List ℕ) (ps : List (Option (List ℕ)))
    → i < length ps
    → is_there ps i ≡ false
    → stored_bytes (set ps i (some part)) ≡ stored_bytes ps + length part
stored-set i part [] h n = absurd (omega arith)
stored-set zero part (none ∷ ps) h n = omega arith
stored-set zero part (some q ∷ ps) h n = absurd (cc)
stored-set (suc i) part (none ∷ ps) h n = stored-set i part ps (omega arith) n
stored-set (suc i) part (some q ∷ ps) h n = omega (arith, stored-set i part ps (omega arith) n)

pub drop_assembly-Measured :
    (key : List ℕ) (a : Assembler) → Measured a → Measured (drop_assembly key a)
unfolding drop_assembly
drop_assembly-Measured key a v = elim (Option-cases (Map.get key a.assemblies)) [
  | inl e ↦ rw (e, drop_assembly) v
  | inr (x, e) ↦ rw (e, drop_assembly) (Every-delete IsMeasured key a.assemblies v)
]

pub sweep_idle-Measured :
    (now : ℕ) (m : Map (List ℕ) Assembly) (a : Assembler)
    → Measured a
    → Measured (sweep_idle now m a)
unfolding sweep_idle
sweep_idle-Measured now [] a v = v
sweep_idle-Measured now ((k, x) ∷ xs) a v = sweep_idle-Measured now xs _ (either _)
  where
    either : (b : Bool) → Measured (if b then drop_assembly k a else a)
    either true = drop_assembly-Measured k a v
    either false = v

enforce_from-Measured :
    (fuel : ℕ) (p : List ℕ) (a : Assembler) → Measured a → Measured (enforce_from fuel p a).0
unfolding enforce_from
enforce_from-Measured zero p a v = v
enforce_from-Measured (suc fuel) p a v =
    let next : (k : List ℕ) → Measured (enforce_from fuel p (drop_assembly k a)).0 =
      λ k. enforce_from-Measured fuel p (drop_assembly k a) (drop_assembly-Measured k a v) in
    elim (Bool-cases (over_caps a)) [
      | inr e ↦ rw (e, enforce_from) v
      | inl e ↦ elim (Option-cases (oldest p none a.assemblies)) [
        | inl n ↦ rw (e, n, enforce_from) (drop_assembly-Measured p a v)
        | inr ((k, at), n) ↦ rw (e, n, enforce_from) (next k)
      ]
    ]

pub enforce_caps-Measured :
    (p : List ℕ) (a : Assembler) → Measured a → Measured (enforce_caps p a).0
unfolding enforce_caps
enforce_caps-Measured p a v = enforce_from-Measured (suc (length a.assemblies)) p a v
