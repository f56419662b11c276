-- ===== src/Transfer/Caps.antt =====
-- The assembler keeps to its caps on assemblies and bytes, whatever frames come in.
use pi_pilot.Base.{
  ℕ, zero, suc, ◌+◌, ◌≤◌, ◌<◌, ◌≡◌, refl, sym, ap, ◌∙◌, subst, ◌≢◌, ◌⊎◌, inl, inr, Bool, true,
  false, Option, none, some, List, [], ◌∷◌, arith, if◌then◌else◌, Bool-cases, Option-cases, nat_key,
  string_key, length,
}
use pi_pilot.Base.Map
use pi_pilot.Base.Map.{
  Map, Distinct, Distinct-delete, Distinct-set, total, weight, total-delete, total-set,
  delete_absent, get-delete_self, get-set_self, length-delete, length-delete-le, length-set-le,
}
use pi_pilot.Transfer.Encode.{max_assemblies, assembly_max_bytes}
use pi_pilot.Transfer.Retained.{id_key}
use pi_pilot.Transfer.Assembler.{
  Assembly, Assembler, drop_assembly, sweep_idle, sweep, better, oldest, over_caps, enforce_from,
  enforce_caps,
}

abbrev pub size_of : Assembly → ℕ
size_of x = x.bytes

pub record IsCounted (a : Assembler) : Type 0 where
  pub distinct : Distinct a.assemblies
  pub counted : a.total_bytes ≡ total size_of a.assemblies

pub record IsWithin (a : Assembler) : Type 0 where
  pub few : length a.assemblies ≤ max_assemblies
  pub small : a.total_bytes ≤ assembly_max_bytes

pub drop_assembly-IsCounted :
    (key : List ℕ) (a : Assembler) → IsCounted a → IsCounted (drop_assembly key a)
unfolding drop_assembly
drop_assembly-IsCounted key a v = elim (Option-cases (Map.get key a.assemblies)) [
  | inl e ↦ rw (e, drop_assembly) v
  | inr (x, e) ↦
      rw (e, drop_assembly)
        (record {
          distinct = Distinct-delete key a.assemblies v.distinct;
          counted = ground (arith, total-delete size_of key a.assemblies v.distinct, v.counted);
        })
]

pub drop_assembly-IsWithin :
    (key : List ℕ) (a : Assembler) → IsWithin a → IsWithin (drop_assembly key a)
unfolding drop_assembly
drop_assembly-IsWithin key a w = ground (arith, length-delete-le key a.assemblies)

drop_found :
    (key : List ℕ) (x : Assembly) (a : Assembler)
    → IsCounted a
    → Map.get key a.assemblies ≡ some x
    → length (drop_assembly key a).assemblies + 1 ≡ length a.assemblies
unfolding drop_assembly
drop_found key x a v e = rw (e, drop_assembly) (length-delete key x a.assemblies v.distinct e)

-- Every entry has the one key.
abbrev OnlyKey : List ℕ → Map (List ℕ) Assembly → Type 0
OnlyKey p [] = Unit {0}
OnlyKey p ((k, x) ∷ xs) = (k ≡ p) × OnlyKey p xs

oldest-none :
    (p : List ℕ) (best : Option (List ℕ × ℕ)) (m : Map (List ℕ) Assembly)
    → oldest p best m ≡ none
    → (best ≡ none) × OnlyKey p m
unfolding oldest
oldest-none p best [] h = (h, tt)
oldest-none p best ((k, x) ∷ xs) h =
    let (b, o) = oldest-none p (better p k x.last_activity best) xs h in
    (ground arith, (ground arith, o))

oldest-found :
    (p k : List ℕ) (at : ℕ) (best : Option (List ℕ × ℕ)) (m : Map (List ℕ) Assembly)
    → oldest p best m ≡ some (k, at)
    → (best ≡ some (k, at)) ⊎ (Map.get k m ≢ none)
unfolding oldest Map.get
oldest-found p k at best [] h = inl h
oldest-found p k at best ((j, x) ∷ xs) h =
    ground (arith, oldest-found p k at (better p j x.last_activity best) xs h)

delete_only : (p : List ℕ) (m : Map (List ℕ) Assembly) → OnlyKey p m → Map.delete p m ≡ []
unfolding Map.delete
delete_only p [] o = refl
delete_only p ((k, x) ∷ xs) o = ground (arith, delete_only p xs o.1)

only-absent : (p : List ℕ) (m : Map (List ℕ) Assembly) → OnlyKey p m → Map.get p m ≡ none → m ≡ []
unfolding Map.get
only-absent p [] o h = refl
only-absent p ((k, x) ∷ xs) o h = ground (arith, o.1)

empty-IsWithin : (a : Assembler) → IsCounted a → a.assemblies ≡ [] → IsWithin a
unfolding total
empty-IsWithin a v e = record {
  few = subst (λ m. length m ≤ max_assemblies) (sym e) (omega arith);
  small = let c = v.counted ∙ ap (total size_of) e in omega arith;
}

drop_only :
    (p : List ℕ) (a : Assembler)
    → IsCounted a
    → OnlyKey p a.assemblies
    → IsWithin (drop_assembly p a)
unfolding drop_assembly
drop_only p a v o = elim (Option-cases (Map.get p a.assemblies)) [
  | inl e ↦ rw (e, drop_assembly) (empty-IsWithin a v (only-absent p a.assemblies o e))
  | inr (x, e) ↦
      empty-IsWithin (drop_assembly p a) (drop_assembly-IsCounted p a v)
        (rw (e, drop_assembly) (delete_only p a.assemblies o))
]

abbrev pub Kept : Assembler → Type 0
Kept a = IsCounted a × IsWithin a

drop_next :
    (fuel : ℕ) (p k : List ℕ) (at : ℕ) (a : Assembler)
    → length a.assemblies < suc fuel
    → IsCounted a
    → oldest p none a.assemblies ≡ some (k, at)
    → length (drop_assembly k a).assemblies < fuel
drop_next fuel p k at a h v e = elim (Option-cases (Map.get k a.assemblies)) [
  | inl g ↦ absurd (elim (oldest-found p k at none a.assemblies e) [ inl c ↦ cc | inr n ↦ n g ])
  | inr (x, g) ↦ let d = drop_found k x a v g in omega arith
]

under-IsWithin : (a : Assembler) → over_caps a ≡ false → IsWithin a
under-IsWithin a e = record { few = ground arith; small = ground arith }

enforce_round :
    (fuel : ℕ) (p : List ℕ) (a : Assembler)
    → length a.assemblies < suc fuel
    → IsCounted a
    → ((b : Assembler) → length b.assemblies < fuel → IsCounted b → Kept (enforce_from fuel p b).0)
    → Kept (enforce_from (suc fuel) p a).0
unfolding enforce_from
enforce_round fuel p a h v ih = elim (Bool-cases (over_caps a)) [
  | inl e ↦ elim (Option-cases (oldest p none a.assemblies)) [
    | inl n ↦
        rw (e, n, enforce_from)
          (drop_assembly-IsCounted p a v, drop_only p a v (oldest-none p none a.assemblies n).1)
    | inr ((k, at), n) ↦
        rw (e, n, enforce_from)
          (ih (drop_assembly k a) (drop_next fuel p k at a h v n) (drop_assembly-IsCounted k a v))
  ]
  | inr e ↦ rw (e, enforce_from) (v, under-IsWithin a e)
]

enforce_from-Kept :
    (fuel : ℕ) (p : List ℕ) (a : Assembler)
    → length a.assemblies < fuel
    → IsCounted a
    → Kept (enforce_from fuel p a).0
unfolding enforce_from
enforce_from-Kept zero p a h v = absurd (omega arith)
enforce_from-Kept (suc fuel) p a h v = enforce_round fuel p a h v (λ b. enforce_from-Kept fuel p b)

pub enforce_caps-Kept : (p : List ℕ) (a : Assembler) → IsCounted a → Kept (enforce_caps p a).0
unfolding enforce_caps
enforce_caps-Kept p a v = enforce_from-Kept (suc (length a.assemblies)) p a (omega arith) v

pub drop_assembly-Kept : (key : List ℕ) (a : Assembler) → Kept a → Kept (drop_assembly key a)
drop_assembly-Kept key a (v, w) = (drop_assembly-IsCounted key a v, drop_assembly-IsWithin key a w)

pub if-Kept : (b : Bool) {x y : Assembler} → Kept x → Kept y → Kept (if b then x else y)
if-Kept true u v = u
if-Kept false u v = v

sweep_idle-Kept :
    (now : ℕ) (m : Map (List ℕ) Assembly) (a : Assembler) → Kept a → Kept (sweep_idle now m a)
unfolding sweep_idle
sweep_idle-Kept now [] a v = v
sweep_idle-Kept now ((k, x) ∷ xs) a v =
    sweep_idle-Kept now xs _ (if-Kept _ (drop_assembly-Kept k a v) v)

pub sweep-Kept : (now : ℕ) (a : Assembler) → Kept a → Kept (sweep now a)
unfolding sweep
sweep-Kept now a v = sweep_idle-Kept now a.assemblies a v

-- An assembly put in place of what was there, with as many bytes more as it has.
pub set-IsCounted :
    (key : List ℕ) (x : Assembly) (more : ℕ) (a : Assembler)
    → IsCounted a
    → x.bytes ≡ weight size_of (Map.get key a.assemblies) + more
    → IsCounted
        (record { assemblies = Map.set key x a.assemblies; total_bytes = a.total_bytes + more })
set-IsCounted key x more a v e = record {
  distinct = Distinct-set key x a.assemblies v.distinct;
  counted = let t = total-set size_of key x a.assemblies in let c = v.counted in omega arith;
}

pub drop_absent :
    (key : List ℕ) (a : Assembler) → Map.get key (drop_assembly key a).assemblies ≡ none
unfolding drop_assembly
drop_absent key a = elim (Option-cases (Map.get key a.assemblies)) [
  | inl e ↦ rw (e, drop_assembly) e
  | inr (x, e) ↦ rw (e, drop_assembly) (get-delete_self key a.assemblies)
]

length-set_found :
    (key : List ℕ) (x y : Assembly) (m : Map (List ℕ) Assembly)
    → Map.get key m ≡ some x
    → length (Map.set key y m) ≡ length m
unfolding Map.get Map.set
length-set_found key x y [] e = ground arith
length-set_found key x y ((k, z) ∷ m) e = ground (arith, length-set_found key x y m)

pub replace-Kept :
    (key : List ℕ) (x y : Assembly) (a : Assembler)
    → Map.get key a.assemblies ≡ some x
    → y.bytes ≡ x.bytes
    → Kept a
    → Kept (record { assemblies = Map.set key y a.assemblies; total_bytes = a.total_bytes })
replace-Kept key x y a e b (v, w) = (
  record {
    distinct = Distinct-set key y a.assemblies v.distinct;
    counted =
        let t = total-set size_of key y a.assemblies in
        let g = ap (weight size_of) e in let c = v.counted in omega arith;
  },
  record { few = rw (length-set_found key x y a.assemblies e) w.few; small = w.small },
)
