-- ===== src/Transfer/Budget.antt =====
-- The store of sent transfers keeps to its byte budget, and what was just sent can be resent.
use pi_pilot.Base.{
  ℕ, ◌+◌, ◌≤◌, ◌≡◌, refl, ap, subst, inl, inr, none, some, List, [], ◌∷◌, arith, leb, leb→le,
  Bool-cases, Option-cases, nat_key, string_key,
}
use pi_pilot.Base.Map
use pi_pilot.Base.Map.{
  Map, Distinct, Distinct-delete, Distinct-set, total, total-delete, total-set, delete_absent,
  get-delete_self, get-set_self,
}
use pi_pilot.Transfer.Encode.{EncodedTransfer, retention_max_bytes}
use pi_pilot.Transfer.Retained.{
  Retained, RetainedStore, id_key, forget, is_over, sweep_old, evict_oldest, sweep, kept_as, added,
  add,
}

abbrev pub size_of : Retained → ℕ
size_of r = r.bytes

pub record IsStore (s : RetainedStore) : Type 0 where
  pub distinct : Distinct s.held
  pub counted : s.total_bytes ≡ total size_of s.held

pub forget-IsStore : (key : List ℕ) (s : RetainedStore) → IsStore s → IsStore (forget key s)
unfolding forget
forget-IsStore key s v = elim (Option-cases (Map.get key s.held)) [
  | inl e ↦ rw (e, forget) v
  | inr (r, e) ↦
      rw (e, forget)
        (record {
          distinct = Distinct-delete key s.held v.distinct;
          counted = ground (arith, total-delete size_of key s.held v.distinct, v.counted);
        })
]

pub forget_absent : (key : List ℕ) (s : RetainedStore) → Map.get key (forget key s).held ≡ none
unfolding forget
forget_absent key s = elim (Option-cases (Map.get key s.held)) [
  | inl e ↦ rw (e, forget) e
  | inr (r, e) ↦ rw (e, forget) (get-delete_self key s.held)
]

pub forget-bytes :
    (key : List ℕ) (r : Retained) (s : RetainedStore)
    → IsStore s
    → Map.get key s.held ≡ some r
    → (forget key s).total_bytes + r.bytes ≡ s.total_bytes
unfolding forget
forget-bytes key r s v e =
    rw (e, forget) (ground (arith, v.counted, total-delete size_of key s.held v.distinct))

pub sweep_old-IsStore :
    (now : ℕ) (es : Map (List ℕ) Retained) (s : RetainedStore)
    → IsStore s
    → IsStore (sweep_old now es s)
unfolding sweep_old
sweep_old-IsStore now [] s v = v
sweep_old-IsStore now ((key, r) ∷ es) s v = elim (Bool-cases (is_over now r)) [
  | inl e ↦ rw e (sweep_old-IsStore now es (forget key s) (forget-IsStore key s v))
  | inr e ↦ rw e (sweep_old-IsStore now es s v)
]

pub forget_first :
    (key : List ℕ) (r : Retained) (es : Map (List ℕ) Retained) (s : RetainedStore)
    → IsStore s
    → s.held ≡ (key, r) ∷ es
    → (forget key s).held ≡ es
unfolding forget Map.get Map.delete
forget_first key r es s v e =
    let d = subst Distinct e v.distinct in ground (arith, delete_absent key es d.0, d.0)

evict_oldest-fits :
    (es : Map (List ℕ) Retained) (s : RetainedStore)
    → IsStore s
    → s.held ≡ es
    → IsStore (evict_oldest es s) × ((evict_oldest es s).total_bytes ≤ retention_max_bytes)
unfolding evict_oldest total
evict_oldest-fits [] s v e = (v, omega (arith, v.counted, ap (total size_of) e))
evict_oldest-fits ((key, r) ∷ es) s v e =
    elim (Bool-cases (leb s.total_bytes retention_max_bytes)) [
      | inl fits ↦ rw fits (v, leb→le _ _ fits)
      | inr over ↦ rw over (
          evict_oldest-fits es (forget key s) (forget-IsStore key s v)
            (forget_first key r es s v e))
    ]

pub added-IsStore :
    (now : ℕ) (t : EncodedTransfer) (s : RetainedStore) → IsStore s → IsStore (added now t s)
unfolding added
added-IsStore now t s v = record {
  distinct = Distinct-set t.transfer_id (kept_as now t) s'.held good.distinct;
  counted = omega (
    arith,
    good.counted,
    total-set size_of t.transfer_id (kept_as now t) s'.held,
    ap (Map.weight size_of) absent,
  );
}
  where
    s' : RetainedStore
    s' = forget t.transfer_id s

    good : IsStore s'
    good = forget-IsStore t.transfer_id s v

    absent : Map.get t.transfer_id s'.held ≡ none
    absent = forget_absent t.transfer_id s

-- Adding a transfer keeps the count of bytes exact, and the store within its budget, also where the
-- transfer is larger than the budget by itself.
pub add_within_budget :
    (now : ℕ) (t : EncodedTransfer) (s : RetainedStore)
    → IsStore s
    → IsStore (add now t s) × ((add now t s).total_bytes ≤ retention_max_bytes)
unfolding add sweep
add_within_budget now t s v =
    let old =
      sweep_old-IsStore now (added now t s).held (added now t s) (added-IsStore now t s v) in
    evict_oldest-fits _ _ old refl
