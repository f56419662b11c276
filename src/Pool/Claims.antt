-- ===== src/Pool/Claims.antt =====
-- Two processes never have the same session: each entry of the pool holds its session's claim.
use pi_pilot.Base.{
  String, ◌≡◌, sym, ap, ◌∙◌, subst, ◌≢◌, ◌⊎◌, inl, inr, Bool, true, false, some, [], arith,
  Option-cases, String_discrete, nat_key, string_key,
}
use pi_pilot.Base.Map
use pi_pilot.Base.Map.{
  Map, Distinct, Distinct-set, Distinct-delete, get-set_self, get-set_ne, get-delete_self,
  get-delete_ne,
}
use pi_pilot.Pool.State.{PoolEntry, Pool, forget, without_entry, without_claim, change}

abbrev pub is_text : String → Bool
is_text String.[] = false
is_text (String.◌∷◌ c s) = true

-- An entry stands under its source id, which the claims have for its session.
pub record Holds (p : Pool) (k : String) (e : PoolEntry) : Type 0 where
  pub named : e.source_id ≡ k
  pub claimed : Map.get e.spec.session_id p.claims ≡ some k
  pub text : is_text k ≡ true

pub record IsPool (p : Pool) : Type 0 where
  pub distinct : Distinct p.entries
  pub alone : p.detached ≡ []
  pub holds : (k : String) (e : PoolEntry) → Map.get k p.entries ≡ some e → Holds p k e

pub IsPool-one :
    (p : Pool) (i j : String) (e f : PoolEntry)
    → IsPool p
    → Map.get i p.entries ≡ some e
    → Map.get j p.entries ≡ some f
    → e.spec.session_id ≡ f.spec.session_id
    → i ≡ j
IsPool-one p i j e f v a b s =
    let x = (v.holds i e a).claimed in let y = (v.holds j f b).claimed in ground arith

pub found_after_set :
    {V : Type 0} (k j : String) (e f : V) (m : Map String V)
    → Map.get j (Map.set k e m) ≡ some f
    → ((k ≡ j) × (e ≡ f)) ⊎ ((k ≢ j) × (Map.get j m ≡ some f))
found_after_set k j e f m h = elim (String_discrete k j) [
  | yes q ↦ inl (q, let g = get-set_self k e m in ground arith)
  | no n ↦ inr (n, sym (get-set_ne k j e m n) ∙ h)
]

pub found_after_delete :
    {V : Type 0} (k j : String) (f : V) (m : Map String V)
    → Map.get j (Map.delete k m) ≡ some f
    → (k ≢ j) × (Map.get j m ≡ some f)
found_after_delete k j f m h = elim (String_discrete k j) [
  | yes q ↦ absurd (let g = get-delete_self k m in ground arith)
  | no n ↦ (n, sym (get-delete_ne k j m n) ∙ h)
]

-- An entry put in place of one of the same source id and session.
pub replace-IsPool :
    (k : String) (e g : PoolEntry) (p : Pool)
    → Map.get k p.entries ≡ some e
    → g.source_id ≡ e.source_id
    → g.spec.session_id ≡ e.spec.session_id
    → IsPool p
    → IsPool (record p { entries = Map.set k g p.entries })
replace-IsPool k e g p h a b v = record {
  distinct = Distinct-set k g p.entries v.distinct;
  alone = v.alone;
  holds = λ j f w. elim (found_after_set k j g f p.entries w) [
    | inl (q, r) ↦
        let o = v.holds k e h in
        record {
          named = ap (λ x. x.source_id) (sym r) ∙ a ∙ o.named ∙ q;
          claimed =
              ap (λ x. Map.get x.spec.session_id p.claims) (sym r)
              ∙ ap (λ s. Map.get s p.claims) b
              ∙ o.claimed
              ∙ ap some q;
          text = ap is_text (sym q) ∙ o.text;
        }
    | inr (n, u) ↦ record {
      named = (v.holds j f u).named;
      claimed = (v.holds j f u).claimed;
      text = (v.holds j f u).text;
    }
  ];
}

-- A change in place that leaves the source id and the session.
pub change-IsPool :
    (k : String) (g : PoolEntry → PoolEntry) (p : Pool)
    → ((e : PoolEntry)
        → ((g e).source_id ≡ e.source_id) × ((g e).spec.session_id ≡ e.spec.session_id))
    → IsPool p
    → IsPool (change k g p)
unfolding change
change-IsPool k g p keeps v = elim (Option-cases (Map.get k p.entries)) [
  | inl n ↦ rw (n, change) v
  | inr (e, h) ↦ rw (h, change) (replace-IsPool k e (g e) p h (keeps e).0 (keeps e).1 v)
]

-- An entry of the pool goes with its claim.
forgotten : PoolEntry → Pool → Pool
forgotten e p = record p {
  entries = Map.delete e.source_id p.entries;
  claims = Map.delete e.spec.session_id p.claims;
}

gone_entry :
    (e : PoolEntry) (p : Pool)
    → Map.get e.source_id p.entries ≡ some e
    → without_entry e p ≡ record p { entries = Map.delete e.source_id p.entries }
unfolding without_entry
gone_entry e p h = rw (h, without_entry) (ground arith)

gone_claim :
    (e : PoolEntry) (p : Pool)
    → Map.get e.spec.session_id p.claims ≡ some e.source_id
    → without_claim e p ≡ record p { claims = Map.delete e.spec.session_id p.claims }
unfolding without_claim
gone_claim e p c = rw (c, without_claim) (ground arith)

forget-entry :
    (e : PoolEntry) (p : Pool)
    → Map.get e.source_id p.entries ≡ some e
    → Map.get e.spec.session_id p.claims ≡ some e.source_id
    → forget e p ≡ forgotten e p
unfolding forget forgotten
forget-entry e p h c =
    ap (without_claim e) (gone_entry e p h)
    ∙ gone_claim e (record p { entries = Map.delete e.source_id p.entries }) c

forgotten-IsPool :
    (e : PoolEntry) (p : Pool)
    → Map.get e.spec.session_id p.claims ≡ some e.source_id
    → IsPool p
    → IsPool (forgotten e p)
unfolding forgotten
forgotten-IsPool e p c v = record {
  distinct = Distinct-delete e.source_id p.entries v.distinct;
  alone = v.alone;
  holds = λ j f w.
      let (n, u) = found_after_delete e.source_id j f p.entries w in
      let o = v.holds j f u in
      let other : e.spec.session_id ≢ f.spec.session_id = λ q. ground (arith, o.claimed) in
      record {
        named = o.named;
        claimed = get-delete_ne e.spec.session_id f.spec.session_id p.claims other ∙ o.claimed;
        text = o.text;
      };
}

pub forget-IsPool :
    (e : PoolEntry) (p : Pool)
    → Map.get e.source_id p.entries ≡ some e
    → IsPool p
    → IsPool (forget e p)
forget-IsPool e p h v =
    let c = (v.holds e.source_id e h).claimed in
    subst IsPool (sym (forget-entry e p h c)) (forgotten-IsPool e p c v)
