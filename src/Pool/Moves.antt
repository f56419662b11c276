-- ===== src/Pool/Moves.antt =====
-- Opening, rebinding and evicting keep the claims right.
use pi_pilot.Base.{
  ℕ, String, ◌≡◌, refl, sym, ap, ◌∙◌, ◌≢◌, inl, inr, Bool, Option, none, some, List, [], ◌∷◌, arith,
  ltb, leb, Bool-cases, Option-cases, nat_key, string_key, same,
}
use pi_pilot.Base.Map
use pi_pilot.Base.Map.{
  Map, Distinct, Distinct-set, Distinct-delete, get-set_self, get-set_ne, get-delete_self,
  get-delete_ne,
}
use pi_pilot.Pool.State.{
  live_count, SessionSpec, PoolEntry, Pool, truthy, holder, touch, rebind, rebind_to, release_own,
  moved_spec, conflict,
}
use pi_pilot.Pool.Closing.{
  close, closed, object_in, evict_if_needed, evict_first, eviction_candidates,
}
use pi_pilot.Pool.Opening.{open_session, open_with, open_new, open_claimed, open_unclaimed}
use pi_pilot.Pool.Claims.{
  IsPool, IsPool-one, is_text, found_after_set, change-IsPool, forget-IsPool,
}
use pi_pilot.Pool.Steps.{
  start-Leaves, close-Leaves, added-IsPool, fresh_source_id-text, fresh_source_id-holder,
  fresh_source_id-IsPool, find_object, truthy-text,
}

pub touch-IsPool : (now : ℕ) (k : String) (p : Pool) → IsPool p → IsPool (touch now k p)
unfolding touch
touch-IsPool now k p v = change-IsPool k _ p (λ e. (refl, refl)) v

pub closed-IsPool : (uid : ℕ) (p : Pool) → IsPool p → IsPool (closed uid p)
unfolding closed
closed-IsPool uid p v = elim (Option-cases (object_in uid p.entries p.detached)) [
  | inl n ↦ rw (n, closed) v
  | inr (e, h) ↦
      let (k, g) =
        find_object uid e p.entries v.distinct (ap (object_in uid p.entries) (sym v.alone) ∙ h) in
      rw (h, closed) (forget-IsPool e p (ap (λ j. Map.get j p.entries) (v.holds k e g).named ∙ g) v)
]

open_new-IsPool :
    (now : ℕ) (spawns : Bool) (spec : SessionSpec) (p : Pool)
    → holder p spec.session_id ≡ none
    → IsPool p
    → IsPool (open_new now spawns spec p).0.0
unfolding open_new
open_new-IsPool now spawns spec p n v =
    (start-Leaves now spawns _ _ (
      added-IsPool now spec _ _ (fresh_source_id-text spec.session_id p)
        (fresh_source_id-holder spec.session_id spec.session_id p ∙ n)
        (fresh_source_id-IsPool spec.session_id p v))).kept

open_claimed-IsPool :
    (now : ℕ) (spawns : Bool) (k : String) (p : Pool)
    → IsPool p
    → IsPool (open_claimed now spawns k p).0.0
unfolding open_claimed
open_claimed-IsPool now spawns k p v = elim (Option-cases (Map.get k p.entries)) [
  | inl n ↦ rw (n, open_claimed) v
  | inr (e, h) ↦ elim (Bool-cases e.closing) [
    | inl c ↦ rw (h, open_claimed, c) v
    | inr c ↦ rw (h, open_claimed, c) (start-Leaves now spawns k _ (touch-IsPool now k p v)).kept
  ]
]

moved-IsPool :
    (k session_id : String) (path : Option String) (e : PoolEntry) (p : Pool)
    → Map.get k p.entries ≡ some e
    → ((j : String) (f : PoolEntry)
        → k ≢ j
        → Map.get j p.entries ≡ some f
        → session_id ≢ f.spec.session_id)
    → IsPool p
    → IsPool (record p {
      entries = Map.set k (moved_spec session_id path e) p.entries;
      claims = Map.set session_id k (Map.delete e.spec.session_id p.claims);
    })
moved-IsPool k session_id path e p h other v = record {
  distinct = Distinct-set k _ p.entries v.distinct;
  alone = v.alone;
  holds = λ j f w. elim (found_after_set k j _ f p.entries w) [
    | inl (q, r) ↦ record {
      named = ap (λ x. x.source_id) (sym r) ∙ (v.holds k e h).named ∙ q;
      claimed =
          ap (λ x. Map.get x.spec.session_id claims) (sym r)
          ∙ get-set_self session_id k (Map.delete e.spec.session_id p.claims)
          ∙ ap some q;
      text = ap is_text (sym q) ∙ (v.holds k e h).text;
    }
    | inr (n, u) ↦
        let o = v.holds j f u in
        record {
          named = o.named;
          claimed =
              get-set_ne session_id f.spec.session_id k (Map.delete e.spec.session_id p.claims)
                (other j f n u)
              ∙ get-delete_ne e.spec.session_id f.spec.session_id p.claims
                  (λ q. n (IsPool-one p k j e f v h u q))
              ∙ o.claimed;
          text = o.text;
        }
  ];
}
  where
    claims : Map String String
    claims = Map.set session_id k (Map.delete e.spec.session_id p.claims)

release_own-entry :
    (k : String) (e : PoolEntry) (p : Pool)
    → Map.get e.spec.session_id p.claims ≡ some k
    → release_own e k p ≡ record p { claims = Map.delete e.spec.session_id p.claims }
release_own-entry k e p c = rw (c, release_own) (ground arith)

-- Whoever has the session is seen as its holder.
other_holder :
    (session_id j : String) (e f : PoolEntry) (p : Pool)
    → e.spec.session_id ≢ session_id
    → Map.get j p.entries ≡ some f
    → IsPool p
    → session_id ≡ f.spec.session_id
    → truthy (Map.get session_id (Map.delete e.spec.session_id p.claims)) ≡ some j
other_holder session_id j e f p m u v q =
    let o = v.holds j f u in
    ap truthy (
      get-delete_ne e.spec.session_id session_id p.claims m
      ∙ ap (λ s. Map.get s p.claims) q
      ∙ o.claimed)
    ∙ truthy-text j o.text

rebind_to-IsPool :
    (k session_id : String) (path : Option String) (e : PoolEntry) (p : Pool)
    → Map.get k p.entries ≡ some e
    → e.spec.session_id ≢ session_id
    → IsPool p
    → (rebind_to k session_id path e
        (record p { claims = Map.delete e.spec.session_id p.claims })).1
      ≢ conflict
    → IsPool
        (rebind_to k session_id path e
          (record p { claims = Map.delete e.spec.session_id p.claims })).0
unfolding rebind_to
rebind_to-IsPool k session_id path e p h m v ok =
    let held = truthy (Map.get session_id (Map.delete e.spec.session_id p.claims)) in
    elim (Option-cases held) [
      | inl n ↦
          rw (n, rebind_to)
            (moved-IsPool k session_id path e p h
              (λ j f l u q. let g = other_holder session_id j e f p m u v q in cc) v)
      | inr (c, n) ↦ elim (Bool-cases (same c k)) [
        | inl t ↦
            rw (n, rebind_to, t)
              (moved-IsPool k session_id path e p h
                (λ j f l u q. let g = other_holder session_id j e f p m u v q in ground arith) v)
        | inr t ↦ absurd (ok (rw (n, rebind_to, t) refl))
      ]
    ]

pub rebind-IsPool :
    (k session_id : String) (path : Option String) (p : Pool)
    → IsPool p
    → (rebind k session_id path p).1 ≢ conflict
    → IsPool (rebind k session_id path p).0
unfolding rebind
rebind-IsPool k session_id path p v ok = elim (Option-cases (Map.get k p.entries)) [
  | inl n ↦ rw (n, rebind) v
  | inr (e, h) ↦ elim (Bool-cases (same e.spec.session_id session_id)) [
    | inl s ↦ rw (h, rebind, s) v
    | inr s ↦
        let own = release_own-entry k e p (v.holds k e h).claimed in
        rw (h, rebind, s, own)
          (rebind_to-IsPool k session_id path e p h (ground arith) v
            (λ c. ok (rw (h, rebind, s, own) c)))
  ]
]

close-claims : (k reason : String) (p : Pool) → (close k reason p).0.claims ≡ p.claims
unfolding close
close-claims k reason p = ground arith

evict-IsPool :
    (watchers pending_count : String → ℕ) (max_live : ℕ) (p : Pool)
    → IsPool p
    → IsPool (evict_if_needed watchers pending_count max_live p).0
unfolding evict_if_needed
evict-IsPool watchers pending_count max_live p v = elim (Bool-cases (ltb (live_count p) max_live)) [
  | inl e ↦ rw e v
  | inr e ↦ rw e (first (eviction_candidates watchers pending_count p))
]
  where
    first : (es : List PoolEntry) → IsPool (evict_first watchers pending_count es p).0
    first [] = v
    first (e ∷ es) = (close-Leaves e.source_id "evicted for a new session" p v).kept

evict-claims :
    (watchers pending_count : String → ℕ) (max_live : ℕ) (p : Pool)
    → (evict_if_needed watchers pending_count max_live p).0.claims ≡ p.claims
unfolding evict_if_needed
evict-claims watchers pending_count max_live p = elim (Bool-cases (ltb (live_count p) max_live)) [
  | inl e ↦ rw e refl
  | inr e ↦ rw e (first (eviction_candidates watchers pending_count p))
]
  where
    first : (es : List PoolEntry) → (evict_first watchers pending_count es p).0.claims ≡ p.claims
    first [] = refl
    first (e ∷ es) = close-claims e.source_id "evicted for a new session" p

pub open_session-IsPool :
    (watchers pending_count : String → ℕ) (max_live now : ℕ) (spawns : Bool) (spec : SessionSpec)
    (p : Pool)
    → IsPool p
    → IsPool (open_session watchers pending_count max_live now spawns spec p).0.0
unfolding open_session open_unclaimed open_with
open_session-IsPool watchers pending_count max_live now spawns spec p v =
    elim (Option-cases (holder p spec.session_id)) [
      | inr (k, h) ↦ rw (h, open_session) (open_claimed-IsPool now spawns k p v)
      | inl n ↦
          let w = evict-IsPool watchers pending_count max_live p v in
          let q = evict_if_needed watchers pending_count max_live p in
          elim (Bool-cases (leb max_live (live_count q.0))) [
            | inl full ↦ rw (n, open_session, open_unclaimed, open_with, full) w
            | inr room ↦
                rw (n, open_session, open_unclaimed, open_with, room)
                  (open_new-IsPool now spawns spec q.0
                    (ap (λ c. truthy (Map.get spec.session_id c))
                        (evict-claims watchers pending_count max_live p)
                      ∙ n)
                    w)
          ]
    ]
