-- ===== src/Pool/Reach.antt =====
-- The pools that are reached by the operations, in any order.
use pi_pilot.Base.{
  ℕ, String, ◌≡◌, refl, sym, ap, ◌∙◌, ◌≢◌, inl, inr, Bool, true, false, Option, none, some, arith,
  Option-cases, nat_key, string_key,
}
use pi_pilot.Base.Map
use pi_pilot.Base.Map.{Map, get-set_self, get-set_ne, get-delete_self, get-delete_ne}
use pi_pilot.Pool.State.{
  SessionSpec, PoolEntry, Pool, empty_pool, truthy, holder, claim_external, release_external,
  note_healthy, set_streaming, touch, rebind, conflict, has,
}
use pi_pilot.Pool.Closing.{exited, timer_fires, close, closed}
use pi_pilot.Pool.Opening.{open_session}
use pi_pilot.Pool.Claims.{IsPool, IsPool-one, change-IsPool}
use pi_pilot.Pool.Steps.{exited-Leaves, timer_fires-Leaves, close-Leaves, truthy-text}
use pi_pilot.Pool.Moves.{touch-IsPool, closed-IsPool, rebind-IsPool, open_session-IsPool}

-- A session that no process of the pool has.
abbrev pub IsFree : String → Pool → Type 0
IsFree session_id p =
    (k : String) (e : PoolEntry) → Map.get k p.entries ≡ some e → e.spec.session_id ≢ session_id

-- What may happen to a pool before it is shut down. An outside claim is made for a session that no
-- process of the pool has, as the hub sees to, and a rebind to a session that another holds is
-- the conflict that it reports.
pub data Reached (watchers pending_count : String → ℕ) (max_live : ℕ) : Pool → Type 0 where
  fresh : Reached watchers pending_count max_live empty_pool
  opens :
      {p : Pool} (now : ℕ) (spawns : Bool) (spec : SessionSpec)
      → Reached watchers pending_count max_live p
      → Reached watchers pending_count max_live
          (open_session watchers pending_count max_live now spawns spec p).0.0
  closes :
      {p : Pool} (k reason : String)
      → Reached watchers pending_count max_live p
      → Reached watchers pending_count max_live (close k reason p).0
  finishes :
      {p : Pool} (uid : ℕ)
      → Reached watchers pending_count max_live p
      → Reached watchers pending_count max_live (closed uid p)
  exits :
      {p : Pool} (k : String) (intentional : Bool)
      → Reached watchers pending_count max_live p
      → Reached watchers pending_count max_live (exited k intentional p).0
  restarts :
      {p : Pool} (now : ℕ) (spawns : Bool) (k : String)
      → Reached watchers pending_count max_live p
      → Reached watchers pending_count max_live (timer_fires now spawns k p).0
  rebinds :
      {p : Pool} (k session_id : String) (path : Option String)
      → Reached watchers pending_count max_live p
      → (rebind k session_id path p).1 ≢ conflict
      → Reached watchers pending_count max_live (rebind k session_id path p).0
  claims_outside :
      {p : Pool} (session_id k : String)
      → Reached watchers pending_count max_live p
      → IsFree session_id p
      → Reached watchers pending_count max_live (claim_external session_id k p)
  releases_outside :
      {p : Pool} (session_id : String)
      → Reached watchers pending_count max_live p
      → Reached watchers pending_count max_live (release_external session_id p)
  streams :
      {p : Pool} (now : ℕ) (k : String) (value : Bool)
      → Reached watchers pending_count max_live p
      → Reached watchers pending_count max_live (set_streaming now k value p)
  recovers :
      {p : Pool} (k : String)
      → Reached watchers pending_count max_live p
      → Reached watchers pending_count max_live (note_healthy k p)
  touches :
      {p : Pool} (now : ℕ) (k : String)
      → Reached watchers pending_count max_live p
      → Reached watchers pending_count max_live (touch now k p)

-- A change of the claims that the entries do not see.
claims-IsPool :
    (p : Pool) (claims : Map String String)
    → ((k : String) (e : PoolEntry)
        → Map.get k p.entries ≡ some e
        → Map.get e.spec.session_id claims ≡ Map.get e.spec.session_id p.claims)
    → IsPool p
    → IsPool (record p { claims = claims })
claims-IsPool p claims agree v = record {
  distinct = v.distinct;
  alone = v.alone;
  holds = λ k e h. record {
    named = (v.holds k e h).named;
    claimed = agree k e h ∙ (v.holds k e h).claimed;
    text = (v.holds k e h).text;
  };
}

claim_external-IsPool :
    (session_id k : String) (p : Pool)
    → IsFree session_id p
    → IsPool p
    → IsPool (claim_external session_id k p)
unfolding claim_external
claim_external-IsPool session_id k p free v =
    claims-IsPool p _
      (λ j e h. get-set_ne session_id e.spec.session_id k p.claims (λ q. free j e h (sym q))) v

-- The holder is no entry, so that the session is no entry's.
held_ne :
    (session_id c j : String) (e : PoolEntry) (p : Pool)
    → IsPool p
    → holder p session_id ≡ some c
    → Map.get c p.entries ≡ none
    → Map.get j p.entries ≡ some e
    → session_id ≢ e.spec.session_id
held_ne session_id c j e p v h n u q =
    let o = v.holds j e u in
    let a = ap (λ s. holder p s) q ∙ ap truthy o.claimed ∙ truthy-text j o.text in
    let same_key : c ≡ j = ground arith in let b = ap (λ k. Map.get k p.entries) same_key in cc

release_external-IsPool :
    (session_id : String) (p : Pool) → IsPool p → IsPool (release_external session_id p)
unfolding release_external has
release_external-IsPool session_id p v = elim (Option-cases (holder p session_id)) [
  | inl n ↦ rw (n, release_external) v
  | inr (c, h) ↦ elim (Option-cases (Map.get c p.entries)) [
    | inl none_there ↦
        let out : has c p ≡ false = rw none_there refl in
        rw (h, release_external, out)
          (claims-IsPool p _
            (λ j e u.
              get-delete_ne session_id e.spec.session_id p.claims
                (held_ne session_id c j e p v h none_there u))
            v)
    | inr (e, u) ↦ let there : has c p ≡ true = rw u refl in rw (h, release_external, there) v
  ]
]

pub Reached-IsPool :
    (watchers pending_count : String → ℕ) (max_live : ℕ) (p : Pool)
    → Reached watchers pending_count max_live p
    → IsPool p
unfolding Map.get note_healthy set_streaming
Reached-IsPool w c m _ fresh = record { distinct = tt; alone = refl; holds = λ k e h. cc }
Reached-IsPool w c m _ (opens {p} now spawns spec r) =
    open_session-IsPool w c m now spawns spec p (Reached-IsPool w c m p r)
Reached-IsPool w c m _ (closes {p} k reason r) =
    (close-Leaves k reason p (Reached-IsPool w c m p r)).kept
Reached-IsPool w c m _ (finishes {p} uid r) = closed-IsPool uid p (Reached-IsPool w c m p r)
Reached-IsPool w c m _ (exits {p} k i r) = (exited-Leaves k i p (Reached-IsPool w c m p r)).kept
Reached-IsPool w c m _ (restarts {p} now s k r) =
    (timer_fires-Leaves now s k p (Reached-IsPool w c m p r)).kept
Reached-IsPool w c m _ (rebinds {p} k s path r ok) =
    rebind-IsPool k s path p (Reached-IsPool w c m p r) ok
Reached-IsPool w c m _ (claims_outside {p} s k r free) =
    claim_external-IsPool s k p free (Reached-IsPool w c m p r)
Reached-IsPool w c m _ (releases_outside {p} s r) =
    release_external-IsPool s p (Reached-IsPool w c m p r)
Reached-IsPool w c m _ (streams {p} now k value r) =
    change-IsPool k _ p (λ e. (refl, refl)) (Reached-IsPool w c m p r)
Reached-IsPool w c m _ (recovers {p} k r) =
    change-IsPool k _ p (λ e. (refl, refl)) (Reached-IsPool w c m p r)
Reached-IsPool w c m _ (touches {p} now k r) = touch-IsPool now k p (Reached-IsPool w c m p r)

-- In every pool that the operations reach before it is shut down, where outside claims are made only
-- for sessions that no process of the pool has and no rebind ends in a conflict, a session is that of
-- one process: two entries with the same session are the same entry, closing ones included, and the
-- claim of the session names it, so that `open` finds it.
pub one_process_per_session :
    (watchers pending_count : String → ℕ) (max_live : ℕ) (p : Pool) (i j : String) (e f : PoolEntry)
    → Reached watchers pending_count max_live p
    → Map.get i p.entries ≡ some e
    → Map.get j p.entries ≡ some f
    → e.spec.session_id ≡ f.spec.session_id
    → (i ≡ j) × (holder p e.spec.session_id ≡ some i)
one_process_per_session w c m p i j e f r a b s =
    let v = Reached-IsPool w c m p r in
    let o = v.holds i e a in
    (IsPool-one p i j e f v a b s, ap truthy o.claimed ∙ truthy-text i o.text)
