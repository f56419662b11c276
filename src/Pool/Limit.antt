-- ===== src/Pool/Limit.antt =====
-- Opening a session keeps the limit on live processes.
use pi_pilot.Base.{
  ℕ, ◌+◌, ◌≤◌, max, String, ◌≡◌, refl, ap, inl, inr, Bool, false, ◌||◌, not, List, [], ◌∷◌, arith,
  ltb, leb, if◌then◌else◌, Bool-cases, Option-cases, nat_key, string_key,
}
use pi_pilot.Base.Map
use pi_pilot.Base.Map.{Map, Distinct, Distinct-set, total, weight, total-set, total-delete}
use pi_pilot.Pool.State.{
  SessionSpec, PoolEntry, Pool, holder, live_count, count_live, change, forget, without_entry,
  without_claim, touch,
}
use pi_pilot.Pool.Closing.{
  closing_down, evict_if_needed, evict_first, eviction_candidates, close, start, exited, after_exit,
  restart_or_forget, max_restarts,
}
use pi_pilot.Pool.Opening.{
  new_entry, open_session, open_with, open_unclaimed, open_claimed, open_new, added,
  fresh_source_id,
}

abbrev live_weight : PoolEntry → ℕ
live_weight e = if e.closing then 0 else 1

count_live-total : (m : Map String PoolEntry) → count_live m ≡ total live_weight m
unfolding total
count_live-total [] = refl
count_live-total ((k, e) ∷ m) = ap (λ n. live_weight e + n) (count_live-total m)

count_live-set :
    (k : String) (e : PoolEntry) (m : Map String PoolEntry)
    → count_live (Map.set k e m) + weight live_weight (Map.get k m) ≡ count_live m + live_weight e
count_live-set k e m =
    rw (count_live-total (Map.set k e m), count_live-total m) (total-set live_weight k e m)

same_sum : (a b w x y : ℕ) → a + w ≡ b + x → w ≡ y → x ≡ y → a ≡ b
same_sum a b w x y s u v = omega arith

le_of_eq : (a b : ℕ) → a ≡ b → a ≤ b
le_of_eq a b e = omega arith

change-live_count :
    (k : String) (g : PoolEntry → PoolEntry) (p : Pool)
    → ((e : PoolEntry) → (g e).closing ≡ e.closing)
    → live_count (change k g p) ≡ live_count p
unfolding change live_count
change-live_count k g p keeps = elim (Option-cases (Map.get k p.entries)) [
  | inl n ↦ rw (n, change) refl
  | inr (e, h) ↦
      let s = count_live-set k (g e) p.entries in
      let w : weight live_weight (Map.get k p.entries) ≡ live_weight e =
        ap (weight live_weight) h in
      let c : live_weight (g e) ≡ live_weight e = ap (λ b. if b then 0 else 1) (keeps e) in
      rw (h, change) (same_sum _ _ _ _ _ s w c)
]

delete-live_count :
    (k : String) (m : Map String PoolEntry) → count_live (Map.delete k m) ≤ count_live m
unfolding Map.delete
delete-live_count k [] = omega arith
delete-live_count k ((j, e) ∷ m) = ground (arith, delete-live_count k m)

forget-live_count : (e : PoolEntry) (p : Pool) → live_count (forget e p) ≤ live_count p
unfolding forget live_count without_entry without_claim
forget-live_count e p = ground (arith, delete-live_count e.source_id p.entries)

restart-live_count :
    (e : PoolEntry) (p : Pool) → live_count (restart_or_forget e p).0 ≤ live_count p
unfolding restart_or_forget
restart-live_count e p = elim (Bool-cases (leb max_restarts e.restart_count)) [
  | inl q ↦ rw (q, restart_or_forget) (forget-live_count e p)
  | inr q ↦ rw (q, restart_or_forget) (le_of_eq _ _ (change-live_count e.source_id _ p (λ f. refl)))
]

le_trans : (a b c : ℕ) → a ≤ b → b ≤ c → a ≤ c
le_trans a b c h g = omega arith

after_exit-live_count :
    (k : String) (i : Bool) (q : Pool) → live_count (after_exit k i q).0 ≤ live_count q
unfolding after_exit
after_exit-live_count k i q = elim (Option-cases (Map.get k q.entries)) [
  | inl n ↦ rw (n, after_exit) (omega arith)
  | inr (e, h) ↦ elim (Bool-cases (e.closing || not e.restart_on_exit || i)) [
    | inl b ↦ rw (h, after_exit, b) (omega arith)
    | inr b ↦ rw (h, after_exit, b) (restart-live_count e q)
  ]
]

exited-live_count : (k : String) (i : Bool) (p : Pool) → live_count (exited k i p).0 ≤ live_count p
unfolding exited
exited-live_count k i p =
    le_trans _ _ _ (after_exit-live_count k i _)
      (le_of_eq _ _ (change-live_count k _ p (λ f. refl)))

start-live_count :
    (now : ℕ) (spawns : Bool) (k : String) (p : Pool)
    → live_count (start now spawns k p).0 ≤ live_count p
unfolding start
start-live_count now spawns k p = elim (Option-cases (Map.get k p.entries)) [
  | inl n ↦ rw (n, start) (omega arith)
  | inr (e, h) ↦ elim (Bool-cases e.alive) [
    | inl a ↦ rw (h, start, a) (omega arith)
    | inr a ↦ elim (Bool-cases spawns) [
      | inl s ↦ rw (h, start, a, s) (le_of_eq _ _ (change-live_count k _ p (λ f. refl)))
      | inr s ↦ rw (h, start, a, s) (exited-live_count k false p)
    ]
  ]
]

close-live_count : (k reason : String) (p : Pool) → live_count (close k reason p).0 ≤ live_count p
unfolding close live_count
close-live_count k reason p = elim (Option-cases (Map.get k p.entries)) [
  | inl n ↦ rw (n, close) (omega arith)
  | inr (e, h) ↦ elim (Bool-cases e.closing) [
    | inl c ↦ rw (h, close, c) (omega arith)
    | inr c ↦ let s = count_live-set k (closing_down e) p.entries in rw (h, close, c) (omega arith)
  ]
]

evict-live_count :
    (watchers pending_count : String → ℕ) (max_live : ℕ) (p : Pool)
    → live_count (evict_if_needed watchers pending_count max_live p).0 ≤ live_count p
unfolding evict_if_needed
evict-live_count watchers pending_count max_live p =
    elim (Bool-cases (ltb (live_count p) max_live)) [
      | inl e ↦ rw e (omega arith)
      | inr e ↦ rw e (first (eviction_candidates watchers pending_count p))
    ]
  where
    first :
        (es : List PoolEntry)
        → live_count (evict_first watchers pending_count es p).0 ≤ live_count p
    first [] = omega arith
    first (e ∷ es) = close-live_count e.source_id "evicted for a new session" p

added-live_count :
    (now : ℕ) (spec : SessionSpec) (k : String) (p : Pool)
    → live_count (added now spec k p) ≤ live_count p + 1
unfolding added live_count
added-live_count now spec k p =
    let s = count_live-set k (new_entry now p.next_uid k spec) p.entries in omega arith

fresh-live_count :
    (session_id : String) (p : Pool) → live_count (fresh_source_id session_id p).0 ≡ live_count p
unfolding fresh_source_id live_count
fresh-live_count session_id p = ground arith

open_new-live_count :
    (now : ℕ) (spawns : Bool) (spec : SessionSpec) (p : Pool)
    → live_count (open_new now spawns spec p).0.0 ≤ live_count p + 1
unfolding open_new
open_new-live_count now spawns spec p =
    let (q, k) = fresh_source_id spec.session_id p in
    let a = start-live_count now spawns k (added now spec k q) in
    let b = added-live_count now spec k q in
    let c = fresh-live_count spec.session_id p in omega arith

open_claimed-live_count :
    (now : ℕ) (spawns : Bool) (k : String) (p : Pool)
    → live_count (open_claimed now spawns k p).0.0 ≤ live_count p
unfolding open_claimed touch
open_claimed-live_count now spawns k p = elim (Option-cases (Map.get k p.entries)) [
  | inl n ↦ rw (n, open_claimed) (omega arith)
  | inr (e, h) ↦ elim (Bool-cases e.closing) [
    | inl c ↦ rw (h, open_claimed, c) (omega arith)
    | inr c ↦
        rw (h, open_claimed, c)
          (le_trans _ _ _ (start-live_count now spawns k (touch now k p))
            (le_of_eq _ _ (change-live_count k _ p (λ f. refl))))
  ]
]

-- Opening a session does not take the number of live processes over the limit: afterwards there are
-- no more than the limit, or no more than before.
pub open_within_limit :
    (watchers pending_count : String → ℕ) (max_live now : ℕ) (spawns : Bool) (spec : SessionSpec)
    (p : Pool)
    → live_count (open_session watchers pending_count max_live now spawns spec p).0.0
      ≤ max max_live (live_count p)
unfolding open_session open_unclaimed open_with
open_within_limit watchers pending_count max_live now spawns spec p =
    elim (Option-cases (holder p spec.session_id)) [
      | inr (k, h) ↦
          let c = open_claimed-live_count now spawns k p in rw (h, open_session) (omega arith)
      | inl n ↦
          let q = evict_if_needed watchers pending_count max_live p in
          let e = evict-live_count watchers pending_count max_live p in
          elim (Bool-cases (leb max_live (live_count q.0))) [
            | inl full ↦ rw (n, open_session, open_unclaimed, open_with, full) (omega arith)
            | inr room ↦
                let o = open_new-live_count now spawns spec q.0 in
                rw (n, open_session, open_unclaimed, open_with, room) (ground arith)
          ]
    ]
