-- ===== src/Pool/Spares.antt =====
-- Opening a session stops no process that is at work or in use, and respects the limit.
use pi_pilot.Base.{
  ℕ, ◌<◌, ◌⊎◌, String, ◌≡◌, refl, ap, ◌∙◌, ◌≢◌, inl, inr, Bool, true, false, ◌||◌, some, List, [],
  ◌∷◌, ◌++◌, arith, ltb, leb, Bool-cases, Option-cases, nat_key, string_key, same,
}
use pi_pilot.Base.Map
use pi_pilot.Base.Map.{Map, Distinct}
use pi_pilot.Pool.State.{
  SessionSpec, PoolEntry, Pool, PoolCall, on_spawn, on_line, on_exit, on_closing, on_dead,
  stop_and_wait, kill_sync, starts_timer, holder, live_count,
}
use pi_pilot.Pool.Closing.{
  is_idle, insert_by_activity, sort_by_activity, idle_of, eviction_candidates, evict_if_needed,
  evict_first, close, start, exited, after_exit, restart_or_forget,
}
use pi_pilot.Pool.Opening.{open_session, open_with, open_unclaimed, open_claimed, open_new}
use pi_pilot.Pool.Claims.{IsPool}

-- A call that ends the process of a source.
abbrev pub is_stop_of : String → PoolCall → Bool
is_stop_of k (on_spawn j) = false
is_stop_of k (on_line j) = false
is_stop_of k (on_exit j) = false
is_stop_of k (stop_and_wait j) = same k j
is_stop_of k (kill_sync j) = same k j
is_stop_of k (on_closing j reason) = same k j
is_stop_of k (on_dead j reason) = false
is_stop_of k (starts_timer j delay) = false

abbrev pub stops : String → List PoolCall → Bool
stops k [] = false
stops k (c ∷ cs) = is_stop_of k c || stops k cs

stops-append :
    (k : String) (cs ds : List PoolCall)
    → stops k cs ≡ false
    → stops k ds ≡ false
    → stops k (cs ++ ds) ≡ false
stops-append k [] ds h g = g
stops-append k (c ∷ cs) ds h g = ground (arith, stops-append k cs ds)

exited-calls : (k j : String) (i : Bool) (p : Pool) → stops k (exited j i p).1 ≡ false
unfolding exited after_exit restart_or_forget
exited-calls k j i p = ground arith

start-calls :
    (k j : String) (now : ℕ) (spawns : Bool) (p : Pool) → stops k (start now spawns j p).1 ≡ false
unfolding start
start-calls k j now spawns p = ground (arith, exited-calls k j false p)

module _ (watchers pending_count : String → ℕ) (p : Pool) (v : IsPool p) where
  -- An entry of the pool that may be evicted.
  abbrev IsVictim : PoolEntry → Type 0
  IsVictim e = (is_idle watchers pending_count e ≡ true) × (Map.get e.source_id p.entries ≡ some e)

  abbrev Victims : List PoolEntry → Type 0
  Victims [] = Unit {0}
  Victims (e ∷ es) = IsVictim e × Victims es

  insert-Victims :
      (e : PoolEntry) (es : List PoolEntry)
      → IsVictim e
      → Victims es
      → Victims (insert_by_activity watchers pending_count e es)
  insert-Victims e [] h g = (h, tt)
  insert-Victims e (f ∷ fs) h g = elim (Bool-cases (leb e.last_activity_ms f.last_activity_ms)) [
    | inl q ↦ rw q (h, g)
    | inr q ↦ rw q (g.0, insert-Victims e fs h g.1)
  ]

  sort-Victims :
      (es : List PoolEntry) → Victims es → Victims (sort_by_activity watchers pending_count es)
  sort-Victims [] g = tt
  sort-Victims (e ∷ es) g = insert-Victims e _ g.0 (sort-Victims es g.1)

  idle_of-Victims :
      (m : Map String PoolEntry)
      → ((k : String) (e : PoolEntry)
          → Map.get k m ≡ some e
          → Map.get e.source_id p.entries ≡ some e)
      → Distinct m
      → Victims (idle_of watchers pending_count m)
  unfolding Map.get
  idle_of-Victims [] h d = tt
  idle_of-Victims ((k, e) ∷ m) h d =
      let here = h k e (ground arith) in
      let rest = idle_of-Victims m (λ j f g. h j f (ground (arith, d.0))) d.1 in
      elim (Bool-cases (is_idle watchers pending_count e)) [
        | inl q ↦ rw q ((q, here), rest)
        | inr q ↦ rw q rest
      ]

  candidates-Victims : Victims (eviction_candidates watchers pending_count p)
  unfolding eviction_candidates
  candidates-Victims = sort-Victims _ (
      idle_of-Victims p.entries (λ k e h. ap (λ j. Map.get j p.entries) (v.holds k e h).named ∙ h)
        v.distinct)

  module _ (k : String) (e : PoolEntry) (there : Map.get k p.entries ≡ some e)
      (busy : is_idle watchers pending_count e ≡ false) where
    victim_ne : (f : PoolEntry) → IsVictim f → k ≢ f.source_id
    victim_ne f g q = let a = ap (λ j. Map.get j p.entries) q in ground arith

    close-spares : (j reason : String) → k ≢ j → stops k (close j reason p).1 ≡ false
    unfolding close
    close-spares j reason n = ground arith

    evict-spares :
        (max_live : ℕ) → stops k (evict_if_needed watchers pending_count max_live p).1 ≡ false
    unfolding evict_if_needed
    evict-spares max_live = elim (Bool-cases (ltb (live_count p) max_live)) [
      | inl q ↦ rw q refl
      | inr q ↦ rw q (first (eviction_candidates watchers pending_count p) candidates-Victims)
    ]
      where
        first :
            (es : List PoolEntry)
            → Victims es
            → stops k (evict_first watchers pending_count es p).1 ≡ false
        first [] g = refl
        first (f ∷ fs) g = close-spares f.source_id "evicted for a new session" (victim_ne f g.0)

    spares_in_reach :
        (max_live now : ℕ) (spawns : Bool) (spec : SessionSpec)
        → stops k (open_session watchers pending_count max_live now spawns spec p).0.1 ≡ false
    unfolding open_session open_unclaimed open_with open_claimed open_new
    spares_in_reach max_live now spawns spec = elim (Option-cases (holder p spec.session_id)) [
      | inr (c, h) ↦ rw (h, open_session) (claimed c)
      | inl n ↦
          let q = evict_if_needed watchers pending_count max_live p in
          elim (Bool-cases (leb max_live (live_count q.0))) [
            | inl full ↦
                rw (n, open_session, open_unclaimed, open_with, full) (evict-spares max_live)
            | inr room ↦
                rw (n, open_session, open_unclaimed, open_with, room)
                  (stops-append k q.1 _ (evict-spares max_live) (start-calls k _ now spawns _))
          ]
    ]
      where
        claimed : (c : String) → stops k (open_claimed now spawns c p).0.1 ≡ false
        claimed c = elim (Option-cases (Map.get c p.entries)) [
          | inl n ↦ rw (n, open_claimed) refl
          | inr (f, h) ↦ elim (Bool-cases f.closing) [
            | inl q ↦ rw (h, open_claimed, q) refl
            | inr q ↦ rw (h, open_claimed, q) (start-calls k c now spawns _)
          ]
        ]

-- A process that is generating, is closing, is watched, or has requests pending.
abbrev pub IsBusy : (String → ℕ) → (String → ℕ) → PoolEntry → Type 0
IsBusy watchers pending_count e =
    (e.streaming ≡ true)
    ⊎ (e.closing ≡ true)
    ⊎ (0 < watchers e.source_id)
    ⊎ (0 < pending_count e.source_id)

busy-is_idle :
    (watchers pending_count : String → ℕ) (e : PoolEntry)
    → IsBusy watchers pending_count e
    → is_idle watchers pending_count e ≡ false
busy-is_idle watchers pending_count e b = ground (arith, b)

-- Opening a session, whatever comes of it, ends no process that is generating, is watched or has
-- requests pending, nor one that is closing already.
pub open_spares_busy :
    (watchers pending_count : String → ℕ) (max_live now : ℕ) (spawns : Bool) (spec : SessionSpec)
    (p : Pool) (k : String) (e : PoolEntry)
    → IsPool p
    → Map.get k p.entries ≡ some e
    → IsBusy watchers pending_count e
    → stops k (open_session watchers pending_count max_live now spawns spec p).0.1 ≡ false
open_spares_busy watchers pending_count max_live now spawns spec p k e v h busy =
    spares_in_reach watchers pending_count p v k e h (busy-is_idle watchers pending_count e busy)
      max_live now spawns spec
