-- ===== src/Pool/Closing.antt =====
-- A process that exits, is restarted or is closed, and the entries that may be closed.
use pi_pilot.Base.{
  ℕ, ◌+◌, ◌*◌, ◌^◌, min, String, Bool, true, false, ◌&&◌, ◌||◌, not, Option, none, some, List, [],
  ◌∷◌, ltb, leb, ◌==◌, if◌then◌else◌, nat_key, string_key,
}
use pi_pilot.Base.Map
use pi_pilot.Base.Map.{Map}
use pi_pilot.Pool.State.{
  live_count, PoolEntry, Pool, PoolCall, on_spawn, on_line, on_exit, on_closing, on_dead,
  stop_and_wait, starts_timer, forget, change, touch,
}

abbrev pub max_restarts : ℕ
max_restarts = 5

-- Math.min(30_000, 1500 * 2 ** restartCount)
abbrev pub restart_delay : ℕ → ℕ
restart_delay count = min 30000 (1500 * 2 ^ count)

-- After the callback of an exit that was not wanted.
unfoldable pub restart_or_forget : PoolEntry → Pool → Pool × List PoolCall
restart_or_forget e p =
    if leb max_restarts e.restart_count
    then (forget e p, on_dead e.source_id "pi process kept crashing" ∷ [])
    else (
      change e.source_id
          (λ f. record f { restart_count = f.restart_count + 1; restart_timer = true }) p,
      starts_timer e.source_id (restart_delay e.restart_count) ∷ [],
    )

-- Once the entry is marked.
unfoldable pub after_exit : String → Bool → Pool → Pool × List PoolCall
after_exit source_id intentional q = elim (Map.get source_id q.entries) [
  | none ↦ (q, [])
  | some e ↦
      if e.closing || not e.restart_on_exit || intentional
      then (q, on_exit source_id ∷ [])
      else ((restart_or_forget e q).0, on_exit source_id ∷ (restart_or_forget e q).1)
]

-- What follows is of the entry that the pool has under the source id.
-- `proc.onExit`; `intentional` is `proc.isIntentionalStop`.
unfoldable pub exited : String → Bool → Pool → Pool × List PoolCall
exited source_id intentional p =
    after_exit source_id intentional
      (change source_id (λ e. record e { streaming = false; alive = false }) p)

-- `proc.start` with `proc.onSpawn`; `spawns` tells whether the system could start the process.
unfoldable pub start : ℕ → Bool → String → Pool → Pool × List PoolCall
start now spawns source_id p = elim (Map.get source_id p.entries) [
  | none ↦ (p, [])
  | some e ↦
      if e.alive
      then (p, [])
      else if spawns
      then (
        change source_id (λ f. record f { alive = true; last_activity_ms = now }) p,
        on_spawn source_id ∷ [],
      )
      else exited source_id false p
]

-- The timer of a restart goes off.
unfoldable pub restarted : ℕ → Bool → String → Pool → Pool × List PoolCall
restarted now spawns source_id q = elim (Map.get source_id q.entries) [
  | none ↦ (q, [])
  | some e ↦ if e.closing then (q, []) else start now spawns source_id q
]

unfoldable pub timer_fires : ℕ → Bool → String → Pool → Pool × List PoolCall
timer_fires now spawns source_id p =
    restarted now spawns source_id (change source_id (λ e. record e { restart_timer = false }) p)

-- `proc.onLine`
unfoldable pub line_read : ℕ → String → Pool → Pool × List PoolCall
line_read now source_id p = (touch now source_id p, on_line source_id ∷ [])

abbrev pub closing_down : PoolEntry → PoolEntry
closing_down e = record e { closing = true; restart_on_exit = false; restart_timer = false }

-- `close` until it waits for the process.
unfoldable pub close : String → String → Pool → Pool × List PoolCall
close source_id reason p = elim (Map.get source_id p.entries) [
  | none ↦ (p, [])
  | some e ↦ if e.closing then (p, []) else (
    record p { entries = Map.set source_id (closing_down e) p.entries },
    on_closing source_id reason ∷ stop_and_wait source_id ∷ [],
  )
]

-- The entry object of a call of `close` that waits.
abbrev pub object_in : ℕ → Map String PoolEntry → List PoolEntry → Option PoolEntry
object_in uid [] [] = none
object_in uid [] (e ∷ es) = if e.uid == uid then some e else object_in uid [] es
object_in uid ((k, e) ∷ m) es =
    let rest = object_in uid m es in if e.uid == uid then some e else rest

-- `close` from where the process is gone.
unfoldable pub closed : ℕ → Pool → Pool
closed uid p = elim (object_in uid p.entries p.detached) [ none ↦ p | some e ↦ forget e p ]

-- `evictionCandidates`: `Array.sort` is stable.
module _ (watchers pending_count : String → ℕ) where
  abbrev pub is_idle : PoolEntry → Bool
  is_idle e =
      not e.streaming
      && not e.closing
      && watchers e.source_id == 0
      && pending_count e.source_id == 0

  abbrev pub insert_by_activity : PoolEntry → List PoolEntry → List PoolEntry
  insert_by_activity e [] = e ∷ []
  insert_by_activity e (f ∷ fs) =
      let rest = insert_by_activity e fs in
      if leb e.last_activity_ms f.last_activity_ms then e ∷ f ∷ fs else f ∷ rest

  abbrev pub sort_by_activity : List PoolEntry → List PoolEntry
  sort_by_activity [] = []
  sort_by_activity (e ∷ es) = insert_by_activity e (sort_by_activity es)

  abbrev pub idle_of : Map String PoolEntry → List PoolEntry
  idle_of [] = []
  idle_of ((k, e) ∷ m) = let rest = idle_of m in if is_idle e then e ∷ rest else rest

  unfoldable pub eviction_candidates : Pool → List PoolEntry
  eviction_candidates p = sort_by_activity (idle_of p.entries)

  -- `idleCandidates`; a difference below 0 is no more than the time to live.
  abbrev pub past_ttl : ℕ → ℕ → List PoolEntry → List String
  past_ttl now ttl [] = []
  past_ttl now ttl (e ∷ es) =
      let rest = past_ttl now ttl es in
      if ltb (e.last_activity_ms + ttl) now then e.source_id ∷ rest else rest

  unfoldable pub idle_candidates : ℕ → ℕ → Pool → List String
  idle_candidates now ttl p = past_ttl now ttl (eviction_candidates p)

  -- `evictIfNeeded`
  abbrev pub evict_first : List PoolEntry → Pool → Pool × List PoolCall
  evict_first [] p = (p, [])
  evict_first (e ∷ es) p = close e.source_id "evicted for a new session" p

  unfoldable pub evict_if_needed : ℕ → Pool → Pool × List PoolCall
  evict_if_needed max_live p =
      if ltb (live_count p) max_live then (p, []) else evict_first (eviction_candidates p) p
