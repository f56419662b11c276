-- ===== src/Pool/Opening.antt =====
-- `open`, and the ends of the whole pool.
use pi_pilot.Base.{
  ℕ, suc, String, Bool, true, false, none, some, List, [], ◌∷◌, ◌++◌, leb, if◌then◌else◌, nat_key,
  string_key,
}
use pi_pilot.Base.Map
use pi_pilot.Base.Map.{Map}
use Prim.Native.String
use pi_pilot.Pool.State.{
  SessionSpec, PoolEntry, Pool, PoolCall, stop_and_wait, kill_sync, has, holder, live_count, touch,
  source_id_for_session, number_text,
}
use pi_pilot.Pool.Closing.{start, closing_down, evict_if_needed}

pub data OpenError : Type 0 where
  open_elsewhere shutting_down too_many_sessions : OpenError

pub data OpenResult : Type 0 where
  opened : String → OpenResult
  failed : OpenError → OpenResult

-- The session is claimed.
unfoldable pub open_claimed : ℕ → Bool → String → Pool → (Pool × List PoolCall) × OpenResult
open_claimed now spawns claimed p = elim (Map.get claimed p.entries) [
  | none ↦ ((p, []), failed open_elsewhere)
  | some e ↦
      if e.closing
      then ((p, []), failed shutting_down)
      else (start now spawns claimed (touch now claimed p), opened claimed)
]

-- The source id of a new process: one of its own if the usual one is taken.
unfoldable pub fresh_source_id : String → Pool → Pool × String
fresh_source_id session_id p =
    let usual = source_id_for_session session_id in
    if has usual p
    then (
      record p { source_id_seq = suc p.source_id_seq },
      String.◌++◌ usual (String.◌++◌ "#" (number_text (suc p.source_id_seq))),
    )
    else (p, usual)

abbrev pub new_entry : ℕ → ℕ → String → SessionSpec → PoolEntry
new_entry now uid source_id spec = record {
  uid = uid;
  source_id = source_id;
  spec = spec;
  alive = false;
  restart_on_exit = true;
  restart_count = 0;
  restart_timer = false;
  last_activity_ms = now;
  streaming = false;
  closing = false;
}

-- The entry and its claim before the process is started.
unfoldable pub added : ℕ → SessionSpec → String → Pool → Pool
added now spec source_id p = record p {
  entries = Map.set source_id (new_entry now p.next_uid source_id spec) p.entries;
  claims = Map.set spec.session_id source_id p.claims;
  next_uid = suc p.next_uid;
}

unfoldable pub open_new : ℕ → Bool → SessionSpec → Pool → (Pool × List PoolCall) × OpenResult
open_new now spawns spec p =
    let (q, source_id) = fresh_source_id spec.session_id p in
    (start now spawns source_id (added now spec source_id q), opened source_id)

-- With room for one more.
abbrev pub after_calls :
    List PoolCall → (Pool × List PoolCall) × OpenResult → (Pool × List PoolCall) × OpenResult
after_calls calls ((r, more), result) = ((r, calls ++ more), result)

module _ (watchers pending_count : String → ℕ) (max_live : ℕ) where
  unfoldable pub open_with :
      ℕ → Bool → SessionSpec → Pool × List PoolCall → (Pool × List PoolCall) × OpenResult
  open_with now spawns spec (q, calls) =
      if leb max_live (live_count q)
      then ((q, calls), failed too_many_sessions)
      else after_calls calls (open_new now spawns spec q)

  -- No process of the session: one may be evicted, and there has to be room.
  unfoldable pub open_unclaimed :
      ℕ → Bool → SessionSpec → Pool → (Pool × List PoolCall) × OpenResult
  open_unclaimed now spawns spec p =
      open_with now spawns spec (evict_if_needed watchers pending_count max_live p)

  unfoldable pub open_session : ℕ → Bool → SessionSpec → Pool → (Pool × List PoolCall) × OpenResult
  open_session now spawns spec p = elim (holder p spec.session_id) [
    | some claimed ↦ open_claimed now spawns claimed p
    | none ↦ open_unclaimed now spawns spec p
  ]

-- `shutdownAll`
abbrev pub down_all : Map String PoolEntry → List PoolEntry
down_all [] = []
down_all ((k, e) ∷ m) = closing_down e ∷ down_all m

abbrev pub stop_all : Map String PoolEntry → List PoolCall
stop_all [] = []
stop_all ((k, e) ∷ m) = stop_and_wait e.source_id ∷ stop_all m

unfoldable pub shutdown_all : Pool → Pool × List PoolCall
shutdown_all p = (
  record p { entries = []; claims = []; detached = down_all p.entries ++ p.detached },
  stop_all p.entries,
)

-- `killAllSync`
abbrev pub kill_all : Map String PoolEntry → List PoolCall
kill_all [] = []
kill_all ((k, e) ∷ m) = kill_sync e.source_id ∷ kill_all m

unfoldable pub kill_all_sync : Pool → Pool × List PoolCall
kill_all_sync p =
    (record p { entries = []; detached = down_all p.entries ++ p.detached }, kill_all p.entries)
