-- ===== src/Pool/Tests.antt =====
-- The pool at concrete inputs.
use pi_pilot.Base.{
  inl, ℕ, String, ◌≡◌, refl, subst, true, false, none, some, [], ◌∷◌, String_discrete, nat_key,
  string_key,
}
use pi_pilot.Base.Map
use pi_pilot.Base.Map.{Map}
use pi_pilot.Pool.State
use pi_pilot.Pool.Opening
use pi_pilot.Pool.Closing
use pi_pilot.Pool.State.{
  SessionSpec, PoolEntry, Pool, PoolCall, empty_pool, holder, live_count, set_streaming,
}
use pi_pilot.Pool.Closing.{close, is_idle}
use pi_pilot.Pool.Opening.{open_session}
use pi_pilot.Pool.Claims.{IsPool}
use pi_pilot.Pool.Reach.{Reached, fresh, opens, streams, Reached-IsPool, one_process_per_session}
use pi_pilot.Pool.Spares.{stops, open_spares_busy}

abbrev spec_of : String → SessionSpec
spec_of s = record { session_id = s; cwd = "/work"; session_path = none }

abbrev nobody : String → ℕ
nobody k = 0

abbrev at_work : PoolEntry
at_work = record {
  uid = 0;
  source_id = "s:a";
  spec = spec_of "a";
  alive = true;
  restart_on_exit = true;
  restart_count = 0;
  restart_timer = false;
  last_activity_ms = 20;
  streaming = true;
  closing = false;
}

-- One session was opened and generates.
abbrev working : Pool
working = record {
  entries = ("s:a", at_work) ∷ [];
  claims = ("a", "s:a") ∷ [];
  source_id_seq = 0;
  next_uid = 1;
  detached = [];
}

abbrev steps : Pool
steps =
    set_streaming 20 "s:a" true (open_session nobody nobody 1 10 true (spec_of "a") empty_pool).0.0

working-steps : steps ≡ working
unfolding set_streaming State.change Map.get open_session Opening.open_unclaimed Opening.open_with
    live_count Closing.evict_if_needed Opening.open_new Closing.start Opening.added Map.set
    Opening.fresh_source_id State.has String_discrete State.source_id_for_session
working-steps = refl

steps-Reached : Reached nobody nobody 1 steps
steps-Reached = streams 20 "s:a" true (opens 10 true (spec_of "a") fresh)

working-Reached : Reached nobody nobody 1 working
working-Reached = subst (Reached nobody nobody 1) working-steps steps-Reached

working-IsPool : IsPool working
working-IsPool = Reached-IsPool nobody nobody 1 working working-Reached

abbrev a_source : String
a_source = "s:a"

one_process_per_session_example : (a_source ≡ a_source) × (holder working "a" ≡ some "s:a")
unfolding Map.get String_discrete
one_process_per_session_example =
    one_process_per_session nobody nobody 1 working "s:a" "s:a" at_work at_work working-Reached refl
      refl refl

-- The limit is reached, and the only process is at work: it stays.
open_spares_busy_example :
    stops "s:a" (open_session nobody nobody 1 30 true (spec_of "b") working).0.1 ≡ false
unfolding Map.get String_discrete
open_spares_busy_example =
    open_spares_busy nobody nobody 1 30 true (spec_of "b") working "s:a" at_work working-IsPool refl
      (inl refl)

abbrev shutting : Pool
shutting = (close "s:a" "done" working).0
