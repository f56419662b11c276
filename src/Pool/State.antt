-- ===== src/Pool/State.antt =====
-- The pool's entries and claims, and the operations on one entry.
use pi_pilot.Base.{
  ℕ, zero, suc, ◌+◌, ◌/◌, ◌%◌, String, Bool, true, false, Option, none, some, List, [], ◌∷◌, ltb,
  ◌==◌, if◌then◌else◌, is_some, nat_key, string_key, same,
}
use pi_pilot.Base.Map
use pi_pilot.Base.Map.{Map}
use Prim.Native.String

pub record SessionSpec : Type 0 where
  pub session_id : String
  pub cwd : String
  pub session_path : Option String

-- `uid` is the identity of the entry object. Of the process it holds whether it is alive; of the
-- timer, whether it is set.
pub record PoolEntry : Type 0 where
  pub uid : ℕ
  pub source_id : String
  pub spec : SessionSpec
  pub alive : Bool
  pub restart_on_exit : Bool
  pub restart_count : ℕ
  pub restart_timer : Bool
  pub last_activity_ms : ℕ
  pub streaming : Bool
  pub closing : Bool

-- The callbacks that the pool makes, and what it does to a process; `starts_timer` has the delay.
pub data PoolCall : Type 0 where
  on_spawn on_line on_exit stop_and_wait kill_sync : String → PoolCall
  on_closing on_dead : String → String → PoolCall
  starts_timer : String → ℕ → PoolCall

-- `detached` holds the entries that only unfinished calls of `close` still refer to.
pub record Pool : Type 0 where
  pub entries : Map String PoolEntry
  pub claims : Map String String
  pub source_id_seq : ℕ
  pub next_uid : ℕ
  pub detached : List PoolEntry

abbrev pub empty_pool : Pool
empty_pool = record { entries = []; claims = []; source_id_seq = 0; next_uid = 0; detached = [] }

-- An empty text counts as absent in a condition.
abbrev pub truthy : Option String → Option String
truthy none = none
truthy (some String.[]) = none
truthy (some (String.◌∷◌ c s)) = some (String.◌∷◌ c s)

abbrev pub holder : Pool → String → Option String
holder p session_id = truthy (Map.get session_id p.claims)

abbrev pub digit : ℕ → String
digit n =
    if n == 0
    then "0"
    else if n == 1
    then "1"
    else if n == 2
    then "2"
    else if n == 3
    then "3"
    else if n == 4
    then "4"
    else if n == 5
    then "5"
    else if n == 6
    then "6"
    else if n == 7
    then "7"
    else if n == 8
    then "8"
    else "9"

-- A number in a template text; a number has no more digits than itself and one.
unfoldable pub digits : ℕ → ℕ → String
digits zero n = ""
digits (suc fuel) n =
    let front = digits fuel (n / 10) in
    if ltb n 10 then digit n else String.◌++◌ front (digit (n % 10))

unfoldable pub number_text : ℕ → String
number_text n = digits (suc n) n

-- `sourceIdForSession`
unfoldable pub source_id_for_session : String → String
source_id_for_session session_id = String.◌++◌ "s:" session_id

-- `has`
unfoldable pub has : String → Pool → Bool
has source_id p = is_some (Map.get source_id p.entries)

-- `claimExternal`
unfoldable pub claim_external : String → String → Pool → Pool
claim_external session_id source_id p = record p { claims = Map.set session_id source_id p.claims }

-- `releaseExternal`
unfoldable pub release_external : String → Pool → Pool
release_external session_id p = elim (holder p session_id) [
  | none ↦ p
  | some source_id ↦
      if has source_id p then p else record p { claims = Map.delete session_id p.claims }
]

-- `liveCount`
abbrev pub count_live : Map String PoolEntry → ℕ
count_live [] = 0
count_live ((k, e) ∷ es) = (if e.closing then 0 else 1) + count_live es

unfoldable pub live_count : Pool → ℕ
live_count p = count_live p.entries

-- `forget`: only this very entry is taken out, and only its own claim.
unfoldable pub without_entry : PoolEntry → Pool → Pool
without_entry e p = elim (Map.get e.source_id p.entries) [
  | none ↦ p
  | some f ↦ if f.uid == e.uid then record p { entries = Map.delete e.source_id p.entries } else p
]

unfoldable pub without_claim : PoolEntry → Pool → Pool
without_claim e p = elim (Map.get e.spec.session_id p.claims) [
  | none ↦ p
  | some c ↦
      if same c e.source_id then record p { claims = Map.delete e.spec.session_id p.claims } else p
]

unfoldable pub forget : PoolEntry → Pool → Pool
forget e p = without_claim e (without_entry e p)

-- The entry of a source after a change in place.
unfoldable pub change : String → (PoolEntry → PoolEntry) → Pool → Pool
change source_id f p = elim (Map.get source_id p.entries) [
  | none ↦ p
  | some e ↦ record p { entries = Map.set source_id (f e) p.entries }
]

-- `noteHealthy`
unfoldable pub note_healthy : String → Pool → Pool
note_healthy source_id p = change source_id (λ e. record e { restart_count = 0 }) p

-- `setStreaming`
unfoldable pub set_streaming : ℕ → String → Bool → Pool → Pool
set_streaming now source_id value p =
    change source_id (λ e. record e { streaming = value; last_activity_ms = now }) p

-- `touch`
unfoldable pub touch : ℕ → String → Pool → Pool
touch now source_id p = change source_id (λ e. record e { last_activity_ms = now }) p

-- `send`: the process writes the message if it is alive.
unfoldable pub send : ℕ → String → Pool → Pool × Bool
send now source_id p = elim (Map.get source_id p.entries) [
  | none ↦ (p, false)
  | some e ↦ if e.alive then (touch now source_id p, true) else (p, false)
]

pub data RebindResult : Type 0 where
  rebound unchanged conflict : RebindResult

abbrev pub release_own : PoolEntry → String → Pool → Pool
release_own e source_id p = elim (Map.get e.spec.session_id p.claims) [
  | none ↦ p
  | some c ↦
      if same c source_id then record p { claims = Map.delete e.spec.session_id p.claims } else p
]

abbrev pub moved_spec : String → Option String → PoolEntry → PoolEntry
moved_spec session_id path e = record e {
  spec = record (e.spec) { session_id = session_id; session_path = path };
}

unfoldable pub rebind_to : String → String → Option String → PoolEntry → Pool → Pool × RebindResult
rebind_to source_id session_id path e p =
    let done : Pool × RebindResult = (
      record p {
        entries = Map.set source_id (moved_spec session_id path e) p.entries;
        claims = Map.set session_id source_id p.claims;
      },
      rebound,
    ) in
    elim (holder p session_id) [
      | none ↦ done
      | some c ↦ if same c source_id then done else (p, conflict)
    ]

-- `rebind`; on a conflict the claim of the session left is gone already.
unfoldable pub rebind : String → String → Option String → Pool → Pool × RebindResult
rebind source_id session_id path p = elim (Map.get source_id p.entries) [
  | none ↦ (p, unchanged)
  | some e ↦
      if same e.spec.session_id session_id
      then (p, unchanged)
      else rebind_to source_id session_id path e (release_own e source_id p)
]
