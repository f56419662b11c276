-- ===== src/Replay.antt =====
-- bridge/src/source_registry.ts: the replay ring of one source, that is `events`, `sizes` and
-- `bytes` of `SourceRecord` with the private methods that change them.
pub mod Runs
pub mod Trim
use pi_pilot.Base.{
  ℕ, ◌+◌, ◌-◌, ◌*◌, String, Bool, true, false, ◌&&◌, ◌||◌, Option, none, some, List, [], ◌∷◌, ◌++◌,
  leb, ltb, ◌==◌, if◌then◌else◌, length, sum, keep_if,
}

-- `J` is the type of JSON objects.
pub record SourceEvent (J : Type 0) : Type 0 where
  pub source_id : String
  pub source_epoch : String
  pub seq : ℕ
  pub payload : J

pub record Ring (J : Type 0) : Type 0 where
  pub events : List (SourceEvent J)
  pub sizes : List ℕ
  pub bytes : ℕ

pub record Limits : Type 0 where
  pub replay_capacity : ℕ
  pub replay_byte_budget : ℕ

abbrev pub default_limits : Limits
default_limits = record { replay_capacity = 1024; replay_byte_budget = 16 * 1024 * 1024 }

-- `sizes.shift() ?? 0` and what it leaves
abbrev pub head_size : List ℕ → ℕ
head_size [] = 0
head_size (n ∷ ns) = n

abbrev pub tail_sizes : List ℕ → List ℕ
tail_sizes [] = []
tail_sizes (n ∷ ns) = ns

module _ {J : Type 0} where
  -- `clearEvents`
  abbrev pub cleared : Ring J
  cleared = record { events = []; sizes = []; bytes = 0 }

  -- The sizes that the loop of `filterEvents` keeps; one that is missing counts 0.
  abbrev pub kept_sizes : (SourceEvent J → Bool) → List (SourceEvent J) → List ℕ → List ℕ
  kept_sizes keep [] sizes = []
  kept_sizes keep (e ∷ es) sizes =
      let rest = kept_sizes keep es (tail_sizes sizes) in
      if keep e then head_size sizes ∷ rest else rest

  unfoldable pub filter_events : (SourceEvent J → Bool) → Ring J → Ring J
  filter_events keep r =
      let sizes = kept_sizes keep r.events r.sizes in
      record { events = keep_if keep r.events; sizes = sizes; bytes = sum sizes }

  abbrev pub over_limit : Limits → List (SourceEvent J) → ℕ → Bool
  over_limit lim es bytes =
      ltb lim.replay_capacity (length es) || (ltb lim.replay_byte_budget bytes && ltb 1 (length es))

  -- The `while` of `pushEvent`: it drops the oldest event in each round, so it ends with the list.
  unfoldable pub trim : Limits → List (SourceEvent J) → List ℕ → ℕ → Ring J
  trim lim [] sizes bytes = record { events = []; sizes = sizes; bytes = bytes }
  trim lim (e ∷ es) sizes bytes =
      let rest = trim lim es (tail_sizes sizes) (bytes - head_size sizes) in
      if over_limit lim (e ∷ es) bytes
      then rest
      else record { events = e ∷ es; sizes = sizes; bytes = bytes }

  -- `pushEvent`; `size` is the length of the payload's JSON text.
  unfoldable pub push : Limits → SourceEvent J → ℕ → Ring J → Ring J
  unfolding trim
  push lim event size r = trim lim (r.events ++ event ∷ []) (r.sizes ++ size ∷ []) (r.bytes + size)

  -- The rest of `canReplay`, once the cursor is known not to lie in the future. `first - 1` is a
  -- number that may be below 0 in the source: `afterSeq >= first - 1` is `afterSeq + 1 >= first`.
  abbrev pub covers : List (SourceEvent J) → ℕ → ℕ → Bool
  covers [] last_seq after_seq = after_seq == last_seq
  covers (e ∷ es) last_seq after_seq = leb e.seq (after_seq + 1)

  unfoldable pub can_replay : Ring J → ℕ → ℕ → Bool
  can_replay r last_seq after_seq =
      if ltb last_seq after_seq then false else covers r.events last_seq after_seq
