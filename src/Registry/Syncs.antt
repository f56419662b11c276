-- ===== src/Registry/Syncs.antt =====
-- `sync` and `snapshotIsContinuous`.
use pi_pilot.Base.{
  ℕ, ◌+◌, String, Bool, false, ◌&&◌, not, Option, none, some, List, [], ◌∷◌, ltb, ◌==◌,
  if◌then◌else◌, nat_key, string_key, same, keep_if, last?,
}
use pi_pilot.Base.{ℤ, pos, negsuc}
use pi_pilot.Replay.{SourceEvent, can_replay}
use pi_pilot.Registry.State.{
  SourceSnapshot, SourceRecord, HubCursor, SourceSync, replay, from_snapshot, rpc, Registry,
  exceeds, lookup,
}

-- `seq === baseSeq + 1` and `lastSeq === baseSeq`
abbrev pub follows : ℕ → ℤ → Bool
follows seq (pos b) = seq == b + 1
follows seq (negsuc n) = n == 0 && seq == 0

abbrev pub equals : ℕ → ℤ → Bool
equals last (pos b) = last == b
equals last (negsuc n) = false

module _ {J : Type 0} where
  abbrev pub ends_at : List (SourceEvent J) → ℕ → Bool
  ends_at es last = elim (last? es) [ none ↦ false | some e ↦ e.seq == last ]

  -- The last part of `isSnapshotContinuous`: the events after the base meet it and the newest.
  abbrev pub meets : ℤ → ℕ → List (SourceEvent J) → Bool
  meets base last [] = equals last base
  meets base last (e ∷ es) = follows e.seq base && ends_at (e ∷ es) last

module _ {J T : Type 0} where
  abbrev pub after_snapshot : SourceSnapshot J → SourceRecord J T → List (SourceEvent J)
  after_snapshot s r = keep_if (λ e. exceeds e.seq s.base_seq) r.ring.events

  unfoldable pub is_continuous : SourceRecord J T → Bool
  is_continuous r = elim r.snapshot [
    | none ↦ false
    | some s ↦
        if not (same s.epoch r.descriptor.epoch)
        then false
        else meets s.base_seq r.last_seq (after_snapshot s r)
  ]

  unfoldable pub snapshot_is_continuous : String → Registry J T → Bool
  unfolding is_continuous
  snapshot_is_continuous id g = elim (lookup g id) [ none ↦ false | some r ↦ is_continuous r ]

  -- `matchingCursor`
  abbrev pub is_matching : String → String → SourceRecord J T → HubCursor → Bool
  is_matching hub_id id r c =
      same c.hub_id hub_id && same c.source_id id && same c.source_epoch r.descriptor.epoch

  unfoldable pub without_replay : SourceRecord J T → SourceSync J
  unfolding is_continuous
  without_replay r = elim r.snapshot [
    | none ↦ rpc r.last_seq
    | some s ↦ from_snapshot s (after_snapshot s r) (is_continuous r)
  ]

  unfoldable pub sync_record : String → String → Option HubCursor → SourceRecord J T → SourceSync J
  unfolding without_replay can_replay
  sync_record hub_id id none r = without_replay r
  sync_record hub_id id (some c) r =
      if is_matching hub_id id r c && can_replay r.ring r.last_seq c.seq
      then replay (keep_if (λ e. ltb c.seq e.seq) r.ring.events)
      else without_replay r

  unfoldable pub sync : String → Option HubCursor → Registry J T → Option (SourceSync J)
  unfolding sync_record
  sync id cursor g = elim (lookup g id) [
    | none ↦ none
    | some r ↦ some (sync_record g.hub_id id cursor r)
  ]
