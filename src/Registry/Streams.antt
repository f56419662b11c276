-- ===== src/Registry/Streams.antt =====
-- `setSnapshot`, `recordLocalEvent` and `recordDesktopEvent`.
use pi_pilot.Base.{
  ℕ, suc, ◌+◌, max, String, Bool, true, false, ◌||◌, not, Option, none, some, leb, ◌==◌,
  if◌then◌else◌, nat_key, string_key, same,
}
use pi_pilot.Base.{ℤ, pos, negsuc}
use pi_pilot.Replay.{SourceEvent, Limits, filter_events, push}
use pi_pilot.Replay.Trim.{after_base}
use pi_pilot.Registry.State.{
  SourceDescriptor, SourceSnapshot, SourceRecord, MetadataPatch, Registry, RecordEventResult,
  recorded, rejected, missing, stale_epoch, sequence_gap, max_safe_integer, lookup, put_record,
}
use pi_pilot.Registry.Metadata.{restarted, with_patch}

-- What the registry asks of JSON objects, which it does not look into otherwise: the length of the
-- text, and a field where that is a string.
pub record JsonAccess (J : Type 0) : Type 0 where
  pub text_length : J → ℕ
  pub string_field : String → J → Option String

module _ {J T : Type 0} where
  -- What a snapshot with the base `b` makes of the stream of its source.
  abbrev pub rebased : SourceSnapshot J → ℕ → SourceRecord J T → SourceRecord J T
  rebased s b r = record r {
    snapshot = some s;
    last_seq = max r.last_seq b;
    ring = filter_events (after_base s.epoch b) r.ring;
  }

  unfoldable pub snapshot_at : SourceSnapshot J → ℕ → SourceRecord J T → SourceRecord J T
  snapshot_at s b r =
      if same s.epoch r.descriptor.epoch then rebased s b r else rebased s b (restarted s.epoch r)

  -- `recordLocalEvent` and `recordDesktopEvent` on the record, once the event is accepted.
  abbrev pub with_event : Limits → ℕ → SourceEvent J → SourceRecord J T → SourceRecord J T
  with_event lim size e r = record r { last_seq = e.seq; ring = push lim e size r.ring }

  abbrev pub next_event : String → J → SourceRecord J T → SourceEvent J
  next_event id payload r = record {
    source_id = id;
    source_epoch = r.descriptor.epoch;
    seq = suc r.last_seq;
    payload = payload;
  }

module _ {J : Type 0} (json : JsonAccess J) where
  -- The patch of `setSnapshot`: what the state says, or else what the descriptor said.
  abbrev pub state_patch : J → SourceDescriptor → MetadataPatch
  state_patch state d = record {
    label = none;
    connected = none;
    epoch = none;
    cwd = some (or_field "cwd" d.cwd);
    session_id = some (or_field "sessionId" d.session_id);
    session_file = some (or_field "sessionFile" d.session_file);
    session_name = some (or_field "sessionName" d.session_name);
    capabilities = none;
  }
    where
      or_field : String → Option String → Option String
      or_field name old = elim (json.string_field name state) [ none ↦ old | some v ↦ some v ]

module _ {J T : Type 0} (json : JsonAccess J) where
  unfoldable pub with_snapshot : SourceSnapshot J → ℕ → SourceRecord J T → SourceRecord J T
  unfolding snapshot_at
  with_snapshot s b r =
      let r' = snapshot_at s b r in with_patch (state_patch json s.state r'.descriptor) r'

  -- `set_snapshot` on the record that it found: a base below 0 is refused.
  unfoldable pub take_snapshot :
      ℤ → String → SourceSnapshot J → SourceRecord J T → Registry J T → Registry J T × Bool
  unfolding with_snapshot
  take_snapshot (negsuc n) id s r g = (g, false)
  take_snapshot (pos b) id s r g = (put_record g id (with_snapshot s b r), true)

  unfoldable pub set_snapshot : String → SourceSnapshot J → Registry J T → Registry J T × Bool
  unfolding take_snapshot
  set_snapshot id s g = elim (lookup g id) [
    | none ↦ (g, false)
    | some r ↦ take_snapshot s.base_seq id s r g
  ]

  abbrev pub record_next :
      String → J → SourceRecord J T → Registry J T → Registry J T × RecordEventResult J
  record_next id payload r g =
      let e = next_event id payload r in
      (put_record g id (with_event g.limits (json.text_length payload) e r), recorded e)

  unfoldable pub record_local_event : String → J → Registry J T → Registry J T × RecordEventResult J
  record_local_event id payload g = elim (lookup g id) [
    | none ↦ (g, rejected missing)
    | some r ↦ record_next id payload r g
  ]

  unfoldable pub record_desktop_event :
      String → String → ℕ → J → Registry J T → Registry J T × RecordEventResult J
  record_desktop_event id epoch seq payload g = elim (lookup g id) [
    | none ↦ (g, rejected missing)
    | some r ↦
        if not (same r.descriptor.epoch epoch)
        then (g, rejected stale_epoch)
        else if not (leb seq max_safe_integer) || not (seq == r.last_seq + 1)
        then (g, rejected sequence_gap)
        else let e : SourceEvent J = record {
          source_id = id;
          source_epoch = epoch;
          seq = seq;
          payload = payload;
        } in
          (put_record g id (with_event g.limits (json.text_length payload) e r), recorded e)
  ]
