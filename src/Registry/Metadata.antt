-- ===== src/Registry/Metadata.antt =====
-- `register`, `remove`, `get`, `setConnected`, `updateMetadata` and `getSnapshot`.
use pi_pilot.Base.{
  String, Bool, ◌&&◌, not, Option, none, some, if◌then◌else◌, is_some, or_else, nat_key, string_key,
  same,
}
use pi_pilot.Base.Map
use pi_pilot.Lease.{new_manager}
use pi_pilot.Replay.{cleared}
use pi_pilot.Registry.State.{
  SourceDescriptor, SourceSnapshot, SourceRecord, MetadataPatch, Registry, lookup, put_record,
  change,
}

unfoldable pub patched : MetadataPatch → SourceDescriptor → SourceDescriptor
patched p d = record d {
  label = or_else p.label d.label;
  connected = or_else p.connected d.connected;
  epoch = or_else p.epoch d.epoch;
  cwd = or_else p.cwd d.cwd;
  session_id = or_else p.session_id d.session_id;
  session_file = or_else p.session_file d.session_file;
  session_name = or_else p.session_name d.session_name;
  capabilities = or_else p.capabilities d.capabilities;
}

module _ {J T : Type 0} where
  unfoldable pub registered : SourceDescriptor → T → Option (SourceRecord J T) → SourceRecord J T
  registered d t none = record {
    descriptor = d;
    transport = t;
    snapshot = none;
    ring = cleared;
    last_seq = 0;
    lease = new_manager;
  }
  registered d t (some previous) =
      let same_epoch = same previous.descriptor.epoch d.epoch in
      record {
        descriptor = d;
        transport = t;
        snapshot = if same_epoch then previous.snapshot else none;
        ring = if same_epoch then previous.ring else cleared;
        last_seq = if same_epoch then previous.last_seq else 0;
        lease = previous.lease;
      }

  unfoldable pub register : SourceDescriptor → T → Registry J T → Registry J T
  unfolding registered
  register d t g = put_record g d.id (registered d t (lookup g d.id))

  unfoldable pub remove : String → Registry J T → Registry J T × Bool
  remove id g = (record g { records = Map.delete id g.records }, is_some (lookup g id))

  unfoldable pub describe : String → Registry J T → Option SourceDescriptor
  describe id g = elim (lookup g id) [ none ↦ none | some r ↦ some r.descriptor ]

  -- A new stream of events: `descriptor.epoch`, `snapshot`, the ring and `lastSeq` start over.
  abbrev pub restarted : String → SourceRecord J T → SourceRecord J T
  restarted epoch r = record r {
    descriptor = record r.descriptor { epoch = epoch };
    snapshot = none;
    ring = cleared;
    last_seq = 0;
  }

  -- An epoch that is absent or empty is no new one.
  unfoldable pub moved_to : Option String → SourceRecord J T → SourceRecord J T
  moved_to none r = r
  moved_to (some epoch) r =
      if not (same epoch "") && not (same epoch r.descriptor.epoch) then restarted epoch r else r

  unfoldable pub connected_as : Bool → Option String → SourceRecord J T → SourceRecord J T
  unfolding moved_to
  connected_as connected epoch r =
      let r' = moved_to epoch r in
      record r' { descriptor = record r'.descriptor { connected = connected } }

  unfoldable pub set_connected : String → Bool → Option String → Registry J T → Registry J T
  unfolding connected_as
  set_connected id connected epoch = change (connected_as connected epoch) id

  abbrev pub with_patch : MetadataPatch → SourceRecord J T → SourceRecord J T
  with_patch p r = record r { descriptor = patched p r.descriptor }

  unfoldable pub update_metadata : String → MetadataPatch → Registry J T → Registry J T
  update_metadata id p = change (with_patch p) id

  unfoldable pub get_snapshot : String → Registry J T → Option (SourceSnapshot J)
  get_snapshot id g = elim (lookup g id) [ none ↦ none | some r ↦ r.snapshot ]
