-- ===== src/Registry/State.antt =====
-- The data of bridge/src/source_registry.ts. `J` is the type of JSON objects and `T` that of
-- transports, which the registry only stores.
use pi_pilot.Base.{
  ℕ, ◌-◌, ◌^◌, String, Bool, true, Option, none, some, List, ltb, nat_key, string_key,
}
use pi_pilot.Base.{ℤ, pos, negsuc}
use pi_pilot.Base.Map
use pi_pilot.Base.Map.{Map}
use pi_pilot.Lease.{LeaseManager}
use pi_pilot.Replay.{SourceEvent, Ring, Limits}

pub data SourceKind : Type 0 where
  headless desktop : SourceKind

pub record SourceDescriptor : Type 0 where
  pub id : String
  pub kind : SourceKind
  pub label : String
  pub connected : Bool
  pub epoch : String
  pub cwd : Option String
  pub session_id : Option String
  pub session_file : Option String
  pub session_name : Option String
  pub capabilities : List String

-- The fields of a snapshot that the registry only passes on are `state` and the rest of it.
pub record SourceSnapshot (J : Type 0) : Type 0 where
  pub epoch : String
  pub base_seq : ℤ
  pub captured_at : ℕ
  pub state : J
  pub entries : List J
  pub leaf_id : Option String
  pub extras : List (String × J)

pub record SourceRecord (J T : Type 0) : Type 0 where
  pub descriptor : SourceDescriptor
  pub transport : T
  pub snapshot : Option (SourceSnapshot J)
  pub ring : Ring J
  pub last_seq : ℕ
  pub lease : LeaseManager

pub record HubCursor : Type 0 where
  pub hub_id : String
  pub source_id : String
  pub source_epoch : String
  pub seq : ℕ

pub data EventError : Type 0 where
  missing stale_epoch sequence_gap : EventError

pub data RecordEventResult (J : Type 0) : Type 0 where
  recorded : SourceEvent J → RecordEventResult J
  rejected : EventError → RecordEventResult J

pub data SourceSync (J : Type 0) : Type 0 where
  replay : (events : List (SourceEvent J)) → SourceSync J
  from_snapshot :
      (snapshot : SourceSnapshot J) (events : List (SourceEvent J)) (continuous : Bool)
      → SourceSync J
  rpc : (base_seq : ℕ) → SourceSync J

-- `Partial<…>`: `none` is a key that is absent; of an optional field it may be there as `undefined`.
pub record MetadataPatch : Type 0 where
  pub label : Option String
  pub connected : Option Bool
  pub epoch : Option String
  pub cwd : Option (Option String)
  pub session_id : Option (Option String)
  pub session_file : Option (Option String)
  pub session_name : Option (Option String)
  pub capabilities : Option (List String)

pub record Registry (J T : Type 0) : Type 0 where
  pub hub_id : String
  pub records : Map String (SourceRecord J T)
  pub limits : Limits

-- Number.MAX_SAFE_INTEGER
abbrev pub max_safe_integer : ℕ
max_safe_integer = 2 ^ 53 - 1

-- `event.seq > baseSeq`
abbrev pub exceeds : ℕ → ℤ → Bool
exceeds seq (pos b) = ltb b seq
exceeds seq (negsuc b) = true

module _ {J T : Type 0} where
  abbrev pub lookup : Registry J T → String → Option (SourceRecord J T)
  lookup g id = Map.get id g.records

  abbrev pub put_record : Registry J T → String → SourceRecord J T → Registry J T
  put_record g id r = record g { records = Map.set id r g.records }

  -- The operations that change one record do nothing where there is none.
  abbrev pub change : (SourceRecord J T → SourceRecord J T) → String → Registry J T → Registry J T
  change f id g = elim (lookup g id) [ none ↦ g | some r ↦ put_record g id (f r) ]
