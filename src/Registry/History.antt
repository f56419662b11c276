-- ===== src/Registry/History.antt =====
-- The calls that the hub makes of its registry, and histories of them.
use pi_pilot.Base.{ℕ, String, ◌≡◌, Bool, Option, none, List, [], ◌∷◌, nat_key, string_key}
use pi_pilot.Registry.State.{SourceDescriptor, SourceSnapshot, MetadataPatch, Registry}
use pi_pilot.Registry.Metadata.{register, remove, set_connected, update_metadata}
use pi_pilot.Registry.Streams.{JsonAccess, set_snapshot, record_local_event, record_desktop_event}
use pi_pilot.Registry.Leasing.{
  acquire, renew, validate, release, release_client, expire_leases, list_sources,
}

-- A call of the registry, with its arguments.
pub data RegistryCall (J T : Type 0) : Type 0 where
  registers : SourceDescriptor → T → RegistryCall J T
  removes : (id : String) → RegistryCall J T
  connects : (id : String) (connected : Bool) (epoch : Option String) → RegistryCall J T
  patches : (id : String) → MetadataPatch → RegistryCall J T
  snapshots : (id : String) → SourceSnapshot J → RegistryCall J T
  locals : (id : String) → J → RegistryCall J T
  desktops : (id epoch : String) (seq : ℕ) → J → RegistryCall J T
  acquires : (uuid id client : String) (ttl : ℕ) (force : Bool) (now : ℕ) → RegistryCall J T
  renews : (id client lease_id : String) (fence ttl now : ℕ) → RegistryCall J T
  validates :
      (id client : String) (lease_id : Option String) (fence : Option ℕ) (now : ℕ)
      → RegistryCall J T
  releases :
      (id client : String) (lease_id : Option String) (fence : Option ℕ) (now : ℕ)
      → RegistryCall J T
  releases_client : (client : String) (now : ℕ) → RegistryCall J T
  expires : (now : ℕ) → RegistryCall J T
  lists : (client : Option String) (now : ℕ) → RegistryCall J T

-- The hub never patches the epoch of a source.
abbrev pub IsAllowed : {J T : Type 0} → RegistryCall J T → Type 0
IsAllowed (patches id p) = p.epoch ≡ none
IsAllowed _ = Unit {0}

module _ {J T : Type 0} (json : JsonAccess J) (label_gt : String → String → Bool) where
  unfoldable pub step : Registry J T → RegistryCall J T → Registry J T
  step g (registers d t) = register d t g
  step g (removes id) = (remove id g).0
  step g (connects id connected epoch) = set_connected id connected epoch g
  step g (patches id p) = update_metadata id p g
  step g (snapshots id s) = (set_snapshot json id s g).0
  step g (locals id payload) = (record_local_event json id payload g).0
  step g (desktops id epoch seq payload) = (record_desktop_event json id epoch seq payload g).0
  step g (acquires uuid id client ttl force now) = (acquire uuid id client ttl force now g).0
  step g (renews id client lease_id fence ttl now) = (renew id client lease_id fence ttl now g).0
  step g (validates id client lease_id fence now) = (validate id client lease_id fence now g).0
  step g (releases id client lease_id fence now) = (release id client lease_id fence now g).0
  step g (releases_client client now) = (release_client client now g).0
  step g (expires now) = (expire_leases now g).0
  step g (lists client now) = (list_sources label_gt client now g).0

  unfoldable pub run : Registry J T → List (RegistryCall J T) → Registry J T
  run g [] = g
  run g (c ∷ cs) = run (step g c) cs
