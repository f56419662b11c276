-- ===== src/Lease.antt =====
-- bridge/src/owner_lease.ts: the lease of one source, with its fencing token.
-- The clock is read once in each call and the UUID of a new lease is an argument.
pub mod Fencing
pub mod Grants
mod Tests
use pi_pilot.Base.{
  ℕ, suc, ◌+◌, String, Bool, true, false, not, ◌&&◌, ◌||◌, Option, none, some, leb, if◌then◌else◌,
  same, nat_key, string_key,
}

pub record OwnerLease : Type 0 where
  pub lease_id : String
  pub client_id : String
  pub fence : ℕ
  pub expires_at : ℕ

pub record PublicOwnerState : Type 0 where
  pub owned : Bool
  pub fence : Option ℕ
  pub expires_at : Option ℕ

pub data LeaseResult : Type 0 where
  granted : (lease : OwnerLease) (stolen_from : Option String) → LeaseResult
  refused : (error : String) → LeaseResult

pub record LeaseManager : Type 0 where
  pub active : Option OwnerLease
  pub next_fence : ℕ

abbrev pub new_manager : LeaseManager
new_manager = record { active = none; next_fence = 0 }

abbrev pub controlled : String
controlled = "source is controlled by another client"

abbrev pub stale : String
stale = "lease is missing, expired, or stale"

abbrev pub required : String
required = "a valid owner lease is required"

unfoldable pub expire : ℕ → LeaseManager → LeaseManager × Bool
expire now m = elim m.active [
  | none ↦ (m, false)
  | some l ↦ if leb l.expires_at now then (record m { active = none }, true) else (m, false)
]

unfoldable pub mint : String → String → ℕ → ℕ → LeaseManager → LeaseManager × OwnerLease
mint uuid client ttl now m =
    let lease : OwnerLease = record {
      lease_id = uuid;
      client_id = client;
      fence = suc m.next_fence;
      expires_at = now + ttl;
    } in
    (record { active = some lease; next_fence = suc m.next_fence }, lease)

fresh_grant : String → String → ℕ → ℕ → Option String → LeaseManager → LeaseManager × LeaseResult
unfolding mint
fresh_grant uuid client ttl now stolen_from m =
    let (m', lease) = mint uuid client ttl now m in (m', granted lease stolen_from)

abbrev pub extended : OwnerLease → ℕ → ℕ → OwnerLease
extended l ttl now = record l { expires_at = now + ttl }

-- What `acquire` does once the expired lease is gone.
acquire_live : String → String → ℕ → Bool → ℕ → LeaseManager → LeaseManager × LeaseResult
unfolding fresh_grant
acquire_live uuid client ttl force now m = elim m.active [
  | none ↦ fresh_grant uuid client ttl now none m
  | some l ↦
      if not (same l.client_id client)
      then if not force
        then (m, refused controlled)
        else fresh_grant uuid client ttl now (some l.client_id) (record m { active = none })
      else (record m { active = some (extended l ttl now) }, granted (extended l ttl now) none)
]

unfoldable pub acquire : String → String → ℕ → Bool → ℕ → LeaseManager → LeaseManager × LeaseResult
unfolding expire acquire_live
acquire uuid client ttl force now m = acquire_live uuid client ttl force now (expire now m).0

-- `matches`
abbrev pub is_match : OwnerLease → String → String → ℕ → Bool
is_match l client lease_id fence =
    same l.client_id client && same l.lease_id lease_id && same l.fence fence

renew_live : String → String → ℕ → ℕ → ℕ → LeaseManager → LeaseManager × LeaseResult
renew_live client lease_id fence ttl now m = elim m.active [
  | none ↦ (m, refused stale)
  | some l ↦
      if not (is_match l client lease_id fence)
      then (m, refused stale)
      else (record m { active = some (extended l ttl now) }, granted (extended l ttl now) none)
]

unfoldable pub renew : String → String → ℕ → ℕ → ℕ → LeaseManager → LeaseManager × LeaseResult
unfolding expire renew_live
renew client lease_id fence ttl now m = renew_live client lease_id fence ttl now (expire now m).0

validate_live : String → String → ℕ → Option OwnerLease → LeaseResult
validate_live client lease_id fence none = refused stale
validate_live client lease_id fence (some l) =
    if not (is_match l client lease_id fence) then refused stale else granted l none

-- `none` is a value of another type than a string, or than a number.
check_claim : String → Option String → Option ℕ → Option OwnerLease → LeaseResult
unfolding validate_live
check_claim client none fence active = refused required
check_claim client (some lease_id) none active = refused required
check_claim client (some lease_id) (some fence) active = validate_live client lease_id fence active

unfoldable pub validate :
    String → Option String → Option ℕ → ℕ → LeaseManager → LeaseManager × LeaseResult
unfolding expire check_claim
validate client lease_id fence now m =
    let m' = (expire now m).0 in (m', check_claim client lease_id fence m'.active)

-- An argument that is left out is not compared.
abbrev agrees_text : Option String → String → Bool
agrees_text none s = true
agrees_text (some t) s = same s t

abbrev agrees_number : Option ℕ → ℕ → Bool
agrees_number none n = true
agrees_number (some k) n = same n k

release_live : String → Option String → Option ℕ → LeaseManager → LeaseManager × Bool
release_live client lease_id fence m = elim m.active [
  | none ↦ (m, false)
  | some l ↦
      if not (same l.client_id client)
      then (m, false)
      else if not (agrees_text lease_id l.lease_id)
      then (m, false)
      else if not (agrees_number fence l.fence)
      then (m, false)
      else (record m { active = none }, true)
]

unfoldable pub release : String → Option String → Option ℕ → ℕ → LeaseManager → LeaseManager × Bool
unfolding expire release_live
release client lease_id fence now m = release_live client lease_id fence (expire now m).0

unfoldable pub release_client : String → ℕ → LeaseManager → LeaseManager × Bool
unfolding release
release_client client now m = release client none none now m

public_of : Option OwnerLease → PublicOwnerState
public_of none = record { owned = false; fence = none; expires_at = none }
public_of (some l) = record { owned = true; fence = some l.fence; expires_at = some l.expires_at }

unfoldable pub public_state : ℕ → LeaseManager → LeaseManager × PublicOwnerState
unfolding expire public_of
public_state now m = let m' = (expire now m).0 in (m', public_of m'.active)

owner_is : String → Option OwnerLease → Bool
owner_is client none = false
owner_is client (some l) = same l.client_id client

unfoldable pub is_owned_by : String → ℕ → LeaseManager → LeaseManager × Bool
unfolding expire owner_is
is_owned_by client now m = let m' = (expire now m).0 in (m', owner_is client m'.active)

-- A call of the manager, with its arguments and the time at which it comes.
pub data LeaseCall : Type 0 where
  acquires : (uuid client : String) (ttl : ℕ) (force : Bool) (now : ℕ) → LeaseCall
  renews : (client lease_id : String) (fence ttl now : ℕ) → LeaseCall
  validates : (client : String) (lease_id : Option String) (fence : Option ℕ) (now : ℕ) → LeaseCall
  releases : (client : String) (lease_id : Option String) (fence : Option ℕ) (now : ℕ) → LeaseCall
  expires publishes : (now : ℕ) → LeaseCall
  asks_owner : (client : String) (now : ℕ) → LeaseCall

unfoldable pub step : LeaseManager → LeaseCall → LeaseManager
step m (acquires uuid client ttl force now) = (acquire uuid client ttl force now m).0
step m (renews client lease_id fence ttl now) = (renew client lease_id fence ttl now m).0
step m (validates client lease_id fence now) = (validate client lease_id fence now m).0
step m (releases client lease_id fence now) = (release client lease_id fence now m).0
step m (expires now) = (expire now m).0
step m (publishes now) = (public_state now m).0
step m (asks_owner client now) = (is_owned_by client now m).0
