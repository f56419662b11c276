-- ===== src/Lease/Grants.antt =====
-- What a granted lease is worth, when a client is refused, and that a fence names one holder.
use pi_pilot.Base.{
  ℕ, ◌+◌, ◌≤◌, ◌<◌, ◌≡◌, ◌≢◌, ◌↔◌, String, Bool, false, Option, none, some, List, [], ◌∷◌, arith,
}
use pi_pilot.Lease.{
  OwnerLease, LeaseManager, granted, refused, controlled, acquire, renew, validate, release,
  public_state, is_owned_by, LeaseCall, acquires, renews, validates, releases, expires, publishes,
  asks_owner, step,
}
use pi_pilot.Lease.Fencing.{IsIssued, run}

-- A lease that `acquire` grants belongs to the caller and lasts for the term asked for; until then
-- its credentials validate, and validating changes nothing.
pub acquire_validates :
    (m m' : LeaseManager) (uuid client : String) (ttl : ℕ) (force : Bool) (now later : ℕ)
    (l : OwnerLease) (stolen_from : Option String)
    → acquire uuid client ttl force now m ≡ (m', granted l stolen_from)
    → later < l.expires_at
    → (l.client_id ≡ client)
      × (l.expires_at ≡ now + ttl)
      × (validate client (some l.lease_id) (some l.fence) later m' ≡ (m', granted l none))
unfolding acquire validate
acquire_validates m m' uuid client ttl force now later l stolen_from e h =
    (ground arith, ground arith, ground arith)

-- Another client holds the source, and its lease has not run out.
abbrev pub HeldByOther : String → ℕ → Option OwnerLease → Type 0
HeldByOther client now none = ⊥
HeldByOther client now (some l) = (l.client_id ≢ client) × (now < l.expires_at)

-- `acquire` refuses exactly when the caller does not force it and another client holds an unexpired
-- lease; then the manager stays as it was.
pub acquire-refused_iff :
    (m : LeaseManager) (uuid client : String) (ttl : ℕ) (force : Bool) (now : ℕ)
    → (acquire uuid client ttl force now m ≡ (m, refused controlled))
      ↔ ((force ≡ false) × HeldByOther client now m.active)
unfolding acquire
acquire-refused_iff m uuid client ttl force now = (λ e. ground arith, λ h. ground arith)

-- Whoever shows the fence `f` while it is active is the client `client` with the lease id `id`.
abbrev NamesOwner : ℕ → String → String → Option OwnerLease → Type 0
NamesOwner f client id none = Unit {0}
NamesOwner f client id (some l) = l.fence ≡ f → (l.client_id ≡ client) × (l.lease_id ≡ id)

record Belongs (f : ℕ) (client id : String) (m : LeaseManager) : Type 0 where
  issued : f ≤ m.next_fence
  names : NamesOwner f client id m.active

step-Belongs :
    (f : ℕ) (client id : String) (m : LeaseManager) (c : LeaseCall)
    → Belongs f client id m
    → Belongs f client id (step m c)
unfolding step acquire renew validate release public_state is_owned_by
step-Belongs f client id m (acquires uuid who ttl force now) h = ground arith
step-Belongs f client id m (renews who lease_id fence ttl now) h = ground arith
step-Belongs f client id m (validates who lease_id fence now) h = ground arith
step-Belongs f client id m (releases who lease_id fence now) h = ground arith
step-Belongs f client id m (expires now) h = ground arith
step-Belongs f client id m (publishes now) h = ground arith
step-Belongs f client id m (asks_owner who now) h = ground arith

run-Belongs :
    (f : ℕ) (client id : String) (m : LeaseManager) (cs : List LeaseCall)
    → Belongs f client id m
    → Belongs f client id (run m cs)
unfolding run
run-Belongs f client id m [] h = h
run-Belongs f client id m (c ∷ cs) h =
    run-Belongs f client id (step m c) cs (step-Belongs f client id m c h)

acquire-Belongs :
    (m m' : LeaseManager) (uuid client : String) (ttl : ℕ) (force : Bool) (now : ℕ) (l : OwnerLease)
    (stolen_from : Option String)
    → IsIssued m
    → acquire uuid client ttl force now m ≡ (m', granted l stolen_from)
    → Belongs l.fence client l.lease_id m'
unfolding acquire
acquire-Belongs m m' uuid client ttl force now l stolen_from a e = ground arith

validate_names :
    (f : ℕ) (client id who lease_id : String) (now : ℕ) (m : LeaseManager) (l : OwnerLease)
    → Belongs f client id m
    → (validate who (some lease_id) (some f) now m).1 ≡ granted l none
    → (who ≡ client) × (lease_id ≡ id)
unfolding validate
validate_names f client id who lease_id now m l h e = ground arith

-- A fence names one lease for ever: when a client acquires a source and, after any history of calls,
-- the fence handed out there validates for someone, it is the same client with the same lease id.
pub fence_names_one_lease :
    (history : List LeaseCall) (m m' : LeaseManager) (uuid client : String) (ttl : ℕ) (force : Bool)
    (now : ℕ) (l : OwnerLease) (stolen_from : Option String) (who lease_id : String) (later : ℕ)
    (shown : OwnerLease)
    → IsIssued m
    → acquire uuid client ttl force now m ≡ (m', granted l stolen_from)
    → (validate who (some lease_id) (some l.fence) later (run m' history)).1 ≡ granted shown none
    → (who ≡ client) × (lease_id ≡ l.lease_id)
fence_names_one_lease history m m' uuid client ttl force now l stolen who lease_id later shown a e
      v =
    validate_names l.fence client l.lease_id who lease_id later (run m' history) shown
      (run-Belongs l.fence client l.lease_id m' history
        (acquire-Belongs m m' uuid client ttl force now l stolen a e))
      v
