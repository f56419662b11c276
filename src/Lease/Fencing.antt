-- ===== src/Lease/Fencing.antt =====
-- A fence that has been superseded never validates again.
use pi_pilot.Base.{ℕ, ◌≤◌, ◌<◌, ◌≡◌, ◌≢◌, String, true, Option, none, some, List, [], ◌∷◌, arith}
use pi_pilot.Lease.{
  OwnerLease, LeaseManager, refused, stale, expire, acquire, renew, validate, release, public_state,
  is_owned_by, LeaseCall, acquires, renews, validates, releases, expires, publishes, asks_owner,
  step,
}

abbrev pub FenceAbove : ℕ → Option OwnerLease → Type 0
FenceAbove f none = Unit {0}
FenceAbove f (some l) = f < l.fence

abbrev pub FenceAtMost : ℕ → Option OwnerLease → Type 0
FenceAtMost f none = Unit {0}
FenceAtMost f (some l) = l.fence ≤ f

-- The fence `f` lies behind: it was handed out, and the active lease has a later one.
pub record IsPast (f : ℕ) (m : LeaseManager) : Type 0 where
  pub issued : f ≤ m.next_fence
  pub above : FenceAbove f m.active

-- The active fence was handed out by this manager.
abbrev pub IsIssued : LeaseManager → Type 0
IsIssued m = FenceAtMost m.next_fence m.active

step-IsPast : (f : ℕ) (m : LeaseManager) (c : LeaseCall) → IsPast f m → IsPast f (step m c)
unfolding step acquire renew validate release public_state is_owned_by
step-IsPast f m (acquires uuid client ttl force now) h = ground arith
step-IsPast f m (renews client lease_id fence ttl now) h = ground arith
step-IsPast f m (validates client lease_id fence now) h = ground arith
step-IsPast f m (releases client lease_id fence now) h = ground arith
step-IsPast f m (expires now) h = ground arith
step-IsPast f m (publishes now) h = ground arith
step-IsPast f m (asks_owner client now) h = ground arith

pub step-IsIssued : (m : LeaseManager) (c : LeaseCall) → IsIssued m → IsIssued (step m c)
unfolding step acquire renew validate release public_state is_owned_by
step-IsIssued m (acquires uuid client ttl force now) h = ground arith
step-IsIssued m (renews client lease_id fence ttl now) h = ground arith
step-IsIssued m (validates client lease_id fence now) h = ground arith
step-IsIssued m (releases client lease_id fence now) h = ground arith
step-IsIssued m (expires now) h = ground arith
step-IsIssued m (publishes now) h = ground arith
step-IsIssued m (asks_owner client now) h = ground arith

-- The states of a manager over its life.
unfoldable pub run : LeaseManager → List LeaseCall → LeaseManager
run m [] = m
run m (c ∷ cs) = run (step m c) cs

run-IsPast : (f : ℕ) (m : LeaseManager) (cs : List LeaseCall) → IsPast f m → IsPast f (run m cs)
unfolding run
run-IsPast f m [] h = h
run-IsPast f m (c ∷ cs) h = run-IsPast f (step m c) cs (step-IsPast f m c h)

pub run-IsIssued : (m : LeaseManager) (cs : List LeaseCall) → IsIssued m → IsIssued (run m cs)
unfolding run
run-IsIssued m [] h = h
run-IsIssued m (c ∷ cs) h = run-IsIssued (step m c) cs (step-IsIssued m c h)

validate_past :
    (f : ℕ) (m : LeaseManager) (client lease_id : String) (now : ℕ)
    → IsPast f m
    → (validate client (some lease_id) (some f) now m).1 ≡ refused stale
unfolding validate expire
validate_past f m client lease_id now h = ground arith

-- An active lease that goes leaves its fence behind, also when another lease takes its place.
acquire_other-IsPast :
    (m : LeaseManager) (old : OwnerLease) (uuid client : String) (ttl now : ℕ)
    → IsIssued m
    → m.active ≡ some old
    → old.client_id ≢ client
    → IsPast old.fence (step m (acquires uuid client ttl true now))
unfolding step acquire expire
acquire_other-IsPast m old uuid client ttl now h a d = ground arith

-- Fencing: once another client has taken the source over by force, no later history of calls lets
-- the fence of the old holder validate again, whoever presents it, with whatever lease id and at
-- whatever time.
pub takeover_fences_out :
    (history : List LeaseCall) (m : LeaseManager) (old : OwnerLease) (uuid client : String)
    (ttl now : ℕ) (presenter lease_id : String) (later : ℕ)
    → IsIssued m
    → m.active ≡ some old
    → old.client_id ≢ client
    → (validate presenter
        (some lease_id)
        (some old.fence)
        later
        (run (step m (acquires uuid client ttl true now)) history)).1
      ≡ refused stale
takeover_fences_out history m old uuid client ttl now presenter lease_id later h a d =
    validate_past old.fence _ presenter lease_id later
      (run-IsPast old.fence _ history (acquire_other-IsPast m old uuid client ttl now h a d))
