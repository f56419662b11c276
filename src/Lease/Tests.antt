-- ===== src/Lease/Tests.antt =====
-- Runs of the lease manager, and the theorems at concrete histories.
use pi_pilot.Base.{
  text_ne, ◌↔◌, ◌≡◌, refl, true, false, none, some, [], ◌∷◌, arith, ℕ_discrete, String_discrete,
}
use pi_pilot.Lease.{
  renew, OwnerLease, LeaseManager, new_manager, granted, refused, stale, controlled, acquire,
  validate, acquires, renews, releases, step,
}
use pi_pilot.Lease.Fencing.{run, takeover_fences_out}
use pi_pilot.Lease.Grants.{HeldByOther, acquire-refused_iff, fence_names_one_lease}

abbrev phone_lease : OwnerLease
phone_lease = record { lease_id = "u1"; client_id = "phone"; fence = 1; expires_at = 3000 }

abbrev held : LeaseManager
held = record { active = some phone_lease; next_fence = 1 }

acquire_first : acquire "u1" "phone" 3000 false 0 new_manager ≡ (held, granted phone_lease none)
unfolding acquire
acquire_first = refl

-- The phone's lease is taken over by the tablet, which gives it back; the phone acquires anew.
takeover_fences_out_example :
    (validate "phone" (some "u1") (some 1) 20 (
      run
        (step held (acquires "u2" "tablet" 3000 true 10))
        (releases "tablet" none none 15 ∷ acquires "u3" "phone" 3000 false 16 ∷ []))).1
    ≡ refused stale
takeover_fences_out_example =
    takeover_fences_out _ held phone_lease "u2" "tablet" 3000 10 "phone" "u1" 20 (omega arith) refl
      (text_ne "phone" "tablet" refl)

acquire-refused_iff_example :
    (acquire "u2" "tablet" 3000 false 10 held ≡ (held, refused controlled))
    ↔ ((false ≡ false) × HeldByOther "tablet" 10 (some phone_lease))
acquire-refused_iff_example = acquire-refused_iff held "u2" "tablet" 3000 false 10

fence_names_one_lease_example : ("phone" ≡ phone_lease.client_id) × ("u1" ≡ phone_lease.lease_id)
unfolding run step validate renew String_discrete ℕ_discrete
fence_names_one_lease_example =
    fence_names_one_lease (renews "phone" "u1" 1 3000 2000 ∷ []) new_manager held "u1" "phone" 3000
      false 0 phone_lease none "phone" "u1" 4000 (record phone_lease { expires_at = 5000 }) tt
      acquire_first refl
