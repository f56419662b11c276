-- ===== src/Registry/Steps.antt =====
-- Every history of calls of the registry leaves each source with a gap-free, bounded replay ring.
use pi_pilot.Base.{
  ℕ, suc, String, ◌≡◌, refl, sym, subst, inl, inr, Bool, List, [], ◌∷◌, arith, Option-cases,
  nat_key, string_key,
}
use pi_pilot.Base.{ℤ, pos, negsuc}
use pi_pilot.Base.Map.{Every-delete, Distinct-delete}
use pi_pilot.Replay.{Limits, SourceEvent}
use pi_pilot.Registry.State.{SourceSnapshot, SourceRecord, Registry, lookup, put_record}
use pi_pilot.Registry.Metadata.{register, remove, set_connected, update_metadata}
use pi_pilot.Registry.Streams.{
  JsonAccess, with_event, take_snapshot, set_snapshot, record_local_event, record_desktop_event,
}
use pi_pilot.Registry.Leasing.{
  acquire, renew, validate, release, release_client, expire_leases, list_sources,
}
use pi_pilot.Registry.Invariant.{
  IsRecord, registered-IsRecord, connected_as-IsRecord, with_patch-IsRecord, snapshot_at-IsRecord,
  with_event-IsRecord,
}
use pi_pilot.Registry.History.{
  RegistryCall, registers, removes, connects, patches, snapshots, locals, desktops, acquires,
  renews, validates, releases, releases_client, expires, lists, IsAllowed, step, run,
}
use pi_pilot.Registry.Changes.{
  IsRegistry, put_record-IsRegistry, change-IsRegistry, found-IsRecord, with_lease-IsRegistry,
  over_leases-Distinct, over_leases-each, describe_all-Distinct, describe_all-each,
}

abbrev pub AllAllowed : {J T : Type 0} → List (RegistryCall J T) → Type 0
AllAllowed [] = Unit {0}
AllAllowed (c ∷ cs) = IsAllowed c × AllAllowed cs

module _ {J T : Type 0} (json : JsonAccess J) (label_gt : String → String → Bool)
    (lim : Limits) where
  take_snapshot-IsRegistry :
      (b : ℤ) (id : String) (s : SourceSnapshot J) (r : SourceRecord J T) (g : Registry J T)
      → s.base_seq ≡ b
      → IsRegistry lim g
      → IsRecord lim r
      → IsRegistry lim (take_snapshot json b id s r g).0
  unfolding take_snapshot
  take_snapshot-IsRegistry (negsuc n) id s r g e v h = v
  take_snapshot-IsRegistry (pos b) id s r g e v h =
      put_record-IsRegistry lim id _ g v
        (with_patch-IsRecord lim _ _ refl (snapshot_at-IsRecord lim s b r e h))

  set_snapshot-IsRegistry :
      (id : String) (s : SourceSnapshot J) (g : Registry J T)
      → IsRegistry lim g
      → IsRegistry lim (set_snapshot json id s g).0
  unfolding set_snapshot
  set_snapshot-IsRegistry id s g v = elim (Option-cases (lookup g id)) [
    | inl e ↦ rw (e, set_snapshot) v
    | inr (r, e) ↦
        rw (e, set_snapshot)
          (take_snapshot-IsRegistry s.base_seq id s r g refl v (found-IsRecord lim id g r v e))
  ]

  -- An event that carries on the stream of its source is recorded in a good registry.
  with_event-IsRegistry :
      (id : String) (size : ℕ) (e : SourceEvent J) (r : SourceRecord J T) (g : Registry J T)
      → e.seq ≡ suc r.last_seq
      → e.source_epoch ≡ r.descriptor.epoch
      → IsRegistry lim g
      → IsRecord lim r
      → IsRegistry lim (put_record g id (with_event g.limits size e r))
  with_event-IsRegistry id size e r g h k v w =
      subst (λ l. IsRegistry lim (put_record g id (with_event l size e r))) (sym v.limits)
        (put_record-IsRegistry lim id _ g v (with_event-IsRecord lim size e r h k w))

  record_local_event-IsRegistry :
      (id : String) (payload : J) (g : Registry J T)
      → IsRegistry lim g
      → IsRegistry lim (record_local_event json id payload g).0
  unfolding record_local_event
  record_local_event-IsRegistry id payload g v = elim (Option-cases (lookup g id)) [
    | inl e ↦ rw (e, record_local_event) v
    | inr (r, e) ↦
        rw (e, record_local_event)
          (with_event-IsRegistry id _ _ r g refl refl v (found-IsRecord lim id g r v e))
  ]

  record_desktop_event-IsRegistry :
      (id epoch : String) (seq : ℕ) (payload : J) (g : Registry J T)
      → IsRegistry lim g
      → IsRegistry lim (record_desktop_event json id epoch seq payload g).0
  unfolding record_desktop_event
  record_desktop_event-IsRegistry id epoch seq payload g v = elim (Option-cases (lookup g id)) [
    | inl e ↦ rw (e, record_desktop_event) v
    | inr (r, e) ↦
        rw (e, record_desktop_event)
          (ground (
            arith,
            v,
            with_event-IsRegistry id (json.text_length payload)
                (record { source_id = id; source_epoch = epoch; seq = seq; payload = payload }) r g,
            found-IsRecord lim id g r v e,
          ))
  ]

  -- Every call that the hub makes keeps each source's ring and snapshot consistent.
  pub step-IsRegistry :
      (g : Registry J T) (c : RegistryCall J T)
      → IsAllowed c
      → IsRegistry lim g
      → IsRegistry lim (step json label_gt g c)
  unfolding step register remove set_connected update_metadata acquire renew validate release
      release_client expire_leases list_sources
  step-IsRegistry g (registers d t) a v =
      put_record-IsRegistry lim d.id _ g v
        (registered-IsRecord lim d t (lookup g d.id) (λ r e. found-IsRecord lim d.id g r v e))
  step-IsRegistry g (removes id) a v = record {
    limits = v.limits;
    each = Every-delete (IsRecord lim) id g.records v.each;
    distinct = Distinct-delete id g.records v.distinct;
  }
  step-IsRegistry g (connects id connected epoch) a v =
      change-IsRegistry lim _ id g v (connected_as-IsRecord lim connected epoch)
  step-IsRegistry g (patches id p) a v =
      change-IsRegistry lim _ id g v (λ r h. with_patch-IsRecord lim p r a h)
  step-IsRegistry g (snapshots id s) a v = set_snapshot-IsRegistry id s g v
  step-IsRegistry g (locals id payload) a v = record_local_event-IsRegistry id payload g v
  step-IsRegistry g (desktops id epoch seq payload) a v =
      record_desktop_event-IsRegistry id epoch seq payload g v
  step-IsRegistry g (acquires uuid id client ttl force now) a v = with_lease-IsRegistry lim _ id g v
  step-IsRegistry g (renews id client lease_id fence ttl now) a v =
      with_lease-IsRegistry lim _ id g v
  step-IsRegistry g (validates id client lease_id fence now) a v =
      with_lease-IsRegistry lim _ id g v
  step-IsRegistry g (releases id client lease_id fence now) a v = with_lease-IsRegistry lim _ id g v
  step-IsRegistry g (releases_client client now) a v = record {
    limits = v.limits;
    each = over_leases-each lim _ g.records v.each;
    distinct = over_leases-Distinct _ g.records v.distinct;
  }
  step-IsRegistry g (expires now) a v = record {
    limits = v.limits;
    each = over_leases-each lim _ g.records v.each;
    distinct = over_leases-Distinct _ g.records v.distinct;
  }
  step-IsRegistry g (lists client now) a v = record {
    limits = v.limits;
    each = describe_all-each lim client now g.records v.each;
    distinct = describe_all-Distinct client now g.records v.distinct;
  }

  -- After any history of calls of the hub, every source has a replay ring that ends at its last
  -- sequence number with no gap, holds events of its epoch only, counts their bytes rightly and keeps
  -- to the limits on events and bytes (one event alone may exceed the bytes), and a snapshot whose
  -- base is not past that number; no source stands twice.
  pub run-IsRegistry :
      (g : Registry J T) (cs : List (RegistryCall J T))
      → AllAllowed cs
      → IsRegistry lim g
      → IsRegistry lim (run json label_gt g cs)
  unfolding run
  run-IsRegistry g [] a v = v
  run-IsRegistry g (c ∷ cs) a v =
      run-IsRegistry (step json label_gt g c) cs a.1 (step-IsRegistry g c a.0 v)
