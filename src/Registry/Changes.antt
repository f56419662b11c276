-- ===== src/Registry/Changes.antt =====
-- A registry whose sources are all consistent, and what a change of records does to it.
use pi_pilot.Base.{
  ℕ, String, ◌≡◌, refl, inl, inr, Bool, Option, none, some, [], ◌∷◌, arith, Option-cases, nat_key,
  string_key,
}
use pi_pilot.Base.Map
use pi_pilot.Base.Map.{
  Map, Every, Distinct, Every-get, Every-set, Every-delete, Distinct-set, Distinct-delete,
}
use pi_pilot.Lease.{LeaseManager}
use pi_pilot.Replay.{Limits}
use pi_pilot.Registry.State.{SourceRecord, Registry, lookup, put_record, change}
use pi_pilot.Registry.Leasing.{with_lease, over_leases, describe_all}
use pi_pilot.Registry.Invariant.{IsRecord}

module _ {J T : Type 0} where
  pub record IsRegistry (lim : Limits) (g : Registry J T) : Type 0 where
    pub limits : g.limits ≡ lim
    pub each : Every (IsRecord lim) g.records
    pub distinct : Distinct g.records

  pub put_record-IsRegistry :
      (lim : Limits) (id : String) (r : SourceRecord J T) (g : Registry J T)
      → IsRegistry lim g
      → IsRecord lim r
      → IsRegistry lim (put_record g id r)
  put_record-IsRegistry lim id r g v h = record {
    limits = v.limits;
    each = Every-set (IsRecord lim) id r g.records v.each h;
    distinct = Distinct-set id r g.records v.distinct;
  }

  -- An operation that finds its record and writes a good one keeps the registry good.
  pub change-IsRegistry :
      (lim : Limits) (f : SourceRecord J T → SourceRecord J T) (id : String) (g : Registry J T)
      → IsRegistry lim g
      → ((r : SourceRecord J T) → IsRecord lim r → IsRecord lim (f r))
      → IsRegistry lim (change f id g)
  change-IsRegistry lim f id g v h = elim (Option-cases (lookup g id)) [
    | inl e ↦ rw (e, change) v
    | inr (r, e) ↦
        rw (e, change)
          (put_record-IsRegistry lim id (f r) g v
            (h r (Every-get (IsRecord lim) id r g.records v.each e)))
  ]

  pub found-IsRecord :
      (lim : Limits) (id : String) (g : Registry J T) (r : SourceRecord J T)
      → IsRegistry lim g
      → lookup g id ≡ some r
      → IsRecord lim r
  found-IsRecord lim id g r v e = Every-get (IsRecord lim) id r g.records v.each e

  pub with_lease-IsRegistry {ℓ} :
      {A : Type ℓ} (lim : Limits) (f : LeaseManager → LeaseManager × A) (id : String)
      (g : Registry J T)
      → IsRegistry lim g
      → IsRegistry lim (with_lease f id g).0
  with_lease-IsRegistry lim f id g v = elim (Option-cases (lookup g id)) [
    | inl e ↦ rw (e, with_lease) v
    | inr (r, e) ↦
        rw (e, with_lease)
          (let h = found-IsRecord lim id g r v e in
            put_record-IsRegistry lim id (record r { lease = (f r.lease).0 }) g v
              (record { ring = h.ring; based = h.based }))
  ]

  over_leases-absent :
      (f : LeaseManager → LeaseManager × Bool) (k : String) (m : Map String (SourceRecord J T))
      → Map.get k m ≡ none
      → Map.get k (over_leases f m).0 ≡ none
  unfolding Map.get
  over_leases-absent f k [] h = refl
  over_leases-absent f k ((i, r) ∷ m) h = ground (arith, over_leases-absent f k m)

  pub over_leases-Distinct :
      (f : LeaseManager → LeaseManager × Bool) (m : Map String (SourceRecord J T))
      → Distinct m
      → Distinct (over_leases f m).0
  over_leases-Distinct f [] d = tt
  over_leases-Distinct f ((i, r) ∷ m) d =
      (over_leases-absent f i m d.0, over_leases-Distinct f m d.1)

  pub over_leases-each :
      (lim : Limits) (f : LeaseManager → LeaseManager × Bool) (m : Map String (SourceRecord J T))
      → Every (IsRecord lim) m
      → Every (IsRecord lim) (over_leases f m).0
  over_leases-each lim f [] a = tt
  over_leases-each lim f ((i, r) ∷ m) a =
      (record { ring = a.0.ring; based = a.0.based }, over_leases-each lim f m a.1)

  describe_all-absent :
      (client : Option String) (now : ℕ) (k : String) (m : Map String (SourceRecord J T))
      → Map.get k m ≡ none
      → Map.get k (describe_all client now m).0 ≡ none
  unfolding Map.get describe_all
  describe_all-absent client now k [] h = refl
  describe_all-absent client now k ((i, r) ∷ m) h =
      ground (arith, describe_all-absent client now k m)

  pub describe_all-Distinct :
      (client : Option String) (now : ℕ) (m : Map String (SourceRecord J T))
      → Distinct m
      → Distinct (describe_all client now m).0
  unfolding describe_all
  describe_all-Distinct client now [] d = tt
  describe_all-Distinct client now ((i, r) ∷ m) d =
      (describe_all-absent client now i m d.0, describe_all-Distinct client now m d.1)

  pub describe_all-each :
      (lim : Limits) (client : Option String) (now : ℕ) (m : Map String (SourceRecord J T))
      → Every (IsRecord lim) m
      → Every (IsRecord lim) (describe_all client now m).0
  unfolding describe_all
  describe_all-each lim client now [] a = tt
  describe_all-each lim client now ((i, r) ∷ m) a =
      (record { ring = a.0.ring; based = a.0.based }, describe_all-each lim client now m a.1)
