-- ===== src/Registry/Leasing.antt =====
-- The lease methods of `SourceRegistry`, and `list`, which looks at the leases.
use pi_pilot.Base.{
  ℕ, String, Bool, true, false, Option, none, some, List, [], ◌∷◌, if◌then◌else◌, or_else, nat_key,
  string_key, same,
}
use pi_pilot.Base.Map.{Map}
use pi_pilot.Lease
use pi_pilot.Lease.{LeaseManager, LeaseResult, PublicOwnerState}
use pi_pilot.Registry.State.{
  SourceDescriptor, SourceRecord, Registry, SourceKind, headless, desktop, lookup, put_record,
}

pub record ClientView : Type 0 where
  pub descriptor : SourceDescriptor
  pub owner : PublicOwnerState
  pub owned_by_you : Bool

-- `clientId ? … : false`: no client, or an empty one, owns nothing, and the lease is not looked at.
owned_by : Option String → ℕ → LeaseManager → LeaseManager × Bool
owned_by none now m = (m, false)
owned_by (some client) now m = if same client "" then (m, false) else Lease.is_owned_by client now m

module _ {J T : Type 0} where
  -- Lease calls go to the manager of the source; `none` is `undefined`.
  abbrev pub with_lease {ℓ} :
      {A : Type ℓ}
      → (LeaseManager → LeaseManager × A)
      → String
      → Registry J T
      → Registry J T × Option A
  with_lease f id g = elim (lookup g id) [
    | none ↦ (g, none)
    | some r ↦ let (m, a) = f r.lease in (put_record g id (record r { lease = m }), some a)
  ]

  unfoldable pub acquire :
      String → String → String → ℕ → Bool → ℕ → Registry J T → Registry J T × Option LeaseResult
  acquire uuid id client ttl force now = with_lease (Lease.acquire uuid client ttl force now) id

  unfoldable pub renew :
      String → String → String → ℕ → ℕ → ℕ → Registry J T → Registry J T × Option LeaseResult
  renew id client lease_id fence ttl now = with_lease (Lease.renew client lease_id fence ttl now) id

  unfoldable pub validate :
      String
      → String
      → Option String
      → Option ℕ
      → ℕ
      → Registry J T
      → Registry J T × Option LeaseResult
  validate id client lease_id fence now = with_lease (Lease.validate client lease_id fence now) id

  unfoldable pub release :
      String → String → Option String → Option ℕ → ℕ → Registry J T → Registry J T × Bool
  release id client lease_id fence now g =
      let (g', done) = with_lease (Lease.release client lease_id fence now) id g in
      (g', or_else done false)

  -- The loop of `releaseClient` and of `expireLeases`, with the ids for which the call said yes.
  abbrev pub over_leases :
      (LeaseManager → LeaseManager × Bool)
      → Map String (SourceRecord J T)
      → Map String (SourceRecord J T) × List String
  over_leases f [] = ([], [])
  over_leases f ((id, r) ∷ rs) =
      let (m, done) = f r.lease in
      let (rs', ids) = over_leases f rs in
      ((id, record r { lease = m }) ∷ rs', if done then id ∷ ids else ids)

  unfoldable pub release_client : String → ℕ → Registry J T → Registry J T × List String
  release_client client now g =
      let (rs, ids) = over_leases (Lease.release_client client now) g.records in
      (record g { records = rs }, ids)

  unfoldable pub expire_leases : ℕ → Registry J T → Registry J T × List String
  expire_leases now g =
      let (rs, ids) = over_leases (Lease.expire now) g.records in (record g { records = rs }, ids)

  -- `describeForClient`
  described : Option String → ℕ → SourceRecord J T → SourceRecord J T × ClientView
  unfolding owned_by
  described client now r =
      let (m, owner) = Lease.public_state now r.lease in
      let (m', yours) = owned_by client now m in
      (
        record r { lease = m' },
        record { descriptor = r.descriptor; owner = owner; owned_by_you = yours },
      )

  unfoldable pub describe_all :
      Option String
      → ℕ
      → Map String (SourceRecord J T)
      → Map String (SourceRecord J T) × List ClientView
  unfolding described
  describe_all client now [] = ([], [])
  describe_all client now ((id, r) ∷ rs) =
      let (r', view) = described client now r in
      let (rs', views) = describe_all client now rs in ((id, r') ∷ rs', view ∷ views)

-- The comparison of `list` is positive; `label_gt` is `a.localeCompare(b) > 0`, which depends on the
-- locale. Desktop sources come first.
abbrev pub comes_after : (String → String → Bool) → ClientView → ClientView → Bool
comes_after label_gt a b = kinds a.descriptor.kind b.descriptor.kind
  where
    kinds : SourceKind → SourceKind → Bool
    kinds desktop headless = false
    kinds headless desktop = true
    kinds _ _ = label_gt a.descriptor.label b.descriptor.label

-- The sort of the language is stable, and so is this one.
unfoldable pub insert_view :
    (String → String → Bool) → ClientView → List ClientView → List ClientView
insert_view label_gt v [] = v ∷ []
insert_view label_gt v (w ∷ ws) =
    if comes_after label_gt v w then w ∷ insert_view label_gt v ws else v ∷ w ∷ ws

unfoldable pub sort_views : (String → String → Bool) → List ClientView → List ClientView
unfolding insert_view
sort_views label_gt [] = []
sort_views label_gt (v ∷ vs) = insert_view label_gt v (sort_views label_gt vs)

module _ {J T : Type 0} (label_gt : String → String → Bool) where
  unfoldable pub list_sources : Option String → ℕ → Registry J T → Registry J T × List ClientView
  unfolding describe_all sort_views
  list_sources client now g =
      let (rs, views) = describe_all client now g.records in
      (record g { records = rs }, sort_views label_gt views)
