-- ===== src/Registry/Continuity.antt =====
-- Snapshots that meet the stream, events that come twice, and sources that register again.
use pi_pilot.Base.{
  ℕ, suc, ◌≤◌, max, String, ◌≡◌, sym, ap, ◌∙◌, subst, ◌≢◌, ◌↔◌, ◌⊎◌, inl, inr, true, Option, none,
  some, List, [], ◌∷◌, arith, Option-cases, String_discrete, nat_key, string_key, keep_if,
}
use pi_pilot.Base.{pos}
use pi_pilot.Base.Map.{get-set_self}
use pi_pilot.Lease
use pi_pilot.Lease.{LeaseResult}
use pi_pilot.Replay.{SourceEvent, Limits, cleared}
use pi_pilot.Replay.Runs.{Runs, start, since}
use pi_pilot.Replay.Trim.{since-max}
use pi_pilot.Registry.State.{
  SourceDescriptor, SourceSnapshot, SourceRecord, Registry, exceeds, lookup, recorded, rejected,
  sequence_gap,
}
use pi_pilot.Registry.Metadata.{registered, register}
use pi_pilot.Registry.Streams.{JsonAccess, with_event, record_desktop_event}
use pi_pilot.Registry.Syncs.{meets, ends_at, is_continuous, after_snapshot, snapshot_is_continuous}
use pi_pilot.Registry.Leasing.{validate}
use pi_pilot.Registry.Invariant.{IsRecord, BaseAtMost}
use pi_pilot.Registry.Changes.{IsRegistry, found-IsRecord}

module _ {J : Type 0} where
  Runs-ends_at :
      (n last : ℕ) (e : SourceEvent J) (es : List (SourceEvent J))
      → Runs n (e ∷ es) last
      → ends_at (e ∷ es) last ≡ true
  Runs-ends_at n last e [] r = ground arith
  Runs-ends_at n last e (x ∷ es) r = Runs-ends_at (suc n) last x es r.1

  -- For a run that ends at `last`, the code's test says that the run begins right after the base.
  meets-Runs :
      (b last : ℕ) (es : List (SourceEvent J))
      → Runs (start last es) es last
      → (meets (pos b) last es ≡ true) ↔ Runs (suc b) es last
  meets-Runs b last [] r = (λ h. ground arith, λ h. ground arith)
  meets-Runs b last (e ∷ es) r =
      let fine = Runs-ends_at e.seq last e es r in
      (
        λ h. let first : e.seq ≡ suc b = ground arith in (first, rw (← first) r.1),
        λ h. ground (arith, fine),
      )

  base-le :
      (last b : ℕ) (o : Option (SourceSnapshot J)) (s : SourceSnapshot J)
      → BaseAtMost last o
      → o ≡ some s
      → s.base_seq ≡ pos b
      → b ≤ last
  base-le last b none s w h k = cc
  base-le last b (some t) s w h k = ground arith

  since-base :
      (b last : ℕ) (es : List (SourceEvent J))
      → Runs (start last es) es last
      → b ≤ last
      → Runs (start last (since b es)) (since b es) last
  since-base b last es r h =
      let e : max last b ≡ last = omega arith in
      subst (λ n. Runs (start n (since b es)) (since b es) n) e (since-max _ b last es r)

module _ {J T : Type 0} where
  continuous_found :
      (b : ℕ) (r : SourceRecord J T) (s : SourceSnapshot J)
      → r.snapshot ≡ some s
      → s.base_seq ≡ pos b
      → (is_continuous r ≡ true) ↔ (
          (s.epoch ≡ r.descriptor.epoch)
          × (meets (pos b) r.last_seq (since b r.ring.events) ≡ true))
  unfolding is_continuous
  continuous_found b r s e h = (λ c. ground arith, λ c. ground arith)

  after_snapshot-since :
      (b : ℕ) (r : SourceRecord J T) (s : SourceSnapshot J)
      → s.base_seq ≡ pos b
      → after_snapshot s r ≡ since b r.ring.events
  after_snapshot-since b r s k = ap (λ z. keep_if (λ e. exceeds e.seq z) r.ring.events) k

  -- The hub calls a snapshot continuous exactly when it is of the source's epoch and the events that
  -- the hub still has after its base are all of them: numbered from the one after the base up to the
  -- newest, with no gap.
  pub snapshot_continuous_iff :
      (lim : Limits) (g : Registry J T) (id : String) (r : SourceRecord J T) (s : SourceSnapshot J)
      (b : ℕ)
      → IsRegistry lim g
      → lookup g id ≡ some r
      → r.snapshot ≡ some s
      → s.base_seq ≡ pos b
      → (snapshot_is_continuous id g ≡ true)
        ↔ ((s.epoch ≡ r.descriptor.epoch) × Runs (suc b) (after_snapshot s r) r.last_seq)
  unfolding snapshot_is_continuous
  snapshot_continuous_iff lim g id r s b v e h k =
      rw (e, snapshot_is_continuous)
        (let c = continuous_found b r s h k in
          (
            λ t. ((c.0 t).0, subst (λ es. Runs (suc b) es r.last_seq) same_events (m.0 (c.0 t).1)),
            λ t. c.1 (t.0, m.1 (subst (λ es. Runs (suc b) es r.last_seq) (sym same_events) t.1)),
          ))
    where
      good : IsRecord lim r
      good = found-IsRecord lim id g r v e

      m :
          (meets (pos b) r.last_seq (since b r.ring.events) ≡ true)
          ↔ Runs (suc b) (since b r.ring.events) r.last_seq
      m = meets-Runs b r.last_seq (since b r.ring.events) (
          since-base b r.last_seq r.ring.events good.ring.runs
            (base-le r.last_seq b r.snapshot s good.based h k))

      same_events : since b r.ring.events ≡ after_snapshot s r
      same_events = sym (after_snapshot-since b r s k)

  -- What a second registration does to the stream of a source.
  abbrev pub Carries : SourceRecord J T → SourceRecord J T → Type 0
  Carries r r' = (r'.snapshot ≡ r.snapshot) × (r'.ring ≡ r.ring) × (r'.last_seq ≡ r.last_seq)

  abbrev pub StartsOver : SourceRecord J T → Type 0
  StartsOver r' = (r'.snapshot ≡ none) × (r'.ring ≡ cleared) × (r'.last_seq ≡ 0)

  validate_found :
      (id client : String) (lease_id : Option String) (fence : Option ℕ) (now : ℕ)
      (r : SourceRecord J T) (g : Registry J T)
      → lookup g id ≡ some r
      → (validate id client lease_id fence now g).1
        ≡ some (Lease.validate client lease_id fence now r.lease).1
  unfolding validate
  validate_found id client lease_id fence now r g e = ground arith

  registered_stream :
      (d : SourceDescriptor) (t : T) (r : SourceRecord J T)
      → ((r.descriptor.epoch ≡ d.epoch) × Carries r (registered d t (some r)))
        ⊎ ((r.descriptor.epoch ≢ d.epoch) × StartsOver (registered d t (some r)))
  unfolding registered
  registered_stream d t r = elim (String_discrete r.descriptor.epoch d.epoch) [
    | yes p ↦ inl (p, ground arith)
    | no n ↦ inr (n, ground arith)
  ]

  -- A source that registers again keeps its lease manager, also under another epoch: a lease
  -- validates, or is refused, as before. Under the same epoch its snapshot and its replay ring stay;
  -- under another one they start over, from number 0.
  pub register_again :
      (d : SourceDescriptor) (t : T) (r : SourceRecord J T) (g : Registry J T) (client : String)
      (lease_id : Option String) (fence : Option ℕ) (now : ℕ)
      → lookup g d.id ≡ some r
      → (r' : SourceRecord J T) × (lookup (register d t g) d.id ≡ some r')
        × ((validate d.id client lease_id fence now (register d t g)).1
            ≡ (validate d.id client lease_id fence now g).1)
        × (((r.descriptor.epoch ≡ d.epoch) × Carries r r')
            ⊎ ((r.descriptor.epoch ≢ d.epoch) × StartsOver r'))
  unfolding register registered
  register_again d t r g client lease_id fence now e = (
    registered d t (some r),
    found,
    validate_found d.id client lease_id fence now _ (register d t g) found
        ∙ sym (validate_found d.id client lease_id fence now r g e),
    registered_stream d t r,
  )
    where
      found : lookup (register d t g) d.id ≡ some (registered d t (some r))
      found = rw e (get-set_self d.id (registered d t (some r)) g.records)

module _ {J T : Type 0} (json : JsonAccess J) where
  desktop_event_facts :
      (g g' : Registry J T) (id epoch : String) (seq : ℕ) (payload : J) (e : SourceEvent J)
      → record_desktop_event json id epoch seq payload g ≡ (g', recorded e)
      → (r : SourceRecord J T) × (lookup g' id ≡ some r)
        × (r.descriptor.epoch ≡ epoch)
        × (r.last_seq ≡ seq)
  unfolding record_desktop_event
  desktop_event_facts g g' id epoch seq payload e h = elim (Option-cases (lookup g id)) [
    | inl missing ↦ absurd (ground arith)
    | inr (r, found) ↦
        let new : SourceEvent J = record {
          source_id = id;
          source_epoch = epoch;
          seq = seq;
          payload = payload;
        } in
        let r' : SourceRecord J T = with_event g.limits (json.text_length payload) new r in
        (r', ground (arith, get-set_self id r' g.records), ground arith, ground arith)
  ]

  -- The desktop's events are taken in order and once: one that the hub has recorded is refused when
  -- it comes a second time, whatever its payload is then.
  pub desktop_event_once :
      (g g' : Registry J T) (id epoch : String) (seq : ℕ) (payload again : J) (e : SourceEvent J)
      → record_desktop_event json id epoch seq payload g ≡ (g', recorded e)
      → record_desktop_event json id epoch seq again g' ≡ (g', rejected sequence_gap)
  unfolding record_desktop_event
  desktop_event_once g g' id epoch seq payload again e h =
      let (r, found, p, q) = desktop_event_facts g g' id epoch seq payload e h in
      rw (found, record_desktop_event) (ground arith)
