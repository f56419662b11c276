-- ===== src/Registry/Invariant.antt =====
-- Every history of calls of the registry leaves each source with a gap-free, bounded replay ring.
use pi_pilot.Base.{
  ℕ, suc, ◌≤◌, String, ◌≡◌, refl, sym, subst, Bool, Option, none, some, arith, or_else,
  String_discrete, nat_key, string_key,
}
use pi_pilot.Base.{pos}
use pi_pilot.Replay.{Limits, cleared, SourceEvent}
use pi_pilot.Replay.Trim.{IsRing, cleared-IsRing, push-IsRing, filter-IsRing}
use pi_pilot.Registry.State.{SourceDescriptor, SourceSnapshot, SourceRecord, MetadataPatch}
use pi_pilot.Registry.Metadata.{patched, registered, restarted, moved_to, connected_as, with_patch}
use pi_pilot.Registry.Streams.{snapshot_at, with_event}

-- The base of a snapshot that is there lies at or before the last event.
abbrev pub BaseAtMost : {J : Type 0} → ℕ → Option (SourceSnapshot J) → Type 0
BaseAtMost last none = Unit {0}
BaseAtMost last (some s) = (b : ℕ) × (s.base_seq ≡ pos b) × (b ≤ last)

module _ {J T : Type 0} (lim : Limits) where
  pub record IsRecord (r : SourceRecord J T) : Type 0 where
    pub ring : IsRing lim r.descriptor.epoch r.last_seq r.ring
    pub based : BaseAtMost r.last_seq r.snapshot

  restarted-IsRecord : (epoch : String) (r : SourceRecord J T) → IsRecord (restarted epoch r)
  restarted-IsRecord epoch r = record { ring = cleared-IsRing lim epoch 0; based = tt }

  pub registered-IsRecord :
      (d : SourceDescriptor) (t : T) (old : Option (SourceRecord J T))
      → ((r : SourceRecord J T) → old ≡ some r → IsRecord r)
      → IsRecord (registered d t old)
  unfolding registered
  registered-IsRecord d t none h = record { ring = cleared-IsRing lim d.epoch 0; based = tt }
  registered-IsRecord d t (some r) h = elim (String_discrete r.descriptor.epoch d.epoch) [
    | yes e ↦ let v : IsRecord r = h r refl in ground (arith, v, cleared-IsRing lim d.epoch 0)
    | no n ↦ ground (arith, cleared-IsRing lim d.epoch 0)
  ]

  pub connected_as-IsRecord :
      (b : Bool) (epoch : Option String) (r : SourceRecord J T)
      → IsRecord r
      → IsRecord (connected_as b epoch r)
  unfolding connected_as moved_to
  connected_as-IsRecord b none r v = record { ring = v.ring; based = v.based }
  connected_as-IsRecord b (some epoch) r v = ground (arith, cleared-IsRing {J = J} lim epoch 0)

  pub with_patch-IsRecord :
      (p : MetadataPatch) (r : SourceRecord J T)
      → p.epoch ≡ none
      → IsRecord r
      → IsRecord (with_patch p r)
  unfolding patched
  with_patch-IsRecord p r h v = record {
    ring = subst (λ x. IsRing lim (or_else x r.descriptor.epoch) r.last_seq r.ring) (sym h) v.ring;
    based = v.based;
  }

  pub snapshot_at-IsRecord :
      (s : SourceSnapshot J) (b : ℕ) (r : SourceRecord J T)
      → s.base_seq ≡ pos b
      → IsRecord r
      → IsRecord (snapshot_at s b r)
  unfolding snapshot_at
  snapshot_at-IsRecord s b r h v = ground (
    arith,
    filter-IsRing lim s.epoch b r.last_seq r.ring,
    filter-IsRing lim s.epoch b 0 (cleared {J = J}),
    cleared-IsRing {J = J} lim s.epoch 0,
  )

  pub with_event-IsRecord :
      (size : ℕ) (e : SourceEvent J) (r : SourceRecord J T)
      → e.seq ≡ suc r.last_seq
      → e.source_epoch ≡ r.descriptor.epoch
      → IsRecord r
      → IsRecord (with_event lim size e r)
  with_event-IsRecord size e r h k v =
      ground (arith, push-IsRing lim r.descriptor.epoch r.last_seq size e r.ring)
