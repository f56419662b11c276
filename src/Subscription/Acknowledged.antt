-- ===== src/Subscription/Acknowledged.antt =====
-- What becomes of an acknowledgement.
use pi_pilot.Base.{
  same_eq, same_ne, ℕ, ◌≤◌, ◌<◌, ◌≡◌, refl, ◌≢◌, inl, inr, arith, ltb, Bool-cases, nat_key,
  string_key, same,
}
use pi_pilot.Notify.Store.{EventStore, Write, record_ack}
use pi_pilot.Notify.Acks.{acked, record_ack_forward}
use pi_pilot.Subscription.State.{Manager, tip}
use pi_pilot.Subscription.Live.{
  AckResult, ack_ok, epoch_mismatch, ack_beyond_tip, ack_not_persisted, AckRequest, ack,
}

-- What a result says of the request and of the store after it.
abbrev pub Answers : AckRequest → Manager → EventStore → EventStore × AckResult → Type 0
Answers r m s (t, ack_ok) =
    (r.event_epoch ≡ m.event_epoch) × (r.through ≤ tip s) × (r.through ≤ acked r.installation_id t)
Answers r m s (t, epoch_mismatch) = (r.event_epoch ≢ m.event_epoch) × (t ≡ s)
Answers r m s (t, ack_beyond_tip) = (r.event_epoch ≡ m.event_epoch) × (tip s < r.through) × (t ≡ s)
Answers r m s (t, ack_not_persisted) =
    (r.event_epoch ≡ m.event_epoch) × (r.through ≤ tip s) × (t.acks ≡ s.acks)

-- An acknowledgement is taken only for this epoch and for sequences that the store has given out,
-- and then the installation has acknowledged as far. Each refusal says what was wrong, and leaves all
-- acknowledgements as they were.
pub ack-Answers :
    (now : ℕ) (w : Write) (r : AckRequest) (m : Manager) (s : EventStore)
    → Answers r m s (ack now w r m s)
unfolding ack
ack-Answers now w r m s = elim (Bool-cases (same r.event_epoch m.event_epoch)) [
  | inr n ↦ rw n (same_ne r.event_epoch m.event_epoch n, refl)
  | inl e ↦
      let epoch : r.event_epoch ≡ m.event_epoch = same_eq r.event_epoch m.event_epoch e in
      elim (Bool-cases (ltb (tip s) r.through)) [
        | inl t ↦ rw (e, t) (epoch, (ground arith), refl)
        | inr f ↦
            let forward =
              record_ack_forward now r.through w r.installation_id r.event_epoch r.installation_id
                s in
            elim (Bool-cases (record_ack now w r.installation_id r.event_epoch r.through s).1) [
              | inl p ↦ rw (e, f, p) (epoch, (ground arith), forward.1 p)
              | inr p ↦ rw (e, f, p) (epoch, (ground arith), forward.2 p)
            ]
      ]
]
