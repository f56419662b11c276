-- ===== src/Notify/Acks.antt =====
-- An acknowledgement never goes back.
use pi_pilot.Base.{
  ℕ, ◌≤◌, String, ◌≡◌, refl, sym, ap, subst, inl, inr, true, false, Option, none, some, arith,
  Bool-cases, String_discrete, nat_key, string_key,
}
use pi_pilot.Base.Map
use pi_pilot.Base.Map.{Map, get-set_self, get-set_ne}
use pi_pilot.Notify.Store.{
  AckRecord, LogRecord, ack_line, Write, EventStore, append_sync, is_synced, reaches, record_ack,
}

-- How far an installation has acknowledged.
abbrev pub through_of : Option AckRecord → ℕ
through_of none = 0
through_of (some a) = a.through

abbrev pub acked : String → EventStore → ℕ
acked i s = through_of (Map.get i s.acks)

append_sync-acks : (w : Write) (r : LogRecord) (s : EventStore) → (append_sync w r s).acks ≡ s.acks
unfolding append_sync
append_sync-acks w r s = ground arith

reaches-through : (o : Option AckRecord) (n : ℕ) → reaches o n ≡ true → n ≤ through_of o
reaches-through none n h = absurd (ground arith)
reaches-through (some a) n h = ground arith

below-through : (o : Option AckRecord) (n : ℕ) → reaches o n ≡ false → through_of o ≤ n
below-through none n h = omega arith
below-through (some a) n h = ground arith

set-acked :
    (i j : String) (r : AckRecord) (m : Map String AckRecord)
    → through_of (Map.get i m) ≤ r.through
    → through_of (Map.get j m) ≤ through_of (Map.get j (Map.set i r m))
set-acked i j r m h = elim (String_discrete i j) [
  | yes q ↦
      let g = ap through_of (get-set_self i r m) in
      subst (λ k. through_of (Map.get k m) ≤ through_of (Map.get k (Map.set i r m))) q (omega arith)
  | no n ↦ let g = ap through_of (get-set_ne i j r m n) in omega arith
]

le_of_eq : (a b : ℕ) → a ≡ b → a ≤ b
le_of_eq a b e = omega arith

-- Recording an acknowledgement takes no installation's back. Where it reports success the
-- installation has acknowledged at least that far, and where it reports failure the
-- acknowledgements in memory are as they were; the log may hold the line, or a part of it.
pub record_ack_forward :
    (now through : ℕ) (w : Write) (installation_id event_epoch j : String) (s : EventStore)
    → (acked j s ≤ acked j (record_ack now w installation_id event_epoch through s).0)
      × ((record_ack now w installation_id event_epoch through s).1 ≡ true
          → through
            ≤ acked installation_id (record_ack now w installation_id event_epoch through s).0)
      × ((record_ack now w installation_id event_epoch through s).1 ≡ false
          → (record_ack now w installation_id event_epoch through s).0.acks ≡ s.acks)
unfolding record_ack
record_ack_forward now through w i epoch j s =
    elim (Bool-cases (reaches (Map.get i s.acks) through)) [
      | inl h ↦ rw h (omega arith, (λ t. reaches-through _ through h), (λ f. refl))
      | inr h ↦
          let r : AckRecord = record {
            installation_id = i;
            event_epoch = epoch;
            through = through;
            at = now;
          } in
          let same_acks = append_sync-acks w (ack_line r) s in
          elim (Bool-cases (is_synced w)) [
            | inl q ↦
                rw (h, q, same_acks)
                  (
                    set-acked i j r s.acks (below-through _ through h),
                    (λ t. le_of_eq _ _ (sym (ap through_of (get-set_self i r s.acks)))),
                    (λ f. absurd (cc)),
                  )
            | inr q ↦ rw (h, q, same_acks) (omega arith, (λ t. absurd (cc)), (λ f. refl))
          ]
    ]
