-- ===== src/Notify/Reuse.antt =====
-- Sequence numbers that are given out twice.
use pi_pilot.Base.{
  ℕ, ◌+◌, ◌≤◌, ◌<◌, ◌≡◌, refl, sym, ap, ◌∙◌, Bool, true, false, some, List, [], ◌∷◌, ◌++◌, arith,
  nat_key, string_key, length,
}
use pi_pilot.Base.Map
use pi_pilot.Base.Map.{Map, get-set_self}
use pi_pilot.Notify.Event.{NotificationEvent}
use pi_pilot.Notify.Store.{
  AckRecord, GenerationRecord, event_line, ack_line, generation_line, Write, synced, StoreOptions,
  EventStore, new_store, append_sync, is_synced, take_in, set_aside, next_sequence,
}
use pi_pilot.Notify.Log.{
  values, lines_of, kept_events, last_of, compact_lines, compact, append_event, flush_each,
  apply_record, replay_lines,
}
use pi_pilot.Notify.Durable.{failed_append_reuses, replay_lines-append}
use pi_pilot.Notify.Restart.{Restart, after_restart, after_restart-last}

failed_pending :
    (o : StoreOptions) (w : Write) (bytes : ℕ) (done : Bool) (e : NotificationEvent)
    (s : EventStore)
    → is_synced w ≡ false
    → length s.pending < o.max_pending
    → (append_event o w bytes done e s).0.pending ≡ s.pending ++ e ∷ []
unfolding append_event set_aside append_sync
failed_pending o w bytes done e s h l = ground arith

flush_two :
    (e f : NotificationEvent) (s : EventStore)
    → f.sequence ≡ e.sequence
    → (Map.get e.sequence (flush_each (synced ∷ synced ∷ []) (e ∷ f ∷ []) s).0.events ≡ some f)
      × ((flush_each (synced ∷ synced ∷ []) (e ∷ f ∷ []) s).1 ≡ 2)
unfolding flush_each take_in
flush_two e f s h =
    let m =
      (append_sync synced (event_line f)
        (take_in e (append_sync synced (event_line e) s))).events in
    (ap (λ k. Map.get k (Map.set f.sequence f m)) (sym h) ∙ get-set_self f.sequence f m, refl)

-- The store after the appends of two events have failed.
abbrev pub both_failed :
    StoreOptions
    → Write
    → ℕ
    → Bool
    → NotificationEvent
    → NotificationEvent
    → EventStore
    → EventStore
both_failed o w bytes done e f s =
    (append_event o w bytes done f (append_event o w bytes done e s).0).0

both_pending :
    (o : StoreOptions) (w : Write) (bytes : ℕ) (done : Bool) (e f : NotificationEvent)
    (s : EventStore)
    → is_synced w ≡ false
    → 2 ≤ o.max_pending
    → s.pending ≡ []
    → (both_failed o w bytes done e f s).pending ≡ e ∷ f ∷ []
both_pending o w bytes done e f s h l p =
    let none_yet = ap length p in
    let first = failed_pending o w bytes done e s h (omega arith) in
    let one : length (append_event o w bytes done e s).0.pending ≡ 1 =
      ap length (first ∙ ap (λ q. q ++ e ∷ []) p) in
    failed_pending o w bytes done f (append_event o w bytes done e s).0 h (omega arith)
    ∙ ap (λ q. q ++ f ∷ []) (first ∙ ap (λ q. q ++ e ∷ []) p)

-- Two events in a row that cannot be written, each made with the next sequence, are given the same
-- one. When both are flushed to disk later, the flush counts two events, and under their sequence
-- only the second is left: a reader of the store does not see the first.
pub flush_hides_first :
    (o : StoreOptions) (w : Write) (bytes : ℕ) (done : Bool) (e f : NotificationEvent)
    (s : EventStore)
    → is_synced w ≡ false
    → 2 ≤ o.max_pending
    → s.pending ≡ []
    → e.sequence ≡ next_sequence s
    → f.sequence ≡ next_sequence (append_event o w bytes done e s).0
    → (Map.get e.sequence
          (flush_each
            (synced ∷ synced ∷ [])
            (both_failed o w bytes done e f s).pending
            (both_failed o w bytes done e f s)).0.events
        ≡ some f)
      × ((flush_each
            (synced ∷ synced ∷ [])
            (both_failed o w bytes done e f s).pending
            (both_failed o w bytes done e f s)).1
          ≡ 2)
flush_hides_first o w bytes done e f s h l p q r = rw (both_pending o w bytes done e f s h l p) (
    flush_two e f (both_failed o w bytes done e f s)
      (r ∙ (failed_append_reuses o w bytes done e s h).1 ∙ sym q))

generations-sequence :
    (gs : List GenerationRecord) (s : EventStore)
    → (replay_lines (lines_of generation_line gs) s).last_sequence ≡ s.last_sequence
unfolding replay_lines apply_record
generations-sequence [] s = refl
generations-sequence (g ∷ gs) s = generations-sequence gs (apply_record (generation_line g) s)

ack-sequence :
    (a : AckRecord) (s : EventStore) → (apply_record (ack_line a) s).last_sequence ≡ s.last_sequence
unfolding apply_record
ack-sequence a s = ground arith

acks-sequence :
    (acks : List AckRecord) (s : EventStore)
    → (replay_lines (lines_of ack_line acks) s).last_sequence ≡ s.last_sequence
unfolding replay_lines
acks-sequence [] s = refl
acks-sequence (a ∷ rest) s = acks-sequence rest (apply_record (ack_line a) s) ∙ ack-sequence a s

kept_none : (o : StoreOptions) (s : EventStore) → s.events ≡ [] → kept_events o s ≡ []
unfolding kept_events
kept_none o s h = rw h (none_last o.max_events)
  where
    none_last : (n : ℕ) → last_of n [] ≡ []
    none_last n = ground arith

rest-sequence :
    (s t : EventStore) → (replay_lines (compact_lines [] s) t).last_sequence ≡ t.last_sequence
unfolding compact_lines
rest-sequence s t =
    ap (λ u. u.last_sequence)
      (replay_lines-append (lines_of generation_line (values s.generations))
        (lines_of ack_line (values s.acks)) t)
    ∙ acks-sequence (values s.acks) _
    ∙ generations-sequence (values s.generations) t

-- Once all events have expired, compacting the log forgets how far the sequence had come: after a
-- restart, whenever, the next event has number 1, whatever the installations have acknowledged.
pub compact_forgets_sequence :
    (o : StoreOptions) (s : EventStore) (restart : Restart)
    → s.events ≡ []
    → next_sequence (after_restart restart (compact o true s).0) ≡ 1
unfolding compact next_sequence
compact_forgets_sequence o s restart h =
    let r : (replay_lines (compact_lines (kept_events o s) s)
          (new_store (compact o true s).0.log)).last_sequence
        ≡ 0 =
      rw (kept_none o s h) (rest-sequence s _) in
    ap (λ n. n + 1) (after_restart-last restart (compact o true s).0 ∙ r)
