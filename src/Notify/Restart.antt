-- ===== src/Notify/Restart.antt =====
-- The store after a restart: `load` replays the log and prunes what is past.
use pi_pilot.Base.{
  ℕ, ◌+◌, ◌≡◌, ◌≢◌, refl, ap, ◌∙◌, subst, inl, inr, Bool, true, false, none, some, List, [], ◌∷◌,
  arith, if◌then◌else◌, ℕ_discrete, Bool-cases, Option-cases, nat_key, string_key,
}
use pi_pilot.Base.Map
use pi_pilot.Base.Map.{Map, Distinct, Distinct-set, Distinct-delete, get-delete_ne}
use pi_pilot.Notify.Event.{NotificationEvent}
use pi_pilot.Notify.Store.{
  Line, whole, damaged, LogRecord, event_line, ack_line, generation_line, tombstone_line,
  delivery_line, Write, StoreOptions, EventStore, new_store, append_sync, take_in,
}
use pi_pilot.Notify.Log.{
  maybe_compact, is_compact_due, compact, apply_record, apply_line, replay_lines, bury, is_past,
  prune_each, prune_expired, load,
}

-- What a restart finds: the options, the clock, how the writes of its tombstones end, the size of the
-- file, and whether a compaction succeeds.
pub record Restart : Type 0 where
  pub options : StoreOptions
  pub now : ℕ
  pub writes : ℕ → Write
  pub bytes : ℕ
  pub done : Bool

-- The log replayed, before anything is pruned.
abbrev pub replayed : EventStore → EventStore
replayed s = replay_lines s.log.lines (new_store s.log)

-- The replayed store without the events that are past.
abbrev pub pruned : Restart → EventStore → EventStore
pruned r s = (prune_each r.options r.now r.writes (replayed s).events (replayed s)).0

abbrev pub after_restart : Restart → EventStore → EventStore
after_restart r s = load r.options r.now r.writes r.bytes r.done (new_store s.log)

append_sync-kept :
    (w : Write) (r : LogRecord) (s : EventStore)
    → ((append_sync w r s).events ≡ s.events)
      × ((append_sync w r s).last_sequence ≡ s.last_sequence)
unfolding append_sync
append_sync-kept w r s = ground arith

-- The store without one event, whose tombstone was written.
abbrev without_event : (ℕ → Write) → ℕ → NotificationEvent → EventStore → EventStore
without_event writes k e s =
    let s' = append_sync (writes k) (tombstone_line k) s in
    record s' {
      event_id_index = Map.delete e.event_id s'.event_id_index;
      events = Map.delete k s'.events;
      tombstones = s'.tombstones + 1;
    }

prune_each-last :
    (o : StoreOptions) (now : ℕ) (writes : ℕ → Write) (m : Map ℕ NotificationEvent) (s : EventStore)
    → (prune_each o now writes m s).0.last_sequence ≡ s.last_sequence
unfolding prune_each
prune_each-last o now writes [] s = refl
prune_each-last o now writes ((k, e) ∷ m) s =
    let gone = prune_each-last o now writes m (without_event writes k e s) in
    let stays = prune_each-last o now writes m s in
    elim (Bool-cases (is_past o now e)) [
      | inl t ↦ rw t (gone ∙ (append_sync-kept (writes k) (tombstone_line k) s).1)
      | inr f ↦ rw f stays
    ]

-- Whatever stands under a key is the one event.
abbrev Only : ℕ → NotificationEvent → Map ℕ NotificationEvent → Type 0
Only k e [] = Unit
Only k e ((j, f) ∷ m) = (j ≡ k → f ≡ e) × Only k e m

absent-Only :
    (k : ℕ) (e : NotificationEvent) (m : Map ℕ NotificationEvent) → Map.get k m ≡ none → Only k e m
unfolding Map.get
absent-Only k e [] h = tt
absent-Only k e ((j, f) ∷ m) h =
    ((λ q. absurd (ground (arith, h, q))), absent-Only k e m (ground (arith, h)))

found-Only :
    (k : ℕ) (e : NotificationEvent) (m : Map ℕ NotificationEvent)
    → Distinct m
    → Map.get k m ≡ some e
    → Only k e m
unfolding Map.get
found-Only k e [] d h = tt
found-Only k e ((j, f) ∷ m) d h = elim (ℕ_discrete j k) [
  | yes q ↦
      let here : f ≡ e = ground (arith, h, q) in
      ((λ p. here), absent-Only k e m (subst (λ i. Map.get i m ≡ none) q d.0))
  | no n ↦ ((λ q. absurd (n q)), found-Only k e m d.1 (ground (arith, h, n)))
]

prune_each-found :
    (o : StoreOptions) (now : ℕ) (writes : ℕ → Write) (k : ℕ) (e : NotificationEvent)
    (m : Map ℕ NotificationEvent) (s : EventStore)
    → Only k e m
    → is_past o now e ≡ false
    → Map.get k s.events ≡ some e
    → Map.get k (prune_each o now writes m s).0.events ≡ some e
unfolding prune_each
prune_each-found o now writes k e [] s u p h = h
prune_each-found o now writes k e ((j, f) ∷ m) s u p h = elim (Bool-cases (is_past o now f)) [
  | inr g ↦ rw g (prune_each-found o now writes k e m s u.1 p h)
  | inl t ↦
      let other : j ≢ k = λ q. past_not f e t p (u.0 q) in
      let kept = (append_sync-kept (writes j) (tombstone_line j) s).0 in
      rw t (
        prune_each-found o now writes k e m (without_event writes j f s) u.1 p (
          get-delete_ne j k (append_sync (writes j) (tombstone_line j) s).events other
          ∙ ap (Map.get k) kept
          ∙ h))
]
  where
    past_not :
        (f e : NotificationEvent) → is_past o now f ≡ true → is_past o now e ≡ false → f ≡ e → ⊥
    past_not f e t p q = let same_past = ap (is_past o now) q in cc

bury-Distinct : (n : ℕ) (s : EventStore) → Distinct s.events → Distinct (bury n s).events
bury-Distinct n s d = elim (Option-cases (Map.get n s.events)) [
  | inl h ↦ rw (h, bury) d
  | inr (e, h) ↦ rw (h, bury) (Distinct-delete n s.events d)
]

apply_line-Distinct :
    (l : Line) (s : EventStore) → Distinct s.events → Distinct (apply_line l s).events
unfolding apply_record take_in
apply_line-Distinct damaged s d = d
apply_line-Distinct (whole (event_line e)) s d = Distinct-set e.sequence e s.events d
apply_line-Distinct (whole (ack_line a)) s d = ground (arith, d)
apply_line-Distinct (whole (generation_line g)) s d = d
apply_line-Distinct (whole (tombstone_line n)) s d = bury-Distinct n s d
apply_line-Distinct (whole delivery_line) s d = d

replay_lines-Distinct :
    (ls : List Line) (s : EventStore) → Distinct s.events → Distinct (replay_lines ls s).events
unfolding replay_lines
replay_lines-Distinct [] s d = d
replay_lines-Distinct (l ∷ ls) s d =
    replay_lines-Distinct ls (apply_line l s) (apply_line-Distinct l s d)

maybe_compact-last :
    (o : StoreOptions) (bytes : ℕ) (done : Bool) (s : EventStore)
    → (maybe_compact o bytes done s).last_sequence ≡ s.last_sequence
unfolding maybe_compact compact
maybe_compact-last o bytes done s = elim (Bool-cases (is_compact_due o bytes s)) [
  | inr f ↦ rw f refl
  | inl t ↦ rw t (by_end done)
]
  where
    by_end : (b : Bool) → (compact o b s).0.last_sequence ≡ s.last_sequence
    by_end true = refl
    by_end false = refl

-- What is pruned makes no difference to the sequence.
pub after_restart-last :
    (r : Restart) (s : EventStore) → (after_restart r s).last_sequence ≡ (replayed s).last_sequence
unfolding load prune_expired
after_restart-last r s =
    by_test _ ∙ prune_each-last r.options r.now r.writes (replayed s).events (replayed s)
  where
    by_test :
        (b : Bool)
        → (if b
            then maybe_compact r.options r.bytes r.done (pruned r s)
            else pruned r s).last_sequence
          ≡ (pruned r s).last_sequence
    by_test true = maybe_compact-last r.options r.bytes r.done (pruned r s)
    by_test false = refl

-- An event of the log that is not past is there after a restart that compacts nothing.
pub after_restart-found :
    (r : Restart) (e : NotificationEvent) (k : ℕ) (s : EventStore)
    → Map.get k (replayed s).events ≡ some e
    → is_past r.options r.now e ≡ false
    → is_compact_due r.options r.bytes (pruned r s) ≡ false
    → Map.get k (after_restart r s).events ≡ some e
unfolding load prune_expired maybe_compact
after_restart-found r e k s h p small = rw small (
    same_either _ (
      prune_each-found r.options r.now r.writes k e (replayed s).events (replayed s)
        (found-Only k e (replayed s).events (replay_lines-Distinct s.log.lines (new_store s.log) tt)
          h)
        p h))
  where
    same_either :
        (b : Bool)
        → Map.get k (pruned r s).events ≡ some e
        → Map.get k (if b then pruned r s else pruned r s).events ≡ some e
    same_either true f = f
    same_either false f = f
