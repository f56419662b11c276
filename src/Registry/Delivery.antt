-- ===== src/Registry/Delivery.antt =====
-- What `sync` sends a client that reconnects.
use pi_pilot.Base.{
  ℕ, suc, ◌≤◌, String, ◌≡◌, refl, sym, ap, ◌∙◌, subst, true, false, Option, some, List, [], ◌∷◌,
  arith, ltb, if◌then◌else◌, nat_key, string_key,
}
use pi_pilot.Base.Map
use pi_pilot.Base.Map.{get-set_self}
use pi_pilot.Replay.{SourceEvent, Limits, can_replay, covers}
use pi_pilot.Replay.Runs.{Runs, start, since, since-Runs}
use pi_pilot.Replay.Trim.{IsRing, AllOf, AllOf-keep_if, since-push, start-push, push-IsRing}
use pi_pilot.Registry.State.{SourceRecord, HubCursor, replay, Registry, lookup, recorded}
use pi_pilot.Registry.Streams.{JsonAccess, next_event, with_event, record_local_event}
use pi_pilot.Registry.Syncs.{without_replay, sync_record, sync}
use pi_pilot.Registry.Changes.{IsRegistry, found-IsRecord}

module _ {J T : Type 0} where
  -- The cursor lies in the stream: not before what the ring still has, and not past its end.
  abbrev pub InRing : ℕ → SourceRecord J T → Type 0
  InRing seq r = (start r.last_seq r.ring.events ≤ suc seq) × (seq ≤ r.last_seq)

  can_replay-InRing :
      (r : SourceRecord J T) (seq : ℕ) → can_replay r.ring r.last_seq seq ≡ true → InRing seq r
  unfolding can_replay
  can_replay-InRing r seq h = covered r.ring.events h
    where
      covered :
          (es : List (SourceEvent J))
          → (if ltb r.last_seq seq then false else covers es r.last_seq seq) ≡ true
          → (start r.last_seq es ≤ suc seq) × (seq ≤ r.last_seq)
      covered [] h = ground arith
      covered (e ∷ es) h = ground arith

  without_replay-ne :
      (r : SourceRecord J T) (es : List (SourceEvent J)) → without_replay r ≡ replay es → ⊥
  unfolding without_replay
  without_replay-ne r es h = ground arith

  replay_facts :
      (hub_id id : String) (c : HubCursor) (r : SourceRecord J T) (es : List (SourceEvent J))
      → sync_record hub_id id (some c) r ≡ replay es
      → (es ≡ since c.seq r.ring.events) × (c.source_epoch ≡ r.descriptor.epoch) × InRing c.seq r
  unfolding sync_record
  replay_facts hub_id id c r es h =
      ground (arith, can_replay-InRing r c.seq, without_replay-ne r es)

  sync_found :
      (g : Registry J T) (id : String) (cursor : Option HubCursor) (r : SourceRecord J T)
      → lookup g id ≡ some r
      → sync id cursor g ≡ some (sync_record g.hub_id id cursor r)
  unfolding sync
  sync_found g id cursor r e = rw (e, sync) refl

  replay_of_sync :
      (g : Registry J T) (id : String) (c : HubCursor) (r : SourceRecord J T)
      (es : List (SourceEvent J))
      → lookup g id ≡ some r
      → sync id (some c) g ≡ some (replay es)
      → sync_record g.hub_id id (some c) r ≡ replay es
  replay_of_sync g id c r es e h =
      let q : some (sync_record g.hub_id id (some c) r) ≡ some (replay es) =
        sym (sync_found g id (some c) r e) ∙ h in
      cc

  -- A replay is complete: in a consistent registry, the events that `sync` replays to a cursor are
  -- of the cursor's epoch and are numbered from the one after the cursor up to the newest of the
  -- source, with no gap.
  pub replay_complete :
      (lim : Limits) (g : Registry J T) (id : String) (c : HubCursor) (r : SourceRecord J T)
      (es : List (SourceEvent J))
      → IsRegistry lim g
      → lookup g id ≡ some r
      → sync id (some c) g ≡ some (replay es)
      → (c.source_epoch ≡ r.descriptor.epoch)
        × AllOf c.source_epoch es
        × Runs (suc c.seq) es r.last_seq
  replay_complete lim g id c r es v e h =
      let (p, q, w) = replay_facts g.hub_id id c r es (replay_of_sync g id c r es e h) in
      let k = found-IsRecord lim id g r v e in
      (
        q,
        rw (p, q)
            (AllOf-keep_if (λ x. ltb c.seq x.seq) r.descriptor.epoch r.ring.events k.ring.current),
        rw p (since-Runs _ c.seq r.last_seq r.ring.events k.ring.runs w.0 w.1),
      )

  InRing-can_replay :
      (r : SourceRecord J T) (seq : ℕ) → InRing seq r → can_replay r.ring r.last_seq seq ≡ true
  unfolding can_replay
  InRing-can_replay r seq h = covered r.ring.events h
    where
      covered :
          (es : List (SourceEvent J))
          → (start r.last_seq es ≤ suc seq) × (seq ≤ r.last_seq)
          → (if ltb r.last_seq seq then false else covers es r.last_seq seq) ≡ true
      covered [] h = ground arith
      covered (e ∷ es) h = ground arith

  -- A client is served from the ring whenever that is possible: a cursor of this hub, source and
  -- epoch gets a replay, of exactly the events after it, if it lies in the ring.
  pub replay_available :
      (g : Registry J T) (id : String) (c : HubCursor) (r : SourceRecord J T)
      → lookup g id ≡ some r
      → c.hub_id ≡ g.hub_id
      → c.source_id ≡ id
      → c.source_epoch ≡ r.descriptor.epoch
      → InRing c.seq r
      → sync id (some c) g ≡ some (replay (since c.seq r.ring.events))
  unfolding sync_record
  replay_available g id c r e p q w h =
      sync_found g id (some c) r e ∙ ap some (ground (arith, InRing-can_replay r c.seq h))

  module _ (json : JsonAccess J) where
    local_event_found :
        (g : Registry J T) (id : String) (payload : J) (r : SourceRecord J T)
        → lookup g id ≡ some r
        → record_local_event json id payload g ≡ (
          record g {
            records =
                Map.set id
                  (with_event g.limits (json.text_length payload) (next_event id payload r) r)
                  g.records;
          },
          recorded (next_event id payload r),
        )
    unfolding record_local_event
    local_event_found g id payload r e = rw (e, record_local_event) refl

    -- Live delivery: a client whose cursor stands at the newest event of a source gets, once the hub
    -- has recorded another event of that source, just this event, numbered one higher.
    pub next_event_delivered :
        (g : Registry J T) (id : String) (c : HubCursor) (payload : J) (r : SourceRecord J T)
        → 1 ≤ g.limits.replay_capacity
        → IsRegistry g.limits g
        → lookup g id ≡ some r
        → c.hub_id ≡ g.hub_id
        → c.source_id ≡ id
        → c.source_epoch ≡ r.descriptor.epoch
        → c.seq ≡ r.last_seq
        → sync id (some c) (record_local_event json id payload g).0
          ≡ some (replay (next_event id payload r ∷ []))
    next_event_delivered g id c payload r room v e p q w h =
        rw (local_event_found g id payload r e) (
          replay_available _ id c r' (get-set_self id r' g.records) p q w
            (subst (λ n. InRing n r') (sym h) (begins, omega arith))
          ∙ ap (λ es. some (replay es))
              (subst (λ n. since n r'.ring.events ≡ event ∷ []) (sym h) alone))
      where
        event : SourceEvent J
        event = next_event id payload r

        r' : SourceRecord J T
        r' = with_event g.limits (json.text_length payload) event r

        good : IsRing g.limits r.descriptor.epoch (suc r.last_seq) r'.ring
        good =
            push-IsRing g.limits r.descriptor.epoch r.last_seq _ event r.ring
              (found-IsRecord g.limits id g r v e).ring refl refl

        begins : start (suc r.last_seq) r'.ring.events ≤ suc r.last_seq
        begins = start-push g.limits r.descriptor.epoch r.last_seq _ event r.ring room good

        alone : since r.last_seq r'.ring.events ≡ event ∷ []
        alone = since-push g.limits r.descriptor.epoch r.last_seq _ event r.ring room good
