-- ===== src/Subscription/Arrivals.antt =====
-- Events that arrive before a subscription is ready are all there when its buffer is drained.
use pi_pilot.Base.{
  ℕ, ◌≤◌, ◌<◌, max, ◌≡◌, refl, ap, ◌∙◌, ◌⊎◌, inl, inr, false, not, some, List, [], ◌∷◌, arith, leb,
  Bool-cases, nat_key, string_key, keep_if,
}
use pi_pilot.Base.Map
use pi_pilot.Base.Map.{Map}
use pi_pilot.Notify.Event.{NotificationEvent}
use pi_pilot.Subscription.State.{SubscriptionState, Manager, Around, matches_scope}
use pi_pilot.Subscription.Paging.{sequences_of}
use pi_pilot.Subscription.Live.{
  DrainedLiveEvents, drain_from, drained, drain_resync, also_skipped, also_event, drain_live_buffer,
}
use pi_pilot.Subscription.Waiting.{
  arrive, get-arrive, in_scope, in_scope_in, in_scope_out, offer_all, offer_all-Waits,
}
use pi_pilot.Subscription.Full.{FindsFull, offer_all-FindsFull}

-- The sequences go up, from after the first.
abbrev pub IsAscending : ℕ → List NotificationEvent → Type 0
IsAscending n [] = Unit
IsAscending n (e ∷ es) = (n < e.sequence) × IsAscending e.sequence es

IsAscending-below :
    (n k : ℕ) (es : List NotificationEvent) → n ≤ k → IsAscending k es → IsAscending n es
IsAscending-below n k [] h u = tt
IsAscending-below n k (e ∷ es) h u = (omega (arith, u.0), u.1)

IsAscending-scope :
    (s : SubscriptionState) (n : ℕ) (es : List NotificationEvent)
    → IsAscending n es
    → IsAscending n (in_scope s es)
IsAscending-scope s n [] u = tt
IsAscending-scope s n (e ∷ es) u = elim (Bool-cases (matches_scope e s.scopes)) [
  | inl t ↦ rw (in_scope_in s e es t) (u.0, IsAscending-scope s e.sequence es u.1)
  | inr f ↦
      rw (in_scope_out s e es f)
        (IsAscending-scope s n es (IsAscending-below n e.sequence es (omega (arith, u.0)) u.1))
]

abbrev pub fresh_ones : Around → List NotificationEvent → List NotificationEvent
fresh_ones a es = keep_if (λ e. not (a.is_stale_event e)) es

abbrev pub stale_ones : Around → List NotificationEvent → List NotificationEvent
stale_ones a es = keep_if a.is_stale_event es

-- What a drain of events in order gives.
abbrev pub all_of : Around → List NotificationEvent → DrainedLiveEvents
all_of a es = record { events = fresh_ones a es; skipped = sequences_of (stale_ones a es) }

drain_from-all :
    (a : Around) (n : ℕ) (es : List NotificationEvent)
    → IsAscending n es
    → (drain_from a n es).0 ≡ all_of a es
unfolding drain_from
drain_from-all a n [] u = refl
drain_from-all a n (e ∷ es) u =
    let after : leb e.sequence n ≡ false = ground (arith, u.0) in
    let at : max n e.sequence ≡ e.sequence = omega (arith, u.0) in
    let rest = drain_from-all a e.sequence es u.1 in
    elim (Bool-cases (a.is_stale_event e)) [
      | inl t ↦ rw (after, at, t, keep_if) (ap (also_skipped e.sequence) rest)
      | inr f ↦ rw (after, at, f, keep_if) (ap (also_event e) rest)
    ]

-- Whatever events arrive, in the order of their sequences, at a subscription that is not ready, has
-- lost nothing and has an empty buffer: a drain then gives every one of them that is in its scope, in
-- order and once, the stale ones as skipped sequences; or it asks the client to start again, and then
-- 256 events in scope were waiting when one more came, or it made them more than a mebibyte.
pub live_complete :
    (a : Around) (es : List NotificationEvent) (m : Manager) (s : SubscriptionState)
    → Map.get s.id m.subscriptions ≡ some s
    → s.ready ≡ false
    → s.overflowed ≡ false
    → s.live_buffer ≡ []
    → s.live_buffer_bytes ≡ 0
    → IsAscending s.delivered es
    → ((drain_live_buffer a s.id (arrive a es m)).1 ≡ drained (all_of a (in_scope s es)))
      ⊎ (((drain_live_buffer a s.id (arrive a es m)).1 ≡ drain_resync s.id) × FindsFull a s es)
unfolding drain_live_buffer
live_complete a es m s h r whole empty no_bytes u =
    let t = offer_all a es s in
    let found = get-arrive a es s.id s m h in
    let waits = offer_all-Waits a es s r in
    elim (Bool-cases t.overflowed) [
      | inl o ↦ inr (
        rw (found, o, drain_live_buffer) (ap drain_resync waits.id),
        offer_all-FindsFull a es s r whole o,
      )
      | inr o ↦
          let held : t.live_buffer ≡ in_scope s es = waits.held o ∙ rw empty refl in
          inl (
            rw (found, o, held, waits.delivered, drain_live_buffer)
              (ap drained (
                drain_from-all a s.delivered (in_scope s es)
                  (IsAscending-scope s s.delivered es u))))
    ]
