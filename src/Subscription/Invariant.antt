-- ===== src/Subscription/Invariant.antt =====
-- What holds of every subscription, and that opening one and asking for its pages keeps it.
use pi_pilot.Base.{
  ℕ, ◌+◌, ◌≤◌, String, ◌≡◌, refl, inl, inr, Bool, true, false, ◌||◌, Option, none, some, List, [],
  ◌∷◌, ◌++◌, arith, ltb, if◌then◌else◌, Bool-cases, Option-cases, nat_key, string_key, length,
}
use pi_pilot.Base.Map
use pi_pilot.Base.Map.{Map, Every, Every-get, Every-set, Every-delete}
use pi_pilot.Notify.Event.{NotificationEvent}
use pi_pilot.Subscription.State.{
  SubscribeRequest, SubscriptionState, Manager, Around, SubscribeResult,
}
use pi_pilot.Subscription.Paging.{
  batch_of, advanced, put_back, next_page, new_subscription, or_empty, subscribe, is_other_epoch,
  is_expired_cursor, is_other_scope,
}
use pi_pilot.Subscription.Pages.{batch_goes}
use pi_pilot.Subscription.Live.{
  on_event, drain_live_buffer, mark_ready, unsubscribe, unsubscribe_installation,
}

-- How long the JSON texts of events are together.
abbrev pub bytes_in : (NotificationEvent → ℕ) → List NotificationEvent → ℕ
bytes_in measure [] = 0
bytes_in measure (e ∷ es) = measure e + bytes_in measure es

pub bytes_in-snoc :
    (measure : NotificationEvent → ℕ) (es : List NotificationEvent) (e : NotificationEvent)
    → bytes_in measure (es ++ e ∷ []) ≡ bytes_in measure es + measure e
bytes_in-snoc measure [] e = omega arith
bytes_in-snoc measure (f ∷ es) e = omega (arith, bytes_in-snoc measure es e)

-- The buffer is counted and in its limits, of 256 events and a mebibyte of their JSON texts; a
-- subscription that is caught up stands at its tip or beyond; and one that is ready is caught up, with
-- nothing in its buffer and nothing lost.
pub record IsSubscription (measure : NotificationEvent → ℕ) (s : SubscriptionState) : Type 0 where
  pub few : length s.live_buffer ≤ 256
  pub counted : s.live_buffer_bytes ≡ bytes_in measure s.live_buffer
  pub small : bytes_in measure s.live_buffer ≤ 1048576
  pub at_tip : s.caught_up ≡ true → s.tip ≤ s.delivered
  pub ready_after :
      s.ready ≡ true → (s.caught_up ≡ true) × (s.live_buffer ≡ []) × (s.overflowed ≡ false)

abbrev pub IsManager : (NotificationEvent → ℕ) → Manager → Type 0
IsManager measure m = Every (IsSubscription measure) m.subscriptions

pub data Op : Type 0 where
  subscribes : Around → SubscribeRequest → Op
  asks : Around → String → Option ℕ → Op
  arrives : Around → NotificationEvent → Op
  drains : Around → String → Op
  becomes_ready : String → Op
  unsubscribes : String → Op
  disconnects : String → Op

-- The call finds the length of an event's JSON text, which is a function of the event.
abbrev pub IsMeasured : (NotificationEvent → ℕ) → Op → Type 0
IsMeasured measure (arrives a e) = a.json_length e ≡ measure e
IsMeasured measure (subscribes a r) = Unit
IsMeasured measure (asks a id version) = Unit
IsMeasured measure (drains a id) = Unit
IsMeasured measure (becomes_ready id) = Unit
IsMeasured measure (unsubscribes id) = Unit
IsMeasured measure (disconnects i) = Unit

abbrev pub AreMeasured : (NotificationEvent → ℕ) → List Op → Type 0
AreMeasured measure [] = Unit
AreMeasured measure (o ∷ os) = IsMeasured measure o × AreMeasured measure os

unfoldable pub apply : Op → Manager → Manager
apply (subscribes a r) m = (subscribe a r m).0
apply (asks a id version) m = (next_page a id version m).0
apply (arrives a e) m = (on_event a e m).0
apply (drains a id) m = (drain_live_buffer a id m).0
apply (becomes_ready id) m = (mark_ready id m).0
apply (unsubscribes id) m = unsubscribe id m
apply (disconnects installation) m = unsubscribe_installation installation m

unfoldable pub apply_all : List Op → Manager → Manager
apply_all [] m = m
apply_all (o ∷ os) m = apply_all os (apply o m)

abbrev pub new_manager : String → String → Manager
new_manager bridge epoch = record {
  subscriptions = [];
  generation_counter = 0;
  bridge_installation_id = bridge;
  event_epoch = epoch;
}

module _ (measure : NotificationEvent → ℕ) where
  -- What a call leaves, with its answer.
  pub record Keeps {R : Type 0} (r : Manager × R) : Type 0 where
    pub kept : IsManager measure r.0

  pub keeps : {R : Type 0} {m : Manager} {x : R} → IsManager measure m → Keeps (m, x)
  keeps u = record { kept = u }

  pub if-Keeps :
      {R : Type 0} (b : Bool) {x y : Manager × R} → Keeps x → Keeps y → Keeps (if b then x else y)
  if-Keeps true u v = u
  if-Keeps false u v = v

  or_true : (b c : Bool) → c ≡ true → (b || c) ≡ true
  or_true true c h = refl
  or_true false c h = h

  advanced-IsSubscription :
      (a : Around) (s : SubscriptionState)
      → IsSubscription measure s
      → IsSubscription measure (advanced (batch_of a s) s)
  advanced-IsSubscription a s v =
      let goes : s.delivered ≤ (batch_of a s).cursor = (batch_goes a s).0 in
      record {
        few = v.few;
        counted = v.counted;
        small = v.small;
        at_tip = λ h. elim (Bool-cases (ltb (batch_of a s).cursor s.tip)) [
          | inl t ↦ let before : s.caught_up ≡ true = ground arith in omega (arith, v.at_tip before)
          | inr f ↦ ground arith
        ];
        ready_after =
            λ r. (or_true _ _ (v.ready_after r).0, (v.ready_after r).1, (v.ready_after r).2);
      }

  pub put_back-IsManager :
      (s : SubscriptionState) (m : Manager)
      → IsSubscription measure s
      → IsManager measure m
      → IsManager measure (put_back s m)
  put_back-IsManager s m v u = Every-set (IsSubscription measure) s.id s m.subscriptions u v

  pub next_page-Keeps :
      (a : Around) (id : String) (version : Option ℕ) (m : Manager)
      → IsManager measure m
      → Keeps (next_page a id version m)
  unfolding next_page
  next_page-Keeps a id version m u = elim (Option-cases (Map.get id m.subscriptions)) [
    | inl n ↦ rw (n, next_page) (keeps u)
    | inr (s, h) ↦
        let v = Every-get (IsSubscription measure) id s m.subscriptions u h in
        rw (h, next_page)
          (if-Keeps (is_other_scope version s) (keeps u) (
            if-Keeps s.overflowed (keeps u)
              (keeps (put_back-IsManager _ m (advanced-IsSubscription a s v) u))))
  ]

  new-IsSubscription :
      (a : Around) (r : SubscribeRequest) (g : ℕ) → IsSubscription measure (new_subscription a r g)
  new-IsSubscription a r g = record {
    few = omega arith;
    counted = refl;
    small = omega arith;
    at_tip = λ h. ground arith;
    ready_after = λ h. absurd (ground arith);
  }

  or_empty-Keeps :
      (a : Around) (s : SubscriptionState) (r : Manager × Option SubscribeResult)
      → Keeps r
      → Keeps (or_empty a s r)
  or_empty-Keeps a s (m, none) u = keeps u.kept
  or_empty-Keeps a s (m, some x) u = keeps u.kept

  pub subscribe-Keeps :
      (a : Around) (r : SubscribeRequest) (m : Manager)
      → IsManager measure m
      → Keeps (subscribe a r m)
  unfolding subscribe
  subscribe-Keeps a r m u =
      let g = m.generation_counter + 1 in
      let s = new_subscription a r g in
      let counted : Manager = record m { generation_counter = g } in
      if-Keeps (is_other_epoch r.cursor m.event_epoch) (keeps u) (
        if-Keeps (is_expired_cursor r.cursor a.store) (keeps u) (
          or_empty-Keeps a s _ (
            next_page-Keeps a r.id (some r.scope_version) (put_back s counted)
              (put_back-IsManager s counted (new-IsSubscription a r g) u))))
