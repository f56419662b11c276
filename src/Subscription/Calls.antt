-- ===== src/Subscription/Calls.antt =====
-- What holds of every subscription, whatever calls are made in whatever order.
use pi_pilot.Base.{ℕ, nat_key, string_key}
use pi_pilot.Base.Map
use pi_pilot.Base.Map.{Map, Every-set}
use pi_pilot.Notify.Event.{NotificationEvent}
use pi_pilot.Subscription.State.{SubscriptionState}
use pi_pilot.Subscription.Invariant.{IsSubscription}

module _ (measure : NotificationEvent → ℕ) where
  -- What becomes of one subscription.
  record Sound {R : Type 0} (r : SubscriptionState × R) : Type 0 where
    sound : IsSubscription measure r.0
