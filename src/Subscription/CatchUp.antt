-- ===== src/Subscription/CatchUp.antt =====
-- A client that asks for page after page.
use pi_pilot.Base.{
  if_yes, if_no, ℕ, zero, suc, ◌+◌, ◌-◌, ◌≤◌, ◌<◌, String, ◌≡◌, refl, sym, ap, ◌∙◌, inl, inr, Bool,
  true, false, not, Option, none, some, List, [], ◌∷◌, ◌++◌, arith, dec_le, ltb, if◌then◌else◌,
  Bool-cases, Option-cases, nat_key, string_key, keep_if,
}
use pi_pilot.Base.Map
use pi_pilot.Base.Map.{Map, get-set_self}
use pi_pilot.Notify.Event.{NotificationEvent}
use pi_pilot.Notify.Store.{EventStore}
use pi_pilot.Notify.Log.{range, range_from}
use pi_pilot.Subscription.State.{
  matches_scope, SubscriptionState, Around, is_left_out, Manager, SubscribeResult,
  notification_events, cursor_expired, scope_changed, resync_required,
}
use pi_pilot.Subscription.Paging.{Batch, batch_of, next_page, advanced, page_of, put_back}
use pi_pilot.Subscription.Pages.{batch_stays, batch_all, batch_goes, batch_moves}

-- What a subscription is to be told of: the events of the store that it does not leave out.
abbrev pub wanted : Around → SubscriptionState → List NotificationEvent → List NotificationEvent
wanted a s es = keep_if (λ e. not (is_left_out a s e)) es

wanted_in :
    (a : Around) (s : SubscriptionState) (e : NotificationEvent) (es : List NotificationEvent)
    → is_left_out a s e ≡ false
    → wanted a s (e ∷ es) ≡ e ∷ wanted a s es
wanted_in a s e es h = rw (keep_if, h) refl

wanted_out :
    (a : Around) (s : SubscriptionState) (e : NotificationEvent) (es : List NotificationEvent)
    → is_left_out a s e ≡ true
    → wanted a s (e ∷ es) ≡ wanted a s es
wanted_out a s e es h = rw (keep_if, h) refl

wanted-append :
    (a : Around) (s : SubscriptionState) (xs ys : List NotificationEvent)
    → wanted a s (xs ++ ys) ≡ wanted a s xs ++ wanted a s ys
wanted-append a s [] ys = refl
wanted-append a s (x ∷ xs) ys = elim (Bool-cases (is_left_out a s x)) [
  | inl t ↦
      wanted_out a s x (xs ++ ys) t ∙ (wanted-append a s xs ys ∙ rw (wanted_out a s x xs t) refl)
  | inr f ↦
      wanted_in a s x (xs ++ ys) f
      ∙ (ap (λ zs. x ∷ zs) (wanted-append a s xs ys) ∙ rw (wanted_in a s x xs f) refl)
]

range_from-add :
    (n i j : ℕ) (s : EventStore)
    → range_from n (i + j) s ≡ range_from n i s ++ range_from (n + i) j s
unfolding range_from
range_from-add n zero j s =
    let same_sum : 0 + j ≡ j = omega arith in
    let same_start : n + 0 ≡ n = omega arith in rw (same_sum, same_start) refl
range_from-add n (suc i) j s =
    let one_more : suc i + j ≡ suc (i + j) = omega arith in
    let shifted : n + suc i ≡ suc n + i = omega arith in
    elim (Option-cases (Map.get n s.events)) [
      | inl h ↦ rw (one_more, shifted, h, range_from) (range_from-add (suc n) i j s)
      | inr (e, h) ↦
          rw (one_more, shifted, h, range_from) (ap (λ zs. e ∷ zs) (range_from-add (suc n) i j s))
    ]

-- The events from one sequence to a second and from there to a third.
range-split :
    (i j k : ℕ) (s : EventStore) → i ≤ j → j ≤ k → range i k s ≡ range i j s ++ range j k s
unfolding range
range-split i j k s p q =
    let parts : k - i ≡ (j - i) + (k - j) = omega arith in
    let middle : suc i + (j - i) ≡ suc j = omega arith in
    rw parts (range_from-add (suc i) (j - i) (k - j) s ∙ rw middle refl)

range_missing :
    (c k : ℕ) (s : EventStore)
    → c < k
    → Map.get (suc c) s.events ≡ none
    → range c k s ≡ range (suc c) k s
unfolding range range_from
range_missing c k s h n =
    let rounds : k - c ≡ suc (k - (suc c)) = omega arith in rw (rounds, n, range_from) refl

range_present :
    (c k : ℕ) (e : NotificationEvent) (s : EventStore)
    → c < k
    → Map.get (suc c) s.events ≡ some e
    → range c k s ≡ e ∷ range (suc c) k s
unfolding range range_from
range_present c k e s h n =
    let rounds : k - c ≡ suc (k - (suc c)) = omega arith in rw (rounds, n, range_from) refl

range_empty : (c k : ℕ) (s : EventStore) → k ≤ c → range c k s ≡ []
unfolding range range_from
range_empty c k s h = let e : k - c ≡ 0 = omega arith in rw e refl

abbrev IsWanted : Around → SubscriptionState → ℕ → Batch → Type 0
IsWanted a s c b = (c ≤ b.cursor) × (b.events ≡ wanted a s (range c b.cursor a.store))

-- The events of a page are those that are wanted, of the store's events between its ends.
batch-IsWanted : (a : Around) (s : SubscriptionState) → IsWanted a s s.delivered (batch_of a s)
batch-IsWanted a s = batch_all a s (IsWanted a s) (record {
  stop = λ c. (omega arith, rw (range_empty c c a.store (omega arith)) refl);
  missing = λ c b h n g.
      let below : c < b.cursor = omega (arith, g.0) in
      (omega arith, g.1 ∙ rw (range_missing c b.cursor a.store below n) refl);
  passed = λ c b e h n o g.
      let below : c < b.cursor = omega (arith, g.0) in
      (
        omega arith,
        g.1 ∙ rw (range_present c b.cursor e a.store below n, wanted_out a s e _ o) refl,
      );
  taken = λ c b e h n o g.
      let below : c < b.cursor = omega (arith, g.0) in
      (
        omega arith,
        ap (λ es. e ∷ es) g.1
            ∙ rw (range_present c b.cursor e a.store below n, wanted_in a s e _ o) refl,
      );
})

-- The pages that a client asks for one after the other, on the number of requests it makes: the
-- events it was sent, and whether the last answer was the last page. It stops at any other answer.
abbrev pub more :
    List NotificationEvent
    → Manager × (List NotificationEvent × Bool)
    → Manager × (List NotificationEvent × Bool)
more es (m, (fs, done)) = (m, (es ++ fs, done))

-- What a client makes of an answer; `next` asks for the pages that follow.
abbrev pub answered :
    (Manager → Manager × (List NotificationEvent × Bool))
    → Manager × Option SubscribeResult
    → Manager × (List NotificationEvent × Bool)
answered next (m, none) = (m, ([], false))
answered next (m, some (notification_events p)) =
    let rest = next m in if p.has_more then more p.events rest else (m, (p.events, true))
answered next (m, some (cursor_expired _ _ _ _ _)) = (m, ([], false))
answered next (m, some (scope_changed _ _)) = (m, ([], false))
answered next (m, some (resync_required _)) = (m, ([], false))

unfoldable pub catch_up : Around → String → ℕ → Manager → Manager × (List NotificationEvent × Bool)
catch_up a id zero m = (m, ([], false))
catch_up a id (suc requests) m = answered (catch_up a id requests) (next_page a id none m)

-- What a request for a page does to a subscription that did not overflow.
next_page_found :
    (a : Around) (m : Manager) (s : SubscriptionState)
    → Map.get s.id m.subscriptions ≡ some s
    → s.overflowed ≡ false
    → next_page a s.id none m ≡ (
      put_back (advanced (batch_of a s) s) m,
      some (notification_events (page_of a m s (batch_of a s))),
    )
unfolding next_page
next_page_found a m s h o = rw (h, o, next_page) refl

catch_up-step :
    (a : Around) (requests : ℕ) (m : Manager) (s : SubscriptionState)
    → Map.get s.id m.subscriptions ≡ some s
    → s.overflowed ≡ false
    → (catch_up a s.id (suc requests) m).1 ≡ (
        if ltb (batch_of a s).cursor s.tip
        then (more
            (batch_of a s).events
            (catch_up a s.id requests (put_back (advanced (batch_of a s) s) m))).1
        else ((batch_of a s).events, true))
unfolding catch_up
catch_up-step a requests m s h o =
    ap (λ r. (answered (catch_up a s.id requests) r).1) (next_page_found a m s h o)
    ∙ split (ltb (batch_of a s).cursor s.tip) _ _
  where
    split :
        (b : Bool) (x y : Manager × (List NotificationEvent × Bool))
        → (if b then x else y).1 ≡ (if b then x.1 else y.1)
    split true x y = refl
    split false x y = refl

-- The last page goes just to the tip, or starts after it.
last_page :
    (a : Around) (s : SubscriptionState)
    → s.tip ≤ (batch_of a s).cursor
    → range s.delivered (batch_of a s).cursor a.store ≡ range s.delivered s.tip a.store
last_page a s reached = elim (dec_le s.delivered s.tip) [
  | yes p ↦
      let at : (batch_of a s).cursor ≡ s.tip = omega (arith, (batch_goes a s).1 p) in rw at refl
  | no p ↦
      let at : (batch_of a s).cursor ≡ s.delivered = batch_stays a s (omega arith) in
      range_empty s.delivered (batch_of a s).cursor a.store (omega arith)
      ∙ sym (range_empty s.delivered s.tip a.store (omega arith))
]

-- A client that asks for pages of an open subscription that did not overflow, over a store that
-- stays as it is, is at the last page after at most as many requests as there are sequences from
-- where it is to the tip, and one more. Over all pages together it was then sent just the events of
-- the store after where it was, up to the tip that the subscription was opened with, that are in
-- its scope and not out of date, in the order of their sequences, each as often as the store has it.
pub catch_up_complete :
    (a : Around) (requests : ℕ) (m : Manager) (s : SubscriptionState)
    → Map.get s.id m.subscriptions ≡ some s
    → s.overflowed ≡ false
    → 0 < s.page_limit
    → s.tip - s.delivered < requests
    → (catch_up a s.id requests m).1 ≡ (wanted a s (range s.delivered s.tip a.store), true)
unfolding catch_up is_left_out matches_scope
catch_up_complete a zero m s h o limit enough = absurd (omega arith)
catch_up_complete a (suc requests) m s h o limit enough =
    let b = batch_of a s in
    let goes : s.delivered ≤ b.cursor = (batch_goes a s).0 in
    let page = (batch-IsWanted a s).1 in
    catch_up-step a requests m s h o ∙ (elim (Bool-cases (ltb b.cursor s.tip)) [
      | inl t ↦
          let below : b.cursor < s.tip = ground arith in
          let moved : s.delivered < b.cursor = batch_moves a s (omega arith) limit in
          let later =
            catch_up_complete a requests (put_back (advanced b s) m) (advanced b s)
              (get-set_self s.id (advanced b s) m.subscriptions) o limit (omega arith) in
          let parts = range-split s.delivered b.cursor s.tip a.store goes (omega arith) in
          if_yes (ltb b.cursor s.tip) _ _ t
          ∙ (ap (λ r. (b.events ++ r.0, r.1)) later ∙ rw (page, parts, wanted-append a s) refl)
      | inr f ↦
          let at_end = last_page a s (ground arith) in
          if_no (ltb b.cursor s.tip) _ _ f ∙ rw (page, at_end) refl
    ])
