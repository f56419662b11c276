-- ===== src/Subscription/Waiting.antt =====
-- What events that arrive leave of a subscription that is not ready.
use pi_pilot.Base.{
  ◌+◌, String, ◌≡◌, refl, sym, ap, ◌∙◌, inl, inr, if_pos, if_neg, Bool, true, false, ◌||◌, some,
  List, [], ◌∷◌, ◌++◌, append_assoc, append-nil, arith, ltb, leb, Bool-cases, String_discrete,
  nat_key, string_key, length, keep_if,
}
use pi_pilot.Base.Map
use pi_pilot.Base.Map.{Map}
use pi_pilot.Notify.Event.{NotificationEvent}
use pi_pilot.Subscription.State.{
  max_live_buffer, max_live_buffer_bytes, SubscriptionState, Manager, Around, matches_scope,
}
use pi_pilot.Subscription.Live.{offer, offer_each, on_event}

-- The events of a list that a subscription is to be told of, in its scope.
abbrev pub in_scope : SubscriptionState → List NotificationEvent → List NotificationEvent
in_scope s es = keep_if (λ e. matches_scope e s.scopes) es

-- The events arrive one after the other.
abbrev pub offer_all : Around → List NotificationEvent → SubscriptionState → SubscriptionState
offer_all a [] s = s
offer_all a (e ∷ es) s = offer_all a es (offer a e s).0

unfoldable pub arrive : Around → List NotificationEvent → Manager → Manager
arrive a [] m = m
arrive a (e ∷ es) m = arrive a es (on_event a e m).0

get-offer_each :
    (a : Around) (e : NotificationEvent) (k : String) (s : SubscriptionState)
    (m : Map String SubscriptionState)
    → Map.get k m ≡ some s
    → Map.get k (offer_each a e m).0 ≡ some (offer a e s).0
unfolding offer_each Map.get
get-offer_each a e k s [] h = absurd (ground arith)
get-offer_each a e k s ((j, t) ∷ m) h = elim (String_discrete j k) [
  | yes p ↦
      let same_state : t ≡ s = ground arith in
      rw (if_pos _ p) (ap (λ u. some (offer a e u).0) same_state)
  | no n ↦ rw (if_neg _ n) (get-offer_each a e k s m (ground arith))
]

pub get-arrive :
    (a : Around) (es : List NotificationEvent) (k : String) (s : SubscriptionState) (m : Manager)
    → Map.get k m.subscriptions ≡ some s
    → Map.get k (arrive a es m).subscriptions ≡ some (offer_all a es s)
unfolding arrive on_event
get-arrive a [] k s m h = h
get-arrive a (e ∷ es) k s m h =
    get-arrive a es k (offer a e s).0 (on_event a e m).0 (get-offer_each a e k s m.subscriptions h)

-- What one event leaves of a subscription that is not ready.
pub record Waits (s : SubscriptionState) (es : List NotificationEvent) (t : SubscriptionState)
    : Type 0 where
  pub id : t.id ≡ s.id
  pub scopes : t.scopes ≡ s.scopes
  pub ready : t.ready ≡ false
  pub delivered : t.delivered ≡ s.delivered
  pub lost : s.overflowed ≡ true → t.overflowed ≡ true
  pub held : t.overflowed ≡ false → t.live_buffer ≡ s.live_buffer ++ in_scope s es

pub in_scope_out :
    (s : SubscriptionState) (e : NotificationEvent) (es : List NotificationEvent)
    → matches_scope e s.scopes ≡ false
    → in_scope s (e ∷ es) ≡ in_scope s es
in_scope_out s e es h = rw (keep_if, h) refl

pub in_scope_in :
    (s : SubscriptionState) (e : NotificationEvent) (es : List NotificationEvent)
    → matches_scope e s.scopes ≡ true
    → in_scope s (e ∷ es) ≡ e ∷ in_scope s es
in_scope_in s e es h = rw (keep_if, h) refl

offer-Waits :
    (a : Around) (e : NotificationEvent) (s : SubscriptionState)
    → s.ready ≡ false
    → Waits s (e ∷ []) (offer a e s).0
unfolding offer
offer-Waits a e s r = elim (Bool-cases (matches_scope e s.scopes)) [
  | inr f ↦ rw f (record {
    id = refl;
    scopes = refl;
    ready = r;
    delivered = refl;
    lost = λ h. h;
    held = λ h. rw (in_scope_out s e [] f, append-nil) refl;
  })
  | inl t ↦
      elim (Bool-cases (
        leb max_live_buffer (length s.live_buffer)
        || ltb max_live_buffer_bytes (s.live_buffer_bytes + a.json_length e))) [
          | inl full ↦
              rw (t, r, full)
                (record {
                  id = refl;
                  scopes = refl;
                  ready = refl;
                  delivered = refl;
                  lost = λ h. refl;
                  held = λ h. absurd (cc);
                })
          | inr room ↦
              rw (t, r, room)
                (record {
                  id = refl;
                  scopes = refl;
                  ready = refl;
                  delivered = refl;
                  lost = λ h. h;
                  held = λ h. rw (in_scope_in s e [] t) refl;
                })
        ]
]

pub keep_if-same :
    (s t : SubscriptionState) (es : List NotificationEvent)
    → t.scopes ≡ s.scopes
    → in_scope t es ≡ in_scope s es
keep_if-same s t es h = ap (λ c. keep_if (λ e. matches_scope e c) es) h

in_scope-cons :
    (s : SubscriptionState) (e : NotificationEvent) (es : List NotificationEvent)
    → in_scope s (e ∷ []) ++ in_scope s es ≡ in_scope s (e ∷ es)
in_scope-cons s e es = elim (Bool-cases (matches_scope e s.scopes)) [
  | inl t ↦ rw (in_scope_in s e [] t, in_scope_in s e es t) refl
  | inr f ↦ rw (in_scope_out s e [] f, in_scope_out s e es f) refl
]

not_lost : (b c : Bool) → (b ≡ true → c ≡ true) → c ≡ false → b ≡ false
not_lost true c h f = absurd (ground arith)
not_lost false c h f = refl

pub offer_all-Waits :
    (a : Around) (es : List NotificationEvent) (s : SubscriptionState)
    → s.ready ≡ false
    → Waits s es (offer_all a es s)
offer_all-Waits a [] s r = record {
  id = refl;
  scopes = refl;
  ready = r;
  delivered = refl;
  lost = λ h. h;
  held = λ h. sym (append-nil s.live_buffer);
}
offer_all-Waits a (e ∷ es) s r =
    let t = (offer a e s).0 in
    let one = offer-Waits a e s r in
    let rest = offer_all-Waits a es t one.ready in
    record {
      id = rest.id ∙ one.id;
      scopes = rest.scopes ∙ one.scopes;
      ready = rest.ready;
      delivered = rest.delivered ∙ one.delivered;
      lost = λ h. rest.lost (one.lost h);
      held = λ h.
          rest.held h
          ∙ (ap (λ b. b ++ in_scope t es) (one.held (not_lost _ _ rest.lost h))
              ∙ (append_assoc s.live_buffer (in_scope s (e ∷ [])) (in_scope t es)
                  ∙ ap (λ b. s.live_buffer ++ b)
                      (ap (λ b. in_scope s (e ∷ []) ++ b) (keep_if-same s t es one.scopes)
                        ∙ in_scope-cons s e es)));
    }
