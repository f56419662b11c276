-- ===== src/Subscription/Full.antt =====
-- When the buffer of a subscription that is not ready is full.
use pi_pilot.Base.{
  ℕ, ◌+◌, ◌≤◌, ◌<◌, ◌≡◌, refl, sym, ap, ◌∙◌, ◌⊎◌, inl, inr, true, false, ◌||◌, List, [], ◌∷◌, ◌++◌,
  arith, ltb, leb, Bool-cases, nat_key, string_key, length, length-snoc,
}
use pi_pilot.Notify.Event.{NotificationEvent}
use pi_pilot.Subscription.State.{
  max_live_buffer, max_live_buffer_bytes, SubscriptionState, Around, matches_scope,
}
use pi_pilot.Subscription.Live.{offer}
use pi_pilot.Subscription.Waiting.{in_scope, in_scope_in, in_scope_out, keep_if-same, offer_all}

-- How long the JSON texts of events are together.
abbrev pub bytes_of : Around → List NotificationEvent → ℕ
bytes_of a [] = 0
bytes_of a (e ∷ es) = a.json_length e + bytes_of a es

-- One of the events that arrive, in scope, found 256 others waiting, or would have made the waiting
-- ones more than a mebibyte.
pub record FindsFull (a : Around) (s : SubscriptionState) (es : List NotificationEvent)
    : Type 0 where
  pub before : List NotificationEvent
  pub event : NotificationEvent
  pub after : List NotificationEvent
  pub parts : es ≡ before ++ event ∷ after
  pub matching : matches_scope event s.scopes ≡ true
  pub no_room :
      (256 ≤ length s.live_buffer + length (in_scope s before))
      ⊎ (1048576 < s.live_buffer_bytes + bytes_of a (in_scope s before) + a.json_length event)

full_later :
    (a : Around) (e : NotificationEvent) (es : List NotificationEvent) (s t : SubscriptionState)
    → t.scopes ≡ s.scopes
    → length t.live_buffer ≡ length s.live_buffer + length (in_scope s (e ∷ []))
    → t.live_buffer_bytes ≡ s.live_buffer_bytes + bytes_of a (in_scope s (e ∷ []))
    → FindsFull a t es
    → FindsFull a s (e ∷ es)
full_later a e es s t sc len size f = record {
  before = e ∷ f.before;
  event = f.event;
  after = f.after;
  parts = ap (λ xs. e ∷ xs) f.parts;
  matching = ap (matches_scope f.event) (sym sc) ∙ f.matching;
  no_room = elim (Bool-cases (matches_scope e s.scopes)) [
    | inl m ↦ elim f.no_room [
      | inl many ↦ inl (
          omega (
            arith,
            many,
            len,
            ap length (keep_if-same s t f.before sc),
            ap length (in_scope_in s e [] m),
            ap length (in_scope_in s e f.before m),
          ))
      | inr big ↦ inr (
          omega (
            arith,
            big,
            size,
            ap (bytes_of a) (keep_if-same s t f.before sc),
            ap (bytes_of a) (in_scope_in s e [] m),
            ap (bytes_of a) (in_scope_in s e f.before m),
          ))
    ]
    | inr m ↦ elim f.no_room [
      | inl many ↦ inl (
          omega (
            arith,
            many,
            len,
            ap length (keep_if-same s t f.before sc),
            ap length (in_scope_out s e [] m),
            ap length (in_scope_out s e f.before m),
          ))
      | inr big ↦ inr (
          omega (
            arith,
            big,
            size,
            ap (bytes_of a) (keep_if-same s t f.before sc),
            ap (bytes_of a) (in_scope_out s e [] m),
            ap (bytes_of a) (in_scope_out s e f.before m),
          ))
    ]
  ];
}

pub offer_all-FindsFull :
    (a : Around) (es : List NotificationEvent) (s : SubscriptionState)
    → s.ready ≡ false
    → s.overflowed ≡ false
    → (offer_all a es s).overflowed ≡ true
    → FindsFull a s es
unfolding offer
offer_all-FindsFull a [] s r o h = absurd (cc)
offer_all-FindsFull a (e ∷ es) s r o h = elim (Bool-cases (matches_scope e s.scopes)) [
  | inr f ↦
      let same_state : (offer a e s).0 ≡ s = rw f refl in
      full_later a e es s s refl (omega (arith, ap length (in_scope_out s e [] f)))
        (omega (arith, ap (bytes_of a) (in_scope_out s e [] f)))
        (offer_all-FindsFull a es s r o
          (ap (λ t. (offer_all a es t).overflowed) (sym same_state) ∙ h))
  | inl t ↦
      elim (Bool-cases (
        leb max_live_buffer (length s.live_buffer)
        || ltb max_live_buffer_bytes (s.live_buffer_bytes + a.json_length e))) [
          | inl full ↦ record {
            before = [];
            event = e;
            after = es;
            parts = refl;
            matching = t;
            no_room = no_room (length s.live_buffer) s.live_buffer_bytes (a.json_length e) full;
          }
          | inr room ↦
              let u : SubscriptionState = record s {
                live_buffer = s.live_buffer ++ e ∷ [];
                live_buffer_bytes = s.live_buffer_bytes + a.json_length e;
              } in
              let waits : (offer a e s).0 ≡ u = rw (t, r, room) refl in
              full_later a e es s u refl
                (omega (arith, length-snoc s.live_buffer e, ap length (in_scope_in s e [] t)))
                (omega (arith, ap (bytes_of a) (in_scope_in s e [] t)))
                (offer_all-FindsFull a es u r o
                  (ap (λ v. (offer_all a es v).overflowed) (sym waits) ∙ h))
        ]
]
  where
    no_room :
        (n b l : ℕ)
        → (leb max_live_buffer n || ltb max_live_buffer_bytes (b + l)) ≡ true
        → (256 ≤ n + 0) ⊎ (1048576 < b + 0 + l)
    no_room n b l f = ground (arith, f)
