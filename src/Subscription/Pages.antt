-- ===== src/Subscription/Pages.antt =====
-- What holds of a page by induction on the rounds of its loop.
use pi_pilot.Base.{
  ℕ, zero, suc, ◌+◌, ◌-◌, ◌≤◌, ◌<◌, ◌≡◌, refl, inl, inr, Bool, true, false, ◌&&◌, none, some, arith,
  ltb, if◌then◌else◌, Bool-cases, Option-cases, nat_key, string_key,
}
use pi_pilot.Notify.Event.{NotificationEvent}
use pi_pilot.Subscription.State.{
  max_page_bytes, SubscriptionState, Around, event_by_sequence, is_left_out,
}
use pi_pilot.Subscription.Paging.{Batch, with_event, with_skipped, ends_at, page_from, batch_of}

-- The ways a batch is built, for a statement on where it starts and what it is.
pub record IsKeptByRounds (a : Around) (s : SubscriptionState) (P : ℕ → Batch → Type 0)
    : Type 0 where
  pub stop : (c : ℕ) → P c (ends_at c)
  pub missing :
      (c : ℕ) (b : Batch)
      → c < s.tip
      → event_by_sequence (suc c) a.store ≡ none
      → P (suc c) b
      → P c (with_skipped (suc c) b)
  pub passed :
      (c : ℕ) (b : Batch) (e : NotificationEvent)
      → c < s.tip
      → event_by_sequence (suc c) a.store ≡ some e
      → is_left_out a s e ≡ true
      → P (suc c) b
      → P c (with_skipped (suc c) b)
  pub taken :
      (c : ℕ) (b : Batch) (e : NotificationEvent)
      → c < s.tip
      → event_by_sequence (suc c) a.store ≡ some e
      → is_left_out a s e ≡ false
      → P (suc c) b
      → P c (with_event e b)

if_both : (P : Batch → Type 0) (b : Bool) {x y : Batch} → P x → P y → P (if b then x else y)
if_both P true u v = u
if_both P false u v = v

page_from_all :
    (a : Around) (s : SubscriptionState) (P : ℕ → Batch → Type 0) (k : IsKeptByRounds a s P)
    (rounds cursor count bytes : ℕ)
    → P cursor (page_from a s rounds cursor count bytes)
unfolding page_from
page_from_all a s P k zero cursor count bytes = k.stop cursor
page_from_all a s P k (suc rounds) cursor count bytes =
    elim (Bool-cases (ltb cursor s.tip && ltb count s.page_limit)) [
      | inr f ↦ rw f (k.stop cursor)
      | inl t ↦
          let below : cursor < s.tip = ground arith in
          elim (Option-cases (event_by_sequence (suc cursor) a.store)) [
            | inl n ↦
                rw (t, n)
                  (k.missing cursor _ below n
                    (page_from_all a s P k rounds (suc cursor) count bytes))
            | inr (e, h) ↦ elim (Bool-cases (is_left_out a s e)) [
              | inl o ↦
                  rw (t, h, o)
                    (k.passed cursor _ e below h o
                      (page_from_all a s P k rounds (suc cursor) count bytes))
              | inr o ↦
                  rw (t, h, o)
                    (if_both (P cursor)
                      (ltb 0 count && ltb max_page_bytes (bytes + a.json_length e)) (k.stop cursor)
                      (k.taken cursor _ e below h o (
                        page_from_all a s P k rounds (suc cursor) (count + 1)
                          (bytes + a.json_length e))))
            ]
          ]
    ]

pub batch_all :
    (a : Around) (s : SubscriptionState) (P : ℕ → Batch → Type 0)
    → IsKeptByRounds a s P
    → P s.delivered (batch_of a s)
batch_all a s P k = page_from_all a s P k (s.tip - s.delivered) s.delivered 0 0

-- The cursor goes forward, and not over the tip.
abbrev Goes : ℕ → ℕ → Batch → Type 0
Goes limit c b = (c ≤ b.cursor) × (c ≤ limit → b.cursor ≤ limit)

pub batch_goes :
    (a : Around) (s : SubscriptionState)
    → (s.delivered ≤ (batch_of a s).cursor) × (s.delivered ≤ s.tip → (batch_of a s).cursor ≤ s.tip)
batch_goes a s = batch_all a s (Goes s.tip) (record {
  stop = λ c. (omega arith, (λ h. h));
  missing = λ c b h n g. (omega (arith, g.0), (λ q. g.1 (omega arith)));
  passed = λ c b e h n o g. (omega (arith, g.0), (λ q. g.1 (omega arith)));
  taken = λ c b e h n o g. (omega (arith, g.0), (λ q. g.1 (omega arith)));
})

-- At the tip there is nothing to gather.
pub batch_stays :
    (a : Around) (s : SubscriptionState) → s.tip ≤ s.delivered → (batch_of a s).cursor ≡ s.delivered
batch_stays a s =
    batch_all a s (λ c b. s.tip ≤ c → b.cursor ≡ c)
      (record {
        stop = λ c h. refl;
        missing = λ c b h n g q. absurd (omega arith);
        passed = λ c b e h n o g q. absurd (omega arith);
        taken = λ c b e h n o g q. absurd (omega arith);
      })

goes_on :
    (a : Around) (s : SubscriptionState) (rounds c count bytes : ℕ)
    → c ≤ (page_from a s rounds c count bytes).cursor
goes_on a s =
    page_from_all a s (λ c b. c ≤ b.cursor)
      (record {
        stop = λ c. omega arith;
        missing = λ c b h n g. omega (arith, g);
        passed = λ c b e h n o g. omega (arith, g);
        taken = λ c b e h n o g. omega (arith, g);
      })

first_round :
    (a : Around) (s : SubscriptionState) (rounds : ℕ)
    → 0 < rounds
    → s.delivered < s.tip
    → 0 < s.page_limit
    → s.delivered < (page_from a s rounds s.delivered 0 0).cursor
unfolding page_from
first_round a s zero h below limit = absurd (omega arith)
first_round a s (suc rounds) h below limit =
    let t : ltb s.delivered s.tip ≡ true = ground arith in
    let u : ltb 0 s.page_limit ≡ true = ground arith in
    elim (Option-cases (event_by_sequence (suc s.delivered) a.store)) [
      | inl n ↦ rw (t, u, n) (omega (arith, goes_on a s rounds (suc s.delivered) 0 0))
      | inr (e, q) ↦ elim (Bool-cases (is_left_out a s e)) [
        | inl o ↦ rw (t, u, q, o) (omega (arith, goes_on a s rounds (suc s.delivered) 0 0))
        | inr o ↦
            rw (t, u, q, o)
              (omega (arith, goes_on a s rounds (suc s.delivered) (0 + 1) (0 + a.json_length e)))
      ]
    ]

-- A page that may hold an event moves the cursor.
pub batch_moves :
    (a : Around) (s : SubscriptionState)
    → s.delivered < s.tip
    → 0 < s.page_limit
    → s.delivered < (batch_of a s).cursor
batch_moves a s below limit =
    let some_rounds : 0 < s.tip - s.delivered = omega arith in
    first_round a s (s.tip - s.delivered) some_rounds below limit
