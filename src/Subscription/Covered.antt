-- ===== src/Subscription/Covered.antt =====
-- Every page accounts for each sequence between its ends.
use pi_pilot.Base.{
  ℕ, zero, suc, ◌+◌, ◌-◌, ◌≤◌, ◌<◌, ◌≡◌, refl, ◌∙◌, inl, inr, Bool, true, ◌||◌, some, List, [],
  ◌++◌, arith, ℕ_discrete, leb, Bool-cases, nat_key, string_key,
}
use pi_pilot.Base.Map
use pi_pilot.Base.Map.{Map}
use pi_pilot.Notify.Event.{NotificationEvent}
use pi_pilot.Notify.Store.{EventStore}
use pi_pilot.Subscription.State.{SubscriptionState, Around}
use pi_pilot.Subscription.Paging.{
  Batch, with_event, with_skipped, batch_of, has_number, all_seen, sequences_of, numbers_in,
  merge_skipped, covers_continuously,
}
use pi_pilot.Subscription.Skipped.{has_number-append, merge_skipped_same}
use pi_pilot.Subscription.Pages.{batch_all, batch_goes}

-- An event stands in the store under its own sequence.
abbrev pub IsKeyed : EventStore → Type 0
IsKeyed s = (n : ℕ) (e : NotificationEvent) → Map.get n s.events ≡ some e → e.sequence ≡ n

abbrev is_accounted : ℕ → Batch → Bool
is_accounted n b = has_number n (sequences_of b.events) || has_number n b.skipped

abbrev Accounts : ℕ → Batch → Type 0
Accounts c b = (n : ℕ) → c < n → n ≤ b.cursor → is_accounted n b ≡ true

batch-Accounts :
    (a : Around) (s : SubscriptionState) → IsKeyed a.store → Accounts s.delivered (batch_of a s)
batch-Accounts a s keyed = batch_all a s Accounts (record {
  stop = λ c n h k. absurd (omega arith);
  missing = λ c b h m g n p q. skip c b g n p q;
  passed = λ c b e h m o g n p q. skip c b g n p q;
  taken = λ c b e h m o g n p q. take_one c b e g (keyed (suc c) e m) n p q;
})
  where
    skip : (c : ℕ) (b : Batch) → Accounts (suc c) b → Accounts c (with_skipped (suc c) b)
    skip c b g n p q = elim (ℕ_discrete n (suc c)) [
      | yes e ↦ ground arith
      | no e ↦ ground (arith, g n (omega arith) q)
    ]

    take_one :
        (c : ℕ) (b : Batch) (e : NotificationEvent)
        → Accounts (suc c) b
        → e.sequence ≡ suc c
        → Accounts c (with_event e b)
    take_one c b e g k n p q = elim (ℕ_discrete n (suc c)) [
      | yes r ↦ ground arith
      | no r ↦ ground (arith, g n (omega arith) q)
    ]

all_seen_of :
    (n rounds : ℕ) (seen : List ℕ)
    → ((k : ℕ) → n ≤ k → k < n + rounds → has_number k seen ≡ true)
    → all_seen n rounds seen ≡ true
all_seen_of n zero seen h = refl
all_seen_of n (suc rounds) seen h =
    let here = h n (omega arith) (omega arith) in
    let later = all_seen_of (suc n) rounds seen (λ k p q. h k (omega arith) (omega arith)) in
    rw (here, later) refl

reported :
    (n : ℕ) (b : Batch)
    → has_number n (sequences_of b.events ++ numbers_in (merge_skipped b.skipped))
      ≡ is_accounted n b
reported n b = ground (
  arith,
  has_number-append n (sequences_of b.events) (numbers_in (merge_skipped b.skipped)),
  merge_skipped_same n b.skipped,
)

-- An empty step leaves an empty page.
abbrev IsEmptyAt : ℕ → Batch → Type 0
IsEmptyAt c b = (c ≤ b.cursor) × (b.cursor ≤ c → (b.events ≡ []) × (b.skipped ≡ []))

batch-IsEmptyAt : (a : Around) (s : SubscriptionState) → IsEmptyAt s.delivered (batch_of a s)
batch-IsEmptyAt a s = batch_all a s IsEmptyAt (record {
  stop = λ c. (omega arith, (λ h. (refl, refl)));
  missing = λ c b h n g. (omega (arith, g.0), (λ q. absurd (omega (arith, g.0))));
  passed = λ c b e h n o g. (omega (arith, g.0), (λ q. absurd (omega (arith, g.0))));
  taken = λ c b e h n o g. (omega (arith, g.0), (λ q. absurd (omega (arith, g.0))));
})

-- Over a store that keeps each event under its own sequence, the events of a page and the ranges
-- that it reports as skipped together cover every sequence after where the page starts, up to where
-- it ends, so that the client can tell what was filtered from what was lost.
pub page_covers :
    (a : Around) (s : SubscriptionState)
    → IsKeyed a.store
    → covers_continuously s.delivered
        (batch_of a s).cursor
        (batch_of a s).events
        (merge_skipped (batch_of a s).skipped)
      ≡ true
unfolding covers_continuously merge_skipped
page_covers a s keyed = elim (Bool-cases (leb (batch_of a s).cursor s.delivered)) [
  | inl t ↦
      let at_end : (batch_of a s).cursor ≤ s.delivered = ground arith in
      let none_in = (batch-IsEmptyAt a s).1 at_end in rw (t, none_in.0, none_in.1) refl
  | inr f ↦
      let before : s.delivered ≤ (batch_of a s).cursor = (batch_goes a s).0 in
      rw f (
        all_seen_of (suc s.delivered) ((batch_of a s).cursor - s.delivered) _ (λ k p q.
          reported k (batch_of a s) ∙ batch-Accounts a s keyed k (omega arith) (omega arith)))
]
