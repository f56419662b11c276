-- ===== src/Subscription/Skipped.antt =====
-- The ranges of skipped sequences hold the same numbers as the list they are made of.
use pi_pilot.Base.{
  ℕ, zero, suc, ◌+◌, ◌-◌, ◌≤◌, ◌≡◌, refl, ◌∙◌, inl, inr, ◌&&◌, ◌||◌, List, [], ◌∷◌, ◌++◌, arith,
  ltb, leb, ◌==◌, Bool-cases, nat_key, string_key,
}
use pi_pilot.Subscription.Paging.{
  insert_number, sort_numbers, merge_from, merge_sorted, merge_skipped, has_number, count_up,
  numbers_in,
}

pub has_number-append :
    (n : ℕ) (xs ys : List ℕ) → has_number n (xs ++ ys) ≡ (has_number n xs || has_number n ys)
has_number-append n [] ys = refl
has_number-append n (x ∷ xs) ys = ground (arith, has_number-append n xs ys)

pub has_number-count_up :
    (n from rounds : ℕ)
    → has_number n (count_up from rounds) ≡ (leb from n && ltb n (from + rounds))
has_number-count_up n from zero = ground arith
has_number-count_up n from (suc rounds) = ground (arith, has_number-count_up n (suc from) rounds)

has_number-insert :
    (n m : ℕ) (ms : List ℕ) → has_number n (insert_number m ms) ≡ (n == m || has_number n ms)
has_number-insert n m [] = refl
has_number-insert n m (k ∷ ks) = ground (arith, has_number-insert n m ks)

has_number-sort : (n : ℕ) (ms : List ℕ) → has_number n (sort_numbers ms) ≡ has_number n ms
has_number-sort n [] = refl
has_number-sort n (m ∷ ms) =
    ground (arith, has_number-insert n m (sort_numbers ms), has_number-sort n ms)

one_range :
    (n start prev : ℕ) (ns : List ℕ)
    → start ≤ prev
    → has_number n (count_up start (suc prev - start) ++ ns)
      ≡ (leb start n && leb n prev || has_number n ns)
one_range n start prev ns h = ground (
  arith,
  has_number-append n (count_up start (suc prev - start)) ns,
  has_number-count_up n start (suc prev - start),
)

has_number-merge_from :
    (n start prev : ℕ) (ns : List ℕ)
    → start ≤ prev
    → has_number n (numbers_in (merge_from start prev ns))
      ≡ (leb start n && leb n prev || has_number n ns)
has_number-merge_from n start prev [] h = one_range n start prev [] h
has_number-merge_from n start prev (current ∷ rest) h = elim (Bool-cases (current == prev + 1)) [
  | inl q ↦
      let at : current ≡ prev + 1 = ground arith in
      rw q (ground (arith, has_number-merge_from n start current rest (omega arith)))
  | inr q ↦ rw q (
      one_range n start prev (numbers_in (merge_from current current rest)) h
      ∙ ground (arith, has_number-merge_from n current current rest (omega arith)))
]

-- A sequence stands in one of the reported ranges just if it is one of those that were skipped,
-- whatever their order and however often they occur.
pub merge_skipped_same :
    (n : ℕ) (skipped : List ℕ)
    → has_number n (numbers_in (merge_skipped skipped)) ≡ has_number n skipped
unfolding merge_skipped
merge_skipped_same n skipped = merged (sort_numbers skipped) ∙ has_number-sort n skipped
  where
    merged : (ns : List ℕ) → has_number n (numbers_in (merge_sorted ns)) ≡ has_number n ns
    merged [] = refl
    merged (m ∷ ms) = ground (arith, has_number-merge_from n m m ms (omega arith))
