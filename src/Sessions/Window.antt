-- ===== src/Sessions/Window.antt =====
-- The window that rolls over the entries is the longest end of them that fits on a page.
use pi_pilot.Base.{
  if_yes, if_no, ℕ, ◌+◌, ◌-◌, ◌≤◌, ◌≡◌, refl, ap, ◌∙◌, inl, inr, Bool, true, false, ◌&&◌, ◌||◌,
  Option, none, some, List, [], ◌∷◌, ◌++◌, arith, ltb, leb, if◌then◌else◌, Bool-cases, nat_key,
  string_key, length, length-snoc,
}
use pi_pilot.Sessions.Pages.{
  EntryPageQuery, Item, budget, drop_over_budget, drop_over_limit, limited, push_tail,
}

abbrev pub total : List Item → ℕ
total [] = 0
total (x ∷ xs) = x.bytes + total xs

-- Whether items fit on a page: one may be over the budget, and none may be over the limit.
abbrev pub in_limit : Option ℕ → List Item → Bool
in_limit none xs = true
in_limit (some limit) xs = leb (length xs) limit

abbrev pub fits : EntryPageQuery → List Item → Bool
fits q xs = (leb (length xs) 1 || leb (total xs) (budget q)) && in_limit q.limit xs

-- The longest end of a list that fits.
unfoldable pub longest : EntryPageQuery → List Item → List Item
longest q [] = []
longest q (x ∷ xs) = let rest = longest q xs in if fits q (x ∷ xs) then x ∷ xs else rest

total-append : (xs ys : List Item) → total (xs ++ ys) ≡ total xs + total ys
total-append [] ys = omega arith
total-append (x ∷ xs) ys = omega (arith, total-append xs ys)

abbrev pub with_total : List Item → List Item × ℕ
with_total xs = (xs, total xs)

drop_over_limit-small :
    (limit : Option ℕ) (xs : List Item)
    → in_limit limit xs ≡ true
    → limited limit (with_total xs) ≡ with_total xs
unfolding drop_over_limit
drop_over_limit-small none xs h = refl
drop_over_limit-small (some n) [] h = refl
drop_over_limit-small (some n) (x ∷ xs) h = if_no (ltb n (length (x ∷ xs))) _ _ (ground arith)

drop_over_limit-large :
    (limit : Option ℕ) (x : Item) (xs : List Item)
    → in_limit limit (x ∷ xs) ≡ false
    → limited limit (with_total (x ∷ xs)) ≡ limited limit (with_total xs)
unfolding drop_over_limit
drop_over_limit-large none x xs h = absurd (ground arith)
drop_over_limit-large (some n) x xs h =
    let less : x.bytes + total xs - x.bytes ≡ total xs = omega arith in
    if_yes (ltb n (length (x ∷ xs))) _ _ (ground arith) ∙ rw less refl

-- In the budget only the limit drops.
limited_longest :
    (q : EntryPageQuery) (xs : List Item)
    → total xs ≤ budget q
    → limited q.limit (with_total xs) ≡ with_total (longest q xs)
unfolding longest drop_over_limit
limited_longest q [] h = none_left q.limit
  where
    none_left : (o : Option ℕ) → limited o (with_total []) ≡ with_total []
    none_left none = refl
    none_left (some n) = refl
limited_longest q (x ∷ xs) h = elim (Bool-cases (in_limit q.limit (x ∷ xs))) [
  | inl t ↦
      let all_fits : fits q (x ∷ xs) ≡ true = ground arith in
      drop_over_limit-small q.limit (x ∷ xs) t ∙ rw (all_fits, longest) refl
  | inr f ↦
      let too_many : fits q (x ∷ xs) ≡ false = ground arith in
      drop_over_limit-large q.limit x xs f
      ∙ (limited_longest q xs (omega arith) ∙ rw (too_many, longest) refl)
]

dropped_longest :
    (q : EntryPageQuery) (xs : List Item)
    → limited q.limit (drop_over_budget (budget q) xs (total xs)) ≡ with_total (longest q xs)
unfolding drop_over_budget longest
dropped_longest q [] = limited_longest q [] (omega arith)
dropped_longest q (x ∷ []) = elim (Bool-cases (in_limit q.limit (x ∷ []))) [
  | inl t ↦
      let fit : fits q (x ∷ []) ≡ true = ground arith in
      drop_over_limit-small q.limit (x ∷ []) t ∙ rw (fit, longest) refl
  | inr f ↦
      let unfit : fits q (x ∷ []) ≡ false = ground arith in
      drop_over_limit-large q.limit x [] f
      ∙ (limited_longest q [] (omega arith) ∙ rw (unfit, longest) refl)
]
dropped_longest q (x ∷ y ∷ xs) = elim (Bool-cases (ltb (budget q) (total (x ∷ y ∷ xs)))) [
  | inl t ↦
      let less : x.bytes + total (y ∷ xs) - x.bytes ≡ total (y ∷ xs) = omega arith in
      let too_much : fits q (x ∷ y ∷ xs) ≡ false = ground arith in
      ap (limited q.limit) (
        if_yes (ltb (budget q) (total (x ∷ y ∷ xs))) _ _ t
        ∙ ap (drop_over_budget (budget q) (y ∷ xs)) less)
      ∙ (dropped_longest q (y ∷ xs) ∙ rw (too_much, longest) refl)
  | inr f ↦
      ap (limited q.limit) (if_no (ltb (budget q) (total (x ∷ y ∷ xs))) _ _ f)
      ∙ limited_longest q (x ∷ y ∷ xs) (ground arith)
]

unlimited_grows :
    (o : Option ℕ) (xs : List Item) (y : Item)
    → in_limit o xs ≡ false
    → in_limit o (xs ++ y ∷ []) ≡ false
unlimited_grows none xs y h = absurd (ground arith)
unlimited_grows (some n) xs y h = ground (arith, length-snoc xs y)

grown_unfit :
    (q : EntryPageQuery) (x : Item) (xs : List Item) (y : Item)
    → fits q (x ∷ xs) ≡ false
    → fits q (x ∷ xs ++ y ∷ []) ≡ false
grown_unfit q x xs y f = elim (Bool-cases (in_limit q.limit (x ∷ xs))) [
  | inl t ↦ ground (arith, length-snoc xs y, total-append xs (y ∷ []), f, t)
  | inr g ↦ let still = unlimited_grows q.limit (x ∷ xs) y g in ground (arith, still)
]

longest-append :
    (q : EntryPageQuery) (xs : List Item) (y : Item)
    → longest q (longest q xs ++ y ∷ []) ≡ longest q (xs ++ y ∷ [])
unfolding longest
longest-append q [] y = refl
longest-append q (x ∷ xs) y = elim (Bool-cases (fits q (x ∷ xs))) [
  | inl t ↦ rw (t, longest) refl
  | inr f ↦
      let still : fits q (x ∷ xs ++ y ∷ []) ≡ false = grown_unfit q x xs y f in
      rw (f, still, longest) (longest-append q xs y)
]

-- One more entry in the window: the longest end of all of them that fits.
pub push_tail-longest :
    (q : EntryPageQuery) (xs : List Item) (y : Item)
    → push_tail q y (with_total (longest q xs)) ≡ with_total (longest q (xs ++ y ∷ []))
unfolding push_tail
push_tail-longest q xs y =
    let sum_after : total (longest q xs) + y.bytes ≡ total (longest q xs ++ y ∷ []) =
      omega (arith, total-append (longest q xs) (y ∷ [])) in
    ap (λ n. limited q.limit (drop_over_budget (budget q) (longest q xs ++ y ∷ []) n)) sum_after
    ∙ (dropped_longest q (longest q xs ++ y ∷ []) ∙ ap with_total (longest-append q xs y))
