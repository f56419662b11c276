-- ===== src/Transfer/Paging.antt =====
-- The pages of a payload put together are the payload.
use pi_pilot.Base.{
  ℕ, zero, suc, ◌+◌, ◌*◌, ◌≤◌, ◌≡◌, refl, sym, ap, ◌∙◌, List, [], ◌∷◌, ◌++◌, arith, nat_key,
  string_key, length, take, drop, length-append, length-take,
}
use pi_pilot.Transfer.Encode.{page_bytes, page_at, pages_from, pages, count_pages}
use pi_pilot.Transfer.Pages.{joined}
use pi_pilot.Transfer.Stream.{somes, size_of_pages, FitPages}

take_nil {ℓ} : {A : Type ℓ} (n : ℕ) → take {A = A} n [] ≡ []
take_nil zero = refl
take_nil (suc n) = refl

drop_nil {ℓ} : {A : Type ℓ} (n : ℕ) → drop {A = A} n [] ≡ []
drop_nil zero = refl
drop_nil (suc n) = refl

suc_add : (p q : ℕ) → suc (p + q) ≡ suc p + q
suc_add p q = omega arith

take-drop {ℓ} :
    {A : Type ℓ} (p q : ℕ) (xs : List A) → take p xs ++ take q (drop p xs) ≡ take (p + q) xs
take-drop zero q xs = let e : q ≡ 0 + q = omega arith in ap (λ n. take n xs) e
take-drop (suc p) q [] = take_nil q ∙ sym (take_nil (suc p + q))
take-drop (suc p) q (x ∷ xs) =
    ap (λ ys. x ∷ ys) (take-drop p q xs) ∙ ap (λ n. take n (x ∷ xs)) (suc_add p q)

drop-drop {ℓ} : {A : Type ℓ} (p q : ℕ) (xs : List A) → drop q (drop p xs) ≡ drop (p + q) xs
drop-drop zero q xs = let e : q ≡ 0 + q = omega arith in ap (λ n. drop n xs) e
drop-drop (suc p) q [] = drop_nil q ∙ sym (drop_nil (suc p + q))
drop-drop (suc p) q (x ∷ xs) = drop-drop p q xs ∙ ap (λ n. drop n (x ∷ xs)) (suc_add p q)

-- One page before the others, for pages of any width.
page_first :
    (w i n : ℕ) (payload : List ℕ)
    → take w (drop (i * w) payload) ++ take (n * w) (drop (suc i * w) payload)
      ≡ take (suc n * w) (drop (i * w) payload)
page_first w i n payload =
    let next : i * w + w ≡ suc i * w = omega arith in
    let sum : w + n * w ≡ suc n * w = omega arith in
    ap (λ t. take w (drop (i * w) payload) ++ take (n * w) t)
      (sym (drop-drop (i * w) w payload ∙ ap (λ k. drop k payload) next))
    ∙ take-drop w (n * w) (drop (i * w) payload)
    ∙ ap (λ k. take k (drop (i * w) payload)) sum

pages_from-joined :
    (payload : List ℕ) (i n : ℕ)
    → joined (somes (pages_from payload i n))
      ≡ take (n * page_bytes) (drop (i * page_bytes) payload)
unfolding joined
pages_from-joined payload i zero = refl
pages_from-joined payload i (suc n) =
    ap (λ t. page_at payload i ++ t) (pages_from-joined payload (suc i) n)
    ∙ page_first page_bytes i n payload

pub pages_from-length : (payload : List ℕ) (i n : ℕ) → length (pages_from payload i n) ≡ n
pages_from-length payload i zero = refl
pages_from-length payload i (suc n) = omega (arith, pages_from-length payload (suc i) n)

pub pages_from-FitPages : (payload : List ℕ) (i n : ℕ) → FitPages (pages_from payload i n)
pages_from-FitPages payload i zero = tt
pages_from-FitPages payload i (suc n) =
    let l = length-take page_bytes (drop (i * page_bytes) payload) in
    (omega arith, pages_from-FitPages payload (suc i) n)

take_all {ℓ} : {A : Type ℓ} (n : ℕ) (xs : List A) → length xs ≤ n → take n xs ≡ xs
take_all zero [] h = refl
take_all zero (x ∷ xs) h = absurd (omega arith)
take_all (suc n) [] h = refl
take_all (suc n) (x ∷ xs) h = ap (λ ys. x ∷ ys) (take_all n xs (omega arith))

pub joined-size : (ps : List (List ℕ)) → length (joined (somes ps)) ≡ size_of_pages ps
unfolding joined
joined-size [] = refl
joined-size (p ∷ ps) =
    let h = joined-size ps in let a = length-append p (joined (somes ps)) in omega arith

pub pages-joined : (payload : List ℕ) → joined (somes (pages payload)) ≡ payload
pages-joined payload =
    pages_from-joined payload 0 (count_pages payload)
    ∙ take_all (count_pages payload * page_bytes) payload (omega arith)
