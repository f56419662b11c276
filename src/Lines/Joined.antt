-- ===== src/Lines/Joined.antt =====
-- The loop of `push` is one pass over the text, which can be cut anywhere.
use pi_pilot.Base.{
  ℕ, zero, suc, ◌<◌, ◌≡◌, refl, sym, ap, ◌∙◌, ◌⊎◌, inl, inr, true, false, none, some, List, [], ◌∷◌,
  ◌++◌, append_assoc, append-nil, arith, ◌==◌, Bool-cases, Option-cases, nat_key, string_key,
  length,
}
use pi_pilot.Lines.{line_feed, split_line, passed_on, read_lines}

-- One pass over a text, with the line begun so far.
pub scan : List ℕ → List ℕ → List (List ℕ) × List ℕ
scan acc [] = ([], acc)
scan acc (c ∷ cs) = elim (c == line_feed) [
  | true ↦ (passed_on acc ++ (scan [] cs).0, (scan [] cs).1)
  | false ↦ scan (acc ++ c ∷ []) cs
]

scan_feed :
    (acc cs : List ℕ) (c : ℕ)
    → (c == line_feed) ≡ true
    → scan acc (c ∷ cs) ≡ (passed_on acc ++ (scan [] cs).0, (scan [] cs).1)
unfolding scan
scan_feed acc cs c e = rw (e, scan) refl

scan_other :
    (acc cs : List ℕ) (c : ℕ)
    → (c == line_feed) ≡ false
    → scan acc (c ∷ cs) ≡ scan (acc ++ c ∷ []) cs
unfolding scan
scan_other acc cs c e = rw (e, scan) refl

unbroken_tail :
    (c : ℕ) (cs : List ℕ)
    → split_line (c ∷ cs) ≡ none
    → ((c == line_feed) ≡ false) × (split_line cs ≡ none)
unfolding split_line
unbroken_tail c cs h = ground arith

pub scan-unbroken : (acc cs : List ℕ) → split_line cs ≡ none → scan acc cs ≡ ([], acc ++ cs)
unfolding scan
scan-unbroken acc [] h = ap (λ b. ([], b)) (sym (append-nil acc))
scan-unbroken acc (c ∷ cs) h =
    let (e, t) = unbroken_tail c cs h in
    scan_other acc cs c e
    ∙ scan-unbroken (acc ++ c ∷ []) cs t
    ∙ ap (λ b. ([], b)) (append_assoc acc (c ∷ []) cs)

-- The first line feed is here, or further on.
split_cases :
    (c : ℕ) (cs line after : List ℕ)
    → split_line (c ∷ cs) ≡ some (line, after)
    → (((c == line_feed) ≡ true) × (line ≡ []) × (after ≡ cs))
      ⊎ (((c == line_feed) ≡ false)
          × ((rest : List ℕ) × (split_line cs ≡ some (rest, after)) × (line ≡ c ∷ rest)))
unfolding split_line
split_cases c cs line after h = elim (Bool-cases (c == line_feed)) [
  | inl e ↦ inl (e, ground arith, ground arith)
  | inr e ↦ elim (Option-cases (split_line cs)) [
    | inl n ↦ absurd (ground arith)
    | inr ((l, a), p) ↦ inr (e, (l, ground arith, ground arith))
  ]
]

scan-split :
    (acc cs line after : List ℕ)
    → split_line cs ≡ some (line, after)
    → scan acc cs ≡ (passed_on (acc ++ line) ++ (scan [] after).0, (scan [] after).1)
unfolding split_line
scan-split acc [] line after h = cc
scan-split acc (c ∷ cs) line after h = elim (split_cases c cs line after h) [
  | inl (e, l, a) ↦
      scan_feed acc cs c e
      ∙ ap (λ b. (passed_on b ++ (scan [] cs).0, (scan [] cs).1))
          (sym (ap (λ x. acc ++ x) l ∙ append-nil acc))
      ∙ ap (λ x. (passed_on (acc ++ line) ++ (scan [] x).0, (scan [] x).1)) (sym a)
  | inr (e, (rest, p, l)) ↦
      scan_other acc cs c e
      ∙ scan-split (acc ++ c ∷ []) cs rest after p
      ∙ ap (λ b. (passed_on b ++ (scan [] after).0, (scan [] after).1))
          (append_assoc acc (c ∷ []) rest ∙ ap (λ x. acc ++ x) (sym l))
]

split_line-length :
    (cs line after : List ℕ) → split_line cs ≡ some (line, after) → length after < length cs
unfolding split_line
split_line-length [] line after h = absurd (cc)
split_line-length (c ∷ cs) line after h = elim (split_cases c cs line after h) [
  | inl (e, l, a) ↦ let n = ap length a in omega arith
  | inr (e, (rest, p, l)) ↦ let n = split_line-length cs rest after p in omega arith
]

pub read_lines-scan : (fuel : ℕ) (cs : List ℕ) → length cs < fuel → read_lines fuel cs ≡ scan [] cs
unfolding read_lines
read_lines-scan zero cs h = absurd (omega arith)
read_lines-scan (suc fuel) cs h = elim (Option-cases (split_line cs)) [
  | inl n ↦ rw (n, read_lines) (sym (scan-unbroken [] cs n))
  | inr ((line, after), e) ↦
      let ih =
        read_lines-scan fuel after (let l = split_line-length cs line after e in omega arith) in
      rw (e, read_lines, ih) (sym (scan-split [] cs line after e))
]

-- The lines and the rest of two texts, the second begun with what the first left.
abbrev pub joined :
    List (List ℕ) × List ℕ → (List ℕ → List (List ℕ) × List ℕ) → List (List ℕ) × List ℕ
joined r f = (r.0 ++ (f r.1).0, (f r.1).1)

pub scan-append : (acc cs ds : List ℕ) → scan acc (cs ++ ds) ≡ joined (scan acc cs) (λ m. scan m ds)
unfolding scan
scan-append acc [] ds = refl
scan-append acc (c ∷ cs) ds = elim (Bool-cases (c == line_feed)) [
  | inl e ↦
      scan_feed acc (cs ++ ds) c e
      ∙ ap (λ r. (passed_on acc ++ r.0, r.1)) (scan-append [] cs ds)
      ∙ ap (λ l. (l, (scan (scan [] cs).1 ds).1))
          (sym (append_assoc (passed_on acc) (scan [] cs).0 (scan (scan [] cs).1 ds).0))
      ∙ ap (λ r. joined r (λ m. scan m ds)) (sym (scan_feed acc cs c e))
  | inr e ↦
      scan_other acc (cs ++ ds) c e
      ∙ scan-append (acc ++ c ∷ []) cs ds
      ∙ ap (λ r. joined r (λ m. scan m ds)) (sym (scan_other acc cs c e))
]

-- What is left over has no line feed, so that reading it again gives no line.
split_line-snoc :
    (acc : List ℕ) (c : ℕ)
    → split_line acc ≡ none
    → (c == line_feed) ≡ false
    → split_line (acc ++ c ∷ []) ≡ none
unfolding split_line
split_line-snoc [] c h e = ground arith
split_line-snoc (b ∷ acc) c h e =
    let (f, t) = unbroken_tail b acc h in let ih = split_line-snoc acc c t e in rw (f, ih) refl

pub rest_unbroken : (acc cs : List ℕ) → split_line acc ≡ none → split_line (scan acc cs).1 ≡ none
unfolding scan split_line
rest_unbroken acc [] h = h
rest_unbroken acc (c ∷ cs) h = elim (Bool-cases (c == line_feed)) [
  | inl e ↦ rw (scan_feed acc cs c e) (rest_unbroken [] cs refl)
  | inr e ↦
      rw (scan_other acc cs c e) (rest_unbroken (acc ++ c ∷ []) cs (split_line-snoc acc c h e))
]
