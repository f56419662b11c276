-- ===== src/Lines/Chunks.antt =====
-- How a process's output is cut into chunks makes no difference to the lines that are read.
use pi_pilot.Base.{
  ℕ, suc, ◌≡◌, refl, sym, ap, ◌∙◌, none, List, [], ◌∷◌, ◌++◌, append_assoc, append-nil, map, arith,
  nat_key, string_key, length,
}
use pi_pilot.Lines.{Reader, split_line, take_text, push, push_all}
use pi_pilot.Lines.Joined.{scan, scan-append, scan-unbroken, read_lines-scan, rest_unbroken, joined}

abbrev pub whole_text : List (List ℕ) → List ℕ
whole_text [] = []
whole_text (c ∷ cs) = c ++ whole_text cs

-- What one pass over a text gives.
abbrev result : List (List ℕ) × List ℕ → Reader × List (List ℕ)
result r = (record { buffer = r.1 }, r.0)

take_text-scan :
    (chunk : List ℕ) (r : Reader) → take_text chunk r ≡ result (scan [] (r.buffer ++ chunk))
unfolding take_text
take_text-scan chunk r =
    ap result (read_lines-scan (suc (length (r.buffer ++ chunk))) (r.buffer ++ chunk) (omega arith))

-- A text read after what was left of another.
resumed : (m w : List ℕ) → split_line m ≡ none → scan [] (m ++ w) ≡ scan m w
resumed m w h = scan-append [] m w ∙ ap (λ r. joined r (λ n. scan n w)) (scan-unbroken [] m h)

take_then :
    (chunk w : List ℕ) (r : Reader)
    → take_text (chunk ++ w) r ≡ result (joined (scan [] (r.buffer ++ chunk)) (λ n. scan n w))
take_then chunk w r =
    take_text-scan (chunk ++ w) r
    ∙ ap (λ t. result (scan [] t)) (sym (append_assoc r.buffer chunk w))
    ∙ ap result (scan-append [] (r.buffer ++ chunk) w)

texts_joined :
    (decode : List ℕ → List ℕ) (chunks : List (List ℕ)) (r : Reader)
    → split_line r.buffer ≡ none
    → push_all decode chunks r ≡ take_text (whole_text (map decode chunks)) r
unfolding push_all push
texts_joined decode [] r h = sym (
    take_text-scan [] r
    ∙ ap (λ t. result (scan [] t)) (append-nil r.buffer)
    ∙ ap result (scan-unbroken [] r.buffer h))
texts_joined decode (c ∷ cs) r h =
    let t = scan [] (r.buffer ++ decode c) in
    let s : Reader = record { buffer = t.1 } in
    let rest = whole_text (map decode cs) in
    let left = rest_unbroken [] (r.buffer ++ decode c) unbroken_nil in
    let ih = texts_joined decode cs s left in
    let again = take_text-scan rest s ∙ ap result (resumed t.1 rest left) in
    ap (λ p. ((push_all decode cs p.0).0, p.1 ++ (push_all decode cs p.0).1))
      (take_text-scan (decode c) r)
    ∙ ap (λ p. (p.0, t.0 ++ p.1)) (ih ∙ again)
    ∙ sym (take_then (decode c) rest r)
  where
    unbroken_nil : split_line [] ≡ none
    unbroken_nil = unfold split_line in refl

-- No chunk ends inside a character: decoded one by one they are the text that they are together.
abbrev pub AreWhole : (List ℕ → List ℕ) → List (List ℕ) → Type 0
AreWhole decode chunks = decode (whole_text chunks) ≡ whole_text (map decode chunks)

-- Reading a process's output in chunks none of which ends inside a character calls `onLine` with the
-- same lines, in the same order, and leaves the same in the buffer, as reading it at once, where no
-- line waits in the buffer.
pub push_all-joined :
    (decode : List ℕ → List ℕ) (chunks : List (List ℕ)) (r : Reader)
    → AreWhole decode chunks
    → split_line r.buffer ≡ none
    → push_all decode chunks r ≡ push decode (whole_text chunks) r
unfolding push
push_all-joined decode chunks r uncut h =
    texts_joined decode chunks r h ∙ ap (λ t. take_text t r) (sym uncut)
