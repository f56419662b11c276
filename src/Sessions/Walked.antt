-- ===== src/Sessions/Walked.antt =====
-- A client that goes back page by page gets the whole session.
use pi_pilot.Base.{
  if_yes, if_no, same_eq, same_refl, ℕ, zero, suc, ◌≤◌, ◌<◌, String, ◌≡◌, refl, sym, ap, ◌∙◌, subst,
  ◌⊎◌, inl, inr, Bool, true, false, Option, none, some, List, [], ◌∷◌, ◌++◌, append_assoc, arith,
  ltb, Bool-cases, nat_key, string_key, same, length, length-append,
}
use pi_pilot.Base.Json.{Fields}
use pi_pilot.Sessions.Pages.{
  Line, tail, before, EntryPageMode, EntryPageQuery, id_of, is_id, entries_of, read_entries_page,
  id_of_first,
}
use pi_pilot.Sessions.Window.{longest}
use pi_pilot.Sessions.Read.{entries_in, items}
use pi_pilot.Sessions.Cursor.{before_cursor, has_cursor}
use pi_pilot.Sessions.Backward.{candidates, read_backward}
use pi_pilot.Sessions.Walk.{
  joined, older, walk_back, capped, IsNamed, IsDistinct, HasRoom, joined_all, named_at,
}

absent_before :
    (c : Option String) (left : List Fields) (first : Fields) (rest : List Fields)
    → has_cursor c (left ++ first ∷ rest) ≡ false
    → is_id (id_of first) c ≡ false
absent_before c [] first rest h = ground arith
absent_before c (x ∷ left) first rest h = absent_before c left first rest (ground arith)

other_id :
    (a b : Option String) (i : String) → b ≡ some i → is_id b a ≡ false → is_id a (some i) ≡ false
other_id none b i e h = refl
other_id (some j) b i e h = elim (Bool-cases (same j i)) [
  | inl t ↦
      let same_text : j ≡ i = same_eq j i t in
      let found : is_id b (some j) ≡ true =
        ap (λ c. is_id c (some j)) e ∙ (ap (λ k. same i k) same_text ∙ same_refl i) in
      absurd (cc)
  | inr f ↦ f
]

-- What is before an entry, where no id stands twice.
before_cursor-at :
    (left : List Fields) (first : Fields) (rest : List Fields) (i : String)
    → id_of first ≡ some i
    → IsDistinct (left ++ first ∷ rest)
    → before_cursor (some i) (left ++ first ∷ rest) ≡ left
before_cursor-at [] first rest i e d =
    if_yes (is_id (id_of first) (some i)) _ _ (ap (λ c. is_id c (some i)) e ∙ same_refl i)
before_cursor-at (x ∷ left) first rest i e d =
    let other =
      other_id (id_of x) (id_of first) i e (absent_before (id_of x) left first rest d.0) in
    if_no (is_id (id_of x) (some i)) _ _ other
    ∙ ap (λ xs. x ∷ xs) (before_cursor-at left first rest i e d.1)

IsDistinct-left : (left rest : List Fields) → IsDistinct (left ++ rest) → IsDistinct left
IsDistinct-left [] rest d = tt
IsDistinct-left (x ∷ left) rest d = (apart left d.0, IsDistinct-left left rest d.1)
  where
    apart :
        (xs : List Fields)
        → has_cursor (id_of x) (xs ++ rest) ≡ false
        → has_cursor (id_of x) xs ≡ false
    apart [] h = refl
    apart (y ∷ xs) h = ground (arith, apart xs)

IsNamed-left :
    (q : EntryPageQuery) (left rest : List Fields) → IsNamed q (left ++ rest) → IsNamed q left
IsNamed-left q [] rest h = tt
IsNamed-left q (x ∷ left) rest h = (h.0, IsNamed-left q left rest h.1)

abbrev moded : EntryPageMode → Option String → EntryPageQuery → EntryPageQuery
moded mode cursor q = record q { mode = mode; cursor = cursor }

IsNamed-mode :
    (q : EntryPageQuery) (mode : EntryPageMode) (c : Option String) (es : List Fields)
    → IsNamed q es
    → IsNamed (moded mode c q) es
IsNamed-mode q mode c [] h = tt
IsNamed-mode q mode c (e ∷ es) h = (h.0, IsNamed-mode q mode c es h.1)

capped-mode :
    (q : EntryPageQuery) (mode : EntryPageMode) (c : Option String) (es : List Fields)
    → capped (moded mode c q) es ≡ capped q es
capped-mode q mode c [] = refl
capped-mode q mode c (e ∷ es) = ap (λ xs. q.cap e ∷ xs) (capped-mode q mode c es)

oldest_of :
    (file : List Line) (q : EntryPageQuery)
    → (read_entries_page file q).oldest_id ≡ id_of_first (read_entries_page file q).entries
unfolding read_entries_page
oldest_of file q = refl

-- A page of the wanted entries, and what is before it.
page_joined :
    (q : EntryPageQuery) (mode : EntryPageMode) (c : Option String) (header : Line) (ls : List Line)
    (es : List Fields) (go : Option String → List Fields × Bool)
    → (mode ≡ tail) ⊎ (mode ≡ before)
    → candidates mode c (entries_in ls) ≡ es
    → HasRoom q.limit
    → IsNamed q es
    → ((left : List Fields) (first : Fields) (rest : List Fields)
        → es ≡ left ++ first ∷ rest
        → go (id_of first) ≡ (capped q left, true))
    → joined (read_entries_page (header ∷ ls) (moded mode c q)) go ≡ (capped q es, true)
page_joined q mode c header ls es go m cands room named before_it =
    let t = moded mode c q in
    let p = read_entries_page (header ∷ ls) t in
    let said = read_backward t header ls m in
    joined_all t p go es (said.0 ∙ ap (λ xs. entries_of (longest t (items t xs))) cands)
      (said.1 ∙ ap (λ xs. ltb (length p.entries) (length xs)) cands) (oldest_of (header ∷ ls) t)
      room (IsNamed-mode q mode c es named)
      (λ left first rest w.
        before_it left first rest w ∙ ap (λ xs. (xs, true)) (sym (capped-mode q mode c left)))
    ∙ ap (λ xs. (xs, true)) (capped-mode q mode c es)

older_all :
    (q : EntryPageQuery) (header : Line) (ls : List Line) (requests : ℕ) (left : List Fields)
    (first : Fields) (rest : List Fields)
    → HasRoom q.limit
    → IsNamed q (entries_in ls)
    → IsDistinct (entries_in ls)
    → entries_in ls ≡ left ++ first ∷ rest
    → length left < requests
    → older q (header ∷ ls) requests (id_of first) ≡ (capped q left, true)
unfolding older
older_all q header ls zero left first rest room named distinct whole enough = absurd (omega arith)
older_all q header ls (suc requests) left first rest room named distinct whole enough =
    let (i, id, kept) = named_at q left first rest (subst (IsNamed q) whole named) in
    let cands : candidates before (id_of first) (entries_in ls) ≡ left =
      ap (before_cursor (id_of first)) whole
      ∙ (ap (λ c. before_cursor c (left ++ first ∷ rest)) id
          ∙ before_cursor-at left first rest i id (subst IsDistinct whole distinct)) in
    page_joined q before (id_of first) header ls left (older q (header ∷ ls) requests) (inr refl)
      cands room (IsNamed-left q left (first ∷ rest) (subst (IsNamed q) whole named))
      (λ l f r w.
        older_all q header ls requests l f (r ++ first ∷ rest) room named distinct
          (whole ∙ (ap (λ xs. xs ++ first ∷ rest) w ∙ append_assoc l (f ∷ r) (first ∷ rest)))
          (omega (arith, ap length w, length-append l (f ∷ r))))

-- A session whose entries have ids that are all different, and keep them when they are capped: a
-- client that asks for the last page and then for what is before it, until there is no more, has
-- after at most as many requests as there are entries, and one more, the capped forms of all entries
-- of the file, in their order, each once.
pub walk_back_all :
    (q : EntryPageQuery) (header : Line) (ls : List Line) (requests : ℕ)
    → HasRoom q.limit
    → IsNamed q (entries_in ls)
    → IsDistinct (entries_in ls)
    → length (entries_in ls) ≤ requests
    → walk_back q (header ∷ ls) requests ≡ (capped q (entries_in ls), true)
unfolding walk_back
walk_back_all q header ls requests room named distinct enough =
    page_joined q tail none header ls (entries_in ls) (older q (header ∷ ls) requests) (inl refl)
      refl room named
      (λ l f r w.
        older_all q header ls requests l f r room named distinct w
          (omega (arith, ap length w, length-append l (f ∷ r))))
