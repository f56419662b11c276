-- ===== src/Sessions/Walk.antt =====
-- A client that goes back through a session page by page.
use pi_pilot.Base.{
  if_yes, if_no, ℕ, zero, suc, ◌+◌, ◌<◌, String, ◌≡◌, refl, sym, ap, ◌∙◌, subst, inl, inr, Bool,
  true, false, Option, none, some, List, [], ◌∷◌, ◌++◌, arith, ltb, if◌then◌else◌, Bool-cases,
  nat_key, string_key, length, length-append,
}
use pi_pilot.Base.Json.{Fields}
use pi_pilot.Sessions.Pages.{
  Line, tail, before, EntryPageQuery, Item, EntryPageResult, id_of, item_of, entries_of,
  read_entries_page, id_of_first,
}
use pi_pilot.Sessions.Window.{in_limit, fits, longest}
use pi_pilot.Sessions.Read.{items}
use pi_pilot.Sessions.Cursor.{has_cursor}

-- The client puts what is older, if there is more, before the page that it has: it asks with the id
-- of the oldest entry of that page.
abbrev pub joined : EntryPageResult → (Option String → List Fields × Bool) → List Fields × Bool
joined p go =
    let (rest, done) = go p.oldest_id in
    if p.has_more then (rest ++ p.entries, done) else (p.entries, true)

-- The pages before an entry, on the number of requests, and whether the last one had no more before
-- it.
unfoldable pub older : EntryPageQuery → List Line → ℕ → Option String → List Fields × Bool
older q file zero cursor = ([], false)
older q file (suc requests) cursor =
    joined (read_entries_page file (record q { mode = before; cursor = cursor }))
      (older q file requests)

-- From the last page on.
unfoldable pub walk_back : EntryPageQuery → List Line → ℕ → List Fields × Bool
walk_back q file requests =
    joined (read_entries_page file (record q { mode = tail; cursor = none }))
      (older q file requests)

-- The capped forms of entries.
abbrev pub capped : EntryPageQuery → List Fields → List Fields
capped q [] = []
capped q (e ∷ es) = q.cap e ∷ capped q es

-- Every entry has an id, which capping keeps.
abbrev pub IsNamed : EntryPageQuery → List Fields → Type 0
IsNamed q [] = Unit
IsNamed q (e ∷ es) = ((i : String) × (id_of e ≡ some i) × (id_of (q.cap e) ≡ some i)) × IsNamed q es

-- No id stands twice.
abbrev pub IsDistinct : List Fields → Type 0
IsDistinct [] = Unit
IsDistinct (e ∷ es) = (has_cursor (id_of e) es ≡ false) × IsDistinct es

-- A page may hold an entry.
abbrev pub HasRoom : Option ℕ → Type 0
HasRoom none = Unit
HasRoom (some n) = 0 < n

capped-append :
    (q : EntryPageQuery) (xs ys : List Fields) → capped q (xs ++ ys) ≡ capped q xs ++ capped q ys
capped-append q [] ys = refl
capped-append q (x ∷ xs) ys = ap (λ zs. q.cap x ∷ zs) (capped-append q xs ys)

entries-items : (q : EntryPageQuery) (es : List Fields) → entries_of (items q es) ≡ capped q es
entries-items q [] = refl
entries-items q (e ∷ es) = ap (λ zs. q.cap e ∷ zs) (entries-items q es)

-- The longest end that fits is an end of the entries, not an empty one.
record IsEnd (q : EntryPageQuery) (es : List Fields) : Type 0 where
  left : List Fields
  first : Fields
  rest : List Fields
  whole : es ≡ left ++ first ∷ rest
  page : longest q (items q es) ≡ items q (first ∷ rest)

room_for : (q : EntryPageQuery) (x : Item) → HasRoom q.limit → fits q (x ∷ []) ≡ true
room_for q x h = of_limit q.limit h
  where
    of_limit : (o : Option ℕ) → HasRoom o → in_limit o (x ∷ []) ≡ true
    of_limit none u = refl
    of_limit (some n) u = ground arith

longest-IsEnd :
    (q : EntryPageQuery) (e : Fields) (es : List Fields) → HasRoom q.limit → IsEnd q (e ∷ es)
unfolding longest
longest-IsEnd q e [] h = record {
  left = [];
  first = e;
  rest = [];
  whole = refl;
  page = if_yes (fits q (item_of q e ∷ [])) _ _ (room_for q (item_of q e) h);
}
longest-IsEnd q e (f ∷ es) h = elim (Bool-cases (fits q (items q (e ∷ f ∷ es)))) [
  | inl t ↦ record {
    left = [];
    first = e;
    rest = f ∷ es;
    whole = refl;
    page = if_yes (fits q (items q (e ∷ f ∷ es))) _ _ t;
  }
  | inr u ↦
      let r = longest-IsEnd q f es h in
      record {
        left = e ∷ r.left;
        first = r.first;
        rest = r.rest;
        whole = ap (λ xs. e ∷ xs) r.whole;
        page = if_no (fits q (items q (e ∷ f ∷ es))) _ _ u ∙ r.page;
      }
]

pub named_at :
    (q : EntryPageQuery) (left : List Fields) (first : Fields) (rest : List Fields)
    → IsNamed q (left ++ first ∷ rest)
    → (i : String) × (id_of first ≡ some i) × (id_of (q.cap first) ≡ some i)
named_at q [] first rest h = h.0
named_at q (x ∷ left) first rest h = named_at q left first rest h.1

length-capped : (q : EntryPageQuery) (es : List Fields) → length (capped q es) ≡ length es
length-capped q [] = refl
length-capped q (e ∷ es) = ap suc (length-capped q es)

empty_of : (xs : List Fields) → length xs ≡ 0 → xs ≡ []
empty_of [] h = refl
empty_of (x ∷ xs) h = absurd (omega arith)

-- A page of entries, and what is before it as the client gets it, are all of the entries.
pub joined_all :
    (q : EntryPageQuery) (p : EntryPageResult) (go : Option String → List Fields × Bool)
    (es : List Fields)
    → p.entries ≡ entries_of (longest q (items q es))
    → p.has_more ≡ ltb (length p.entries) (length es)
    → p.oldest_id ≡ id_of_first p.entries
    → HasRoom q.limit
    → IsNamed q es
    → ((left : List Fields) (first : Fields) (rest : List Fields)
        → es ≡ left ++ first ∷ rest
        → go (id_of first) ≡ (capped q left, true))
    → joined p go ≡ (capped q es, true)
unfolding longest
joined_all q p go [] entries more oldest room named before_it =
    let none_more : p.has_more ≡ false = more ∙ ap (λ xs. ltb (length xs) 0) entries in
    if_no p.has_more _ _ none_more ∙ ap (λ xs. (xs, true)) entries
joined_all q p go (e ∷ es) entries more oldest room named before_it =
    let r = longest-IsEnd q e es room in
    let page : p.entries ≡ capped q (r.first ∷ r.rest) =
      entries ∙ (ap entries_of r.page ∙ entries-items q (r.first ∷ r.rest)) in
    let size : length p.entries ≡ length (r.first ∷ r.rest) =
      ap length page ∙ length-capped q (r.first ∷ r.rest) in
    let sizes : length (e ∷ es) ≡ length r.left + length (r.first ∷ r.rest) =
      ap length r.whole ∙ length-append r.left (r.first ∷ r.rest) in
    let (i, id, kept) = named_at q r.left r.first r.rest (subst (IsNamed q) r.whole named) in
    let back = capped-append q r.left (r.first ∷ r.rest) in
    elim (Bool-cases p.has_more) [
      | inl t ↦
          let asked : go p.oldest_id ≡ (capped q r.left, true) =
            ap go (oldest ∙ (ap id_of_first page ∙ (kept ∙ sym id)))
            ∙ before_it r.left r.first r.rest r.whole in
          if_yes p.has_more _ _ t
          ∙ (ap (λ x. (x.0 ++ p.entries, x.1)) asked
              ∙ ap (λ xs. (xs, true))
                  (ap (λ xs. capped q r.left ++ xs) page
                    ∙ (sym back ∙ ap (capped q) (sym r.whole))))
      | inr f ↦
          let none_left : r.left ≡ [] = empty_of r.left (ground (arith, more, f, size, sizes)) in
          if_no p.has_more _ _ f
          ∙ ap (λ xs. (xs, true))
              (page ∙ ap (capped q) (sym (r.whole ∙ ap (λ xs. xs ++ r.first ∷ r.rest) none_left)))
    ]
