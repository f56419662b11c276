-- ===== src/Sessions/Cursor.antt =====
-- What is read up to the entry that a cursor names.
use pi_pilot.Base.{
  if_yes, if_no, ℕ, ◌+◌, String, ◌≡◌, refl, sym, ap, ◌∙◌, subst, inl, inr, Bool, true, false, ◌||◌,
  Option, List, [], ◌∷◌, ◌++◌, append_assoc, append-nil, arith, if◌then◌else◌, Bool-cases, nat_key,
  string_key, length, length-snoc,
}
use pi_pilot.Base.Json.{Fields}
use pi_pilot.Sessions.Pages.{
  Line, empty_line, full_line, partial_line, before, EntryPageQuery, Scan, id_of, is_id, counted,
  pushed, on_before, by_mode, on_line, scan_lines,
}
use pi_pilot.Sessions.Read.{entry_in, entries_in, Holds, window_after, one_line, later_line}

-- The entries before the first one that the cursor names, and whether there is one.
abbrev pub before_cursor : Option String → List Fields → List Fields
before_cursor c [] = []
before_cursor c (e ∷ es) =
    let rest = before_cursor c es in if is_id (id_of e) c then [] else e ∷ rest

abbrev pub has_cursor : Option String → List Fields → Bool
has_cursor c [] = false
has_cursor c (e ∷ es) = is_id (id_of e) c || has_cursor c es

-- Entries are counted up to the cursor, which comes in between what was read and what comes.
pub record HasBefore (q : EntryPageQuery) (es : List Fields) (seen : Bool) (s : Scan) : Type 0 where
  pub held : Holds q es s
  pub all : s.before_count ≡ length es
  pub found : s.cursor_seen ≡ seen

abbrev pub further : Bool → Option String → List Fields → List Fields
further true c es = []
further false c es = before_cursor c es

pub record Step (q : EntryPageQuery) (es : List Fields) (seen : Bool) (more : List Fields)
    (s : Scan) : Type 0 where
  pub step : HasBefore q (es ++ further seen q.cursor more) (seen || has_cursor q.cursor more) s

on_before-seen :
    (q : EntryPageQuery) (raw : Fields) (s : Scan) → s.cursor_seen ≡ true → on_before q raw s ≡ s
unfolding on_before
on_before-seen q raw s h = if_yes s.cursor_seen _ _ h

on_before-cursor :
    (q : EntryPageQuery) (raw : Fields) (s : Scan)
    → s.cursor_seen ≡ false
    → is_id (id_of raw) q.cursor ≡ true
    → on_before q raw s ≡ record s { cursor_seen = true }
unfolding on_before
on_before-cursor q raw s h c = if_no s.cursor_seen _ _ h ∙ if_yes (is_id (id_of raw) q.cursor) _ _ c

on_before-other :
    (q : EntryPageQuery) (raw : Fields) (s : Scan)
    → s.cursor_seen ≡ false
    → is_id (id_of raw) q.cursor ≡ false
    → on_before q raw s ≡ pushed q raw (record s { before_count = s.before_count + 1 })
unfolding on_before
on_before-other q raw s h c = if_no s.cursor_seen _ _ h ∙ if_no (is_id (id_of raw) q.cursor) _ _ c

before_one :
    (q : EntryPageQuery) (bytes : ℕ) (raw : Fields) (es : List Fields) (seen : Bool) (s : Scan)
    → HasBefore q es seen s
    → Step q es seen (raw ∷ []) (on_before q raw (counted raw (one_line bytes s)))
before_one q bytes raw es true s h =
    subst (Step q es true (raw ∷ []))
      (sym (on_before-seen q raw (counted raw (one_line bytes s)) h.found))
      (record {
        step = rw (append-nil es) (record {
          held = record { window = h.held.window; started = omega arith };
          all = h.all;
          found = h.found;
        });
      })
before_one q bytes raw es false s h = elim (Bool-cases (is_id (id_of raw) q.cursor)) [
  | inl c ↦
      subst (Step q es false (raw ∷ []))
        (sym (on_before-cursor q raw (counted raw (one_line bytes s)) h.found c))
        (record {
          step =
              rw (c, append-nil es)
                (record {
                  held = record { window = h.held.window; started = omega arith };
                  all = h.all;
                  found = refl;
                });
        })
  | inr c ↦
      subst (Step q es false (raw ∷ []))
        (sym (on_before-other q raw (counted raw (one_line bytes s)) h.found c))
        (record {
          step = rw c (record {
            held = record {
              window = window_after q es raw (s.window, s.window_bytes) h.held.window;
              started = omega arith;
            };
            all = omega (arith, h.all, length-snoc es raw);
            found = h.found;
          });
        })
]

nothing_more :
    (q : EntryPageQuery) (es : List Fields) (seen : Bool) (s : Scan)
    → HasBefore q es seen s
    → Step q es seen [] s
nothing_more q es true s h = record { step = rw (append-nil es) h }
nothing_more q es false s h = record { step = rw (append-nil es) h }

on_line-Step :
    (q : EntryPageQuery) (l : Line) (es : List Fields) (seen : Bool) (s : Scan)
    → q.mode ≡ before
    → HasBefore q es seen s
    → Step q es seen (entry_in l) (on_line q l s)
unfolding on_line by_mode
on_line-Step q empty_line es seen s m h = nothing_more q es seen _ (record {
  held = record { window = h.held.window; started = omega arith };
  all = h.all;
  found = h.found;
})
on_line-Step q (partial_line bytes) es seen s m h = nothing_more q es seen _ (record {
  held = record { window = h.held.window; started = omega arith };
  all = h.all;
  found = h.found;
})
on_line-Step q (full_line bytes raw) es seen s m h =
    subst (Step q es seen (raw ∷ [])) (later_line q before bytes raw s m h.held.started)
      (before_one q bytes raw es seen s h)

further-append :
    (c : Option String) (seen : Bool) (xs ys : List Fields)
    → further seen c xs ++ further (seen || has_cursor c xs) c ys ≡ further seen c (xs ++ ys)
further-append c true xs ys = refl
further-append c false [] ys = refl
further-append c false (x ∷ xs) ys = elim (Bool-cases (is_id (id_of x) c)) [
  | inl t ↦ rw t refl
  | inr f ↦ rw f (ap (λ zs. x ∷ zs) (further-append c false xs ys))
]

has_cursor-append :
    (c : Option String) (seen : Bool) (xs ys : List Fields)
    → ((seen || has_cursor c xs) || has_cursor c ys) ≡ (seen || has_cursor c (xs ++ ys))
has_cursor-append c true xs ys = refl
has_cursor-append c false [] ys = refl
has_cursor-append c false (x ∷ xs) ys = ground (arith, has_cursor-append c false xs ys)

pub scan_lines-Step :
    (q : EntryPageQuery) (ls : List Line) (es : List Fields) (seen : Bool) (s : Scan)
    → q.mode ≡ before
    → HasBefore q es seen s
    → Step q es seen (entries_in ls) (scan_lines q ls s)
unfolding scan_lines
scan_lines-Step q [] es seen s m h = nothing_more q es seen s h
scan_lines-Step q (l ∷ ls) es seen s m h =
    let c = q.cursor in
    let first = further seen c (entry_in l) in
    let now_seen = seen || has_cursor c (entry_in l) in
    let next = further now_seen c (entries_in ls) in
    let one = (on_line-Step q l es seen s m h).step in
    let rest = (scan_lines-Step q ls (es ++ first) now_seen (on_line q l s) m one).step in
    let end = scan_lines q ls (on_line q l s) in
    let all_seen = has_cursor-append c seen (entry_in l) (entries_in ls) in
    record {
      step =
          subst (λ xs. HasBefore q xs (seen || has_cursor c (entry_in l ++ entries_in ls)) end)
            (append_assoc es first next
              ∙ ap (λ xs. es ++ xs) (further-append c seen (entry_in l) (entries_in ls)))
            (subst (λ b. HasBefore q ((es ++ first) ++ next) b end) all_seen rest);
    }
