-- ===== src/Sessions/Backward.antt =====
-- A page that is read from the end of a file, or backward from an entry.
use pi_pilot.Base.{
  String, ◌≡◌, refl, sym, ap, subst, ◌⊎◌, inl, inr, false, Option, List, [], ◌∷◌, arith, ltb,
  nat_key, string_key, length,
}
use pi_pilot.Base.Json.{Fields}
use pi_pilot.Sessions.Pages.{
  has_more_by, Line, empty_line, full_line, partial_line, tail, before, since, EntryPageQuery, Scan,
  new_scan, EntryPageMode, on_line, scan_lines, entries_of, read_entries_page,
}
use pi_pilot.Sessions.Window.{longest}
use pi_pilot.Sessions.Read.{entries_in, items, Holds, HasTail, scan_lines-HasTail}
use pi_pilot.Sessions.Cursor.{before_cursor, HasBefore, scan_lines-Step}

-- The header is passed over.
after_header : (q : EntryPageQuery) (header : Line) → Holds q [] (on_line q header new_scan)
unfolding on_line longest
after_header q empty_line = record { window = refl; started = omega arith }
after_header q (full_line bytes raw) = record { window = refl; started = omega arith }
after_header q (partial_line bytes) = record { window = refl; started = omega arith }

after_header-HasTail :
    (q : EntryPageQuery) (header : Line) → HasTail q [] (on_line q header new_scan)
unfolding on_line
after_header-HasTail q empty_line = record { held = after_header q empty_line; all = refl }
after_header-HasTail q (full_line bytes raw) = record {
  held = after_header q (full_line bytes raw);
  all = refl;
}
after_header-HasTail q (partial_line bytes) = record {
  held = after_header q (partial_line bytes);
  all = refl;
}

after_header-HasBefore :
    (q : EntryPageQuery) (header : Line) → HasBefore q [] false (on_line q header new_scan)
unfolding on_line
after_header-HasBefore q empty_line = record {
  held = after_header q empty_line;
  all = refl;
  found = refl;
}
after_header-HasBefore q (full_line bytes raw) = record {
  held = after_header q (full_line bytes raw);
  all = refl;
  found = refl;
}
after_header-HasBefore q (partial_line bytes) = record {
  held = after_header q (partial_line bytes);
  all = refl;
  found = refl;
}

-- What a page that is read backward is taken of.
abbrev pub candidates : EntryPageMode → Option String → List Fields → List Fields
candidates tail c es = es
candidates before c es = before_cursor c es
candidates since c es = []

-- What a scan says, by the mode.
abbrev Says : EntryPageQuery → List Fields → EntryPageMode → Scan → Type 0
Says q es mode s =
    (entries_of s.window ≡ entries_of (longest q (items q (candidates mode q.cursor es))))
    × (has_more_by mode s
        ≡ ltb (length (entries_of s.window)) (length (candidates mode q.cursor es)))

-- A page from the end of a file, or backward from an entry, holds the longest run of the file's
-- entries, up to its end or to that entry, whose capped forms fit on a page, in their order; and it
-- says that there are more just if the run leaves some out.
pub read_backward :
    (q : EntryPageQuery) (header : Line) (ls : List Line)
    → (q.mode ≡ tail) ⊎ (q.mode ≡ before)
    → ((read_entries_page (header ∷ ls) q).entries
        ≡ entries_of (longest q (items q (candidates q.mode q.cursor (entries_in ls)))))
      × ((read_entries_page (header ∷ ls) q).has_more
          ≡ ltb
              (length (read_entries_page (header ∷ ls) q).entries)
              (length (candidates q.mode q.cursor (entries_in ls))))
unfolding read_entries_page scan_lines
read_backward q header ls (inl m) =
    let first = on_line q header new_scan in
    let h = scan_lines-HasTail q ls [] first m (after_header-HasTail q header) in
    let s = scan_lines q ls first in
    subst (λ k. Says q (entries_in ls) k s) (sym m)
      (ap (λ w. entries_of w.0) h.held.window, ap (λ n. ltb (length (entries_of s.window)) n) h.all)
read_backward q header ls (inr m) =
    let first = on_line q header new_scan in
    let h = (scan_lines-Step q ls [] false first m (after_header-HasBefore q header)).step in
    let s = scan_lines q ls first in
    subst (λ k. Says q (entries_in ls) k s) (sym m)
      (ap (λ w. entries_of w.0) h.held.window, ap (λ n. ltb (length (entries_of s.window)) n) h.all)
