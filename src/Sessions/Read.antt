-- ===== src/Sessions/Read.antt =====
-- The pages that are read from the end of a file, or backward from an entry.
use pi_pilot.Base.{
  if_no, ℕ, ◌+◌, ◌<◌, ◌≡◌, refl, sym, ap, ◌∙◌, subst, false, List, [], ◌∷◌, ◌++◌, append_assoc,
  append-nil, arith, ◌==◌, nat_key, string_key, length, length-snoc,
}
use pi_pilot.Base.Json.{Fields}
use pi_pilot.Sessions.Pages.{
  Line, empty_line, full_line, partial_line, tail, EntryPageQuery, Item, Scan, item_of, push_tail,
  by_mode, EntryPageMode, on_line, scan_lines,
}
use pi_pilot.Sessions.Window.{longest, with_total, push_tail-longest}

-- The entries of the lines after the header.
abbrev pub entry_in : Line → List Fields
entry_in empty_line = []
entry_in (full_line bytes raw) = raw ∷ []
entry_in (partial_line bytes) = []

abbrev pub entries_in : List Line → List Fields
entries_in [] = []
entries_in (l ∷ ls) = entry_in l ++ entries_in ls

abbrev pub items : EntryPageQuery → List Fields → List Item
items q [] = []
items q (e ∷ es) = item_of q e ∷ items q es

pub items-append :
    (q : EntryPageQuery) (xs ys : List Fields) → items q (xs ++ ys) ≡ items q xs ++ items q ys
items-append q [] ys = refl
items-append q (x ∷ xs) ys = ap (λ zs. item_of q x ∷ zs) (items-append q xs ys)

-- The window holds the longest end of the entries so far.
pub record Holds (q : EntryPageQuery) (es : List Fields) (s : Scan) : Type 0 where
  pub window : (s.window, s.window_bytes) ≡ with_total (longest q (items q es))
  pub started : 0 < s.line_no

pub window_after :
    (q : EntryPageQuery) (es : List Fields) (e : Fields) (w : List Item × ℕ)
    → w ≡ with_total (longest q (items q es))
    → push_tail q (item_of q e) w ≡ with_total (longest q (items q (es ++ e ∷ [])))
window_after q es e w h =
    ap (push_tail q (item_of q e)) h
    ∙ (push_tail-longest q (items q es) (item_of q e)
        ∙ ap (λ xs. with_total (longest q xs)) (sym (items-append q es (e ∷ []))))

abbrev pub one_line : ℕ → Scan → Scan
one_line bytes s = record s { line_no = s.line_no + 1; scanned_bytes = s.scanned_bytes + bytes }

-- A line after the header goes by the mode.
pub later_line :
    (q : EntryPageQuery) (mode : EntryPageMode) (bytes : ℕ) (raw : Fields) (s : Scan)
    → q.mode ≡ mode
    → 0 < s.line_no
    → by_mode mode q raw (one_line bytes s) ≡ on_line q (full_line bytes raw) s
unfolding on_line
later_line q mode bytes raw s m h =
    let later : (s.line_no + 1 == 1) ≡ false = ground arith in
    ap (λ k. by_mode k q raw (one_line bytes s)) (sym m)
    ∙ sym (if_no (s.line_no + 1 == 1) _ _ later)

-- Every entry is counted in tail mode.
pub record HasTail (q : EntryPageQuery) (es : List Fields) (s : Scan) : Type 0 where
  pub held : Holds q es s
  pub all : s.scanned_entries ≡ length es

on_line-HasTail :
    (q : EntryPageQuery) (l : Line) (es : List Fields) (s : Scan)
    → q.mode ≡ tail
    → HasTail q es s
    → HasTail q (es ++ entry_in l) (on_line q l s)
unfolding on_line by_mode
on_line-HasTail q empty_line es s m h =
    rw (append-nil es)
      (record { held = record { window = h.held.window; started = omega arith }; all = h.all })
on_line-HasTail q (partial_line bytes) es s m h =
    rw (append-nil es)
      (record { held = record { window = h.held.window; started = omega arith }; all = h.all })
on_line-HasTail q (full_line bytes raw) es s m h =
    subst (HasTail q (es ++ raw ∷ [])) (later_line q tail bytes raw s m h.held.started) (record {
      held = record {
        window = window_after q es raw (s.window, s.window_bytes) h.held.window;
        started = omega arith;
      };
      all = omega (arith, h.all, length-snoc es raw);
    })

pub scan_lines-HasTail :
    (q : EntryPageQuery) (ls : List Line) (es : List Fields) (s : Scan)
    → q.mode ≡ tail
    → HasTail q es s
    → HasTail q (es ++ entries_in ls) (scan_lines q ls s)
unfolding scan_lines
scan_lines-HasTail q [] es s m h = rw (append-nil es) h
scan_lines-HasTail q (l ∷ ls) es s m h =
    subst (λ xs. HasTail q xs (scan_lines q ls (on_line q l s)))
      (append_assoc es (entry_in l) (entries_in ls))
      (scan_lines-HasTail q ls (es ++ entry_in l) (on_line q l s) m (on_line-HasTail q l es s m h))
