-- ===== src/Sessions/Tests.antt =====
-- The pages at a concrete file.
use pi_pilot.Base.{
  String, ◌≡◌, refl, inr, true, none, some, List, [], ◌∷◌, arith, ltb, String_discrete, nat_key,
  string_key, length,
}
use pi_pilot.Base.Json.{Fields, text, field, end, lookup}
use pi_pilot.Sessions.Pages.{
  Line, full_line, partial_line, before, since, EntryPageQuery, entries_of, read_entries_page,
  scan_lines, on_line, by_mode, on_since, on_before, push_tail, drop_over_budget,
}
use pi_pilot.Sessions.Window.{longest}
use pi_pilot.Sessions.Read.{entries_in, items}
use pi_pilot.Sessions.Backward.{candidates, read_backward}
use pi_pilot.Sessions.Walk.{walk_back, older, capped, IsNamed, IsDistinct}
use pi_pilot.Sessions.Walked.{walk_back_all}

abbrev entry : String → Fields
entry id = field "id" (text id) end

abbrev header : Line
header = full_line 10 (field "type" (text "session") end)

abbrev lines : List Line
lines =
    full_line 10 (entry "a")
    ∷ full_line 10 (entry "b")
    ∷ full_line 10 (entry "c")
    ∷ partial_line 3
    ∷ []

abbrev query : EntryPageQuery
query = record {
  mode = before;
  cursor = some "c";
  budget_bytes = 0;
  cap = λ e. e;
  bytes_of = λ e. 2000;
  tip_id = none;
  limit = none;
}

two_before : (read_entries_page (header ∷ lines) query).entries ≡ entry "a" ∷ entry "b" ∷ []
unfolding read_entries_page scan_lines on_line by_mode on_before push_tail drop_over_budget lookup
    String_discrete
two_before = refl

-- Of three entries two are on the last page, and one on the page before it.
three_in_two : walk_back query (header ∷ lines) 2 ≡ (entry "a" ∷ entry "b" ∷ entry "c" ∷ [], true)
unfolding walk_back older read_entries_page scan_lines on_line by_mode on_before push_tail
    drop_over_budget lookup String_discrete
three_in_two = refl

read_backward_example :
    ((read_entries_page (header ∷ lines) query).entries
      ≡ entries_of (longest query (items query (candidates before (some "c") (entries_in lines)))))
    × ((read_entries_page (header ∷ lines) query).has_more
        ≡ ltb
            (length (read_entries_page (header ∷ lines) query).entries)
            (length (candidates before (some "c") (entries_in lines))))
read_backward_example = read_backward query header lines (inr refl)

named : IsNamed query (entries_in lines)
unfolding lookup String_discrete
named = (("a", refl, refl), (("b", refl, refl), (("c", refl, refl), tt)))

distinct : IsDistinct (entries_in lines)
unfolding lookup String_discrete
distinct = (refl, (refl, (refl, tt)))

walk_back_all_example : walk_back query (header ∷ lines) 3 ≡ (capped query (entries_in lines), true)
walk_back_all_example = walk_back_all query header lines 3 tt named distinct (omega arith)

-- A page after the entry that is also the tip does not stop there.
past_the_tip :
    (read_entries_page
      (header ∷ lines)
      (record query { mode = since; cursor = some "a"; tip_id = some "a" })).entries
    ≡ entry "b" ∷ entry "c" ∷ []
unfolding read_entries_page scan_lines on_line by_mode on_since lookup String_discrete
past_the_tip = refl
