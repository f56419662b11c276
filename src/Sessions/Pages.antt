-- ===== src/Sessions/Pages.antt =====
-- The reader of a session file's entries. An entry is the object that a line parses to; its capped
-- form and the bytes of that form's JSON text are the caller's.
use pi_pilot.Base.{
  ℕ, ◌+◌, ◌-◌, max, String, Bool, true, false, ◌&&◌, ◌||◌, not, Option, none, some, List, [], ◌∷◌,
  ◌++◌, ltb, leb, ◌==◌, if◌then◌else◌, nat_key, string_key, same, length, last?,
}
use pi_pilot.Base.Json.{Fields, lookup, as_text}

-- A line of the file: empty, or with its bytes and the object it parses to; the last line may be
-- one that is still being written.
pub data Line : Type 0 where
  empty_line : Line
  full_line : ℕ → Fields → Line
  partial_line : ℕ → Line

pub data EntryPageMode : Type 0 where
  tail before since : EntryPageMode

pub record EntryPageQuery : Type 0 where
  pub mode : EntryPageMode
  pub cursor : Option String
  pub budget_bytes : ℕ
  pub cap : Fields → Fields
  pub bytes_of : Fields → ℕ
  pub tip_id : Option String
  pub limit : Option ℕ

-- An entry of the window, with the bytes of its capped form.
pub record Item : Type 0 where
  pub entry : Fields
  pub bytes : ℕ

-- The variables of `readEntriesPage`
pub record Scan : Type 0 where
  pub window : List Item
  pub window_bytes : ℕ
  pub leaf_id : Option String
  pub scanned_entries : ℕ
  pub scanned_bytes : ℕ
  pub line_no : ℕ
  pub cursor_seen : Bool
  pub before_count : ℕ
  pub collecting : Bool
  pub stopped : Bool
  pub more_after_page : Bool
  pub tip_reached : Bool

abbrev pub new_scan : Scan
new_scan = record {
  window = [];
  window_bytes = 0;
  leaf_id = none;
  scanned_entries = 0;
  scanned_bytes = 0;
  line_no = 0;
  cursor_seen = false;
  before_count = 0;
  collecting = false;
  stopped = false;
  more_after_page = false;
  tip_reached = false;
}

abbrev pub budget : EntryPageQuery → ℕ
budget q = max 4096 q.budget_bytes

abbrev pub id_of : Fields → Option String
id_of e = as_text (lookup "id" e)

-- `id !== null && id === query.cursor`
abbrev pub is_id : Option String → Option String → Bool
is_id (some a) (some b) = same a b
is_id (some a) none = false
is_id none b = false

-- The two loops of `pushTail`
unfoldable pub drop_over_budget : ℕ → List Item → ℕ → List Item × ℕ
drop_over_budget limit [] bytes = ([], bytes)
drop_over_budget limit (x ∷ []) bytes = (x ∷ [], bytes)
drop_over_budget limit (x ∷ y ∷ xs) bytes =
    let rest = drop_over_budget limit (y ∷ xs) (bytes - x.bytes) in
    if ltb limit bytes then rest else (x ∷ y ∷ xs, bytes)

unfoldable pub drop_over_limit : ℕ → List Item → ℕ → List Item × ℕ
drop_over_limit limit [] bytes = ([], bytes)
drop_over_limit limit (x ∷ xs) bytes =
    let rest = drop_over_limit limit xs (bytes - x.bytes) in
    if ltb limit (length (x ∷ xs)) then rest else (x ∷ xs, bytes)

abbrev pub limited : Option ℕ → List Item × ℕ → List Item × ℕ
limited none w = w
limited (some limit) (xs, bytes) = drop_over_limit limit xs bytes

unfoldable pub push_tail : EntryPageQuery → Item → List Item × ℕ → List Item × ℕ
push_tail q item (window, bytes) =
    limited q.limit (drop_over_budget (budget q) (window ++ item ∷ []) (bytes + item.bytes))

abbrev pub item_of : EntryPageQuery → Fields → Item
item_of q raw = record { entry = q.cap raw; bytes = q.bytes_of (q.cap raw) }

abbrev pub pushed : EntryPageQuery → Fields → Scan → Scan
pushed q raw s =
    let w = push_tail q (item_of q raw) (s.window, s.window_bytes) in
    record s { window = w.0; window_bytes = w.1 }

abbrev pub or_first : Option String → Option String → Option String
or_first none old = old
or_first (some a) old = some a

-- What every entry does before the mode is looked at.
abbrev pub counted : Fields → Scan → Scan
counted raw s = record s {
  scanned_entries = s.scanned_entries + 1;
  leaf_id = or_first (id_of raw) s.leaf_id;
}

unfoldable pub on_before : EntryPageQuery → Fields → Scan → Scan
on_before q raw s =
    if s.cursor_seen
    then s
    else if is_id (id_of raw) q.cursor
    then record s { cursor_seen = true }
    else pushed q raw (record s { before_count = s.before_count + 1 })

abbrev pub is_tip : Option String → Option String → Bool
is_tip id none = false
is_tip id (some tip) = is_id id (some tip)

abbrev pub is_full : Option ℕ → List Item → Bool
is_full none w = false
is_full (some limit) w = leb limit (length w)

unfoldable pub on_since : EntryPageQuery → Fields → Scan → Scan
on_since q raw s =
    let item = item_of q raw in
    let taken = record s {
      window = s.window ++ item ∷ [];
      window_bytes = s.window_bytes + item.bytes;
    } in
    if not s.collecting
    then if is_id (id_of raw) q.cursor
      then record s { cursor_seen = true; collecting = true }
      else s
    else if s.stopped
    then s
    else if (ltb 0 (length s.window) && ltb (budget q) (s.window_bytes + item.bytes))
        || is_full q.limit s.window
    then record s { stopped = true; more_after_page = true }
    else if is_tip (id_of raw) q.tip_id
    then record taken { tip_reached = true; stopped = true }
    else taken

unfoldable pub by_mode : EntryPageMode → EntryPageQuery → Fields → Scan → Scan
by_mode tail q raw s = pushed q raw (counted raw s)
by_mode before q raw s = on_before q raw (counted raw s)
by_mode since q raw s = on_since q raw (counted raw s)

abbrev pub on_entry : EntryPageQuery → Fields → Scan → Scan
on_entry q raw s = by_mode q.mode q raw s

-- One round of the loop: the first line is the session's header.
unfoldable pub on_line : EntryPageQuery → Line → Scan → Scan
on_line q empty_line s = record s { line_no = s.line_no + 1 }
on_line q (partial_line bytes) s = record s {
  line_no = s.line_no + 1;
  scanned_bytes = s.scanned_bytes + bytes;
}
on_line q (full_line bytes raw) s =
    let s' = record s { line_no = s.line_no + 1; scanned_bytes = s.scanned_bytes + bytes } in
    if s'.line_no == 1 then s' else on_entry q raw s'

unfoldable pub scan_lines : EntryPageQuery → List Line → Scan → Scan
scan_lines q [] s = s
scan_lines q (l ∷ ls) s = scan_lines q ls (on_line q l s)

pub record EntryPageResult : Type 0 where
  pub entries : List Fields
  pub leaf_id : Option String
  pub oldest_id : Option String
  pub has_more : Bool
  pub next_since_id : Option String
  pub tip_id : Option String
  pub cursor_not_found : Bool
  pub scanned_entries : ℕ
  pub scanned_bytes : ℕ

abbrev pub entries_of : List Item → List Fields
entries_of [] = []
entries_of (x ∷ xs) = x.entry ∷ entries_of xs

abbrev pub id_of_first : List Fields → Option String
id_of_first [] = none
id_of_first (e ∷ es) = id_of e

abbrev pub id_of_last : Option Fields → Option String
id_of_last none = none
id_of_last (some e) = id_of e

abbrev pub is_tail : EntryPageMode → Bool
is_tail m = elim m [ tail ↦ true | before ↦ false | since ↦ false ]

abbrev pub has_more_by : EntryPageMode → Scan → Bool
has_more_by tail s = ltb (length (entries_of s.window)) s.scanned_entries
has_more_by before s = ltb (length (entries_of s.window)) s.before_count
has_more_by since s = s.more_after_page

abbrev pub page_of : EntryPageQuery → Scan → EntryPageResult
page_of q s = record {
  entries = entries_of s.window;
  leaf_id = s.leaf_id;
  oldest_id = id_of_first (entries_of s.window);
  has_more = has_more_by q.mode s;
  next_since_id = id_of_last (last? (entries_of s.window));
  tip_id = or_first q.tip_id s.leaf_id;
  cursor_not_found = not (is_tail q.mode) && not s.cursor_seen;
  scanned_entries = s.scanned_entries;
  scanned_bytes = s.scanned_bytes;
}

-- `readEntriesPage` of a file that can be read.
unfoldable pub read_entries_page : List Line → EntryPageQuery → EntryPageResult
read_entries_page file q = page_of q (scan_lines q file new_scan)
