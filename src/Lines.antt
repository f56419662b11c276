-- ===== src/Lines.antt =====
-- bridge/src/pi_process.ts: the JSONL reader of a pi process, `push`. A text is the list of its
-- characters' codes; a chunk is its bytes, which are decoded chunk by chunk.
pub mod Joined
pub mod Chunks
mod Tests
use pi_pilot.Base.{
  ℕ, zero, suc, ◌+◌, ◌-◌, ◌*◌, ◌/◌, ◌%◌, ◌^◌, ◌≤◌, ◌<◌, max, min, String, ◌≡◌, refl, sym, ap, ◌∙◌,
  subst, ◌≢◌, ◌↔◌, ◌⊎◌, inl, inr, ite, dite, if_pos, if_neg, Bool, true, false, ◌&&◌, ◌||◌, not,
  Option, none, some, List, [], ◌∷◌, ◌++◌, map, append_assoc, append-nil, arith, dec_lt, dec_le,
  ℕ_discrete, ltb, leb, ◌==◌, if◌then◌else◌, ltb→lt, lt→ltb, leb→le, tests, Bool-cases,
  Option-cases, is_some, or_else, String_discrete, text_ne, Key, nat_key, string_key, same, length,
  get_elem?, set, take, drop, replicate, keep_if, all, last?, length-append, length-snoc,
  length-keep_if-le, length-replicate, length-set, take-append-drop, length-take, length-drop, sum,
  sum-append,
}

abbrev pub line_feed : ℕ
line_feed = 10

abbrev pub carriage_return : ℕ
carriage_return = 13

pub record Reader : Type 0 where
  pub buffer : List ℕ

abbrev pub new_reader : Reader
new_reader = record { buffer = [] }

-- `indexOf("\n")` with the two slices: what stands before the first line feed, and after it.
unfoldable pub split_line : List ℕ → Option (List ℕ × List ℕ)
split_line [] = none
split_line (c ∷ cs) =
    let rest = split_line cs in
    if c == line_feed
    then some ([], cs)
    else elim rest [ none ↦ none | some (line, after) ↦ some (c ∷ line, after) ]

-- A carriage return at the end is taken off.
abbrev pub stripped : List ℕ → List ℕ
stripped [] = []
stripped (c ∷ []) = if c == carriage_return then [] else c ∷ []
stripped (c ∷ d ∷ cs) = c ∷ stripped (d ∷ cs)

-- An empty line is not passed on.
abbrev pub passed_on : List ℕ → List (List ℕ)
passed_on line = elim (stripped line) [ [] ↦ [] | c ∷ cs ↦ (c ∷ cs) ∷ [] ]

-- The loop of `push`: a round takes a line feed out of the buffer.
unfoldable pub read_lines : ℕ → List ℕ → List (List ℕ) × List ℕ
read_lines zero buffer = ([], buffer)
read_lines (suc fuel) buffer = elim (split_line buffer) [
  | none ↦ ([], buffer)
  | some (line, after) ↦ (passed_on line ++ (read_lines fuel after).0, (read_lines fuel after).1)
]

-- `push` of a text; the lines are those that `onLine` is called with.
unfoldable pub take_text : List ℕ → Reader → Reader × List (List ℕ)
take_text text r =
    let (lines, buffer) = read_lines (suc (length (r.buffer ++ text))) (r.buffer ++ text) in
    (record { buffer = buffer }, lines)

-- `push`: `decode` is `Buffer.toString("utf8")`, which has only this chunk to go by.
unfoldable pub push : (List ℕ → List ℕ) → List ℕ → Reader → Reader × List (List ℕ)
push decode chunk r = take_text (decode chunk) r

-- The chunks of a process, one after the other.
unfoldable pub push_all : (List ℕ → List ℕ) → List (List ℕ) → Reader → Reader × List (List ℕ)
push_all decode [] r = (r, [])
push_all decode (c ∷ cs) r =
    let (r', lines) = push decode c r in
    let (r'', more) = push_all decode cs r' in (r'', lines ++ more)
