-- ===== src/Transfer/Begin.antt =====
-- The BEGIN branch of `TransferV2Assembler.onFrame`: what is declared is checked first.
use pi_pilot.Base.{
  ℕ, String, Bool, false, ◌&&◌, ◌||◌, not, Option, none, some, List, [], ◌∷◌, ltb, leb, ◌==◌,
  if◌then◌else◌, or_else, nat_key, string_key, same, length, replicate, all,
}
use pi_pilot.Base.Map
use pi_pilot.Base.Map.{Map}
use pi_pilot.Frame.{Meta, no_meta, WireNumber, not_finite, natural, negative, FrameV2, abort_type}
use pi_pilot.Transfer.Encode.{max_nack_pages, max_inflated_bytes, plain_frame}
use pi_pilot.Transfer.Retained.{id_key}
use Prim.Native.Char.{code}
use pi_pilot.Transfer.Assembler.{
  Assembly, Assembler, Outcome, silent, replying, drop_assembly, enforce_caps,
}

abbrev pub abort_frame : List ℕ → ℕ → String → FrameV2
abort_frame id count reason = record (plain_frame abort_type id 0 count) {
  meta = some (record no_meta { reason = some reason });
}

-- /^[0-9a-f]{64}$/
abbrev pub codes : String → List ℕ
codes String.[] = []
codes (String.◌∷◌ c s) = code c ∷ codes s

abbrev pub is_hex_digit : ℕ → Bool
is_hex_digit c = (leb 48 c && leb c 57) || (leb 97 c && leb c 102)

abbrev pub is_hash : String → Bool
is_hash s = let cs = codes s in length cs == 64 && all is_hex_digit cs

unfoldable pub declared_hash : Meta → Option String
declared_hash m = elim m.sha256 [ none ↦ none | some h ↦ if is_hash h then some h else none ]

-- `Number(meta.size ?? 0)` if it is acceptable
abbrev pub declared_size : Option WireNumber → Option ℕ
declared_size none = some 0
declared_size (some not_finite) = none
declared_size (some (natural n)) = if ltb max_inflated_bytes n then none else some n
declared_size (some (negative)) = none

abbrev pub declared_encoding : Meta → String
declared_encoding m = or_else m.encoding "identity"

-- V2_ALLOWED_ENCODINGS
abbrev pub is_allowed_encoding : String → Bool
is_allowed_encoding e = same e "identity" || same e "gzip"

abbrev pub fresh_assembly : ℕ → ℕ → String → ℕ → Option String → Assembly
fresh_assembly now count encoding size hash = record {
  page_count = count;
  encoding = encoding;
  size = size;
  sha256 = hash;
  parts = replicate count none;
  received = 0;
  bytes = 0;
  last_activity = now;
  done_seen = false;
}

-- A BEGIN that comes again keeps the pages and takes the metadata anew.
abbrev pub refreshed : ℕ → String → ℕ → Option String → Assembly → Assembly
refreshed now encoding size hash x = record x {
  last_activity = now;
  encoding = encoding;
  size = size;
  sha256 = elim hash [ none ↦ x.sha256 | some h ↦ some h ];
}

unfoldable pub begin_fresh : ℕ → FrameV2 → String → ℕ → Option String → Assembler → Assembler
begin_fresh now f encoding size hash a =
    let a' = drop_assembly f.transfer_id a in
    let x = fresh_assembly now f.page_count encoding size hash in
    (enforce_caps f.transfer_id
      (record a' { assemblies = Map.set f.transfer_id x a'.assemblies })).0

unfoldable pub begin_with : ℕ → FrameV2 → String → ℕ → Option String → Assembler → Assembler
unfolding begin_fresh
begin_with now f encoding size hash a = elim (Map.get f.transfer_id a.assemblies) [
  | none ↦ begin_fresh now f encoding size hash a
  | some x ↦
      if x.page_count == f.page_count
      then record a {
        assemblies = Map.set f.transfer_id (refreshed now encoding size hash x) a.assemblies;
      }
      else begin_fresh now f encoding size hash a
]

unfoldable pub on_begin : ℕ → FrameV2 → Assembler → Assembler × Outcome
unfolding begin_with declared_hash
on_begin now f a =
    let meta = or_else f.meta no_meta in
    if leb f.page_count 0 || ltb max_nack_pages f.page_count
    then (a, silent)
    else if not (is_allowed_encoding (declared_encoding meta))
    then (
      drop_assembly f.transfer_id a,
      replying (abort_frame f.transfer_id f.page_count "unsupported encoding"),
    )
    else elim (declared_size meta.size) [
      | none ↦ (
        drop_assembly f.transfer_id a,
        replying (abort_frame f.transfer_id f.page_count "declared size out of range"),
      )
      | some size ↦ (begin_with now f (declared_encoding meta) size (declared_hash meta) a, silent)
    ]
