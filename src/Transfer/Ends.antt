-- ===== src/Transfer/Ends.antt =====
-- The first and the last frame of a transfer, as the receiver takes them.
use pi_pilot.Base.{
  ℕ, suc, ◌-◌, ◌≤◌, String, ◌≡◌, refl, ap, ◌∙◌, inl, inr, if_pos, true, false, ◌&&◌, ◌||◌, not,
  Option, some, List, [], ◌∷◌, ◌++◌, append-nil, arith, ltb, leb, ◌==◌, Bool-cases, or_else,
  nat_key, string_key, length,
}
use pi_pilot.Base.Map
use pi_pilot.Base.Map.{Map}
use pi_pilot.Frame.{no_meta, Meta, FrameV2, done_type}
use pi_pilot.Transfer.Encode.{
  Codecs, Body, begin_frame, max_inflated_bytes, max_nack_pages, plain_frame, count_pages,
}
use pi_pilot.Transfer.Retained.{id_key, bytes_dec}
use pi_pilot.Transfer.Assembler.{Assembly, new_assembler, Outcome, silent, drop_assembly}
use pi_pilot.Transfer.Begin.{
  on_begin, begin_with, begin_fresh, declared_hash, is_allowed_encoding, is_hash, fresh_assembly,
}
use pi_pilot.Transfer.Pages.{joined, missing_from, missing_pages}
use pi_pilot.Transfer.Handlers.{
  inflated, hash_agrees, materialize, ack_frame, marked_done, done_with, complete, on_done,
}
use pi_pilot.Transfer.Stream.{somes, partial, only, get-only, set-only, within_caps}

-- What arrives with the last frame.
abbrev pub delivered : Codecs → List ℕ → ℕ → List ℕ → Outcome
delivered codecs id count raw = record {
  message = some raw;
  replies = ack_frame codecs id count ∷ [];
}

missing_none : (i : ℕ) (ps : List (List ℕ)) → missing_from i (somes ps ++ []) ≡ []
unfolding missing_from
missing_none i [] = refl
missing_none i (p ∷ ps) = missing_none (suc i) ps

drop_only : (id : List ℕ) (x : Assembly) → drop_assembly id (only id x) ≡ new_assembler
unfolding drop_assembly Map.delete
drop_only id x =
    let gone : Map.delete id (only id x).assemblies ≡ [] = if_pos (bytes_dec id id) refl _ _ in
    let zero_left : x.bytes - x.bytes ≡ 0 = omega arith in
    rw (get-only id x, drop_assembly)
      (ap (λ m. record { assemblies = m; total_bytes = x.bytes - x.bytes }) gone
        ∙ ap (λ n. record { assemblies = []; total_bytes = n }) zero_left)

materialized :
    (codecs : Codecs) (y : Assembly) (raw : List ℕ)
    → inflated codecs y.encoding (joined y.parts) ≡ some raw
    → length raw ≡ y.size
    → hash_agrees codecs y.sha256 raw ≡ true
    → materialize codecs y ≡ some raw
unfolding materialize
materialized codecs y raw i s h =
    let right_size : (ltb 0 y.size && not (length raw == y.size)) ≡ false = ground arith in
    rw (i, materialize, right_size, h) refl

complete_step :
    (codecs : Codecs) (f : FrameV2) (y : Assembly) (raw : List ℕ)
    → materialize codecs y ≡ some raw
    → done_with codecs f [] y (only f.transfer_id y)
      ≡ (new_assembler, delivered codecs f.transfer_id y.page_count raw)
unfolding done_with complete
complete_step codecs f y raw m =
    rw (m, done_with, complete)
      (ap (λ a. (a, delivered codecs f.transfer_id y.page_count raw)) (drop_only f.transfer_id y))

-- The last frame, with all pages there.
pub done_step :
    (codecs : Codecs) (now count : ℕ) (encoding : String) (size : ℕ) (hash : Option String)
    (id raw : List ℕ) (ps : List (List ℕ))
    → inflated codecs encoding (joined (somes ps)) ≡ some raw
    → length raw ≡ size
    → hash_agrees codecs hash raw ≡ true
    → on_done codecs now
        (plain_frame done_type id 0 count)
        (only id (partial now count encoding size hash ps 0))
      ≡ (new_assembler, delivered codecs id count raw)
unfolding on_done missing_pages
done_step codecs now count encoding size hash id raw ps i s h =
    let x = partial now count encoding size hash ps 0 in
    let y = marked_done codecs now x in
    let all_there : missing_from 0 (somes ps ++ []) ≡ [] = missing_none 0 ps in
    let content =
      ap (λ parts. inflated codecs encoding (joined parts)) (append-nil (somes ps)) ∙ i in
    rw (get-only id x, on_done)
      (ap
          (λ m.
            done_with codecs (plain_frame done_type id 0 count) (missing_pages y) y
              (record { assemblies = m; total_bytes = x.bytes }))
          (set-only id x y)
        ∙ ap (λ missing. done_with codecs (plain_frame done_type id 0 count) missing y (only id y))
            all_there
        ∙ complete_step codecs (plain_frame done_type id 0 count) y raw
            (materialized codecs y raw content s h))

begun :
    (now : ℕ) (f : FrameV2) (encoding : String) (size : ℕ) (hash : Option String)
    → begin_with now f encoding size hash new_assembler
      ≡ only f.transfer_id (fresh_assembly now f.page_count encoding size hash)
unfolding begin_with begin_fresh drop_assembly Map.get Map.set
begun now f encoding size hash =
    within_caps f.transfer_id (fresh_assembly now f.page_count encoding size hash) (omega arith)

pub hash_declared :
    (codecs : Codecs) (m : Meta) (raw : List ℕ)
    → m.sha256 ≡ some (codecs.sha256 raw)
    → hash_agrees codecs (declared_hash m) raw ≡ true
unfolding declared_hash
hash_declared codecs m raw e = elim (Bool-cases (is_hash (codecs.sha256 raw))) [
  | inl h ↦ rw (e, declared_hash, h) (ground arith)
  | inr h ↦ rw (e, declared_hash, h) refl
]

pub begin_step :
    (codecs : Codecs) (now : ℕ) (id raw : List ℕ) (body : Body)
    → length raw ≤ max_inflated_bytes
    → count_pages body.payload ≤ max_nack_pages
    → is_allowed_encoding body.encoding ≡ true
    → on_begin now (begin_frame codecs id raw body) new_assembler ≡ (
      only id (
          fresh_assembly now
            (count_pages body.payload)
            body.encoding
            (length raw)
            (declared_hash (or_else (begin_frame codecs id raw body).meta no_meta))),
      silent,
    )
unfolding on_begin
begin_step codecs now id raw body s c e =
    let count = count_pages body.payload in
    let in_range : (leb count 0 || ltb max_nack_pages count) ≡ false = ground arith in
    let size_ok : ltb max_inflated_bytes (length raw) ≡ false = ground arith in
    rw (in_range, on_begin, e, size_ok)
      (ap (λ a. (a, silent))
        (begun now (begin_frame codecs id raw body) body.encoding (length raw) _))
