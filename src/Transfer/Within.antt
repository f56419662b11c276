-- ===== src/Transfer/Within.antt =====
-- Every frame that comes in leaves the assembler counted and within its caps.
use pi_pilot.Base.{
  ℕ, ◌+◌, String, ◌≡◌, refl, sym, ap, ◌∙◌, subst, inl, inr, Bool, true, false, ◌||◌, not, Option,
  none, some, List, [], ◌∷◌, arith, ltb, leb, ◌==◌, if◌then◌else◌, Option-cases, or_else, nat_key,
  string_key, length,
}
use pi_pilot.Base.Map
use pi_pilot.Base.Map.{weight, Map}
use pi_pilot.Transfer.Encode.{assembly_max_bytes, max_page_payload_bytes, max_nack_pages, Codecs}
use pi_pilot.Transfer.Retained.{id_key}
use pi_pilot.Transfer.Assembler.{
  silent, replying, sweep, drop_assembly, Assembly, Assembler, Outcome,
}
use pi_pilot.Transfer.Caps.{
  size_of, Kept, IsCounted, enforce_caps-Kept, drop_assembly-Kept, sweep-Kept, drop_absent,
  set-IsCounted, replace-Kept, if-Kept, drop_assembly-IsCounted,
}
use pi_pilot.Transfer.Begin.{
  abort_frame, is_allowed_encoding, declared_hash, declared_encoding, declared_size, on_begin,
  begin_with, begin_fresh, refreshed,
}
use pi_pilot.Transfer.Pages.{is_there, missing_pages, with_page, store_page, on_data}
use pi_pilot.Transfer.Handlers.{
  marked_done, materialize, on_done, dispatch, on_frame, done_with, complete,
}
use pi_pilot.Frame.{
  FrameResult, abort_type, done_type, data_type, begin_type, ok, err, decode_frame, no_meta,
  FrameV2,
}

-- The assembler of a result.
record Leaves (r : Assembler × Outcome) : Type 0 where
  kept : Kept r.0

if-Leaves :
    (b : Bool) {x y : Assembler × Outcome} → Leaves x → Leaves y → Leaves (if b then x else y)
if-Leaves true u v = u
if-Leaves false u v = v

leaves : {a : Assembler} {o : Outcome} → Kept a → Leaves (a, o)
leaves k = record { kept = k }

-- An assembly without bytes, put where an older one was dropped.
begin_set-IsCounted :
    (key : List ℕ) (x : Assembly) (a : Assembler)
    → IsCounted a
    → x.bytes ≡ 0
    → IsCounted (record (drop_assembly key a) {
      assemblies = Map.set key x (drop_assembly key a).assemblies;
    })
begin_set-IsCounted key x a v e =
    let b = drop_assembly key a in
    let n0 : b.total_bytes + 0 ≡ b.total_bytes = omega arith in
    subst (λ n. IsCounted (record { assemblies = Map.set key x b.assemblies; total_bytes = n })) n0
      (set-IsCounted key x 0 b (drop_assembly-IsCounted key a v)
        (e ∙ ap (λ o. weight size_of o + 0) (sym (drop_absent key a))))

begin_fresh-Kept :
    (now : ℕ) (f : FrameV2) (encoding : String) (size : ℕ) (hash : Option String) (a : Assembler)
    → Kept a
    → Kept (begin_fresh now f encoding size hash a)
unfolding begin_fresh
begin_fresh-Kept now f encoding size hash a v =
    enforce_caps-Kept f.transfer_id _ (begin_set-IsCounted f.transfer_id _ a v.0 refl)

begin_with-Kept :
    (now : ℕ) (f : FrameV2) (encoding : String) (size : ℕ) (hash : Option String) (a : Assembler)
    → Kept a
    → Kept (begin_with now f encoding size hash a)
unfolding begin_with
begin_with-Kept now f encoding size hash a v =
    elim (Option-cases (Map.get f.transfer_id a.assemblies)) [
      | inl e ↦ rw (e, begin_with) (begin_fresh-Kept now f encoding size hash a v)
      | inr (x, e) ↦
          rw (e, begin_with)
            (if-Kept (x.page_count == f.page_count)
              (replace-Kept f.transfer_id x (refreshed now encoding size hash x) a e refl v)
              (begin_fresh-Kept now f encoding size hash a v))
    ]

on_begin-Leaves : (now : ℕ) (f : FrameV2) (a : Assembler) → Kept a → Leaves (on_begin now f a)
unfolding on_begin
on_begin-Leaves now f a v =
    let dropped = drop_assembly-Kept f.transfer_id a v in
    let meta = or_else f.meta no_meta in
    if-Leaves (leb f.page_count 0 || ltb max_nack_pages f.page_count) (leaves v) (
      if-Leaves (not (is_allowed_encoding (declared_encoding meta))) (leaves dropped)
        (elim (declared_size meta.size)
          as (λ o. Leaves (elim o [
            | none ↦ (
              drop_assembly f.transfer_id a,
              replying (abort_frame f.transfer_id f.page_count "declared size out of range"),
            )
            | some size ↦
                (begin_with now f (declared_encoding meta) size (declared_hash meta) a, silent)
          ])) [
            | none ↦ leaves dropped
            | some size ↦
                leaves
                  (begin_with-Kept now f (declared_encoding meta) size (declared_hash meta) a v)
          ]))

store_page-Leaves :
    (now : ℕ) (f : FrameV2) (part : List ℕ) (x : Assembly) (a : Assembler)
    → Map.get f.transfer_id a.assemblies ≡ some x
    → Kept a
    → Leaves (store_page now f part x a)
unfolding store_page
store_page-Leaves now f part x a e v =
    let dropped = drop_assembly-Kept f.transfer_id a v in
    let grown =
      set-IsCounted f.transfer_id (with_page now f.page_index part x) (length part) a v.0
        (ap (λ o. weight size_of o + length part) (sym e)) in
    if-Leaves (ltb max_page_payload_bytes (length part)) (leaves dropped) (
      if-Leaves (is_there x.parts f.page_index) (leaves v) (
        if-Leaves (ltb assembly_max_bytes (x.bytes + length part)) (leaves dropped)
          (leaves (enforce_caps-Kept f.transfer_id _ grown))))

on_data-Leaves : (now : ℕ) (f : FrameV2) (a : Assembler) → Kept a → Leaves (on_data now f a)
unfolding on_data
on_data-Leaves now f a v = elim (Option-cases (Map.get f.transfer_id a.assemblies)) [
  | inl e ↦ rw (e, on_data) (leaves v)
  | inr (x, e) ↦
      rw (e, on_data)
        (if-Leaves (leb x.page_count f.page_index) (leaves v)
          (store_page-Leaves now f (or_else f.payload []) x a e v))
]

done_with-Leaves :
    (codecs : Codecs) (f : FrameV2) (missing : List ℕ) (x : Assembly) (a : Assembler)
    → Kept a
    → Leaves (done_with codecs f missing x a)
unfolding done_with complete
done_with-Leaves codecs f [] x a v = elim (Option-cases (materialize codecs x)) [
  | inl e ↦ rw (e, done_with, complete) (leaves (drop_assembly-Kept f.transfer_id a v))
  | inr (raw, e) ↦ rw (e, done_with, complete) (leaves (drop_assembly-Kept f.transfer_id a v))
]
done_with-Leaves codecs f (i ∷ is) x a v = leaves v

on_done-Leaves :
    (codecs : Codecs) (now : ℕ) (f : FrameV2) (a : Assembler)
    → Kept a
    → Leaves (on_done codecs now f a)
unfolding on_done
on_done-Leaves codecs now f a v = elim (Option-cases (Map.get f.transfer_id a.assemblies)) [
  | inl e ↦ rw (e, on_done) (leaves v)
  | inr (x, e) ↦
      let y = marked_done codecs now x in
      rw (e, on_done)
        (done_with-Leaves codecs f (missing_pages y) y _
          (replace-Kept f.transfer_id x y a e refl v))
]

dispatch-Leaves :
    (codecs : Codecs) (now : ℕ) (f : FrameV2) (a : Assembler)
    → Kept a
    → Leaves (dispatch codecs now f a)
unfolding dispatch
dispatch-Leaves codecs now f a v = if-Leaves (f.kind == begin_type) (on_begin-Leaves now f a v) (
    if-Leaves (f.kind == data_type) (on_data-Leaves now f a v) (
      if-Leaves (f.kind == done_type) (on_done-Leaves codecs now f a v) (
        if-Leaves (f.kind == abort_type) (leaves (drop_assembly-Kept f.transfer_id a v))
          (leaves v))))

if_ok-Leaves :
    (codecs : Codecs) (now : ℕ) (r : FrameResult FrameV2) (a : Assembler)
    → Kept a
    → Leaves (elim r [ err e ↦ (a, silent) | ok f ↦ dispatch codecs now f a ])
if_ok-Leaves codecs now (err e) a v = leaves v
if_ok-Leaves codecs now (ok f) a v = dispatch-Leaves codecs now f a v

-- An assembler whose byte count is the sum over its assemblies and that is within its caps (at
-- most 8 assemblies and 32 MiB) is so again after `on_frame`, whatever bytes come in and whenever.
pub on_frame-Kept :
    (codecs : Codecs) (now : ℕ) (bytes : List ℕ) (a : Assembler)
    → Kept a
    → Kept (on_frame codecs now bytes a).0
unfolding on_frame
on_frame-Kept codecs now bytes a v =
    (if_ok-Leaves codecs now (decode_frame codecs.meta bytes) (sweep now a)
      (sweep-Kept now a v)).kept
