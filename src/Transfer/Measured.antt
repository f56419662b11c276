-- ===== src/Transfer/Measured.antt =====
-- The byte counts of the assembler are those of the pages that it holds.
use pi_pilot.Base.{
  ℕ, ◌+◌, ◌≤◌, ◌<◌, ◌≡◌, refl, sym, ◌∙◌, inl, inr, Bool, true, false, ◌||◌, not, Option, none, some,
  List, [], ◌∷◌, arith, ltb, leb, ◌==◌, if◌then◌else◌, Option-cases, or_else, nat_key, string_key,
  length, String, length-set, length-replicate,
}
use pi_pilot.Base.Map
use pi_pilot.Base.Map.{Map, Distinct, total, Every, Every-get, Every-set, Every-delete}
use pi_pilot.Frame.{
  FrameResult, abort_type, done_type, data_type, begin_type, ok, err, decode_frame, no_meta,
  FrameV2,
}
use pi_pilot.Transfer.Encode.{assembly_max_bytes, max_page_payload_bytes, max_nack_pages, Codecs}
use pi_pilot.Transfer.Retained.{id_key}
use pi_pilot.Transfer.Assembler.{silent, sweep, drop_assembly, Assembly, Assembler}
use pi_pilot.Transfer.Caps.{size_of, Kept}
use pi_pilot.Transfer.Begin.{
  is_allowed_encoding, declared_hash, declared_encoding, declared_size, on_begin, begin_with,
  begin_fresh, refreshed, fresh_assembly,
}
use pi_pilot.Transfer.Pages.{is_there, missing_pages, with_page, store_page, on_data}
use pi_pilot.Transfer.Handlers.{
  marked_done, materialize, on_done, dispatch, on_frame, done_with, complete,
}
use pi_pilot.Transfer.Within.{on_frame-Kept}
use pi_pilot.Transfer.Stored.{
  IsMeasured, Leaves, Measured, drop_assembly-Measured, enforce_caps-Measured, if-Leaves, leaves,
  stored-replicate, stored-set, stored_in, sweep_idle-Measured,
}

begin_fresh-Measured :
    (now : ℕ) (f : FrameV2) (encoding : String) (size : ℕ) (hash : Option String) (a : Assembler)
    → Measured a
    → Measured (begin_fresh now f encoding size hash a)
unfolding begin_fresh
begin_fresh-Measured now f encoding size hash a v =
    let x = fresh_assembly now f.page_count encoding size hash in
    let good : IsMeasured x = record {
      placed = length-replicate f.page_count none;
      measured = sym (stored-replicate f.page_count);
    } in
    let b = drop_assembly f.transfer_id a in
    enforce_caps-Measured f.transfer_id
      (record b { assemblies = Map.set f.transfer_id x b.assemblies })
      (Every-set IsMeasured f.transfer_id x b.assemblies (drop_assembly-Measured f.transfer_id a v)
        good)

begin_with-Measured :
    (now : ℕ) (f : FrameV2) (encoding : String) (size : ℕ) (hash : Option String) (a : Assembler)
    → Measured a
    → Measured (begin_with now f encoding size hash a)
unfolding begin_with
begin_with-Measured now f encoding size hash a v =
    elim (Option-cases (Map.get f.transfer_id a.assemblies)) [
      | inl e ↦ rw (e, begin_with) (begin_fresh-Measured now f encoding size hash a v)
      | inr (x, e) ↦ rw (e, begin_with) (by_count x (Every-get IsMeasured _ x a.assemblies v e) _)
    ]
  where
    by_count :
        (x : Assembly)
        → IsMeasured x
        → (b : Bool)
        → Measured (
            if b
            then record a {
              assemblies = Map.set f.transfer_id (refreshed now encoding size hash x) a.assemblies;
            }
            else begin_fresh now f encoding size hash a)
    by_count x good true =
        Every-set IsMeasured f.transfer_id (refreshed now encoding size hash x) a.assemblies v
          (record { placed = good.placed; measured = good.measured })
    by_count x good false = begin_fresh-Measured now f encoding size hash a v

on_begin-Leaves : (now : ℕ) (f : FrameV2) (a : Assembler) → Measured a → Leaves (on_begin now f a)
unfolding on_begin
on_begin-Leaves now f a v =
    let dropped = drop_assembly-Measured f.transfer_id a v in
    let meta = or_else f.meta no_meta in
    if-Leaves (leb f.page_count 0 || ltb max_nack_pages f.page_count) (λ t. leaves v)
      (λ t.
        if-Leaves (not (is_allowed_encoding (declared_encoding meta))) (λ u. leaves dropped)
          (λ u. elim (Option-cases (declared_size meta.size)) [
            | inl n ↦ rw n (leaves dropped)
            | inr (size, h) ↦ rw h (
                leaves (
                  begin_with-Measured now f (declared_encoding meta) size (declared_hash meta) a v))
          ]))

store_page-Leaves :
    (now : ℕ) (f : FrameV2) (part : List ℕ) (x : Assembly) (a : Assembler)
    → IsMeasured x
    → f.page_index < x.page_count
    → Measured a
    → Leaves (store_page now f part x a)
unfolding store_page
store_page-Leaves now f part x a good h v =
    let dropped = drop_assembly-Measured f.transfer_id a v in
    if-Leaves (ltb max_page_payload_bytes (length part)) (λ t. leaves dropped)
      (λ t.
        if-Leaves (is_there x.parts f.page_index) (λ u. leaves v)
          (λ new.
            if-Leaves (ltb assembly_max_bytes (x.bytes + length part)) (λ w. leaves dropped)
              (λ w. leaves (
                enforce_caps-Measured f.transfer_id
                  (record {
                    assemblies =
                        Map.set f.transfer_id (with_page now f.page_index part x) a.assemblies;
                    total_bytes = a.total_bytes + length part;
                  })
                  (Every-set IsMeasured f.transfer_id (with_page now f.page_index part x)
                    a.assemblies v (grown new))))))
  where
    grown : is_there x.parts f.page_index ≡ false → IsMeasured (with_page now f.page_index part x)
    grown new = record {
      placed = length-set x.parts f.page_index (some part) ∙ good.placed;
      measured = omega (
        arith,
        good.measured,
        stored-set f.page_index part x.parts (omega (arith, good.placed)) new,
      );
    }

on_data-Leaves : (now : ℕ) (f : FrameV2) (a : Assembler) → Measured a → Leaves (on_data now f a)
unfolding on_data
on_data-Leaves now f a v = elim (Option-cases (Map.get f.transfer_id a.assemblies)) [
  | inl e ↦ rw (e, on_data) (leaves v)
  | inr (x, e) ↦
      rw (e, on_data)
        (if-Leaves (leb x.page_count f.page_index) (λ t. leaves v)
          (λ n.
            store_page-Leaves now f (or_else f.payload []) x a
              (Every-get IsMeasured f.transfer_id x a.assemblies v e) (ground arith) v))
]

done_with-Leaves :
    (codecs : Codecs) (f : FrameV2) (missing : List ℕ) (x : Assembly) (a : Assembler)
    → Measured a
    → Leaves (done_with codecs f missing x a)
unfolding done_with complete
done_with-Leaves codecs f [] x a v = elim (Option-cases (materialize codecs x)) [
  | inl e ↦ rw (e, done_with, complete) (leaves (drop_assembly-Measured f.transfer_id a v))
  | inr (raw, e) ↦ rw (e, done_with, complete) (leaves (drop_assembly-Measured f.transfer_id a v))
]
done_with-Leaves codecs f (i ∷ is) x a v = leaves v

on_done-Leaves :
    (codecs : Codecs) (now : ℕ) (f : FrameV2) (a : Assembler)
    → Measured a
    → Leaves (on_done codecs now f a)
unfolding on_done
on_done-Leaves codecs now f a v = elim (Option-cases (Map.get f.transfer_id a.assemblies)) [
  | inl e ↦ rw (e, on_done) (leaves v)
  | inr (x, e) ↦
      let y = marked_done codecs now x in
      let good = Every-get IsMeasured f.transfer_id x a.assemblies v e in
      rw (e, on_done)
        (done_with-Leaves codecs f (missing_pages y) y _ (
          Every-set IsMeasured f.transfer_id y a.assemblies v
            (record { placed = good.placed; measured = good.measured })))
]

dispatch-Leaves :
    (codecs : Codecs) (now : ℕ) (f : FrameV2) (a : Assembler)
    → Measured a
    → Leaves (dispatch codecs now f a)
unfolding dispatch
dispatch-Leaves codecs now f a v =
    if-Leaves (f.kind == begin_type) (λ t. on_begin-Leaves now f a v)
      (λ t.
        if-Leaves (f.kind == data_type) (λ u. on_data-Leaves now f a v)
          (λ u.
            if-Leaves (f.kind == done_type) (λ w. on_done-Leaves codecs now f a v)
              (λ w.
                if-Leaves (f.kind == abort_type)
                  (λ y. leaves (drop_assembly-Measured f.transfer_id a v)) (λ y. leaves v))))

if_ok-Leaves :
    (codecs : Codecs) (now : ℕ) (r : FrameResult FrameV2) (a : Assembler)
    → Measured a
    → Leaves (elim r [ err e ↦ (a, silent) | ok f ↦ dispatch codecs now f a ])
if_ok-Leaves codecs now (err e) a v = leaves v
if_ok-Leaves codecs now (ok f) a v = dispatch-Leaves codecs now f a v

on_frame-Measured :
    (codecs : Codecs) (now : ℕ) (bytes : List ℕ) (a : Assembler)
    → Measured a
    → Measured (on_frame codecs now bytes a).0
unfolding on_frame sweep
on_frame-Measured codecs now bytes a v =
    (if_ok-Leaves codecs now (decode_frame codecs.meta bytes) (sweep now a)
      (sweep_idle-Measured now a.assemblies a v)).left

same_total : (m : Map (List ℕ) Assembly) → Every IsMeasured m → total size_of m ≡ total stored_in m
unfolding total
same_total [] v = refl
same_total ((k, x) ∷ m) v = omega (arith, v.0.measured, same_total m v.1)

-- The byte count is that of all pages held, and there are at most 8 assemblies and 32 MiB of pages.
pub record IsBounded (a : Assembler) : Type 0 where
  pub distinct : Distinct a.assemblies
  pub each : Every IsMeasured a.assemblies
  pub counted : a.total_bytes ≡ total stored_in a.assemblies
  pub few : length a.assemblies ≤ 8
  pub small : total stored_in a.assemblies ≤ 33554432

IsBounded-Kept : (a : Assembler) → IsBounded a → Kept a
IsBounded-Kept a v = (
  record { distinct = v.distinct; counted = v.counted ∙ sym (same_total a.assemblies v.each) },
  record { few = v.few; small = omega (arith, v.counted, v.small) },
)

Kept-IsBounded : (a : Assembler) → Kept a → Measured a → IsBounded a
Kept-IsBounded a (c, w) v =
    let counted : a.total_bytes ≡ total stored_in a.assemblies =
      c.counted ∙ same_total a.assemblies v in
    record {
      distinct = c.distinct;
      each = v;
      counted = counted;
      few = w.few;
      small = omega (arith, counted, w.small);
    }

-- An assembler that counts the bytes of the pages it holds, in each assembly and over all, and holds
-- at most 8 assemblies and 32 MiB of pages, is so again after `on_frame`, whatever bytes come in and
-- whenever.
pub on_frame-IsBounded :
    (codecs : Codecs) (now : ℕ) (bytes : List ℕ) (a : Assembler)
    → IsBounded a
    → IsBounded (on_frame codecs now bytes a).0
on_frame-IsBounded codecs now bytes a v =
    Kept-IsBounded (on_frame codecs now bytes a).0
      (on_frame-Kept codecs now bytes a (IsBounded-Kept a v))
      (on_frame-Measured codecs now bytes a v.each)
