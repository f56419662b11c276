-- ===== src/Transfer/Delivered.antt =====
-- What a DONE delivers has passed the checks, and is given up by the assembler.
use pi_pilot.Base.{
  ℕ, suc, ◌<◌, ◌≡◌, refl, sym, ap, ◌∙◌, subst, ◌≢◌, inl, inr, true, Option, none, some, List, [],
  ◌∷◌, arith, ℕ_discrete, Option-cases, is_some, nat_key, string_key, length, all,
}
use pi_pilot.Base.Map
use pi_pilot.Base.Map.{Map}
use pi_pilot.Frame.{decode_frame, ok, err, FrameResult, done_type, FrameV2}
use pi_pilot.Transfer.Encode.{Codecs}
use pi_pilot.Transfer.Retained.{id_key}
use pi_pilot.Transfer.Assembler.{silent, sweep, Assembly, Assembler, Outcome, drop_assembly}
use pi_pilot.Transfer.Pages.{store_page, on_data, joined, missing_pages, missing_from}
use pi_pilot.Transfer.Handlers.{
  on_frame, dispatch, inflated, hash_agrees, materialize, on_done, done_with, complete, marked_done,
}
use pi_pilot.Transfer.Begin.{on_begin}
use pi_pilot.Transfer.Caps.{drop_absent}

-- A message that the pages of an assembly make: no page is missing, and what they hold agrees with
-- the size and the hash that were declared.
pub record Checked (codecs : Codecs) (x : Assembly) (raw : List ℕ) : Type 0 where
  pub whole : all is_some x.parts ≡ true
  pub content : inflated codecs x.encoding (joined x.parts) ≡ some raw
  pub sized : 0 < x.size → length raw ≡ x.size
  pub hashed : hash_agrees codecs x.sha256 raw ≡ true

missing_from-all :
    (i : ℕ) (ps : List (Option (List ℕ))) → missing_from i ps ≡ [] → all is_some ps ≡ true
unfolding missing_from
missing_from-all i [] h = refl
missing_from-all i (none ∷ ps) h = ground arith
missing_from-all i (some p ∷ ps) h = missing_from-all (suc i) ps h

materialize-Checked :
    (codecs : Codecs) (x : Assembly) (raw : List ℕ)
    → missing_pages x ≡ []
    → materialize codecs x ≡ some raw
    → Checked codecs x raw
unfolding materialize missing_pages
materialize-Checked codecs x raw w h =
    elim (Option-cases (inflated codecs x.encoding (joined x.parts))) [
      | inl e ↦ absurd (let g = rw (e, materialize) at h in cc)
      | inr (r, e) ↦
          let g = rw (e, materialize) at h in
          let same_raw : r ≡ raw = ground arith in
          record {
            whole = missing_from-all 0 x.parts w;
            content = e ∙ ap some same_raw;
            sized = λ p. ground arith;
            hashed = ground arith;
          }
    ]

done-Checked :
    (codecs : Codecs) (f : FrameV2) (missing : List ℕ) (x : Assembly) (a : Assembler) (raw : List ℕ)
    → missing_pages x ≡ missing
    → (done_with codecs f missing x a).1.message ≡ some raw
    → Checked codecs x raw × ((done_with codecs f missing x a).0 ≡ drop_assembly f.transfer_id a)
unfolding done_with complete
done-Checked codecs f [] x a raw w h = elim (Option-cases (materialize codecs x)) [
  | inl e ↦ absurd (let g = rw (e, done_with, complete) at h in cc)
  | inr (r, e) ↦
      let g = rw (e, done_with, complete) at h in
      (materialize-Checked codecs x raw w (e ∙ g), rw (e, done_with, complete) refl)
]
done-Checked codecs f (i ∷ is) x a raw w h = cc

-- A message comes from the assembly of that id, whose pages are all there and agree with the size
-- and the hash declared, and the assembly is gone afterwards.
pub record Delivers (codecs : Codecs) (id raw : List ℕ) (a b : Assembler) : Type 0 where
  pub assembly : Assembly
  pub found : Map.get id a.assemblies ≡ some assembly
  pub checked : Checked codecs assembly raw
  pub gone : Map.get id b.assemblies ≡ none

on_done-Delivers :
    (codecs : Codecs) (now : ℕ) (f : FrameV2) (a : Assembler) (raw : List ℕ)
    → (on_done codecs now f a).1.message ≡ some raw
    → Delivers codecs f.transfer_id raw a (on_done codecs now f a).0
unfolding on_done
on_done-Delivers codecs now f a raw h = elim (Option-cases (Map.get f.transfer_id a.assemblies)) [
  | inl e ↦ absurd (let g = rw (e, on_done) at h in cc)
  | inr (x, e) ↦
      let y = marked_done codecs now x in
      let b = record a { assemblies = Map.set f.transfer_id y a.assemblies } in
      let g = rw (e, on_done) at h in
      let (c, d) = done-Checked codecs f (missing_pages y) y b raw refl g in
      record {
        assembly = x;
        found = e;
        checked = record {
          whole = c.whole;
          content = c.content;
          sized = c.sized;
          hashed = c.hashed;
        };
        gone =
            rw (e, on_done)
              (ap (λ z. Map.get f.transfer_id z.assemblies) d ∙ drop_absent f.transfer_id b);
      }
]

begin_silent : (now : ℕ) (f : FrameV2) (a : Assembler) → (on_begin now f a).1.message ≡ none
unfolding on_begin
begin_silent now f a = ground arith

data_silent : (now : ℕ) (f : FrameV2) (a : Assembler) → (on_data now f a).1.message ≡ none
unfolding on_data store_page
data_silent now f a = ground arith

dispatch-done :
    (codecs : Codecs) (now : ℕ) (f : FrameV2) (a : Assembler)
    → f.kind ≡ done_type
    → dispatch codecs now f a ≡ on_done codecs now f a
unfolding dispatch
dispatch-done codecs now f a e = rw e refl

dispatch_silent :
    (codecs : Codecs) (now : ℕ) (f : FrameV2) (a : Assembler)
    → f.kind ≢ done_type
    → (dispatch codecs now f a).1.message ≡ none
unfolding dispatch
dispatch_silent codecs now f a n = ground (arith, begin_silent now f a, data_silent now f a)

dispatch-Delivers :
    (codecs : Codecs) (now : ℕ) (f : FrameV2) (a : Assembler) (raw : List ℕ)
    → (dispatch codecs now f a).1.message ≡ some raw
    → Delivers codecs f.transfer_id raw a (dispatch codecs now f a).0
dispatch-Delivers codecs now f a raw h = elim (ℕ_discrete f.kind done_type) [
  | yes e ↦
      let d = dispatch-done codecs now f a e in
      subst (λ r. Delivers codecs f.transfer_id raw a r.0) (sym d)
        (on_done-Delivers codecs now f a raw (ap (λ r. r.1.message) (sym d) ∙ h))
  | no n ↦ absurd (let s = dispatch_silent codecs now f a n in cc)
]

-- A message that `on_frame` delivers comes from the assembly, after the sweep, of an id: all its
-- pages are there, what they hold agrees with the declared size and hash, and the assembly is given
-- up, so that the same message is not delivered again.
pub on_frame-Delivers :
    (codecs : Codecs) (now : ℕ) (bytes raw : List ℕ) (a : Assembler)
    → (on_frame codecs now bytes a).1.message ≡ some raw
    → (id : List ℕ) × Delivers codecs id raw (sweep now a) (on_frame codecs now bytes a).0
unfolding on_frame
on_frame-Delivers codecs now bytes raw a h = of_frame (decode_frame codecs.meta bytes) h
  where
    of_frame :
        (r : FrameResult FrameV2)
        → (elim r as (λ q. Assembler × Outcome) [
          | err e ↦ (sweep now a, silent)
          | ok f ↦ dispatch codecs now f (sweep now a)
        ]).1.message
          ≡ some raw
        → (id : List ℕ) × Delivers codecs id raw
            (sweep now a)
            (elim r as (λ q. Assembler × Outcome) [
              | err e ↦ (sweep now a, silent)
              | ok f ↦ dispatch codecs now f (sweep now a)
            ]).0
    of_frame (err e) h = cc
    of_frame (ok f) h = (f.transfer_id, dispatch-Delivers codecs now f (sweep now a) raw h)
