-- ===== src/Transfer/Handlers.antt =====
-- `TransferV2Assembler.onFrame`, frame by frame, with `materialize` and `pendingResumes`. A call
-- reads the clock once. Replies are the frames that are encoded and sent back.
use pi_pilot.Base.{
  ℕ, ◌-◌, String, Bool, true, ◌&&◌, not, Option, none, some, List, [], ◌∷◌, ltb, ◌==◌,
  if◌then◌else◌, nat_key, string_key, same, length,
}
use pi_pilot.Base.Map
use pi_pilot.Base.Map.{Map}
use pi_pilot.Frame.{
  no_meta, FrameV2, ok, err, decode_frame, begin_type, data_type, done_type, ack_type, nack_type,
  abort_type,
}
use pi_pilot.Transfer.Encode.{Codecs, max_inflated_bytes, plain_frame}
use pi_pilot.Transfer.Retained.{id_key}
use pi_pilot.Transfer.Assembler.{
  Assembly, Assembler, Outcome, silent, replying, drop_assembly, sweep,
}
use pi_pilot.Transfer.Begin.{on_begin}
use pi_pilot.Transfer.Pages.{joined, missing_pages, on_data}

module _ (codecs : Codecs) where
  -- `materialize` without the drop: decompressed, and checked against the size and the hash.
  abbrev pub inflated : String → List ℕ → Option (List ℕ)
  inflated encoding bytes =
      if same encoding "gzip" then codecs.gunzip max_inflated_bytes bytes else some bytes

  abbrev pub hash_agrees : Option String → List ℕ → Bool
  hash_agrees none raw = true
  hash_agrees (some h) raw = same (codecs.sha256 raw) h

  unfoldable pub materialize : Assembly → Option (List ℕ)
  unfolding joined
  materialize x = elim (inflated x.encoding (joined x.parts)) [
    | none ↦ none
    | some raw ↦
        if ltb 0 x.size && not (length raw == x.size)
        then none
        else if not (hash_agrees x.sha256 raw)
        then none
        else some raw
  ]

  abbrev pub ack_frame : List ℕ → ℕ → FrameV2
  ack_frame id count = record (plain_frame ack_type id 0 count) {
    meta = some (record no_meta { ranges = (0, count - 1) ∷ [] });
  }

  abbrev pub nack_frame : List ℕ → ℕ → List ℕ → FrameV2
  nack_frame id count missing = record (plain_frame nack_type id 0 count) {
    meta = some (record no_meta { missing = missing });
  }

  unfoldable pub complete : FrameV2 → Assembly → Assembler → Assembler × Outcome
  complete f x a = elim (materialize x) [
    | none ↦ (drop_assembly f.transfer_id a, silent)
    | some raw ↦ (
      drop_assembly f.transfer_id a,
      record { message = some raw; replies = ack_frame f.transfer_id x.page_count ∷ [] },
    )
  ]

  unfoldable pub done_with : FrameV2 → List ℕ → Assembly → Assembler → Assembler × Outcome
  unfolding complete
  done_with f [] x a = complete f x a
  done_with f (i ∷ is) x a = (a, replying (nack_frame f.transfer_id x.page_count (i ∷ is)))

  abbrev pub marked_done : ℕ → Assembly → Assembly
  marked_done now x = record x { done_seen = true; last_activity = now }

  unfoldable pub on_done : ℕ → FrameV2 → Assembler → Assembler × Outcome
  unfolding done_with missing_pages
  on_done now f a = elim (Map.get f.transfer_id a.assemblies) [
    | none ↦ (a, silent)
    | some x ↦
        let y = marked_done now x in
        done_with f (missing_pages y) y
          (record a { assemblies = Map.set f.transfer_id y a.assemblies })
  ]

  unfoldable pub dispatch : ℕ → FrameV2 → Assembler → Assembler × Outcome
  dispatch now f a =
      if f.kind == begin_type
      then on_begin now f a
      else if f.kind == data_type
      then on_data now f a
      else if f.kind == done_type
      then on_done now f a
      else if f.kind == abort_type
      then (drop_assembly f.transfer_id a, silent)
      else (a, silent)

  unfoldable pub on_frame : ℕ → List ℕ → Assembler → Assembler × Outcome
  on_frame now bytes a = elim (decode_frame codecs.meta bytes) [
    | err e ↦ (sweep now a, silent)
    | ok f ↦ dispatch now f (sweep now a)
  ]

-- `pendingResumes`
abbrev pub pending_of : Map (List ℕ) Assembly → List (List ℕ × List ℕ)
pending_of [] = []
pending_of ((key, x) ∷ xs) = (key, missing_pages x) ∷ pending_of xs

unfoldable pub pending_resumes : ℕ → Assembler → Assembler × List (List ℕ × List ℕ)
unfolding missing_pages
pending_resumes now a = let a' = sweep now a in (a', pending_of a'.assemblies)

-- `resumeNackFrame`
unfoldable pub resume_nack_frame : List ℕ → List ℕ → ℕ → FrameV2
resume_nack_frame id missing count = record (plain_frame nack_type id 0 count) {
  meta = some (record no_meta { missing = missing; resume = true });
}
