-- ===== src/Transfer/Delivery.antt =====
-- A message that is sent arrives: the frames of `encodeTransferV2` through the receiver's `onFrame`.
use pi_pilot.Base.{
  ℕ, ◌≤◌, String, ◌≡◌, refl, sym, ap, ◌∙◌, subst, inl, inr, true, ◌&&◌, Option, some, List, [], ◌∷◌,
  ◌++◌, arith, ltb, leb, Bool-cases, or_else, String_discrete, nat_key, string_key, length,
  replicate,
}
use pi_pilot.Frame.{no_meta, FrameV2, done_type}
use pi_pilot.Transfer.Encode.{
  Codecs, Body, compressed, begin_frame, transfer_frames, gzip_min_bytes, max_message_bytes,
  max_inflated_bytes, max_nack_pages, assembly_max_bytes, plain_frame, data_frames, pages,
  count_pages,
}
use pi_pilot.Transfer.Retained.{id_key}
use pi_pilot.Transfer.Assembler.{Assembler, new_assembler, silent}
use pi_pilot.Transfer.Begin.{on_begin, declared_hash, is_allowed_encoding}
use pi_pilot.Transfer.Pages.{joined}
use pi_pilot.Transfer.Handlers.{inflated, hash_agrees, on_done, dispatch}
use pi_pilot.Transfer.Stream.{
  then_receive, somes, size_of_pages, FitPages, partial, only, receive, data_steps,
}
use pi_pilot.Transfer.Paging.{pages-joined, pages_from-length, pages_from-FitPages, joined-size}
use pi_pilot.Transfer.Ends.{delivered, done_step, hash_declared, begin_step}

receive-append :
    (codecs : Codecs) (now : ℕ) (fs gs : List FrameV2) (a : Assembler)
    → receive codecs now (fs ++ gs) a ≡ (
      (receive codecs now gs (receive codecs now fs a).0).0,
      (receive codecs now fs a).1 ++ (receive codecs now gs (receive codecs now fs a).0).1,
    )
unfolding receive
receive-append codecs now [] gs a = refl
receive-append codecs now (f ∷ fs) gs a =
    let (b, o) = dispatch codecs now f a in
    ap (λ r. (r.0, o ∷ r.1)) (receive-append codecs now fs gs b)

-- What is sent of a message: it is restored, in an encoding that is allowed, and is no longer.
record IsSent (codecs : Codecs) (raw : List ℕ) (body : Body) : Type 0 where
  allowed : is_allowed_encoding body.encoding ≡ true
  restored : inflated codecs body.encoding body.payload ≡ some raw
  shorter : length body.payload ≤ length raw

compressed-IsSent :
    (codecs : Codecs) (raw : List ℕ)
    → codecs.gunzip max_inflated_bytes (codecs.gzip raw) ≡ some raw
    → IsSent codecs raw (compressed codecs raw)
unfolding compressed String_discrete
compressed-IsSent codecs raw g =
    elim (Bool-cases
      (leb gzip_min_bytes (length raw) && ltb (length (codecs.gzip raw)) (length raw))) [
        | inl h ↦ rw h (record { allowed = refl; restored = g; shorter = ground arith })
        | inr h ↦ rw h (record { allowed = refl; restored = refl; shorter = omega arith })
      ]

all_pages :
    (codecs : Codecs) (now count : ℕ) (encoding : String) (size : ℕ) (hash : Option String)
    (id : List ℕ) (ps : List (List ℕ))
    → length ps ≡ count
    → FitPages ps
    → size_of_pages ps ≤ assembly_max_bytes
    → receive codecs now
        (data_frames id count 0 ps)
        (only id (partial now count encoding size hash [] count))
      ≡ (only id (partial now count encoding size hash ps 0), replicate count silent)
all_pages codecs now count encoding size hash id ps l fit b =
    subst
      (λ k.
        receive codecs now (data_frames id count 0 ps)
          (only id (partial now count encoding size hash [] k))
        ≡ (only id (partial now count encoding size hash ps 0), replicate k silent))
      l (data_steps codecs now count encoding size hash id [] ps (omega arith) fit (omega arith))

last_frame :
    (codecs : Codecs) (now count : ℕ) (id : List ℕ) (a : Assembler)
    → receive codecs now (plain_frame done_type id 0 count ∷ []) a ≡ (
      (on_done codecs now (plain_frame done_type id 0 count) a).0,
      (on_done codecs now (plain_frame done_type id 0 count) a).1 ∷ [],
    )
unfolding receive dispatch
last_frame codecs now count id a = refl

-- The pages and the last frame, after the first frame.
pages_arrive :
    (codecs : Codecs) (now count : ℕ) (encoding : String) (hash : Option String) (id raw : List ℕ)
    (ps : List (List ℕ))
    → length ps ≡ count
    → FitPages ps
    → size_of_pages ps ≤ assembly_max_bytes
    → inflated codecs encoding (joined (somes ps)) ≡ some raw
    → hash_agrees codecs hash raw ≡ true
    → receive codecs now
        (data_frames id count 0 ps ++ plain_frame done_type id 0 count ∷ [])
        (only id (partial now count encoding (length raw) hash [] count))
      ≡ (new_assembler, replicate count silent ++ delivered codecs id count raw ∷ [])
pages_arrive codecs now count encoding hash id raw ps l fit b i h =
    let last = plain_frame done_type id 0 count ∷ [] in
    receive-append codecs now (data_frames id count 0 ps) last _
    ∙ ap (λ r. ((receive codecs now last r.0).0, r.1 ++ (receive codecs now last r.0).1))
        (all_pages codecs now count encoding (length raw) hash id ps l fit b)
    ∙ ap (λ r. (r.0, replicate count silent ++ r.1))
        (last_frame codecs now count id
          (only id (partial now count encoding (length raw) hash ps 0)))
    ∙ ap (λ r. (r.0, replicate count silent ++ r.1 ∷ []))
        (done_step codecs now count encoding (length raw) hash id raw ps i refl h)

dispatch-begin :
    (codecs : Codecs) (now : ℕ) (id raw : List ℕ) (body : Body) (a : Assembler)
    → dispatch codecs now (begin_frame codecs id raw body) a
      ≡ on_begin now (begin_frame codecs id raw body) a
unfolding dispatch
dispatch-begin codecs now id raw body a = refl

count_fits :
    (payload : List ℕ) → length payload ≤ max_message_bytes → count_pages payload ≤ max_nack_pages
count_fits payload h = omega arith

body_arrives :
    (codecs : Codecs) (now : ℕ) (id raw : List ℕ) (body : Body)
    → IsSent codecs raw body
    → length raw ≤ max_message_bytes
    → receive codecs now
        (begin_frame codecs id raw body
          ∷ (data_frames id (count_pages body.payload) 0 (pages body.payload)
              ++ plain_frame done_type id 0 (count_pages body.payload) ∷ []))
        new_assembler
      ≡ (
        new_assembler,
        silent
            ∷ (replicate (count_pages body.payload) silent
                ++ delivered codecs id (count_pages body.payload) raw ∷ []),
      )
unfolding receive
body_arrives codecs now id raw body b l =
    let short = b.shorter in
    let ps = pages body.payload in
    let size = sym (joined-size ps) ∙ ap length (pages-joined body.payload) in
    let begin = begin_frame codecs id raw body in
    ap (then_receive codecs now _) (
      dispatch-begin codecs now id raw body new_assembler
      ∙ begin_step codecs now id raw body l (count_fits body.payload (omega arith)) b.allowed)
    ∙ ap (λ r. (r.0, silent ∷ r.1))
        (pages_arrive codecs now (count_pages body.payload) body.encoding
          (declared_hash (or_else begin.meta no_meta)) id raw ps
          (pages_from-length body.payload 0 (count_pages body.payload))
          (pages_from-FitPages body.payload 0 (count_pages body.payload)) (omega arith)
          (ap (inflated codecs body.encoding) (pages-joined body.payload) ∙ b.restored)
          (hash_declared codecs (or_else begin.meta no_meta) raw refl))

-- A message of at most 16 MiB that gzip restores arrives: the frames it is sent in, taken in order by
-- a new assembler at one reading of the clock, give no reply until the last, which delivers the
-- message and is answered by an acknowledgement of all pages, and the assembler is empty again.
pub message_arrives :
    (codecs : Codecs) (now : ℕ) (id raw : List ℕ)
    → length raw ≤ max_message_bytes
    → codecs.gunzip max_inflated_bytes (codecs.gzip raw) ≡ some raw
    → receive codecs now (transfer_frames codecs id raw) new_assembler ≡ (
      new_assembler,
      silent
          ∷ (replicate (count_pages (compressed codecs raw).payload) silent
              ++ delivered codecs id (count_pages (compressed codecs raw).payload) raw ∷ []),
    )
unfolding transfer_frames
message_arrives codecs now id raw l g =
    body_arrives codecs now id raw (compressed codecs raw) (compressed-IsSent codecs raw g) l
