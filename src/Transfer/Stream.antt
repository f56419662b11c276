-- ===== src/Transfer/Stream.antt =====
-- The pages of a transfer, one after the other, as the receiver takes them.
use pi_pilot.Base.{
  ℕ, suc, ◌+◌, ◌≤◌, ◌<◌, String, ◌≡◌, refl, sym, ap, ◌∙◌, if_pos, false, Option, none, some, List,
  [], ◌∷◌, ◌++◌, append_assoc, append-nil, arith, ltb, leb, nat_key, string_key, length, set,
  replicate, length-snoc,
}
use pi_pilot.Base.Map
use pi_pilot.Base.Map.{Map}
use pi_pilot.Frame.{FrameV2}
use pi_pilot.Transfer.Encode.{
  Codecs, max_page_payload_bytes, assembly_max_bytes, data_frame, data_frames,
}
use pi_pilot.Transfer.Retained.{id_key, bytes_dec}
use pi_pilot.Transfer.Assembler.{Assembly, Assembler, Outcome, silent, enforce_caps, enforce_from}
use pi_pilot.Transfer.Pages.{on_data, store_page, with_page, is_there}
use pi_pilot.Transfer.Handlers.{dispatch}

abbrev pub somes : List (List ℕ) → List (Option (List ℕ))
somes [] = []
somes (p ∷ ps) = some p ∷ somes ps

abbrev pub size_of_pages : List (List ℕ) → ℕ
size_of_pages [] = 0
size_of_pages (p ∷ ps) = length p + size_of_pages ps

-- The only assembly, with some pages there and others not.
abbrev pub partial : ℕ → ℕ → String → ℕ → Option String → List (List ℕ) → ℕ → Assembly
partial now count encoding size hash front left = record {
  page_count = count;
  encoding = encoding;
  size = size;
  sha256 = hash;
  parts = somes front ++ replicate left none;
  received = length front;
  bytes = size_of_pages front;
  last_activity = now;
  done_seen = false;
}

abbrev pub only : List ℕ → Assembly → Assembler
only id x = record { assemblies = (id, x) ∷ []; total_bytes = x.bytes }

not_there :
    (front : List (List ℕ)) (left : ℕ)
    → is_there (somes front ++ replicate (suc left) none) (length front) ≡ false
not_there [] left = refl
not_there (p ∷ ps) left = not_there ps left

put_page :
    (front : List (List ℕ)) (p : List ℕ) (left : ℕ)
    → set (somes front ++ replicate (suc left) none) (length front) (some p)
      ≡ somes (front ++ p ∷ []) ++ replicate left none
put_page [] p left = refl
put_page (q ∷ qs) p left = ap (λ ps. some q ∷ ps) (put_page qs p left)

size_snoc :
    (front : List (List ℕ)) (p : List ℕ)
    → size_of_pages front + length p ≡ size_of_pages (front ++ p ∷ [])
size_snoc [] p = omega arith
size_snoc (q ∷ qs) p = let h = size_snoc qs p in omega arith

pub within_caps :
    (id : List ℕ) (x : Assembly)
    → x.bytes ≤ assembly_max_bytes
    → (enforce_caps id (only id x)).0 ≡ only id x
unfolding enforce_caps enforce_from
within_caps id x h = ground arith

pub get-only : (id : List ℕ) (x : Assembly) → Map.get id (only id x).assemblies ≡ some x
unfolding Map.get
get-only id x = if_pos (bytes_dec id id) refl _ _

pub set-only : (id : List ℕ) (x y : Assembly) → Map.set id y (only id x).assemblies ≡ (id, y) ∷ []
unfolding Map.set
set-only id x y = if_pos (bytes_dec id id) refl _ _

page_put :
    (now count : ℕ) (encoding : String) (size : ℕ) (hash : Option String) (front : List (List ℕ))
    (p : List ℕ) (left : ℕ)
    → with_page now (length front) p (partial now count encoding size hash front (suc left))
      ≡ partial now count encoding size hash (front ++ p ∷ []) left
page_put now count encoding size hash front p left =
    let one_more : length front + 1 ≡ length (front ++ p ∷ []) =
      omega (arith, length-snoc front p) in
    ap
      (λ parts. record (partial now count encoding size hash front (suc left)) {
        parts = parts;
        received = length front + 1;
        bytes = size_of_pages front + length p;
      })
      (put_page front p left)
    ∙ ap
        (λ n. record (partial now count encoding size hash (front ++ p ∷ []) left) {
          received = n;
          bytes = size_of_pages front + length p;
        })
        one_more
    ∙ ap (λ n. record (partial now count encoding size hash (front ++ p ∷ []) left) { bytes = n })
        (size_snoc front p)

store_step :
    (now count : ℕ) (encoding : String) (size : ℕ) (hash : Option String) (id : List ℕ)
    (front : List (List ℕ)) (p : List ℕ) (left : ℕ)
    → length p ≤ max_page_payload_bytes
    → size_of_pages front + length p ≤ assembly_max_bytes
    → store_page now
        (data_frame id (length front) count p)
        p
        (partial now count encoding size hash front (suc left))
        (only id (partial now count encoding size hash front (suc left)))
      ≡ (only id (partial now count encoding size hash (front ++ p ∷ []) left), silent)
unfolding store_page
store_step now count encoding size hash id front p left l b =
    let x = partial now count encoding size hash front (suc left) in
    let y = with_page now (length front) p x in
    let z = partial now count encoding size hash (front ++ p ∷ []) left in
    let small : ltb max_page_payload_bytes (length p) ≡ false = ground arith in
    let fits : ltb assembly_max_bytes (size_of_pages front + length p) ≡ false = ground arith in
    rw (small, store_page, not_there front left, fits)
      (ap (λ m. ((enforce_caps id (record { assemblies = m; total_bytes = y.bytes })).0, silent))
          (set-only id x y)
        ∙ ap (λ a. (a, silent))
            (within_caps id y b
              ∙ ap (only id) (page_put now count encoding size hash front p left)))

-- One page more.
data_step :
    (now count : ℕ) (encoding : String) (size : ℕ) (hash : Option String) (id : List ℕ)
    (front : List (List ℕ)) (p : List ℕ) (left : ℕ)
    → length front < count
    → length p ≤ max_page_payload_bytes
    → size_of_pages front + length p ≤ assembly_max_bytes
    → on_data now
        (data_frame id (length front) count p)
        (only id (partial now count encoding size hash front (suc left)))
      ≡ (only id (partial now count encoding size hash (front ++ p ∷ []) left), silent)
unfolding on_data store_page
data_step now count encoding size hash id front p left c l b =
    let x = partial now count encoding size hash front (suc left) in
    let inside : leb count (length front) ≡ false = ground arith in
    rw (get-only id x, on_data, inside)
      (store_step now count encoding size hash id front p left l b)

-- The frames, and what comes of each.
unfoldable pub receive : Codecs → ℕ → List FrameV2 → Assembler → Assembler × List Outcome
receive codecs now [] a = (a, [])
receive codecs now (f ∷ fs) a =
    let (b, o) = dispatch codecs now f a in let (c, os) = receive codecs now fs b in (c, o ∷ os)

dispatch-data :
    (codecs : Codecs) (now count i : ℕ) (id p : List ℕ) (a : Assembler)
    → dispatch codecs now (data_frame id i count p) a ≡ on_data now (data_frame id i count p) a
unfolding dispatch
dispatch-data codecs now count i id p a = refl

abbrev pub FitPages : List (List ℕ) → Type 0
FitPages [] = Unit {0}
FitPages (p ∷ ps) = (length p ≤ max_page_payload_bytes) × FitPages ps

abbrev pub then_receive : Codecs → ℕ → List FrameV2 → Assembler × Outcome → Assembler × List Outcome
then_receive codecs now fs r = ((receive codecs now fs r.0).0, r.1 ∷ (receive codecs now fs r.0).1)

-- All the pages that are left.
pub data_steps :
    (codecs : Codecs) (now count : ℕ) (encoding : String) (size : ℕ) (hash : Option String)
    (id : List ℕ) (front back : List (List ℕ))
    → length front + length back ≤ count
    → FitPages back
    → size_of_pages front + size_of_pages back ≤ assembly_max_bytes
    → receive codecs now
        (data_frames id count (length front) back)
        (only id (partial now count encoding size hash front (length back)))
      ≡ (
        only id (partial now count encoding size hash (front ++ back) 0),
        replicate (length back) silent,
      )
unfolding receive
data_steps codecs now count encoding size hash id front [] c l b =
    ap (λ ps. (only id (partial now count encoding size hash ps 0), [])) (sym (append-nil front))
data_steps codecs now count encoding size hash id front (p ∷ ps) c l b =
    let next = front ++ p ∷ [] in
    let bytes = size_snoc front p in
    let one_more : suc (length front) ≡ length next = omega (arith, length-snoc front p) in
    let step =
      dispatch-data codecs now count (length front) id p
        (only id (partial now count encoding size hash front (suc (length ps))))
      ∙ data_step now count encoding size hash id front p (length ps) (omega arith) l.0
          (omega arith) in
    let ih =
      data_steps codecs now count encoding size hash id next ps (omega arith) l.1 (omega arith) in
    let rest =
      ap
        (λ i.
          receive codecs now (data_frames id count i ps)
            (only id (partial now count encoding size hash next (length ps))))
        one_more
      ∙ ih
      ∙ ap
          (λ qs.
            (only id (partial now count encoding size hash qs 0), replicate (length ps) silent))
          (append_assoc front (p ∷ []) ps) in
    ap (then_receive codecs now (data_frames id count (suc (length front)) ps)) step
    ∙ ap (λ r. (r.0, silent ∷ r.1)) rest
