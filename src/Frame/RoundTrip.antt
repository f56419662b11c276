-- ===== src/Frame/RoundTrip.antt =====
-- Decoding gives back the frame that was encoded.
use pi_pilot.Base.{
  ℕ, zero, suc, ◌+◌, ◌^◌, ◌≤◌, ◌<◌, ◌≡◌, refl, ap, ◌∙◌, false, ◌||◌, not, Option, none, some, List,
  [], ◌∷◌, ◌++◌, arith, ltb, ◌==◌, or_else, nat_key, string_key, length, take, drop, length-append,
}
use pi_pilot.Frame.{
  MetaRestores, header_bytes, max_header_ext_bytes, Meta, FrameV2, ok, MetaCodec, be16, be32,
  byte_at, u16_at, u32_at, meta_bytes, layout, encode_frame, read_meta, rest_payload, read_frame,
  decode_frame,
}

drop-append {ℓ} : {A : Type ℓ} (n : ℕ) (xs ys : List A) → length xs ≡ n → drop n (xs ++ ys) ≡ ys
drop-append zero [] ys h = refl
drop-append zero (x ∷ xs) ys h = absurd (omega arith)
drop-append (suc n) [] ys h = absurd (omega arith)
drop-append (suc n) (x ∷ xs) ys h = drop-append n xs ys (omega arith)

take-append {ℓ} : {A : Type ℓ} (n : ℕ) (xs ys : List A) → length xs ≡ n → take n (xs ++ ys) ≡ xs
take-append zero [] ys h = refl
take-append zero (x ∷ xs) ys h = absurd (omega arith)
take-append (suc n) [] ys h = absurd (omega arith)
take-append (suc n) (x ∷ xs) ys h = ap (◌∷◌ x) (take-append n xs ys (omega arith))

drop-drop {ℓ} : {A : Type ℓ} (n m k : ℕ) (xs : List A) → n + m ≡ k → drop k xs ≡ drop m (drop n xs)
drop-drop zero m k xs h = let e : k ≡ m = omega arith in rw e refl
drop-drop (suc n) m zero xs h = absurd (omega arith)
drop-drop (suc n) zero (suc k) [] h = refl
drop-drop (suc n) (suc m) (suc k) [] h = refl
drop-drop (suc n) m (suc k) (x ∷ xs) h = drop-drop n m k xs (omega arith)

-- An absent payload and an empty one are one on the wire.
abbrev pub normal_payload : Option (List ℕ) → Option (List ℕ)
normal_payload none = none
normal_payload (some []) = none
normal_payload (some (b ∷ bs)) = some (b ∷ bs)

read_meta_lem :
    (codec : MetaCodec) (bs rest : List ℕ) (o : Option Meta)
    → MetaRestores codec o
    → drop 30 bs ≡ meta_bytes codec o ++ rest
    → read_meta codec bs (length (meta_bytes codec o)) ≡ ok o
unfolding read_meta
read_meta_lem codec bs rest none v h = refl
read_meta_lem codec bs rest (some m) v h = nonempty (codec.to_bytes m) refl
  where
    nonempty :
        (t : List ℕ)
        → codec.to_bytes m ≡ t
        → read_meta codec bs (length (codec.to_bytes m)) ≡ ok (some m)
    nonempty [] e = absurd (omega (arith, v.nonempty, ap length e))
    nonempty (b ∷ t) e =
        rw (ap length e)
          (rw (h, e, take-append (suc (length t)) (b ∷ t) rest refl, ← e, v.back) refl)

rest_payload_lem :
    (codec : MetaCodec) (bs : List ℕ) (n : ℕ) (p : Option (List ℕ))
    → drop (30 + n) bs ≡ or_else p []
    → length bs ≡ 30 + (n + length (or_else p []))
    → rest_payload codec bs n ≡ normal_payload p
rest_payload_lem codec bs n none h l = ground arith
rest_payload_lem codec bs n (some []) h l = ground arith
rest_payload_lem codec bs n (some (b ∷ t)) h l = ground arith

accepted :
    (codec : MetaCodec) (f : FrameV2) (bs : List ℕ)
    → encode_frame codec f ≡ ok bs
    → (length f.transfer_id ≡ 16)
      × (f.kind < 256)
      × (f.page_index < 2 ^ 32)
      × (f.page_count < 2 ^ 32)
      × (length (meta_bytes codec f.meta) ≤ 4096)
      × (layout codec f ≡ bs)
unfolding encode_frame
accepted codec f bs h =
    (ground arith, ground arith, ground arith, ground arith, ground arith, ground arith)

module _ (codec : MetaCodec) (f : FrameV2) (sixteen : length f.transfer_id ≡ 16)
    (restores : MetaRestores codec f.meta) where
  ext : List ℕ
  ext = meta_bytes codec f.meta

  body : List ℕ
  body = or_else f.payload []

  bytes : List ℕ
  bytes = layout codec f

  from_ids :
      drop 20 bytes
      ≡ be32 f.page_index ++ (be32 f.page_count ++ (be16 (length ext) ++ (ext ++ body)))
  unfolding bytes ext body
  from_ids = drop-append 16 f.transfer_id _ sixteen

  from_index : drop 24 bytes ≡ be32 f.page_count ++ (be16 (length ext) ++ (ext ++ body))
  from_index = drop-drop 20 4 24 bytes refl ∙ ap (drop 4) from_ids

  from_count : drop 28 bytes ≡ be16 (length ext) ++ (ext ++ body)
  from_count = drop-drop 20 8 28 bytes refl ∙ ap (drop 8) from_ids

  from_ext : drop 30 bytes ≡ ext ++ body
  from_ext = drop-drop 20 10 30 bytes refl ∙ ap (drop 10) from_ids

  length-bytes : length bytes ≡ 30 + (length ext + length body)
  unfolding bytes ext body
  length-bytes = omega (
    arith,
    sixteen,
    length-append f.transfer_id
        (be32 f.page_index ++ (be32 f.page_count ++ (be16 (length ext) ++ (ext ++ body)))),
    length-append ext body,
  )

  index_read : f.page_index < 2 ^ 32 → u32_at bytes 20 ≡ f.page_index
  index_read h = rw from_ids (omega arith)

  count_read : f.page_count < 2 ^ 32 → u32_at bytes 24 ≡ f.page_count
  count_read h = rw from_index (omega arith)

  ext_read : length ext ≤ 4096 → u16_at bytes 28 ≡ length ext
  ext_read h = rw from_count (omega arith)

  ids_read : take 16 (drop 4 bytes) ≡ f.transfer_id
  unfolding bytes
  ids_read = take-append 16 f.transfer_id _ sixteen

  meta_read : read_meta codec bytes (length ext) ≡ ok f.meta
  unfolding ext
  meta_read = read_meta_lem codec bytes body f.meta restores from_ext

  payload_read : rest_payload codec bytes (length ext) ≡ normal_payload f.payload
  unfolding body
  payload_read =
      rest_payload_lem codec bytes (length ext) f.payload
        (drop-drop 30 (length ext) (30 + length ext) bytes refl
          ∙ ap (drop (length ext)) from_ext
          ∙ drop-append (length ext) ext body refl)
        length-bytes

  frame_read :
      f.page_index < 2 ^ 32
      → f.page_count < 2 ^ 32
      → read_frame codec bytes (length ext) ≡ ok (record f { payload = normal_payload f.payload })
  unfolding read_frame
  frame_read p q =
      rw (meta_read, read_frame, payload_read, ids_read, index_read p, count_read q, kind_read) refl
    where
      kind_read : byte_at bytes 3 ≡ f.kind
      kind_read = unfold bytes in refl

  long_enough : ltb (length bytes) header_bytes ≡ false
  long_enough = ground (arith, length-bytes)

  ext_fits :
      length ext ≤ 4096
      → (ltb max_header_ext_bytes (length ext) || ltb (length bytes) (header_bytes + length ext))
        ≡ false
  ext_fits r = ground (arith, length-bytes)

  magic_read : (not (byte_at bytes 0 == 0x50) || not (byte_at bytes 1 == 0x32)) ≡ false
  unfolding bytes
  magic_read = refl

  version_read : not (byte_at bytes 2 == 2) ≡ false
  unfolding bytes
  version_read = refl

  decode-layout :
      f.page_index < 2 ^ 32
      → f.page_count < 2 ^ 32
      → length ext ≤ 4096
      → decode_frame codec bytes ≡ ok (record f { payload = normal_payload f.payload })
  unfolding decode_frame
  decode-layout p q r =
      rw (ext_read r, long_enough, magic_read, version_read, ext_fits r) (frame_read p q)

-- Where the JSON codec restores the frame's metadata, decoding what `encode_frame` gives back is the
-- frame again; a payload with no bytes comes back as an absent one.
pub decode-encode :
    (codec : MetaCodec) (f : FrameV2) (bs : List ℕ)
    → MetaRestores codec f.meta
    → encode_frame codec f ≡ ok bs
    → decode_frame codec bs ≡ ok (record f { payload = normal_payload f.payload })
unfolding ext bytes
decode-encode codec f bs v h =
    let (s, k, p, q, r, e) = accepted codec f bs h in rw (← e) (decode-layout codec f s v p q r)
