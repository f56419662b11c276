-- ===== src/Transfer/Encode.antt =====
-- `encodeTransferV2`, and the limits. A text is the list of its UTF-8 bytes; the random transfer id
-- is an argument; compression and hashing are parameters.
use pi_pilot.Base.{
  ℕ, zero, suc, ◌+◌, ◌-◌, ◌*◌, ◌/◌, max, String, ◌&&◌, Option, none, some, List, [], ◌∷◌, ◌++◌, ltb,
  leb, if◌then◌else◌, nat_key, string_key, length, take, drop,
}
use pi_pilot.Frame.{
  no_meta, natural, FrameV2, FrameResult, ok, err, MetaCodec, encode_frame, begin_type, data_type,
  done_type,
}

abbrev pub page_bytes : ℕ
page_bytes = 36 * 1024

abbrev pub max_message_bytes : ℕ
max_message_bytes = 16 * 1024 * 1024

abbrev pub gzip_min_bytes : ℕ
gzip_min_bytes = 16 * 1024

abbrev pub retention_ms : ℕ
retention_ms = 60000

abbrev pub retention_max_bytes : ℕ
retention_max_bytes = 32 * 1024 * 1024

abbrev pub max_assemblies : ℕ
max_assemblies = 8

abbrev pub assembly_max_bytes : ℕ
assembly_max_bytes = 32 * 1024 * 1024

abbrev pub assembly_idle_ms : ℕ
assembly_idle_ms = 30000

-- Math.ceil
abbrev pub ceil_div : ℕ → ℕ → ℕ
ceil_div a b = (a + (b - 1)) / b

abbrev pub max_nack_pages : ℕ
max_nack_pages = ceil_div max_message_bytes page_bytes + 1

abbrev pub max_page_payload_bytes : ℕ
max_page_payload_bytes = page_bytes + 4 * 1024

abbrev pub max_inflated_bytes : ℕ
max_inflated_bytes = max_message_bytes

-- node:zlib and node:crypto; decompressing has a limit on what it gives.
pub record Codecs : Type 0 where
  pub meta : MetaCodec
  pub gzip : List ℕ → List ℕ
  pub gunzip : ℕ → List ℕ → Option (List ℕ)
  pub sha256 : List ℕ → String

pub record EncodedTransfer : Type 0 where
  pub transfer_id : List ℕ
  pub frames : List (List ℕ)
  pub bytes : ℕ

pub record Body : Type 0 where
  pub payload : List ℕ
  pub encoding : String

-- The bytes of page `i`: `subarray` stops at the end.
abbrev pub page_at : List ℕ → ℕ → List ℕ
page_at payload i = take page_bytes (drop (i * page_bytes) payload)

abbrev pub count_pages : List ℕ → ℕ
count_pages payload = max 1 (ceil_div (length payload) page_bytes)

-- The loop over `i`, with the rounds that are left.
abbrev pub pages_from : List ℕ → ℕ → ℕ → List (List ℕ)
pages_from payload i zero = []
pages_from payload i (suc n) = page_at payload i ∷ pages_from payload (suc i) n

abbrev pub pages : List ℕ → List (List ℕ)
pages payload = pages_from payload 0 (count_pages payload)

abbrev pub plain_frame : ℕ → List ℕ → ℕ → ℕ → FrameV2
plain_frame kind id index count = record {
  kind = kind;
  transfer_id = id;
  page_index = index;
  page_count = count;
  meta = none;
  payload = none;
}

abbrev pub data_frame : List ℕ → ℕ → ℕ → List ℕ → FrameV2
data_frame id index count page = record (plain_frame data_type id index count) {
  payload = some page;
}

abbrev pub data_frames : List ℕ → ℕ → ℕ → List (List ℕ) → List FrameV2
data_frames id count i [] = []
data_frames id count i (p ∷ ps) = data_frame id i count p ∷ data_frames id count (suc i) ps

-- Every frame is encoded, or the first that cannot be throws.
abbrev pub encode_all : MetaCodec → List FrameV2 → FrameResult (List (List ℕ))
encode_all codec [] = ok []
encode_all codec (f ∷ fs) = elim (encode_frame codec f) [
  | err e ↦ err e
  | ok b ↦ elim (encode_all codec fs) [ err e ↦ err e | ok bs ↦ ok (b ∷ bs) ]
]

pub data TransferResult : Type 0 where
  encoded : EncodedTransfer → TransferResult
  too_long : TransferResult
  bad_frame : TransferResult

module _ (codecs : Codecs) where
  unfoldable pub compressed : List ℕ → Body
  compressed raw =
      let plain : Body = record { payload = raw; encoding = "identity" } in
      let small = codecs.gzip raw in
      if leb gzip_min_bytes (length raw) && ltb (length small) (length raw)
      then record { payload = small; encoding = "gzip" }
      else plain

  abbrev pub begin_frame : List ℕ → List ℕ → Body → FrameV2
  begin_frame id raw body = record (plain_frame begin_type id 0 (count_pages body.payload)) {
    meta = some (record no_meta {
      page_bytes = some page_bytes;
      encoding = some body.encoding;
      payload_type = some "json";
      size = some (natural (length raw));
      sha256 = some (codecs.sha256 raw);
    });
  }

  -- The frames of a message before they are encoded.
  unfoldable pub transfer_frames : List ℕ → List ℕ → List FrameV2
  unfolding compressed
  transfer_frames id raw =
      let body = compressed raw in
      let count = count_pages body.payload in
      begin_frame id raw body
      ∷ (data_frames id count 0 (pages body.payload) ++ plain_frame done_type id 0 count ∷ [])

  unfoldable pub encode_transfer : List ℕ → List ℕ → TransferResult
  unfolding transfer_frames
  encode_transfer id raw =
      if ltb max_message_bytes (length raw)
      then too_long
      else elim (encode_all codecs.meta (transfer_frames id raw)) [
        | err e ↦ bad_frame
        | ok frames ↦ encoded (record {
          transfer_id = id;
          frames = frames;
          bytes = length (compressed raw).payload + length frames * 30;
        })
      ]
