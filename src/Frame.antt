-- ===== src/Frame.antt =====
-- bridge/src/p2p_frame_v2.ts: the binary frame of the P2P transfer, encoded to bytes and decoded.
-- Bytes are numbers; the JSON text of the header extension is that of a codec, a parameter.
pub mod RoundTrip
use pi_pilot.Base.{
  ℕ, zero, suc, ◌+◌, ◌-◌, ◌*◌, ◌/◌, ◌%◌, ◌^◌, ◌≤◌, ◌<◌, max, min, String, ◌≡◌, refl, sym, ap, ◌∙◌,
  subst, ◌≢◌, ◌↔◌, ◌⊎◌, inl, inr, ite, dite, if_pos, if_neg, Bool, true, false, ◌&&◌, ◌||◌, not,
  Option, none, some, List, [], ◌∷◌, ◌++◌, map, append_assoc, append-nil, arith, dec_lt, dec_le,
  ℕ_discrete, ltb, leb, ◌==◌, if◌then◌else◌, ltb→lt, lt→ltb, leb→le, tests, Bool-cases,
  Option-cases, is_some, or_else, String_discrete, text_ne, Key, nat_key, string_key, same, length,
  get_elem?, take, drop, replicate, keep_if, all, last?, length-append, length-snoc,
  length-keep_if-le, length-replicate, length-set, take-append-drop, length-take, length-drop, sum,
  sum-append,
}

-- What the transfer reads and writes of a frame's metadata. Of a declared size it matters whether it
-- is finite; `negsuc n` is -(n + 1).
pub data WireNumber : Type 0 where
  not_finite : WireNumber
  natural : ℕ → WireNumber
  negative : WireNumber

pub record Meta : Type 0 where
  pub page_bytes : Option ℕ
  pub encoding : Option String
  pub payload_type : Option String
  pub size : Option WireNumber
  pub sha256 : Option String
  pub missing : List ℕ
  pub resume : Bool
  pub ranges : List (ℕ × ℕ)
  pub reason : Option String

abbrev pub no_meta : Meta
no_meta = record {
  page_bytes = none;
  encoding = none;
  payload_type = none;
  size = none;
  sha256 = none;
  missing = [];
  resume = false;
  ranges = [];
  reason = none;
}

pub record FrameV2 : Type 0 where
  pub kind : ℕ
  pub transfer_id : List ℕ
  pub page_index : ℕ
  pub page_count : ℕ
  pub meta : Option Meta
  pub payload : Option (List ℕ)

-- P2P_FRAME_V2_TYPE
abbrev pub begin_type : ℕ
begin_type = 1

abbrev pub data_type : ℕ
data_type = 2

abbrev pub done_type : ℕ
done_type = 3

abbrev pub ack_type : ℕ
ack_type = 4

abbrev pub nack_type : ℕ
nack_type = 5

abbrev pub abort_type : ℕ
abort_type = 6

abbrev pub header_bytes : ℕ
header_bytes = 30

abbrev pub max_header_ext_bytes : ℕ
max_header_ext_bytes = 4096

-- What is thrown; `out_of_range` is what the buffer throws for a number that does not fit its field.
pub data FrameError : Type 0 where
  bad_transfer_id ext_too_long out_of_range too_short bad_magic bad_version bad_ext_length
        bad_meta :
      FrameError

pub data FrameResult (A : Type 0) : Type 0 where
  ok : A → FrameResult A
  err : FrameError → FrameResult A

-- The JSON text of metadata as bytes, and back; `none` is a text that does not parse, or that is no
-- object.
pub record MetaCodec : Type 0 where
  pub to_bytes : Meta → List ℕ
  pub of_bytes : List ℕ → Option Meta

-- What is written of metadata is read back, and is not empty.
pub record Restores (codec : MetaCodec) (m : Meta) : Type 0 where
  pub back : codec.of_bytes (codec.to_bytes m) ≡ some m
  pub nonempty : 0 < length (codec.to_bytes m)

abbrev pub MetaRestores : MetaCodec → Option Meta → Type 0
MetaRestores codec none = Unit {0}
MetaRestores codec (some m) = Restores codec m

-- `writeUInt16BE` and `writeUInt32BE`
abbrev pub be16 : ℕ → List ℕ
be16 n = (n / 256) ∷ (n % 256) ∷ []

abbrev pub be32 : ℕ → List ℕ
be32 n = (n / 2 ^ 24) ∷ (n / 2 ^ 16 % 256) ∷ (n / 2 ^ 8 % 256) ∷ (n % 256) ∷ []

-- `readUInt8`, `readUInt16BE` and `readUInt32BE` at an offset
abbrev pub byte_at : List ℕ → ℕ → ℕ
byte_at bs i = or_else (get_elem? bs i) 0

abbrev pub u16_at : List ℕ → ℕ → ℕ
u16_at bs i = let t = drop i bs in byte_at t 0 * 256 + byte_at t 1

abbrev pub u32_at : List ℕ → ℕ → ℕ
u32_at bs i =
    let t = drop i bs in
    byte_at t 0 * 2 ^ 24 + byte_at t 1 * 2 ^ 16 + byte_at t 2 * 2 ^ 8 + byte_at t 3

module _ (codec : MetaCodec) where
  abbrev pub meta_bytes : Option Meta → List ℕ
  meta_bytes none = []
  meta_bytes (some m) = codec.to_bytes m

  -- The bytes of the frame, in the order of the layout.
  abbrev pub layout : FrameV2 → List ℕ
  layout f =
      0x50
      ∷ 0x32
      ∷ 2
      ∷ f.kind
      ∷ (f.transfer_id
          ++ (be32 f.page_index
              ++ (be32 f.page_count
                  ++ (be16 (length (meta_bytes f.meta))
                      ++ (meta_bytes f.meta ++ or_else f.payload [])))))

  unfoldable pub encode_frame : FrameV2 → FrameResult (List ℕ)
  encode_frame f =
      if not (length f.transfer_id == 16)
      then err bad_transfer_id
      else if ltb max_header_ext_bytes (length (meta_bytes f.meta))
      then err ext_too_long
      else if not (ltb f.kind 256)
          || not (ltb f.page_index (2 ^ 32))
          || not (ltb f.page_count (2 ^ 32))
      then err out_of_range
      else ok (layout f)

  -- The header extension: absent if its length is 0.
  unfoldable pub read_meta : List ℕ → ℕ → FrameResult (Option Meta)
  read_meta bs zero = ok none
  read_meta bs (suc n) = elim (codec.of_bytes (take (suc n) (drop header_bytes bs))) [
    | none ↦ err bad_meta
    | some m ↦ ok (some m)
  ]

  abbrev pub rest_payload : List ℕ → ℕ → Option (List ℕ)
  rest_payload bs ext =
      if ltb (header_bytes + ext) (length bs) then some (drop (header_bytes + ext) bs) else none

  read_frame : List ℕ → ℕ → FrameResult FrameV2
  read_frame bs ext = elim (read_meta bs ext) [
    | err e ↦ err e
    | ok meta ↦ ok (record {
      kind = byte_at bs 3;
      transfer_id = take 16 (drop 4 bs);
      page_index = u32_at bs 20;
      page_count = u32_at bs 24;
      meta = meta;
      payload = rest_payload bs ext;
    })
  ]

  unfoldable pub decode_frame : List ℕ → FrameResult FrameV2
  unfolding read_frame read_meta
  decode_frame bs =
      if ltb (length bs) header_bytes
      then err too_short
      else if not (byte_at bs 0 == 0x50) || not (byte_at bs 1 == 0x32)
      then err bad_magic
      else if not (byte_at bs 2 == 2)
      then err bad_version
      else if ltb max_header_ext_bytes (u16_at bs 28)
          || ltb (length bs) (header_bytes + u16_at bs 28)
      then err bad_ext_length
      else read_frame bs (u16_at bs 28)
