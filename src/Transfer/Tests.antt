-- ===== src/Transfer/Tests.antt =====
-- The transfer at concrete inputs.
use pi_pilot.Base.{
  ◌++◌, ℕ, ◌≤◌, ◌≡◌, refl, true, false, Option, none, some, List, [], ◌∷◌, arith, leb,
  if◌then◌else◌, String_discrete, nat_key, string_key, length, replicate,
}
use pi_pilot.Base.Map
use pi_pilot.Base.Map.{Map}
use pi_pilot.Frame.{
  Meta, no_meta, MetaCodec, FrameV2, ok, encode_frame, decode_frame, layout, nack_type, done_type,
  data_type,
}
use pi_pilot.Frame.RoundTrip.{decode-encode}
use pi_pilot.Transfer.Encode.{Codecs, EncodedTransfer, plain_frame, retention_max_bytes}
use pi_pilot.Transfer.Retained.{id_key, new_store, add, resend_frames, bytes_dec}
use pi_pilot.Transfer.Assembler.{Assembly, Assembler, sweep}
use pi_pilot.Transfer.Handlers.{dispatch, materialize, on_done, on_frame}
use pi_pilot.Transfer.Budget.{IsStore, add_within_budget}
use pi_pilot.Transfer.Resend.{AreAsked, add_resend}
use pi_pilot.Transfer.Measured.{IsBounded, on_frame-IsBounded}
use pi_pilot.Transfer.Delivered.{Delivers, on_frame-Delivers}
use pi_pilot.Transfer.Encode.{transfer_frames, compressed, count_pages}
use pi_pilot.Transfer.Assembler.{new_assembler, silent}
use pi_pilot.Transfer.Stream.{receive}
use pi_pilot.Transfer.Ends.{delivered}
use pi_pilot.Transfer.Delivery.{message_arrives}

-- A codec that writes the list of missing pages.
abbrev read_missing : List ℕ → Option Meta
read_missing [] = none
read_missing (b ∷ bs) = some (record no_meta { missing = bs })

abbrev codec : MetaCodec
codec = record { to_bytes = λ m. 123 ∷ m.missing; of_bytes = read_missing }

abbrev codecs : Codecs
codecs = record {
  meta = codec;
  gzip = λ raw. raw;
  gunzip = λ limit raw. if leb (length raw) limit then some raw else none;
  sha256 = λ raw. "";
}

abbrev id : List ℕ
id = replicate 16 7

abbrev nack : FrameV2
nack = record (plain_frame nack_type id 0 300) {
  meta = some (record no_meta { missing = 2 ∷ 5 ∷ [] });
}

decode-encode_example : decode_frame codec (layout codec nack) ≡ ok nack
unfolding encode_frame
decode-encode_example =
    decode-encode codec nack (layout codec nack) (record { back = refl; nonempty = omega arith })
      refl

abbrev transfer : EncodedTransfer
transfer = record {
  transfer_id = id;
  frames = (1 ∷ []) ∷ (2 ∷ []) ∷ (3 ∷ []) ∷ (4 ∷ []) ∷ [];
  bytes = 100;
}

new_store-IsStore : IsStore new_store
unfolding Map.total
new_store-IsStore = record { distinct = tt; counted = refl }

add_within_budget_example :
    IsStore (add 10 transfer new_store)
    × ((add 10 transfer new_store).total_bytes ≤ retention_max_bytes)
add_within_budget_example = add_within_budget 10 transfer new_store new_store-IsStore

add_resend_example :
    (sent : List (List ℕ)) × AreAsked ((2 ∷ []) ∷ (3 ∷ []) ∷ []) (1 ∷ 9 ∷ []) sent
    × ((resend_frames 20 id (1 ∷ 9 ∷ []) true (add 10 transfer new_store)).1
        ≡ some ((1 ∷ []) ∷ (sent ++ (4 ∷ []) ∷ [])))
add_resend_example =
    add_resend 10 20 transfer (1 ∷ []) (4 ∷ []) ((2 ∷ []) ∷ (3 ∷ []) ∷ []) (1 ∷ 9 ∷ []) true
      new_store new_store-IsStore refl (omega arith) (omega arith)

abbrev one_page : Assembly
one_page = record {
  page_count = 1;
  encoding = "identity";
  size = 1;
  sha256 = none;
  parts = some (5 ∷ []) ∷ [];
  received = 1;
  bytes = 1;
  last_activity = 0;
  done_seen = false;
}

abbrev one_there : Assembler
one_there = record { assemblies = (id, one_page) ∷ []; total_bytes = 1 }

abbrev done_bytes : List ℕ
done_bytes = layout codec (plain_frame done_type id 0 1)

abbrev page_bytes : List ℕ
page_bytes = layout codec (record (plain_frame data_type id 0 1) { payload = some (5 ∷ 6 ∷ []) })

abbrev none_there : Assembler
none_there = record {
  assemblies = (id, record one_page { parts = none ∷ []; received = 0; bytes = 0 }) ∷ [];
  total_bytes = 0;
}

on_frame-IsBounded_example : IsBounded (on_frame codecs 5 page_bytes none_there).0
unfolding Map.get Map.total
on_frame-IsBounded_example = on_frame-IsBounded codecs 5 page_bytes none_there (record {
  distinct = (refl, tt);
  each = (record { placed = refl; measured = refl }, tt);
  counted = refl;
  few = omega arith;
  small = omega arith;
})

on_frame-Delivers_example :
    (key : List ℕ) × Delivers codecs key
      (5 ∷ [])
      (sweep 5 one_there)
      (on_frame codecs 5 done_bytes one_there).0
unfolding on_frame decode_frame dispatch on_done Map.get sweep bytes_dec materialize String_discrete
on_frame-Delivers_example = on_frame-Delivers codecs 5 done_bytes (5 ∷ []) one_there refl

message_arrives_example : receive codecs 3 (transfer_frames codecs id (5 ∷ [])) new_assembler ≡ (
  new_assembler,
  silent
      ∷ (replicate (count_pages (compressed codecs (5 ∷ [])).payload) silent
          ++ delivered codecs id (count_pages (compressed codecs (5 ∷ [])).payload) (5 ∷ []) ∷ []),
)
message_arrives_example = message_arrives codecs 3 id (5 ∷ []) (omega arith) refl
