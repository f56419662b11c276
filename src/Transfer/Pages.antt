-- ===== src/Transfer/Pages.antt =====
-- The DATA branch of `TransferV2Assembler.onFrame`, and the pages that are missing.
use pi_pilot.Base.{
  ℕ, suc, ◌+◌, Bool, Option, none, some, List, [], ◌∷◌, ◌++◌, ltb, leb, if◌then◌else◌, is_some,
  or_else, nat_key, string_key, length, get_elem?, set,
}
use pi_pilot.Base.Map
use pi_pilot.Base.Map.{Map}
use pi_pilot.Frame.{FrameV2}
use pi_pilot.Transfer.Encode.{max_page_payload_bytes, assembly_max_bytes}
use pi_pilot.Transfer.Retained.{id_key}
use pi_pilot.Transfer.Assembler.{
  Assembly, Assembler, Outcome, silent, replying, drop_assembly, enforce_caps,
}
use pi_pilot.Transfer.Begin.{abort_frame}

abbrev pub with_page : ℕ → ℕ → List ℕ → Assembly → Assembly
with_page now i part x = record x {
  parts = set x.parts i (some part);
  received = x.received + 1;
  bytes = x.bytes + length part;
  last_activity = now;
}

abbrev pub is_there : List (Option (List ℕ)) → ℕ → Bool
is_there parts i = is_some (or_else (get_elem? parts i) none)

unfoldable pub store_page : ℕ → FrameV2 → List ℕ → Assembly → Assembler → Assembler × Outcome
store_page now f part x a =
    if ltb max_page_payload_bytes (length part)
    then (
      drop_assembly f.transfer_id a,
      replying (abort_frame f.transfer_id x.page_count "page too large"),
    )
    else if is_there x.parts f.page_index
    then (a, silent)
    else if ltb assembly_max_bytes (x.bytes + length part)
    then (
      drop_assembly f.transfer_id a,
      replying (abort_frame f.transfer_id x.page_count "assembly too large"),
    )
    else (
      (enforce_caps f.transfer_id (record {
        assemblies = Map.set f.transfer_id (with_page now f.page_index part x) a.assemblies;
        total_bytes = a.total_bytes + length part;
      })).0,
      silent,
    )

unfoldable pub on_data : ℕ → FrameV2 → Assembler → Assembler × Outcome
unfolding store_page
on_data now f a = elim (Map.get f.transfer_id a.assemblies) [
  | none ↦ (a, silent)
  | some x ↦
      if leb x.page_count f.page_index
      then (a, silent)
      else store_page now f (or_else f.payload []) x a
]

-- The loop of `missingPages` from page `i` on.
unfoldable pub missing_from : ℕ → List (Option (List ℕ)) → List ℕ
missing_from i [] = []
missing_from i (p ∷ ps) = let rest = missing_from (suc i) ps in if is_some p then rest else i ∷ rest

unfoldable pub missing_pages : Assembly → List ℕ
unfolding missing_from
missing_pages x = missing_from 0 x.parts

unfoldable pub joined : List (Option (List ℕ)) → List ℕ
joined [] = []
joined (p ∷ ps) = or_else p [] ++ joined ps
