-- ===== src/Transfer/Assembler.antt =====
-- `TransferV2Assembler`: pages that come in are put together, within limits on count and bytes.
-- A call reads the clock once. Replies are the frames that are encoded and sent back.
use pi_pilot.Base.{
  ℕ, zero, suc, ◌+◌, ◌-◌, String, Bool, true, false, ◌||◌, Option, none, some, List, [], ◌∷◌, ltb,
  if◌then◌else◌, nat_key, string_key, same, length,
}
use pi_pilot.Base.Map
use pi_pilot.Base.Map.{Map}
use pi_pilot.Frame.{FrameV2}
use pi_pilot.Transfer.Encode.{assembly_max_bytes, max_assemblies, assembly_idle_ms}
use pi_pilot.Transfer.Retained.{id_key}

pub record Assembly : Type 0 where
  pub page_count : ℕ
  pub encoding : String
  pub size : ℕ
  pub sha256 : Option String
  pub parts : List (Option (List ℕ))
  pub received : ℕ
  pub bytes : ℕ
  pub last_activity : ℕ
  pub done_seen : Bool

pub record Assembler : Type 0 where
  pub assemblies : Map (List ℕ) Assembly
  pub total_bytes : ℕ

abbrev pub new_assembler : Assembler
new_assembler = record { assemblies = []; total_bytes = 0 }

-- What `onFrame` returns.
pub record Outcome : Type 0 where
  pub message : Option (List ℕ)
  pub replies : List FrameV2

abbrev pub silent : Outcome
silent = record { message = none; replies = [] }

abbrev pub replying : FrameV2 → Outcome
replying f = record { message = none; replies = f ∷ [] }

-- `dropAssembly`
unfoldable pub drop_assembly : List ℕ → Assembler → Assembler
drop_assembly key a = elim (Map.get key a.assemblies) [
  | none ↦ a
  | some x ↦ record {
    assemblies = Map.delete key a.assemblies;
    total_bytes = a.total_bytes - x.bytes;
  }
]

unfoldable pub sweep_idle : ℕ → Map (List ℕ) Assembly → Assembler → Assembler
sweep_idle now [] a = a
sweep_idle now ((key, x) ∷ xs) a =
    sweep_idle now xs
      (if ltb (x.last_activity + assembly_idle_ms) now then drop_assembly key a else a)

unfoldable pub sweep : ℕ → Assembler → Assembler
unfolding sweep_idle
sweep now a = sweep_idle now a.assemblies a

-- The search of `enforceCaps` for the entry that has been idle longest, the protected one left out;
-- of entries of the same time it is the first.
abbrev pub better : List ℕ → List ℕ → ℕ → Option (List ℕ × ℕ) → Option (List ℕ × ℕ)
better protected key at best = if same key protected then best else elim best [
  | none ↦ some (key, at)
  | some (k, oldest_at) ↦ if ltb at oldest_at then some (key, at) else some (k, oldest_at)
]

unfoldable pub oldest : List ℕ → Option (List ℕ × ℕ) → Map (List ℕ) Assembly → Option (List ℕ × ℕ)
oldest protected best [] = best
oldest protected best ((key, x) ∷ xs) =
    oldest protected (better protected key x.last_activity best) xs

abbrev pub over_caps : Assembler → Bool
over_caps a = ltb max_assemblies (length a.assemblies) || ltb assembly_max_bytes a.total_bytes

-- The `while` of `enforceCaps`: each round drops an entry, so there are no more rounds than entries.
unfoldable pub enforce_from : ℕ → List ℕ → Assembler → Assembler × Bool
unfolding oldest
enforce_from zero protected a = (a, true)
enforce_from (suc fuel) protected a = elim (over_caps a) [
  | false ↦ (a, true)
  | true ↦ elim (oldest protected none a.assemblies) [
    | none ↦ (drop_assembly protected a, false)
    | some (key, at) ↦ enforce_from fuel protected (drop_assembly key a)
  ]
]

unfoldable pub enforce_caps : List ℕ → Assembler → Assembler × Bool
unfolding enforce_from
enforce_caps protected a = enforce_from (suc (length a.assemblies)) protected a
