-- ===== src/Hub/Ops.antt =====
-- The register of operations, by which a phone that comes back finds out what was taken.
use pi_pilot.Base.{
  ℕ, ◌+◌, ◌-◌, ◌≤◌, String, inl, inr, Bool, Option, none, some, List, [], ◌∷◌, ◌++◌, arith, ltb,
  if◌then◌else◌, Bool-cases, nat_key, string_key, length, drop, length-drop,
}
use pi_pilot.Base.Map
use pi_pilot.Base.Map.{Map, get-set_self, length-set-le, length-delete-le, Distinct}

pub record OpRecord : Type 0 where
  pub status : String
  pub at : ℕ

-- OP_REGISTRY_CAP
abbrev pub op_registry_cap : ℕ
op_registry_cap = 10000

-- The first entry is the oldest.
abbrev pub without_oldest : Map String OpRecord → Map String OpRecord
without_oldest [] = []
without_oldest ((k, r) ∷ m) = Map.delete k ((k, r) ∷ m)

-- A line of the log: it is appended, or the write fails and is passed over.
pub record OpLine : Type 0 where
  pub op_id : String
  pub op : OpRecord

pub record OpRegistry : Type 0 where
  pub ops : Map String OpRecord
  pub log : List (Option OpLine)

-- `recordOp`; `written` tells whether the line got into the log.
unfoldable pub record_op : ℕ → Bool → String → String → OpRegistry → OpRegistry
record_op now written id status s =
    let op : OpRecord = record { status = status; at = now } in
    let ops = Map.set id op (Map.delete id s.ops) in
    record {
      ops = if ltb op_registry_cap (length ops) then without_oldest ops else ops;
      log = if written then s.log ++ some (record { op_id = id; op = op }) ∷ [] else s.log;
    }

-- A line that is not one of an operation is passed over.
abbrev pub load_lines : List (Option OpLine) → Map String OpRecord → Map String OpRecord
load_lines [] m = m
load_lines (none ∷ ls) m = load_lines ls m
load_lines (some l ∷ ls) m = load_lines ls (Map.set l.op_id l.op m)

-- `loadOpRegistry` of a log that could be read.
unfoldable pub load_op_registry : List (Option OpLine) → OpRegistry
load_op_registry lines =
    let kept = drop (length lines - op_registry_cap) lines in
    record { ops = load_lines kept []; log = kept }

length-without_oldest-le : (m : Map String OpRecord) → length (without_oldest m) ≤ length m - 1
unfolding Map.delete
length-without_oldest-le [] = omega arith
length-without_oldest-le ((k, r) ∷ m) = ground (arith, length-delete-le k m)

-- The register never has more than its cap.
pub length-record_op-le :
    (now : ℕ) (written : Bool) (id status : String) (s : OpRegistry)
    → length s.ops ≤ op_registry_cap
    → length (record_op now written id status s).ops ≤ op_registry_cap
unfolding record_op
length-record_op-le now written id status s h =
    let op : OpRecord = record { status = status; at = now } in
    let ops = Map.set id op (Map.delete id s.ops) in
    let grown : length ops ≤ op_registry_cap + 1 =
      omega (arith, length-set-le id op (Map.delete id s.ops), length-delete-le id s.ops) in
    elim (Bool-cases (ltb op_registry_cap (length ops))) [
      | inl t ↦ rw t (omega (arith, length-without_oldest-le ops))
      | inr f ↦ rw f (ground arith)
    ]

length-load_lines-le :
    (ls : List (Option OpLine)) (m : Map String OpRecord)
    → length (load_lines ls m) ≤ length m + length ls
length-load_lines-le [] m = omega arith
length-load_lines-le (none ∷ ls) m = omega (arith, length-load_lines-le ls m)
length-load_lines-le (some l ∷ ls) m =
    omega (arith, length-load_lines-le ls (Map.set l.op_id l.op m), length-set-le l.op_id l.op m)

pub length-load_op_registry-le :
    (lines : List (Option OpLine)) → length (load_op_registry lines).ops ≤ op_registry_cap
unfolding load_op_registry
length-load_op_registry-le lines =
    let kept = drop (length lines - op_registry_cap) lines in
    omega (arith, length-load_lines-le kept [], length-drop (length lines - op_registry_cap) lines)
