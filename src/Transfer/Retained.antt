-- ===== src/Transfer/Retained.antt =====
-- `TransferRetainedStore`: what was sent is kept for a time, for pages that are asked for again.
use pi_pilot.Base.{
  ℕ, ◌+◌, ◌-◌, refl, Bool, Option, none, some, List, [], ◌∷◌, ◌++◌, ℕ_discrete, ltb, leb,
  if◌then◌else◌, or_else, Key, nat_key, string_key, get_elem?, drop, last?,
}
use pi_pilot.Base.Map
use pi_pilot.Base.Map.{Map}
use pi_pilot.Transfer.Encode.{EncodedTransfer, retention_ms, retention_max_bytes}

pub record Retained : Type 0 where
  pub begin : List ℕ
  pub pages : List (List ℕ)
  pub done : List ℕ
  pub bytes : ℕ
  pub at : ℕ

-- `toString("hex")` of an id is one-to-one, so the ids themselves are the keys.
unfoldable pub bytes_dec : Discrete (List ℕ)
unfolding ℕ_discrete
bytes_dec [] [] = yes refl
bytes_dec [] (y ∷ ys) = no (λ e. cc)
bytes_dec (x ∷ xs) [] = no (λ e. cc)
bytes_dec (x ∷ xs) (y ∷ ys) = elim (ℕ_discrete x y) [
  | no n ↦ no (λ e. n (cc))
  | yes p ↦ elim (bytes_dec xs ys) [ yes q ↦ yes (cc) | no n ↦ no (λ e. n (cc)) ]
]

instance abbrev pub id_key : Key (List ℕ)
id_key = record { dec = bytes_dec }

pub record RetainedStore : Type 0 where
  pub held : Map (List ℕ) Retained
  pub total_bytes : ℕ

abbrev pub new_store : RetainedStore
new_store = record { held = []; total_bytes = 0 }

-- `drop`
unfoldable pub forget : List ℕ → RetainedStore → RetainedStore
forget key s = elim (Map.get key s.held) [
  | none ↦ s
  | some r ↦ record { held = Map.delete key s.held; total_bytes = s.total_bytes - r.bytes }
]

-- Older than the time that a transfer is kept.
abbrev pub is_over : ℕ → Retained → Bool
is_over now r = ltb (r.at + retention_ms) now

-- The first loop of `sweep`, over the entries that it finds.
unfoldable pub sweep_old : ℕ → Map (List ℕ) Retained → RetainedStore → RetainedStore
sweep_old now [] s = s
sweep_old now ((key, r) ∷ es) s = sweep_old now es (if is_over now r then forget key s else s)

-- Its second loop: the oldest go until the rest is within the limit.
unfoldable pub evict_oldest : Map (List ℕ) Retained → RetainedStore → RetainedStore
evict_oldest [] s = s
evict_oldest ((key, r) ∷ es) s =
    let rest = evict_oldest es (forget key s) in
    if leb s.total_bytes retention_max_bytes then s else rest

unfoldable pub sweep : ℕ → RetainedStore → RetainedStore
unfolding sweep_old evict_oldest
sweep now s = let s' = sweep_old now s.held s in evict_oldest s'.held s'

-- `slice(1, -1)`
abbrev pub without_last : List (List ℕ) → List (List ℕ)
without_last [] = []
without_last (f ∷ []) = []
without_last (f ∷ g ∷ fs) = f ∷ without_last (g ∷ fs)

abbrev pub middle : List (List ℕ) → List (List ℕ)
middle fs = without_last (drop 1 fs)

abbrev pub kept_as : ℕ → EncodedTransfer → Retained
kept_as now t = record {
  begin = or_else (get_elem? t.frames 0) [];
  pages = middle t.frames;
  done = or_else (last? t.frames) [];
  bytes = t.bytes;
  at = now;
}

-- Before the sweep of `add`.
unfoldable pub added : ℕ → EncodedTransfer → RetainedStore → RetainedStore
unfolding forget
added now t s =
    let s' = forget t.transfer_id s in
    record {
      held = Map.set t.transfer_id (kept_as now t) s'.held;
      total_bytes = s'.total_bytes + t.bytes;
    }

unfoldable pub add : ℕ → EncodedTransfer → RetainedStore → RetainedStore
unfolding added sweep
add now t s = sweep now (added now t s)

-- The pages asked for that there are.
abbrev pub pages_of : List (List ℕ) → List ℕ → List (List ℕ)
pages_of ps [] = []
pages_of ps (i ∷ is) = elim (get_elem? ps i) [ none ↦ pages_of ps is | some p ↦ p ∷ pages_of ps is ]

abbrev pub resent : Retained → List ℕ → Bool → List (List ℕ)
resent r missing include_begin =
    (if include_begin then r.begin ∷ [] else []) ++ (pages_of r.pages missing ++ r.done ∷ [])

unfoldable pub resend_frames :
    ℕ → List ℕ → List ℕ → Bool → RetainedStore → RetainedStore × Option (List (List ℕ))
unfolding forget
resend_frames now key missing include_begin s = elim (Map.get key s.held) [
  | none ↦ (s, none)
  | some r ↦ if is_over now r then (forget key s, none) else (
    record s { held = Map.set key (record r { at = now }) s.held },
    some (resent r missing include_begin),
  )
]

unfoldable pub ack : List ℕ → RetainedStore → RetainedStore
unfolding forget
ack key s = forget key s
