-- ===== src/Replay/Runs.antt =====
-- Gap-free runs of sequence numbers, and what filtering and appending do to them.
use pi_pilot.Base.{
  dec_lt, ℕ, suc, ◌+◌, ◌≤◌, ◌<◌, ◌≡◌, refl, List, [], ◌∷◌, ◌++◌, ltb, length, keep_if, arith,
}
use pi_pilot.Replay.{SourceEvent}

module _ {J : Type 0} where
  -- The events are numbered `n`, `n + 1`, … up to `last`, with no gap.
  abbrev pub Runs : ℕ → List (SourceEvent J) → ℕ → Type 0
  Runs n [] last = n ≡ suc last
  Runs n (e ∷ es) last = (e.seq ≡ n) × Runs (suc n) es last

  pub Runs-append :
      (n last : ℕ) (es : List (SourceEvent J)) (e : SourceEvent J)
      → Runs n es last
      → e.seq ≡ suc last
      → Runs n (es ++ e ∷ []) (suc last)
  Runs-append n last [] e r h = ground arith
  Runs-append n last (x ∷ es) e r h = (r.0, Runs-append (suc n) last es e r.1 h)

  pub Runs-length :
      (n last : ℕ) (es : List (SourceEvent J)) → Runs n es last → n + length es ≡ suc last
  Runs-length n last [] r = omega arith
  Runs-length n last (e ∷ es) r = omega (arith, Runs-length (suc n) last es r.1)

  -- Where a run that ends at `last` begins.
  abbrev pub start : ℕ → List (SourceEvent J) → ℕ
  start last [] = suc last
  start last (e ∷ es) = e.seq

  pub Runs-start :
      (n last : ℕ) (es : List (SourceEvent J)) → Runs n es last → Runs (start last es) es last
  Runs-start n last [] r = refl
  Runs-start n last (e ∷ es) r = (refl, rw r.0 r.1)

  -- The events after `b`.
  abbrev pub since : ℕ → List (SourceEvent J) → List (SourceEvent J)
  since b = keep_if (λ e. ltb b e.seq)

  pub since_all :
      (n b last : ℕ) (es : List (SourceEvent J)) → Runs n es last → b < n → since b es ≡ es
  since_all n b last [] r h = refl
  since_all n b last (e ∷ es) r h = ground (arith, since_all (suc n) b last es)

  -- Of a run that begins at or before `b + 1`, the events after `b` are the run from `b + 1` on.
  pub since-Runs :
      (n b last : ℕ) (es : List (SourceEvent J))
      → Runs n es last
      → n ≤ suc b
      → b ≤ last
      → Runs (suc b) (since b es) last
  since-Runs n b last [] r h k = omega arith
  since-Runs n b last (e ∷ es) r h k = elim (dec_lt b n) [
    | yes first ↦
        let e' : n ≡ suc b = omega arith in rw (since_all n b last (e ∷ es) r first, ← e') r
    | no later ↦ ground (arith, since-Runs (suc n) b last es r.1)
  ]

  -- A base at or past the last event leaves nothing.
  pub since_past :
      (n b last : ℕ) (es : List (SourceEvent J)) → Runs n es last → last ≤ b → since b es ≡ []
  since_past n b last [] r h = refl
  since_past n b last (e ∷ es) r h =
      ground (arith, since_past (suc n) b last es r.1, Runs-length (suc n) last es r.1)
