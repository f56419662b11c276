-- ===== src/Replay/Trim.antt =====
-- What a replay ring keeps true of itself, and that every change of it does.
use pi_pilot.Base.{
  ℕ, suc, ◌+◌, ◌-◌, ◌≤◌, max, String, ◌≡◌, refl, ◌∙◌, ◌⊎◌, inl, inr, Bool, ◌&&◌, some, List, [],
  ◌∷◌, ◌++◌, arith, dec_le, ltb, nat_key, string_key, same, length, keep_if, last?, length-snoc,
  length-keep_if-le, sum, sum-append,
}
use pi_pilot.Replay.{
  SourceEvent, Ring, Limits, cleared, kept_sizes, filter_events, trim, push, tail_sizes, head_size,
}
use pi_pilot.Replay.Runs.{
  Runs, Runs-append, Runs-start, Runs-length, start, since, since-Runs, since_all, since_past,
}

module _ {J : Type 0} where
  abbrev pub AllOf : String → List (SourceEvent J) → Type 0
  AllOf epoch [] = Unit {0}
  AllOf epoch (e ∷ es) = (e.source_epoch ≡ epoch) × AllOf epoch es

  -- The ring ends at `last` with no gap, its events are of the epoch, its sizes are those of its
  -- events, `bytes` is their sum, and it keeps to its limits; one event alone may exceed the budget.
  pub record IsRing (lim : Limits) (epoch : String) (last : ℕ) (r : Ring J) : Type 0 where
    pub runs : Runs (start last r.events) r.events last
    pub current : AllOf epoch r.events
    pub parallel : length r.sizes ≡ length r.events
    pub counted : r.bytes ≡ sum r.sizes
    pub fits : length r.events ≤ lim.replay_capacity
    pub budget : (r.bytes ≤ lim.replay_byte_budget) ⊎ (length r.events ≤ 1)

  pub cleared-IsRing : (lim : Limits) (epoch : String) (last : ℕ) → IsRing lim epoch last cleared
  cleared-IsRing lim epoch last = record {
    runs = refl;
    current = tt;
    parallel = refl;
    counted = refl;
    fits = omega arith;
    budget = inr (omega arith);
  }

  trim-IsRing :
      (lim : Limits) (epoch : String) (n last : ℕ) (es : List (SourceEvent J)) (sizes : List ℕ)
      (bytes : ℕ)
      → Runs n es last
      → AllOf epoch es
      → length sizes ≡ length es
      → bytes ≡ sum sizes
      → IsRing lim epoch last (trim lim es sizes bytes)
  unfolding trim
  trim-IsRing lim epoch n last [] sizes bytes r a p c = ground arith
  trim-IsRing lim epoch n last (e ∷ es) [] bytes r a p c = absurd (omega arith)
  trim-IsRing lim epoch n last (e ∷ es) (s ∷ sizes) bytes r a p c = ground (
    arith,
    trim-IsRing lim epoch (suc n) last es sizes (bytes - s) r.1,
    Runs-start n last (e ∷ es) r,
  )

  AllOf-snoc :
      (epoch : String) (es : List (SourceEvent J)) (e : SourceEvent J)
      → AllOf epoch es
      → e.source_epoch ≡ epoch
      → AllOf epoch (es ++ e ∷ [])
  AllOf-snoc epoch [] e a h = (h, tt)
  AllOf-snoc epoch (x ∷ es) e a h = (a.0, AllOf-snoc epoch es e a.1 h)

  -- `pushEvent` of the next event keeps the ring well formed.
  pub push-IsRing :
      (lim : Limits) (epoch : String) (last size : ℕ) (e : SourceEvent J) (r : Ring J)
      → IsRing lim epoch last r
      → e.seq ≡ suc last
      → e.source_epoch ≡ epoch
      → IsRing lim epoch (suc last) (push lim e size r)
  unfolding push
  push-IsRing lim epoch last size e r v h k =
      trim-IsRing lim epoch (start last r.events) (suc last) (r.events ++ e ∷ [])
        (r.sizes ++ size ∷ []) (r.bytes + size) (Runs-append _ last r.events e v.runs h)
        (AllOf-snoc epoch r.events e v.current k)
        (omega (arith, v.parallel, length-snoc r.sizes size, length-snoc r.events e))
        (omega (arith, v.counted, sum-append r.sizes (size ∷ [])))

  -- The test of `setSnapshot`: of the epoch, and after the base.
  abbrev pub after_base : String → ℕ → SourceEvent J → Bool
  after_base epoch b e = same e.source_epoch epoch && ltb b e.seq

  after_base-since :
      (epoch : String) (b : ℕ) (es : List (SourceEvent J))
      → AllOf epoch es
      → keep_if (after_base epoch b) es ≡ since b es
  after_base-since epoch b [] a = refl
  after_base-since epoch b (e ∷ es) a = ground (arith, after_base-since epoch b es a.1)

  module _ (keep : SourceEvent J → Bool) where
    kept_sizes-length :
        (es : List (SourceEvent J)) (sizes : List ℕ)
        → length (kept_sizes keep es sizes) ≡ length (keep_if keep es)
    kept_sizes-length [] sizes = refl
    kept_sizes-length (e ∷ es) sizes = ground (arith, kept_sizes-length es (tail_sizes sizes))

    kept_sizes-sum-le :
        (es : List (SourceEvent J)) (sizes : List ℕ) → sum (kept_sizes keep es sizes) ≤ sum sizes
    kept_sizes-sum-le [] sizes = omega arith
    kept_sizes-sum-le (e ∷ es) [] = ground (arith, kept_sizes-sum-le es [])
    kept_sizes-sum-le (e ∷ es) (s ∷ sizes) = ground (arith, kept_sizes-sum-le es sizes)

    pub AllOf-keep_if :
        (epoch : String) (es : List (SourceEvent J))
        → AllOf epoch es
        → AllOf epoch (keep_if keep es)
    AllOf-keep_if epoch [] a = tt
    AllOf-keep_if epoch (e ∷ es) a = ground (arith, AllOf-keep_if epoch es a.1)

  pub since-max :
      (n b last : ℕ) (es : List (SourceEvent J))
      → Runs n es last
      → Runs (start (max last b) (since b es)) (since b es) (max last b)
  since-max n b last es r = elim (dec_le last b) [
    | yes past ↦ rw (since_past n b last es r past) refl
    | no before ↦ elim (dec_le n b) [
      | yes within ↦
          let e : max last b ≡ last = omega arith in
          rw e (
            Runs-start (suc b) last (since b es)
              (since-Runs n b last es r (omega arith) (omega arith)))
      | no outside ↦
          let e : max last b ≡ last = omega arith in
          rw (e, since_all n b last es r (omega arith)) (Runs-start n last es r)
    ]
  ]

  -- `setSnapshot` cuts the ring back to what comes after the base of the snapshot.
  pub filter-IsRing :
      (lim : Limits) (epoch : String) (b last : ℕ) (r : Ring J)
      → IsRing lim epoch last r
      → IsRing lim epoch (max last b) (filter_events (after_base epoch b) r)
  unfolding filter_events
  filter-IsRing lim epoch b last r v = record {
    runs = rw (after_base-since epoch b r.events v.current) (since-max _ b last r.events v.runs);
    current = AllOf-keep_if (after_base epoch b) epoch r.events v.current;
    parallel = kept_sizes-length (after_base epoch b) r.events r.sizes;
    counted = refl;
    fits = omega (arith, v.fits, length-keep_if-le (after_base epoch b) r.events);
    budget = smaller v.budget;
  }
    where
      smaller :
          (r.bytes ≤ lim.replay_byte_budget) ⊎ (length r.events ≤ 1)
          → (sum (kept_sizes (after_base epoch b) r.events r.sizes) ≤ lim.replay_byte_budget)
            ⊎ (length (keep_if (after_base epoch b) r.events) ≤ 1)
      smaller (inl h) =
          inl (omega (arith, v.counted, kept_sizes-sum-le (after_base epoch b) r.events r.sizes))
      smaller (inr h) = inr (omega (arith, length-keep_if-le (after_base epoch b) r.events))

  -- Trimming never drops the newest event, unless the capacity is 0.
  trim-last :
      (lim : Limits) (es : List (SourceEvent J)) (sizes : List ℕ) (bytes : ℕ)
      → 1 ≤ lim.replay_capacity
      → last? (trim lim es sizes bytes).events ≡ last? es
  unfolding trim
  trim-last lim [] sizes bytes h = refl
  trim-last lim (e ∷ []) sizes bytes h = ground arith
  trim-last lim (e ∷ f ∷ es) sizes bytes h =
      ground (arith, trim-last lim (f ∷ es) (tail_sizes sizes) (bytes - head_size sizes))

  last-snoc : (es : List (SourceEvent J)) (e : SourceEvent J) → last? (es ++ e ∷ []) ≡ some e
  last-snoc [] e = refl
  last-snoc (x ∷ []) e = refl
  last-snoc (x ∷ y ∷ es) e = last-snoc (y ∷ es) e

  pub push-last :
      (lim : Limits) (e : SourceEvent J) (size : ℕ) (r : Ring J)
      → 1 ≤ lim.replay_capacity
      → last? (push lim e size r).events ≡ some e
  unfolding push
  push-last lim e size r h = trim-last lim _ _ _ h ∙ last-snoc r.events e

  since-last :
      (n last : ℕ) (es : List (SourceEvent J)) (e : SourceEvent J)
      → Runs n es (suc last)
      → last? es ≡ some e
      → since last es ≡ e ∷ []
  since-last n last [] e r h = cc
  since-last n last (x ∷ []) e r h = ground arith
  since-last n last (x ∷ y ∷ es) e r h =
      ground
        (arith, since-last (suc n) last (y ∷ es) e r.1, Runs-length (suc n) (suc last) (y ∷ es) r.1)

  -- After a push, what comes after the old last number is the pushed event alone.
  pub since-push :
      (lim : Limits) (epoch : String) (last size : ℕ) (e : SourceEvent J) (r : Ring J)
      → 1 ≤ lim.replay_capacity
      → IsRing lim epoch (suc last) (push lim e size r)
      → since last (push lim e size r).events ≡ e ∷ []
  since-push lim epoch last size e r h v = since-last _ last _ e v.runs (push-last lim e size r h)

  start-le_of_last :
      (last : ℕ) (es : List (SourceEvent J)) (e : SourceEvent J)
      → Runs (start last es) es last
      → last? es ≡ some e
      → start last es ≤ last
  start-le_of_last last [] e r h = cc
  start-le_of_last last (x ∷ es) e r h = omega (arith, Runs-length _ last (x ∷ es) r)

  pub start-push :
      (lim : Limits) (epoch : String) (last size : ℕ) (e : SourceEvent J) (r : Ring J)
      → 1 ≤ lim.replay_capacity
      → IsRing lim epoch (suc last) (push lim e size r)
      → start (suc last) (push lim e size r).events ≤ suc last
  start-push lim epoch last size e r h v =
      start-le_of_last (suc last) _ e v.runs (push-last lim e size r h)
