-- ===== src/Hub/Edges.antt =====
-- How many completions the events of a source can give.
use pi_pilot.Base.{
  same_eq, same_ne, ℕ, ◌+◌, ◌≤◌, String, ◌≡◌, refl, sym, ap, ◌∙◌, inl, inr, Bool, true, false, ◌&&◌,
  ◌||◌, not, Option, none, some, List, [], ◌∷◌, arith, if◌then◌else◌, Bool-cases, Option-cases,
  is_some, or_else, nat_key, string_key, same,
}
use pi_pilot.Base.Map
use pi_pilot.Base.Map.{Map, get-set_self, get-set_ne}
use pi_pilot.Base.Json.{Fields, lookup, is_true, is_text}
use pi_pilot.Notify.Detector.{DetectResult, Call, Context}
use pi_pilot.Hub.Streaming.{
  agent_end_flags, stop_reason, is_abort, Edges, is_end, is_start, is_settled, flags_of,
  streaming_after, streams, same_bool, turned, detect, note_streaming,
}

-- An event of a source, with what the call finds.
pub record SourceEvent : Type 0 where
  pub call : Call
  pub context : Context
  pub source_id : String
  pub event : Fields

abbrev pub one : Bool → ℕ
one b = if b then 1 else 0

-- A completion that was published for the source, and a start of it.
abbrev pub completes : String → SourceEvent → Edges → ℕ
completes k e s =
    one (same e.source_id k && is_some (note_streaming e.call e.context e.source_id e.event s).1)

abbrev pub starts : String → SourceEvent → ℕ
starts k e = one (same e.source_id k && is_start e.event)

-- All that are published over a run of events, and all starts.
unfoldable pub completions : String → List SourceEvent → Edges → ℕ
completions k [] s = 0
completions k (e ∷ es) s =
    completes k e s + completions k es (note_streaming e.call e.context e.source_id e.event s).0

unfoldable pub starts_in : String → List SourceEvent → ℕ
starts_in k [] = 0
starts_in k (e ∷ es) = starts k e + starts_in k es

-- An event that may end a source's work for good: it was settled, or its end was one that is neither
-- tried again nor aborted, by the event or by the last message of the assistant.
abbrev pub ends_for_good : Fields → Bool
ends_for_good e =
    is_settled e
    || (is_end e
        && not (is_true (lookup "willRetry" e))
        && not (is_true (lookup "aborted" e))
        && not (is_text "aborted" (stop_reason (lookup "messages" e))))

abbrev pub good_end : String → SourceEvent → ℕ
good_end k e = one (same e.source_id k && ends_for_good e.event)

unfoldable pub good_ends_in : String → List SourceEvent → ℕ
good_ends_in k [] = 0
good_ends_in k (e ∷ es) = good_end k e + good_ends_in k es

detect-streaming :
    (c : Call) (x : Context) (k : String) (e : Fields) (next : Bool) (s : Edges)
    → (detect c x k e next s).0.streaming_by_source ≡ s.streaming_by_source
unfolding detect
detect-streaming c x k e true s = refl
detect-streaming c x k e false s = ground arith

-- A turn to work publishes nothing.
detect-start :
    (c : Call) (x : Context) (k : String) (e : Fields) (s : Edges)
    → (detect c x k e true s).1 ≡ none
unfolding detect
detect-start c x k e s = refl

streams-turned :
    (k : String) (e : Fields) (next : Bool) (s : Edges) → streams k (turned k e next s) ≡ next
streams-turned k e next s = ap (λ o. or_else o false) (get-set_self k next s.streaming_by_source)

-- One event: a completion uses up that the source was at work, or is paid for by a start.
record Paid (k i : String) (e : Fields) (s : Edges) (r : Edges × Option DetectResult × Bool)
    : Type 0 where
  paid :
      one (same i k && is_some r.1) + one (streams k r.0)
      ≤ one (same i k && is_start e) + one (streams k s)

if-Paid :
    (k i : String) (e : Fields) (s : Edges) (b : Bool) {x y : Edges × Option DetectResult × Bool}
    → (b ≡ true → Paid k i e s x)
    → (b ≡ false → Paid k i e s y)
    → Paid k i e s (if b then x else y)
if-Paid k i e s true u v = u refl
if-Paid k i e s false u v = v refl

unchanged : (k i : String) (e : Fields) (s : Edges) → Paid k i e s (s, none, false)
unchanged k i e s = record { paid = ground arith }

one_le : (b : Bool) → one b ≤ 1
one_le true = omega arith
one_le false = omega arith

was_true : (b : Bool) → same_bool b false ≡ false → b ≡ true
was_true true h = refl
was_true false h = absurd (ground arith)

start_of : (e : Fields) → streaming_after e ≡ some true → is_start e ≡ true
start_of e h = elim (Bool-cases (is_start e)) [
  | inl t ↦ t
  | inr f ↦ elim (Bool-cases (is_end e || is_settled e)) [
    | inl t ↦ absurd (ground (arith, h, f, t))
    | inr g ↦ absurd (ground (arith, h, f, g))
  ]
]

other_streams :
    (c : Call) (x : Context) (k i : String) (e : Fields) (next : Bool) (s : Edges)
    → same i k ≡ false
    → streams k (detect c x i e next (turned i e next s)).0 ≡ streams k s
other_streams c x k i e next s n =
    ap (λ m. or_else (Map.get k m) false) (detect-streaming c x i e next (turned i e next s))
    ∙ ap (λ o. or_else o false) (get-set_ne i k next s.streaming_by_source (same_ne i k n))

own_streams :
    (c : Call) (x : Context) (k i : String) (e : Fields) (next : Bool) (s : Edges)
    → same i k ≡ true
    → streams k (detect c x i e next (turned i e next s)).0 ≡ next
own_streams c x k i e next s y =
    ap (λ m. or_else (Map.get k m) false) (detect-streaming c x i e next (turned i e next s))
    ∙ (ap (λ j. or_else (Map.get j (Map.set i next s.streaming_by_source)) false)
          (sym (same_eq i k y))
        ∙ streams-turned i e next s)

turn-Paid :
    (c : Call) (x : Context) (k i : String) (e : Fields) (next : Bool) (s : Edges)
    → streaming_after e ≡ some next
    → same_bool (streams i s) next ≡ false
    → Paid k i e s (
      (detect c x i e next (turned i e next s)).0,
      (detect c x i e next (turned i e next s)).1,
      true,
    )
turn-Paid c x k i e next s after turns = elim (Bool-cases (same i k)) [
  | inr n ↦
      let kept = other_streams c x k i e next s n in record { paid = rw (n, kept) (omega arith) }
  | inl y ↦ by_next next after turns y (own_streams c x k i e next s y)
]
  where
    by_next :
        (b : Bool)
        → streaming_after e ≡ some b
        → same_bool (streams i s) b ≡ false
        → same i k ≡ true
        → streams k (detect c x i e b (turned i e b s)).0 ≡ b
        → Paid k i e s
            ((detect c x i e b (turned i e b s)).0, (detect c x i e b (turned i e b s)).1, true)
    by_next true a t y own =
        let starts_it = start_of e a in
        let quiet = detect-start c x i e (turned i e true s) in
        record { paid = rw (y, own, quiet, starts_it) (omega arith) }
    by_next false a t y own =
        let worked : streams k s ≡ true =
          ap (λ j. streams j s) (sym (same_eq i k y)) ∙ was_true _ t in
        record {
          paid =
              rw (y, own, worked)
                (omega (arith, one_le (is_some (detect c x i e false (turned i e false s)).1)));
        }

note_streaming-Paid :
    (c : Call) (x : Context) (k i : String) (e : Fields) (s : Edges)
    → Paid k i e s (note_streaming c x i e s)
unfolding note_streaming
note_streaming-Paid c x k i e s =
    if-Paid k i e s (is_end e && (flags_of e).will_retry) (λ r. unchanged k i e s)
      (λ r. elim (Option-cases (streaming_after e)) [
        | inl n ↦ rw (n, note_streaming) (unchanged k i e s)
        | inr (next, h) ↦
            rw (h, note_streaming)
              (if-Paid k i e s (same_bool (streams i s) next) (λ u. unchanged k i e s)
                (λ u. turn-Paid c x k i e next s h u))
      ])

-- A completion comes of an end for good.
record Earned (e : Fields) (r : Edges × Option DetectResult × Bool) : Type 0 where
  earned : is_some r.1 ≡ true → ends_for_good e ≡ true

if-Earned :
    (e : Fields) (b : Bool) {x y : Edges × Option DetectResult × Bool}
    → (b ≡ true → Earned e x)
    → (b ≡ false → Earned e y)
    → Earned e (if b then x else y)
if-Earned e true u v = u refl
if-Earned e false u v = v refl

nothing : (e : Fields) (s : Edges) → Earned e (s, none, false)
nothing e s = record { earned = λ h. absurd (cc) }

ends_of :
    (e : Fields)
    → (is_end e && (flags_of e).will_retry) ≡ false
    → streaming_after e ≡ some false
    → is_abort e ≡ false
    → ends_for_good e ≡ true
unfolding agent_end_flags
ends_of e r a n = ground (arith, r, a, n)

detect-Earned :
    (c : Call) (x : Context) (i : String) (e : Fields) (next : Bool) (s : Edges)
    → (is_end e && (flags_of e).will_retry) ≡ false
    → streaming_after e ≡ some next
    → Earned e ((detect c x i e next s).0, (detect c x i e next s).1, true)
unfolding detect
detect-Earned c x i e true s r a = record { earned = λ h. absurd (cc) }
detect-Earned c x i e false s r a = elim (Bool-cases (is_abort e)) [
  | inl t ↦ record { earned = λ h. absurd (ground (arith, t, h)) }
  | inr n ↦ record { earned = λ h. ends_of e r a n }
]

note_streaming-Earned :
    (c : Call) (x : Context) (i : String) (e : Fields) (s : Edges)
    → Earned e (note_streaming c x i e s)
unfolding note_streaming
note_streaming-Earned c x i e s =
    if-Earned e (is_end e && (flags_of e).will_retry) (λ r. nothing e s)
      (λ r. elim (Option-cases (streaming_after e)) [
        | inl n ↦ rw (n, note_streaming) (nothing e s)
        | inr (next, h) ↦
            rw (h, note_streaming)
              (if-Earned e (same_bool (streams i s) next) (λ u. nothing e s)
                (λ u. detect-Earned c x i e next (turned i e next s) r h))
      ])

one_both : (a b c : Bool) → (b ≡ true → c ≡ true) → one (a && b) ≤ one (a && c)
one_both true true c h = rw (h refl) (omega arith)
one_both true false c h = omega arith
one_both false b c h = omega arith

completions_good :
    (k : String) (es : List SourceEvent) (s : Edges) → completions k es s ≤ good_ends_in k es
unfolding completions good_ends_in
completions_good k [] s = omega arith
completions_good k (e ∷ es) s =
    let first = (note_streaming-Earned e.call e.context e.source_id e.event s).earned in
    omega (
      arith,
      one_both (same e.source_id k) _ _ first,
      completions_good k es (note_streaming e.call e.context e.source_id e.event s).0,
    )

completions_started :
    (k : String) (es : List SourceEvent) (s : Edges)
    → completions k es s ≤ starts_in k es + one (streams k s)
unfolding completions starts_in
completions_started k [] s = omega arith
completions_started k (e ∷ es) s =
    let r = note_streaming e.call e.context e.source_id e.event s in
    let first = (note_streaming-Paid e.call e.context k e.source_id e.event s).paid in
    omega (arith, first, completions_started k es r.0)

-- Over any run of events of any sources, the completions that are published for a source are no more
-- than the starts of its work among them, and one more if it was at work before; and no more than
-- the events that settle its work, or end it for good: ends that are tried again or aborted are not
-- among these, and give none.
pub completions_paid :
    (k : String) (es : List SourceEvent) (s : Edges)
    → (completions k es s ≤ starts_in k es + one (streams k s))
      × (completions k es s ≤ good_ends_in k es)
completions_paid k es s = (completions_started k es s, completions_good k es s)
