-- ===== src/Transfer/Resend.antt =====
-- What was just sent can be resent, for as long as it is retained.
use pi_pilot.Base.{
  Option, ℕ, if◌then◌else◌, or_else, get_elem?, last?, map, keep_if, is_some, ◌+◌, ◌≤◌, ◌<◌, ◌≡◌,
  refl, sym, ap, ◌∙◌, subst, ◌≢◌, inl, inr, Bool, true, false, none, some, List, [], ◌∷◌, ◌++◌,
  arith, leb, Bool-cases, Option-cases, nat_key, string_key,
}
use pi_pilot.Base.Map
use pi_pilot.Base.Map.{
  Map, Distinct, get-delete_ne, set_absent, delete-snoc_ne, get-snoc, ne_of_absent, absent_tail,
  total,
}
use pi_pilot.Transfer.Encode.{EncodedTransfer, retention_ms, retention_max_bytes}
use pi_pilot.Transfer.Retained.{
  Retained, RetainedStore, id_key, forget, is_over, sweep_old, evict_oldest, sweep, kept_as, added,
  without_last, middle, pages_of, add, resent, resend_frames,
}
use pi_pilot.Transfer.Budget.{
  IsStore, size_of, forget-IsStore, forget_absent, forget_first, sweep_old-IsStore, added-IsStore,
  forget-bytes,
}

-- The store ends with the entry of the key, and has no other of it.
record Ends (k : List ℕ) (r : Retained) (es : Map (List ℕ) Retained) : Type 0 where
  front : Map (List ℕ) Retained
  split : es ≡ front ++ (k, r) ∷ []
  absent : Map.get k front ≡ none

forget-Ends :
    (k j : List ℕ) (r : Retained) (s : RetainedStore)
    → j ≢ k
    → Ends k r s.held
    → Ends k r (forget j s).held
unfolding forget
forget-Ends k j r s n h = elim (Option-cases (Map.get j s.held)) [
  | inl e ↦ rw (e, forget) h
  | inr (v, e) ↦
      rw (e, forget)
        (record {
          front = Map.delete j h.front;
          split = ap (Map.delete j) h.split ∙ delete-snoc_ne j k r h.front (λ q. n (sym q));
          absent = get-delete_ne j k h.front n ∙ h.absent;
        })
]

sweep_old-Ends :
    (now : ℕ) (k : List ℕ) (r : Retained) (es : Map (List ℕ) Retained) (s : RetainedStore)
    → Map.get k es ≡ none
    → now ≤ r.at + retention_ms
    → Ends k r s.held
    → Ends k r (sweep_old now (es ++ (k, r) ∷ []) s).held
unfolding sweep_old
sweep_old-Ends now k r [] s a t h = let young : is_over now r ≡ false = ground arith in rw young h
sweep_old-Ends now k r ((j, v) ∷ es) s a t h = elim (Bool-cases (is_over now v)) [
  | inl e ↦
      rw (e, sweep_old)
        (sweep_old-Ends now k r es (forget j s) (absent_tail k j v es a) t
          (forget-Ends k j r s (ne_of_absent k j v es a) h))
  | inr e ↦ rw (e, sweep_old) (sweep_old-Ends now k r es s (absent_tail k j v es a) t h)
]

-- The newest entry is not evicted if it fits by itself.
evict_oldest-Ends :
    (k : List ℕ) (r : Retained) (es : Map (List ℕ) Retained) (s : RetainedStore)
    → IsStore s
    → s.held ≡ es ++ (k, r) ∷ []
    → Map.get k es ≡ none
    → r.bytes ≤ retention_max_bytes
    → Map.get k (evict_oldest (es ++ (k, r) ∷ []) s).held ≡ some r
unfolding evict_oldest total Map.get
evict_oldest-Ends k r [] s v e a b =
    let fits : leb s.total_bytes retention_max_bytes ≡ true =
      ground (arith, v.counted, ap (total size_of) e) in
    rw fits (ap (Map.get k) e ∙ get-snoc k r [] refl)
evict_oldest-Ends k r ((j, w) ∷ es) s v e a b =
    elim (Bool-cases (leb s.total_bytes retention_max_bytes)) [
      | inl fits ↦ rw fits (ap (Map.get k) e ∙ get-snoc k r ((j, w) ∷ es) a)
      | inr over ↦ rw over (
          evict_oldest-Ends k r es (forget j s) (forget-IsStore j s v) (forget_first j w _ s v e)
            (absent_tail k j w es a) b)
    ]

added-Ends :
    (now : ℕ) (t : EncodedTransfer) (s : RetainedStore)
    → Ends t.transfer_id (kept_as now t) (added now t s).held
unfolding added
added-Ends now t s = record {
  front = (forget t.transfer_id s).held;
  split = set_absent _ _ _ (forget_absent t.transfer_id s);
  absent = forget_absent t.transfer_id s;
}

add_found :
    (now : ℕ) (t : EncodedTransfer) (s : RetainedStore)
    → IsStore s
    → t.bytes ≤ retention_max_bytes
    → Map.get t.transfer_id (add now t s).held ≡ some (kept_as now t)
unfolding add sweep
add_found now t s v b =
    let h = added-Ends now t s in
    let w =
      subst (λ es. Ends t.transfer_id (kept_as now t) (sweep_old now es (added now t s)).held)
        (sym h.split)
        (sweep_old-Ends now t.transfer_id (kept_as now t) h.front (added now t s) h.absent
          (omega arith) h) in
    let good =
      sweep_old-IsStore now (added now t s).held (added now t s) (added-IsStore now t s v) in
    subst
      (λ es.
        Map.get t.transfer_id
          (evict_oldest es (sweep_old now (added now t s).held (added now t s))).held
        ≡ some (kept_as now t))
      (sym w.split)
      (evict_oldest-Ends t.transfer_id (kept_as now t) w.front _ good w.split w.absent b)

-- The frames of a transfer, as they are kept.
without_last-snoc : (ps : List (List ℕ)) (f : List ℕ) → without_last (ps ++ f ∷ []) ≡ ps
without_last-snoc [] f = refl
without_last-snoc (p ∷ []) f = refl
without_last-snoc (p ∷ q ∷ ps) f = ap (λ xs. p ∷ xs) (without_last-snoc (q ∷ ps) f)

last?-snoc : (ps : List (List ℕ)) (f : List ℕ) → last? (ps ++ f ∷ []) ≡ some f
last?-snoc [] f = refl
last?-snoc (p ∷ []) f = refl
last?-snoc (p ∷ q ∷ ps) f = last?-snoc (q ∷ ps) f

last?-frames : (b f : List ℕ) (ps : List (List ℕ)) → last? (b ∷ (ps ++ f ∷ [])) ≡ some f
last?-frames b f ps = last?-snoc (b ∷ ps) f

kept_frames :
    (now : ℕ) (t : EncodedTransfer) (b f : List ℕ) (ps : List (List ℕ))
    → t.frames ≡ b ∷ (ps ++ f ∷ [])
    → ((kept_as now t).begin ≡ b) × ((kept_as now t).pages ≡ ps) × ((kept_as now t).done ≡ f)
kept_frames now t b f ps h = (
  ap (λ fs. or_else (get_elem? fs 0) []) h,
  ap middle h ∙ without_last-snoc ps f,
  ap (λ fs. or_else (last? fs) []) h ∙ ap (λ o. or_else o []) (last?-frames b f ps),
)

-- The pages among those asked for that the transfer has, in the order asked
abbrev pub AreAsked : List (List ℕ) → List ℕ → List (List ℕ) → Type 0
AreAsked pages missing sent = map some sent ≡ keep_if is_some (map (get_elem? pages) missing)

pages_of-AreAsked : (ps : List (List ℕ)) (is : List ℕ) → AreAsked ps is (pages_of ps is)
pages_of-AreAsked ps [] = refl
pages_of-AreAsked ps (i ∷ is) = by_page (pages_of-AreAsked ps is) (get_elem? ps i)
  where
    by_page :
        AreAsked ps is (pages_of ps is)
        → (o : Option (List ℕ))
        → map some (elim o [ none ↦ pages_of ps is | some p ↦ p ∷ pages_of ps is ])
          ≡ keep_if is_some (o ∷ map (get_elem? ps) is)
    by_page h none = h
    by_page h (some p) = ap (λ xs. some p ∷ xs) h

-- A transfer that fits the budget, of a first frame, pages and a last frame, can be resent for as
-- long as it is retained: the answer is its first frame exactly if that is asked for, then those of
-- the pages asked for that it has, in the order asked, and then its last frame.
pub add_resend :
    (now later : ℕ) (t : EncodedTransfer) (begin done : List ℕ) (pages : List (List ℕ))
    (missing : List ℕ) (include_begin : Bool) (s : RetainedStore)
    → IsStore s
    → t.frames ≡ begin ∷ (pages ++ done ∷ [])
    → t.bytes ≤ retention_max_bytes
    → later ≤ now + retention_ms
    → (sent : List (List ℕ)) × AreAsked pages missing sent
      × ((resend_frames later t.transfer_id missing include_begin (add now t s)).1
          ≡ some ((if include_begin then begin ∷ [] else []) ++ (sent ++ done ∷ [])))
unfolding resend_frames
add_resend now later t begin done pages missing include_begin s v shape b l =
    let k = kept_as now t in
    let parts = kept_frames now t begin done pages shape in
    let found : (resend_frames later t.transfer_id missing include_begin (add now t s)).1
        ≡ some (resent k missing include_begin) =
      ground (arith, add_found now t s v b) in
    (
      pages_of pages missing,
      pages_of-AreAsked pages missing,
      found
          ∙ ap
              (λ x. some (
                (if include_begin then x ∷ [] else [])
                ++ (pages_of k.pages missing ++ k.done ∷ [])))
              parts.0
          ∙ ap
              (λ x.
                some (
                  (if include_begin then begin ∷ [] else [])
                  ++ (pages_of x missing ++ k.done ∷ [])))
              parts.1
          ∙ ap
              (λ x.
                some (
                  (if include_begin then begin ∷ [] else []) ++ (pages_of pages missing ++ x ∷ [])))
              parts.2,
    )

-- After that time it cannot, and the request takes it out of the store.
pub resend_expired :
    (later : ℕ) (key missing : List ℕ) (include_begin : Bool) (r : Retained) (s : RetainedStore)
    → IsStore s
    → Map.get key s.held ≡ some r
    → r.at + retention_ms < later
    → ((resend_frames later key missing include_begin s).1 ≡ none)
      × (Map.get key (resend_frames later key missing include_begin s).0.held ≡ none)
      × ((resend_frames later key missing include_begin s).0.total_bytes + r.bytes ≡ s.total_bytes)
unfolding resend_frames
resend_expired later key missing include_begin r s v e l =
    ground (arith, forget_absent key s, forget-bytes key r s v e)
