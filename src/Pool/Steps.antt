-- ===== src/Pool/Steps.antt =====
-- Every pool that the operations reach keeps the claims right.
use pi_pilot.Base.{
  ℕ, String, ◌≡◌, refl, sym, ap, ◌∙◌, ◌≢◌, inl, inr, Bool, true, false, ◌||◌, not, none, some, List,
  [], ◌∷◌, arith, leb, ◌==◌, if◌then◌else◌, Bool-cases, Option-cases, nat_key, string_key,
}
use pi_pilot.Base.Map
use pi_pilot.Base.Map.{
  Map, Distinct, Distinct-set, Distinct-delete, get-set_self, get-set_ne, get-delete_self,
  get-delete_ne,
}
use Prim.Native.String
use Prim.Native.String.append.{cons}
use pi_pilot.Pool.State.{
  has, SessionSpec, PoolEntry, Pool, PoolCall, truthy, holder, source_id_for_session,
}
use pi_pilot.Pool.Closing.{
  restarted, after_exit, max_restarts, exited, start, timer_fires, close, object_in,
  restart_or_forget, closing_down,
}
use pi_pilot.Pool.Opening.{added, fresh_source_id}
use pi_pilot.Pool.Claims.{
  IsPool, is_text, found_after_set, replace-IsPool, change-IsPool, forget-IsPool,
}

-- What a step leaves.
pub record Leaves (r : Pool × List PoolCall) : Type 0 where
  pub kept : IsPool r.0

pub if-Leaves :
    (b : Bool) {x y : Pool × List PoolCall} → Leaves x → Leaves y → Leaves (if b then x else y)
if-Leaves true u v = u
if-Leaves false u v = v

pub leaves : {p : Pool} {calls : List PoolCall} → IsPool p → Leaves (p, calls)
leaves v = record { kept = v }

restart_or_forget-Leaves :
    (e : PoolEntry) (p : Pool)
    → Map.get e.source_id p.entries ≡ some e
    → IsPool p
    → Leaves (restart_or_forget e p)
unfolding restart_or_forget
restart_or_forget-Leaves e p h v =
    if-Leaves (leb max_restarts e.restart_count) (leaves (forget-IsPool e p h v))
      (leaves (change-IsPool e.source_id _ p (λ f. (refl, refl)) v))

after_exit-Leaves : (k : String) (i : Bool) (q : Pool) → IsPool q → Leaves (after_exit k i q)
unfolding after_exit
after_exit-Leaves k i q v = elim (Option-cases (Map.get k q.entries)) [
  | inl n ↦ rw (n, after_exit) (leaves v)
  | inr (e, h) ↦
      let same_key = ap (λ j. Map.get j q.entries) ((v.holds k e h).named) ∙ h in
      rw (h, after_exit)
        (if-Leaves (e.closing || not e.restart_on_exit || i) (leaves v)
          (leaves (restart_or_forget-Leaves e q same_key v).kept))
]

pub exited-Leaves : (k : String) (i : Bool) (p : Pool) → IsPool p → Leaves (exited k i p)
unfolding exited
exited-Leaves k i p v = after_exit-Leaves k i _ (change-IsPool k _ p (λ e. (refl, refl)) v)

pub start-Leaves :
    (now : ℕ) (spawns : Bool) (k : String) (p : Pool) → IsPool p → Leaves (start now spawns k p)
unfolding start
start-Leaves now spawns k p v = elim (Option-cases (Map.get k p.entries)) [
  | inl n ↦ rw (n, start) (leaves v)
  | inr (e, h) ↦
      rw (h, start)
        (if-Leaves e.alive (leaves v) (
          if-Leaves spawns (leaves (change-IsPool k _ p (λ f. (refl, refl)) v))
            (exited-Leaves k false p v)))
]

restarted-Leaves :
    (now : ℕ) (spawns : Bool) (k : String) (q : Pool) → IsPool q → Leaves (restarted now spawns k q)
unfolding restarted
restarted-Leaves now spawns k q w = elim (Option-cases (Map.get k q.entries)) [
  | inl n ↦ rw (n, restarted) (leaves w)
  | inr (e, h) ↦ rw (h, restarted) (if-Leaves e.closing (leaves w) (start-Leaves now spawns k q w))
]

pub timer_fires-Leaves :
    (now : ℕ) (spawns : Bool) (k : String) (p : Pool)
    → IsPool p
    → Leaves (timer_fires now spawns k p)
unfolding timer_fires
timer_fires-Leaves now spawns k p v =
    restarted-Leaves now spawns k _ (change-IsPool k _ p (λ e. (refl, refl)) v)

pub close-Leaves : (k reason : String) (p : Pool) → IsPool p → Leaves (close k reason p)
unfolding close
close-Leaves k reason p v = elim (Option-cases (Map.get k p.entries)) [
  | inl n ↦ rw (n, close) (leaves v)
  | inr (e, h) ↦
      rw (h, close)
        (if-Leaves e.closing (leaves v)
          (leaves (replace-IsPool k e (closing_down e) p h refl refl v)))
]

text-append : (s t : String) → is_text s ≡ true → is_text (String.◌++◌ s t) ≡ true
text-append String.[] t h = absurd (ground arith)
text-append (String.◌∷◌ c s) t h = ap is_text (cons c s t)

pub truthy-text : (k : String) → is_text k ≡ true → truthy (some k) ≡ some k
truthy-text String.[] t = absurd (ground arith)
truthy-text (String.◌∷◌ c s) t = refl

-- A session without a claim is no entry's.
pub unclaimed_ne :
    (p : Pool) (s t k : String)
    → holder p s ≡ none
    → Map.get t p.claims ≡ some k
    → is_text k ≡ true
    → s ≢ t
unclaimed_ne p s t k n c x q =
    let a = truthy-text k x in
    let b = ap (λ y. truthy (Map.get y p.claims)) q in let d = ap truthy c in cc

-- A new entry for a session that has no claim.
pub added-IsPool :
    (now : ℕ) (spec : SessionSpec) (k : String) (p : Pool)
    → is_text k ≡ true
    → holder p spec.session_id ≡ none
    → IsPool p
    → IsPool (added now spec k p)
unfolding added
added-IsPool now spec k p t n v = record {
  distinct = Distinct-set k _ p.entries v.distinct;
  alone = v.alone;
  holds = λ j f w. elim (found_after_set k j _ f p.entries w) [
    | inl (q, r) ↦ record {
      named = ap (λ x. x.source_id) (sym r) ∙ q;
      claimed =
          ap (λ x. Map.get x.spec.session_id (Map.set spec.session_id k p.claims)) (sym r)
          ∙ get-set_self spec.session_id k p.claims
          ∙ ap some q;
      text = ap is_text (sym q) ∙ t;
    }
    | inr (m, u) ↦
        let o = v.holds j f u in
        record {
          named = o.named;
          claimed =
              get-set_ne spec.session_id f.spec.session_id k p.claims
                (unclaimed_ne p spec.session_id f.spec.session_id j n o.claimed o.text)
              ∙ o.claimed;
          text = o.text;
        }
  ];
}

pub fresh_source_id-text :
    (session_id : String) (p : Pool) → is_text (fresh_source_id session_id p).1 ≡ true
unfolding fresh_source_id source_id_for_session
fresh_source_id-text session_id p = elim (Bool-cases (has (source_id_for_session session_id) p)) [
  | inl h ↦ rw h (text-append _ _ (text-append "s:" session_id refl))
  | inr h ↦ rw h (text-append "s:" session_id refl)
]

pub fresh_source_id-holder :
    (session_id s : String) (p : Pool) → holder (fresh_source_id session_id p).0 s ≡ holder p s
unfolding fresh_source_id
fresh_source_id-holder session_id s p =
    elim (Bool-cases (has (source_id_for_session session_id) p)) [
      | inl h ↦ rw h refl
      | inr h ↦ rw h refl
    ]

pub fresh_source_id-IsPool :
    (session_id : String) (p : Pool) → IsPool p → IsPool (fresh_source_id session_id p).0
unfolding fresh_source_id
fresh_source_id-IsPool session_id p v =
    elim (Bool-cases (has (source_id_for_session session_id) p)) [
      | inl h ↦ rw h (record {
        distinct = v.distinct;
        alone = v.alone;
        holds = λ j f w. record {
          named = (v.holds j f w).named;
          claimed = (v.holds j f w).claimed;
          text = (v.holds j f w).text;
        };
      })
      | inr h ↦ rw h v
    ]

pub find_object :
    (uid : ℕ) (e : PoolEntry) (m : Map String PoolEntry)
    → Distinct m
    → object_in uid m [] ≡ some e
    → (k : String) × (Map.get k m ≡ some e)
unfolding Map.get
find_object uid e [] d h = cc
find_object uid e ((k, f) ∷ m) d h = elim (Bool-cases (f.uid == uid)) [
  | inl q ↦ (k, ground arith)
  | inr q ↦ let (j, g) = find_object uid e m d.1 (ground arith) in (j, ground (arith, d.0, g))
]
