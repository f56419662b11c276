-- ===== src/Base/Json.antt =====
-- JSON values as JavaScript reads them: an absent field is `none`, and numbers are told apart by
-- whether they are whole.
use Prim.Native.Nat.{ℕ, ◌-◌, ◌^◌, ◌≤◌}
use Prim.Native.String.{String}
use mathlib.Core.Path.{subst, ◌≡◌, refl}
use mathlib.Core.Bool.{Bool, true, false}
use mathlib.Core.Option.{Option, none, some}
use mathlib.Core.List.{List, [], ◌∷◌}
use mathlib.Core.Logic.{ite}
use native.Mathlib.Omega.{arith}
use pi_pilot.Base.Tests.{same, string_key, leb, ltb, ℤ, pos, negsuc, if◌then◌else◌, String_discrete}

pub data Number : Type 0 where
  whole : ℤ → Number
  fraction : Number

mutual
  pub data Json : Type 0 where
    null : Json
    boolean : Bool → Json
    number : Number → Json
    text : String → Json
    array : Items → Json
    object : Fields → Json

  pub data Items : Type 0 where
    nil : Items
    cons : Json → Items → Items

  pub data Fields : Type 0 where
    end : Fields
    field : String → Json → Fields → Fields

abbrev pub largest_safe : ℕ
largest_safe = 2 ^ 53 - 1

-- A chain of reads that may fail
infixl 5 ◌>>=◌ ◌>>◌
abbrev pub ◌>>=◌ {ℓ κ} : {A : Type ℓ} {B : Type κ} → Option A → (A → Option B) → Option B
none >>= f = none
some a >>= f = f a

abbrev pub ◌>>◌ {ℓ κ} : {A : Type ℓ} {B : Type κ} → Option A → Option B → Option B
m >> k = m >>= λ _. k

abbrev pub guard : Bool → Option (Unit {0})
guard true = some tt
guard false = none

-- What reading a field of an object gives; the names of an object are distinct.
unfoldable pub lookup : String → Fields → Option Json
lookup k end = none
lookup k (field j v fs) = let rest = lookup k fs in ite (String_discrete j k) (some v) rest

-- `typeof value === "object"` and not null: an array has no fields of these names.
abbrev pub as_record : Option Json → Option Fields
as_record (some (object fs)) = some fs
as_record (some (array xs)) = some end
as_record (some null) = none
as_record (some (boolean b)) = none
as_record (some (number n)) = none
as_record (some (text s)) = none
as_record none = none

abbrev pub as_text : Option Json → Option String
as_text (some (text s)) = some s
as_text (some (object fs)) = none
as_text (some (array xs)) = none
as_text (some null) = none
as_text (some (boolean b)) = none
as_text (some (number n)) = none
as_text none = none

abbrev pub is_empty : String → Bool
is_empty String.[] = true
is_empty (String.◌∷◌ c s) = false

-- A text that is not empty
abbrev pub as_name : Option Json → Option String
as_name v = do let s = (← as_text v); if is_empty s then none else some s

-- A safe integer, at least 0
abbrev pub as_count : Option Json → Option ℕ
as_count (some (number (whole (pos n)))) = if leb n largest_safe then some n else none
as_count (some (number (whole (negsuc n)))) = none
as_count (some (number fraction)) = none
as_count (some (object fs)) = none
as_count (some (array xs)) = none
as_count (some null) = none
as_count (some (boolean b)) = none
as_count (some (text s)) = none
as_count none = none

-- A safe integer of either sign
abbrev pub as_integer : Option Json → Option ℤ
as_integer (some (number (whole (pos n)))) = if leb n largest_safe then some (pos n) else none
as_integer (some (number (whole (negsuc n)))) = if ltb n largest_safe then some (negsuc n) else none
as_integer (some (number fraction)) = none
as_integer (some (object fs)) = none
as_integer (some (array xs)) = none
as_integer (some null) = none
as_integer (some (boolean b)) = none
as_integer (some (text s)) = none
as_integer none = none

-- The texts of an array that has nothing else
abbrev pub all_texts : Items → Option (List String)
all_texts nil = some []
all_texts (cons x xs) = do let s = (← as_text (some x)); let ss = (← all_texts xs); some (s ∷ ss)

abbrev pub as_texts : Json → Option (List String)
as_texts (array xs) = all_texts xs
as_texts (object fs) = none
as_texts null = none
as_texts (boolean b) = none
as_texts (number n) = none
as_texts (text s) = none

abbrev pub of_texts : List String → Items
of_texts [] = nil
of_texts (s ∷ ss) = cons (text s) (of_texts ss)

pub all_texts-of : (ss : List String) → all_texts (of_texts ss) ≡ some ss
all_texts-of [] = refl
all_texts-of (s ∷ ss) = rw (all_texts-of ss) refl

abbrev pub is_text : String → Option Json → Bool
is_text s (some (text t)) = same t s
is_text s (some (object fs)) = false
is_text s (some (array xs)) = false
is_text s (some null) = false
is_text s (some (boolean b)) = false
is_text s (some (number n)) = false
is_text s none = false

abbrev pub is_true : Option Json → Bool
is_true (some (boolean b)) = b
is_true (some (text t)) = false
is_true (some (object fs)) = false
is_true (some (array xs)) = false
is_true (some null) = false
is_true (some (number n)) = false
is_true none = false

-- A field of a value that may not be an object.
abbrev pub field_of : String → Option Json → Option Json
field_of k v = elim (as_record v) [ none ↦ none | some fs ↦ lookup k fs ]

-- A field that is written: in its place, or at the end.
abbrev pub put_field : String → Json → Fields → Fields
put_field k v end = field k v end
put_field k v (field j w fs) =
    let rest = put_field k v fs in if same j k then field j v fs else field j w rest

-- What holds of a value that was read.
abbrev pub Read {ℓ κ} : {A : Type ℓ} → (A → Type κ) → Option A → Type κ
Read P none = Unit
Read P (some a) = P a

pub bind-Read {ℓ} :
    {A B : Type ℓ} (P : A → Type ℓ) (Q : B → Type ℓ) (m : Option A) (f : A → Option B)
    → Read P m
    → ((a : A) → P a → Read Q (f a))
    → Read Q (m >>= f)
bind-Read P Q none f h k = tt
bind-Read P Q (some a) f h k = k a h

pub read_as {ℓ} : {A : Type ℓ} (P : A → Type ℓ) (m : Option A) (a : A) → Read P m → m ≡ some a → P a
read_as P none a h e = absurd (cc)
read_as P (some b) a h e = let same_value : b ≡ a = cc in subst P same_value h

abbrev pub IsName : String → Type 0
IsName s = is_empty s ≡ false

pub as_name-IsName : (v : Option Json) → Read IsName (as_name v)
as_name-IsName (some (text s)) = named (is_empty s) s (λ h. h)
  where
    named :
        (b : Bool) (s : String)
        → (b ≡ false → is_empty s ≡ false)
        → Read IsName (if b then none else some s)
    named true s h = tt
    named false s h = h refl
as_name-IsName (some (object fs)) = tt
as_name-IsName (some (array xs)) = tt
as_name-IsName (some null) = tt
as_name-IsName (some (boolean b)) = tt
as_name-IsName (some (number n)) = tt
as_name-IsName none = tt

pub as_count-small : (v : Option Json) → Read (λ n. n ≤ largest_safe) (as_count v)
as_count-small (some (number (whole (pos n)))) = small (leb n largest_safe) n (λ h. ground arith)
  where
    small :
        (b : Bool) (n : ℕ)
        → (b ≡ true → n ≤ largest_safe)
        → Read (λ n. n ≤ largest_safe) (if b then some n else none)
    small true n h = h refl
    small false n h = tt
as_count-small (some (number (whole (negsuc n)))) = tt
as_count-small (some (number fraction)) = tt
as_count-small (some (object fs)) = tt
as_count-small (some (array xs)) = tt
as_count-small (some null) = tt
as_count-small (some (boolean b)) = tt
as_count-small (some (text s)) = tt
as_count-small none = tt

pub as_name-text : (s : String) → IsName s → as_name (some (text s)) ≡ some s
as_name-text s h = rw h refl

pub as_count-whole : (n : ℕ) → n ≤ largest_safe → as_count (some (number (whole (pos n)))) ≡ some n
as_count-whole n h = ground arith

pub as_integer-whole :
    (n : ℕ) → n ≤ largest_safe → as_integer (some (number (whole (pos n)))) ≡ some (pos n)
as_integer-whole n h = ground arith
