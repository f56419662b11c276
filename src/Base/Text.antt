-- ===== src/Base/Text.antt =====
-- Texts as JavaScript's `startsWith`, `trim` and simple patterns read them.
use Prim.Native.Char.{Char, code}
use Prim.Native.String.{String}
use mathlib.Core.Bool.{Bool, true, ◌&&◌, ◌||◌}
use mathlib.Core.Option.{Option, none, some}
use pi_pilot.Base.Tests.{leb, ◌==◌, if◌then◌else◌}

abbrev pub same_char : Char → Char → Bool
same_char a b = code a == code b

-- What follows a prefix.
abbrev pub after_prefix : String → String → Option String
after_prefix String.[] s = some s
after_prefix (String.◌∷◌ a p) String.[] = none
after_prefix (String.◌∷◌ a p) (String.◌∷◌ b s) =
    let rest = after_prefix p s in if same_char a b then rest else none

-- `\s`, and what `trim` takes off
abbrev pub is_space : Char → Bool
is_space c =
    (leb 9 (code c) && leb (code c) 13)
    || code c == 32
    || code c == 160
    || code c == 5760
    || (leb 8192 (code c) && leb (code c) 8202)
    || code c == 8232
    || code c == 8233
    || code c == 8239
    || code c == 8287
    || code c == 12288
    || code c == 65279

abbrev pub trim_start : String → String
trim_start String.[] = String.[]
trim_start (String.◌∷◌ c s) = let rest = trim_start s in if is_space c then rest else String.◌∷◌ c s

abbrev pub is_blank : String → Bool
is_blank String.[] = true
is_blank (String.◌∷◌ c s) = is_space c && is_blank s

abbrev pub trim_end : String → String
trim_end String.[] = String.[]
trim_end (String.◌∷◌ c s) =
    let rest = String.◌∷◌ c (trim_end s) in if is_blank (String.◌∷◌ c s) then String.[] else rest

abbrev pub trim : String → String
trim s = trim_end (trim_start s)

-- The end of a text, or white space
abbrev pub is_word_end : String → Bool
is_word_end String.[] = true
is_word_end (String.◌∷◌ c s) = is_space c
