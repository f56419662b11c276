-- ===== src/Lines/Tests.antt =====
-- The line reader at concrete inputs.
use pi_pilot.Base.{ℕ, ◌≡◌, refl, List, [], ◌∷◌, ltb, ◌==◌, ◌&&◌, if◌then◌else◌, nat_key, string_key}
use pi_pilot.Lines.{read_lines, new_reader, take_text, push, push_all, split_line}
use pi_pilot.Lines.Chunks.{push_all-joined}

-- UTF-8, as far as "é", of the bytes 195 and 169; a byte that stands alone is the replacement character.
abbrev alone : ℕ → ℕ
alone c = if ltb c 128 then c else 65533

abbrev decode : List ℕ → List ℕ
decode [] = []
decode (c ∷ []) = alone c ∷ []
decode (c ∷ d ∷ cs) =
    let after_both = decode cs in
    let after_one = decode (d ∷ cs) in
    if c == 195 && d == 169 then 233 ∷ after_both else alone c ∷ after_one

-- "aé\r\nc" in chunks that cut the line end.
abbrev chunks : List (List ℕ)
chunks = (97 ∷ []) ∷ (195 ∷ 169 ∷ 13 ∷ []) ∷ (10 ∷ 99 ∷ []) ∷ []

read_at_once :
    push decode (97 ∷ 195 ∷ 169 ∷ 13 ∷ 10 ∷ 99 ∷ []) new_reader
    ≡ (record { buffer = 99 ∷ [] }, (97 ∷ 233 ∷ []) ∷ [])
unfolding push take_text read_lines split_line
read_at_once = refl

-- The same text with a cut inside the character.
read_cut :
    push_all decode ((97 ∷ 195 ∷ []) ∷ (169 ∷ 10 ∷ []) ∷ []) new_reader
    ≡ (record { buffer = [] }, (97 ∷ 65533 ∷ 65533 ∷ []) ∷ [])
unfolding push_all push take_text read_lines split_line
read_cut = refl

push_all-joined_example :
    push_all decode chunks new_reader ≡ push decode (97 ∷ 195 ∷ 169 ∷ 13 ∷ 10 ∷ 99 ∷ []) new_reader
unfolding split_line
push_all-joined_example = push_all-joined decode chunks new_reader refl refl
