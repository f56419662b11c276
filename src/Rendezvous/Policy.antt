-- ===== src/Rendezvous/Policy.antt =====
-- The policy of device names and pairing keys, which bridge/src/p2p_key_policy.ts has as well.
use pi_pilot.Base.{
  ℕ, ◌+◌, String, ◌≡◌, Bool, true, false, ◌&&◌, ◌||◌, not, arith, ltb, leb, ◌==◌, if◌then◌else◌,
  nat_key, string_key,
}
use Prim.Native.Char.{Char, code}
use pi_pilot.Notify.Event.{units}

abbrev pub min_pairing_key_length : ℕ
min_pairing_key_length = 16

abbrev pub max_pairing_key_length : ℕ
max_pairing_key_length = 128

abbrev pub min_pairing_key_classes : ℕ
min_pairing_key_classes = 3

abbrev pub in_range : ℕ → ℕ → Char → Bool
in_range low high c = leb low (code c) && leb (code c) high

abbrev pub is_lower : Char → Bool
is_lower c = in_range 97 122 c

abbrev pub is_upper : Char → Bool
is_upper c = in_range 65 90 c

abbrev pub is_digit : Char → Bool
is_digit c = in_range 48 57 c

abbrev pub is_printable : Char → Bool
is_printable c = in_range 33 126 c

abbrev pub is_symbol : Char → Bool
is_symbol c = not (is_lower c || is_upper c || is_digit c)

-- The characters of a device name
abbrev pub is_name_char : Char → Bool
is_name_char c =
    is_lower c || is_upper c || is_digit c || code c == 46 || code c == 95 || code c == 45

abbrev pub all_chars : (Char → Bool) → String → Bool
all_chars p String.[] = true
all_chars p (String.◌∷◌ c s) = p c && all_chars p s

abbrev pub any_char : (Char → Bool) → String → Bool
any_char p String.[] = false
any_char p (String.◌∷◌ c s) = p c || any_char p s

-- `length`, in UTF-16 units
abbrev pub text_length : String → ℕ
text_length String.[] = 0
text_length (String.◌∷◌ c s) = units c + text_length s

abbrev pub counted : Bool → ℕ
counted b = if b then 1 else 0

abbrev pub classes : String → ℕ
classes s =
    counted (any_char is_lower s)
    + (counted (any_char is_upper s)
        + (counted (any_char is_digit s) + counted (any_char is_symbol s)))

-- `validatePairingKey` of a text
unfoldable pub validate_pairing_key : String → Bool
validate_pairing_key s =
    if ltb (text_length s) min_pairing_key_length || ltb max_pairing_key_length (text_length s)
    then false
    else if not (all_chars is_printable s)
    then false
    else leb min_pairing_key_classes (classes s)

-- `validateDeviceId` of a text
unfoldable pub validate_device_id : String → Bool
validate_device_id s = all_chars is_name_char s && leb 3 (text_length s) && leb (text_length s) 64

-- `isValidP2pDeviceId` and `isValidP2pPairingKey` of the bridge
abbrev pub is_valid_p2p_device_id : String → Bool
is_valid_p2p_device_id s =
    all_chars is_name_char s && leb 3 (text_length s) && leb (text_length s) 64

unfoldable pub is_valid_p2p_pairing_key : String → Bool
is_valid_p2p_pairing_key s =
    if ltb (text_length s) 16
      || ltb 128 (text_length s)
      || not (all_chars is_printable s && ltb 0 (text_length s))
    then false
    else leb 3 (classes s)

-- What the bridge takes for a key, the service takes as well, and the other way round.
pub policies_agree : (s : String) → is_valid_p2p_pairing_key s ≡ validate_pairing_key s
unfolding is_valid_p2p_pairing_key validate_pairing_key
policies_agree s = ground arith
