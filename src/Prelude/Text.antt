-- ===== src/Prelude/Text.antt =====
-- Tests on texts: the regular expressions of the source that ask for digits alone.
use Prim.Native.Nat.{ℕ, ◌+◌, ◌-◌, ◌*◌}
use Prim.Native.Char.{code}
use Prim.Native.String.{String}
use mathlib.Core.Bool.{Bool, true, false, ◌&&◌, ◌||◌}
use mathlib.Core.List.{List, [], ◌∷◌}
use aether_dex.Prelude.Tests.{leb, ◌==◌}
use aether_dex.Prelude.Lists.{length}

-- The code points of a text.
abbrev pub codes : String → List ℕ
codes String.[] = []
codes (String.◌∷◌ c s) = code c ∷ codes s

abbrev is_digit : ℕ → Bool
is_digit c = leb b'0' c && leb c b'9'

abbrev all_digits : List ℕ → Bool
all_digits [] = true
all_digits (c ∷ cs) = is_digit c && all_digits cs

abbrev is_nonempty : List ℕ → Bool
is_nonempty [] = false
is_nonempty (_ ∷ _) = true

-- `/^[0-9]+$/.test(s)`
unfoldable pub is_decimal : String → Bool
is_decimal s = is_nonempty (codes s) && all_digits (codes s)

-- The number that decimal digits denote, most significant first.
abbrev digits_value : ℕ → List ℕ → ℕ
digits_value acc [] = acc
digits_value acc (c ∷ cs) = digits_value (acc * 10 + (c - b'0')) cs

-- `/^[1-9]\d*$/.test(s)`
unfoldable pub is_positive_decimal : String → Bool
is_positive_decimal s = elim (codes s) [
  | [] ↦ false
  | c ∷ cs ↦ (leb b'1' c && leb c b'9') && all_digits cs
]

-- `Number(s)` of a text of decimal digits.
unfoldable pub decimal_value : String → ℕ
decimal_value s = digits_value 0 (codes s)

abbrev is_hex : ℕ → Bool
is_hex c = (leb b'0' c && leb c b'9') || (leb b'a' c && leb c b'f') || (leb b'A' c && leb c b'F')

abbrev all_hex : List ℕ → Bool
all_hex [] = true
all_hex (c ∷ cs) = is_hex c && all_hex cs

-- `0x` and so many hexadecimal digits.
abbrev is_prefixed_hex : ℕ → List ℕ → Bool
is_prefixed_hex size (z ∷ x ∷ digits) =
    z == b'0' && x == b'x' && length digits == size && all_hex digits
is_prefixed_hex size _ = false

-- `/^0x[a-fA-F0-9]{40}$/.test(s)`
unfoldable pub is_hex_address : String → Bool
is_hex_address s = is_prefixed_hex 40 (codes s)

-- `/^0x[0-9a-fA-F]{64}$/.test(s)`
unfoldable pub is_tx_hash : String → Bool
is_tx_hash s = is_prefixed_hex 64 (codes s)

-- `/^[0-9a-fA-F]{64}$/.test(s)`
unfoldable pub is_hex_key : String → Bool
is_hex_key s = length (codes s) == 64 && all_hex (codes s)
