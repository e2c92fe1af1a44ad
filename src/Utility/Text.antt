-- ===== src/Utility/Text.antt =====
-- The text helpers of include/ur_rtde/rtde_utility.h. A `std::string` is the list of its bytes.
pub mod Hex
pub mod Split
pub mod Find
pub mod Edit
pub mod Stoi
use ur_rtde_fork_custom.Base.{
  ℕ, zero, suc, ◌+◌, ◌-◌, ◌*◌, ◌/◌, ◌%◌, ◌^◌, Bool, true, false, not, ◌&&◌, ◌||◌, List, [], ◌∷◌,
  ◌++◌, leb, ltb, ◌==◌, if◌then◌else◌, length, replicate, is_empty,
}

-- One digit of `std::hex` output: lower case.
unfoldable pub hex_digit : ℕ → ℕ
hex_digit d = if ltb d 10 then b'0' + d else b'a' + (d - 10)

-- `std::hex` printing of an unsigned value; 16 rounds are enough for 64 bits.
unfoldable pub to_hex : ℕ → ℕ → List ℕ → List ℕ
unfolding hex_digit
to_hex zero v digits = digits
to_hex (suc rounds) v digits =
    let rest = to_hex rounds (v / 16) (hex_digit (v % 16) ∷ digits) in
    if v / 16 == 0 then hex_digit (v % 16) ∷ digits else rest

-- `std::setw`: blanks in front, the default fill and adjustment.
abbrev pub set_width : ℕ → List ℕ → List ℕ
set_width w s = replicate (w - length s) b' ' ++ s

-- The `long long` of the union prints as the bit pattern of the `double`.
unfoldable pub double2hexstr : ℕ → List ℕ
unfolding to_hex
double2hexstr x = set_width 6 (to_hex 16 x [])

unfoldable pub is_blank : ℕ → Bool
is_blank c = c == 32 || (leb 9 c && leb c 13)

-- The value of a hexadecimal digit, and 16 for any other character.
unfoldable pub digit_value : ℕ → ℕ
digit_value c =
    if leb b'0' c && leb c b'9'
    then c - b'0'
    else if leb b'a' c && leb c b'f'
    then c - b'a' + 10
    else if leb b'A' c && leb c b'F'
    then c - b'A' + 10
    else 16

-- The digits of `strtol` in base 16, up to the first character that is none.
unfoldable pub strtol_digits : List ℕ → ℕ → ℕ
unfolding digit_value
strtol_digits [] n = n
strtol_digits (c ∷ s) n = elim (ltb (digit_value c) 16) [
  | true ↦ strtol_digits s (n * 16 + digit_value c)
  | false ↦ n
]

-- A sign stands in front of the digits; the result is cast to `char`.
unfoldable pub strtol_sign : List ℕ → ℕ
strtol_sign [] = 0
strtol_sign (c ∷ s) =
    if c == b'-'
    then (256 - strtol_digits s 0 % 256) % 256
    else if c == b'+'
    then strtol_digits s 0 % 256
    else strtol_digits (c ∷ s) 0 % 256

-- `(char)strtol(text, nullptr, 16)` on a text of at most two characters.
unfoldable pub strtol_byte : List ℕ → ℕ
unfolding strtol_sign
strtol_byte [] = 0
strtol_byte (c ∷ s) = if is_blank c then strtol_byte s else strtol_sign (c ∷ s)

unfoldable pub hex_to_bytes : List ℕ → List ℕ
unfolding strtol_byte
hex_to_bytes [] = []
hex_to_bytes (a ∷ []) = strtol_byte (a ∷ []) ∷ []
hex_to_bytes (a ∷ b ∷ hex) = strtol_byte (a ∷ b ∷ []) ∷ hex_to_bytes hex

-- A character that belongs to the first token of what follows it.
unfoldable pub extend_first : ℕ → List (List ℕ) → List (List ℕ)
extend_first c [] = (c ∷ []) ∷ []
extend_first c (token ∷ tokens) = (c ∷ token) ∷ tokens

-- `std::getline` over the text: a token ends at a delimiter, and an empty rest is no token.
unfoldable pub split : List ℕ → ℕ → List (List ℕ)
unfolding extend_first
split [] delimiter = []
split (c ∷ s) delimiter =
    let tokens = split s delimiter in if c == delimiter then [] ∷ tokens else extend_first c tokens

unfoldable pub is_digit : ℕ → Bool
is_digit c = leb b'0' c && leb c b'9'

-- `find_if(s.begin(), s.end(), !isdigit) == s.end()`.
unfoldable pub all_digits : List ℕ → Bool
unfolding is_digit
all_digits [] = true
all_digits (c ∷ s) = is_digit c && all_digits s

unfoldable pub is_number : List ℕ → Bool
unfolding all_digits
is_number s = not (is_empty s) && all_digits s

-- `std::to_string` of a number that is not negative; 10 rounds are enough for an `int`.
unfoldable pub to_decimal : ℕ → ℕ → List ℕ → List ℕ
to_decimal zero n digits = digits
to_decimal (suc rounds) n digits =
    let rest = to_decimal rounds (n / 10) ((b'0' + n % 10) ∷ digits) in
    if n / 10 == 0 then (b'0' + n % 10) ∷ digits else rest

unfoldable pub to_string : ℕ → List ℕ
unfolding to_decimal
to_string n = to_decimal 10 n []
