-- ===== src/Utility/Text/Hex.antt =====
-- `double2hexstr` and `hexToBytes`, through which `sendOutputSetup` packs the frequency.
use ur_rtde_fork_custom.Base.{
  ℕ, suc, zero, ◌+◌, ◌*◌, ◌/◌, ◌%◌, ◌^◌, ◌≤◌, ◌<◌, ◌≡◌, refl, List, [], ◌∷◌, arith, false, true,
  ltb, ◌==◌, lt→ltb,
}
use native.Mathlib.Nat.{pow-suc, one-le-pow}
use ur_rtde_fork_custom.Utility.{pack_double}
use ur_rtde_fork_custom.Utility.Text.{
  hex_digit, to_hex, double2hexstr, digit_value, strtol_byte, hex_to_bytes, is_blank, strtol_digits,
}

digit_value-hex_digit : (d : ℕ) → d < 16 → digit_value (hex_digit d) ≡ d
unfolding digit_value hex_digit
digit_value-hex_digit d h = ground arith

hex_digit_plain :
    (d : ℕ)
    → d < 16
    → (is_blank (hex_digit d) ≡ false)
      × ((hex_digit d == b'-') ≡ false)
      × ((hex_digit d == b'+') ≡ false)
unfolding hex_digit is_blank
hex_digit_plain d h = ground arith

digit_value_small : (d : ℕ) → d < 16 → ltb (digit_value (hex_digit d)) 16 ≡ true
digit_value_small d h = rw (digit_value-hex_digit d h) (lt→ltb d 16 h)

strtol_digits-cons :
    (d : ℕ) (s : List ℕ) (n : ℕ)
    → d < 16
    → strtol_digits (hex_digit d ∷ s) n ≡ strtol_digits s (n * 16 + d)
unfolding strtol_digits
strtol_digits-cons d s n h =
    rw (digit_value_small d h, strtol_digits) (rw (digit_value-hex_digit d h))

strtol_digits_nil : (n : ℕ) → strtol_digits [] n ≡ n
unfolding strtol_digits
strtol_digits_nil n = refl

-- Two printed digits read as their byte.
strtol_pair :
    (a b : ℕ) → a < 16 → b < 16 → strtol_byte (hex_digit a ∷ hex_digit b ∷ []) ≡ a * 16 + b
unfolding strtol_byte
strtol_pair a b ha hb = ground (
  arith,
  hex_digit_plain a ha,
  strtol_digits-cons a (hex_digit b ∷ []) 0 ha,
  strtol_digits-cons b [] (0 * 16 + a) hb,
  strtol_digits_nil (((0 * 16 + a) * 16) + b),
)

-- `k` hexadecimal digits of a value, most significant first, in front of `ds`.
abbrev nibbles : ℕ → ℕ → List ℕ → List ℕ
nibbles zero v ds = ds
nibbles (suc k) v ds = nibbles k (v / 16) (hex_digit (v % 16) ∷ ds)

to_hex-nibbles :
    (k v : ℕ) (ds : List ℕ)
    → 16 ^ k ≤ v
    → v < 16 ^ suc k
    → to_hex (suc k) v ds ≡ nibbles (suc k) v ds
unfolding to_hex
to_hex-nibbles zero v ds lo hi = ground arith
to_hex-nibbles (suc k) v ds lo hi = ground (
  arith,
  to_hex-nibbles k (v / 16) (hex_digit (v % 16) ∷ ds) (omega (arith, pow-suc 16 k))
      (omega (arith, pow-suc 16 (suc k))),
  pow-suc 16 k,
  one-le-pow k 16 (omega arith),
)

hex_to_bytes_pair :
    (a b : ℕ) (s : List ℕ)
    → hex_to_bytes (hex_digit (a % 16) ∷ hex_digit (b % 16) ∷ s)
      ≡ (a % 16 * 16 + b % 16) ∷ hex_to_bytes s
unfolding hex_to_bytes
hex_to_bytes_pair a b s = rw (strtol_pair (a % 16) (b % 16) (omega arith) (omega arith))

hex_to_bytes_nil : hex_to_bytes [] ≡ []
unfolding hex_to_bytes
hex_to_bytes_nil = refl

byte_pair : (y : ℕ) → y / 16 % 16 * 16 + y % 16 ≡ y % 256
byte_pair y = omega arith

-- The detour over hexadecimal text packs a `double` as `packDouble` does, where its bit pattern has
-- all 16 hexadecimal digits: the negative numbers, and all from 2 ^ -767 on.
pub hex_to_bytes-double2hexstr :
    (x : ℕ) → 2 ^ 60 ≤ x → x < 2 ^ 64 → hex_to_bytes (double2hexstr x) ≡ pack_double x
unfolding double2hexstr pack_double
hex_to_bytes-double2hexstr x lo hi =
    rw (to_hex-nibbles 15 x [] (omega arith) (omega arith))
      (simp (hex_to_bytes_pair, hex_to_bytes_nil, byte_pair) (ground arith))
