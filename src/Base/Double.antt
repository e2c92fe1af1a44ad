-- ===== src/Base/Double.antt =====
-- IEEE 754 binary64 values as their bit patterns: the comparisons and the conversion that the
-- sources use.
use Prim.Native.Nat.{ℕ, zero, suc, ◌+◌, ◌-◌, ◌*◌, ◌/◌, ◌%◌, ◌^◌}
use mathlib.Core.Bool.{Bool, true, not, ◌&&◌, ◌||◌}
use ur_rtde_fork_custom.Base.Tests.{ltb, leb, ◌==◌, if◌then◌else◌}

abbrev pub magnitude : ℕ → ℕ
magnitude x = x % 2 ^ 63

abbrev pub is_negative : ℕ → Bool
is_negative x = leb (2 ^ 63) x

-- `std::isnan`: the largest exponent with a fraction.
unfoldable pub is_nan : ℕ → Bool
is_nan x = ltb (2047 * 2 ^ 52) (magnitude x)

-- `std::islessequal`; the two zeros are equal.
unfoldable pub is_less_equal : ℕ → ℕ → Bool
unfolding is_nan
is_less_equal x y =
    not (is_nan x || is_nan y)
    && (if is_negative x
        then (if is_negative y then leb (magnitude y) (magnitude x) else true)
        else (if is_negative y
            then magnitude x == 0 && magnitude y == 0
            else leb (magnitude x) (magnitude y)))

abbrev pub is_greater_equal : ℕ → ℕ → Bool
is_greater_equal x y = is_less_equal y x

-- The position of the highest bit of a positive number below 2 ^ rounds.
unfoldable pub highest_bit : ℕ → ℕ → ℕ
highest_bit zero m = 0
highest_bit (suc rounds) m =
    let rest = highest_bit rounds (m / 2) in if ltb m 2 then 0 else rest + 1

-- A positive integer below 2 ^ 53 as a double.
unfoldable pub double_of_magnitude : ℕ → ℕ
unfolding highest_bit
double_of_magnitude m =
    if m == 0
    then 0
    else (let e = highest_bit 53 m in (1023 + e) * 2 ^ 52 + (m - 2 ^ e) * 2 ^ (52 - e))

-- The conversion of an `int32_t` bit pattern.
unfoldable pub double_of_int32 : ℕ → ℕ
unfolding double_of_magnitude
double_of_int32 w =
    if ltb w (2 ^ 31) then double_of_magnitude w else 2 ^ 63 + double_of_magnitude (2 ^ 32 - w)
