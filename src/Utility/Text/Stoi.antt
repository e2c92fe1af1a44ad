-- ===== src/Utility/Text/Stoi.antt =====
-- `std::stoi`: an `int` from the start of a text.
use ur_rtde_fork_custom.Base.{
  ℕ, ◌+◌, ◌-◌, ◌*◌, ◌^◌, Bool, true, false, not, List, [], ◌∷◌, if◌then◌else◌, ◌==◌, leb, ltb,
}
use ur_rtde_fork_custom.Base.Int.{ℤ, pos, negsuc}
use ur_rtde_fork_custom.Base.Outcome.{Outcome, ok, throws, invalid_argument, out_of_range}
use ur_rtde_fork_custom.Utility.Text.{is_blank, is_digit}

-- The digits that a text starts with, and whether there is one.
unfoldable pub read_digits : ℕ → List ℕ → ℕ
unfolding is_digit
read_digits n [] = n
read_digits n (c ∷ s) =
    let more = read_digits (n * 10 + (c - b'0')) s in if is_digit c then more else n

abbrev pub has_digit : List ℕ → Bool
has_digit [] = false
has_digit (c ∷ s) = is_digit c

-- Behind the sign: an `int` reaches from -2^31 to 2^31 - 1.
abbrev pub signed : Bool → List ℕ → Outcome ℤ
signed is_minus s =
    if not (has_digit s)
    then throws invalid_argument
    else (let n = read_digits 0 s in
        if is_minus
        then (if ltb (2 ^ 31) n
            then throws out_of_range
            else ok (if n == 0 then pos 0 else negsuc (n - 1)))
        else (if leb (2 ^ 31) n then throws out_of_range else ok (pos n)))

abbrev pub after_blanks : List ℕ → Outcome ℤ
after_blanks [] = throws invalid_argument
after_blanks (c ∷ s) =
    if c == b'-' then signed true s else if c == b'+' then signed false s else signed false (c ∷ s)

unfoldable pub stoi : List ℕ → Outcome ℤ
unfolding is_blank read_digits is_digit
stoi [] = throws invalid_argument
stoi (c ∷ s) = let later = stoi s in if is_blank c then later else after_blanks (c ∷ s)
