-- ===== src/Base/Int.antt =====
-- The integers over the native natural numbers, for an `int` that may be negative.
use ur_rtde_fork_custom.Base.{ℕ, ◌+◌, ◌-◌, Bool, true, false, ltb, leb, ◌==◌, if◌then◌else◌}

-- `negsuc n` is -1 - n.
pub data ℤ : Type 0 where
  pos negsuc : ℕ → ℤ

abbrev pub same_int : ℤ → ℤ → Bool
same_int (pos m) (pos n) = m == n
same_int (negsuc m) (negsuc n) = m == n
same_int _ _ = false

-- `<=`.
abbrev pub le_int : ℤ → ℤ → Bool
le_int (pos m) (pos n) = leb m n
le_int (pos m) (negsuc n) = false
le_int (negsuc m) (pos n) = true
le_int (negsuc m) (negsuc n) = leb n m

abbrev pub lt_int : ℤ → ℤ → Bool
lt_int (pos m) (pos n) = ltb m n
lt_int (pos m) (negsuc n) = false
lt_int (negsuc m) (pos n) = true
lt_int (negsuc m) (negsuc n) = ltb n m

abbrev pub subtract : ℤ → ℕ → ℤ
subtract (pos m) n = if ltb m n then negsuc (n - m - 1) else pos (m - n)
subtract (negsuc m) n = negsuc (m + n)

-- `boost::algorithm::clamp`.
abbrev pub clamp : ℤ → ℤ → ℤ → ℤ
clamp v lo hi = if lt_int v lo then lo else if lt_int hi v then hi else v
