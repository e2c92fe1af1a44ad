-- ===== src/Rtde/RobotState/Kind.antt =====
-- The type that a variant holds, and `boost::strict_get`.
use ur_rtde_fork_custom.Base.{ℕ, List}
use ur_rtde_fork_custom.Base.Outcome.{Outcome, ok, throws, bad_get}
use ur_rtde_fork_custom.Rtde.StateTypes.{
  Variant, uint32, uint64, int32, double, vector_double, vector_int32,
}

pub data Kind : Type 0 where
  is_uint32 is_uint64 is_int32 is_double is_vector_double is_vector_int32 : Kind

-- Words and doubles are bit patterns.
abbrev pub Value : Kind → Type 0
Value is_uint32 = ℕ
Value is_uint64 = ℕ
Value is_int32 = ℕ
Value is_double = ℕ
Value is_vector_double = List ℕ
Value is_vector_int32 = List ℕ

abbrev pub kind : Variant → Kind
kind (uint32 _) = is_uint32
kind (uint64 _) = is_uint64
kind (int32 _) = is_int32
kind (double _) = is_double
kind (vector_double _) = is_vector_double
kind (vector_int32 _) = is_vector_int32

-- Another type than the one asked for is an exception.
unfoldable pub strict_get : (k : Kind) → Variant → Outcome (Value k)
strict_get is_uint32 (uint32 v) = ok v
strict_get is_uint64 (uint64 v) = ok v
strict_get is_int32 (int32 v) = ok v
strict_get is_double (double v) = ok v
strict_get is_vector_double (vector_double vs) = ok vs
strict_get is_vector_int32 (vector_int32 is) = ok is
strict_get k v = throws bad_get
