-- ===== src/Gripper/Units.antt =====
-- `convertValueUnit` of src/robotiq_gripper.cpp. The type `float` with its arithmetic and its conversions
-- is the parameter `floats`.
use ur_rtde_fork_custom.Base.{◌+◌, ◌-◌, ◌^◌, Bool, true, false, ◌&&◌, if◌then◌else◌}
use ur_rtde_fork_custom.Base.Int.{ℤ, pos, negsuc, le_int, subtract}
use ur_rtde_fork_custom.Base.Outcome.{Outcome, ok, fault, ◌>>=◌}

-- `eMoveParameter`.
pub data MoveParameter : Type 0 where
  position speed force : MoveParameter

-- `eUnit`.
pub data UnitKind : Type 0 where
  unit_device unit_normalized unit_percent unit_mm : UnitKind

-- `eUnitConversion`.
pub data UnitConversion : Type 0 where
  to_device_unit from_device_unit : UnitConversion

-- A conversion of a `float` to an `int` that cannot hold it is undefined, the outcome `fault`.
pub record FloatOps (F : Type 0) : Type 0 where
  -- `(float)n`.
  pub of_int : ℤ → F
  pub multiply : F → F → F
  pub divide : F → F → F
  pub minus : F → F → F
  -- `float(255.0 / n)`.
  pub factor_of : ℤ → F
  -- `int(roundf(value))`.
  pub round_int : F → Outcome ℤ
  -- `(int)value`.
  pub truncate : F → Outcome ℤ
  -- `value < 0`.
  pub is_negative : F → Bool

abbrev pub is_position : MoveParameter → Bool
is_position MoveParameter.position = true
is_position _ = false

abbrev pub same_parameter : MoveParameter → MoveParameter → Bool
same_parameter MoveParameter.position MoveParameter.position = true
same_parameter MoveParameter.speed MoveParameter.speed = true
same_parameter MoveParameter.force MoveParameter.force = true
same_parameter _ _ = false

abbrev pub difference : ℤ → ℤ → ℤ
difference a (pos n) = subtract a n
difference (pos m) (negsuc n) = pos (m + n + 1)
difference (negsuc m) (negsuc n) = subtract (pos (n + 1)) (m + 1)

-- A subtraction of `int`s, which is undefined on overflow.
unfoldable pub subtract_int : ℤ → ℤ → Outcome ℤ
subtract_int a b =
    if le_int (negsuc (2 ^ 31 - 1)) (difference a b) && le_int (difference a b) (pos (2 ^ 31 - 1))
    then ok (difference a b)
    else fault

module _ {F : Type 0} (floats : FloatOps F) (max_position range_mm : ℤ) where
  -- The `switch` on the unit, behind the early return for `UNIT_DEVICE`.
  abbrev pub factor : UnitKind → F
  factor unit_normalized = floats.of_int (pos 255)
  factor unit_percent = floats.factor_of (pos 100)
  factor unit_mm = floats.factor_of range_mm
  factor unit_device = floats.of_int (pos 1)

  unfoldable pub scale_value : UnitKind → MoveParameter → UnitConversion → F → Outcome F
  unfolding subtract_int
  scale_value kind param to_device_unit value = do
    rounded ← floats.round_int (floats.multiply value (factor kind))
    result ← (if is_position param then subtract_int max_position rounded else ok rounded)
    ok (floats.of_int result)
  scale_value kind param from_device_unit value = ok (
      floats.divide
        (if is_position param then floats.minus (floats.of_int max_position) value else value)
        (factor kind))

  unfoldable pub convert_value_unit : UnitKind → MoveParameter → UnitConversion → F → Outcome F
  unfolding scale_value
  convert_value_unit unit_device param direction value = ok value
  convert_value_unit kind param direction value = scale_value kind param direction value
