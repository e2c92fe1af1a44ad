-- ===== src/Control/Limits.antt =====
-- The limits of include/ur_rtde/rtde_control_interface.h, as the bit patterns of the doubles, and
-- `verifyValueIsWithin`.
use ur_rtde_fork_custom.Base.{
  ℕ, ◌*◌, ◌^◌, ◌≤◌, ◌<◌, ◌≡◌, ◌↔◌, ◌⊎◌, true, not, ◌&&◌, ◌||◌, if◌then◌else◌, arith,
}
use ur_rtde_fork_custom.Base.Outcome.{Outcome, ok, throws, invalid_argument, range_error}
use ur_rtde_fork_custom.Base.Double.{is_nan, is_less_equal, is_greater_equal}

abbrev pub ur_joint_velocity_max : ℕ
ur_joint_velocity_max = 0x40091eb851eb851f

abbrev pub ur_joint_velocity_min : ℕ
ur_joint_velocity_min = 0

abbrev pub ur_joint_acceleration_max : ℕ
ur_joint_acceleration_max = 0x4044000000000000

abbrev pub ur_joint_acceleration_min : ℕ
ur_joint_acceleration_min = 0

abbrev pub ur_tool_velocity_max : ℕ
ur_tool_velocity_max = 0x4008000000000000

abbrev pub ur_tool_velocity_min : ℕ
ur_tool_velocity_min = 0

abbrev pub ur_tool_acceleration_max : ℕ
ur_tool_acceleration_max = 0x4062c00000000000

abbrev pub ur_tool_acceleration_min : ℕ
ur_tool_acceleration_min = 0

abbrev pub ur_servo_lookahead_time_max : ℕ
ur_servo_lookahead_time_max = 0x3fc999999999999a

abbrev pub ur_servo_lookahead_time_min : ℕ
ur_servo_lookahead_time_min = 0x3f9eb851eb851eb8

abbrev pub ur_servo_gain_max : ℕ
ur_servo_gain_max = 0x409f400000000000

abbrev pub ur_servo_gain_min : ℕ
ur_servo_gain_min = 0x4059000000000000

abbrev pub ur_blend_max : ℕ
ur_blend_max = 0x4000000000000000

abbrev pub ur_blend_min : ℕ
ur_blend_min = 0

unfoldable pub verify_value_is_within : ℕ → ℕ → ℕ → Outcome (Unit {0})
unfolding is_nan is_less_equal
verify_value_is_within value min max =
    if is_nan min || is_nan max
    then throws invalid_argument
    else if is_nan value
    then throws invalid_argument
    else if not (is_greater_equal value min && is_less_equal value max)
    then throws range_error
    else ok tt

-- For bounds that are not negative and not NaN, `verifyValueIsWithin` lets exactly those values
-- through whose bit pattern lies between the bounds' patterns, and -0.0 where the lower bound is 0.0;
-- it answers `std::invalid_argument` on NaN and `std::range_error` on the rest.
pub verify_value_is_within_lem :
    (value min max : ℕ)
    → value < 2 ^ 64
    → min ≤ 2047 * 2 ^ 52
    → max ≤ 2047 * 2 ^ 52
    → ((verify_value_is_within value min max ≡ ok tt)
        ↔ (((min ≤ value) × (value ≤ max)) ⊎ ((value ≡ 2 ^ 63) × (min ≡ 0))))
      × ((verify_value_is_within value min max ≡ throws invalid_argument) ↔ (is_nan value ≡ true))
unfolding verify_value_is_within
verify_value_is_within_lem value min max hv hmin hmax =
    ((λ e. ground arith, λ e. ground arith), (λ e. ground arith, λ e. ground arith))
