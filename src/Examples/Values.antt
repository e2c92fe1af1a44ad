-- ===== src/Examples/Values.antt =====
-- The arguments of the examples: bit patterns of a few doubles, vectors of them, and a command object.
use ur_rtde_fork_custom.Base.{ℕ, ◌≡◌, refl, List, [], ◌∷◌, arith}
use ur_rtde_fork_custom.Base.Outcome.{ok}
use ur_rtde_fork_custom.Utility.RoundTrip.{IsWord64}
use ur_rtde_fork_custom.Rtde.Command.{RobotCommand, no_cmd}
use ur_rtde_fork_custom.Control.Packages.{IsVector}
use ur_rtde_fork_custom.Control.Limits.{
  verify_value_is_within, ur_joint_velocity_min, ur_joint_velocity_max, ur_joint_acceleration_min,
  ur_joint_acceleration_max,
}

-- 1.0, 0.1, 300.0 and 10000.0.
abbrev pub one : ℕ
one = 4607182418800017408

abbrev pub tenth : ℕ
tenth = 4591870180066957722

abbrev pub three_hundred : ℕ
three_hundred = 4643985272004935680

abbrev pub ten_thousand : ℕ
ten_thousand = 4666723172467343360

pub one-IsWord64 : IsWord64 one
one-IsWord64 = omega arith

abbrev pub home : List ℕ
home = one ∷ tenth ∷ 0 ∷ one ∷ tenth ∷ one ∷ []

abbrev pub centre : List ℕ
centre = tenth ∷ 0 ∷ one ∷ []

abbrev pub axes_up : List ℕ
axes_up = 0 ∷ 0 ∷ 1 ∷ 0 ∷ 0 ∷ 1 ∷ []

pub home-IsVector : IsVector 6 home
home-IsVector = (refl, omega arith)

abbrev pub no_registers : ℕ → ℕ
no_registers reg = 0

-- A command object whose members hold arbitrary values.
abbrev pub stale : RobotCommand
stale = record {
  type = no_cmd;
  recipe_id = 1;
  async = 7;
  ft_rtde_input_enable = 7;
  reg_int_val = 7;
  reg_double_val = 7;
  val = [];
  selection_vector = [];
  free_axes = [];
  force_mode_type = 7;
  std_digital_out = 7;
  std_digital_out_mask = 7;
  configurable_digital_out = 7;
  configurable_digital_out_mask = 7;
  std_tool_out = 7;
  std_tool_out_mask = 7;
  std_analog_output_mask = 7;
  std_analog_output_type = 7;
  std_analog_output_0 = 7;
  std_analog_output_1 = 7;
  speed_slider_mask = 7;
  speed_slider_fraction = 7;
  steps = 7;
}

pub one_joint_speed : verify_value_is_within one ur_joint_velocity_min ur_joint_velocity_max ≡ ok tt
unfolding verify_value_is_within
one_joint_speed = refl

pub one_joint_acceleration :
    verify_value_is_within one ur_joint_acceleration_min ur_joint_acceleration_max ≡ ok tt
unfolding verify_value_is_within
one_joint_acceleration = refl
