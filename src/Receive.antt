-- ===== src/Receive.antt =====
-- `RTDEReceiveInterface` of src/rtde_receive_interface.cpp: the variables that it asks for and the
-- getters, which read the robot state.
pub mod Getters
pub mod Ready
pub mod AllGetters
pub mod OptionalGetters
use ur_rtde_fork_custom.Base.{
  ℕ, ◌+◌, Bool, ◌&&◌, ◌||◌, List, [], ◌∷◌, ◌++◌, leb, ◌==◌, if◌then◌else◌, codes, is_empty,
}
use ur_rtde_fork_custom.Rtde.Registers.{out_int_reg, out_double_reg}
use ur_rtde_fork_custom.Control.Recipes.{consecutive}

-- What `getControllerVersion` reports.
pub record Version : Type 0 where
  pub major : ℕ
  pub minor : ℕ
  pub bugfix : ℕ

-- The variables that every controller is asked for.
unfoldable pub base_variables : List (List ℕ)
base_variables =
    codes "timestamp"
    ∷ codes "target_q"
    ∷ codes "target_qd"
    ∷ codes "target_qdd"
    ∷ codes "target_current"
    ∷ codes "target_moment"
    ∷ codes "actual_q"
    ∷ codes "actual_qd"
    ∷ codes "actual_current"
    ∷ codes "joint_control_output"
    ∷ codes "actual_TCP_pose"
    ∷ codes "actual_TCP_speed"
    ∷ codes "actual_TCP_force"
    ∷ codes "target_TCP_pose"
    ∷ codes "target_TCP_speed"
    ∷ codes "actual_digital_input_bits"
    ∷ codes "joint_temperatures"
    ∷ codes "actual_execution_time"
    ∷ codes "robot_mode"
    ∷ codes "joint_mode"
    ∷ codes "safety_mode"
    ∷ codes "actual_tool_accelerometer"
    ∷ codes "speed_scaling"
    ∷ codes "target_speed_fraction"
    ∷ codes "actual_momentum"
    ∷ codes "actual_main_voltage"
    ∷ codes "actual_robot_voltage"
    ∷ codes "actual_robot_current"
    ∷ codes "actual_joint_voltage"
    ∷ codes "actual_digital_output_bits"
    ∷ codes "runtime_state"
    ∷ codes "standard_analog_input0"
    ∷ codes "standard_analog_input1"
    ∷ codes "standard_analog_output0"
    ∷ codes "standard_analog_output1"
    ∷ codes "robot_status_bits"
    ∷ codes "safety_status_bits"
    ∷ []

-- `emplace_back` of some names under a condition.
abbrev pub append_names : Bool → List (List ℕ) → List (List ℕ) → List (List ℕ)
append_names test names variables = if test then variables ++ names else variables

-- The register names: 2 and 12 to 19 of the integers, and 12 to 19 of the doubles.
unfoldable pub register_variables : ℕ → List (List ℕ)
unfolding consecutive
register_variables register_offset =
    out_int_reg register_offset 2
    ∷ (consecutive (out_int_reg register_offset) 12 8
        ++ consecutive (out_double_reg register_offset) 12 8)

abbrev pub reports_wrench : Version → Bool
reports_wrench v = v.major == 5 && leb 9 v.minor

abbrev pub reports_payload : Version → Bool
reports_payload v =
    (v.major == 3 && leb 11 v.minor)
    || (v.major == 5 && leb 5 v.minor && leb 1 v.bugfix)
    || (v.major == 5 && leb 6 v.minor)

abbrev pub reports_inertia : Version → Bool
reports_inertia v = (v.major == 3 && leb 15 v.minor) || (v.major == 5 && leb 11 v.minor)

abbrev pub reports_registers : Bool → Version → Bool
reports_registers use_upper_range_registers v =
    if use_upper_range_registers
    then (v.major == 3 && leb 9 v.minor) || (v.major == 5 && leb 3 v.minor)
    else leb 3 v.major && leb 4 v.minor

-- `variables_` behind `setupRecipes`: the client's list, or the default list if that is empty.
unfoldable pub setup_variables : Bool → Version → List (List ℕ) → List (List ℕ)
setup_variables use_upper_range_registers version variables =
    if is_empty variables
    then (let v0 = base_variables in
        let v1 = append_names (reports_wrench version) (codes "ft_raw_wrench" ∷ []) v0 in
        let v2 =
          append_names (reports_payload version) (codes "payload" ∷ codes "payload_cog" ∷ []) v1 in
        let v3 = append_names (reports_inertia version) (codes "payload_inertia" ∷ []) v2 in
        append_names (reports_registers use_upper_range_registers version)
          (register_variables (if use_upper_range_registers then 24 else 0)) v3)
    else variables

-- `frequency_` of the constructor: a negative one is replaced by the controller's.
abbrev pub controller_frequency : Version → ℕ
controller_frequency v = if leb 4 v.major then 500 else 125
