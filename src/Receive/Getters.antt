-- ===== src/Receive/Getters.antt =====
-- The getters of `RTDEReceiveInterface`.
use ur_rtde_fork_custom.Base.{
  ℕ, ◌/◌, ◌%◌, ◌^◌, Bool, not, ◌&&◌, List, none, some, leb, ltb, ◌==◌, if◌then◌else◌, codes,
  is_empty,
}
use ur_rtde_fork_custom.Base.Outcome.{
  Outcome, ok, throws, runtime_error, range_error, out_of_range, ◌>>=◌,
}
use ur_rtde_fork_custom.Rtde.Registers.{out_int_reg, out_double_reg}
use ur_rtde_fork_custom.Rtde.RobotState.{RobotState, get_state_data}
use ur_rtde_fork_custom.Rtde.RobotState.Kind.{
  Kind, Value, strict_get, is_uint32, is_uint64, is_int32, is_double, is_vector_double,
  is_vector_int32,
}

-- The shape of every getter: `getStateData` into a variable of the type, or an error.
unfoldable pub get_or_throw : (k : Kind) → List ℕ → RobotState → Outcome (Value k)
get_or_throw k name s = elim (get_state_data name s) [
  | none ↦ throws runtime_error
  | some v ↦ strict_get k v
]

unfoldable pub get_timestamp : RobotState → Outcome (Value is_double)
unfolding get_or_throw
get_timestamp = get_or_throw is_double (codes "timestamp")

unfoldable pub get_target_q : RobotState → Outcome (Value is_vector_double)
unfolding get_or_throw
get_target_q = get_or_throw is_vector_double (codes "target_q")

unfoldable pub get_target_qd : RobotState → Outcome (Value is_vector_double)
unfolding get_or_throw
get_target_qd = get_or_throw is_vector_double (codes "target_qd")

unfoldable pub get_target_qdd : RobotState → Outcome (Value is_vector_double)
unfolding get_or_throw
get_target_qdd = get_or_throw is_vector_double (codes "target_qdd")

unfoldable pub get_target_current : RobotState → Outcome (Value is_vector_double)
unfolding get_or_throw
get_target_current = get_or_throw is_vector_double (codes "target_current")

unfoldable pub get_target_moment : RobotState → Outcome (Value is_vector_double)
unfolding get_or_throw
get_target_moment = get_or_throw is_vector_double (codes "target_moment")

unfoldable pub get_actual_q : RobotState → Outcome (Value is_vector_double)
unfolding get_or_throw
get_actual_q = get_or_throw is_vector_double (codes "actual_q")

unfoldable pub get_actual_qd : RobotState → Outcome (Value is_vector_double)
unfolding get_or_throw
get_actual_qd = get_or_throw is_vector_double (codes "actual_qd")

unfoldable pub get_actual_current : RobotState → Outcome (Value is_vector_double)
unfolding get_or_throw
get_actual_current = get_or_throw is_vector_double (codes "actual_current")

unfoldable pub get_joint_control_output : RobotState → Outcome (Value is_vector_double)
unfolding get_or_throw
get_joint_control_output = get_or_throw is_vector_double (codes "joint_control_output")

unfoldable pub get_actual_tcp_pose : RobotState → Outcome (Value is_vector_double)
unfolding get_or_throw
get_actual_tcp_pose = get_or_throw is_vector_double (codes "actual_TCP_pose")

unfoldable pub get_actual_tcp_speed : RobotState → Outcome (Value is_vector_double)
unfolding get_or_throw
get_actual_tcp_speed = get_or_throw is_vector_double (codes "actual_TCP_speed")

unfoldable pub get_actual_tcp_force : RobotState → Outcome (Value is_vector_double)
unfolding get_or_throw
get_actual_tcp_force = get_or_throw is_vector_double (codes "actual_TCP_force")

unfoldable pub get_target_tcp_pose : RobotState → Outcome (Value is_vector_double)
unfolding get_or_throw
get_target_tcp_pose = get_or_throw is_vector_double (codes "target_TCP_pose")

unfoldable pub get_target_tcp_speed : RobotState → Outcome (Value is_vector_double)
unfolding get_or_throw
get_target_tcp_speed = get_or_throw is_vector_double (codes "target_TCP_speed")

unfoldable pub get_actual_digital_input_bits : RobotState → Outcome (Value is_uint64)
unfolding get_or_throw
get_actual_digital_input_bits = get_or_throw is_uint64 (codes "actual_digital_input_bits")

unfoldable pub get_joint_temperatures : RobotState → Outcome (Value is_vector_double)
unfolding get_or_throw
get_joint_temperatures = get_or_throw is_vector_double (codes "joint_temperatures")

unfoldable pub get_actual_execution_time : RobotState → Outcome (Value is_double)
unfolding get_or_throw
get_actual_execution_time = get_or_throw is_double (codes "actual_execution_time")

unfoldable pub get_robot_mode : RobotState → Outcome (Value is_int32)
unfolding get_or_throw
get_robot_mode = get_or_throw is_int32 (codes "robot_mode")

unfoldable pub get_robot_status : RobotState → Outcome (Value is_uint32)
unfolding get_or_throw
get_robot_status = get_or_throw is_uint32 (codes "robot_status_bits")

unfoldable pub get_joint_mode : RobotState → Outcome (Value is_vector_int32)
unfolding get_or_throw
get_joint_mode = get_or_throw is_vector_int32 (codes "joint_mode")

unfoldable pub get_safety_mode : RobotState → Outcome (Value is_int32)
unfolding get_or_throw
get_safety_mode = get_or_throw is_int32 (codes "safety_mode")

unfoldable pub get_safety_status_bits : RobotState → Outcome (Value is_uint32)
unfolding get_or_throw
get_safety_status_bits = get_or_throw is_uint32 (codes "safety_status_bits")

unfoldable pub get_actual_tool_accelerometer : RobotState → Outcome (Value is_vector_double)
unfolding get_or_throw
get_actual_tool_accelerometer = get_or_throw is_vector_double (codes "actual_tool_accelerometer")

unfoldable pub get_speed_scaling : RobotState → Outcome (Value is_double)
unfolding get_or_throw
get_speed_scaling = get_or_throw is_double (codes "speed_scaling")

unfoldable pub get_target_speed_fraction : RobotState → Outcome (Value is_double)
unfolding get_or_throw
get_target_speed_fraction = get_or_throw is_double (codes "target_speed_fraction")

unfoldable pub get_actual_momentum : RobotState → Outcome (Value is_double)
unfolding get_or_throw
get_actual_momentum = get_or_throw is_double (codes "actual_momentum")

unfoldable pub get_actual_main_voltage : RobotState → Outcome (Value is_double)
unfolding get_or_throw
get_actual_main_voltage = get_or_throw is_double (codes "actual_main_voltage")

unfoldable pub get_actual_robot_voltage : RobotState → Outcome (Value is_double)
unfolding get_or_throw
get_actual_robot_voltage = get_or_throw is_double (codes "actual_robot_voltage")

unfoldable pub get_actual_robot_current : RobotState → Outcome (Value is_double)
unfolding get_or_throw
get_actual_robot_current = get_or_throw is_double (codes "actual_robot_current")

unfoldable pub get_actual_joint_voltage : RobotState → Outcome (Value is_vector_double)
unfolding get_or_throw
get_actual_joint_voltage = get_or_throw is_vector_double (codes "actual_joint_voltage")

unfoldable pub get_actual_digital_output_bits : RobotState → Outcome (Value is_uint64)
unfolding get_or_throw
get_actual_digital_output_bits = get_or_throw is_uint64 (codes "actual_digital_output_bits")

unfoldable pub get_runtime_state : RobotState → Outcome (Value is_uint32)
unfolding get_or_throw
get_runtime_state = get_or_throw is_uint32 (codes "runtime_state")

unfoldable pub get_standard_analog_input0 : RobotState → Outcome (Value is_double)
unfolding get_or_throw
get_standard_analog_input0 = get_or_throw is_double (codes "standard_analog_input0")

unfoldable pub get_standard_analog_input1 : RobotState → Outcome (Value is_double)
unfolding get_or_throw
get_standard_analog_input1 = get_or_throw is_double (codes "standard_analog_input1")

unfoldable pub get_standard_analog_output0 : RobotState → Outcome (Value is_double)
unfolding get_or_throw
get_standard_analog_output0 = get_or_throw is_double (codes "standard_analog_output0")

unfoldable pub get_standard_analog_output1 : RobotState → Outcome (Value is_double)
unfolding get_or_throw
get_standard_analog_output1 = get_or_throw is_double (codes "standard_analog_output1")

unfoldable pub get_payload : RobotState → Outcome (Value is_double)
unfolding get_or_throw
get_payload = get_or_throw is_double (codes "payload")

unfoldable pub get_payload_cog : RobotState → Outcome (Value is_vector_double)
unfolding get_or_throw
get_payload_cog = get_or_throw is_vector_double (codes "payload_cog")

unfoldable pub get_payload_inertia : RobotState → Outcome (Value is_vector_double)
unfolding get_or_throw
get_payload_inertia = get_or_throw is_vector_double (codes "payload_inertia")

-- An empty wrench is an error of its own.
unfoldable pub get_ft_raw_wrench : RobotState → Outcome (List ℕ)
unfolding get_or_throw
get_ft_raw_wrench s = do
  wrench ← get_or_throw is_vector_double (codes "ft_raw_wrench") s
  (if is_empty wrench then throws runtime_error else ok wrench)

-- `std::bitset::test`.
unfoldable pub test_bit : ℕ → ℕ → ℕ → Outcome Bool
test_bit width bits i = if ltb i width then ok (bits / 2 ^ i % 2 == 1) else throws out_of_range

unfoldable pub get_digital_in_state : ℕ → RobotState → Outcome Bool
unfolding get_actual_digital_input_bits test_bit
get_digital_in_state input_id s = do
  input_bits ← get_actual_digital_input_bits s
  test_bit 64 input_bits input_id

unfoldable pub get_digital_out_state : ℕ → RobotState → Outcome Bool
unfolding get_actual_digital_output_bits test_bit
get_digital_out_state output_id s = do
  output_bits ← get_actual_digital_output_bits s
  test_bit 64 output_bits output_id

unfoldable pub is_protective_stopped : RobotState → Outcome Bool
unfolding get_safety_status_bits test_bit
is_protective_stopped s = do bits ← get_safety_status_bits s; test_bit 32 bits 2

unfoldable pub is_emergency_stopped : RobotState → Outcome Bool
unfolding get_safety_status_bits test_bit
is_emergency_stopped s = do bits ← get_safety_status_bits s; test_bit 32 bits 7

-- `isWithinBounds`; an `int` is its bit pattern, so a negative one lies above every bound.
abbrev pub is_within_bounds : ℕ → ℕ → ℕ → Bool
is_within_bounds value low high = leb low value && leb value high

-- The numbers that the register getters accept.
abbrev pub is_output_register : Bool → ℕ → Bool
is_output_register use_upper_range_registers output_id =
    if use_upper_range_registers
    then is_within_bounds output_id 36 43
    else is_within_bounds output_id 12 19

unfoldable pub get_output_int_register : Bool → ℕ → RobotState → Outcome ℕ
unfolding get_or_throw
get_output_int_register use_upper_range_registers output_id s =
    if not (is_output_register use_upper_range_registers output_id)
    then throws range_error
    else get_or_throw is_int32 (out_int_reg 0 output_id) s

unfoldable pub get_output_double_register : Bool → ℕ → RobotState → Outcome ℕ
unfolding get_or_throw
get_output_double_register use_upper_range_registers output_id s =
    if not (is_output_register use_upper_range_registers output_id)
    then throws range_error
    else get_or_throw is_double (out_double_reg 0 output_id) s
