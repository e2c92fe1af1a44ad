-- ===== src/Receive/AllGetters.antt =====
-- The getters of `RTDEReceiveInterface` on the states that it can reach.
use ur_rtde_fork_custom.Base.{ℕ, ◌≡◌, refl, Bool, true, List, [], ◌∷◌, codes, some}
use ur_rtde_fork_custom.Rtde.StateTypes.{
  Variant, uint32, uint64, int32, double, vector_double, vector_int32, find, state_types,
}
use ur_rtde_fork_custom.Rtde.RobotState.{RobotState}
use ur_rtde_fork_custom.Rtde.RobotState.Kind.{kind}
use ur_rtde_fork_custom.Receive.{
  Version, base_variables, setup_variables, reports_wrench, reports_payload, reports_inertia,
  reports_registers,
}
use ur_rtde_fork_custom.Receive.Ready.{
  Reached, Returns, contains, contains_kept, get_or_throw-Returns,
}
use ur_rtde_fork_custom.Receive.Getters.{
  get_or_throw, get_timestamp, get_target_q, get_target_qd, get_target_qdd, get_target_current,
  get_target_moment, get_actual_q, get_actual_qd, get_actual_current, get_joint_control_output,
  get_actual_tcp_pose, get_actual_tcp_speed, get_actual_tcp_force, get_target_tcp_pose,
  get_target_tcp_speed, get_actual_digital_input_bits, get_joint_temperatures,
  get_actual_execution_time, get_robot_mode, get_robot_status, get_joint_mode, get_safety_mode,
  get_safety_status_bits, get_actual_tool_accelerometer, get_speed_scaling,
  get_target_speed_fraction, get_actual_momentum, get_actual_main_voltage, get_actual_robot_voltage,
  get_actual_robot_current, get_actual_joint_voltage, get_actual_digital_output_bits,
  get_runtime_state, get_standard_analog_input0, get_standard_analog_input1,
  get_standard_analog_output0, get_standard_analog_output1,
}

base-contains :
    (upper : Bool) (version : Version) (name : List ℕ)
    → contains name base_variables ≡ true
    → contains name (setup_variables upper version []) ≡ true
unfolding setup_variables
base-contains upper version name h =
    let wrench = codes "ft_raw_wrench" ∷ [] in
    let payload = codes "payload" ∷ codes "payload_cog" ∷ [] in
    let inertia = codes "payload_inertia" ∷ [] in
    contains_kept (reports_registers upper version) name _ _ (
      contains_kept (reports_inertia version) name inertia _ (
        contains_kept (reports_payload version) name payload _
          (contains_kept (reports_wrench version) name wrench base_variables h)))

-- Every getter of a variable of the default list returns.
abbrev pub AllReturn : RobotState → Type 0
AllReturn s =
    Returns (get_timestamp s)
    × Returns (get_target_q s)
    × Returns (get_target_qd s)
    × Returns (get_target_qdd s)
    × Returns (get_target_current s)
    × Returns (get_target_moment s)
    × Returns (get_actual_q s)
    × Returns (get_actual_qd s)
    × Returns (get_actual_current s)
    × Returns (get_joint_control_output s)
    × Returns (get_actual_tcp_pose s)
    × Returns (get_actual_tcp_speed s)
    × Returns (get_actual_tcp_force s)
    × Returns (get_target_tcp_pose s)
    × Returns (get_target_tcp_speed s)
    × Returns (get_actual_digital_input_bits s)
    × Returns (get_joint_temperatures s)
    × Returns (get_actual_execution_time s)
    × Returns (get_robot_mode s)
    × Returns (get_robot_status s)
    × Returns (get_joint_mode s)
    × Returns (get_safety_mode s)
    × Returns (get_safety_status_bits s)
    × Returns (get_actual_tool_accelerometer s)
    × Returns (get_speed_scaling s)
    × Returns (get_target_speed_fraction s)
    × Returns (get_actual_momentum s)
    × Returns (get_actual_main_voltage s)
    × Returns (get_actual_robot_voltage s)
    × Returns (get_actual_robot_current s)
    × Returns (get_actual_joint_voltage s)
    × Returns (get_actual_digital_output_bits s)
    × Returns (get_runtime_state s)
    × Returns (get_standard_analog_input0 s)
    × Returns (get_standard_analog_input1 s)
    × Returns (get_standard_analog_output0 s)
    × Returns (get_standard_analog_output1 s)

-- With the default variables, whatever the controller's version and the range of the registers, every
-- getter of a variable that is always asked for returns a value of its own type in every state that the
-- receive thread reaches: the variable is there, and no data package has changed its type.
pub getters_ready :
    (upper : Bool) (version : Version) {buffer : List ℕ} {s : RobotState}
    → Reached (setup_variables upper version []) buffer s
    → AllReturn s
unfolding get_timestamp get_target_q get_target_qd get_target_qdd get_target_current
    get_target_moment get_actual_q get_actual_qd get_actual_current get_joint_control_output
    get_actual_tcp_pose get_actual_tcp_speed get_actual_tcp_force get_target_tcp_pose
    get_target_tcp_speed get_actual_digital_input_bits get_joint_temperatures
    get_actual_execution_time get_robot_mode get_robot_status get_joint_mode get_safety_mode
    get_safety_status_bits get_actual_tool_accelerometer get_speed_scaling get_target_speed_fraction
    get_actual_momentum get_actual_main_voltage get_actual_robot_voltage get_actual_robot_current
    get_actual_joint_voltage get_actual_digital_output_bits get_runtime_state
    get_standard_analog_input0 get_standard_analog_input1 get_standard_analog_output0
    get_standard_analog_output1 find state_types contains base_variables
getters_ready upper version {s = s} r = (
  ready (codes "timestamp") (double 0) refl refl,
  ready (codes "target_q") (vector_double []) refl refl,
  ready (codes "target_qd") (vector_double []) refl refl,
  ready (codes "target_qdd") (vector_double []) refl refl,
  ready (codes "target_current") (vector_double []) refl refl,
  ready (codes "target_moment") (vector_double []) refl refl,
  ready (codes "actual_q") (vector_double []) refl refl,
  ready (codes "actual_qd") (vector_double []) refl refl,
  ready (codes "actual_current") (vector_double []) refl refl,
  ready (codes "joint_control_output") (vector_double []) refl refl,
  ready (codes "actual_TCP_pose") (vector_double []) refl refl,
  ready (codes "actual_TCP_speed") (vector_double []) refl refl,
  ready (codes "actual_TCP_force") (vector_double []) refl refl,
  ready (codes "target_TCP_pose") (vector_double []) refl refl,
  ready (codes "target_TCP_speed") (vector_double []) refl refl,
  ready (codes "actual_digital_input_bits") (uint64 0) refl refl,
  ready (codes "joint_temperatures") (vector_double []) refl refl,
  ready (codes "actual_execution_time") (double 0) refl refl,
  ready (codes "robot_mode") (int32 0) refl refl,
  ready (codes "robot_status_bits") (uint32 0) refl refl,
  ready (codes "joint_mode") (vector_int32 []) refl refl,
  ready (codes "safety_mode") (int32 0) refl refl,
  ready (codes "safety_status_bits") (uint32 0) refl refl,
  ready (codes "actual_tool_accelerometer") (vector_double []) refl refl,
  ready (codes "speed_scaling") (double 0) refl refl,
  ready (codes "target_speed_fraction") (double 0) refl refl,
  ready (codes "actual_momentum") (double 0) refl refl,
  ready (codes "actual_main_voltage") (double 0) refl refl,
  ready (codes "actual_robot_voltage") (double 0) refl refl,
  ready (codes "actual_robot_current") (double 0) refl refl,
  ready (codes "actual_joint_voltage") (vector_double []) refl refl,
  ready (codes "actual_digital_output_bits") (uint64 0) refl refl,
  ready (codes "runtime_state") (uint32 0) refl refl,
  ready (codes "standard_analog_input0") (double 0) refl refl,
  ready (codes "standard_analog_input1") (double 0) refl refl,
  ready (codes "standard_analog_output0") (double 0) refl refl,
  ready (codes "standard_analog_output1") (double 0) refl refl,
)
  where
    ready :
        (name : List ℕ) (entry : Variant)
        → find name state_types ≡ some entry
        → contains name base_variables ≡ true
        → Returns (get_or_throw (kind entry) name s)
    ready name entry known c =
        get_or_throw-Returns name entry known (base-contains upper version name c) r
