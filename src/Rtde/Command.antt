-- ===== src/Rtde/Command.antt =====
-- `RTDE::RobotCommand` and the enumerations of include/ur_rtde/rtde.h.
use ur_rtde_fork_custom.Base.{ℕ, Bool, List, [], ◌==◌}

-- `RobotCommand::Type`.
pub data CommandType : Type 0 where
  no_cmd movej movej_ik movel movel_fk force_mode force_mode_stop zero_ft_sensor speedj speedl :
      CommandType
  servoj servoc set_std_digital_out set_tool_digital_out speed_stop servo_stop set_payload :
      CommandType
  teach_mode end_teach_mode force_mode_set_damping force_mode_set_gain_scaling set_speed_slider :
      CommandType
  set_std_analog_out servol tool_contact get_steptime get_actual_joint_positions_history :
      CommandType
  get_target_waypoint set_tcp get_inverse_kinematics_args protective_stop stopl stopj : CommandType
  set_watchdog is_pose_within_safety_limits is_joints_within_safety_limits get_joint_torques :
      CommandType
  pose_trans get_tcp_offset jog_start jog_stop get_forward_kinematics_default : CommandType
  get_forward_kinematics_args move_path get_inverse_kinematics_default is_steady : CommandType
  set_conf_digital_out set_input_int_register set_input_double_register move_until_contact :
      CommandType
  freedrive_mode end_freedrive_mode get_freedrive_status set_external_force_torque : CommandType
  ft_rtde_input_enable enable_external_ft_sensor get_actual_tool_flange_pose set_gravity :
      CommandType
  get_inverse_kinematics_has_solution_default get_inverse_kinematics_has_solution_args : CommandType
  start_contact_detection stop_contact_detection read_contact_detection set_target_payload :
      CommandType
  watchdog stop_script : CommandType

-- The enumerator's value, which goes over the wire.
unfoldable pub command_code : CommandType → ℕ
command_code no_cmd = 0
command_code movej = 1
command_code movej_ik = 2
command_code movel = 3
command_code movel_fk = 4
command_code force_mode = 6
command_code force_mode_stop = 7
command_code zero_ft_sensor = 8
command_code speedj = 9
command_code speedl = 10
command_code servoj = 11
command_code servoc = 12
command_code set_std_digital_out = 13
command_code set_tool_digital_out = 14
command_code speed_stop = 15
command_code servo_stop = 16
command_code set_payload = 17
command_code teach_mode = 18
command_code end_teach_mode = 19
command_code force_mode_set_damping = 20
command_code force_mode_set_gain_scaling = 21
command_code set_speed_slider = 22
command_code set_std_analog_out = 23
command_code servol = 24
command_code tool_contact = 25
command_code get_steptime = 26
command_code get_actual_joint_positions_history = 27
command_code get_target_waypoint = 28
command_code set_tcp = 29
command_code get_inverse_kinematics_args = 30
command_code protective_stop = 31
command_code stopl = 33
command_code stopj = 34
command_code set_watchdog = 35
command_code is_pose_within_safety_limits = 36
command_code is_joints_within_safety_limits = 37
command_code get_joint_torques = 38
command_code pose_trans = 39
command_code get_tcp_offset = 40
command_code jog_start = 41
command_code jog_stop = 42
command_code get_forward_kinematics_default = 43
command_code get_forward_kinematics_args = 44
command_code move_path = 45
command_code get_inverse_kinematics_default = 46
command_code is_steady = 47
command_code set_conf_digital_out = 48
command_code set_input_int_register = 49
command_code set_input_double_register = 50
command_code move_until_contact = 51
command_code freedrive_mode = 52
command_code end_freedrive_mode = 53
command_code get_freedrive_status = 54
command_code set_external_force_torque = 55
command_code ft_rtde_input_enable = 56
command_code enable_external_ft_sensor = 57
command_code get_actual_tool_flange_pose = 58
command_code set_gravity = 59
command_code get_inverse_kinematics_has_solution_default = 60
command_code get_inverse_kinematics_has_solution_args = 61
command_code start_contact_detection = 62
command_code stop_contact_detection = 63
command_code read_contact_detection = 64
command_code set_target_payload = 65
command_code watchdog = 99
command_code stop_script = 255

-- `==` of two enumerators.
abbrev pub is_type : CommandType → CommandType → Bool
is_type t u = command_code t == command_code u

-- The members of `RobotCommand`; bytes, words and doubles are bit patterns.
pub record RobotCommand : Type 0 where
  pub type : CommandType
  pub recipe_id : ℕ
  pub async : ℕ
  pub ft_rtde_input_enable : ℕ
  pub reg_int_val : ℕ
  pub reg_double_val : ℕ
  pub val : List ℕ
  pub selection_vector : List ℕ
  pub free_axes : List ℕ
  pub force_mode_type : ℕ
  pub std_digital_out : ℕ
  pub std_digital_out_mask : ℕ
  pub configurable_digital_out : ℕ
  pub configurable_digital_out_mask : ℕ
  pub std_tool_out : ℕ
  pub std_tool_out_mask : ℕ
  pub std_analog_output_mask : ℕ
  pub std_analog_output_type : ℕ
  pub std_analog_output_0 : ℕ
  pub std_analog_output_1 : ℕ
  pub speed_slider_mask : ℕ
  pub speed_slider_fraction : ℕ
  pub steps : ℕ

-- The constructor sets the type and the recipe, and the vectors are empty. Every other member is
-- indeterminate: it keeps what `memory` happens to hold.
unfoldable pub robot_command : RobotCommand → RobotCommand
robot_command memory = record memory {
  type = no_cmd;
  recipe_id = 1;
  val = [];
  selection_vector = [];
  free_axes = [];
}

-- `RTDECommand`.
pub data RtdeCommand : Type 0 where
  rtde_request_protocol_version rtde_get_urcontrol_version rtde_text_message : RtdeCommand
  rtde_data_package rtde_control_package_setup_outputs : RtdeCommand
  rtde_control_package_setup_inputs rtde_control_package_start : RtdeCommand
  rtde_control_package_pause : RtdeCommand

unfoldable pub rtde_code : RtdeCommand → ℕ
rtde_code rtde_request_protocol_version = 86
rtde_code rtde_get_urcontrol_version = 118
rtde_code rtde_text_message = 77
rtde_code rtde_data_package = 85
rtde_code rtde_control_package_setup_outputs = 79
rtde_code rtde_control_package_setup_inputs = 73
rtde_code rtde_control_package_start = 83
rtde_code rtde_control_package_pause = 80

-- `ConnectionState`.
pub data ConnectionState : Type 0 where
  disconnected connected started paused : ConnectionState
