-- ===== src/Rtde/Send.antt =====
-- `RTDE::send` of src/rtde.cpp: the payload of a data package, and the frame that `sendAll` puts
-- round a payload.
use ur_rtde_fork_custom.Base.{
  ℕ, ◌+◌, ◌%◌, ◌^◌, Bool, ◌||◌, not, List, [], ◌∷◌, ◌++◌, length, is_empty, if◌then◌else◌,
}
use ur_rtde_fork_custom.Utility.{
  pack_int32, pack_uint32, pack_vector_n_int32, pack_double, pack_vector_nd, byte_of,
}
use ur_rtde_fork_custom.Rtde.Command.{
  CommandType, RobotCommand, command_code, is_type, ft_rtde_input_enable, enable_external_ft_sensor,
  freedrive_mode, set_input_int_register, set_input_double_register, watchdog, no_cmd, force_mode,
  get_actual_joint_positions_history, movej, movej_ik, movel, movel_fk, move_path, stopj, stopl,
  set_std_digital_out, set_conf_digital_out, set_tool_digital_out, set_speed_slider,
  set_std_analog_out,
}

-- A block `if (test) { cmd_packed.insert(cmd_packed.end(), bytes...); }`.
abbrev pub append_if : Bool → List ℕ → List ℕ → List ℕ
append_if test bytes cmd_packed = if test then cmd_packed ++ bytes else cmd_packed

abbrev pub has_async : CommandType → Bool
has_async t =
    is_type t movej
    || is_type t movej_ik
    || is_type t movel
    || is_type t movel_fk
    || is_type t move_path
    || is_type t stopj
    || is_type t stopl

-- The blocks of `send` up to the vector of doubles.
unfoldable pub pack_head : RobotCommand → List ℕ
unfolding command_code
pack_head cmd =
    let p0 = pack_int32 (command_code cmd.type) in
    let p1 =
      append_if
        (is_type cmd.type ft_rtde_input_enable || is_type cmd.type enable_external_ft_sensor)
        (pack_int32 cmd.ft_rtde_input_enable) p0 in
    let p2 = append_if (is_type cmd.type freedrive_mode) (pack_vector_n_int32 cmd.free_axes) p1 in
    let p3 = append_if (is_type cmd.type set_input_int_register) (pack_int32 cmd.reg_int_val) p2 in
    let p4 =
      append_if (is_type cmd.type set_input_double_register) (pack_double cmd.reg_double_val) p3 in
    let p5 = if is_type cmd.type watchdog then pack_int32 (command_code no_cmd) else p4 in
    let p6 =
      append_if (is_type cmd.type force_mode)
        (pack_int32 cmd.force_mode_type ++ pack_vector_n_int32 cmd.selection_vector) p5 in
    append_if (is_type cmd.type get_actual_joint_positions_history) (pack_uint32 cmd.steps) p6

-- The blocks behind it.
unfoldable pub pack_tail : RobotCommand → List ℕ → List ℕ
unfolding command_code
pack_tail cmd p0 =
    let p1 = append_if (has_async cmd.type) (pack_int32 cmd.async) p0 in
    let p2 =
      append_if (is_type cmd.type set_std_digital_out)
        (cmd.std_digital_out_mask ∷ cmd.std_digital_out ∷ []) p1 in
    let p3 =
      append_if (is_type cmd.type set_conf_digital_out)
        (cmd.configurable_digital_out_mask ∷ cmd.configurable_digital_out ∷ []) p2 in
    let p4 =
      append_if (is_type cmd.type set_tool_digital_out)
        (cmd.std_tool_out_mask ∷ cmd.std_tool_out ∷ []) p3 in
    let p5 =
      append_if (is_type cmd.type set_speed_slider)
        (pack_int32 cmd.speed_slider_mask ++ pack_double cmd.speed_slider_fraction) p4 in
    append_if (is_type cmd.type set_std_analog_out)
      (cmd.std_analog_output_mask
        ∷ cmd.std_analog_output_type
        ∷ (pack_double cmd.std_analog_output_0 ++ pack_double cmd.std_analog_output_1))
      p5

-- The text `sent` of `send`: the recipe in front of the packed command.
unfoldable pub send_payload : RobotCommand → List ℕ
unfolding pack_head pack_tail
send_payload cmd =
    let head = pack_head cmd in
    let vals = append_if (not (is_empty cmd.val)) (pack_vector_nd cmd.val) head in
    cmd.recipe_id ∷ pack_tail cmd vals

abbrev pub header_size : ℕ
header_size = 3

-- `header_packed` of `sendAll`: the `uint16_t` size in network byte order, the command, the payload.
unfoldable pub frame : ℕ → List ℕ → List ℕ
frame command payload =
    let size = (header_size + length payload % 2 ^ 16) % 2 ^ 16 in
    byte_of 1 size ∷ byte_of 0 size ∷ command ∷ payload
