-- ===== src/Io.antt =====
-- src/rtde_io_interface.cpp: the input recipes and the operations of `RTDEIOInterface`.
-- Every operation builds a command and ends in `sendCommand`, which is an argument here.
pub mod Packages
pub mod RegisterOps
use ur_rtde_fork_custom.Base.{
  ℕ, ◌+◌, ◌*◌, ◌%◌, ◌^◌, Bool, List, [], ◌∷◌, ltb, ◌==◌, if◌then◌else◌, codes,
}
use ur_rtde_fork_custom.Base.Outcome.{Outcome, ok, throws, fault, range_error, ◌>>=◌}
use ur_rtde_fork_custom.Rtde.Command.{RobotCommand, CommandType, robot_command}
use ur_rtde_fork_custom.Rtde.Registers.{in_int_reg, in_double_reg}

abbrev pub register_offset : Bool → ℕ
register_offset use_upper_range_registers = if use_upper_range_registers then 24 else 0

-- The arguments of the `sendInputSetup` calls of `setupRecipes`, in their order.
unfoldable pub setup_recipes : ℕ → List (List (List ℕ))
setup_recipes offset =
    let cmd = in_int_reg offset 23 in
    (cmd ∷ [])
    ∷ (cmd ∷ codes "standard_digital_output_mask" ∷ codes "standard_digital_output" ∷ [])
    ∷ (cmd ∷ codes "tool_digital_output_mask" ∷ codes "tool_digital_output" ∷ [])
    ∷ (cmd ∷ codes "speed_slider_mask" ∷ codes "speed_slider_fraction" ∷ [])
    ∷ (cmd
        ∷ codes "standard_analog_output_mask"
        ∷ codes "standard_analog_output_type"
        ∷ codes "standard_analog_output_0"
        ∷ codes "standard_analog_output_1"
        ∷ [])
    ∷ (cmd ∷ codes "configurable_digital_output_mask" ∷ codes "configurable_digital_output" ∷ [])
    ∷ (cmd ∷ in_int_reg offset 18 ∷ [])
    ∷ (cmd ∷ in_int_reg offset 19 ∷ [])
    ∷ (cmd ∷ in_int_reg offset 20 ∷ [])
    ∷ (cmd ∷ in_int_reg offset 21 ∷ [])
    ∷ (cmd ∷ in_int_reg offset 22 ∷ [])
    ∷ (cmd ∷ in_double_reg offset 18 ∷ [])
    ∷ (cmd ∷ in_double_reg offset 19 ∷ [])
    ∷ (cmd ∷ in_double_reg offset 20 ∷ [])
    ∷ (cmd ∷ in_double_reg offset 21 ∷ [])
    ∷ (cmd ∷ in_double_reg offset 22 ∷ [])
    ∷ []

-- `static_cast<uint8_t>(1u << output_id)`: a shift by 32 or more is undefined.
unfoldable pub bit_mask : ℕ → Outcome ℕ
bit_mask output_id = if ltb output_id 32 then ok (2 ^ output_id % 2 ^ 8) else fault

-- The recipe that `setInputIntRegister` (from 7 on) and `setInputDoubleRegister` (from 12 on)
-- choose by the register's number.
unfoldable pub register_recipe : Bool → ℕ → ℕ → Outcome ℕ
register_recipe use_upper_range_registers first input_id =
    let base = if use_upper_range_registers then 42 else 18 in
    if input_id == base
    then ok first
    else if input_id == base + 1
    then ok (first + 1)
    else if input_id == base + 2
    then ok (first + 2)
    else if input_id == base + 3
    then ok (first + 3)
    else if input_id == base + 4
    then ok (first + 4)
    else throws range_error

-- `memory` is what the command object holds before its constructor runs.
module _ {W : Type 0} (send_command : RobotCommand → W → Outcome (Bool × W))
    (use_upper_range_registers : Bool) (memory : RobotCommand) where
  unfoldable pub set_configurable_digital_out : ℕ → Bool → W → Outcome (Bool × W)
  unfolding bit_mask robot_command
  set_configurable_digital_out output_id signal_level w = do
    mask ← bit_mask output_id
    let robot_cmd = robot_command memory
    send_command
        (record robot_cmd {
          type = CommandType.set_conf_digital_out;
          recipe_id = 6;
          configurable_digital_out_mask = mask;
          configurable_digital_out = if signal_level then mask else 0;
        })
        w

  unfoldable pub set_standard_digital_out : ℕ → Bool → W → Outcome (Bool × W)
  unfolding bit_mask robot_command
  set_standard_digital_out output_id signal_level w = do
    mask ← bit_mask output_id
    let robot_cmd = robot_command memory
    send_command
        (record robot_cmd {
          type = CommandType.set_std_digital_out;
          recipe_id = 2;
          std_digital_out_mask = mask;
          std_digital_out = if signal_level then mask else 0;
        })
        w

  unfoldable pub set_tool_digital_out : ℕ → Bool → W → Outcome (Bool × W)
  unfolding bit_mask robot_command
  set_tool_digital_out output_id signal_level w = do
    mask ← bit_mask output_id
    let robot_cmd = robot_command memory
    send_command
        (record robot_cmd {
          type = CommandType.set_tool_digital_out;
          recipe_id = 3;
          std_tool_out_mask = mask;
          std_tool_out = if signal_level then mask else 0;
        })
        w

  unfoldable pub set_speed_slider : ℕ → W → Outcome (Bool × W)
  unfolding robot_command
  set_speed_slider speed w =
      let robot_cmd = robot_command memory in
      send_command
        (record robot_cmd {
          type = CommandType.set_speed_slider;
          recipe_id = 4;
          speed_slider_mask = 1;
          speed_slider_fraction = speed;
        })
        w

  -- The part that `setAnalogOutputVoltage` (type 1) and `setAnalogOutputCurrent` (type 0) share.
  -- The output that is not named keeps its indeterminate value.
  unfoldable pub set_analog_output : ℕ → ℕ → ℕ → W → Outcome (Bool × W)
  unfolding bit_mask robot_command
  set_analog_output output_type output_id ratio w = do
    mask ← bit_mask output_id
    let robot_cmd = robot_command memory
    send_command
        (record robot_cmd {
          type = CommandType.set_std_analog_out;
          recipe_id = 5;
          std_analog_output_mask = mask;
          std_analog_output_type = output_type;
          std_analog_output_0 = if output_id == 0 then ratio else memory.std_analog_output_0;
          std_analog_output_1 = if output_id == 1 then ratio else memory.std_analog_output_1;
        })
        w

  unfoldable pub set_analog_output_voltage : ℕ → ℕ → W → Outcome (Bool × W)
  unfolding set_analog_output
  set_analog_output_voltage = set_analog_output 1

  unfoldable pub set_analog_output_current : ℕ → ℕ → W → Outcome (Bool × W)
  unfolding set_analog_output
  set_analog_output_current = set_analog_output 0

  unfoldable pub set_input_int_register : ℕ → ℕ → W → Outcome (Bool × W)
  unfolding register_recipe robot_command
  set_input_int_register input_id value w = do
    recipe ← register_recipe use_upper_range_registers 7 input_id
    let robot_cmd = robot_command memory
    send_command
        (record robot_cmd {
          type = CommandType.set_input_int_register;
          recipe_id = recipe;
          reg_int_val = value;
        })
        w

  unfoldable pub set_input_double_register : ℕ → ℕ → W → Outcome (Bool × W)
  unfolding register_recipe robot_command
  set_input_double_register input_id value w = do
    recipe ← register_recipe use_upper_range_registers 12 input_id
    let robot_cmd = robot_command memory
    send_command
        (record robot_cmd {
          type = CommandType.set_input_double_register;
          recipe_id = recipe;
          reg_double_val = value;
        })
        w
