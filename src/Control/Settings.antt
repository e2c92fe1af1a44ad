-- ===== src/Control/Settings.antt =====
-- The commands of src/rtde_control_interface.cpp that set a mode or a parameter of the robot.
use ur_rtde_fork_custom.Base.{ℕ, Bool, not, List, [], ◌∷◌, ◌++◌, if◌then◌else◌, is_empty, replicate}
use ur_rtde_fork_custom.Base.Outcome.{Outcome, throws, logic_error}
use ur_rtde_fork_custom.Rtde.Command.{RobotCommand, CommandType, robot_command}
use ur_rtde_fork_custom.Control.Port.{Port}

module _ {W : Type 0} (port : Port W) (memory : RobotCommand) where
  unfoldable pub force_mode : List ℕ → List ℕ → List ℕ → ℕ → List ℕ → W → Outcome (Bool × W)
  unfolding robot_command
  force_mode task_frame selection_vector wrench type limits w = do
    let robot_cmd = robot_command memory
    port.send_command
        (record robot_cmd {
          type = CommandType.force_mode;
          recipe_id = 3;
          val = (task_frame ++ wrench) ++ limits;
          selection_vector = selection_vector;
          force_mode_type = type;
        })
        w

  unfoldable pub force_mode_stop : W → Outcome (Bool × W)
  unfolding robot_command
  force_mode_stop w = do
    let robot_cmd = robot_command memory
    port.send_command (record robot_cmd { type = CommandType.force_mode_stop; recipe_id = 4 }) w

  unfoldable pub zero_ft_sensor : W → Outcome (Bool × W)
  unfolding robot_command
  zero_ft_sensor w = do
    let robot_cmd = robot_command memory
    port.send_command (record robot_cmd { type = CommandType.zero_ft_sensor; recipe_id = 4 }) w

  unfoldable pub teach_mode : W → Outcome (Bool × W)
  unfolding robot_command
  teach_mode w = do
    let robot_cmd = robot_command memory
    port.send_command (record robot_cmd { type = CommandType.teach_mode; recipe_id = 4 }) w

  unfoldable pub end_teach_mode : W → Outcome (Bool × W)
  unfolding robot_command
  end_teach_mode w = do
    let robot_cmd = robot_command memory
    port.send_command (record robot_cmd { type = CommandType.end_teach_mode; recipe_id = 4 }) w

  unfoldable pub trigger_protective_stop : W → Outcome (Bool × W)
  unfolding robot_command
  trigger_protective_stop w = do
    let robot_cmd = robot_command memory
    port.send_command (record robot_cmd { type = CommandType.protective_stop; recipe_id = 4 }) w

  unfoldable pub end_freedrive_mode : W → Outcome (Bool × W)
  unfolding robot_command
  end_freedrive_mode w = do
    let robot_cmd = robot_command memory
    port.send_command (record robot_cmd { type = CommandType.end_freedrive_mode; recipe_id = 4 }) w

  -- The source drops the result.
  unfoldable pub stop_script : W → Outcome (Bool × W)
  unfolding robot_command
  stop_script w = do
    let robot_cmd = robot_command memory
    port.send_command (record robot_cmd { type = CommandType.stop_script; recipe_id = 4 }) w

  unfoldable pub kick_watchdog : W → Outcome (Bool × W)
  unfolding robot_command
  kick_watchdog w = do
    let robot_cmd = robot_command memory
    port.send_command (record robot_cmd { type = CommandType.watchdog; recipe_id = 11 }) w

  unfoldable pub force_mode_set_damping : ℕ → W → Outcome (Bool × W)
  unfolding robot_command
  force_mode_set_damping damping w = do
    let robot_cmd = robot_command memory
    port.send_command
        (record robot_cmd {
          type = CommandType.force_mode_set_damping;
          recipe_id = 8;
          val = damping ∷ [];
        })
        w

  unfoldable pub force_mode_set_gain_scaling : ℕ → W → Outcome (Bool × W)
  unfolding robot_command
  force_mode_set_gain_scaling scaling w = do
    let robot_cmd = robot_command memory
    port.send_command
        (record robot_cmd {
          type = CommandType.force_mode_set_gain_scaling;
          recipe_id = 8;
          val = scaling ∷ [];
        })
        w

  unfoldable pub set_watchdog : ℕ → W → Outcome (Bool × W)
  unfolding robot_command
  set_watchdog min_frequency w = do
    let robot_cmd = robot_command memory
    port.send_command
        (record robot_cmd {
          type = CommandType.set_watchdog;
          recipe_id = 8;
          val = min_frequency ∷ [];
        })
        w

  unfoldable pub set_payload : ℕ → List ℕ → W → Outcome (Bool × W)
  unfolding robot_command
  set_payload mass cog w = do
    let robot_cmd = robot_command memory
    port.send_command
        (record robot_cmd {
          type = CommandType.set_payload;
          recipe_id = 7;
          val = mass ∷ (if not (is_empty cog) then cog else replicate 3 0);
        })
        w

  unfoldable pub set_target_payload : ℕ → List ℕ → List ℕ → W → Outcome (Bool × W)
  unfolding robot_command
  set_target_payload mass cog inertia w = do
    let robot_cmd = robot_command memory
    port.send_command
        (record robot_cmd {
          type = CommandType.set_target_payload;
          recipe_id = 20;
          val = (mass ∷ (if not (is_empty cog) then cog else replicate 3 0)) ++ inertia;
        })
        w

  unfoldable pub set_tcp : List ℕ → W → Outcome (Bool × W)
  unfolding robot_command
  set_tcp tcp_offset w = do
    let robot_cmd = robot_command memory
    port.send_command
        (record robot_cmd { type = CommandType.set_tcp; recipe_id = 6; val = tcp_offset }) w

  unfoldable pub start_contact_detection : List ℕ → W → Outcome (Bool × W)
  unfolding robot_command
  start_contact_detection direction w = do
    let robot_cmd = robot_command memory
    port.send_command
        (record robot_cmd {
          type = CommandType.start_contact_detection;
          recipe_id = 6;
          val = direction;
        })
        w

  unfoldable pub set_gravity : List ℕ → W → Outcome (Bool × W)
  unfolding robot_command
  set_gravity direction w = do
    let robot_cmd = robot_command memory
    port.send_command
        (record robot_cmd {
          type = CommandType.set_gravity;
          recipe_id = 7;
          val = direction ++ 0 ∷ [];
        })
        w

  unfoldable pub freedrive_mode : List ℕ → List ℕ → W → Outcome (Bool × W)
  unfolding robot_command
  freedrive_mode free_axes feature w = do
    let robot_cmd = robot_command memory
    port.send_command
        (record robot_cmd {
          type = CommandType.freedrive_mode;
          recipe_id = 17;
          free_axes = free_axes;
          val = feature;
        })
        w

  unfoldable pub ft_rtde_input_enable : Bool → ℕ → List ℕ → List ℕ → W → Outcome (Bool × W)
  unfolding robot_command
  ft_rtde_input_enable enable sensor_mass sensor_measuring_offset sensor_cog w = do
    let robot_cmd = robot_command memory
    port.send_command
        (record robot_cmd {
          type = CommandType.ft_rtde_input_enable;
          recipe_id = 18;
          ft_rtde_input_enable = if enable then 1 else 0;
          val = (sensor_mass ∷ sensor_measuring_offset) ++ sensor_cog;
        })
        w

  unfoldable pub enable_external_ft_sensor : Bool → ℕ → List ℕ → List ℕ → W → Outcome (Bool × W)
  unfolding robot_command
  enable_external_ft_sensor enable sensor_mass sensor_measuring_offset sensor_cog w = do
    let robot_cmd = robot_command memory
    port.send_command
        (record robot_cmd {
          type = CommandType.enable_external_ft_sensor;
          recipe_id = 18;
          ft_rtde_input_enable = if enable then 1 else 0;
          val = (sensor_mass ∷ sensor_measuring_offset) ++ sensor_cog;
        })
        w

  unfoldable pub set_external_force_torque : Bool → List ℕ → W → Outcome (Bool × W)
  unfolding robot_command
  set_external_force_torque no_ext_ft external_force_torque w =
      let robot_cmd = robot_command memory in
      if no_ext_ft
      then throws logic_error
      else port.send_command
          (record robot_cmd {
            type = CommandType.set_external_force_torque;
            recipe_id = 21;
            val = external_force_torque;
          })
          w
