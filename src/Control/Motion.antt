-- ===== src/Control/Motion.antt =====
-- The motion commands of src/rtde_control_interface.cpp: each checks its arguments, builds the command
-- and hands it to `sendCommand`.
use ur_rtde_fork_custom.Base.{ℕ, Bool, not, List, [], ◌∷◌, ◌++◌, if◌then◌else◌, is_empty, replicate}
use ur_rtde_fork_custom.Base.Double.{double_of_int32}
use ur_rtde_fork_custom.Base.Outcome.{Outcome, ◌>>◌}
use ur_rtde_fork_custom.Rtde.Command.{RobotCommand, CommandType, robot_command}
use ur_rtde_fork_custom.Control.Port.{Port}
use ur_rtde_fork_custom.Control.Limits.{
  verify_value_is_within, ur_joint_velocity_min, ur_joint_velocity_max, ur_joint_acceleration_min,
  ur_joint_acceleration_max, ur_tool_velocity_min, ur_tool_velocity_max, ur_tool_acceleration_min,
  ur_tool_acceleration_max, ur_servo_lookahead_time_min, ur_servo_lookahead_time_max,
  ur_servo_gain_min, ur_servo_gain_max, ur_blend_min, ur_blend_max,
}

module _ {W : Type 0} (port : Port W) (memory : RobotCommand) where
  unfoldable pub move_j : List ℕ → ℕ → ℕ → Bool → W → Outcome (Bool × W)
  unfolding robot_command verify_value_is_within
  move_j q speed acceleration async w = do
    verify_value_is_within speed ur_joint_velocity_min ur_joint_velocity_max
    verify_value_is_within acceleration ur_joint_acceleration_min ur_joint_acceleration_max
    let robot_cmd = robot_command memory
    port.send_command
        (record robot_cmd {
          type = CommandType.movej;
          recipe_id = 1;
          async = if async then 1 else 0;
          val = q ++ speed ∷ acceleration ∷ [];
        })
        w

  unfoldable pub move_j_ik : List ℕ → ℕ → ℕ → Bool → W → Outcome (Bool × W)
  unfolding robot_command verify_value_is_within
  move_j_ik transform speed acceleration async w = do
    verify_value_is_within speed ur_joint_velocity_min ur_joint_velocity_max
    verify_value_is_within acceleration ur_joint_acceleration_min ur_joint_acceleration_max
    let robot_cmd = robot_command memory
    port.send_command
        (record robot_cmd {
          type = CommandType.movej_ik;
          recipe_id = 1;
          async = if async then 1 else 0;
          val = transform ++ speed ∷ acceleration ∷ [];
        })
        w

  unfoldable pub move_l : List ℕ → ℕ → ℕ → Bool → W → Outcome (Bool × W)
  unfolding robot_command verify_value_is_within
  move_l transform speed acceleration async w = do
    verify_value_is_within speed ur_tool_velocity_min ur_tool_velocity_max
    verify_value_is_within acceleration ur_tool_acceleration_min ur_tool_acceleration_max
    let robot_cmd = robot_command memory
    port.send_command
        (record robot_cmd {
          type = CommandType.movel;
          recipe_id = 1;
          async = if async then 1 else 0;
          val = transform ++ speed ∷ acceleration ∷ [];
        })
        w

  unfoldable pub move_l_fk : List ℕ → ℕ → ℕ → Bool → W → Outcome (Bool × W)
  unfolding robot_command verify_value_is_within
  move_l_fk q speed acceleration async w = do
    verify_value_is_within speed ur_tool_velocity_min ur_tool_velocity_max
    verify_value_is_within acceleration ur_tool_acceleration_min ur_tool_acceleration_max
    let robot_cmd = robot_command memory
    port.send_command
        (record robot_cmd {
          type = CommandType.movel_fk;
          recipe_id = 1;
          async = if async then 1 else 0;
          val = q ++ speed ∷ acceleration ∷ [];
        })
        w

  unfoldable pub speed_j : List ℕ → ℕ → ℕ → W → Outcome (Bool × W)
  unfolding robot_command verify_value_is_within
  speed_j qd acceleration time w = do
    verify_value_is_within acceleration ur_joint_acceleration_min ur_joint_acceleration_max
    let robot_cmd = robot_command memory
    port.send_command
        (record robot_cmd {
          type = CommandType.speedj;
          recipe_id = 13;
          val = qd ++ acceleration ∷ time ∷ [];
        })
        w

  unfoldable pub speed_l : List ℕ → ℕ → ℕ → W → Outcome (Bool × W)
  unfolding robot_command verify_value_is_within
  speed_l xd acceleration time w = do
    verify_value_is_within acceleration ur_tool_acceleration_min ur_tool_acceleration_max
    let robot_cmd = robot_command memory
    port.send_command
        (record robot_cmd {
          type = CommandType.speedl;
          recipe_id = 13;
          val = xd ++ acceleration ∷ time ∷ [];
        })
        w

  unfoldable pub servo_j : List ℕ → ℕ → ℕ → ℕ → ℕ → ℕ → W → Outcome (Bool × W)
  unfolding robot_command verify_value_is_within
  servo_j q speed acceleration time lookahead_time gain w = do
    verify_value_is_within speed ur_joint_velocity_min ur_joint_velocity_max
    verify_value_is_within acceleration ur_joint_acceleration_min ur_joint_acceleration_max
    verify_value_is_within lookahead_time ur_servo_lookahead_time_min ur_servo_lookahead_time_max
    verify_value_is_within gain ur_servo_gain_min ur_servo_gain_max
    let robot_cmd = robot_command memory
    port.send_command
        (record robot_cmd {
          type = CommandType.servoj;
          recipe_id = 2;
          val = q ++ speed ∷ acceleration ∷ time ∷ lookahead_time ∷ gain ∷ [];
        })
        w

  unfoldable pub servo_l : List ℕ → ℕ → ℕ → ℕ → ℕ → ℕ → W → Outcome (Bool × W)
  unfolding robot_command verify_value_is_within
  servo_l pose speed acceleration time lookahead_time gain w = do
    verify_value_is_within speed ur_joint_velocity_min ur_joint_velocity_max
    verify_value_is_within acceleration ur_joint_acceleration_min ur_joint_acceleration_max
    verify_value_is_within lookahead_time ur_servo_lookahead_time_min ur_servo_lookahead_time_max
    verify_value_is_within gain ur_servo_gain_min ur_servo_gain_max
    let robot_cmd = robot_command memory
    port.send_command
        (record robot_cmd {
          type = CommandType.servol;
          recipe_id = 2;
          val = pose ++ speed ∷ acceleration ∷ time ∷ lookahead_time ∷ gain ∷ [];
        })
        w

  unfoldable pub servo_c : List ℕ → ℕ → ℕ → ℕ → W → Outcome (Bool × W)
  unfolding robot_command verify_value_is_within
  servo_c pose speed acceleration blend w = do
    verify_value_is_within speed ur_tool_velocity_min ur_tool_velocity_max
    verify_value_is_within acceleration ur_tool_acceleration_min ur_tool_acceleration_max
    verify_value_is_within blend ur_blend_min ur_blend_max
    let robot_cmd = robot_command memory
    port.send_command
        (record robot_cmd {
          type = CommandType.servoc;
          recipe_id = 5;
          val = pose ++ speed ∷ acceleration ∷ blend ∷ [];
        })
        w

  unfoldable pub move_until_contact : List ℕ → List ℕ → ℕ → W → Outcome (Bool × W)
  unfolding robot_command verify_value_is_within
  move_until_contact xd direction acceleration w = do
    verify_value_is_within acceleration ur_tool_acceleration_min ur_tool_acceleration_max
    let robot_cmd = robot_command memory
    port.send_command
        (record robot_cmd {
          type = CommandType.move_until_contact;
          recipe_id = 16;
          val = (xd ++ direction) ++ acceleration ∷ [];
        })
        w

  -- The source drops the result of `sendCommand` here and in `stopJ`.
  unfoldable pub stop_l : ℕ → Bool → W → Outcome (Bool × W)
  unfolding robot_command
  stop_l a async w = do
    let robot_cmd = robot_command memory
    port.send_command
        (record robot_cmd {
          type = CommandType.stopl;
          recipe_id = 19;
          async = if async then 1 else 0;
          val = a ∷ [];
        })
        w

  unfoldable pub stop_j : ℕ → Bool → W → Outcome (Bool × W)
  unfolding robot_command
  stop_j a async w = do
    let robot_cmd = robot_command memory
    port.send_command
        (record robot_cmd {
          type = CommandType.stopj;
          recipe_id = 19;
          async = if async then 1 else 0;
          val = a ∷ [];
        })
        w

  unfoldable pub speed_stop : ℕ → W → Outcome (Bool × W)
  unfolding robot_command
  speed_stop a w = do
    let robot_cmd = robot_command memory
    port.send_command
        (record robot_cmd { type = CommandType.speed_stop; recipe_id = 8; val = a ∷ [] }) w

  unfoldable pub servo_stop : ℕ → W → Outcome (Bool × W)
  unfolding robot_command
  servo_stop a w = do
    let robot_cmd = robot_command memory
    port.send_command
        (record robot_cmd { type = CommandType.servo_stop; recipe_id = 8; val = a ∷ [] }) w

  -- An `int` that is pushed into the vector becomes a double; with no frame six zeros follow.
  unfoldable pub jog_start : List ℕ → ℕ → ℕ → List ℕ → W → Outcome (Bool × W)
  unfolding robot_command double_of_int32
  jog_start speeds feature acc custom_frame w = do
    let robot_cmd = robot_command memory
    port.send_command
        (record robot_cmd {
          type = CommandType.jog_start;
          recipe_id = 14;
          val =
              (speeds ++ double_of_int32 feature ∷ acc ∷ [])
              ++ (if not (is_empty custom_frame) then custom_frame else replicate 6 0);
        })
        w

  unfoldable pub jog_stop : W → Outcome (Bool × W)
  unfolding robot_command
  jog_stop w = do
    let robot_cmd = robot_command memory
    port.send_command (record robot_cmd { type = CommandType.jog_stop; recipe_id = 4 }) w
