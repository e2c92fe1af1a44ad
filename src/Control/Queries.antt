-- ===== src/Control/Queries.antt =====
-- The commands of src/rtde_control_interface.cpp that answer with the contents of output registers.
use ur_rtde_fork_custom.Base.{
  ℕ, Bool, false, not, ◌&&◌, List, [], ◌∷◌, ◌++◌, ◌==◌, if◌then◌else◌, is_empty,
}
use ur_rtde_fork_custom.Base.Outcome.{Outcome, ok, throws, runtime_error, ◌>>=◌}
use ur_rtde_fork_custom.Rtde.Command.{RobotCommand, CommandType, robot_command}
use ur_rtde_fork_custom.Control.Port.{Port, with_robot_state, output_double_regs}

module _ {W : Type 0} (port : Port W) (memory : RobotCommand) where
  unfoldable pub tool_contact : List ℕ → W → Outcome (ℕ × W)
  unfolding robot_command with_robot_state
  tool_contact direction w = do
    let robot_cmd = robot_command memory
    (done, w1) ←
        port.send_command
          (record robot_cmd { type = CommandType.tool_contact; recipe_id = 6; val = direction }) w
    if done then with_robot_state port (port.get_output_int_reg 1) w1 else ok (0, w1)

  unfoldable pub get_step_time : W → Outcome (ℕ × W)
  unfolding robot_command with_robot_state
  get_step_time w = do
    let robot_cmd = robot_command memory
    (done, w1) ←
        port.send_command (record robot_cmd { type = CommandType.get_steptime; recipe_id = 4 }) w
    if done then with_robot_state port (port.get_output_double_reg 0) w1 else ok (0, w1)

  unfoldable pub get_actual_joint_positions_history : ℕ → W → Outcome (List ℕ × W)
  unfolding robot_command with_robot_state output_double_regs
  get_actual_joint_positions_history steps w = do
    let robot_cmd = robot_command memory
    (done, w1) ←
        port.send_command
          (record robot_cmd {
            type = CommandType.get_actual_joint_positions_history;
            recipe_id = 9;
            steps = steps;
          })
          w
    if done then with_robot_state port (output_double_regs port 0 6) w1 else ok ([], w1)

  unfoldable pub get_target_waypoint : W → Outcome (List ℕ × W)
  unfolding robot_command with_robot_state output_double_regs
  get_target_waypoint w = do
    let robot_cmd = robot_command memory
    (done, w1) ←
        port.send_command
          (record robot_cmd { type = CommandType.get_target_waypoint; recipe_id = 4 }) w
    if done then with_robot_state port (output_double_regs port 0 6) w1 else ok ([], w1)

  -- The exception behind the `return` of the source is not reached.
  unfoldable pub get_inverse_kinematics : List ℕ → List ℕ → ℕ → ℕ → W → Outcome (List ℕ × W)
  unfolding robot_command with_robot_state output_double_regs
  get_inverse_kinematics x qnear max_position_error max_orientation_error w = do
    let robot_cmd = robot_command memory
    (done, w1) ←
        port.send_command
          (if not (is_empty qnear)
            then (record robot_cmd {
              type = CommandType.get_inverse_kinematics_args;
              recipe_id = 10;
              val = (x ++ qnear) ++ max_position_error ∷ max_orientation_error ∷ [];
            })
            else (record robot_cmd {
              type = CommandType.get_inverse_kinematics_default;
              recipe_id = 6;
              val = x;
            }))
          w
    if done then with_robot_state port (output_double_regs port 0 6) w1 else ok ([], w1)

  unfoldable pub get_inverse_kinematics_has_solution :
      List ℕ → List ℕ → ℕ → ℕ → W → Outcome (Bool × W)
  unfolding robot_command
  get_inverse_kinematics_has_solution x qnear max_position_error max_orientation_error w = do
    let robot_cmd = robot_command memory
    (done, w1) ←
        port.send_command
          (if not (is_empty qnear)
            then (record robot_cmd {
              type = CommandType.get_inverse_kinematics_has_solution_args;
              recipe_id = 10;
              val = (x ++ qnear) ++ max_position_error ∷ max_orientation_error ∷ [];
            })
            else (record robot_cmd {
              type = CommandType.get_inverse_kinematics_has_solution_default;
              recipe_id = 6;
              val = x;
            }))
          w
    if done
        then (port.get_output_int_reg 1 w1 >>= λ p. ok (p.0 == 1, p.1))
        else throws runtime_error

  unfoldable pub pose_trans : List ℕ → List ℕ → W → Outcome (List ℕ × W)
  unfolding robot_command with_robot_state output_double_regs
  pose_trans p_from p_from_to w = do
    let robot_cmd = robot_command memory
    (done, w1) ←
        port.send_command
          (record robot_cmd {
            type = CommandType.pose_trans;
            recipe_id = 12;
            val = p_from ++ p_from_to;
          })
          w
    if done then with_robot_state port (output_double_regs port 0 6) w1 else throws runtime_error

  unfoldable pub is_pose_within_safety_limits : List ℕ → W → Outcome (Bool × W)
  unfolding robot_command with_robot_state
  is_pose_within_safety_limits pose w = do
    let robot_cmd = robot_command memory
    (done, w1) ←
        port.send_command
          (record robot_cmd {
            type = CommandType.is_pose_within_safety_limits;
            recipe_id = 6;
            val = pose;
          })
          w
    if done
        then (with_robot_state port (port.get_output_int_reg 1) w1 >>= λ p. ok (p.0 == 1, p.1))
        else ok (false, w1)

  unfoldable pub is_joints_within_safety_limits : List ℕ → W → Outcome (Bool × W)
  unfolding robot_command with_robot_state
  is_joints_within_safety_limits q w = do
    let robot_cmd = robot_command memory
    (done, w1) ←
        port.send_command
          (record robot_cmd {
            type = CommandType.is_joints_within_safety_limits;
            recipe_id = 6;
            val = q;
          })
          w
    if done
        then (with_robot_state port (port.get_output_int_reg 1) w1 >>= λ p. ok (p.0 == 1, p.1))
        else ok (false, w1)

  unfoldable pub stop_contact_detection : W → Outcome (Bool × W)
  unfolding robot_command with_robot_state
  stop_contact_detection w = do
    let robot_cmd = robot_command memory
    (done, w1) ←
        port.send_command
          (record robot_cmd { type = CommandType.stop_contact_detection; recipe_id = 4 }) w
    if done
        then (with_robot_state port (port.get_output_int_reg 1) w1 >>= λ p.
            ok (not (p.0 == 0), p.1))
        else ok (false, w1)

  unfoldable pub read_contact_detection : W → Outcome (Bool × W)
  unfolding robot_command with_robot_state
  read_contact_detection w = do
    let robot_cmd = robot_command memory
    (done, w1) ←
        port.send_command
          (record robot_cmd { type = CommandType.read_contact_detection; recipe_id = 4 }) w
    if done
        then (with_robot_state port (port.get_output_int_reg 1) w1 >>= λ p.
            ok (not (p.0 == 0), p.1))
        else ok (false, w1)

  unfoldable pub is_steady : W → Outcome (Bool × W)
  unfolding robot_command with_robot_state
  is_steady w = do
    let robot_cmd = robot_command memory
    (done, w1) ←
        port.send_command (record robot_cmd { type = CommandType.is_steady; recipe_id = 4 }) w
    if done
        then (with_robot_state port (port.get_output_int_reg 1) w1 >>= λ p. ok (p.0 == 1, p.1))
        else ok (false, w1)

  unfoldable pub get_joint_torques : W → Outcome (List ℕ × W)
  unfolding robot_command with_robot_state output_double_regs
  get_joint_torques w = do
    let robot_cmd = robot_command memory
    (done, w1) ←
        port.send_command (record robot_cmd { type = CommandType.get_joint_torques; recipe_id = 4 })
          w
    if done then with_robot_state port (output_double_regs port 0 6) w1 else throws runtime_error

  unfoldable pub get_tcp_offset : W → Outcome (List ℕ × W)
  unfolding robot_command with_robot_state output_double_regs
  get_tcp_offset w = do
    let robot_cmd = robot_command memory
    (done, w1) ←
        port.send_command (record robot_cmd { type = CommandType.get_tcp_offset; recipe_id = 4 }) w
    if done then with_robot_state port (output_double_regs port 0 6) w1 else throws runtime_error

  unfoldable pub get_actual_tool_flange_pose : W → Outcome (List ℕ × W)
  unfolding robot_command with_robot_state output_double_regs
  get_actual_tool_flange_pose w = do
    let robot_cmd = robot_command memory
    (done, w1) ←
        port.send_command
          (record robot_cmd { type = CommandType.get_actual_tool_flange_pose; recipe_id = 4 }) w
    if done then with_robot_state port (output_double_regs port 0 6) w1 else throws runtime_error

  unfoldable pub get_forward_kinematics : List ℕ → List ℕ → W → Outcome (List ℕ × W)
  unfolding robot_command with_robot_state output_double_regs
  get_forward_kinematics q tcp_offset w = do
    let robot_cmd = robot_command memory
    (done, w1) ←
        port.send_command
          (if is_empty q && is_empty tcp_offset
            then (record robot_cmd {
              type = CommandType.get_forward_kinematics_default;
              recipe_id = 4;
            })
            else if is_empty tcp_offset && not (is_empty q)
            then (record robot_cmd {
              type = CommandType.get_forward_kinematics_args;
              recipe_id = 6;
              val = q;
            })
            else (record robot_cmd {
              type = CommandType.get_forward_kinematics_args;
              recipe_id = 12;
              val = q ++ tcp_offset;
            }))
          w
    if done then with_robot_state port (output_double_regs port 0 6) w1 else throws runtime_error

  unfoldable pub get_freedrive_status : W → Outcome (ℕ × W)
  unfolding robot_command with_robot_state
  get_freedrive_status w = do
    let robot_cmd = robot_command memory
    (done, w1) ←
        port.send_command
          (record robot_cmd { type = CommandType.get_freedrive_status; recipe_id = 4 }) w
    if done then with_robot_state port (port.get_output_int_reg 1) w1 else throws runtime_error
