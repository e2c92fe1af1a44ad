-- ===== src/Control/SendCommand.antt =====
-- `RTDEControlInterface::sendCommand` of src/rtde_control_interface.cpp: the handshake with the control
-- script, from the start to the end of the `try` block. What other threads write between two reads of
-- the robot state is the argument `robot`, as a function of the number of reads so far.
pub mod Effects
pub mod Handshake
pub mod Termination
use ur_rtde_fork_custom.Base.{
  ℕ, zero, suc, ◌+◌, ◌-◌, ◌*◌, ◌/◌, ◌%◌, Bool, true, false, not, ◌&&◌, ◌||◌, List, [], ◌∷◌, ◌++◌,
  Option, none, some, ltb, ◌==◌, if◌then◌else◌,
}
use ur_rtde_fork_custom.Base.Outcome.{
  Outcome, ok, throws, fault, runtime_error, system_error, ◌>>=◌,
}
use ur_rtde_fork_custom.Base.Post.{and_next}
use ur_rtde_fork_custom.Rtde.Command.{CommandType, RobotCommand, robot_command, is_type}
use ur_rtde_fork_custom.Rtde.Send.{send_payload}

-- The entries of the robot state that the handshake reads, the clock in nanoseconds, whether the
-- connection is open, and whether a write to an open socket succeeds instead of throwing, at each step.
pub record Robot : Type 0 where
  pub runtime_state : ℕ → Option ℕ
  pub control_script_state : ℕ → Option ℕ
  pub safety_status_bits : ℕ → Option ℕ
  pub clock : ℕ → ℕ
  pub is_connected : ℕ → Bool
  pub is_writable : ℕ → Bool

-- The members that `sendCommand` tests.
pub record Flags : Type 0 where
  pub custom_script : Bool
  pub custom_script_running : Bool
  pub use_external_control_ur_cap : Bool

-- The steps so far, and the payloads written to the socket.
pub record World : Type 0 where
  pub time : ℕ
  pub sent : List (List ℕ)

-- The three loops: until the script is ready, until it is done, until the program has stopped.
pub data Loop : Type 0 where
  until_ready until_done until_stopped : Loop

-- How one round of a loop ends.
pub data Verdict : Type 0 where
  finished gave_up again : Verdict

abbrev pub ur_get_ready_timeout : ℕ
ur_get_ready_timeout = 3

abbrev pub ur_execution_timeout : ℕ
ur_execution_timeout = 300

abbrev pub ur_controller_rdy_for_cmd : ℕ
ur_controller_rdy_for_cmd = 1

abbrev pub ur_controller_done_with_cmd : ℕ
ur_controller_done_with_cmd = 2

abbrev pub timeout : Loop → ℕ
timeout until_ready = ur_get_ready_timeout
timeout until_done = ur_execution_timeout
timeout until_stopped = ur_execution_timeout

abbrev pub tick : World → World
tick w = record w { time = suc w.time }

unfoldable pub read : (ℕ → Option ℕ) → World → Outcome (ℕ × World)
read entry w = elim (entry w.time) [ none ↦ throws runtime_error | some v ↦ ok (v, tick w) ]

-- The types that are not waited for.
unfoldable pub is_continuous : CommandType → Bool
is_continuous t =
    is_type t CommandType.servoj
    || is_type t CommandType.servol
    || is_type t CommandType.servoc
    || is_type t CommandType.speedj
    || is_type t CommandType.speedl
    || is_type t CommandType.force_mode
    || is_type t CommandType.watchdog
    || is_type t CommandType.get_joint_torques
    || is_type t CommandType.tool_contact
    || is_type t CommandType.get_steptime
    || is_type t CommandType.get_actual_joint_positions_history
    || is_type t CommandType.set_external_force_torque

-- The command of `sendClearCommand`, built from what the new object holds in memory.
unfoldable pub clear_cmd : RobotCommand → RobotCommand
unfolding robot_command
clear_cmd memory = record (robot_command memory) { type = CommandType.no_cmd; recipe_id = 4 }

module _ (robot : Robot) (memory : RobotCommand) where
  -- `RTDE::send` with the end of `sendAll`: without a connection nothing is written, and the call
  -- returns all the same.
  unfoldable pub send : RobotCommand → World → Outcome World
  send cmd w =
      if robot.is_connected w.time
      then (if robot.is_writable w.time
          then ok (record w { time = suc w.time; sent = w.sent ++ send_payload cmd ∷ [] })
          else throws system_error)
      else ok (tick w)

  unfoldable pub send_clear_command : World → Outcome World
  unfolding send
  send_clear_command w = send (clear_cmd memory) w

  unfoldable pub is_program_running : World → Outcome (Bool × World)
  unfolding read
  is_program_running w = do (v, w') ← read robot.runtime_state w; ok (v == 2, w')

  unfoldable pub is_protective_stopped : World → Outcome (Bool × World)
  unfolding read
  is_protective_stopped w = do (v, w') ← read robot.safety_status_bits w; ok (v / 4 % 2 == 1, w')

  unfoldable pub is_emergency_stopped : World → Outcome (Bool × World)
  unfolding read
  is_emergency_stopped w = do (v, w') ← read robot.safety_status_bits w; ok (v / 128 % 2 == 1, w')

  -- `isProtectiveStopped() || isEmergencyStopped()`.
  unfoldable pub is_stopped : World → Outcome (Bool × World)
  unfolding is_protective_stopped is_emergency_stopped
  is_stopped w = do
    (stopped, w') ← is_protective_stopped w
    (if stopped then ok (true, w') else is_emergency_stopped w')

  -- The loops' conditions.
  unfoldable pub is_over : Loop → World → Outcome (Bool × World)
  unfolding read is_program_running
  is_over until_ready w = do
    (v, w') ← read robot.control_script_state w
    ok (v == ur_controller_rdy_for_cmd, w')
  is_over until_done w = do
    (v, w') ← read robot.control_script_state w
    ok (v == ur_controller_done_with_cmd, w')
  is_over until_stopped w = do (running, w') ← is_program_running w; ok (not running, w')

  -- The test that only the loop for the end of the command has.
  unfoldable pub is_lost : Loop → World → Outcome (Bool × World)
  unfolding is_program_running
  is_lost until_done w = do (running, w') ← is_program_running w; ok (not running, w')
  is_lost _ w = ok (false, w)

  -- `sendClearCommand(); return false;`.
  unfoldable pub refuse : {A : Type 0} → A → World → Outcome (A × World)
  unfolding send_clear_command
  refuse a w = do w' ← send_clear_command w; ok (a, w')

  -- One round of a loop that began at the time `start`.
  unfoldable pub wait_round : Loop → ℕ → World → Outcome (Verdict × World)
  unfolding is_over is_lost is_stopped refuse
  wait_round loop start w = do
    (over, w1) ← is_over loop w
    (if over then ok (finished, w1) else (do
      (lost, w2) ← is_lost loop w1
      (if lost then refuse gave_up w2 else (do
        (stopped, w3) ← is_stopped w2
        (if stopped
            then refuse gave_up w3
            else if ltb (timeout loop) ((robot.clock w3.time - start) / 1000000000)
            then refuse gave_up (tick w3)
            else ok (again, tick w3))))))

  -- A loop on fuel: whether its condition came true.
  unfoldable pub wait : ℕ → Loop → ℕ → World → Option (Outcome (Bool × World))
  wait zero loop start w = none
  wait (suc fuel) loop start w = elim (wait_round loop start w) [
    | fault ↦ some fault
    | throws e ↦ some (throws e)
    | ok p ↦ elim p.0 [
      | finished ↦ some (ok (true, p.1))
      | gave_up ↦ some (ok (false, p.1))
      | again ↦ wait fuel loop start p.1
    ]
  ]

  -- `sendClearCommand(); return true;` behind a loop, which sends the clear command itself if it gives up.
  unfoldable pub conclude : Bool × World → Option (Outcome (Bool × World))
  unfolding refuse
  conclude p = if p.0 then some (refuse true p.1) else some (ok (false, p.1))

  module _ (flags : Flags) (fuel : ℕ) (cmd : RobotCommand) where
    -- What follows the call of `send`; `start` is the start of the whole command.
    unfoldable pub after_send : ℕ → World → Option (Outcome (Bool × World))
    unfolding is_continuous conclude refuse
    after_send start w =
        if is_continuous cmd.type
        then some (ok (true, w))
        else if not (is_type cmd.type CommandType.stop_script)
        then and_next (wait fuel until_done (robot.clock w.time) (tick w)) conclude
        else if flags.use_external_control_ur_cap
        then some (refuse true w)
        else and_next (wait fuel until_stopped start w) conclude

    -- The body of the `try` block.
    unfoldable pub try_command : World → Option (Outcome (Bool × World))
    unfolding read is_program_running after_send
    try_command w0 =
        let start = robot.clock w0.time in
        and_next (some (read robot.runtime_state (tick w0))) (λ p1.
          if p1.0 == 1 && not flags.custom_script_running
          then some (refuse false p1.1)
          else and_next (some (is_program_running p1.1)) (λ p2.
            if p2.0 || flags.custom_script || flags.custom_script_running
              || flags.use_external_control_ur_cap
            then and_next (wait fuel until_ready start p2.1) (λ p3.
              if p3.0
              then and_next (some (send cmd p3.1)) (λ w4. after_send start w4)
              else some (ok (false, p3.1)))
            else some (refuse false p2.1)))
