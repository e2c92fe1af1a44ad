-- ===== src/Control/Upload.antt =====
-- The operations of `RTDEControlInterface` that replace the running script, in
-- src/rtde_control_interface.cpp: paths, custom scripts and `reuploadScript`. They work on the script
-- client; what they use of the rest of the object is the parameter `controller`. A pause is left out,
-- and a loop runs on fuel: `none` is a loop that has not ended.
pub mod Waiting
pub mod Paths
pub mod Kept
use ur_rtde_fork_custom.Base.{
  ℕ, zero, suc, ◌+◌, ◌-◌, Bool, true, false, List, [], ◌∷◌, ◌++◌, Option, none, some, codes,
  if◌then◌else◌, ltb, ◌==◌,
}
use ur_rtde_fork_custom.Base.Outcome.{Outcome, ok, throws, logic_error}
use ur_rtde_fork_custom.Base.Action.{Action, return, lift, modify, gets, ◌>>=◌, ◌>>◌}
use ur_rtde_fork_custom.Utility.Text.{split, to_string}
use ur_rtde_fork_custom.Rtde.Command.{RobotCommand, CommandType, robot_command}
use ur_rtde_fork_custom.Script.Client.{
  ScriptWorld, ScriptClient, add_script_injection, send_script, send_script_file,
  send_script_command, set_script_file,
}
use ur_rtde_fork_custom.Control.SendCommand.{ur_controller_done_with_cmd}
use ur_rtde_fork_custom.Control.Path.{PathEntry, path_code, append_movel_path, append_movej_path}

-- The members that these operations use. The world is that of the script client.
pub record ControlInterface (W : Type 0) : Type 0 where
  pub script_client : ScriptClient W
  pub custom_script_running : Bool
  pub register_offset : ℕ

-- What the object does elsewhere: the `try` block of `sendCommand` with its handler, which gives no
-- answer if it has caught an exception, whether the connection is open behind it, `reconnect` with the
-- second `sendCommand`, which may change every member, `sendClearCommand`, `isProgramRunning`,
-- `getControlScriptState`, the dashboard client's `stop` and the clock in nanoseconds.
pub record Controller (W : Type 0) : Type 0 where
  pub try_command : RobotCommand → Action W (Option Bool)
  pub is_connected : W → Bool
  pub reconnect_and_send : RobotCommand → Action (ControlInterface W) Bool
  pub send_clear_command : Action W (Unit {0})
  pub is_program_running : Action W Bool
  pub get_control_script_state : Action W ℕ
  pub stop_program : Action W (Unit {0})
  pub clock : Action W ℕ

abbrev pub behind :
    {W A : Type 0}
    → ControlInterface W
    → Outcome A × ScriptClient W
    → Outcome A × ControlInterface W
behind s (r, client) = (r, record s { script_client = client })

abbrev pub on_client : {W A : Type 0} → Action (ScriptClient W) A → Action (ControlInterface W) A
on_client operation s = behind s (operation s.script_client)

abbrev pub within : {W A : Type 0} → ScriptClient W → Outcome A × W → Outcome A × ScriptClient W
within client (r, w) = (r, record client { world = w })

abbrev pub on_controller : {W A : Type 0} → Action W A → Action (ControlInterface W) A
on_controller operation = on_client (λ client. within client (operation client.world))

abbrev pub set_running : {W : Type 0} → Bool → Action (ControlInterface W) (Unit {0})
set_running b = modify (λ s. record s { custom_script_running = b })

-- `move_path_inject_id`.
abbrev pub move_path_inject_id : List ℕ
move_path_inject_id = codes "# inject move path" ++ b'\n' ∷ []

-- A loop that has ended, then the rest.
abbrev pub when_ended :
    {S A : Type 0} → Option (Unit {0}) → Action S (Option A) → Action S (Option A)
when_ended none rest = return none
when_ended (some _) rest = rest

module _ {W : Type 0} (net : ScriptWorld W) (controller : Controller W)
    (memory : RobotCommand) where
  -- What follows the `try` block of `sendCommand`.
  unfoldable pub recover :
      RobotCommand → Option Bool → ControlInterface W → Outcome Bool × ControlInterface W
  recover cmd (some answer) s = (ok answer, s)
  recover cmd none s =
      if controller.is_connected s.script_client.world
      then (on_controller controller.send_clear_command >> return false) s
      else controller.reconnect_and_send cmd s

  unfoldable pub send_command : RobotCommand → Action (ControlInterface W) Bool
  unfolding recover
  send_command cmd = do answer ← on_controller (controller.try_command cmd); recover cmd answer

  unfoldable pub stop_script : Action (ControlInterface W) (Unit {0})
  unfolding robot_command send_command
  stop_script = do
    let robot_cmd = robot_command memory
    stopped ← send_command (record robot_cmd { type = CommandType.stop_script; recipe_id = 4 })
    return tt

  -- `while (!isProgramRunning())`, with a pause.
  unfoldable pub wait_running : ℕ → Action (ControlInterface W) (Option (Unit {0}))
  wait_running zero = return none
  wait_running (suc fuel) = do
    running ← on_controller controller.is_program_running
    (if running then return (some tt) else wait_running fuel)

  -- `waitForProgramRunning`, from a count of milliseconds on.
  unfoldable pub wait_for_program_running : ℕ → ℕ → Action (ControlInterface W) (Option (Unit {0}))
  wait_for_program_running zero ms_count = return none
  wait_for_program_running (suc fuel) ms_count = do
    running ← on_controller controller.is_program_running
    (if running
        then return (some tt)
        else (if ltb 5000 (ms_count + 10)
            then lift (throws logic_error)
            else wait_for_program_running fuel (ms_count + 10)))

  -- The end of `moveJ`, `moveL` and `movePath`, behind their loop.
  unfoldable pub start_path : Bool → Option (Unit {0}) → Action (ControlInterface W) (Option Bool)
  unfolding robot_command send_command
  start_path async none = return none
  start_path async (some _) = do
    set_running false
    let robot_cmd = robot_command memory
    result ← send_command (record robot_cmd {
      type = CommandType.move_path;
      recipe_id = 15;
      async = if async then 1 else 0;
    })
    return (some result)

  -- What they do with the code of a path.
  unfoldable pub run_path : ℕ → List ℕ → Bool → Action (ControlInterface W) (Option Bool)
  unfolding stop_script wait_running add_script_injection send_script start_path
  run_path fuel code async = do
    set_running true
    stop_script
    on_client (add_script_injection move_path_inject_id code)
    sent ← on_client (send_script net)
    ended ← wait_running fuel
    start_path async ended

  module _ (print : ℕ → List ℕ) (fuel : ℕ) where
    unfoldable pub move_path : List PathEntry → Bool → Action (ControlInterface W) (Option Bool)
    unfolding run_path path_code
    move_path path async = do
      path_script ← lift (path_code print path)
      run_path fuel path_script async

    unfoldable pub move_j_path : List (List ℕ) → Bool → Action (ControlInterface W) (Option Bool)
    unfolding run_path path_code append_movej_path
    move_j_path path async = do
      path_script ← lift (path_code print (append_movej_path path []))
      run_path fuel path_script async

    unfoldable pub move_l_path : List (List ℕ) → Bool → Action (ControlInterface W) (Option Bool)
    unfolding run_path path_code append_movel_path
    move_l_path path async = do
      path_script ← lift (path_code print (append_movel_path path []))
      run_path fuel path_script async

  unfoldable pub reupload_script : Action (ControlInterface W) Bool
  unfolding stop_script send_script
  reupload_script = do
    running ← on_controller controller.is_program_running
    (if running then (stop_script >> on_controller controller.stop_program) else return tt)
    on_client (send_script net)

  unfoldable pub set_custom_script_file : List ℕ → Action (ControlInterface W) (Unit {0})
  unfolding reupload_script set_script_file
  set_custom_script_file file_path = do
    on_client (set_script_file file_path)
    uploaded ← reupload_script
    return tt
