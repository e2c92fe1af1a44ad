-- ===== src/Control/CustomScript.antt =====
-- `sendCustomScript`, `sendCustomScriptFile` and `sendCustomScriptFunction` of
-- src/rtde_control_interface.cpp.
pub mod Flag
pub mod Function
use ur_rtde_fork_custom.Base.{
  ℕ, zero, suc, ◌+◌, ◌-◌, ◌/◌, Bool, true, false, List, [], ◌∷◌, ◌++◌, Option, none, some, codes,
  if◌then◌else◌, ltb, ◌==◌,
}
use ur_rtde_fork_custom.Base.Action.{Action, return, ◌>>=◌, ◌>>◌}
use ur_rtde_fork_custom.Utility.Text.{split, to_string}
use ur_rtde_fork_custom.Rtde.Command.{RobotCommand}
use ur_rtde_fork_custom.Script.Client.{
  ScriptWorld, send_script, send_script_file, send_script_command,
}
use ur_rtde_fork_custom.Control.SendCommand.{ur_controller_done_with_cmd}
use ur_rtde_fork_custom.Control.Upload.{
  Controller, ControlInterface, on_client, on_controller, set_running, when_ended, stop_script,
  wait_for_program_running,
}

-- `UR_PATH_EXECUTION_TIMEOUT`, in seconds.
abbrev pub ur_path_execution_timeout : ℕ
ur_path_execution_timeout = 600

-- The lines of a script, each indented.
abbrev pub indent : List (List ℕ) → List ℕ
indent [] = []
indent (line ∷ lines) = b'\t' ∷ (line ++ b'\n' ∷ indent lines)

abbrev pub write_register : ℕ → List ℕ → List ℕ
write_register register_offset value =
    b'\t'
    ∷ (codes "write_output_integer_register(0 +"
        ++ (to_string register_offset ++ (codes ", " ++ (value ++ (codes ")" ++ b'\n' ∷ [])))))

unfoldable pub custom_function : ℕ → List ℕ → List ℕ → List ℕ
unfolding split to_string
custom_function register_offset function_name script =
    codes "def "
    ++ (function_name
        ++ (codes "():"
            ++ b'\n'
              ∷ (write_register register_offset (codes "1")
                  ++ (indent (split script b'\n')
                      ++ (write_register register_offset (codes "2")
                          ++ (codes "end" ++ b'\n' ∷ []))))))

module _ {W : Type 0} (net : ScriptWorld W) (controller : Controller W)
    (memory : RobotCommand) where
  -- `while (getControlScriptState() != UR_CONTROLLER_DONE_WITH_CMD)`, given when the wait has started.
  -- `some false` is the time limit.
  unfoldable pub wait_done : ℕ → ℕ → Action (ControlInterface W) (Option Bool)
  wait_done zero start_time = return none
  wait_done (suc fuel) start_time = do
    state ← on_controller controller.get_control_script_state
    (if state == ur_controller_done_with_cmd then return (some true) else (do
      current_time ← on_controller controller.clock
      (if ltb ur_path_execution_timeout ((current_time - start_time) / 1000000000)
          then return (some false)
          else wait_done fuel start_time)))

  -- The end of `sendCustomScript` and `sendCustomScriptFile`, behind their loop.
  unfoldable pub resume : ℕ → Option Bool → Action (ControlInterface W) (Option Bool)
  unfolding wait_for_program_running send_script
  resume fuel none = return none
  resume fuel (some false) = return (some false)
  resume fuel (some true) = do
    on_controller controller.send_clear_command
    sent ← on_client (send_script net)
    ended ← wait_for_program_running net controller memory fuel 0
    when_ended ended (set_running false >> return (some true))

  unfoldable pub send_custom_script : ℕ → List ℕ → Action (ControlInterface W) (Option Bool)
  unfolding stop_script wait_done resume send_script_command
  send_custom_script fuel script = do
    set_running true
    stop_script net controller memory
    start_time ← on_controller controller.clock
    sent ← on_client (send_script_command net script)
    done ← wait_done fuel start_time
    resume fuel done

  unfoldable pub send_custom_script_file : ℕ → List ℕ → Action (ControlInterface W) (Option Bool)
  unfolding stop_script wait_done resume send_script_file
  send_custom_script_file fuel file_path = do
    set_running true
    stop_script net controller memory
    start_time ← on_controller controller.clock
    sent ← on_client (send_script_file net file_path)
    done ← wait_done fuel start_time
    resume fuel done

  unfoldable pub send_custom_script_function :
      ℕ → List ℕ → List ℕ → Action (ControlInterface W) (Option Bool)
  unfolding custom_function send_custom_script
  send_custom_script_function fuel function_name script s =
      send_custom_script fuel (custom_function s.register_offset function_name script) s
