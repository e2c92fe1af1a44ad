-- ===== src/Control/CustomScript/Flag.antt =====
-- What `sendCustomScript` and `sendCustomScriptFile` of src/rtde_control_interface.cpp leave behind.
use ur_rtde_fork_custom.Base.{
  ℕ, zero, suc, ◌-◌, ◌/◌, ◌==◌, refl, ap, Bool, true, false, not, List, Option, none, some, ltb,
}
use ur_rtde_fork_custom.Base.Action.{
  Action, return, continue, Obeys, Obeys-if, Obeys-bind, Settles, Settles-continue, ◌>>=◌, ◌>>◌,
}
use ur_rtde_fork_custom.Rtde.Command.{RobotCommand}
use ur_rtde_fork_custom.Script.Client.{
  ScriptWorld, ScriptClient, send_script, send_script_command, send_script_file,
}
use ur_rtde_fork_custom.Control.SendCommand.{ur_controller_done_with_cmd}
use ur_rtde_fork_custom.Control.Upload.{
  Controller, ControlInterface, on_client, on_controller, stop_script, wait_for_program_running,
  when_ended, set_running,
}
use ur_rtde_fork_custom.Control.Upload.Kept.{
  NeverReconnects, Untouched, Untouched-chain, on_client-Untouched, on_controller-Untouched,
  send_script-OnlyWorld, send_script_command-OnlyWorld, send_script_file-OnlyWorld,
  stop_script-Untouched, wait_for_program_running-Untouched, OnlyWorld,
}
use ur_rtde_fork_custom.Control.CustomScript.{
  wait_done, resume, send_custom_script, send_custom_script_file, ur_path_execution_timeout,
}

-- `custom_script_running_` behind the call: reset only by success.
abbrev pub is_marked : Option Bool → Bool
is_marked none = true
is_marked (some success) = not success

-- Nothing but the world and the mark of a running custom script is changed.
abbrev pub Marks : {W : Type 0} → ControlInterface W → Option Bool → ControlInterface W → Type 0
Marks s result t = Untouched (record s { custom_script_running = is_marked result }) t

abbrev pub marked : {W : Type 0} → ControlInterface W → ControlInterface W
marked s = record s { custom_script_running = true }

module _ {W : Type 0} (net : ScriptWorld W) (controller : Controller W) (memory : RobotCommand)
    (never : NeverReconnects net controller memory) where
  wait_done-Untouched :
      (fuel start : ℕ) → Obeys Untouched (wait_done net controller memory fuel start)
  unfolding wait_done
  wait_done-Untouched zero start = λ s. refl
  wait_done-Untouched (suc fuel) start =
      Obeys-bind Untouched Untouched-chain (on_controller controller.get_control_script_state) _
        (on_controller-Untouched controller.get_control_script_state)
        (λ state.
          Obeys-if Untouched (state == ur_controller_done_with_cmd) _ _ (λ s. refl)
            (Obeys-bind Untouched Untouched-chain (on_controller controller.clock) _
              (on_controller-Untouched controller.clock)
              (λ current_time.
                Obeys-if Untouched
                  (ltb ur_path_execution_timeout ((current_time - start) / 1000000000)) _ _
                  (λ s. refl) (wait_done-Untouched fuel start))))

  -- A step that changes the world only, and then the rest.
  step-Marks :
      {A : Type 0} (s t : ControlInterface W) (m : Action (ControlInterface W) A)
      (rest : A → Action (ControlInterface W) (Option Bool))
      → Untouched (marked s) t
      → Obeys Untouched m
      → ((a : A) (u : ControlInterface W)
          → Untouched (marked s) u
          → Settles (Untouched (marked s)) (Marks s) (rest a u))
      → Settles (Untouched (marked s)) (Marks s) (continue (m t) rest)
  step-Marks s t m rest h obeys later =
      Settles-continue (Untouched (marked s)) (Untouched (marked s)) (Marks s) (m t) rest
        (Untouched-chain (marked s) t (m t).1 h (obeys t)) (λ _ k. k) later

  reset-Marks :
      (s t : ControlInterface W) (ended : Option (Unit {0}))
      → Untouched (marked s) t
      → Settles
          (Untouched (marked s))
          (Marks s)
          (when_ended ended (set_running false >> return (some true)) t)
  reset-Marks s t none h = h
  reset-Marks s t (some _) h =
      ap (λ (u : ControlInterface W). record u { custom_script_running = false }) h

  resume-Marks :
      (fuel : ℕ) (s : ControlInterface W) (done : Option Bool) (t : ControlInterface W)
      → Untouched (marked s) t
      → Settles (Untouched (marked s)) (Marks s) (resume net controller memory fuel done t)
  unfolding resume
  resume-Marks fuel s none t h = h
  resume-Marks fuel s (some false) t h = h
  resume-Marks fuel s (some true) t h =
      step-Marks s t (on_controller controller.send_clear_command) _ h
        (on_controller-Untouched controller.send_clear_command)
        (λ _ u k.
          step-Marks s u (on_client (send_script net)) _ k
            (on_client-Untouched (send_script net) (send_script-OnlyWorld net))
            (λ _ v l.
              step-Marks s v (wait_for_program_running net controller memory fuel 0) _ l
                (wait_for_program_running-Untouched net controller memory fuel 0)
                (λ ended w m. reset-Marks s w ended m)))

  -- Both ways to send a script, which differ in one step of the script client.
  sent-Marks :
      {A : Type 0} (fuel : ℕ) (s : ControlInterface W) (send : Action (ScriptClient W) A)
      → Obeys OnlyWorld send
      → Settles (Untouched (marked s)) (Marks s) (
          continue (stop_script net controller memory (marked s)) (λ _.
            on_controller controller.clock >>= (λ start_time. on_client send >>= (λ sent.
              wait_done net controller memory fuel start_time
              >>= resume net controller memory fuel))))
  sent-Marks fuel s send h =
      step-Marks s (marked s) (stop_script net controller memory) _ refl
        (stop_script-Untouched net controller memory never)
        (λ _ t k.
          step-Marks s t (on_controller controller.clock) _ k
            (on_controller-Untouched controller.clock)
            (λ start u l. step-Marks s u (on_client send) _ l (on_client-Untouched send h) (λ _ v m.
              step-Marks s v (wait_done net controller memory fuel start) _ m
                (wait_done-Untouched fuel start) (resume-Marks fuel s))))

  -- Condition: `sendCommand` never reconnects, which it does where an exception in its `try` block
  -- leaves the connection closed. `sendCustomScript` and `sendCustomScriptFile`, however they end,
  -- change nothing on the interface and its script client but the world and the mark of a running
  -- custom script: the mark is reset when they return true, and is left set when they return false
  -- at the time limit or end in an exception.
  pub send_custom_script-Marks :
      (fuel : ℕ) (script file_path : List ℕ) (s : ControlInterface W)
      → Settles
          (Untouched (marked s))
          (Marks s)
          (send_custom_script net controller memory fuel script s)
        × Settles
            (Untouched (marked s))
            (Marks s)
            (send_custom_script_file net controller memory fuel file_path s)
  unfolding send_custom_script send_custom_script_file
  send_custom_script-Marks fuel script file_path s = (
    sent-Marks fuel s (send_script_command net script) (send_script_command-OnlyWorld net script),
    sent-Marks fuel s (send_script_file net file_path) (send_script_file-OnlyWorld net file_path),
  )
