-- ===== src/Control/Upload/Waiting.antt =====
-- `waitForProgramRunning` of src/rtde_control_interface.cpp ends.
use ur_rtde_fork_custom.Base.{
  ℕ, zero, suc, ◌+◌, ◌*◌, ◌≤◌, ◌<◌, ◌≡◌, ◌≢◌, refl, Bool, true, false, Option, none, some,
  if◌then◌else◌, ltb, arith,
}
use ur_rtde_fork_custom.Base.Outcome.{Outcome, ok, throws, fault, logic_error}
use ur_rtde_fork_custom.Base.Action.{Action, lift, return, continue, Ends}
use ur_rtde_fork_custom.Rtde.Command.{RobotCommand}
use ur_rtde_fork_custom.Script.Client.{ScriptWorld}
use ur_rtde_fork_custom.Control.Upload.{
  Controller, ControlInterface, on_controller, wait_for_program_running,
}

-- The loop has ended.
abbrev pub HasEnded : {W : Type 0} → Outcome (Option (Unit {0})) × ControlInterface W → Type 0
HasEnded p = Ends (λ result _. result ≢ none) p

module _ {W : Type 0} (net : ScriptWorld W) (controller : Controller W)
    (memory : RobotCommand) where
  round-HasEnded :
      (asked : Outcome Bool × ControlInterface W) (is_late : Bool)
      (again : Action (ControlInterface W) (Option (Unit {0})))
      → (is_late ≡ false → (s : ControlInterface W) → HasEnded (again s))
      → HasEnded (
          continue asked (λ running.
            if running
            then return (some tt)
            else (if is_late then lift (throws logic_error) else again)))
  round-HasEnded (fault, s) is_late again h = tt
  round-HasEnded (throws e, s) is_late again h = tt
  round-HasEnded (ok true, s) is_late again h = λ e. cc
  round-HasEnded (ok false, s) true again h = tt
  round-HasEnded (ok false, s) false again h = h refl s

  -- Whatever the robot answers, `waitForProgramRunning` ends: from 0 milliseconds it returns or throws
  -- after 501 rounds at most, and from a later count up to 5000 after fewer.
  pub wait_for_program_running-HasEnded :
      (fuel ms_count : ℕ) (s : ControlInterface W)
      → ms_count ≤ 5000
      → 5000 < ms_count + 10 * fuel
      → HasEnded (wait_for_program_running net controller memory fuel ms_count s)
  unfolding wait_for_program_running
  wait_for_program_running-HasEnded zero ms_count s early enough = absurd (omega arith)
  wait_for_program_running-HasEnded (suc fuel) ms_count s early enough =
      round-HasEnded (on_controller controller.is_program_running s) (ltb 5000 (ms_count + 10))
        (wait_for_program_running net controller memory fuel (ms_count + 10))
        (λ e t.
          wait_for_program_running-HasEnded fuel (ms_count + 10) t (ground arith) (omega arith))
