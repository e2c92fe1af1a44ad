-- ===== src/Gripper/Activation.antt =====
-- The longer sequences of `RobotiqGripper` of src/robotiq_gripper.cpp: activation, calibration and the
-- emergency release.
use ur_rtde_fork_custom.Base.{
  ℕ, Bool, true, ◌||◌, List, [], ◌∷◌, Option, none, some, codes, if◌then◌else◌,
}
use ur_rtde_fork_custom.Base.Int.{ℤ, pos, same_int, le_int, subtract}
use ur_rtde_fork_custom.Base.Outcome.{throws, runtime_error}
use ur_rtde_fork_custom.Base.Action.{Action, return, lift, modify, ◌>>=◌, ◌>>◌}
use ur_rtde_fork_custom.Gripper.{
  Wire, Gripper, MoveMode, start_move, wait_finished, at_dest, stopped_inner_object,
  stopped_outer_object, when_done, wait_until, get_var, set_var, is_active, both_are, reset,
  is_reset, move_impl,
}

-- `none` stands for a negative speed.
abbrev pub calibration_speed : Option ℤ → ℤ
calibration_speed none = pos 64
calibration_speed (some speed) = speed

module _ {W : Type 0} (net : Wire W) where
  -- The console output is left out; the variables are read all the same.
  unfoldable pub read_vars : List (List ℕ) → Action (Gripper W) (Unit {0})
  unfolding get_var
  read_vars [] = return tt
  read_vars (var ∷ vars) = do value ← get_var net var; read_vars vars

  unfoldable pub dump_vars : Action (Gripper W) (Unit {0})
  unfolding read_vars
  dump_vars = read_vars (
      codes "ACT"
      ∷ codes "GTO"
      ∷ codes "FOR"
      ∷ codes "SPE"
      ∷ codes "POS"
      ∷ codes "STA"
      ∷ codes "PRE"
      ∷ codes "OBJ"
      ∷ codes "FLT"
      ∷ [])

  -- The position that `autoCalibrate` takes for the closed one.
  unfoldable pub record_closed : ℤ → Action (Gripper W) (Unit {0})
  unfolding get_var
  record_closed status = do
    position ← get_var net (codes "POS")
    modify (λ s. record s {
      max_position =
          let p = if same_int stopped_inner_object status then subtract position 5 else position in
          if le_int p (pos 255) then p else pos 255;
    })

  unfoldable pub read_open : Action (Gripper W) (Unit {0})
  unfolding get_var
  read_open = do
    position ← get_var net (codes "POS")
    modify (λ s. record s { min_position = position })

  -- The member is first lowered by 5 behind an outer object, and then overwritten.
  unfoldable pub record_open : ℤ → Action (Gripper W) (Unit {0})
  unfolding read_open
  record_open status =
      modify (λ s.
        if same_int stopped_outer_object status
        then record s { min_position = subtract s.min_position 5 }
        else s)
      >> read_open

  abbrev pub check_status : Bool → Action (Gripper W) (Unit {0})
  check_status is_fine = if is_fine then return tt else lift (throws runtime_error)

  unfoldable pub find_open : ℕ → ℤ → Action (Gripper W) (Option (Unit {0}))
  unfolding move_impl record_open
  find_open fuel speed = do
    moved ← move_impl net fuel (pos 0) speed (pos 1) wait_finished
    when_done
        (λ status. do
          check_status (same_int status at_dest || same_int status stopped_outer_object)
          record_open status
          return (some tt))
        moved

  unfoldable pub find_closed : ℕ → ℤ → Action (Gripper W) (Option (Unit {0}))
  unfolding move_impl record_closed find_open
  find_closed fuel speed = do
    moved ← move_impl net fuel (pos 255) speed (pos 1) wait_finished
    when_done
        (λ status. do
          check_status (same_int status at_dest || same_int status stopped_inner_object)
          record_closed status
          find_open fuel speed)
        moved

  unfoldable pub auto_calibrate : ℕ → Option ℤ → Action (Gripper W) (Option (Unit {0}))
  unfolding move_impl find_closed
  auto_calibrate fuel f_speed = do
    moved ← move_impl net fuel (pos 0) (calibration_speed f_speed) (pos 1) wait_finished
    when_done
        (λ status. do
          check_status (same_int status at_dest)
          find_closed fuel (calibration_speed f_speed))
        moved

  -- Resetting, and switching on.
  unfoldable pub switch_on : ℕ → Action (Gripper W) (Option (Unit {0}))
  unfolding reset wait_until is_reset set_var both_are
  switch_on fuel = do
    is_clear ← reset net fuel
    when_done
        (λ _. do
          is_off ← wait_until fuel (is_reset net) (return tt)
          when_done
              (λ _. do
                answer ← set_var net (codes "ACT") (pos 1)
                wait_until fuel (both_are net (codes "ACT") (pos 1) (codes "STA") (pos 3))
                    (return tt))
              is_off)
        is_clear

  unfoldable pub activate : ℕ → Bool → Action (Gripper W) (Option (Unit {0}))
  unfolding is_active switch_on auto_calibrate dump_vars
  activate fuel calibrate = do
    active ← is_active net
    is_on ← (if active then return (some tt) else switch_on fuel)
    when_done
        (λ _. do
          calibrated ← (if calibrate then auto_calibrate fuel none else return (some tt))
          when_done (λ _. do dump_vars; return (some tt)) calibrated)
        is_on

  abbrev pub fault_emcy_release_active : ℤ
  fault_emcy_release_active = pos 11

  abbrev pub fault_emcy_release_finished : ℤ
  fault_emcy_release_finished = pos 15

  -- The fault status is read a second time if the first is not the one for a release that is active.
  unfoldable pub is_releasing : Action (Gripper W) Bool
  unfolding get_var
  is_releasing = do
    first ← get_var net (codes "FLT")
    (if same_int first fault_emcy_release_active then return true else (do
      second ← get_var net (codes "FLT")
      return (same_int second fault_emcy_release_finished)))

  unfoldable pub is_released : Action (Gripper W) Bool
  unfolding get_var
  is_released = do
    status ← get_var net (codes "FLT")
    return (same_int status fault_emcy_release_finished)

  -- The direction is 0 to open and 1 to close.
  unfoldable pub emergency_release : ℕ → ℤ → MoveMode → Action (Gripper W) (Option (Unit {0}))
  unfolding set_var wait_until is_releasing is_released
  emergency_release fuel direction mode = do
    a ← set_var net (codes "ATR") (pos 0)
    b ← set_var net (codes "ARD") direction
    c ← set_var net (codes "ACT") (pos 1)
    d ← set_var net (codes "ATR") (pos 1)
    is_begun ← wait_until fuel is_releasing (return tt)
    when_done
        (λ _. elim mode [
          | start_move ↦ return (some tt)
          | wait_finished ↦ wait_until fuel is_released (return tt)
        ])
        is_begun
