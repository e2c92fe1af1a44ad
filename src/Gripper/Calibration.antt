-- ===== src/Gripper/Calibration.antt =====
-- `autoCalibrate` of src/robotiq_gripper.cpp.
use ur_rtde_fork_custom.Base.{
  ℕ, ◌≡◌, refl, Bool, true, false, ◌||◌, Option, some, codes, if◌then◌else◌,
}
use ur_rtde_fork_custom.Base.Int.{ℤ, pos, le_int, same_int, subtract}
use ur_rtde_fork_custom.Base.Action.{Action, return, ◌>>=◌, ◌>>◌, Obeys, Obeys-then, Obeys-continue}
use ur_rtde_fork_custom.Gripper.{
  Wire, Gripper, wait_finished, when_done, get_var, move_impl, at_dest, stopped_inner_object,
  stopped_outer_object,
}
use ur_rtde_fork_custom.Gripper.Activation.{
  auto_calibrate, find_closed, find_open, record_closed, record_open, read_open, check_status,
  calibration_speed,
}
use ur_rtde_fork_custom.Gripper.Moves.{
  KeepsRange, chain, get_var-KeepsRange, when_done-KeepsRange, check-KeepsRange,
  move_impl-KeepsRange,
}

least :
    (p : ℤ) (b : Bool) → le_int p (pos 255) ≡ b → le_int (if b then p else pos 255) (pos 255) ≡ true
least p true e = e
least p false e = refl

module _ {W : Type 0} (net : Wire W) where
  record_closed-KeepsRange : (status : ℤ) → Obeys KeepsRange (record_closed net status)
  unfolding record_closed
  record_closed-KeepsRange status s =
      Obeys-continue KeepsRange s chain (get_var net (codes "POS") s) _
        (get_var-KeepsRange net (codes "POS") s)
        (λ position t _.
          let p = if same_int stopped_inner_object status then subtract position 5 else position in
          least p (le_int p (pos 255)) refl)

  read_open-KeepsRange : Obeys KeepsRange (read_open net)
  unfolding read_open
  read_open-KeepsRange s =
      Obeys-continue KeepsRange s chain (get_var net (codes "POS") s) _
        (get_var-KeepsRange net (codes "POS") s) (λ position t r. r)

  record_open-KeepsRange : (status : ℤ) → Obeys KeepsRange (record_open net status)
  unfolding record_open
  record_open-KeepsRange status s = choice (same_int stopped_outer_object status)
    where
      lowered : Bool → Gripper W
      lowered b = if b then record s { min_position = subtract s.min_position 5 } else s

      choice : (b : Bool) → KeepsRange s (read_open net (lowered b)).1
      choice true = read_open-KeepsRange (lowered true)
      choice false = read_open-KeepsRange s

  -- A move, a test on its status, and the rest.
  step-KeepsRange :
      {A : Type 0} (fuel : ℕ) (position speed : ℤ) (test : ℤ → Bool)
      (rest : ℤ → Action (Gripper W) (Option A))
      → ((status : ℤ) → Obeys KeepsRange (rest status))
      → Obeys KeepsRange (
          move_impl net fuel position speed (pos 1) wait_finished
          >>= when_done (λ status. check_status net (test status) >> rest status))
  step-KeepsRange fuel position speed test rest h s =
      Obeys-continue KeepsRange s chain (move_impl net fuel position speed (pos 1) wait_finished s)
        _ (move_impl-KeepsRange net fuel position speed (pos 1) wait_finished s)
        (λ moved.
          when_done-KeepsRange net (λ status. check_status net (test status) >> rest status)
            (λ status.
              Obeys-then KeepsRange chain (check_status net (test status)) (rest status)
                (check-KeepsRange net (test status)) (h status))
            moved)

  find_open-KeepsRange : (fuel : ℕ) (speed : ℤ) → Obeys KeepsRange (find_open net fuel speed)
  unfolding find_open
  find_open-KeepsRange fuel speed =
      step-KeepsRange fuel (pos 0) speed
        (λ status. same_int status at_dest || same_int status stopped_outer_object)
        (λ status. record_open net status >> return (some tt))
        (λ status.
          Obeys-then KeepsRange chain (record_open net status) (return (some tt))
            (record_open-KeepsRange status) (λ t r. r))

  find_closed-KeepsRange : (fuel : ℕ) (speed : ℤ) → Obeys KeepsRange (find_closed net fuel speed)
  unfolding find_closed
  find_closed-KeepsRange fuel speed =
      step-KeepsRange fuel (pos 255) speed
        (λ status. same_int status at_dest || same_int status stopped_inner_object)
        (λ status. record_closed net status >> find_open net fuel speed)
        (λ status.
          Obeys-then KeepsRange chain (record_closed net status) (find_open net fuel speed)
            (record_closed-KeepsRange status) (find_open-KeepsRange fuel speed))

  -- A closed position of at most 255 stays one through `autoCalibrate`, whatever the gripper answers and
  -- however the calibration ends: with success, with an exception at any step, or still waiting.
  pub auto_calibrate-KeepsRange :
      (fuel : ℕ) (f_speed : Option ℤ) (s : Gripper W)
      → le_int s.max_position (pos 255) ≡ true
      → le_int (auto_calibrate net fuel f_speed s).1.max_position (pos 255) ≡ true
  unfolding auto_calibrate
  auto_calibrate-KeepsRange fuel f_speed s =
      step-KeepsRange fuel (pos 0) (calibration_speed f_speed) (λ status. same_int status at_dest)
        (λ status. find_closed net fuel (calibration_speed f_speed))
        (λ status. find_closed-KeepsRange fuel (calibration_speed f_speed)) s
