-- ===== src/Gripper/Asking.antt =====
-- What `RobotiqGripper` of src/robotiq_gripper.cpp asks while it waits for a move.
use ur_rtde_fork_custom.Base.{
  ℕ, zero, suc, refl, inl, inr, Bool, true, false, List, Option, none, some, codes, if◌then◌else◌,
}
use ur_rtde_fork_custom.Base.Int.{ℤ, same_int}
use ur_rtde_fork_custom.Base.Action.{Action, return, ◌>>=◌, ◌>>◌, Obeys, Obeys-continue}
use ur_rtde_fork_custom.Gripper.{
  Wire, Gripper, MoveMode, start_move, wait_finished, when_done, wait_until, exchange, get_var,
  is_requested, wait_for_motion_complete, moving, on_socket,
}
use ur_rtde_fork_custom.Gripper.Text.{get_command, parse_value}
use ur_rtde_fork_custom.Gripper.Noted.{
  Noted, noted, Asks, Asks-refl, chain, quiet, write-Asks, read-Asks, IsQuestion,
}

module _ {W : Type 0} (net : Wire W) where
  get_var-Asks :
      (var : List ℕ) → IsQuestion (get_command var) → Obeys Asks (get_var (noted net) var)
  unfolding get_var exchange
  get_var-Asks var h s =
      Obeys-continue Asks s chain
        ((on_socket ((noted net).write (get_command var)) >> on_socket (noted net).read_some) s) _
        (Obeys-continue Asks s chain (on_socket ((noted net).write (get_command var)) s) _
          (write-Asks net (get_command var) h s) (λ _. read-Asks net))
        (λ rx_string. quiet (parse_value var rx_string))

  pre-IsQuestion : IsQuestion (get_command (codes "PRE"))
  unfolding get_command
  pre-IsQuestion = inl refl

  obj-IsQuestion : IsQuestion (get_command (codes "OBJ"))
  unfolding get_command
  obj-IsQuestion = inr refl

  pub is_requested-Asks : (target : ℤ) → Obeys Asks (is_requested (noted net) target)
  unfolding is_requested
  is_requested-Asks target s =
      Obeys-continue Asks s chain (get_var (noted net) (codes "PRE") s) _
        (get_var-Asks (codes "PRE") pre-IsQuestion s) (λ requested t. Asks-refl t)

  pub wait_until-Asks :
      (fuel : ℕ) (target : ℤ)
      → Obeys Asks (wait_until fuel (is_requested (noted net) target) (return tt))
  unfolding wait_until
  wait_until-Asks zero target s = Asks-refl s
  wait_until-Asks (suc fuel) target s =
      Obeys-continue Asks s chain (is_requested (noted net) target s) _ (is_requested-Asks target s)
        (λ is_done t. choice is_done t (wait_until-Asks fuel target t))
    where
      again : Action (Gripper (Noted W)) (Option (Unit {0}))
      again = wait_until fuel (is_requested (noted net) target) (return tt)

      choice :
          (b : Bool) (t : Gripper (Noted W))
          → Asks t (again t).1
          → Asks t ((if b then return (some tt) else (return tt >> again)) t).1
      choice true t k = Asks-refl t
      choice false t k = k

  wait_for_motion_complete-Asks :
      (fuel : ℕ) → Obeys Asks (wait_for_motion_complete (noted net) fuel)
  unfolding wait_for_motion_complete
  wait_for_motion_complete-Asks zero s = Asks-refl s
  wait_for_motion_complete-Asks (suc fuel) s =
      Obeys-continue Asks s chain (get_var (noted net) (codes "OBJ") s) _
        (get_var-Asks (codes "OBJ") obj-IsQuestion s)
        (λ status t.
          choice (same_int moving status) status t (wait_for_motion_complete-Asks fuel t))
    where
      choice :
          (b : Bool) (status : ℤ) (t : Gripper (Noted W))
          → Asks t (wait_for_motion_complete (noted net) fuel t).1
          → Asks t
              ((if b then wait_for_motion_complete (noted net) fuel else return (some status)) t).1
      choice true status t k = k
      choice false status t k = Asks-refl t

  unfoldable pub move_on : ℕ → MoveMode → Action (Gripper (Noted W)) (Option ℤ)
  move_on fuel mode = elim mode [
    | wait_finished ↦ wait_for_motion_complete (noted net) fuel
    | start_move ↦ (do status ← get_var (noted net) (codes "OBJ"); return (some status))
  ]

  move_on-Asks : (fuel : ℕ) (mode : MoveMode) → Obeys Asks (move_on fuel mode)
  unfolding move_on
  move_on-Asks fuel wait_finished s = wait_for_motion_complete-Asks fuel s
  move_on-Asks fuel start_move s =
      Obeys-continue Asks s chain (get_var (noted net) (codes "OBJ") s) _
        (get_var-Asks (codes "OBJ") obj-IsQuestion s) (λ status t. Asks-refl t)

  pub acknowledged-Asks :
      (fuel : ℕ) (mode : MoveMode) (o : Option (Unit {0}))
      → Obeys Asks (when_done (λ _. move_on fuel mode) o)
  acknowledged-Asks fuel mode none s = Asks-refl s
  acknowledged-Asks fuel mode (some _) s = move_on-Asks fuel mode s
