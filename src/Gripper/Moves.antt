-- ===== src/Gripper/Moves.antt =====
-- Which calls of src/robotiq_gripper.cpp keep the calibrated range of positions.
use ur_rtde_fork_custom.Base.{
  ℕ, zero, suc, ◌≡◌, Bool, true, false, not, List, [], ◌∷◌, Option, none, some, codes,
  if◌then◌else◌,
}
use ur_rtde_fork_custom.Base.Int.{ℤ, pos, le_int, same_int}
use ur_rtde_fork_custom.Base.Outcome.{Outcome, throws, fault, runtime_error}
use ur_rtde_fork_custom.Base.Action.{
  Action, return, lift, ◌>>=◌, ◌>>◌, Obeys, Obeys-then, Obeys-continue,
}
use ur_rtde_fork_custom.Gripper.{
  Wire, Gripper, MoveMode, start_move, wait_finished, on_socket, on_world, when_done, wait_until,
  exchange, get_var, set_vars, is_requested, wait_for_motion_complete, move_impl, moving,
}
use ur_rtde_fork_custom.Gripper.Text.{get_command, set_command, parse_value}
use ur_rtde_fork_custom.Gripper.Activation.{check_status}

module _ {W : Type 0} where
  -- The closed position stays within the range of the device.
  abbrev pub KeepsRange : Gripper W → Gripper W → Type 0
  KeepsRange s t = le_int s.max_position (pos 255) ≡ true → le_int t.max_position (pos 255) ≡ true

  pub chain : (a b c : Gripper W) → KeepsRange a b → KeepsRange b c → KeepsRange a c
  chain a b c h k r = k (h r)

  quiet : {A : Type 0} (m : Outcome A) → Obeys KeepsRange (lift m)
  quiet m s h = h

  on_socket-KeepsRange :
      {A : Type 0} (operation : Action W A) → Obeys KeepsRange (on_socket operation)
  on_socket-KeepsRange operation s = choice s.has_socket
    where
      choice :
          (b : Bool) → KeepsRange s (if b then on_world (operation s.world) s else (fault, s)).1
      choice true h = h
      choice false h = h

  module _ (net : Wire W) where
    exchange-KeepsRange : (cmd : List ℕ) → Obeys KeepsRange (exchange net cmd)
    unfolding exchange
    exchange-KeepsRange cmd =
        Obeys-then KeepsRange chain (on_socket (net.write cmd)) (on_socket net.read_some)
          (on_socket-KeepsRange (net.write cmd)) (on_socket-KeepsRange net.read_some)

    pub get_var-KeepsRange : (var : List ℕ) → Obeys KeepsRange (get_var net var)
    unfolding get_var
    get_var-KeepsRange var s =
        Obeys-continue KeepsRange s chain (exchange net (get_command var) s) _
          (exchange-KeepsRange (get_command var) s) (λ rx_string. quiet (parse_value var rx_string))

    set_vars-KeepsRange : (vars : List (List ℕ × ℤ)) → Obeys KeepsRange (set_vars net vars)
    unfolding set_vars
    set_vars-KeepsRange vars s =
        Obeys-continue KeepsRange s chain (exchange net (set_command vars) s) _
          (exchange-KeepsRange (set_command vars) s) (λ data' t h. h)

    is_requested-KeepsRange : (position : ℤ) → Obeys KeepsRange (is_requested net position)
    unfolding is_requested
    is_requested-KeepsRange position s =
        Obeys-continue KeepsRange s chain (get_var net (codes "PRE") s) _
          (get_var-KeepsRange (codes "PRE") s) (λ requested t h. h)

    wait_until-KeepsRange :
        (fuel : ℕ) (test : Action (Gripper W) Bool)
        → Obeys KeepsRange test
        → Obeys KeepsRange (wait_until fuel test (return tt))
    unfolding wait_until
    wait_until-KeepsRange zero test h s = λ k. k
    wait_until-KeepsRange (suc fuel) test h s =
        Obeys-continue KeepsRange s chain (test s) _ (h s)
          (λ is_done t. choice is_done t (wait_until-KeepsRange fuel test h t))
      where
        choice :
            (b : Bool) (t : Gripper W)
            → KeepsRange t (wait_until fuel test (return tt) t).1
            → KeepsRange t
                ((if b then return (some tt) else (return tt >> wait_until fuel test (return tt)))
                  t).1
        choice true t k = λ r. r
        choice false t k = k

    wait_for_motion_complete-KeepsRange :
        (fuel : ℕ) → Obeys KeepsRange (wait_for_motion_complete net fuel)
    unfolding wait_for_motion_complete
    wait_for_motion_complete-KeepsRange zero s = λ k. k
    wait_for_motion_complete-KeepsRange (suc fuel) s =
        Obeys-continue KeepsRange s chain (get_var net (codes "OBJ") s) _
          (get_var-KeepsRange (codes "OBJ") s)
          (λ status t.
            choice (same_int moving status) status t (wait_for_motion_complete-KeepsRange fuel t))
      where
        choice :
            (b : Bool) (status : ℤ) (t : Gripper W)
            → KeepsRange t (wait_for_motion_complete net fuel t).1
            → KeepsRange t
                ((if b then wait_for_motion_complete net fuel else return (some status)) t).1
        choice true status t k = k
        choice false status t k = λ r. r

    pub when_done-KeepsRange :
        {A B : Type 0} (rest : A → Action (Gripper W) (Option B))
        → ((a : A) → Obeys KeepsRange (rest a))
        → (o : Option A) → Obeys KeepsRange (when_done rest o)
    when_done-KeepsRange rest h none s = λ r. r
    when_done-KeepsRange rest h (some a) s = h a s

    pub check-KeepsRange : (b : Bool) → Obeys KeepsRange (check_status net b)
    check-KeepsRange true s = λ r. r
    check-KeepsRange false s = λ r. r

    move_on : ℕ → MoveMode → Action (Gripper W) (Option ℤ)
    move_on fuel mode = elim mode [
      | wait_finished ↦ wait_for_motion_complete net fuel
      | start_move ↦ (do status ← get_var net (codes "OBJ"); return (some status))
    ]

    move_on-KeepsRange : (fuel : ℕ) (mode : MoveMode) → Obeys KeepsRange (move_on fuel mode)
    unfolding move_on
    move_on-KeepsRange fuel wait_finished s = wait_for_motion_complete-KeepsRange fuel s
    move_on-KeepsRange fuel start_move s =
        Obeys-continue KeepsRange s chain (get_var net (codes "OBJ") s) _
          (get_var-KeepsRange (codes "OBJ") s) (λ status t r. r)

    pub move_impl-KeepsRange :
        (fuel : ℕ) (position speed force : ℤ) (mode : MoveMode)
        → Obeys KeepsRange (move_impl net fuel position speed force mode)
    unfolding move_impl move_on
    move_impl-KeepsRange fuel position speed force mode s =
        Obeys-continue KeepsRange s chain (set_vars net (command position speed force) s) _
          (set_vars-KeepsRange (command position speed force) s)
          (λ result t.
            Obeys-continue KeepsRange t chain
              ((if not result then lift (throws runtime_error) else return tt) t) _
              (choice (not result) t)
              (λ _ u.
                Obeys-continue KeepsRange u chain
                  (wait_until fuel (is_requested net position) (return tt) u) _
                  (wait_until-KeepsRange fuel (is_requested net position)
                    (is_requested-KeepsRange position) u)
                  (λ acknowledged.
                    when_done-KeepsRange (λ _. move_on fuel mode)
                      (λ _. move_on-KeepsRange fuel mode) acknowledged)))
      where
        command : ℤ → ℤ → ℤ → List (List ℕ × ℤ)
        command p v f =
            (codes "POS", p) ∷ (codes "SPE", v) ∷ (codes "FOR", f) ∷ (codes "GTO", pos 1) ∷ []

        choice :
            (b : Bool) (t : Gripper W)
            → KeepsRange t ((if b then lift (throws runtime_error) else return tt) t).1
        choice true t = λ r. r
        choice false t = λ r. r
