-- ===== src/Gripper/Bounds.antt =====
-- What `move`, `setSpeed` and `setForce` of src/robotiq_gripper.cpp ask of the gripper.
use ur_rtde_fork_custom.Base.{
  ℕ, ◌≡◌, refl, ◌⊎◌, Bool, true, false, not, List, [], ◌∷◌, ◌++◌, codes, if◌then◌else◌, arith, leb,
  append_assoc,
}
use ur_rtde_fork_custom.Base.Int.{ℤ, pos, le_int, lt_int, clamp}
use ur_rtde_fork_custom.Base.Outcome.{ok, throws, runtime_error}
use ur_rtde_fork_custom.Base.Action.{return, lift, ◌>>◌, Obeys-continue}
use ur_rtde_fork_custom.Gripper.{
  Wire, Gripper, MoveMode, wait_until, exchange, set_vars, is_requested, move_impl, on_socket,
}
use ur_rtde_fork_custom.Gripper.Text.{int_text, set_command}
use ur_rtde_fork_custom.Gripper.Units.{MoveParameter, FloatOps}
use ur_rtde_fork_custom.Gripper.Commands.{device_value, user_value, move, set_speed, set_force}
use ur_rtde_fork_custom.Gripper.Noted.{
  Noted, noted, Asks, Asks-refl, Commands, chain, Commands-continue, write-Commands, read-Asks,
}
use ur_rtde_fork_custom.Gripper.Asking.{move_on, wait_until-Asks, acknowledged-Asks}

-- `r` is `v` where that lies within the limits, and else the limit on its side.
abbrev pub Limited : ℕ → ℕ → ℤ → ℤ → Type 0
Limited low high v r =
    (le_int (pos low) r ≡ true)
    × (le_int r (pos high) ≡ true)
    × ((r ≡ v)
        ⊎ (((lt_int v (pos low) ≡ true) × (r ≡ pos low))
            ⊎ ((lt_int (pos high) v ≡ true) × (r ≡ pos high))))

clamp-Limited :
    (low high : ℕ) (v : ℤ) → leb low high ≡ true → Limited low high v (clamp v (pos low) (pos high))
clamp-Limited low high v h = ground (arith, h)

-- The command that sets a target.
abbrev pub target_text : ℤ → ℤ → ℤ → List ℕ
target_text a b c =
    codes "SET POS "
    ++ (int_text a
        ++ (codes " SPE "
            ++ (int_text b ++ (codes " FOR " ++ (int_text c ++ (codes " GTO 1" ++ 10 ∷ []))))))

set_command-target :
    (a b c : ℤ)
    → set_command
        ((codes "POS", a) ∷ (codes "SPE", b) ∷ (codes "FOR", c) ∷ (codes "GTO", pos 1) ∷ [])
      ≡ target_text a b c
unfolding set_command int_text
set_command-target a b c = simp append_assoc

module _ {W : Type 0} (net : Wire W) where
  set_vars-Commands :
      (vars : List (List ℕ × ℤ)) (s : Gripper (Noted W))
      → s.has_socket ≡ true
      → Commands (set_command vars) s (set_vars (noted net) vars s).1
  unfolding set_vars exchange
  set_vars-Commands vars s link =
      Commands-continue (set_command vars) s
        ((on_socket ((noted net).write (set_command vars)) >> on_socket (noted net).read_some) s) _
        (Commands-continue (set_command vars) s (on_socket ((noted net).write (set_command vars)) s)
          _ (write-Commands net (set_command vars) s link) (λ _. read-Asks net))
        (λ answer t. Asks-refl t)

  pub move_impl-Commands :
      (fuel : ℕ) (a b c : ℤ) (mode : MoveMode) (s : Gripper (Noted W))
      → s.has_socket ≡ true
      → Commands (target_text a b c) s (move_impl (noted net) fuel a b c mode s).1
  unfolding move_impl move_on
  move_impl-Commands fuel a b c mode s link =
      Commands-continue (target_text a b c) s (set_vars (noted net) variables s) _
        (rw (set_command-target a b c) at (set_vars-Commands variables s link))
        (λ result t.
          Obeys-continue Asks t chain
            ((if not result then lift (throws runtime_error) else return tt) t) _
            (choice (not result) t)
            (λ _ u.
              Obeys-continue Asks u chain
                (wait_until fuel (is_requested (noted net) a) (return tt) u) _
                (wait_until-Asks net fuel a u) (acknowledged-Asks net fuel mode)))
    where
      variables : List (List ℕ × ℤ)
      variables = (codes "POS", a) ∷ (codes "SPE", b) ∷ (codes "FOR", c) ∷ (codes "GTO", pos 1) ∷ []

      choice :
          (is_refused : Bool) (t : Gripper (Noted W))
          → Asks t ((if is_refused then lift (throws runtime_error) else return tt) t).1
      choice true t = Asks-refl t
      choice false t = Asks-refl t

  module _ {F : Type 0} (floats : FloatOps F) where
    -- What is asked for with the device values `p`, `v` and `f`: one command with the limited position,
    -- speed and force.
    abbrev pub Sends : F → F → ℤ → ℤ → ℤ → Gripper (Noted W) → Gripper (Noted W) → Type 0
    Sends f_speed f_force p v f s t =
        (a b c : ℤ) × Limited 0 255 p a
        × Limited 1 255 (if floats.is_negative f_speed then s.speed else v) b
        × Limited 0 255 (if floats.is_negative f_force then s.force else f) c
        × Commands (target_text a b c) s t

    -- With an open socket and values whose conversions to device units are defined, `move` writes
    -- one line `SET POS a SPE b FOR c GTO 1`, and behind it nothing but the questions `GET PRE` and
    -- `GET OBJ`, whatever the gripper answers and however the call ends. There `a` is the position
    -- limited to 0 to 255, `b` the speed limited to 1 to 255, and `c` the force limited to 0 to
    -- 255, where a negative speed or force stands for the one that was set. `setSpeed` and
    -- `setForce` keep the speed and the force within the same limits.
    pub move-Sends :
        (fuel : ℕ) (f_position f_speed f_force : F) (mode : MoveMode) (s : Gripper (Noted W))
        (p v f : ℤ)
        → s.has_socket ≡ true
        → device_value (noted net) floats MoveParameter.position f_position s ≡ (ok p, s)
        → device_value (noted net) floats MoveParameter.speed f_speed s ≡ (ok v, s)
        → device_value (noted net) floats MoveParameter.force f_force s ≡ (ok f, s)
        → Sends f_speed f_force p v f s
            (move (noted net) floats fuel f_position f_speed f_force mode s).1
          × Limited 1 255 v (set_speed (noted net) floats f_speed s).1.speed
          × Limited 0 255 f (set_force (noted net) floats f_force s).1.force
    unfolding move set_speed set_force user_value
    move-Sends fuel f_position f_speed f_force mode s p v f link hp hv hf =
        let chosen_speed = if floats.is_negative f_speed then s.speed else v in
        let chosen_force = if floats.is_negative f_force then s.force else f in
        (
          (
            clamp p (pos 0) (pos 255),
            clamp chosen_speed (pos 1) (pos 255),
            clamp chosen_force (pos 0) (pos 255),
            clamp-Limited 0 255 p refl,
            clamp-Limited 1 255 chosen_speed refl,
            clamp-Limited 0 255 chosen_force refl,
            rw (hp, hv, hf)
                (move_impl-Commands fuel (clamp p (pos 0) (pos 255))
                  (clamp chosen_speed (pos 1) (pos 255)) (clamp chosen_force (pos 0) (pos 255)) mode
                  s link),
          ),
          rw hv (clamp-Limited 1 255 v refl),
          rw hf (clamp-Limited 0 255 f refl),
        )
