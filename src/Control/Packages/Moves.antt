-- ===== src/Control/Packages/Moves.antt =====
-- The packages of the blocking moves and of the stop commands.
use ur_rtde_fork_custom.Base.{ℕ, ◌≡◌, refl, Bool, List, [], ◌∷◌, ◌++◌, some, if◌then◌else◌, arith}
use ur_rtde_fork_custom.Base.Outcome.{ok}
use ur_rtde_fork_custom.Utility.RoundTrip.{IsWord64}
use ur_rtde_fork_custom.Rtde.Command.{RobotCommand}
use ur_rtde_fork_custom.Rtde.Send.{send_payload}
use ur_rtde_fork_custom.Rtde.Layout.{Controller, received}
use ur_rtde_fork_custom.Rtde.Layout.Decode.{append_if-vals}
use ur_rtde_fork_custom.Control.Limits.{
  verify_value_is_within, ur_joint_velocity_min, ur_joint_velocity_max, ur_joint_acceleration_min,
  ur_joint_acceleration_max, ur_tool_velocity_min, ur_tool_velocity_max, ur_tool_acceleration_min,
  ur_tool_acceleration_max,
}
use ur_rtde_fork_custom.Control.Recipes.{setup_recipes}
use ur_rtde_fork_custom.Control.Port.{recording_port}
use ur_rtde_fork_custom.Control.Motion.{move_j, move_j_ik, move_l, move_l_fk, stop_l, stop_j}
use ur_rtde_fork_custom.Control.Packages.{IsVector, IsVector-append, decode_vals_async}

module _ (c : Controller) (offset : ℕ) (no_ext_ft : Bool) (memory : RobotCommand)
    (ints doubles : ℕ → ℕ) where
  -- With six joint values and a joint speed and acceleration within the limits, `moveJ` and `moveJ_IK`
  -- send their command number, the target, the speed, the acceleration and the flag, in the order of
  -- their recipe and with nothing left over.
  pub move_joint_packages :
      (q : List ℕ) (speed acceleration : ℕ) (async : Bool)
      → IsVector 6 q
      → IsWord64 speed
      → IsWord64 acceleration
      → verify_value_is_within speed ur_joint_velocity_min ur_joint_velocity_max ≡ ok tt
      → verify_value_is_within acceleration ur_joint_acceleration_min ur_joint_acceleration_max
        ≡ ok tt
      → (received c
            (setup_recipes offset no_ext_ft)
            (move_j (recording_port ints doubles) memory q speed acceleration async)
          ≡ ok
              (some (1 ∷ ((q ++ speed ∷ acceleration ∷ []) ++ (if async then 1 else 0) ∷ [])) ∷ []))
        × (received c
              (setup_recipes offset no_ext_ft)
              (move_j_ik (recording_port ints doubles) memory q speed acceleration async)
            ≡ ok (
                some (2 ∷ ((q ++ speed ∷ acceleration ∷ []) ++ (if async then 1 else 0) ∷ []))
                ∷ []))
  unfolding move_j move_j_ik send_payload setup_recipes
  move_joint_packages q speed acceleration async vq hs ha ok_s ok_a = (
    rw (ok_s, ok_a)
        (simp (
          append_if-vals,
          c.int_register,
          c.double_register,
          decode_vals_async 1 8 (if async then 1 else 0) (q ++ speed ∷ acceleration ∷ [])
              (omega arith) (ground arith)
              (IsVector-append 6 2 q (speed ∷ acceleration ∷ []) vq (refl, (hs, (ha, tt)))),
        )),
    rw (ok_s, ok_a)
        (simp (
          append_if-vals,
          c.int_register,
          c.double_register,
          decode_vals_async 2 8 (if async then 1 else 0) (q ++ speed ∷ acceleration ∷ [])
              (omega arith) (ground arith)
              (IsVector-append 6 2 q (speed ∷ acceleration ∷ []) vq (refl, (hs, (ha, tt)))),
        )),
  )

  -- With six values and a tool speed and acceleration within the limits, `moveL` and `moveL_FK` send
  -- their command number, the target, the speed, the acceleration and the flag, in the order of their
  -- recipe and with nothing left over.
  move_tool_packages :
      (q : List ℕ) (speed acceleration : ℕ) (async : Bool)
      → IsVector 6 q
      → IsWord64 speed
      → IsWord64 acceleration
      → verify_value_is_within speed ur_tool_velocity_min ur_tool_velocity_max ≡ ok tt
      → verify_value_is_within acceleration ur_tool_acceleration_min ur_tool_acceleration_max
        ≡ ok tt
      → (received c
            (setup_recipes offset no_ext_ft)
            (move_l (recording_port ints doubles) memory q speed acceleration async)
          ≡ ok
              (some (3 ∷ ((q ++ speed ∷ acceleration ∷ []) ++ (if async then 1 else 0) ∷ [])) ∷ []))
        × (received c
              (setup_recipes offset no_ext_ft)
              (move_l_fk (recording_port ints doubles) memory q speed acceleration async)
            ≡ ok (
                some (4 ∷ ((q ++ speed ∷ acceleration ∷ []) ++ (if async then 1 else 0) ∷ []))
                ∷ []))
  unfolding move_l move_l_fk send_payload setup_recipes
  move_tool_packages q speed acceleration async vq hs ha ok_s ok_a = (
    rw (ok_s, ok_a)
        (simp (
          append_if-vals,
          c.int_register,
          c.double_register,
          decode_vals_async 3 8 (if async then 1 else 0) (q ++ speed ∷ acceleration ∷ [])
              (omega arith) (ground arith)
              (IsVector-append 6 2 q (speed ∷ acceleration ∷ []) vq (refl, (hs, (ha, tt)))),
        )),
    rw (ok_s, ok_a)
        (simp (
          append_if-vals,
          c.int_register,
          c.double_register,
          decode_vals_async 4 8 (if async then 1 else 0) (q ++ speed ∷ acceleration ∷ [])
              (omega arith) (ground arith)
              (IsVector-append 6 2 q (speed ∷ acceleration ∷ []) vq (refl, (hs, (ha, tt)))),
        )),
  )

  -- `stopL` and `stopJ` send their command number, the deceleration, a 64-bit pattern, and the flag.
  stop_packages :
      (a : ℕ) (async : Bool)
      → IsWord64 a
      → (received c
            (setup_recipes offset no_ext_ft)
            (stop_l (recording_port ints doubles) memory a async)
          ≡ ok (some (33 ∷ a ∷ (if async then 1 else 0) ∷ []) ∷ []))
        × (received c
              (setup_recipes offset no_ext_ft)
              (stop_j (recording_port ints doubles) memory a async)
            ≡ ok (some (34 ∷ a ∷ (if async then 1 else 0) ∷ []) ∷ []))
  unfolding stop_l stop_j send_payload setup_recipes
  stop_packages a async ha = (
    simp (
      append_if-vals,
      c.int_register,
      c.double_register,
      decode_vals_async 33 1 (if async then 1 else 0) (a ∷ []) (omega arith) (ground arith)
          (refl, (ha, tt)),
    ),
    simp (
      append_if-vals,
      c.int_register,
      c.double_register,
      decode_vals_async 34 1 (if async then 1 else 0) (a ∷ []) (omega arith) (ground arith)
          (refl, (ha, tt)),
    ),
  )
