-- ===== src/Control/Packages/Questions.antt =====
-- The packages of the commands that ask the controller for a value.
use ur_rtde_fork_custom.Base.{
  ℕ, ◌≡◌, refl, Bool, false, List, [], ◌∷◌, ◌++◌, none, some, arith, append-nil, is_empty,
}
use ur_rtde_fork_custom.Base.Outcome.{ok}
use ur_rtde_fork_custom.Utility.RoundTrip.{IsWord32, IsWord64}
use ur_rtde_fork_custom.Rtde.Command.{RobotCommand}
use ur_rtde_fork_custom.Rtde.Send.{send_payload}
use ur_rtde_fork_custom.Rtde.Layout.{Controller, received}
use ur_rtde_fork_custom.Rtde.Layout.Decode.{
  append_if-vals, decode-pack_int32, decode_last-steps, pack_vector_nd_nil,
  decode_short-pack_vector_nd,
}
use ur_rtde_fork_custom.Control.Recipes.{setup_recipes}
use ur_rtde_fork_custom.Control.Port.{recording_port, output_double_regs, with_robot_state}
use ur_rtde_fork_custom.Control.Queries.{
  get_inverse_kinematics, get_inverse_kinematics_has_solution, pose_trans, get_forward_kinematics,
  get_actual_joint_positions_history,
}
use ur_rtde_fork_custom.Control.Packages.{IsVector, IsVector-append, decode_vals}

nonempty : (vs : List ℕ) → IsVector 6 vs → is_empty vs ≡ false
nonempty [] v = absurd (omega (arith, v.0))
nonempty (x ∷ vs) v = refl

module _ (c : Controller) (offset : ℕ) (no_ext_ft : Bool) (memory : RobotCommand)
    (ints doubles : ℕ → ℕ) where
  -- For a pose and near joint positions of six numbers each, all 64-bit patterns as the
  -- tolerances are, `getInverseKinematics` and `getInverseKinematicsHasSolution` send the pose,
  -- the near positions and both tolerances, and the pose alone where no near position is given.
  inverse_kinematics_packages :
      (x qnear : List ℕ) (position_error orientation_error : ℕ)
      → IsVector 6 x
      → IsVector 6 qnear
      → IsWord64 position_error
      → IsWord64 orientation_error
      → (received c (setup_recipes offset no_ext_ft) (
            get_inverse_kinematics
              (recording_port ints doubles)
              memory
              x
              qnear
              position_error
              orientation_error)
          ≡ ok (some (30 ∷ ((x ++ qnear) ++ position_error ∷ orientation_error ∷ [])) ∷ []))
        × (received c (setup_recipes offset no_ext_ft) (
              get_inverse_kinematics
                (recording_port ints doubles)
                memory
                x
                []
                position_error
                orientation_error)
            ≡ ok (some (46 ∷ x) ∷ []))
        × (received c (setup_recipes offset no_ext_ft) (
              get_inverse_kinematics_has_solution
                (recording_port ints doubles)
                memory
                x
                qnear
                position_error
                orientation_error)
            ≡ ok (some (61 ∷ ((x ++ qnear) ++ position_error ∷ orientation_error ∷ [])) ∷ []))
        × (received c (setup_recipes offset no_ext_ft) (
              get_inverse_kinematics_has_solution
                (recording_port ints doubles)
                memory
                x
                []
                position_error
                orientation_error)
            ≡ ok (some (60 ∷ x) ∷ []))
  unfolding get_inverse_kinematics get_inverse_kinematics_has_solution with_robot_state
      output_double_regs send_payload setup_recipes
  inverse_kinematics_packages x qnear position_error orientation_error vx vq hp ho = (
    simp (
      append_if-vals,
      c.int_register,
      c.double_register,
      nonempty qnear vq,
      decode_vals 30 14 ((x ++ qnear) ++ position_error ∷ orientation_error ∷ []) (omega arith) (
          IsVector-append 12 2 (x ++ qnear) (position_error ∷ orientation_error ∷ [])
            (IsVector-append 6 6 x qnear vx vq) (refl, (hp, (ho, tt)))),
    ),
    simp (append_if-vals, c.int_register, c.double_register, decode_vals 46 6 x (omega arith) vx),
    simp (
      append_if-vals,
      c.int_register,
      c.double_register,
      nonempty qnear vq,
      decode_vals 61 14 ((x ++ qnear) ++ position_error ∷ orientation_error ∷ []) (omega arith) (
          IsVector-append 12 2 (x ++ qnear) (position_error ∷ orientation_error ∷ [])
            (IsVector-append 6 6 x qnear vx vq) (refl, (hp, (ho, tt)))),
    ),
    simp (append_if-vals, c.int_register, c.double_register, decode_vals 60 6 x (omega arith) vx),
  )

  -- `poseTrans` sends both poses.
  pose_trans_package :
      (p_from p_from_to : List ℕ)
      → IsVector 6 p_from
      → IsVector 6 p_from_to
      → (received c
            (setup_recipes offset no_ext_ft)
            (pose_trans (recording_port ints doubles) memory p_from p_from_to)
          ≡ ok (some (39 ∷ (p_from ++ p_from_to)) ∷ []))
  unfolding pose_trans with_robot_state output_double_regs send_payload setup_recipes
  pose_trans_package p_from p_from_to vf vt = simp (
    append_if-vals,
    c.int_register,
    c.double_register,
    decode_vals 39 12 (p_from ++ p_from_to) (omega arith)
        (IsVector-append 6 6 p_from p_from_to vf vt),
  )

  -- `getForwardKinematics` sends its command number alone, with the joint positions, or with
  -- these and the tool offset, by which of its arguments are given, where a given one has six
  -- 64-bit patterns.
  forward_kinematics_packages :
      (q tcp_offset : List ℕ)
      → IsVector 6 q
      → IsVector 6 tcp_offset
      → (received c
            (setup_recipes offset no_ext_ft)
            (get_forward_kinematics (recording_port ints doubles) memory [] [])
          ≡ ok (some (43 ∷ []) ∷ []))
        × (received c
              (setup_recipes offset no_ext_ft)
              (get_forward_kinematics (recording_port ints doubles) memory q [])
            ≡ ok (some (44 ∷ q) ∷ []))
        × (received c
              (setup_recipes offset no_ext_ft)
              (get_forward_kinematics (recording_port ints doubles) memory q tcp_offset)
            ≡ ok (some (44 ∷ (q ++ tcp_offset)) ∷ []))
  unfolding get_forward_kinematics with_robot_state output_double_regs send_payload setup_recipes
  forward_kinematics_packages q tcp_offset vq vt = (
    simp (
      append_if-vals,
      c.int_register,
      c.double_register,
      decode_vals 43 0 [] (omega arith) (refl, tt),
    ),
    simp (
      append_if-vals,
      c.int_register,
      c.double_register,
      nonempty q vq,
      decode_vals 44 6 q (omega arith) vq,
    ),
    simp (
      append_if-vals,
      c.int_register,
      c.double_register,
      nonempty q vq,
      nonempty tcp_offset vt,
      decode_vals 44 12 (q ++ tcp_offset) (omega arith) (IsVector-append 6 6 q tcp_offset vq vt),
    ),
  )

  -- `getActualJointPositionsHistory` sends the number of steps as an unsigned word.
  joint_positions_history_package :
      (steps : ℕ)
      → IsWord32 steps
      → (received c
            (setup_recipes offset no_ext_ft)
            (get_actual_joint_positions_history (recording_port ints doubles) memory steps)
          ≡ ok (some (27 ∷ steps ∷ []) ∷ []))
  unfolding get_actual_joint_positions_history with_robot_state output_double_regs send_payload
      setup_recipes
  joint_positions_history_package steps hs = simp (
    append_if-vals,
    c.int_register,
    c.double_register,
    pack_vector_nd_nil,
    decode-pack_int32 _ _ 27 (omega arith),
    append-nil,
    decode_last-steps steps hs,
  )

  -- With a tool offset of six 64-bit patterns and no joint positions `getForwardKinematics`
  -- sends one package, which the controller cannot read by its recipe of twelve numbers.
  pub forward_kinematics_tool_only :
      (tcp_offset : List ℕ)
      → IsVector 6 tcp_offset
      → received c
          (setup_recipes offset no_ext_ft)
          (get_forward_kinematics (recording_port ints doubles) memory [] tcp_offset)
        ≡ ok (none ∷ [])
  unfolding get_forward_kinematics with_robot_state output_double_regs send_payload setup_recipes
  forward_kinematics_tool_only tcp_offset vt = simp (
    nonempty tcp_offset vt,
    append_if-vals,
    c.int_register,
    c.double_register,
    decode-pack_int32 _ _ 44 (omega arith),
    decode_short-pack_vector_nd tcp_offset 6 5 vt.0 vt.1,
  )
