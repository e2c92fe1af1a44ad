-- ===== src/Control/Packages/Streams.antt =====
-- The packages of the commands that stream speeds and positions.
use ur_rtde_fork_custom.Base.{ℕ, ◌≡◌, refl, Bool, List, [], ◌∷◌, ◌++◌, some, arith}
use ur_rtde_fork_custom.Base.Outcome.{ok}
use ur_rtde_fork_custom.Utility.RoundTrip.{IsWord64}
use ur_rtde_fork_custom.Rtde.Command.{RobotCommand}
use ur_rtde_fork_custom.Rtde.Send.{send_payload}
use ur_rtde_fork_custom.Rtde.Layout.{Controller, received}
use ur_rtde_fork_custom.Rtde.Layout.Decode.{append_if-vals}
use ur_rtde_fork_custom.Control.Limits.{
  verify_value_is_within, ur_joint_velocity_min, ur_joint_velocity_max, ur_joint_acceleration_min,
  ur_joint_acceleration_max, ur_tool_velocity_min, ur_tool_velocity_max, ur_tool_acceleration_min,
  ur_tool_acceleration_max, ur_servo_lookahead_time_min, ur_servo_lookahead_time_max,
  ur_servo_gain_min, ur_servo_gain_max, ur_blend_min, ur_blend_max,
}
use ur_rtde_fork_custom.Control.Recipes.{setup_recipes}
use ur_rtde_fork_custom.Control.Port.{recording_port}
use ur_rtde_fork_custom.Control.Motion.{
  speed_j, speed_l, servo_j, servo_l, servo_c, move_until_contact,
}
use ur_rtde_fork_custom.Control.Packages.{IsVector, IsVector-append, decode_vals}

module _ (c : Controller) (offset : ℕ) (no_ext_ft : Bool) (memory : RobotCommand)
    (ints doubles : ℕ → ℕ) where
  -- `speedJ` with six joint speeds and an acceleration within the joint limits sends them and
  -- the time, all of them 64-bit patterns.
  speed_j_package :
      (q : List ℕ) (acceleration time : ℕ)
      → IsVector 6 q
      → IsWord64 acceleration
      → IsWord64 time
      → verify_value_is_within acceleration ur_joint_acceleration_min ur_joint_acceleration_max
        ≡ ok tt
      → (received c
            (setup_recipes offset no_ext_ft)
            (speed_j (recording_port ints doubles) memory q acceleration time)
          ≡ ok (some (9 ∷ (q ++ acceleration ∷ time ∷ [])) ∷ []))
  unfolding speed_j send_payload setup_recipes
  speed_j_package q acceleration time vq ha ht ok_a = rw (ok_a) (
      simp (
        append_if-vals,
        c.int_register,
        c.double_register,
        decode_vals 9 8 (q ++ acceleration ∷ time ∷ []) (omega arith)
            (IsVector-append 6 2 q (acceleration ∷ time ∷ []) vq (refl, (ha, (ht, tt)))),
      ))

  -- `speedL` with six tool speeds and an acceleration within the tool limits sends them and the time.
  speed_l_package :
      (q : List ℕ) (acceleration time : ℕ)
      → IsVector 6 q
      → IsWord64 acceleration
      → IsWord64 time
      → verify_value_is_within acceleration ur_tool_acceleration_min ur_tool_acceleration_max
        ≡ ok tt
      → (received c
            (setup_recipes offset no_ext_ft)
            (speed_l (recording_port ints doubles) memory q acceleration time)
          ≡ ok (some (10 ∷ (q ++ acceleration ∷ time ∷ [])) ∷ []))
  unfolding speed_l send_payload setup_recipes
  speed_l_package q acceleration time vq ha ht ok_a = rw (ok_a) (
      simp (
        append_if-vals,
        c.int_register,
        c.double_register,
        decode_vals 10 8 (q ++ acceleration ∷ time ∷ []) (omega arith)
            (IsVector-append 6 2 q (acceleration ∷ time ∷ []) vq (refl, (ha, (ht, tt)))),
      ))

  -- `servoJ` and `servoL` with six target values, every argument within its limits and all
  -- numbers 64-bit patterns send the target and the five parameters.
  servo_packages :
      (q : List ℕ) (speed acceleration time lookahead_time gain : ℕ)
      → IsVector 6 q
      → IsWord64 speed
      → IsWord64 acceleration
      → IsWord64 time
      → IsWord64 lookahead_time
      → IsWord64 gain
      → verify_value_is_within speed ur_joint_velocity_min ur_joint_velocity_max ≡ ok tt
      → verify_value_is_within acceleration ur_joint_acceleration_min ur_joint_acceleration_max
        ≡ ok tt
      → verify_value_is_within lookahead_time ur_servo_lookahead_time_min
          ur_servo_lookahead_time_max
        ≡ ok tt
      → verify_value_is_within gain ur_servo_gain_min ur_servo_gain_max ≡ ok tt
      → (received c (setup_recipes offset no_ext_ft) (
            servo_j
              (recording_port ints doubles)
              memory
              q
              speed
              acceleration
              time
              lookahead_time
              gain)
          ≡ ok (some (11 ∷ (q ++ speed ∷ acceleration ∷ time ∷ lookahead_time ∷ gain ∷ [])) ∷ []))
        × (received c (setup_recipes offset no_ext_ft) (
              servo_l
                (recording_port ints doubles)
                memory
                q
                speed
                acceleration
                time
                lookahead_time
                gain)
            ≡ ok (some (24 ∷ (q ++ speed ∷ acceleration ∷ time ∷ lookahead_time ∷ gain ∷ [])) ∷ []))
  unfolding servo_j servo_l send_payload setup_recipes
  servo_packages q speed acceleration time lookahead_time gain vq hs ha ht hl hg ok_s ok_a ok_l
        ok_g =
      (
        rw (ok_s, ok_a, ok_l, ok_g)
            (simp (
              append_if-vals,
              c.int_register,
              c.double_register,
              decode_vals 11 11 (q ++ speed ∷ acceleration ∷ time ∷ lookahead_time ∷ gain ∷ [])
                  (omega arith)
                  (IsVector-append 6 5 q (speed ∷ acceleration ∷ time ∷ lookahead_time ∷ gain ∷ [])
                    vq (refl, (hs, (ha, (ht, (hl, (hg, tt))))))),
            )),
        rw (ok_s, ok_a, ok_l, ok_g)
            (simp (
              append_if-vals,
              c.int_register,
              c.double_register,
              decode_vals 24 11 (q ++ speed ∷ acceleration ∷ time ∷ lookahead_time ∷ gain ∷ [])
                  (omega arith)
                  (IsVector-append 6 5 q (speed ∷ acceleration ∷ time ∷ lookahead_time ∷ gain ∷ [])
                    vq (refl, (hs, (ha, (ht, (hl, (hg, tt))))))),
            )),
      )

  -- `servoC` with a pose of six numbers, and a speed, an acceleration and a blend within their
  -- limits, all 64-bit patterns, sends the pose and the three parameters.
  servo_c_package :
      (q : List ℕ) (speed acceleration blend : ℕ)
      → IsVector 6 q
      → IsWord64 speed
      → IsWord64 acceleration
      → IsWord64 blend
      → verify_value_is_within speed ur_tool_velocity_min ur_tool_velocity_max ≡ ok tt
      → verify_value_is_within acceleration ur_tool_acceleration_min ur_tool_acceleration_max
        ≡ ok tt
      → verify_value_is_within blend ur_blend_min ur_blend_max ≡ ok tt
      → (received c
            (setup_recipes offset no_ext_ft)
            (servo_c (recording_port ints doubles) memory q speed acceleration blend)
          ≡ ok (some (12 ∷ (q ++ speed ∷ acceleration ∷ blend ∷ [])) ∷ []))
  unfolding servo_c send_payload setup_recipes
  servo_c_package q speed acceleration blend vq hs ha hb ok_s ok_a ok_b =
      rw (ok_s, ok_a, ok_b)
        (simp (
          append_if-vals,
          c.int_register,
          c.double_register,
          decode_vals 12 9 (q ++ speed ∷ acceleration ∷ blend ∷ []) (omega arith) (
              IsVector-append 6 3 q (speed ∷ acceleration ∷ blend ∷ []) vq
                (refl, (hs, (ha, (hb, tt))))),
        ))

  -- `moveUntilContact` with six speeds, a direction of six numbers and an acceleration within
  -- the tool limits, all 64-bit patterns, sends these.
  move_until_contact_package :
      (q direction : List ℕ) (acceleration : ℕ)
      → IsVector 6 q
      → IsVector 6 direction
      → IsWord64 acceleration
      → verify_value_is_within acceleration ur_tool_acceleration_min ur_tool_acceleration_max
        ≡ ok tt
      → (received c
            (setup_recipes offset no_ext_ft)
            (move_until_contact (recording_port ints doubles) memory q direction acceleration)
          ≡ ok (some (51 ∷ ((q ++ direction) ++ acceleration ∷ [])) ∷ []))
  unfolding move_until_contact send_payload setup_recipes
  move_until_contact_package q direction acceleration vq vd ha ok_a = rw (ok_a) (
      simp (
        append_if-vals,
        c.int_register,
        c.double_register,
        decode_vals 51 13 ((q ++ direction) ++ acceleration ∷ []) (omega arith) (
            IsVector-append 12 1 (q ++ direction) (acceleration ∷ [])
              (IsVector-append 6 6 q direction vq vd) (refl, (ha, tt))),
      ))
