-- ===== src/Control/Refusals.antt =====
-- Arguments outside their limits: the motion commands throw before anything is sent. The port is
-- arbitrary, so no call of `sendCommand` can have been made.
use ur_rtde_fork_custom.Base.{ℕ, ◌≡◌, Bool, List}
use ur_rtde_fork_custom.Base.Outcome.{Exception, ok, throws}
use ur_rtde_fork_custom.Rtde.Command.{RobotCommand}
use ur_rtde_fork_custom.Control.Port.{Port}
use ur_rtde_fork_custom.Control.Motion.{
  move_j, move_j_ik, move_l, move_l_fk, servo_j, servo_l, servo_c, speed_j, speed_l,
  move_until_contact,
}
use ur_rtde_fork_custom.Control.Limits.{
  verify_value_is_within, ur_joint_velocity_min, ur_joint_velocity_max, ur_joint_acceleration_min,
  ur_joint_acceleration_max, ur_tool_velocity_min, ur_tool_velocity_max, ur_tool_acceleration_min,
  ur_tool_acceleration_max,
}

module _ {W : Type 0} (port : Port W) (memory : RobotCommand) (e : Exception) (w : W) where
  -- A joint speed that the check refuses makes `moveJ`, `moveJ_IK`, `servoJ` and `servoL` throw the
  -- exception of the check.
  joint_speed_refused :
      (q : List ℕ) (speed acceleration time lookahead_time gain : ℕ) (async : Bool)
      → verify_value_is_within speed ur_joint_velocity_min ur_joint_velocity_max ≡ throws e
      → (move_j port memory q speed acceleration async w ≡ throws e)
        × (move_j_ik port memory q speed acceleration async w ≡ throws e)
        × (servo_j port memory q speed acceleration time lookahead_time gain w ≡ throws e)
        × (servo_l port memory q speed acceleration time lookahead_time gain w ≡ throws e)
  unfolding move_j move_j_ik servo_j servo_l
  joint_speed_refused q speed acceleration time lookahead_time gain async bad =
      (rw bad, rw bad, rw bad, rw bad)

  -- A tool speed that the check refuses makes `moveL`, `moveL_FK` and `servoC` throw the exception of the
  -- check.
  tool_speed_refused :
      (q : List ℕ) (speed acceleration blend : ℕ) (async : Bool)
      → verify_value_is_within speed ur_tool_velocity_min ur_tool_velocity_max ≡ throws e
      → (move_l port memory q speed acceleration async w ≡ throws e)
        × (move_l_fk port memory q speed acceleration async w ≡ throws e)
        × (servo_c port memory q speed acceleration blend w ≡ throws e)
  unfolding move_l move_l_fk servo_c
  tool_speed_refused q speed acceleration blend async bad = (rw bad, rw bad, rw bad)

  -- With a speed that both speed checks accept, an acceleration that both acceleration checks
  -- refuse makes `moveJ`, `moveJ_IK`, `moveL`, `moveL_FK`, `servoJ`, `servoL`, `servoC`,
  -- `speedJ`, `speedL` and `moveUntilContact` throw the exception of the check.
  acceleration_refused :
      (q direction : List ℕ) (speed acceleration time lookahead_time gain blend : ℕ) (async : Bool)
      → verify_value_is_within speed ur_joint_velocity_min ur_joint_velocity_max ≡ ok tt
      → verify_value_is_within speed ur_tool_velocity_min ur_tool_velocity_max ≡ ok tt
      → verify_value_is_within acceleration ur_joint_acceleration_min ur_joint_acceleration_max
        ≡ throws e
      → verify_value_is_within acceleration ur_tool_acceleration_min ur_tool_acceleration_max
        ≡ throws e
      → (move_j port memory q speed acceleration async w ≡ throws e)
        × (move_j_ik port memory q speed acceleration async w ≡ throws e)
        × (servo_j port memory q speed acceleration time lookahead_time gain w ≡ throws e)
        × (servo_l port memory q speed acceleration time lookahead_time gain w ≡ throws e)
        × (move_l port memory q speed acceleration async w ≡ throws e)
        × (move_l_fk port memory q speed acceleration async w ≡ throws e)
        × (servo_c port memory q speed acceleration blend w ≡ throws e)
        × (speed_j port memory q acceleration time w ≡ throws e)
        × (speed_l port memory q acceleration time w ≡ throws e)
        × (move_until_contact port memory q direction acceleration w ≡ throws e)
  unfolding move_j move_j_ik servo_j servo_l move_l move_l_fk servo_c speed_j speed_l
      move_until_contact
  acceleration_refused q direction speed acceleration time lookahead_time gain blend async sj st aj
        at =
      (
        rw (sj, aj),
        rw (sj, aj),
        rw (sj, aj),
        rw (sj, aj),
        rw (st, at),
        rw (st, at),
        rw (st, at),
        rw aj,
        rw at,
        rw at,
      )
