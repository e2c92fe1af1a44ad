-- ===== src/Gripper/Commands.antt =====
-- The calls of `RobotiqGripper` of src/robotiq_gripper.cpp that take or give values in the units of the
-- user.
use ur_rtde_fork_custom.Base.{ℕ, Option, codes, if◌then◌else◌}
use ur_rtde_fork_custom.Base.Int.{ℤ, pos, clamp}
use ur_rtde_fork_custom.Base.Action.{Action, lift, modify, gets, ◌>>=◌, ◌>>◌}
use ur_rtde_fork_custom.Gripper.Units.{
  MoveParameter, UnitKind, UnitConversion, to_device_unit, from_device_unit, FloatOps,
  same_parameter, convert_value_unit,
}
use ur_rtde_fork_custom.Gripper.{
  Wire, Gripper, MoveMode, min_speed, max_speed, min_force, max_force, get_var, move_impl,
}

unfoldable pub set_unit : {W : Type 0} → MoveParameter → UnitKind → Action (Gripper W) (Unit {0})
set_unit param kind =
    modify (λ s. record s { units = λ p. if same_parameter p param then kind else s.units p })

unfoldable pub set_position_range_mm : {W : Type 0} → ℤ → Action (Gripper W) (Unit {0})
set_position_range_mm range = modify (λ s. record s { range_mm = range })

module _ {W F : Type 0} (net : Wire W) (floats : FloatOps F) where
  unfoldable pub convert : MoveParameter → UnitConversion → F → Action (Gripper W) F
  unfolding convert_value_unit
  convert param direction value s =
      (convert_value_unit floats s.max_position s.range_mm (s.units param) param direction value, s)

  -- `(int)convertValueUnit(value, param, TO_DEVICE_UNIT)`.
  unfoldable pub device_value : MoveParameter → F → Action (Gripper W) ℤ
  unfolding convert
  device_value param value = do
    converted ← convert param to_device_unit value
    lift (floats.truncate converted)

  -- `convertValueUnit((float)value, param, FROM_DEVICE_UNIT)`.
  unfoldable pub user_value : MoveParameter → ℤ → Action (Gripper W) F
  unfolding convert
  user_value param value = convert param from_device_unit (floats.of_int value)

  unfoldable pub set_speed : F → Action (Gripper W) F
  unfolding device_value user_value
  set_speed f_speed = do
    dev_speed ← device_value MoveParameter.speed f_speed
    modify (λ s. record s { speed = clamp dev_speed min_speed max_speed })
    kept ← gets (λ s. s.speed)
    user_value MoveParameter.speed kept

  unfoldable pub set_force : F → Action (Gripper W) F
  unfolding device_value user_value
  set_force f_force = do
    dev_force ← device_value MoveParameter.force f_force
    modify (λ s. record s { force = clamp dev_force min_force max_force })
    kept ← gets (λ s. s.force)
    user_value MoveParameter.force kept

  unfoldable pub get_current_position : Action (Gripper W) F
  unfolding get_var user_value
  get_current_position = do
    device_position ← get_var net (codes "POS")
    user_value MoveParameter.position device_position

  -- A negative speed or force stands for the one that was set; its conversion takes place all the same.
  unfoldable pub move : ℕ → F → F → F → MoveMode → Action (Gripper W) (Option ℤ)
  unfolding move_impl device_value
  move fuel f_position f_speed f_force mode = do
    dev_position ← device_value MoveParameter.position f_position
    dev_speed ← device_value MoveParameter.speed f_speed
    dev_force ← device_value MoveParameter.force f_force
    chosen_speed ← gets (λ s. if floats.is_negative f_speed then s.speed else dev_speed)
    chosen_force ← gets (λ s. if floats.is_negative f_force then s.force else dev_force)
    move_impl net fuel (clamp dev_position (pos 0) (pos 255))
        (clamp chosen_speed min_speed max_speed) (clamp chosen_force min_force max_force) mode

  unfoldable pub open_gripper : ℕ → F → F → MoveMode → Action (Gripper W) (Option ℤ)
  unfolding user_value move
  open_gripper fuel norm_speed norm_force mode = do
    f_position ← user_value MoveParameter.position (pos 0)
    move fuel f_position norm_speed norm_force mode

  unfoldable pub close_gripper : ℕ → F → F → MoveMode → Action (Gripper W) (Option ℤ)
  unfolding user_value move
  close_gripper fuel norm_speed norm_force mode = do
    f_position ← user_value MoveParameter.position (pos 255)
    move fuel f_position norm_speed norm_force mode
