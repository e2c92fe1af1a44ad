-- ===== src/Control/Readings.antt =====
-- What `RTDEControlInterface` reads from the robot state by itself: the registers, the status bits and
-- the status of the asynchronous operation (src/rtde_control_interface.cpp and
-- include/ur_rtde/rtde_control_interface.h).
pub mod Ready
pub mod Async
use ur_rtde_fork_custom.Base.{
  ℕ, zero, suc, ◌+◌, ◌*◌, ◌/◌, ◌%◌, ◌^◌, Bool, List, [], ◌∷◌, Option, none, some, ◌==◌,
  if◌then◌else◌, codes,
}
use ur_rtde_fork_custom.Base.Int.{ℤ, pos, negsuc}
use ur_rtde_fork_custom.Base.Outcome.{Outcome, ok, throws, fault, logic_error, ◌>>=◌}
use ur_rtde_fork_custom.Rtde.Registers.{out_int_reg, out_double_reg}
use ur_rtde_fork_custom.Rtde.RobotState.{RobotState}
use ur_rtde_fork_custom.Rtde.RobotState.Kind.{is_uint32, is_int32, is_double}
use ur_rtde_fork_custom.Receive.Getters.{get_or_throw}

-- `robot_state_`, which may be null. Without a test an access of null is undefined.
abbrev pub StatePointer : Type 0
StatePointer = Option RobotState

abbrev pub access : {A : Type 0} → (RobotState → Outcome A) → StatePointer → Outcome A
access read none = fault
access read (some s) = read s

-- `if (robot_state_ != nullptr) ... else throw`, and `checkRobotStateMemberValid`.
abbrev pub checked : {A : Type 0} → (StatePointer → Outcome A) → StatePointer → Outcome A
checked read none = throws logic_error
checked read (some s) = read (some s)

unfoldable pub get_output_double_reg : ℕ → ℕ → StatePointer → Outcome ℕ
unfolding get_or_throw
get_output_double_reg register_offset reg =
    access (get_or_throw is_double (out_double_reg register_offset reg))

unfoldable pub get_output_int_reg : ℕ → ℕ → StatePointer → Outcome ℕ
unfolding get_or_throw
get_output_int_reg register_offset reg =
    access (get_or_throw is_int32 (out_int_reg register_offset reg))

-- `{getOutputDoubleReg(0), ..., getOutputDoubleReg(count - 1)}` from a first register on.
abbrev pub double_regs : ℕ → ℕ → ℕ → StatePointer → Outcome (List ℕ)
unfolding get_output_double_reg
double_regs register_offset first zero s = ok []
double_regs register_offset first (suc count) s = do
  v ← get_output_double_reg register_offset first s
  vs ← double_regs register_offset (first + 1) count s
  ok (v ∷ vs)

unfoldable pub get_control_script_state : ℕ → StatePointer → Outcome ℕ
unfolding get_output_int_reg
get_control_script_state register_offset = checked (get_output_int_reg register_offset 0)

unfoldable pub get_tool_contact_value : ℕ → StatePointer → Outcome ℕ
unfolding get_output_int_reg
get_tool_contact_value register_offset = checked (get_output_int_reg register_offset 1)

unfoldable pub get_step_time_value : ℕ → StatePointer → Outcome ℕ
unfolding get_output_double_reg
get_step_time_value register_offset = checked (get_output_double_reg register_offset 0)

unfoldable pub get_actual_joint_positions_history_value : ℕ → StatePointer → Outcome (List ℕ)
unfolding double_regs
get_actual_joint_positions_history_value register_offset = checked (double_regs register_offset 0 6)

unfoldable pub get_inverse_kinematics_value : ℕ → StatePointer → Outcome (List ℕ)
unfolding double_regs
get_inverse_kinematics_value register_offset = checked (double_regs register_offset 0 6)

unfoldable pub pose_trans_value : ℕ → StatePointer → Outcome (List ℕ)
unfolding double_regs
pose_trans_value register_offset = checked (double_regs register_offset 0 6)

unfoldable pub get_robot_status : StatePointer → Outcome ℕ
unfolding get_or_throw
get_robot_status = checked (access (get_or_throw is_uint32 (codes "robot_status_bits")))

-- `AsyncOperationStatus`: the status word as a bit pattern.
unfoldable pub is_async_operation_running : ℕ → Bool
is_async_operation_running status = status / 2 ^ 15 % 2 == 1

unfoldable pub operation_id : ℕ → ℕ
operation_id status = status / 2 ^ 24 % 2 ^ 7

unfoldable pub change_count : ℕ → ℕ
change_count status = status / 2 ^ 16 % 2 ^ 8

unfoldable pub progress : ℕ → ℤ
unfolding is_async_operation_running
progress status = if is_async_operation_running status then pos (status % 2 ^ 15) else negsuc 0

unfoldable pub equals : ℕ → ℕ → Bool
equals status other = status == other

unfoldable pub get_async_operation_progress_ex : ℕ → StatePointer → Outcome ℕ
unfolding get_or_throw
get_async_operation_progress_ex register_offset =
    access (get_or_throw is_int32 (out_int_reg register_offset 2))

-- `(id % 2) - 2` is -1 or -2.
abbrev pub progress_or_id : ℕ → ℤ
progress_or_id status =
    if is_async_operation_running status
    then progress status
    else (if operation_id status % 2 == 0 then negsuc 1 else negsuc 0)

unfoldable pub get_async_operation_progress : ℕ → StatePointer → Outcome ℤ
unfolding get_async_operation_progress_ex progress operation_id is_async_operation_running
get_async_operation_progress register_offset s = do
  status ← get_async_operation_progress_ex register_offset s
  ok (progress_or_id status)
