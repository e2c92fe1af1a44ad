-- ===== src/Control/Readings/Ready.antt =====
-- The registers that `setupRecipes` of src/rtde_control_interface.cpp asks for can be read.
use ur_rtde_fork_custom.Base.{
  ℕ, zero, suc, ◌+◌, ◌≤◌, ◌<◌, ◌≡◌, refl, subst, Bool, true, false, ◌&&◌, ◌||◌, List, [], ◌∷◌, ◌++◌,
  some, ◌==◌, leb, if◌then◌else◌, codes, arith,
}
use ur_rtde_fork_custom.Rtde.Registers.{out_int_reg, out_double_reg}
use ur_rtde_fork_custom.Rtde.StateTypes.{int32, double, uint32, find, state_types}
use ur_rtde_fork_custom.Rtde.RobotState.{RobotState}
use ur_rtde_fork_custom.Receive.Ready.{Reached, Returns, contains, get_or_throw-Returns}
use ur_rtde_fork_custom.Control.Recipes.{state_names, consecutive}
use ur_rtde_fork_custom.Control.Readings.{
  get_output_int_reg, get_output_double_reg, double_regs, get_control_script_state,
  get_tool_contact_value, get_step_time_value, get_actual_joint_positions_history_value,
  get_inverse_kinematics_value, pose_trans_value, get_robot_status, get_async_operation_progress_ex,
  get_async_operation_progress, progress_or_id,
}

-- The controller's version reports the registers of the range.
abbrev pub reports_registers : Bool → ℕ → ℕ → Bool
reports_registers use_upper_range_registers major minor =
    if use_upper_range_registers
    then (major == 3 && leb 9 minor) || (major == 5 && leb 3 minor)
    else leb 3 major && leb 4 minor

-- `register_offset_`.
abbrev pub offset : Bool → ℕ
offset use_upper_range_registers = if use_upper_range_registers then 24 else 0

abbrev all_names : ℕ → List (List ℕ)
all_names register_offset =
    (codes "robot_status_bits" ∷ codes "safety_status_bits" ∷ codes "runtime_state" ∷ [])
    ++ (consecutive (out_int_reg register_offset) 0 3
        ++ consecutive (out_double_reg register_offset) 0 6)

state_names_reported :
    (upper : Bool) (major minor : ℕ)
    → reports_registers upper major minor ≡ true
    → state_names upper (offset upper) major minor ≡ all_names (offset upper)
unfolding state_names
state_names_reported true major minor h = rw h refl
state_names_reported false major minor h = rw h refl

int_known :
    (upper : Bool) (i : ℕ)
    → i < 3
    → (find (out_int_reg (offset upper) i) state_types ≡ some (int32 0))
      × (contains (out_int_reg (offset upper) i) (all_names (offset upper)) ≡ true)
unfolding find state_types contains out_int_reg out_double_reg consecutive
int_known true zero h = (refl, refl)
int_known true (suc zero) h = (refl, refl)
int_known true (suc (suc zero)) h = (refl, refl)
int_known false zero h = (refl, refl)
int_known false (suc zero) h = (refl, refl)
int_known false (suc (suc zero)) h = (refl, refl)
int_known _ (suc (suc (suc i))) h = absurd (omega arith)

double_known :
    (upper : Bool) (i : ℕ)
    → i < 6
    → (find (out_double_reg (offset upper) i) state_types ≡ some (double 0))
      × (contains (out_double_reg (offset upper) i) (all_names (offset upper)) ≡ true)
unfolding find state_types contains out_int_reg out_double_reg consecutive
double_known true zero h = (refl, refl)
double_known true (suc zero) h = (refl, refl)
double_known true (suc (suc zero)) h = (refl, refl)
double_known true (suc (suc (suc zero))) h = (refl, refl)
double_known true (suc (suc (suc (suc zero)))) h = (refl, refl)
double_known true (suc (suc (suc (suc (suc zero))))) h = (refl, refl)
double_known false zero h = (refl, refl)
double_known false (suc zero) h = (refl, refl)
double_known false (suc (suc zero)) h = (refl, refl)
double_known false (suc (suc (suc zero))) h = (refl, refl)
double_known false (suc (suc (suc (suc zero)))) h = (refl, refl)
double_known false (suc (suc (suc (suc (suc zero))))) h = (refl, refl)
double_known _ (suc (suc (suc (suc (suc (suc i)))))) h = absurd (omega arith)

status_known :
    (upper : Bool)
    → (find (codes "robot_status_bits") state_types ≡ some (uint32 0))
      × (contains (codes "robot_status_bits") (all_names (offset upper)) ≡ true)
unfolding find state_types contains
status_known upper = (refl, refl)

module _ (upper : Bool) {buffer : List ℕ} {s : RobotState}
    (r : Reached (all_names (offset upper)) buffer s) where
  int_ready : (i : ℕ) → i < 3 → Returns (get_output_int_reg (offset upper) i (some s))
  unfolding get_output_int_reg
  int_ready i h =
      let (known, asked) = int_known upper i h in
      get_or_throw-Returns (out_int_reg (offset upper) i) (int32 0) known asked r

  double_ready : (i : ℕ) → i < 6 → Returns (get_output_double_reg (offset upper) i (some s))
  unfolding get_output_double_reg
  double_ready i h =
      let (known, asked) = double_known upper i h in
      get_or_throw-Returns (out_double_reg (offset upper) i) (double 0) known asked r

  doubles_ready :
      (count first : ℕ)
      → first + count ≤ 6
      → Returns (double_regs (offset upper) first count (some s))
  unfolding double_regs
  doubles_ready zero first h = ([], refl)
  doubles_ready (suc count) first h =
      let (v, e) = double_ready first (omega arith) in
      let (vs, es) = doubles_ready count (first + 1) (omega arith) in (v ∷ vs, rw (e, es) refl)

  progress_ready : Returns (get_async_operation_progress (offset upper) (some s))
  unfolding get_async_operation_progress get_async_operation_progress_ex get_output_int_reg
  progress_ready = let (v, e) = int_ready 2 (omega arith) in (progress_or_id v, rw e refl)

-- On every controller version whose registers `setupRecipes` asks for, in either range, the registers
-- and the status of the asynchronous operation are there from the first moment on: after the state is
-- set up and whatever is received, every reading returns instead of throwing.
pub readings_ready :
    (upper : Bool) (major minor : ℕ) {buffer : List ℕ} {s : RobotState}
    → reports_registers upper major minor ≡ true
    → Reached (state_names upper (offset upper) major minor) buffer s
    → Returns (get_control_script_state (offset upper) (some s))
      × Returns (get_tool_contact_value (offset upper) (some s))
      × Returns (get_step_time_value (offset upper) (some s))
      × Returns (get_actual_joint_positions_history_value (offset upper) (some s))
      × Returns (get_inverse_kinematics_value (offset upper) (some s))
      × Returns (pose_trans_value (offset upper) (some s))
      × Returns (get_async_operation_progress (offset upper) (some s))
      × Returns (get_robot_status (some s))
unfolding get_control_script_state get_tool_contact_value get_step_time_value get_robot_status
    get_actual_joint_positions_history_value get_inverse_kinematics_value pose_trans_value
readings_ready upper major minor {buffer = b} {s = s} reported h =
    let r : Reached (all_names (offset upper)) b s =
      subst (λ names. Reached names b s) (state_names_reported upper major minor reported) h in
    let (known, asked) = status_known upper in
    (
      int_ready upper r 0 (omega arith),
      int_ready upper r 1 (omega arith),
      double_ready upper r 0 (omega arith),
      doubles_ready upper r 6 0 (omega arith),
      doubles_ready upper r 6 0 (omega arith),
      doubles_ready upper r 6 0 (omega arith),
      progress_ready upper r,
      get_or_throw-Returns (codes "robot_status_bits") (uint32 0) known asked r,
    )
