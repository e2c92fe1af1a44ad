-- ===== src/Control/Port.antt =====
-- What the command functions of `RTDEControlInterface` use of the rest of the object: `sendCommand`,
-- the null test of `robot_state_`, and the output registers. `W` is the state that these change.
use ur_rtde_fork_custom.Base.{ℕ, zero, suc, ◌+◌, Bool, true, List, [], ◌∷◌, if◌then◌else◌}
use ur_rtde_fork_custom.Base.Outcome.{Outcome, ok, throws, logic_error, ◌>>=◌}
use ur_rtde_fork_custom.Rtde.Command.{RobotCommand}
use ur_rtde_fork_custom.Rtde.Layout.{Log, recorder}

pub record Port (W : Type 0) : Type 0 where
  pub send_command : RobotCommand → W → Outcome (Bool × W)
  pub has_robot_state : W → Bool
  pub get_output_int_reg : ℕ → W → Outcome (ℕ × W)
  pub get_output_double_reg : ℕ → W → Outcome (ℕ × W)

module _ {W : Type 0} (port : Port W) where
  -- The test that stands in front of every register read.
  unfoldable pub with_robot_state : {A : Type 0} → (W → Outcome (A × W)) → W → Outcome (A × W)
  with_robot_state read w = if port.has_robot_state w then read w else throws logic_error

  -- `{getOutputDoubleReg(first), ...}` for `count` registers in a row.
  unfoldable pub output_double_regs : ℕ → ℕ → W → Outcome (List ℕ × W)
  output_double_regs first zero w = ok ([], w)
  output_double_regs first (suc count) w = do
    (v, w') ← port.get_output_double_reg first w
    (vs, w'') ← output_double_regs (first + 1) count w'
    ok (v ∷ vs, w'')

-- A port that notes the commands, with fixed register contents.
abbrev pub recording_port : (ℕ → ℕ) → (ℕ → ℕ) → Port Log
recording_port ints doubles = record {
  send_command = recorder;
  has_robot_state = λ w. true;
  get_output_int_reg = λ reg w. ok (ints reg, w);
  get_output_double_reg = λ reg w. ok (doubles reg, w);
}
