-- ===== src/Control/Path.antt =====
-- `PathEntry` and `Path` of include/ur_rtde/rtde_control_interface.h and src/rtde_control_interface.cpp:
-- a path of moves and its script code. A double is its bit pattern. How a stream prints one is the
-- parameter `print`.
pub mod Entry
pub mod Code
pub mod Build
use ur_rtde_fork_custom.Base.{
  ℕ, suc, ◌+◌, List, [], ◌∷◌, ◌++◌, Option, none, some, codes, get_elem?, length, same_text,
  if◌then◌else◌,
}
use ur_rtde_fork_custom.Base.Outcome.{Outcome, ok, throws, fault, runtime_error, ◌>>=◌, ◌>>◌}
use ur_rtde_fork_custom.Utility.Text.{to_string}
use ur_rtde_fork_custom.Control.Limits.{
  verify_value_is_within, ur_joint_velocity_min, ur_joint_velocity_max, ur_joint_acceleration_min,
  ur_joint_acceleration_max, ur_tool_velocity_min, ur_tool_velocity_max, ur_tool_acceleration_min,
  ur_tool_acceleration_max, ur_blend_min, ur_blend_max,
}

pub data MoveType : Type 0 where
  move_j move_l move_p move_c : MoveType

pub data PositionType : Type 0 where
  position_tcp_pose position_joints : PositionType

pub record PathEntry : Type 0 where
  pub move_type : MoveType
  pub pos_type : PositionType
  pub param : List ℕ

pub record VelocityAccLimits : Type 0 where
  pub velocity_min : ℕ
  pub velocity_max : ℕ
  pub acceleration_min : ℕ
  pub acceleration_max : ℕ

abbrev pub limits : PositionType → VelocityAccLimits
limits position_joints = record {
  velocity_min = ur_joint_velocity_min;
  velocity_max = ur_joint_velocity_max;
  acceleration_min = ur_joint_acceleration_min;
  acceleration_max = ur_joint_acceleration_max;
}
limits position_tcp_pose = record {
  velocity_min = ur_tool_velocity_min;
  velocity_max = ur_tool_velocity_max;
  acceleration_min = ur_tool_acceleration_min;
  acceleration_max = ur_tool_acceleration_max;
}

abbrev pub in_vector : Option ℕ → Outcome ℕ
in_vector none = fault
in_vector (some v) = ok v

-- `param_[i]`, which is undefined behind the end.
abbrev pub element : List ℕ → ℕ → Outcome ℕ
element param i = in_vector (get_elem? param i)

unfoldable pub verify_move : VelocityAccLimits → List ℕ → Outcome (Unit {0})
unfolding verify_value_is_within
verify_move bounds param = do
  velocity ← element param 6
  verify_value_is_within velocity bounds.velocity_min bounds.velocity_max
  acceleration ← element param 7
  verify_value_is_within acceleration bounds.acceleration_min bounds.acceleration_max
  blend ← element param 8
  verify_value_is_within blend ur_blend_min ur_blend_max

-- The first `switch`.
unfoldable pub verify_entry : PathEntry → Outcome (Unit {0})
unfolding verify_move
verify_entry entry = elim entry.move_type [
  | move_j ↦ verify_move (limits entry.pos_type) entry.param
  | move_l ↦ verify_move (limits entry.pos_type) entry.param
  | move_p ↦ verify_move (limits entry.pos_type) entry.param
  | move_c ↦ throws runtime_error
]

abbrev pub command_text : MoveType → List ℕ
command_text move_j = codes "movej("
command_text move_l = codes "movel("
command_text move_p = codes "movep("
command_text move_c = codes "movec("

abbrev pub position_text : PositionType → List ℕ
position_text position_tcp_pose = codes "p"
position_text position_joints = []

module _ (print : ℕ → List ℕ) where
  -- `param_[0] << "," << ...`.
  abbrev pub coordinates : List ℕ → Outcome (List ℕ)
  coordinates param = do
    a ← element param 0
    b ← element param 1
    c ← element param 2
    d ← element param 3
    e ← element param 4
    f ← element param 5
    ok (
        print a
        ++ b','
          ∷ (print b ++ b',' ∷ (print c ++ b',' ∷ (print d ++ b',' ∷ (print e ++ b',' ∷ print f)))))

  abbrev pub motion : List ℕ → Outcome (List ℕ)
  motion param = do
    acceleration ← element param 7
    velocity ← element param 6
    blend ← element param 8
    ok (
        codes "a="
        ++ (print acceleration
            ++ (codes ",v="
                ++ (print velocity
                    ++ (codes ",r=" ++ (print blend ++ (codes ")" ++ b'\n' ∷ [])))))))

  unfoldable pub to_script_code : PathEntry → Outcome (List ℕ)
  unfolding verify_entry
  to_script_code entry = do
    verify_entry entry
    position ← coordinates entry.param
    speed ← motion entry.param
    ok (
        b'\t'
        ∷ (command_text entry.move_type
            ++ (position_text entry.pos_type
                ++ (codes "[" ++ (position ++ (codes "]," ++ speed))))))

  abbrev pub progress_text : ℕ → List ℕ
  progress_text i =
      b'\t' ∷ (codes "signal_async_progress(" ++ (to_string i ++ (codes ")" ++ b'\n' ∷ [])))

  -- The loop of `Path::toScriptCode` from the waypoint `i` on.
  unfoldable pub path_code_from : ℕ → List PathEntry → Outcome (List ℕ)
  unfolding to_script_code to_string
  path_code_from i [] = ok []
  path_code_from i (entry ∷ entries) = do
    code ← to_script_code entry
    rest ← path_code_from (i + 1) entries
    ok (progress_text i ++ (code ++ rest))

  unfoldable pub path_code : List PathEntry → Outcome (List ℕ)
  unfolding path_code_from
  path_code waypoints = path_code_from 0 waypoints

-- The operations on a `Path`, which is its list of waypoints.
unfoldable pub add_entry : PathEntry → List PathEntry → List PathEntry
add_entry entry waypoints = waypoints ++ entry ∷ []

unfoldable pub clear : List PathEntry → List PathEntry
clear waypoints = []

unfoldable pub size : List PathEntry → ℕ
size waypoints = length waypoints

unfoldable pub append_movel_path : List (List ℕ) → List PathEntry → List PathEntry
append_movel_path [] waypoints = waypoints
append_movel_path (move ∷ path) waypoints =
    append_movel_path path
      (waypoints ++ record { move_type = move_l; pos_type = position_tcp_pose; param = move } ∷ [])

unfoldable pub append_movej_path : List (List ℕ) → List PathEntry → List PathEntry
append_movej_path [] waypoints = waypoints
append_movej_path (move ∷ path) waypoints =
    append_movej_path path
      (waypoints ++ record { move_type = move_j; pos_type = position_joints; param = move } ∷ [])

-- `buildPathScriptCode`, which tells the moves apart by the text of the command.
abbrev pub check_pose : List ℕ → List ℕ → Outcome (Unit {0})
check_pose cmd pose =
    if same_text cmd (codes "movej(")
    then verify_move (limits position_joints) pose
    else if same_text cmd (codes "movel(p")
    then verify_move (limits position_tcp_pose) pose
    else ok tt

unfoldable pub build_path_script_code : (ℕ → List ℕ) → List (List ℕ) → List ℕ → Outcome (List ℕ)
unfolding verify_move same_text
build_path_script_code print [] cmd = ok []
build_path_script_code print (pose ∷ path) cmd = do
  check_pose cmd pose
  position ← coordinates print pose
  speed ← motion print pose
  rest ← build_path_script_code print path cmd
  ok (b'\t' ∷ (cmd ++ (codes "[" ++ (position ++ (codes "]," ++ (speed ++ rest))))))
