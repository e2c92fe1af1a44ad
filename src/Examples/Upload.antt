-- ===== src/Examples/Upload.antt =====
-- The theorems on paths, uploads and readings of the control interface.
use ur_rtde_fork_custom.Base.{
  ℕ, ◌≡◌, ◌↔◌, refl, true, false, List, [], ◌∷◌, ◌++◌, none, some, codes, length, arith, replicate,
}
use ur_rtde_fork_custom.Base.Int.{pos}
use ur_rtde_fork_custom.Base.Outcome.{ok}
use ur_rtde_fork_custom.Base.Action.{Settles}
use ur_rtde_fork_custom.Rtde.StateTypes.{int32, find}
use ur_rtde_fork_custom.Rtde.RobotState.{RobotState, init_robot_state, get_state_data}
use ur_rtde_fork_custom.Rtde.RobotState.Kind.{strict_get}
use ur_rtde_fork_custom.Rtde.Registers.{out_int_reg}
use ur_rtde_fork_custom.Receive.Ready.{Returns, start, empty_state}
use ur_rtde_fork_custom.Script.Client.{ScriptWorld, new_client}
use ur_rtde_fork_custom.Control.Recipes.{state_names}
use ur_rtde_fork_custom.Control.Path.{
  PathEntry, move_l, position_tcp_pose, path_code, build_path_script_code, append_movel_path,
  append_movej_path,
}
use ur_rtde_fork_custom.Control.Path.Code.{AreDoubles, PathCoded, path_code_iff}
use ur_rtde_fork_custom.Control.Path.Build.{moves_code, build_path_script_code-moves}
use ur_rtde_fork_custom.Control.Readings.{
  StatePointer, get_control_script_state, get_tool_contact_value, get_step_time_value,
  get_actual_joint_positions_history_value, get_inverse_kinematics_value, pose_trans_value,
  get_robot_status, get_async_operation_progress_ex, get_async_operation_progress, operation_id,
  change_count, is_async_operation_running,
}
use ur_rtde_fork_custom.Control.Readings.Ready.{readings_ready}
use ur_rtde_fork_custom.Control.Readings.Async.{
  status_word, get_async_operation_progress-status_word,
}
use ur_rtde_fork_custom.Control.Upload.{
  Controller, ControlInterface, move_path, move_j_path, move_l_path, wait_for_program_running,
}
use ur_rtde_fork_custom.Control.Upload.Kept.{Untouched}
use ur_rtde_fork_custom.Control.Upload.Paths.{Moved, move_path-Moved}
use ur_rtde_fork_custom.Control.Upload.Waiting.{HasEnded, wait_for_program_running-HasEnded}
use ur_rtde_fork_custom.Control.CustomScript.{
  send_custom_script, send_custom_script_file, custom_function,
}
use ur_rtde_fork_custom.Control.CustomScript.Flag.{Marks, marked, send_custom_script-Marks}
use ur_rtde_fork_custom.Control.CustomScript.Function.{function_text, custom_function-lines}
use ur_rtde_fork_custom.Examples.Values.{one, stale}

-- Every double is printed as a star.
abbrev star : ℕ → List ℕ
star v = codes "*"

abbrev nine_ones : List ℕ
nine_ones = replicate 9 one

abbrev one_move : List PathEntry
one_move = record { move_type = move_l; pos_type = position_tcp_pose; param = nine_ones } ∷ []

abbrev one_move_text : List ℕ
one_move_text =
    b'\t'
    ∷ (codes "signal_async_progress(0)"
        ++ b'\n' ∷ (b'\t' ∷ (codes "movel(p[*,*,*,*,*,*],a=*,v=*,r=*)" ++ b'\n' ∷ [])))

one_move_code : path_code star one_move ≡ ok one_move_text
unfolding path_code
one_move_code = refl

one_move_doubles : AreDoubles one_move
one_move_doubles = omega arith

path_code_iff_example :
    (path_code star one_move ≡ ok one_move_text) ↔ PathCoded star 0 one_move one_move_text
path_code_iff_example = path_code_iff star one_move one_move_text one_move_doubles

build_path_script_code-moves_example :
    (build_path_script_code star (nine_ones ∷ []) (codes "movel(p")
      ≡ moves_code star (append_movel_path (nine_ones ∷ []) []))
    × (build_path_script_code star (nine_ones ∷ []) (codes "movej(")
        ≡ moves_code star (append_movej_path (nine_ones ∷ []) []))
build_path_script_code-moves_example = build_path_script_code-moves star (nine_ones ∷ [])

-- The state behind the constructor on a controller of version 5.3 with the upper registers.
abbrev fresh_state : RobotState
fresh_state = init_robot_state (state_names true 24 5 3) empty_state

readings_ready_example :
    Returns (get_control_script_state 24 (some fresh_state))
    × Returns (get_tool_contact_value 24 (some fresh_state))
    × Returns (get_step_time_value 24 (some fresh_state))
    × Returns (get_actual_joint_positions_history_value 24 (some fresh_state))
    × Returns (get_inverse_kinematics_value 24 (some fresh_state))
    × Returns (pose_trans_value 24 (some fresh_state))
    × Returns (get_async_operation_progress 24 (some fresh_state))
    × Returns (get_robot_status (some fresh_state))
readings_ready_example = readings_ready true 5 3 {buffer = []} {s = fresh_state} refl start

abbrev running_word : ℕ
running_word = status_word 0 3 0 100 true 77

abbrev running_state : StatePointer
running_state = some (record {
  state_data = (codes "output_int_register_2", int32 running_word) ∷ [];
  first_state_received = true;
})

running_word_read : get_async_operation_progress_ex 0 running_state ≡ ok running_word
unfolding get_async_operation_progress_ex get_state_data find out_int_reg strict_get
running_word_read = refl

get_async_operation_progress-status_word_example :
    (operation_id running_word ≡ 3)
    × (change_count running_word ≡ 100)
    × (is_async_operation_running running_word ≡ true)
    × (get_async_operation_progress 0 running_state ≡ ok (pos 77))
get_async_operation_progress-status_word_example =
    get_async_operation_progress-status_word 0 3 0 100 77 true (omega arith) (omega arith)
      (omega arith) (omega arith) 0 running_state running_word_read

-- A controller that takes everything and reports a running program that is done.
abbrev ready : Controller (List ℕ)
ready = record {
  try_command = λ cmd w. (ok (some true), w);
  is_connected = λ w. true;
  reconnect_and_send = λ cmd s. (ok true, s);
  send_clear_command = λ w. (ok tt, w);
  is_program_running = λ w. (ok true, w);
  get_control_script_state = λ w. (ok 2, w);
  stop_program = λ w. (ok tt, w);
  clock = λ w. (ok 0, w);
}

abbrev empty_world : ScriptWorld (List ℕ)
empty_world = record {
  connect_to = λ w. (ok tt, w);
  write = λ text w. (ok (length text), w ++ text);
  read_file = λ name w. none;
  ur_script = codes "# inject move path" ++ b'\n' ∷ [];
  script_format = λ text ip port. ok text;
}

abbrev fresh_interface : ControlInterface (List ℕ)
fresh_interface = record {
  script_client = new_client (record { major = 5; minor = 3 }) false [];
  custom_script_running = false;
  register_offset = 0;
}

move_path-Moved_example :
    Moved
      (path_code star one_move)
      fresh_interface
      (move_path empty_world ready stale star 5 one_move false fresh_interface)
    × Moved
        (path_code star (append_movej_path (nine_ones ∷ []) []))
        fresh_interface
        (move_j_path empty_world ready stale star 5 (nine_ones ∷ []) false fresh_interface)
    × Moved
        (path_code star (append_movel_path (nine_ones ∷ []) []))
        fresh_interface
        (move_l_path empty_world ready stale star 5 (nine_ones ∷ []) false fresh_interface)
move_path-Moved_example =
    move_path-Moved empty_world ready stale (λ cmd w w' e. refl) star 5 one_move (nine_ones ∷ [])
      false fresh_interface

-- The move along the path comes to its end.
one_move_sent :
    (move_path empty_world ready stale star 5 one_move false fresh_interface).0 ≡ ok (some true)
unfolding move_path new_client
one_move_sent = refl

wait_for_program_running-HasEnded_example :
    HasEnded (wait_for_program_running empty_world ready stale 501 0 fresh_interface)
wait_for_program_running-HasEnded_example =
    wait_for_program_running-HasEnded empty_world ready stale 501 0 fresh_interface (omega arith)
      (omega arith)

send_custom_script-Marks_example :
    Settles
      (Untouched (marked fresh_interface))
      (Marks fresh_interface)
      (send_custom_script empty_world ready stale 600 (codes "x") fresh_interface)
    × Settles
        (Untouched (marked fresh_interface))
        (Marks fresh_interface)
        (send_custom_script_file empty_world ready stale 600 (codes "f") fresh_interface)
send_custom_script-Marks_example =
    send_custom_script-Marks empty_world ready stale (λ cmd w w' e. refl) 600 (codes "x")
      (codes "f") fresh_interface

custom_function-lines_example :
    custom_function 24 (codes "f") (codes "a" ++ b'\n' ∷ b'\n' ∷ [])
    ≡ function_text 24 (codes "f") (codes "a" ∷ [] ∷ [])
custom_function-lines_example =
    custom_function-lines 24 (codes "f") (codes "a" ∷ [] ∷ []) (omega arith)
