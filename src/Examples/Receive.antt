-- ===== src/Examples/Receive.antt =====
-- The theorems on the getters, behind a text message of the controller.
use ur_rtde_fork_custom.Base.{ℕ, ◌≡◌, refl, false, List, [], ◌∷◌, some}
use ur_rtde_fork_custom.Base.Outcome.{ok}
use ur_rtde_fork_custom.Utility.{read_rtde_header, get_uint16, get_uint8}
use ur_rtde_fork_custom.Rtde.RobotState.{RobotState, init_robot_state}
use ur_rtde_fork_custom.Rtde.Stream.{receive_data, process, round, take_package, skip_package}
use ur_rtde_fork_custom.Rtde.Command.{rtde_code}
use ur_rtde_fork_custom.Receive.{Version, setup_variables}
use ur_rtde_fork_custom.Receive.Ready.{Reached, start, receive, empty_state}
use ur_rtde_fork_custom.Receive.AllGetters.{AllReturn, getters_ready}

abbrev version_5_11 : Version
version_5_11 = record { major = 5; minor = 11; bugfix = 1 }

abbrev names : List (List ℕ)
names = setup_variables false version_5_11 []

abbrev text_message : List ℕ
text_message = 0 ∷ 3 ∷ 77 ∷ []

abbrev ready_state : RobotState
ready_state = init_robot_state names empty_state

text_passed : receive_data names (ok text_message) [] ready_state ≡ some (ok ([], ready_state))
unfolding receive_data process round take_package skip_package read_rtde_header get_uint16 get_uint8
    rtde_code
text_passed = refl

one_round : Reached names [] ready_state
one_round = receive (ok text_message) [] ready_state start text_passed

getters_ready_example : AllReturn ready_state
getters_ready_example = getters_ready false version_5_11 one_round
