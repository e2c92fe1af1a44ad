-- ===== src/Dashboard/Enums/RobotMode.antt =====
-- The enumeration `RobotMode` of include/ur_rtde/dashboard_enums.h with its texts, src/dashboard_enums.cpp.
use ur_rtde_fork_custom.Base.{ℕ, ◌≡◌, refl, List, ◌++◌, codes, if◌then◌else◌}
use ur_rtde_fork_custom.Base.Outcome.{Outcome, ok, throws, runtime_error}
use ur_rtde_fork_custom.Utility.Text.Find.{strstr, contains_text}

pub data RobotMode : Type 0 where
  no_controller disconnected confirm_safety booting power_off power_on idle backdrive running :
      RobotMode

-- The first name that the text contains.
unfoldable pub parse_robot_mode : List ℕ → Outcome RobotMode
unfolding strstr
parse_robot_mode state_str =
    if strstr state_str (codes "NO_CONTROLLER")
    then ok no_controller
    else if strstr state_str (codes "DISCONNECTED")
    then ok disconnected
    else if strstr state_str (codes "CONFIRM_SAFETY")
    then ok confirm_safety
    else if strstr state_str (codes "BOOTING")
    then ok booting
    else if strstr state_str (codes "POWER_OFF")
    then ok power_off
    else if strstr state_str (codes "POWER_ON")
    then ok power_on
    else if strstr state_str (codes "IDLE")
    then ok idle
    else if strstr state_str (codes "BACKDRIVE")
    then ok backdrive
    else if strstr state_str (codes "RUNNING")
    then ok running
    else throws runtime_error

unfoldable pub to_string : RobotMode → List ℕ
to_string backdrive = codes "BACKDRIVE"
to_string no_controller = codes "NO_CONTROLLER"
to_string disconnected = codes "DISCONNECTED"
to_string confirm_safety = codes "CONFIRM_SAFETY"
to_string booting = codes "BOOTING"
to_string power_off = codes "POWER_OFF"
to_string power_on = codes "POWER_ON"
to_string idle = codes "IDLE"
to_string running = codes "RUNNING"

-- The text of every `RobotMode` is parsed as that mode, with or without the server's words `Robotmode:`
-- in front.
parse_robot_mode-to_string :
    (mode : RobotMode)
    → (parse_robot_mode (to_string mode) ≡ ok mode)
      × (parse_robot_mode (codes "Robotmode: " ++ to_string mode) ≡ ok mode)
unfolding parse_robot_mode to_string contains_text
parse_robot_mode-to_string no_controller = (refl, refl)
parse_robot_mode-to_string disconnected = (refl, refl)
parse_robot_mode-to_string confirm_safety = (refl, refl)
parse_robot_mode-to_string booting = (refl, refl)
parse_robot_mode-to_string power_off = (refl, refl)
parse_robot_mode-to_string power_on = (refl, refl)
parse_robot_mode-to_string idle = (refl, refl)
parse_robot_mode-to_string backdrive = (refl, refl)
parse_robot_mode-to_string running = (refl, refl)
