-- ===== src/Dashboard/Enums/SafetyStatus.antt =====
-- The enumeration `SafetyStatus` of include/ur_rtde/dashboard_enums.h with its texts, src/dashboard_enums.cpp.
use ur_rtde_fork_custom.Base.{ℕ, ◌≡◌, refl, List, ◌++◌, codes, if◌then◌else◌}
use ur_rtde_fork_custom.Base.Outcome.{Outcome, ok, throws, runtime_error}
use ur_rtde_fork_custom.Utility.Text.Find.{strstr, contains_text}

pub data SafetyStatus : Type 0 where
  normal reduced protective_stop recovery safeguard_stop system_emergency_stop robot_emergency_stop
        violation fault automatic_mode_safeguard_stop system_three_position_enabling_stop :
      SafetyStatus

-- The first name that the text contains.
unfoldable pub parse_safety_status : List ℕ → Outcome SafetyStatus
unfolding strstr
parse_safety_status state_str =
    if strstr state_str (codes "NORMAL")
    then ok normal
    else if strstr state_str (codes "REDUCED")
    then ok reduced
    else if strstr state_str (codes "PROTECTIVE_STOP")
    then ok protective_stop
    else if strstr state_str (codes "RECOVERY")
    then ok recovery
    else if strstr state_str (codes "SAFEGUARD_STOP")
    then ok safeguard_stop
    else if strstr state_str (codes "SYSTEM_EMERGENCY_STOP")
    then ok system_emergency_stop
    else if strstr state_str (codes "ROBOT_EMERGENCY_STOP")
    then ok robot_emergency_stop
    else if strstr state_str (codes "VIOLATION")
    then ok violation
    else if strstr state_str (codes "FAULT")
    then ok fault
    else if strstr state_str (codes "AUTOMATIC_MODE_SAFEGUARD_STOP")
    then ok automatic_mode_safeguard_stop
    else if strstr state_str (codes "SYSTEM_THREE_POSITION_ENABLING_STOP")
    then ok system_three_position_enabling_stop
    else throws runtime_error

unfoldable pub to_string : SafetyStatus → List ℕ
to_string automatic_mode_safeguard_stop = codes "AUTOMATIC_MODE_SAFEGUARD_STOP"
to_string normal = codes "NORMAL"
to_string reduced = codes "REDUCED"
to_string protective_stop = codes "PROTECTIVE_STOP"
to_string recovery = codes "RECOVERY"
to_string safeguard_stop = codes "SAFEGUARD_STOP"
to_string system_emergency_stop = codes "SYSTEM_EMERGENCY_STOP"
to_string robot_emergency_stop = codes "ROBOT_EMERGENCY_STOP"
to_string violation = codes "VIOLATION"
to_string fault = codes "FAULT"
to_string system_three_position_enabling_stop = codes "SYSTEM_THREE_POSITION_ENABLING_STOP"

-- What the parser makes of the text of a status.
abbrev pub read_as : SafetyStatus → SafetyStatus
read_as automatic_mode_safeguard_stop = safeguard_stop
read_as status = status

-- The text of every `SafetyStatus` is parsed as that status, but for `AUTOMATIC_MODE_SAFEGUARD_STOP`,
-- which is parsed as `SAFEGUARD_STOP`, since the test for that part of it comes first. The server's
-- words `Safetystatus:` in front change nothing.
pub parse_safety_status-to_string :
    (status : SafetyStatus)
    → (parse_safety_status (to_string status) ≡ ok (read_as status))
      × (parse_safety_status (codes "Safetystatus: " ++ to_string status) ≡ ok (read_as status))
unfolding parse_safety_status to_string contains_text
parse_safety_status-to_string normal = (refl, refl)
parse_safety_status-to_string reduced = (refl, refl)
parse_safety_status-to_string protective_stop = (refl, refl)
parse_safety_status-to_string recovery = (refl, refl)
parse_safety_status-to_string safeguard_stop = (refl, refl)
parse_safety_status-to_string system_emergency_stop = (refl, refl)
parse_safety_status-to_string robot_emergency_stop = (refl, refl)
parse_safety_status-to_string violation = (refl, refl)
parse_safety_status-to_string fault = (refl, refl)
parse_safety_status-to_string automatic_mode_safeguard_stop = (refl, refl)
parse_safety_status-to_string system_three_position_enabling_stop = (refl, refl)
