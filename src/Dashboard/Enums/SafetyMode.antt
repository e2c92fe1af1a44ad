-- ===== src/Dashboard/Enums/SafetyMode.antt =====
-- The enumeration `SafetyMode` of include/ur_rtde/dashboard_enums.h with its texts, src/dashboard_enums.cpp.
use ur_rtde_fork_custom.Base.{ℕ, ◌≡◌, refl, List, ◌++◌, codes, if◌then◌else◌}
use ur_rtde_fork_custom.Base.Outcome.{Outcome, ok, throws, runtime_error}
use ur_rtde_fork_custom.Utility.Text.Find.{strstr, contains_text}

pub data SafetyMode : Type 0 where
  normal reduced protective_stop recovery safeguard_stop system_emergency_stop robot_emergency_stop
        violation fault :
      SafetyMode

-- The first name that the text contains.
unfoldable pub parse_safety_mode : List ℕ → Outcome SafetyMode
unfolding strstr
parse_safety_mode state_str =
    if strstr state_str (codes "NORMAL")
    then ok normal
    else if strstr state_str (codes "REDUCED")
    then ok reduced
    else if strstr state_str (codes "PROTECTIVE_STOP")
    then ok protective_stop
    else if strstr state_str (codes "RECOVERY")
    then ok recovery
    else if strstr state_str (codes "SAFEGUARD_STOP")
    then ok safeguard_stop
    else if strstr state_str (codes "SYSTEM_EMERGENCY_STOP")
    then ok system_emergency_stop
    else if strstr state_str (codes "ROBOT_EMERGENCY_STOP")
    then ok robot_emergency_stop
    else if strstr state_str (codes "VIOLATION")
    then ok violation
    else if strstr state_str (codes "FAULT")
    then ok fault
    else throws runtime_error

unfoldable pub to_string : SafetyMode → List ℕ
to_string fault = codes "FAULT"
to_string normal = codes "NORMAL"
to_string reduced = codes "REDUCED"
to_string protective_stop = codes "PROTECTIVE_STOP"
to_string recovery = codes "RECOVERY"
to_string safeguard_stop = codes "SAFEGUARD_STOP"
to_string system_emergency_stop = codes "SYSTEM_EMERGENCY_STOP"
to_string robot_emergency_stop = codes "ROBOT_EMERGENCY_STOP"
to_string violation = codes "VIOLATION"

-- The text of every `SafetyMode` is parsed as that mode, with or without the server's words `Safetymode:`
-- in front.
parse_safety_mode-to_string :
    (mode : SafetyMode)
    → (parse_safety_mode (to_string mode) ≡ ok mode)
      × (parse_safety_mode (codes "Safetymode: " ++ to_string mode) ≡ ok mode)
unfolding parse_safety_mode to_string contains_text
parse_safety_mode-to_string normal = (refl, refl)
parse_safety_mode-to_string reduced = (refl, refl)
parse_safety_mode-to_string protective_stop = (refl, refl)
parse_safety_mode-to_string recovery = (refl, refl)
parse_safety_mode-to_string safeguard_stop = (refl, refl)
parse_safety_mode-to_string system_emergency_stop = (refl, refl)
parse_safety_mode-to_string robot_emergency_stop = (refl, refl)
parse_safety_mode-to_string violation = (refl, refl)
parse_safety_mode-to_string fault = (refl, refl)
