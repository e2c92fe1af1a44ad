-- ===== src/Dashboard/InStep.antt =====
-- The dialogue of `DashboardClient` of src/dashboard_client.cpp with the server: questions and answers
-- stay in step.
use ur_rtde_fork_custom.Base.{◌≡◌}
use ur_rtde_fork_custom.Dashboard
use ur_rtde_fork_custom.Dashboard.Errors.{Call, load_urp_call, popup_call, add_to_log_call}
use ur_rtde_fork_custom.Dashboard.Counted.{lines_in, Counted}

-- The texts that a call puts into its command hold no newline.
abbrev pub IsOneLine : Call → Type 0
IsOneLine (load_urp_call urp_name) = lines_in urp_name ≡ 0
IsOneLine (popup_call message) = lines_in message ≡ 0
IsOneLine (add_to_log_call message) = lines_in message ≡ 0
IsOneLine _ = Unit {0}
