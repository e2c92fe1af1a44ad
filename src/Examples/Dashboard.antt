-- ===== src/Examples/Dashboard.antt =====
-- The theorems on the dashboard client.
use ur_rtde_fork_custom.Base.{ℕ, ◌≡◌, true, false, List, [], ◌∷◌, ◌++◌, codes}
use ur_rtde_fork_custom.Base.Outcome.{ok}
use ur_rtde_fork_custom.Dashboard.{LineNetwork, DashboardClient}
use ur_rtde_fork_custom.Dashboard.Counted.{Counted, InStep}
use ur_rtde_fork_custom.Dashboard.Roles.{role_message, locked, role_message-restricted}
use ur_rtde_fork_custom.Dashboard.Enums.SafetyStatus.{
  parse_safety_status, automatic_mode_safeguard_stop, safeguard_stop, parse_safety_status-to_string,
}
use ur_rtde_fork_custom.Dashboard.Enums.SafetyStatus

-- A server whose answers are given in advance.
abbrev next_line : List (List ℕ) → List ℕ × List (List ℕ)
next_line [] = ([], [])
next_line (line ∷ lines) = (line, lines)

abbrev scripted : LineNetwork (List (List ℕ))
scripted = record {
  connect_to = λ lines. (ok true, lines);
  write = λ str lines. (ok tt, lines);
  read_line = λ lines. (ok (next_line lines).0, (next_line lines).1);
}

abbrev closed_client : DashboardClient (List (List ℕ))
closed_client = record { is_connected = false; has_socket = false; world = [] }

abbrev open_client : DashboardClient (Counted (List (List ℕ)))
open_client = record {
  is_connected = true;
  has_socket = true;
  world = record { lines_sent = 0; lines_read = 0; inner = codes "showing popup" ∷ [] };
}

role_message-restricted_example : role_message locked ≡ codes "restricted"
role_message-restricted_example = role_message-restricted locked

parse_safety_status-to_string_example :
    (parse_safety_status (SafetyStatus.to_string automatic_mode_safeguard_stop) ≡ ok safeguard_stop)
    × (parse_safety_status
          (codes "Safetystatus: " ++ SafetyStatus.to_string automatic_mode_safeguard_stop)
        ≡ ok safeguard_stop)
parse_safety_status-to_string_example = parse_safety_status-to_string automatic_mode_safeguard_stop
