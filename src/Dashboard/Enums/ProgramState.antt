-- ===== src/Dashboard/Enums/ProgramState.antt =====
-- The enumeration `ProgramState` of include/ur_rtde/dashboard_enums.h with its texts, src/dashboard_enums.cpp.
use ur_rtde_fork_custom.Base.{ℕ, ◌≡◌, refl, List, codes, if◌then◌else◌}
use ur_rtde_fork_custom.Base.Outcome.{Outcome, ok, throws, runtime_error}
use ur_rtde_fork_custom.Utility.Text.Find.{strstr, contains_text}

pub data ProgramState : Type 0 where
  stopped playing paused : ProgramState

-- The first name that the text contains.
unfoldable pub parse_program_state : List ℕ → Outcome ProgramState
unfolding strstr
parse_program_state state_str =
    if strstr state_str (codes "STOPPED")
    then ok stopped
    else if strstr state_str (codes "PLAYING")
    then ok playing
    else if strstr state_str (codes "PAUSED")
    then ok paused
    else throws runtime_error

unfoldable pub to_string : ProgramState → List ℕ
to_string stopped = codes "STOPPED"
to_string playing = codes "PLAYING"
to_string paused = codes "PAUSED"

-- The text of every program state is parsed as that state.
parse_program_state-to_string :
    (mode : ProgramState) → parse_program_state (to_string mode) ≡ ok mode
unfolding parse_program_state to_string contains_text
parse_program_state-to_string stopped = refl
parse_program_state-to_string playing = refl
parse_program_state-to_string paused = refl
