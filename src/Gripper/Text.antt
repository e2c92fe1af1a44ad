-- ===== src/Gripper/Text.antt =====
-- The lines of text between `RobotiqGripper` of src/robotiq_gripper.cpp and the gripper.
use ur_rtde_fork_custom.Base.{
  ℕ, suc, Bool, List, [], ◌∷◌, ◌++◌, codes, if◌then◌else◌, ◌==◌, same_text, is_empty,
}
use ur_rtde_fork_custom.Base.Int.{ℤ, pos, negsuc}
use ur_rtde_fork_custom.Base.Outcome.{Outcome, ok, throws, fault, logic_error, gripper_state, ◌>>=◌}
use ur_rtde_fork_custom.Utility.Text.Stoi.{stoi}
use ur_rtde_fork_custom.Utility.Text.{split, to_string}

unfoldable pub int_text : ℤ → List ℕ
unfolding to_string
int_text (pos n) = to_string n
int_text (negsuc n) = b'-' ∷ to_string (suc n)

unfoldable pub get_command : List ℕ → List ℕ
get_command var = codes "GET " ++ var ++ b'\n' ∷ []

unfoldable pub get_commands : List (List ℕ) → List ℕ
unfolding get_command
get_commands [] = []
get_commands (var ∷ vars) = get_command var ++ get_commands vars

unfoldable pub settings : List (List ℕ × ℤ) → List ℕ
unfolding int_text
settings [] = b'\n' ∷ []
settings ((var, value) ∷ vars) = codes " " ++ var ++ codes " " ++ int_text value ++ settings vars

unfoldable pub set_command : List (List ℕ × ℤ) → List ℕ
unfolding settings
set_command vars = codes "SET" ++ settings vars

unfoldable pub is_ack : List ℕ → Bool
unfolding same_text
is_ack data' = same_text data' (codes "ack")

-- `data[1]`, tested for the question mark of a device that cannot answer. Without a second word the
-- access is out of range and undefined.
unfoldable pub second_word : List (List ℕ) → Outcome ℤ
unfolding stoi
second_word [] = fault
second_word (_ ∷ []) = fault
second_word (_ ∷ [] ∷ _) = stoi []
second_word (_ ∷ (c ∷ word) ∷ _) = if c == b'?' then throws gripper_state else stoi (c ∷ word)

abbrev pub check_name : List ℕ → List (List ℕ) → Outcome ℤ
check_name var [] = throws logic_error
check_name var (name ∷ words) =
    if same_text name var then second_word (name ∷ words) else throws logic_error

-- What `getVar` makes of the answer.
unfoldable pub parse_value : List ℕ → List ℕ → Outcome ℤ
unfolding same_text second_word split
parse_value var rx_string =
    if is_empty rx_string then throws logic_error else check_name var (split rx_string b' ')

abbrev pub parse_lines : List (List ℕ) → Outcome (List ℤ)
parse_lines [] = ok []
parse_lines (line ∷ lines) = do
  value ← second_word (split line b' ')
  values ← parse_lines lines
  ok (value ∷ values)

-- What `getVars` makes of the answer: a value for each line.
unfoldable pub parse_values : List ℕ → Outcome (List ℤ)
unfolding second_word split
parse_values rx_string = parse_lines (split rx_string b'\n')
