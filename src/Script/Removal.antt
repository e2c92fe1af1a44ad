-- ===== src/Script/Removal.antt =====
-- `removeUnsupportedFunctions` of src/script_client.cpp.
pub mod Defined
pub mod Supported
pub mod Lines
pub mod Tags
pub mod Termination
pub mod Rounds
use ur_rtde_fork_custom.Base.{
  ℕ, zero, suc, ◌+◌, ◌-◌, ◌^◌, ◌%◌, Bool, true, false, ◌&&◌, ◌||◌, List, [], ◌∷◌, Option, none,
  some, codes, if◌then◌else◌, ◌==◌, ltb, leb, same_text, is_empty, replicate,
}
use ur_rtde_fork_custom.Base.Int.{ℤ, pos, negsuc}
use ur_rtde_fork_custom.Base.Outcome.{Outcome, ok, throws, fault, ◌>>=◌}
use ur_rtde_fork_custom.Utility.Text.Stoi.{stoi}
use ur_rtde_fork_custom.Utility.Text.Edit.{
  at, substr, find_byte, find_byte_from, erase, insert, count,
}

-- `major_control_version_` and `minor_control_version_`.
pub record Version : Type 0 where
  pub major : ℕ
  pub minor : ℕ

-- The versions that a tag of the script asks for.
pub record Needed : Type 0 where
  pub major : ℕ
  pub minor : ℕ
  pub extra_major : ℕ
  pub extra_minor : ℕ
  pub is_additional : Bool

abbrev to_uint32 : ℤ → ℕ
to_uint32 (pos n) = n % 2 ^ 32
to_uint32 (negsuc n) = 2 ^ 32 - 1 - n % 2 ^ 32

-- `uint32_t(std::stoi(text))`.
abbrev pub version_number : List ℕ → Outcome ℕ
version_number s = stoi s >>= (λ n. ok (to_uint32 n))

-- The part of the loop's body that stands under `version_str.at(4) == '|'`, and the numbers before it.
abbrev pub read_extra : ℕ → ℕ → ℕ → List ℕ → Outcome (Option Needed)
read_extra major minor extra_major_str extra_minor_str = do
  extra_major ← version_number (extra_major_str ∷ [])
  extra_minor ← (if is_empty extra_minor_str then ok 0 else version_number extra_minor_str)
  ok (
      some (record {
        major = major;
        minor = minor;
        extra_major = extra_major;
        extra_minor = extra_minor;
        is_additional = true;
      }))

abbrev pub read_numbers : List ℕ → ℕ → List ℕ → ℕ → List ℕ → Outcome (Option Needed)
read_numbers version_str major_str minor_str extra_major_str extra_minor_str = do
  major ← version_number (major_str ∷ [])
  minor ← version_number minor_str
  bar ← at version_str 4
  (if bar == b'|'
      then read_extra major minor extra_major_str extra_minor_str
      else ok (
          some (record {
            major = major;
            minor = minor;
            extra_major = 0;
            extra_minor = 0;
            is_additional = false;
          })))

-- The start of the loop's body. `none`: the version could not be read.
unfoldable pub read_needed : List ℕ → Outcome (Option Needed)
unfolding stoi same_text
read_needed version_str = do
  major_str ← at version_str 0
  minor_str ← substr version_str 2 4
  extra_major_str ← at version_str 5
  extra_minor_str ← substr version_str 7 2
  (if is_empty minor_str || major_str == b' ' || same_text minor_str (codes " ")
      then ok none
      else read_numbers version_str major_str minor_str extra_major_str extra_minor_str)

-- The test for keeping the line.
unfoldable pub is_kept : Version → Needed → Bool
is_kept v needed =
    ltb needed.major v.major
    || (v.major == needed.major && leb needed.minor v.minor)
    || (v.major == needed.extra_major && leb needed.extra_minor v.minor)

-- `ur_script.find("\n", n) - n + 1` in `size_t`.
abbrev pub line_length : List ℕ → ℕ → ℕ
line_length text n = elim (find_byte_from b'\n' text n) [
  | none ↦ (2 ^ 64 - n) % 2 ^ 64
  | some newline ↦ newline - n + 1
]

-- The rest of the loop's body: a tag is overwritten with blanks, or its line is erased.
unfoldable pub edit_line : Version → Needed → List ℕ → ℕ → List ℕ
unfolding is_kept find_byte
edit_line v needed text n =
    if is_kept v needed
    then (if needed.is_additional
        then insert (erase text n 10) n (replicate 10 b' ')
        else insert (erase text n 5) n (replicate 5 b' '))
    else erase text n (line_length text n)

-- How one round of the loop ends.
pub data Round : Type 0 where
  finished unreadable : Round
  again : List ℕ → Round

abbrev pub edit_tag : Version → List ℕ → ℕ → Outcome Round
edit_tag v text n = do
  version_str ← substr text (n + 1) 9
  needed ← read_needed version_str
  ok (elim needed [ none ↦ unreadable | some versions ↦ again (edit_line v versions text n) ])

abbrev pub edit_found : Version → List ℕ → Option ℕ → Outcome Round
edit_found v text none = ok finished
edit_found v text (some n) = edit_tag v text n

unfoldable pub remove_round : Version → List ℕ → Outcome Round
unfolding find_byte read_needed edit_line
remove_round v text = edit_found v text (find_byte b'$' text)

-- What the loop makes of a round: the function returns whether it succeeded, and the text as it is then.
abbrev pub next_round :
    (List ℕ → Option (Outcome (Bool × List ℕ)))
    → List ℕ
    → Outcome Round
    → Option (Outcome (Bool × List ℕ))
next_round rest text fault = some fault
next_round rest text (throws e) = some (throws e)
next_round rest text (ok finished) = some (ok (true, text))
next_round rest text (ok unreadable) = some (ok (false, text))
next_round rest text (ok (again text')) = rest text'

-- The loop for so many rounds. `none`: it has not ended.
unfoldable pub remove : ℕ → Version → List ℕ → Option (Outcome (Bool × List ℕ))
unfolding remove_round
remove zero v text = none
remove (suc rounds) v text = next_round (remove rounds v) text (remove_round v text)

-- A round for each tag and one to see that none is left. A loop that goes on has no effect on
-- anything else, so C++ does not define it.
unfoldable pub remove_unsupported_functions : Version → List ℕ → Outcome (Bool × List ℕ)
unfolding remove
remove_unsupported_functions v text = elim (remove (suc (count b'$' text)) v text) [
  | none ↦ fault
  | some result ↦ result
]
