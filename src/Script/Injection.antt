-- ===== src/Script/Injection.antt =====
-- `setScriptInjection` and `scanAndInjectAdditionalScriptCode` of src/script_client.cpp.
pub mod Items
pub mod Scan
use ur_rtde_fork_custom.Base.{
  ℕ, ◌+◌, ◌-◌, ◌^◌, ◌%◌, Bool, List, [], ◌∷◌, Option, none, some, if◌then◌else◌, same_text, length,
}
use ur_rtde_fork_custom.Base.Outcome.{Outcome, ok, ◌>>=◌}
use ur_rtde_fork_custom.Utility.Text.Edit.{find_text, insert, substr}

pub record ScriptInjectItem : Type 0 where
  pub search_string : List ℕ
  pub inject_string : List ℕ

-- A known search string gets the new code, a new one comes last.
unfoldable pub set_script_injection :
    List ℕ → List ℕ → List ScriptInjectItem → List ScriptInjectItem
unfolding same_text
set_script_injection search inject [] =
    record { search_string = search; inject_string = inject } ∷ []
set_script_injection search inject (item ∷ items) =
    if same_text search item.search_string
    then record item { inject_string = inject } ∷ items
    else item ∷ set_script_injection search inject items

-- The message of a verbose client: it shows the text from `n - 100` on, computed in `size_t`.
abbrev pub report : Bool → ScriptInjectItem → ℕ → List ℕ → Outcome (List ℕ)
report verbose item n text =
    if verbose
    then (do
      shown ←
          substr text ((n + 2 ^ 64 - 100) % 2 ^ 64)
            (n + length item.search_string + length item.inject_string + 100)
      ok text)
    else ok text

-- One item, given where its search string was found.
abbrev pub inject_at : Bool → ScriptInjectItem → List ℕ → Option ℕ → Outcome (List ℕ)
inject_at verbose item text none = ok text
inject_at verbose item text (some n) =
    report verbose item n (insert text (n + length item.search_string) item.inject_string)

unfoldable pub scan_and_inject : Bool → List ScriptInjectItem → List ℕ → Outcome (List ℕ)
unfolding find_text
scan_and_inject verbose [] text = ok text
scan_and_inject verbose (item ∷ items) text =
    inject_at verbose item text (find_text item.search_string text)
    >>= scan_and_inject verbose items
