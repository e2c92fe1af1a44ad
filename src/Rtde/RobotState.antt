-- ===== src/Rtde/RobotState.antt =====
-- `RobotState` of include/ur_rtde/robot_state.h and src/robot_state.cpp. The lock keeps an update and a
-- read apart; the model takes each as one step.
pub mod Kind
use ur_rtde_fork_custom.Base.{
  ℕ, ◌&&◌, ◌≢◌, ◌↔◌, Option-cases, inl, inr, ◌%◌, ◌^◌, ◌≡◌, refl, Bool, true, false, List, [], ◌∷◌,
  Option, none, some, arith, same_text, same_text-eq, same_text_refl, if◌then◌else◌, length,
}
use ur_rtde_fork_custom.Base.Outcome.{Outcome, ok, throws, runtime_error}
use ur_rtde_fork_custom.Rtde.StateTypes.{
  Variant, Table, vector_double, vector_int32, find, state_types,
}

pub record RobotState : Type 0 where
  pub state_data : Table
  pub first_state_received : Bool

-- `state_data_[name] = value`.
unfoldable pub assign : List ℕ → Variant → Table → Table
assign name value [] = (name, value) ∷ []
assign name value ((key, v) ∷ table) =
    if same_text name key then (key, value) ∷ table else (key, v) ∷ assign name value table

unfoldable pub init_entry : List ℕ → Table → Table
init_entry item data' = elim (find item state_types) [
  | none ↦ data'
  | some entry ↦ assign item entry data'
]

unfoldable pub init_entries : List (List ℕ) → Table → Table
unfolding init_entry
init_entries [] data' = data'
init_entries (item ∷ variables) data' = init_entries variables (init_entry item data')

-- `initRobotState`; the constructor calls it on an empty map.
unfoldable pub init_robot_state : List (List ℕ) → RobotState → RobotState
unfolding init_entries
init_robot_state variables s = record {
  state_data = init_entries variables s.state_data;
  first_state_received = false;
}

unfoldable pub set_state_data : List ℕ → Variant → RobotState → Bool × RobotState
unfolding assign
set_state_data name val s = elim (find name s.state_data) [
  | none ↦ (false, s)
  | some _ ↦ (true, record s { state_data = assign name val s.state_data })
]

-- `getStateData` before `strict_get`: the entry, or `false`.
unfoldable pub get_state_data : List ℕ → RobotState → Option Variant
get_state_data name s = find name s.state_data

-- `SizeVisitor` and `getStateEntrySize`.
unfoldable pub entry_size : Variant → ℕ
entry_size (vector_double vs) = length vs % 2 ^ 16
entry_size (vector_int32 is) = length is % 2 ^ 16
entry_size _ = 1

unfoldable pub get_state_entry_size : List ℕ → RobotState → Outcome ℕ
unfolding entry_size
get_state_entry_size name s = elim (find name s.state_data) [
  | none ↦ throws runtime_error
  | some v ↦ ok (entry_size v)
]

-- An assignment is read back, and leaves every other entry alone.
pub find-assign :
    (name key : List ℕ) (v : Variant) (table : Table)
    → find key (assign name v table) ≡ (if same_text key name then some v else find key table)
unfolding find assign
find-assign name key v [] = refl
find-assign name key v ((j, u) ∷ table) = ground (
  arith,
  same_text-eq name j,
  same_text-eq key name,
  same_text-eq key j,
  same_text_refl key,
  same_text_refl name,
  find-assign name key v table,
)

-- `setStateData` reports whether the name was set up. If so, `getStateData` returns the new value
-- from then on; every other name, and every name after a refused call, reads as before.
pub get_state_data-set_state_data :
    (name key : List ℕ) (val : Variant) (s : RobotState)
    → (get_state_data key (set_state_data name val s).1 ≡ (
        if (set_state_data name val s).0 && same_text key name
        then some val
        else get_state_data key s))
      × (((set_state_data name val s).0 ≡ true) ↔ (get_state_data name s ≢ none))
unfolding get_state_data set_state_data
get_state_data-set_state_data name key val s = elim (Option-cases (find name s.state_data)) [
  | inl e ↦ rw (set_state_data, e) (refl, (λ h. cc, λ h. absurd (h refl)))
  | inr (v, e) ↦
      rw (set_state_data, e) (find-assign name key val s.state_data, (λ h. cc, λ h. refl))
]
