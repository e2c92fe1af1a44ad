-- ===== src/Rtde/Stream/Package.antt =====
-- A data package of the controller, from its values to the robot state.
use ur_rtde_fork_custom.Base.{
  ℕ, suc, ◌+◌, ◌^◌, ◌<◌, ◌≡◌, refl, ap, ◌∙◌, true, false, List, [], ◌∷◌, ◌++◌, some, arith, length,
  All, append_assoc, append-nil, length-append, take_all, Option, none, ◌≢◌, ◌≤◌, Bool, same_text,
  if◌then◌else◌,
}
use ur_rtde_fork_custom.Base.Outcome.{ok}
use ur_rtde_fork_custom.Utility.{get_uchar}
use ur_rtde_fork_custom.Rtde.Command.{rtde_code, rtde_data_package}
use ur_rtde_fork_custom.Rtde.Send.{frame}
use ur_rtde_fork_custom.Rtde.StateTypes.{Variant, find, state_types}
use ur_rtde_fork_custom.Rtde.RobotState.{
  RobotState, set_state_data, get_state_data, get_state_data-set_state_data,
}
use ur_rtde_fork_custom.Rtde.Stream.{
  update_variable, update_variables, apply_package, receive_data, process, read_size,
}
use ur_rtde_fork_custom.Rtde.Stream.Frames.{process-last}
use ur_rtde_fork_custom.Rtde.Stream.Encode.{Fits, encode, read_variable-encode}

-- The names and the values of a package.
abbrev pub names_of : List (List ℕ × Variant) → List (List ℕ)
names_of [] = []
names_of (p ∷ ps) = p.0 ∷ names_of ps

abbrev pub encode_all : List (List ℕ × Variant) → List ℕ
encode_all [] = []
encode_all (p ∷ ps) = encode p.1 ++ encode_all ps

abbrev pub store : List (List ℕ × Variant) → RobotState → RobotState
store [] s = s
store (p ∷ ps) s = store ps (set_state_data p.0 p.1 s).1

-- Every name is in the table of types, and its value has that type.
abbrev pub AllFit : List (List ℕ × Variant) → Type 0
AllFit = All (λ p. (entry : Variant) × (find p.0 state_types ≡ some entry) × Fits p.0 entry p.1)

update_variables-encode_all :
    (values : List (List ℕ × Variant)) (front : List ℕ) (s : RobotState)
    → AllFit values
    → length front + length (encode_all values) < 2 ^ 32
    → update_variables (names_of values) (front ++ encode_all values) (length front) s
      ≡ ok (length front + length (encode_all values), store values s)
unfolding update_variables update_variable
update_variables-encode_all [] front s h fits = ap (λ n. ok (n, s)) (omega arith)
update_variables-encode_all ((name, v) ∷ values) front s ((entry, in_table, hv), h) fits =
    rw
      (
        in_table,
        read_variable-encode name front (encode_all values) entry v hv
            (omega (arith, length-append (encode v) (encode_all values))),
      )
      (rw (← append_assoc front (encode v) (encode_all values), ← length-append front (encode v))
        (update_variables-encode_all values (front ++ encode v) (set_state_data name v s).1 h (
            omega
              (arith, length-append (encode v) (encode_all values), length-append front (encode v)))
          ∙ ap (λ n. ok (n, store values (set_state_data name v s).1))
              (omega (
                arith,
                length-append (encode v) (encode_all values),
                length-append front (encode v),
              ))))

apply_package-encode_all :
    (values : List (List ℕ × Variant)) (recipe_id : ℕ) (s : RobotState)
    → AllFit values
    → length (encode_all values) < 2 ^ 16
    → apply_package (names_of values) (recipe_id ∷ encode_all values) s
      ≡ ok (record (store values s) { first_state_received = true })
unfolding apply_package get_uchar
apply_package-encode_all values recipe_id s h fits =
    rw (update_variables-encode_all values (recipe_id ∷ []) s h (omega arith)) refl

-- A variable that `initRobotState` has put into the state.
abbrev pub IsSetUp : RobotState → List ℕ → Type 0
IsSetUp s name = get_state_data name s ≢ none

-- The last value that a list has for a name, or else the given one.
abbrev pub latest : List ℕ → List (List ℕ × Variant) → Option Variant → Option Variant
latest key [] old = old
latest key (p ∷ values) old = latest key values (if same_text key p.0 then some p.1 else old)

set_state_data_reads :
    (name key : List ℕ) (v : Variant) (s : RobotState)
    → IsSetUp s name
    → get_state_data key (set_state_data name v s).1
      ≡ (if same_text key name then some v else get_state_data key s)
set_state_data_reads name key v s h =
    let read_back = get_state_data-set_state_data name key v s in
    rw (read_back.1.1 h) at read_back.0

IsSetUp-set_state_data :
    (name key : List ℕ) (v : Variant) (s : RobotState)
    → IsSetUp s name
    → IsSetUp s key
    → IsSetUp (set_state_data name v s).1 key
IsSetUp-set_state_data name key v s h k =
    rw (set_state_data_reads name key v s h) (choice (same_text key name))
  where
    choice : (b : Bool) → (if b then some v else get_state_data key s) ≢ none
    choice true = λ e. cc
    choice false = k

All-IsSetUp :
    (name : List ℕ) (v : Variant) (s : RobotState)
    → IsSetUp s name
    → (values : List (List ℕ × Variant)) → All (λ p. IsSetUp s p.0) values
    → All (λ p. IsSetUp (set_state_data name v s).1 p.0) values
All-IsSetUp name v s h [] k = tt
All-IsSetUp name v s h (p ∷ values) k =
    (IsSetUp-set_state_data name p.0 v s h k.0, All-IsSetUp name v s h values k.1)

store_reads :
    (key : List ℕ) (values : List (List ℕ × Variant)) (s : RobotState)
    → All (λ p. IsSetUp s p.0) values
    → get_state_data key (store values s) ≡ latest key values (get_state_data key s)
store_reads key [] s h = refl
store_reads key (p ∷ values) s h =
    store_reads key values (set_state_data p.0 p.1 s).1 (All-IsSetUp p.0 p.1 s h.0 values h.1)
    ∙ ap (latest key values) (set_state_data_reads p.0 key p.1 s h.0)

-- Bytes that fit into one read are all processed.
receive_data-process :
    (names : List (List ℕ)) (arrived : List ℕ) (s : RobotState)
    → length arrived ≤ read_size
    → receive_data names (ok arrived) [] s ≡ process (suc (length arrived)) names arrived s
unfolding receive_data
receive_data-process names arrived s h =
    ap (λ filled. process (suc (length filled)) names filled s) (take_all read_size arrived h)

-- What one call of `receiveData` on an empty buffer does with a package of these values: the buffer is
-- empty again, the first package is noted, and every variable reads as expected.
abbrev pub Receives : List (List ℕ × Variant) → ℕ → RobotState → Type 0
Receives values recipe_id s =
    (t : RobotState) × (receive_data (names_of values)
        (ok (frame (rtde_code rtde_data_package) (recipe_id ∷ encode_all values))) [] s
      ≡ some (ok ([], t)))
    × (t.first_state_received ≡ true)
    × ((key : List ℕ) → get_state_data key t ≡ latest key values (get_state_data key s))

-- A package in which the controller writes a value for each variable of the recipe, of the type
-- that the table has for it, is stored by one call of `receiveData` on an empty buffer: behind it
-- `getStateData` gives each of these variables its value of the package (the last one if the recipe
-- names it twice) and every other variable the value that it had, the first package is noted, and
-- the buffer is empty again. Conditions: the state has an entry for each variable of the recipe,
-- and the package has at most the 4096 bytes of one read.
pub receive_data-encode_all :
    (values : List (List ℕ × Variant)) (recipe_id : ℕ) (s : RobotState)
    → AllFit values
    → All (λ p. IsSetUp s p.0) values
    → length (encode_all values) + 4 ≤ 4096
    → Receives values recipe_id s
unfolding frame get_state_data
receive_data-encode_all values recipe_id s h set_up fits =
    let packet = frame (rtde_code rtde_data_package) (recipe_id ∷ encode_all values) in
    let done =
      process-last (names_of values) (suc (suc (suc (length (encode_all values))))) s
        (recipe_id ∷ encode_all values) [] (record (store values s) { first_state_received = true })
        (omega arith) (omega arith) (apply_package-encode_all values recipe_id s h (omega arith)) in
    (
      record (store values s) { first_state_received = true },
      receive_data-process (names_of values) packet s (omega arith) ∙ (rw append-nil at done),
      refl,
      λ key. store_reads key values s set_up,
    )
