-- ===== src/Receive/Ready.antt =====
-- Which getters of `RTDEReceiveInterface` can be called once the interface is set up.
use ur_rtde_fork_custom.Base.{
  ℕ, ◌≡◌, refl, sym, subst, ◌∙◌, Bool, true, false, ◌||◌, List, [], ◌∷◌, ◌++◌, Option, none, some,
  same_text, same_text-eq, arith,
}
use ur_rtde_fork_custom.Base.Outcome.{Outcome, ok, throws, runtime_error}
use ur_rtde_fork_custom.Base.Post.{Posts}
use ur_rtde_fork_custom.Rtde.StateTypes.{
  Variant, Table, uint32, uint64, int32, double, vector_double, vector_int32, find, state_types,
}
use ur_rtde_fork_custom.Rtde.RobotState.{
  RobotState, assign, init_entry, init_entries, init_robot_state, get_state_data, find-assign,
}
use ur_rtde_fork_custom.Rtde.RobotState.Kind.{Kind, kind, strict_get}
use ur_rtde_fork_custom.Rtde.Stream.{receive_data}
use ur_rtde_fork_custom.Rtde.Stream.Typed.{Holds, receive_data-Good}
use ur_rtde_fork_custom.Receive.{append_names}
use ur_rtde_fork_custom.Receive.Getters.{get_or_throw}

unfoldable pub contains : List ℕ → List (List ℕ) → Bool
unfolding same_text
contains name [] = false
contains name (item ∷ items) = same_text name item || contains name items

contains-append :
    (name : List ℕ) (xs ys : List (List ℕ))
    → contains name (xs ++ ys) ≡ (contains name xs || contains name ys)
unfolding contains
contains-append name [] ys = refl
contains-append name (x ∷ xs) ys = ground (arith, contains-append name xs ys)

pub contains_kept :
    (test : Bool) (name : List ℕ) (names variables : List (List ℕ))
    → contains name variables ≡ true
    → contains name (append_names test names variables) ≡ true
contains_kept true name names variables h = rw (contains-append name variables names, h) refl
contains_kept false name names variables h = h

pub contains_added :
    (test : Bool) (name : List ℕ) (names variables : List (List ℕ))
    → test ≡ true
    → contains name names ≡ true
    → contains name (append_names test names variables) ≡ true
contains_added true name names variables e h =
    rw (contains-append name variables names, h) (or_true (contains name variables))
  where
    or_true : (b : Bool) → (b || true) ≡ true
    or_true true = refl
    or_true false = refl
contains_added false name names variables e h = ground arith

-- A call returns.
abbrev pub Returns {ℓ} : {A : Type ℓ} → Outcome A → Type ℓ
Returns {A = A} m = (a : A) × (m ≡ ok a)

abbrev pub empty_state : RobotState
empty_state = record { state_data = []; first_state_received = false }

-- The states that the receive thread can bring about: the constructor sets the variables up, and each
-- `receiveData` that returns takes what the socket gave.
pub data Reached (variables : List (List ℕ)) : List ℕ → RobotState → Type 0 where
  start : Reached variables [] (init_robot_state variables empty_state)
  receive :
      {buffer : List ℕ} {s : RobotState} (read : Outcome (List ℕ)) (buffer' : List ℕ)
      (s' : RobotState)
      → Reached variables buffer s
      → receive_data variables read buffer s ≡ some (ok (buffer', s'))
      → Reached variables buffer' s'

module _ (name : List ℕ) (entry : Variant) (known : find name state_types ≡ some entry) where
  -- What a table holds of the name.
  abbrev InTable : Table → Type 0
  InTable table = (v : Variant) × (find name table ≡ some v) × (kind v ≡ kind entry)

  known_as : (item : List ℕ) → same_text name item ≡ true → find item state_types ≡ some entry
  known_as item t = rw (sym (same_text-eq name item t)) known

  init_entry-InTable :
      (item : List ℕ) (table : Table)
      → (same_text name item ≡ false → InTable table)
      → InTable (init_entry item table)
  unfolding init_entry
  init_entry-InTable item table h = choose (find item state_types) (same_text name item) refl refl h
    where
      choose :
          (found : Option Variant) (there : Bool)
          → find item state_types ≡ found
          → same_text name item ≡ there
          → (there ≡ false → InTable table)
          → InTable (elim found [ none ↦ table | some e ↦ assign item e table ])
      choose none true m t h = cc (m, known_as item t)
      choose (some u) true m t h =
          (entry, rw (find-assign item name u table, t) (sym m ∙ known_as item t), refl)
      choose none false m t h = h refl
      choose (some u) false m t h = (h'.0, rw (find-assign item name u table, t) h'.1, h'.2)
        where
          h' : InTable table
          h' = h refl

  init_entries-InTable :
      (variables : List (List ℕ)) (table : Table)
      → (contains name variables ≡ false → InTable table)
      → InTable (init_entries variables table)
  unfolding init_entries contains
  init_entries-InTable [] table h = h refl
  init_entries-InTable (item ∷ variables) table h =
      init_entries-InTable variables (init_entry item table)
        (λ c. init_entry-InTable item table (λ t. h (rw (t, c) refl)))

  Reached-Holds :
      {variables : List (List ℕ)} {buffer : List ℕ} {s : RobotState}
      → contains name variables ≡ true
      → Reached variables buffer s
      → Holds name (kind entry) s
  unfolding init_robot_state get_state_data
  Reached-Holds {variables = variables} c start = init_entries-InTable variables [] (λ n. cc)
  Reached-Holds {variables = variables} c (receive {buffer = b} {s = t} read b' s' r e) =
      subst (Posts (λ (p : List ℕ × RobotState). Holds name (kind entry) p.1)) e
        (receive_data-Good name entry known variables read b t (Reached-Holds c r))

strict_get-kind : (v : Variant) → Returns (strict_get (kind v) v)
unfolding strict_get
strict_get-kind (uint32 v) = (v, refl)
strict_get-kind (uint64 v) = (v, refl)
strict_get-kind (int32 v) = (v, refl)
strict_get-kind (double v) = (v, refl)
strict_get-kind (vector_double v) = (v, refl)
strict_get-kind (vector_int32 v) = (v, refl)

Holds-Returns :
    (k : Kind) (name : List ℕ) (s : RobotState) → Holds name k s → Returns (get_or_throw k name s)
unfolding get_or_throw
Holds-Returns k name s (v, e, h) =
    subst (λ m. Returns (elim m [ none ↦ throws runtime_error | some u ↦ strict_get k u ])) (sym e)
      (subst (λ j. Returns (strict_get j v)) h (strict_get-kind v))

-- A variable that was asked for can be read at its type, whatever was received.
pub get_or_throw-Returns :
    (name : List ℕ) (entry : Variant)
    → find name state_types ≡ some entry
    → {variables : List (List ℕ)} {buffer : List ℕ} {s : RobotState}
    → contains name variables ≡ true
    → Reached variables buffer s
    → Returns (get_or_throw (kind entry) name s)
get_or_throw-Returns name entry known {variables = vs} {buffer = b} {s = s} c r =
    Holds-Returns (kind entry) name s (Reached-Holds name entry known c r)
