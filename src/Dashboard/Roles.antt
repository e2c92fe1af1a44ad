-- ===== src/Dashboard/Roles.antt =====
-- `setUserRole` of src/dashboard_client.cpp: the roles and the `switch` over them.
use ur_rtde_fork_custom.Base.{ℕ, ◌≡◌, refl, List, [], ◌∷◌, codes, drop}

-- `UserRole` of include/ur_rtde/dashboard_enums.h.
pub data UserRole : Type 0 where
  programmer operator none locked restricted : UserRole

-- The place of a role's case in the `switch`.
abbrev pub case_number : UserRole → ℕ
case_number locked = 0
case_number programmer = 1
case_number operator = 2
case_number none = 3
case_number restricted = 4

-- The assignments to `message` from a case on: no case ends in a `break`.
abbrev pub assignments : UserRole → List (List ℕ)
assignments role = drop (case_number role) (
    codes "locked" ∷ codes "programmer" ∷ codes "operator" ∷ codes "none" ∷ codes "restricted" ∷ [])

abbrev pub run_assignments : List ℕ → List (List ℕ) → List ℕ
run_assignments message [] = message
run_assignments message (text ∷ texts) = run_assignments text texts

-- The `message` behind the `switch`.
unfoldable pub role_message : UserRole → List ℕ
role_message role = run_assignments [] (assignments role)

-- Every role is sent as `restricted`: no case of the `switch` ends in a `break`, and that assignment is
-- the last one.
pub role_message-restricted : (role : UserRole) → role_message role ≡ codes "restricted"
unfolding role_message
role_message-restricted programmer = refl
role_message-restricted operator = refl
role_message-restricted none = refl
role_message-restricted locked = refl
role_message-restricted restricted = refl
