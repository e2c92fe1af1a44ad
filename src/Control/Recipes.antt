-- ===== src/Control/Recipes.antt =====
-- `setupRecipes` of src/rtde_control_interface.cpp.
use ur_rtde_fork_custom.Base.{
  ℕ, zero, suc, ◌+◌, Bool, ◌&&◌, ◌||◌, List, [], ◌∷◌, ◌++◌, leb, ◌==◌, if◌then◌else◌, codes,
}
use ur_rtde_fork_custom.Rtde.Registers.{in_int_reg, in_double_reg, out_int_reg, out_double_reg}

-- The names of `count` registers in a row.
unfoldable pub consecutive : (ℕ → List ℕ) → ℕ → ℕ → List (List ℕ)
consecutive name first zero = []
consecutive name first (suc count) = name first ∷ consecutive name (first + 1) count

-- `state_names_`: what the controller is asked to report.
unfoldable pub state_names : Bool → ℕ → ℕ → ℕ → List (List ℕ)
unfolding consecutive
state_names use_upper_range_registers register_offset major_version minor_version =
    let base =
      codes "robot_status_bits" ∷ codes "safety_status_bits" ∷ codes "runtime_state" ∷ [] in
    let registers =
      consecutive (out_int_reg register_offset) 0 3
      ++ consecutive (out_double_reg register_offset) 0 6 in
    if use_upper_range_registers
    then (if (major_version == 3 && leb 9 minor_version)
          || (major_version == 5 && leb 3 minor_version)
        then base ++ registers
        else base)
    else (if leb 3 major_version && leb 4 minor_version then base ++ registers else base)

-- The arguments of the `sendInputSetup` calls, in their order.
unfoldable pub setup_recipes : ℕ → Bool → List (List (List ℕ))
unfolding consecutive
setup_recipes offset no_ext_ft =
    let cmd = in_int_reg offset 0 in
    let ints = consecutive (in_int_reg offset) 0 in
    let doubles = consecutive (in_double_reg offset) 0 in
    (cmd ∷ (doubles 8 ++ in_int_reg offset 1 ∷ []))
    ∷ (cmd ∷ doubles 11)
    ∷ (ints 8 ++ doubles 18)
    ∷ (cmd ∷ [])
    ∷ (cmd ∷ doubles 9)
    ∷ (cmd ∷ doubles 6)
    ∷ (cmd ∷ doubles 4)
    ∷ (cmd ∷ doubles 1)
    ∷ (cmd ∷ in_int_reg offset 1 ∷ [])
    ∷ (cmd ∷ doubles 14)
    ∷ (cmd ∷ [])
    ∷ (cmd ∷ doubles 12)
    ∷ (cmd ∷ doubles 8)
    ∷ (cmd ∷ doubles 14)
    ∷ (cmd ∷ in_int_reg offset 1 ∷ [])
    ∷ (cmd ∷ doubles 13)
    ∷ (ints 7 ++ doubles 6)
    ∷ (ints 2 ++ doubles 7)
    ∷ (cmd ∷ in_double_reg offset 0 ∷ in_int_reg offset 1 ∷ [])
    ∷ (cmd ∷ doubles 10)
    ∷ (if no_ext_ft then [] else (cmd ∷ codes "external_force_torque" ∷ []) ∷ [])
