-- ===== src/Examples/Io.antt =====
-- Theorems at concrete arguments: Io.Packages, Io.RegisterOps.
use ur_rtde_fork_custom.Base.{◌^◌, ◌≡◌, [], ◌∷◌, some, arith, if◌then◌else◌, true}
use ur_rtde_fork_custom.Base.Outcome.{ok}
use ur_rtde_fork_custom.Rtde.Layout.{received, recorder}
use ur_rtde_fork_custom.Io.{
  register_offset, setup_recipes, set_standard_digital_out, set_configurable_digital_out,
  set_tool_digital_out,
}
use ur_rtde_fork_custom.Io.Packages.{digital_out_packages}
use ur_rtde_fork_custom.Rtde.Layout.Concrete.{ur_controller}
use ur_rtde_fork_custom.Examples.Values.{stale}

digital_out_packages_example :
    let level = if true then 2 ^ 3 else 0 in
    let recipes = setup_recipes (register_offset true) in
    (received ur_controller recipes (set_standard_digital_out recorder true stale 3 true)
      ≡ ok (some (13 ∷ 2 ^ 3 ∷ level ∷ []) ∷ []))
    × (received ur_controller recipes (set_configurable_digital_out recorder true stale 3 true)
        ≡ ok (some (48 ∷ 2 ^ 3 ∷ level ∷ []) ∷ []))
    × (received ur_controller recipes (set_tool_digital_out recorder true stale 3 true)
        ≡ ok (some (14 ∷ 2 ^ 3 ∷ level ∷ []) ∷ []))
digital_out_packages_example = digital_out_packages ur_controller true stale 3 true (omega arith)
