-- ===== src/Examples/Moves.antt =====
-- The theorems of Control.Packages.Moves at concrete arguments.
use ur_rtde_fork_custom.Base.{◌≡◌, [], ◌∷◌, ◌++◌, some, if◌then◌else◌}
use ur_rtde_fork_custom.Base.Outcome.{ok}
use ur_rtde_fork_custom.Rtde.Layout.{received}
use ur_rtde_fork_custom.Control.Recipes.{setup_recipes}
use ur_rtde_fork_custom.Control.Port.{recording_port}
use ur_rtde_fork_custom.Control.Motion.{move_j, move_j_ik}
use ur_rtde_fork_custom.Control.Packages.Moves.{move_joint_packages}
use ur_rtde_fork_custom.Examples.Values.{
  one, one-IsWord64, home, home-IsVector, no_registers, stale, one_joint_speed,
  one_joint_acceleration,
}
use ur_rtde_fork_custom.Rtde.Layout.Concrete.{ur_controller}
use ur_rtde_fork_custom.Base.{false, true}

move_joint_packages_example :
    (received ur_controller
        (setup_recipes 0 false)
        (move_j (recording_port no_registers no_registers) stale home one one true)
      ≡ ok (some (1 ∷ ((home ++ one ∷ one ∷ []) ++ (if true then 1 else 0) ∷ [])) ∷ []))
    × (received ur_controller
          (setup_recipes 0 false)
          (move_j_ik (recording_port no_registers no_registers) stale home one one true)
        ≡ ok (some (2 ∷ ((home ++ one ∷ one ∷ []) ++ (if true then 1 else 0) ∷ [])) ∷ []))
move_joint_packages_example =
    move_joint_packages ur_controller 0 false stale no_registers no_registers home one one true
      home-IsVector one-IsWord64 one-IsWord64 one_joint_speed one_joint_acceleration
