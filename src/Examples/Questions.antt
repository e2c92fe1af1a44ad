-- ===== src/Examples/Questions.antt =====
-- The theorems of Control.Packages.Questions at concrete arguments.
use ur_rtde_fork_custom.Base.{◌≡◌, false, [], ◌∷◌, none}
use ur_rtde_fork_custom.Base.Outcome.{ok}
use ur_rtde_fork_custom.Rtde.Layout.{received}
use ur_rtde_fork_custom.Control.Recipes.{setup_recipes}
use ur_rtde_fork_custom.Control.Port.{recording_port}
use ur_rtde_fork_custom.Control.Queries.{get_forward_kinematics}
use ur_rtde_fork_custom.Control.Packages.Questions.{forward_kinematics_tool_only}
use ur_rtde_fork_custom.Examples.Values.{home, home-IsVector, no_registers, stale}
use ur_rtde_fork_custom.Rtde.Layout.Concrete.{ur_controller}
use ur_rtde_fork_custom.Base.{false}

forward_kinematics_tool_only_example :
    received ur_controller
      (setup_recipes 0 false)
      (get_forward_kinematics (recording_port no_registers no_registers) stale [] home)
    ≡ ok (none ∷ [])
forward_kinematics_tool_only_example =
    forward_kinematics_tool_only ur_controller 0 false stale no_registers no_registers home
      home-IsVector
