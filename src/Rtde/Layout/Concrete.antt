-- ===== src/Rtde/Layout/Concrete.antt =====
-- A controller that meets the record of assumptions: the types by name, as the RTDE guide lists them.
use ur_rtde_fork_custom.Base.{
  ℕ, refl, Bool, true, false, List, [], ◌∷◌, ◌==◌, ◌&&◌, if◌then◌else◌, codes, same_text, replicate,
}
use ur_rtde_fork_custom.Rtde.Registers.{in_int_reg, in_double_reg}
use ur_rtde_fork_custom.Rtde.Layout.{Controller, WireType, int32, uint32, uint8, double}

starts_with : List ℕ → List ℕ → Bool
starts_with [] s = true
starts_with (c ∷ p) [] = false
starts_with (c ∷ p) (d ∷ s) = c == d && starts_with p s

types_by_name : List ℕ → List WireType
unfolding starts_with same_text
types_by_name name =
    if starts_with (codes "input_int_register_") name
    then int32 ∷ []
    else if starts_with (codes "input_double_register_") name
    then double ∷ []
    else if same_text name (codes "speed_slider_mask")
    then uint32 ∷ []
    else if same_text name (codes "speed_slider_fraction")
    then double ∷ []
    else if same_text name (codes "external_force_torque")
    then replicate 6 double
    else if starts_with (codes "standard_analog_output_0") name
    then double ∷ []
    else if starts_with (codes "standard_analog_output_1") name
    then double ∷ []
    else uint8 ∷ []

pub ur_controller : Controller
unfolding types_by_name in_int_reg in_double_reg
ur_controller = record {
  wire_types = types_by_name;
  int_register = λ o r. refl;
  double_register = λ o r. refl;
  standard_mask = refl;
  standard_out = refl;
  tool_mask = refl;
  tool_out = refl;
  configurable_mask = refl;
  configurable_out = refl;
  slider_mask = refl;
  slider_fraction = refl;
  analog_mask = refl;
  analog_type = refl;
  analog_0 = refl;
  analog_1 = refl;
  external_force_torque = refl;
}
