-- ===== src/Rtde/Layout.antt =====
-- The controller's side of a data package, as an independent description: which types the variables
-- of an input recipe have, and how the bytes of a package are read by them.
pub mod Decode
pub mod Concrete
use mathlib.Core.Option
use ur_rtde_fork_custom.Base.{
  ℕ, zero, suc, ◌+◌, ◌*◌, ◌≡◌, Bool, true, List, [], ◌∷◌, ◌++◌, Option, none, some, get_elem?,
  replicate, map, codes, and_then,
}
use ur_rtde_fork_custom.Base.Outcome.{Outcome, ok, ◌>>=◌}
use ur_rtde_fork_custom.Rtde.Command.{RobotCommand}
use ur_rtde_fork_custom.Rtde.Send.{send_payload}
use ur_rtde_fork_custom.Rtde.Registers.{in_int_reg, in_double_reg}

-- The scalar types on the wire. A VECTOR6D is six doubles.
pub data WireType : Type 0 where
  int32 uint32 uint8 double : WireType

abbrev pub size : WireType → ℕ
size int32 = 4
size uint32 = 4
size uint8 = 1
size double = 8

-- What the code relies on of the robot controller, which is not part of the repository: the types of
-- its input variables, as its RTDE guide lists them.
pub record Controller : Type 0 where
  pub wire_types : List ℕ → List WireType
  pub int_register : (offset reg : ℕ) → wire_types (in_int_reg offset reg) ≡ int32 ∷ []
  pub double_register : (offset reg : ℕ) → wire_types (in_double_reg offset reg) ≡ double ∷ []
  pub standard_mask : wire_types (codes "standard_digital_output_mask") ≡ uint8 ∷ []
  pub standard_out : wire_types (codes "standard_digital_output") ≡ uint8 ∷ []
  pub tool_mask : wire_types (codes "tool_digital_output_mask") ≡ uint8 ∷ []
  pub tool_out : wire_types (codes "tool_digital_output") ≡ uint8 ∷ []
  pub configurable_mask : wire_types (codes "configurable_digital_output_mask") ≡ uint8 ∷ []
  pub configurable_out : wire_types (codes "configurable_digital_output") ≡ uint8 ∷ []
  pub slider_mask : wire_types (codes "speed_slider_mask") ≡ uint32 ∷ []
  pub slider_fraction : wire_types (codes "speed_slider_fraction") ≡ double ∷ []
  pub analog_mask : wire_types (codes "standard_analog_output_mask") ≡ uint8 ∷ []
  pub analog_type : wire_types (codes "standard_analog_output_type") ≡ uint8 ∷ []
  pub analog_0 : wire_types (codes "standard_analog_output_0") ≡ double ∷ []
  pub analog_1 : wire_types (codes "standard_analog_output_1") ≡ double ∷ []
  pub external_force_torque : wire_types (codes "external_force_torque") ≡ replicate 6 double

-- A number of `n` bytes, most significant first, and the bytes behind it.
unfoldable pub read_number : ℕ → ℕ → List ℕ → Option (ℕ × List ℕ)
read_number zero acc bytes = some (acc, bytes)
read_number (suc n) acc [] = none
read_number (suc n) acc (b ∷ bytes) = read_number n (acc * 256 + b) bytes

-- The values of a package body; too few bytes or bytes left over are an error.
unfoldable pub decode : List WireType → List ℕ → Option (List ℕ)
unfolding read_number
decode [] [] = some []
decode [] (b ∷ bytes) = none
decode (t ∷ ts) bytes =
    and_then (read_number (size t) 0 bytes) (λ p. Option.map (◌∷◌ p.0) (decode ts p.1))

-- The types of a whole recipe.
abbrev pub recipe_types : Controller → List (List ℕ) → List WireType
recipe_types c [] = []
recipe_types c (name ∷ names) = c.wire_types name ++ recipe_types c names

-- Input recipes are numbered from 1 in the order in which they were set up.
abbrev pub recipe : List (List (List ℕ)) → ℕ → Option (List (List ℕ))
recipe recipes zero = none
recipe recipes (suc i) = get_elem? recipes i

-- What the controller makes of a package, by the recipe that its first byte names.
abbrev pub decode_package : Controller → List (List (List ℕ)) → List ℕ → Option (List ℕ)
decode_package c recipes [] = none
decode_package c recipes (id ∷ body) =
    and_then (recipe recipes id) (λ names. decode (recipe_types c names) body)

-- A `sendCommand` that notes the payload of each command and reports success.
abbrev pub Log : Type 0
Log = List (List ℕ)

abbrev pub recorder : RobotCommand → Log → Outcome (Bool × Log)
recorder cmd log = ok (true, log ++ send_payload cmd ∷ [])

-- What the controller receives from an operation that starts with an empty log.
abbrev pub received {ℓ} :
    {A : Type ℓ}
    → Controller
    → List (List (List ℕ))
    → (Log → Outcome (A × Log))
    → Outcome (List (Option (List ℕ)))
received c recipes op = op [] >>= λ p. ok (map (decode_package c recipes) p.1)

-- The variables that a package writes.
abbrev pub addressed : List (List (List ℕ)) → List ℕ → Option (List (List ℕ))
addressed recipes [] = none
addressed recipes (id ∷ body) = recipe recipes id

abbrev pub received_by {ℓ} :
    {A : Type ℓ}
    → List (List (List ℕ))
    → (Log → Outcome (A × Log))
    → Outcome (List (Option (List (List ℕ))))
received_by recipes op = op [] >>= λ p. ok (map (addressed recipes) p.1)
