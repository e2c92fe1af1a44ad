-- ===== src/Io/RegisterOps.antt =====
-- The general purpose registers that src/rtde_io_interface.cpp lets a client write.
use ur_rtde_fork_custom.Base.{
  ℕ, zero, suc, ◌+◌, ◌≤◌, ◌<◌, ◌≡◌, ◌⊎◌, refl, Bool, [], ◌∷◌, some, arith, if◌then◌else◌,
}
use ur_rtde_fork_custom.Base.Outcome.{Outcome, ok, throws, range_error}
use ur_rtde_fork_custom.Utility.RoundTrip.{IsWord32, IsWord64}
use ur_rtde_fork_custom.Rtde.Command.{RobotCommand}
use ur_rtde_fork_custom.Rtde.Send.{send_payload}
use ur_rtde_fork_custom.Rtde.Registers.{in_int_reg, in_double_reg}
use ur_rtde_fork_custom.Rtde.Layout.{Controller, received, received_by, recorder, recipe, Log}
use ur_rtde_fork_custom.Rtde.Layout.Decode.{
  decode-pack_int32, decode_last-pack_int32, decode_last-pack_double,
}
use ur_rtde_fork_custom.Io.{
  register_offset, setup_recipes, set_input_int_register, set_input_double_register,
  register_recipe,
}

-- The first register that the register operations accept.
abbrev pub first_register : Bool → ℕ
first_register upper = if upper then 42 else 18

register_recipe_in_range :
    (upper : Bool) (first k : ℕ)
    → k < 5
    → register_recipe upper first (first_register upper + k) ≡ ok (first + k)
unfolding register_recipe
register_recipe_in_range upper first k h = ground arith

register_recipe_out_of_range :
    (upper : Bool) (first input_id : ℕ)
    → (input_id < first_register upper) ⊎ (first_register upper + 5 ≤ input_id)
    → register_recipe upper first input_id ≡ throws range_error
unfolding register_recipe
register_recipe_out_of_range upper first input_id h = ground arith

recipe_int :
    (k offset : ℕ)
    → k < 5
    → recipe (setup_recipes offset) (7 + k)
      ≡ some (in_int_reg offset 23 ∷ in_int_reg offset (18 + k) ∷ [])
unfolding setup_recipes
recipe_int zero offset h = refl
recipe_int (suc zero) offset h = refl
recipe_int (suc (suc zero)) offset h = refl
recipe_int (suc (suc (suc zero))) offset h = refl
recipe_int (suc (suc (suc (suc zero)))) offset h = refl
recipe_int (suc (suc (suc (suc (suc k))))) offset h = absurd (omega arith)

recipe_double :
    (k offset : ℕ)
    → k < 5
    → recipe (setup_recipes offset) (12 + k)
      ≡ some (in_int_reg offset 23 ∷ in_double_reg offset (18 + k) ∷ [])
unfolding setup_recipes
recipe_double zero offset h = refl
recipe_double (suc zero) offset h = refl
recipe_double (suc (suc zero)) offset h = refl
recipe_double (suc (suc (suc zero))) offset h = refl
recipe_double (suc (suc (suc (suc zero)))) offset h = refl
recipe_double (suc (suc (suc (suc (suc k))))) offset h = absurd (omega arith)

-- The offset and the recipe's register make up the number that the client gave.
offset_sum :
    (upper : Bool) (k : ℕ) → register_offset upper + (18 + k) ≡ 0 + (first_register upper + k)
offset_sum upper k = ground arith

int_name :
    (upper : Bool) (k : ℕ)
    → in_int_reg (register_offset upper) (18 + k) ≡ in_int_reg 0 (first_register upper + k)
unfolding in_int_reg
int_name upper k = rw (offset_sum upper k)

double_name :
    (upper : Bool) (k : ℕ)
    → in_double_reg (register_offset upper) (18 + k) ≡ in_double_reg 0 (first_register upper + k)
unfolding in_double_reg
double_name upper k = rw (offset_sum upper k)

module _ (c : Controller) (upper : Bool) (memory : RobotCommand) where
  -- For each of the five registers from 18 on (from 42 on with the upper range), `setInputIntRegister` sends its command number and the value, a 32-bit word, by a recipe that names the command register and the
  -- integer register of the number that was asked for.
  set_input_int_register_package :
      (k value : ℕ)
      → k < 5
      → IsWord32 value
      → let input_id = first_register upper + k in
        let recipes = setup_recipes (register_offset upper) in
        let op = set_input_int_register {W = Log} recorder upper memory input_id value in
        (received c recipes op ≡ ok (some (49 ∷ value ∷ []) ∷ []))
        × (received_by recipes op
            ≡ ok (some (in_int_reg (register_offset upper) 23 ∷ in_int_reg 0 input_id ∷ []) ∷ []))
  unfolding set_input_int_register send_payload
  set_input_int_register_package k value h hv = (
    rw (register_recipe_in_range upper 7 k h, recipe_int k (register_offset upper) h)
        (simp (
          c.int_register,
          decode-pack_int32 _ _ 49 (omega arith),
          decode_last-pack_int32 value hv,
        )),
    rw (
      register_recipe_in_range upper 7 k h,
      recipe_int k (register_offset upper) h,
      int_name upper k,
    ),
  )

  -- For each of the five registers from 18 on (from 42 on with the upper range), `setInputDoubleRegister` sends its command number and the value, a 64-bit pattern, by a recipe that names the command register and the
  -- double register of the number that was asked for.
  set_input_double_register_package :
      (k value : ℕ)
      → k < 5
      → IsWord64 value
      → let input_id = first_register upper + k in
        let recipes = setup_recipes (register_offset upper) in
        let op = set_input_double_register {W = Log} recorder upper memory input_id value in
        (received c recipes op ≡ ok (some (50 ∷ value ∷ []) ∷ []))
        × (received_by recipes op
            ≡ ok
                (some (in_int_reg (register_offset upper) 23 ∷ in_double_reg 0 input_id ∷ []) ∷ []))
  unfolding set_input_double_register send_payload
  set_input_double_register_package k value h hv = (
    rw (register_recipe_in_range upper 12 k h, recipe_double k (register_offset upper) h)
        (simp (
          c.int_register,
          c.double_register,
          decode-pack_int32 _ _ 50 (omega arith),
          decode_last-pack_double value hv,
        )),
    rw (
      register_recipe_in_range upper 12 k h,
      recipe_double k (register_offset upper) h,
      double_name upper k,
    ),
  )

-- Every other register number is refused with a range error before anything is sent, whatever
-- `sendCommand` would do.
register_out_of_range :
    {W : Type 0} (send_command : RobotCommand → W → Outcome (Bool × W)) (upper : Bool)
    (memory : RobotCommand) (input_id value : ℕ) (w : W)
    → (input_id < first_register upper) ⊎ (first_register upper + 5 ≤ input_id)
    → (set_input_int_register send_command upper memory input_id value w ≡ throws range_error)
      × (set_input_double_register send_command upper memory input_id value w ≡ throws range_error)
unfolding set_input_int_register set_input_double_register
register_out_of_range send_command upper memory input_id value w h = (
  rw (register_recipe_out_of_range upper 7 input_id h),
  rw (register_recipe_out_of_range upper 12 input_id h),
)
