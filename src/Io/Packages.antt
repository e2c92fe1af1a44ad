-- ===== src/Io/Packages.antt =====
-- What the controller receives from the operations of src/rtde_io_interface.cpp, read by the input
-- recipes that `setupRecipes` registers.
use native.Mathlib.Nat.{pow-le-pow_right}
use ur_rtde_fork_custom.Base.{
  ℕ, ◌^◌, ◌≤◌, ◌<◌, ◌≡◌, Bool, [], ◌∷◌, some, arith, ◌==◌, if◌then◌else◌,
}
use ur_rtde_fork_custom.Base.Outcome.{ok}
use ur_rtde_fork_custom.Utility.RoundTrip.{IsWord64}
use ur_rtde_fork_custom.Rtde.Command.{RobotCommand}
use ur_rtde_fork_custom.Rtde.Send.{send_payload}
use ur_rtde_fork_custom.Rtde.Layout.{Controller, received, recorder}
use ur_rtde_fork_custom.Rtde.Layout.Decode.{
  decode-pack_int32, decode-pack_uint32, decode-pack_double, decode-uint8, decode_nil,
  decode_last-pack_double,
}
use ur_rtde_fork_custom.Io.{
  register_offset, setup_recipes, set_standard_digital_out, set_configurable_digital_out,
  set_tool_digital_out, bit_mask, set_speed_slider, set_analog_output_voltage,
  set_analog_output_current,
}

two_pow_small : (k : ℕ) → k < 8 → 2 ^ k ≤ 128
two_pow_small k h = pow-le-pow_right {n = 2} (omega arith) {i = k} {j = 7} (omega arith)

bit_mask_small : (output_id : ℕ) → output_id < 8 → bit_mask output_id ≡ ok (2 ^ output_id)
unfolding bit_mask
bit_mask_small output_id h = ground (arith, two_pow_small output_id h)

module _ (c : Controller) (upper : Bool) (memory : RobotCommand) where
  -- `setStandardDigitalOut`, `setConfigurableDigitalOut` and `setToolDigitalOut` on a pin below 8
  -- send their command number, the mask of that pin alone, and that mask or 0 as the signal level.
  pub digital_out_packages :
      (output_id : ℕ) (signal_level : Bool)
      → output_id < 8
      → let level = if signal_level then 2 ^ output_id else 0 in
        let recipes = setup_recipes (register_offset upper) in
        (received c recipes (set_standard_digital_out recorder upper memory output_id signal_level)
          ≡ ok (some (13 ∷ 2 ^ output_id ∷ level ∷ []) ∷ []))
        × (received c recipes
              (set_configurable_digital_out recorder upper memory output_id signal_level)
            ≡ ok (some (48 ∷ 2 ^ output_id ∷ level ∷ []) ∷ []))
        × (received c recipes (set_tool_digital_out recorder upper memory output_id signal_level)
            ≡ ok (some (14 ∷ 2 ^ output_id ∷ level ∷ []) ∷ []))
  unfolding set_standard_digital_out set_configurable_digital_out set_tool_digital_out send_payload
      setup_recipes
  digital_out_packages output_id signal_level h = (
    rw (bit_mask_small output_id h) (
        simp (
          c.int_register,
          c.standard_mask,
          c.standard_out,
          decode-pack_int32 _ _ 13 (omega arith),
          decode-uint8,
          decode_nil,
        )),
    rw (bit_mask_small output_id h) (
        simp (
          c.int_register,
          c.configurable_mask,
          c.configurable_out,
          decode-pack_int32 _ _ 48 (omega arith),
          decode-uint8,
          decode_nil,
        )),
    rw (bit_mask_small output_id h) (
        simp (
          c.int_register,
          c.tool_mask,
          c.tool_out,
          decode-pack_int32 _ _ 14 (omega arith),
          decode-uint8,
          decode_nil,
        )),
  )

  -- `setSpeedSlider` sends its command number, the mask 1 and the fraction, a 64-bit pattern.
  set_speed_slider_package :
      (speed : ℕ)
      → IsWord64 speed
      → received c
          (setup_recipes (register_offset upper))
          (set_speed_slider recorder upper memory speed)
        ≡ ok (some (22 ∷ 1 ∷ speed ∷ []) ∷ [])
  unfolding set_speed_slider send_payload setup_recipes
  set_speed_slider_package speed h = simp (
    c.int_register,
    c.slider_mask,
    c.slider_fraction,
    decode-pack_int32 _ _ 22 (omega arith),
    decode-pack_uint32 _ _ 1 (omega arith),
    decode_last-pack_double speed h,
  )

  -- For an output below 8 and 64-bit patterns, `setAnalogOutputVoltage` and
  -- `setAnalogOutputCurrent` send the mask of the output, the type (1 and
  -- 0) and the ratio at the place of the output; the other output's value is what the command object
  -- held in memory.
  analog_output_packages :
      (output_id ratio : ℕ)
      → output_id < 8
      → IsWord64 ratio
      → IsWord64 memory.std_analog_output_0
      → IsWord64 memory.std_analog_output_1
      → let out_0 = if output_id == 0 then ratio else memory.std_analog_output_0 in
        let out_1 = if output_id == 1 then ratio else memory.std_analog_output_1 in
        let recipes = setup_recipes (register_offset upper) in
        (received c recipes (set_analog_output_voltage recorder upper memory output_id ratio)
          ≡ ok (some (23 ∷ 2 ^ output_id ∷ 1 ∷ out_0 ∷ out_1 ∷ []) ∷ []))
        × (received c recipes (set_analog_output_current recorder upper memory output_id ratio)
            ≡ ok (some (23 ∷ 2 ^ output_id ∷ 0 ∷ out_0 ∷ out_1 ∷ []) ∷ []))
  unfolding set_analog_output_voltage set_analog_output_current send_payload setup_recipes
  analog_output_packages output_id ratio h hr h0 h1 =
      let out_0 = if output_id == 0 then ratio else memory.std_analog_output_0 in
      let out_1 = if output_id == 1 then ratio else memory.std_analog_output_1 in
      let w0 : IsWord64 out_0 = ground arith in
      let w1 : IsWord64 out_1 = ground arith in
      (
        rw (bit_mask_small output_id h) (
            simp (
              c.int_register,
              c.analog_mask,
              c.analog_type,
              c.analog_0,
              c.analog_1,
              decode-pack_int32 _ _ 23 (omega arith),
              decode-uint8,
              decode-pack_double _ _ out_0 w0,
              decode_last-pack_double out_1 w1,
            )),
        rw (bit_mask_small output_id h) (
            simp (
              c.int_register,
              c.analog_mask,
              c.analog_type,
              c.analog_0,
              c.analog_1,
              decode-pack_int32 _ _ 23 (omega arith),
              decode-uint8,
              decode-pack_double _ _ out_0 w0,
              decode_last-pack_double out_1 w1,
            )),
      )
