-- ===== src/Gripper/Endpoints.antt =====
-- `open` and `close` of src/robotiq_gripper.cpp in every unit of positions.
use ur_rtde_fork_custom.Base.{ℕ, ◌≤◌, ◌≡◌, refl, ap, ◌⊎◌, inl, inr, true, if◌then◌else◌, arith}
use ur_rtde_fork_custom.Base.Int.{ℤ, pos, clamp}
use ur_rtde_fork_custom.Base.Outcome.{Outcome, ok}
use ur_rtde_fork_custom.Gripper.{Wire, Gripper, MoveMode}
use ur_rtde_fork_custom.Gripper.Units.{
  MoveParameter, UnitKind, unit_device, unit_normalized, unit_percent, unit_mm, to_device_unit,
  from_device_unit, FloatOps, difference, subtract_int, factor, convert_value_unit,
}
use ur_rtde_fork_custom.Gripper.Commands.{
  device_value, user_value, move, open_gripper, close_gripper,
}
use ur_rtde_fork_custom.Gripper.Noted.{Noted, noted, Commands}
use ur_rtde_fork_custom.Gripper.Bounds.{target_text, move_impl-Commands}

-- The two ends of the device's range.
abbrev pub IsEnd : ℕ → Type 0
IsEnd a = (a ≡ 0) ⊎ (a ≡ 255)

-- What the conversions of the ends rely on: small whole numbers are exact, and behind a division by the
-- unit's factor and a multiplication with it, rounding gives the number back.
pub record IsExact {F : Type 0} (floats : FloatOps F) (m : ℕ) (k : F) : Type 0 where
  pub whole : (a : ℕ) → IsEnd a → floats.truncate (floats.of_int (pos a)) ≡ ok (pos a)
  pub minus_whole :
      (a : ℕ)
      → IsEnd a
      → floats.minus (floats.of_int (pos m)) (floats.of_int (pos a))
        ≡ floats.of_int (difference (pos m) (pos a))
  pub cancels :
      (a : ℕ)
      → IsEnd a
      → floats.round_int
          (floats.multiply (floats.divide (floats.of_int (difference (pos m) (pos a))) k) k)
        ≡ ok (difference (pos m) (pos a))

subtract_int-difference :
    (m a : ℕ) → m ≤ 255 → IsEnd a → subtract_int (pos m) (difference (pos m) (pos a)) ≡ ok (pos a)
unfolding subtract_int
subtract_int-difference m a h (inl e) = ground (arith, h, e)
subtract_int-difference m a h (inr e) = ground (arith, h, e)

-- An end of the range in the unit `kind`, and back.
abbrev pub ConvertsBack : {F : Type 0} → FloatOps F → ℤ → ℤ → UnitKind → ℕ → Type 0
ConvertsBack {F} floats max range kind a =
    (u : F) × (convert_value_unit floats max range kind MoveParameter.position from_device_unit
        (floats.of_int (pos a))
      ≡ ok u)
    × (convert_value_unit floats max range kind MoveParameter.position to_device_unit u
        ≡ ok (floats.of_int (pos a)))

module _ {F : Type 0} (floats : FloatOps F) (m : ℕ) (bound : m ≤ 255) where
  convert_back :
      (max range : ℤ) (kind : UnitKind) (a : ℕ)
      → max ≡ pos m
      → IsEnd a
      → IsExact floats m (factor floats max range kind)
      → ConvertsBack floats max range kind a
  unfolding convert_value_unit
  convert_back max range unit_device a e end x = (floats.of_int (pos a), refl, refl)
  convert_back max range unit_normalized a e end x = (
    floats.divide (floats.minus (floats.of_int max) (floats.of_int (pos a)))
        (factor floats max range unit_normalized),
    refl,
    rw (e, x.minus_whole a end, x.cancels a end, subtract_int-difference m a bound end) refl,
  )
  convert_back max range unit_percent a e end x = (
    floats.divide (floats.minus (floats.of_int max) (floats.of_int (pos a)))
        (factor floats max range unit_percent),
    refl,
    rw (e, x.minus_whole a end, x.cancels a end, subtract_int-difference m a bound end) refl,
  )
  convert_back max range unit_mm a e end x = (
    floats.divide (floats.minus (floats.of_int max) (floats.of_int (pos a)))
        (factor floats max range unit_mm),
    refl,
    rw (e, x.minus_whole a end, x.cancels a end, subtract_int-difference m a bound end) refl,
  )

module _ {W F : Type 0} (net : Wire W) (floats : FloatOps F) (s : Gripper (Noted W)) where
  abbrev position_factor : F
  position_factor = factor floats s.max_position s.range_mm (s.units MoveParameter.position)

  -- The speed and the force that a move asks for.
  abbrev pub limited_speed : F → ℤ → ℤ
  limited_speed f_speed v =
      clamp (if floats.is_negative f_speed then s.speed else v) (pos 1) (pos 255)

  abbrev pub limited_force : F → ℤ → ℤ
  limited_force f_force f =
      clamp (if floats.is_negative f_force then s.force else f) (pos 0) (pos 255)

  user_back :
      (a : ℕ) (b : ConvertsBack floats s.max_position s.range_mm (s.units MoveParameter.position) a)
      → user_value (noted net) floats MoveParameter.position (pos a) s ≡ (ok b.0, s)
  unfolding user_value
  user_back a b = ap (λ (r : Outcome F). (r, s)) b.1

  device_back :
      (m a : ℕ)
      (b : ConvertsBack floats s.max_position s.range_mm (s.units MoveParameter.position) a)
      → IsEnd a
      → IsExact floats m position_factor
      → device_value (noted net) floats MoveParameter.position b.0 s ≡ (ok (pos a), s)
  unfolding device_value
  device_back m a b end x = rw b.2 (ap (λ (r : Outcome ℤ). (r, s)) (x.whole a end))

  -- With an open socket and a calibrated closed position from 0 to 255, `open` asks for the
  -- device's position 0 and `close` for 255, in every unit of positions, each with one command that
  -- has the limited speed and force, and behind it writes nothing but the questions `GET PRE` and
  -- `GET OBJ`. Conditions: the speed and the force can be converted, and `float` is exact enough: 0
  -- and 255 convert to `int` as they are, the difference from the closed position is exact, and
  -- behind a division by the unit's factor and a multiplication with it, rounding gives the number
  -- back.
  pub open_gripper-Commands :
      (fuel : ℕ) (f_speed f_force : F) (mode : MoveMode) (m : ℕ) (v f : ℤ)
      → s.has_socket ≡ true
      → s.max_position ≡ pos m
      → m ≤ 255
      → IsExact floats m position_factor
      → device_value (noted net) floats MoveParameter.speed f_speed s ≡ (ok v, s)
      → device_value (noted net) floats MoveParameter.force f_force s ≡ (ok f, s)
      → Commands
          (target_text (pos 0) (limited_speed f_speed v) (limited_force f_force f))
          s
          (open_gripper (noted net) floats fuel f_speed f_force mode s).1
        × Commands
            (target_text (pos 255) (limited_speed f_speed v) (limited_force f_force f))
            s
            (close_gripper (noted net) floats fuel f_speed f_force mode s).1
  unfolding open_gripper close_gripper move
  open_gripper-Commands fuel f_speed f_force mode m v f link calibrated bound x hv hf =
      let back : (a : ℕ)
          → IsEnd a
          → ConvertsBack floats s.max_position s.range_mm (s.units MoveParameter.position) a =
        λ a end.
          convert_back floats m bound s.max_position s.range_mm (s.units MoveParameter.position) a
            calibrated end x in
      let opened = back 0 (inl refl) in
      let closed = back 255 (inr refl) in
      (
        rw (user_back 0 opened, device_back m 0 opened (inl refl) x, hv, hf)
            (move_impl-Commands net fuel (pos 0) (limited_speed f_speed v) (limited_force f_force f)
              mode s link),
        rw (user_back 255 closed, device_back m 255 closed (inr refl) x, hv, hf)
            (move_impl-Commands net fuel (pos 255) (limited_speed f_speed v)
              (limited_force f_force f) mode s link),
      )
