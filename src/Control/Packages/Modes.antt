-- ===== src/Control/Packages/Modes.antt =====
-- The packages of the commands that set a mode or a parameter.
use ur_rtde_fork_custom.Base.{
  ℕ, suc, ◌≡◌, refl, Bool, List, [], ◌∷◌, ◌++◌, some, if◌then◌else◌, arith, replicate, All, length,
  is_empty, not,
}
use ur_rtde_fork_custom.Base.Outcome.{ok}
use ur_rtde_fork_custom.Utility.RoundTrip.{IsWord32, IsWord64, pack_vector_n_int32-cons}
use ur_rtde_fork_custom.Rtde.Command.{RobotCommand}
use ur_rtde_fork_custom.Rtde.Send.{send_payload}
use ur_rtde_fork_custom.Rtde.Layout.{Controller, received}
use ur_rtde_fork_custom.Rtde.Layout.Decode.{append_if-vals}
use ur_rtde_fork_custom.Control.Recipes.{setup_recipes}
use ur_rtde_fork_custom.Control.Port.{recording_port}
use ur_rtde_fork_custom.Control.Settings.{
  force_mode, freedrive_mode, set_payload, set_target_payload, set_gravity, ft_rtde_input_enable,
  enable_external_ft_sensor, force_mode_stop, zero_ft_sensor, teach_mode, end_teach_mode,
  trigger_protective_stop, end_freedrive_mode, stop_script, kick_watchdog,
}
use ur_rtde_fork_custom.Control.Packages.{
  IsVector, IsVector-append, decode_vals, decode_ints_vals, decode_flag_vals,
}

ap_suc : {m n : ℕ} → m ≡ n → suc m ≡ suc n
ap_suc e = omega arith

zeros_3 : All IsWord64 (replicate 3 0)
zeros_3 = omega arith

-- An argument of three numbers is not replaced by the default.
filled : (vs : List ℕ) → IsVector 3 vs → (if not (is_empty vs) then vs else 0 ∷ 0 ∷ 0 ∷ []) ≡ vs
filled [] v = absurd (omega (arith, v.0))
filled (x ∷ vs) v = refl

module _ (c : Controller) (offset : ℕ) (no_ext_ft : Bool) (memory : RobotCommand)
    (ints doubles : ℕ → ℕ) where
  -- The commands with no argument send their number alone, and `kickWatchdog` sends the number of
  -- NO_CMD.
  bare_packages :
      (received c
          (setup_recipes offset no_ext_ft)
          (force_mode_stop (recording_port ints doubles) memory)
        ≡ ok (some (7 ∷ []) ∷ []))
      × (received c
            (setup_recipes offset no_ext_ft)
            (zero_ft_sensor (recording_port ints doubles) memory)
          ≡ ok (some (8 ∷ []) ∷ []))
      × (received c
            (setup_recipes offset no_ext_ft)
            (teach_mode (recording_port ints doubles) memory)
          ≡ ok (some (18 ∷ []) ∷ []))
      × (received c
            (setup_recipes offset no_ext_ft)
            (end_teach_mode (recording_port ints doubles) memory)
          ≡ ok (some (19 ∷ []) ∷ []))
      × (received c
            (setup_recipes offset no_ext_ft)
            (trigger_protective_stop (recording_port ints doubles) memory)
          ≡ ok (some (31 ∷ []) ∷ []))
      × (received c
            (setup_recipes offset no_ext_ft)
            (end_freedrive_mode (recording_port ints doubles) memory)
          ≡ ok (some (53 ∷ []) ∷ []))
      × (received c
            (setup_recipes offset no_ext_ft)
            (stop_script (recording_port ints doubles) memory)
          ≡ ok (some (255 ∷ []) ∷ []))
      × (received c
            (setup_recipes offset no_ext_ft)
            (kick_watchdog (recording_port ints doubles) memory)
          ≡ ok (some (0 ∷ []) ∷ []))
  unfolding force_mode_stop zero_ft_sensor teach_mode end_teach_mode trigger_protective_stop
      end_freedrive_mode stop_script kick_watchdog send_payload setup_recipes
  bare_packages = (
    simp (append_if-vals, c.int_register, decode_vals 7 0 [] (omega arith) (refl, tt)),
    simp (append_if-vals, c.int_register, decode_vals 8 0 [] (omega arith) (refl, tt)),
    simp (append_if-vals, c.int_register, decode_vals 18 0 [] (omega arith) (refl, tt)),
    simp (append_if-vals, c.int_register, decode_vals 19 0 [] (omega arith) (refl, tt)),
    simp (append_if-vals, c.int_register, decode_vals 31 0 [] (omega arith) (refl, tt)),
    simp (append_if-vals, c.int_register, decode_vals 53 0 [] (omega arith) (refl, tt)),
    simp (append_if-vals, c.int_register, decode_vals 255 0 [] (omega arith) (refl, tt)),
    simp (append_if-vals, c.int_register, decode_vals 0 0 [] (omega arith) (refl, tt)),
  )

  -- With six selections and a type that are 32-bit words, and a task frame, a wrench and limits
  -- of six 64-bit patterns each, `forceMode` sends the type and the selections as integers, then
  -- the other three.
  force_mode_package :
      (task_frame selection_vector wrench : List ℕ) (type : ℕ) (limits : List ℕ)
      → IsVector 6 task_frame
      → length selection_vector ≡ 6
      → All IsWord32 selection_vector
      → IsVector 6 wrench
      → IsWord32 type
      → IsVector 6 limits
      → (received c (setup_recipes offset no_ext_ft) (
            force_mode
              (recording_port ints doubles)
              memory
              task_frame
              selection_vector
              wrench
              type
              limits)
          ≡ ok (some (6 ∷ type ∷ (selection_vector ++ ((task_frame ++ wrench) ++ limits))) ∷ []))
  unfolding force_mode send_payload setup_recipes
  force_mode_package task_frame selection_vector wrench type limits vf hl hs vw ht vl = simp (
    append_if-vals,
    c.int_register,
    c.double_register,
    ← pack_vector_n_int32-cons type selection_vector,
    decode_ints_vals 6 7 18 (type ∷ selection_vector) ((task_frame ++ wrench) ++ limits)
        (omega arith) (omega arith) (ht, hs)
        (IsVector-append 12 6 (task_frame ++ wrench) limits
          (IsVector-append 6 6 task_frame wrench vf vw) vl),
  )

  -- With six axes that are 32-bit words and a feature of six 64-bit patterns, `freedriveMode`
  -- sends the axes as integers, then the feature.
  freedrive_mode_package :
      (axes feature : List ℕ)
      → length axes ≡ 6
      → All IsWord32 axes
      → IsVector 6 feature
      → (received c
            (setup_recipes offset no_ext_ft)
            (freedrive_mode (recording_port ints doubles) memory axes feature)
          ≡ ok (some (52 ∷ (axes ++ feature)) ∷ []))
  unfolding freedrive_mode send_payload setup_recipes
  freedrive_mode_package axes feature hl ha vf = simp (
    append_if-vals,
    c.int_register,
    c.double_register,
    decode_ints_vals 52 6 6 axes feature (omega arith) hl ha vf,
  )

  -- For a mass, a centre of gravity of three numbers and an inertia of six, all 64-bit patterns,
  -- `setPayload` sends the mass and the centre, and `setTargetPayload` the inertia behind them;
  -- with an empty centre they send three zeros in its place.
  payload_packages :
      (mass : ℕ) (cog inertia : List ℕ)
      → IsWord64 mass
      → IsVector 3 cog
      → IsVector 6 inertia
      → (received c
            (setup_recipes offset no_ext_ft)
            (set_payload (recording_port ints doubles) memory mass cog)
          ≡ ok (some (17 ∷ mass ∷ cog) ∷ []))
        × (received c
              (setup_recipes offset no_ext_ft)
              (set_payload (recording_port ints doubles) memory mass [])
            ≡ ok (some (17 ∷ mass ∷ replicate 3 0) ∷ []))
        × (received c
              (setup_recipes offset no_ext_ft)
              (set_target_payload (recording_port ints doubles) memory mass cog inertia)
            ≡ ok (some (65 ∷ mass ∷ (cog ++ inertia)) ∷ []))
        × (received c
              (setup_recipes offset no_ext_ft)
              (set_target_payload (recording_port ints doubles) memory mass [] inertia)
            ≡ ok (some (65 ∷ mass ∷ (replicate 3 0 ++ inertia)) ∷ []))
  unfolding set_payload set_target_payload send_payload setup_recipes
  payload_packages mass cog inertia hm vc vi = (
    simp (
      append_if-vals,
      c.int_register,
      c.double_register,
      filled cog vc,
      decode_vals 17 4 (mass ∷ cog) (omega arith) (ap_suc vc.0, (hm, vc.1)),
    ),
    simp (
      append_if-vals,
      c.int_register,
      c.double_register,
      decode_vals 17 4 (mass ∷ replicate 3 0) (omega arith) (refl, (hm, zeros_3)),
    ),
    simp (
      append_if-vals,
      c.int_register,
      c.double_register,
      filled cog vc,
      decode_vals 65 10 ((mass ∷ cog) ++ inertia) (omega arith)
          (IsVector-append 4 6 (mass ∷ cog) inertia (ap_suc vc.0, (hm, vc.1)) vi),
    ),
    simp (
      append_if-vals,
      c.int_register,
      c.double_register,
      decode_vals 65 10 ((mass ∷ replicate 3 0) ++ inertia) (omega arith)
          (IsVector-append 4 6 (mass ∷ replicate 3 0) inertia (refl, (hm, zeros_3)) vi),
    ),
  )

  -- `setGravity` sends the direction and a zero, since it shares the recipe of `setPayload`.
  set_gravity_package :
      (direction : List ℕ)
      → IsVector 3 direction
      → (received c
            (setup_recipes offset no_ext_ft)
            (set_gravity (recording_port ints doubles) memory direction)
          ≡ ok (some (59 ∷ (direction ++ 0 ∷ [])) ∷ []))
  unfolding set_gravity send_payload setup_recipes
  set_gravity_package direction vd = simp (
    append_if-vals,
    c.int_register,
    c.double_register,
    decode_vals 59 4 (direction ++ 0 ∷ []) (omega arith)
        (IsVector-append 3 1 direction (0 ∷ []) vd (refl, (omega arith, tt))),
  )

  -- With a measuring offset and a centre of gravity of three numbers, which are 64-bit patterns
  -- as the mass is, `ftRtdeInputEnable` and `enableExternalFtSensor` send the switch, the mass,
  -- the offset and the centre.
  ft_sensor_packages :
      (enable : Bool) (sensor_mass : ℕ) (offset_vector sensor_cog : List ℕ)
      → IsWord64 sensor_mass
      → IsVector 3 offset_vector
      → IsVector 3 sensor_cog
      → (received c (setup_recipes offset no_ext_ft) (
            ft_rtde_input_enable
              (recording_port ints doubles)
              memory
              enable
              sensor_mass
              offset_vector
              sensor_cog)
          ≡ ok (
              some (56 ∷ (if enable then 1 else 0) ∷ ((sensor_mass ∷ offset_vector) ++ sensor_cog))
              ∷ []))
        × (received c (setup_recipes offset no_ext_ft) (
              enable_external_ft_sensor
                (recording_port ints doubles)
                memory
                enable
                sensor_mass
                offset_vector
                sensor_cog)
            ≡ ok (
                some
                  (57 ∷ (if enable then 1 else 0) ∷ ((sensor_mass ∷ offset_vector) ++ sensor_cog))
                ∷ []))
  unfolding ft_rtde_input_enable enable_external_ft_sensor send_payload setup_recipes
  ft_sensor_packages enable sensor_mass offset_vector sensor_cog hm vo vg = (
    simp (
      append_if-vals,
      c.int_register,
      c.double_register,
      decode_flag_vals 56 7 (if enable then 1 else 0) ((sensor_mass ∷ offset_vector) ++ sensor_cog)
          (omega arith) (ground arith)
          (IsVector-append 4 3 (sensor_mass ∷ offset_vector) sensor_cog (ap_suc vo.0, (hm, vo.1))
            vg),
    ),
    simp (
      append_if-vals,
      c.int_register,
      c.double_register,
      decode_flag_vals 57 7 (if enable then 1 else 0) ((sensor_mass ∷ offset_vector) ++ sensor_cog)
          (omega arith) (ground arith)
          (IsVector-append 4 3 (sensor_mass ∷ offset_vector) sensor_cog (ap_suc vo.0, (hm, vo.1))
            vg),
    ),
  )
