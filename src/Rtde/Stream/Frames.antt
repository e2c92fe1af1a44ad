-- ===== src/Rtde/Stream/Frames.antt =====
-- What `receiveData` makes of the packages in its buffer.
use ur_rtde_fork_custom.Base.{
  ℕ, zero, suc, ◌+◌, ◌^◌, ◌≤◌, ◌<◌, ◌≡◌, ◌≢◌, refl, true, false, List, [], ◌∷◌, ◌++◌, some, arith,
  length, take, ap, ◌∙◌, leb, ltb, ==_refl,
}
use ur_rtde_fork_custom.Base.Outcome.{ok, fault}
use ur_rtde_fork_custom.Utility.{read_rtde_header, get_uint16}
use ur_rtde_fork_custom.Rtde.Command.{rtde_code, rtde_data_package}
use ur_rtde_fork_custom.Rtde.Send.{header_size, frame}
use ur_rtde_fork_custom.Rtde.RobotState.{RobotState}
use ur_rtde_fork_custom.Rtde.Stream.{apply_package, round, process}
use ur_rtde_fork_custom.Rtde.Stream.Rounds.{
  header_of, length-frame, no_wrap, round-frame, not-data, skip-other, skip_short, skip_cut,
  skip_behind, process-round, process_fault, process_short,
}

length-take : (n : ℕ) (xs : List ℕ) → n < length xs → length (take n xs) ≡ n
length-take zero xs h = refl
length-take (suc n) [] h = absurd (omega arith)
length-take (suc n) (x ∷ xs) h = omega (arith, length-take n xs (omega arith))

read_rtde_header-partial :
    (command : ℕ) (payload : List ℕ) (k : ℕ)
    → header_size + length payload < 2 ^ 16
    → read_rtde_header (take (suc (suc (suc k))) (frame command payload)) 0
      ≡ ok (header_of command payload, header_size)
unfolding read_rtde_header get_uint16 frame
read_rtde_header-partial command payload k h =
    ap (λ n. ok (record { msg_size = n; msg_cmd = command }, 3)) (omega arith)

round_partial :
    (names : List (List ℕ)) (s : RobotState) (command : ℕ) (payload : List ℕ) (k : ℕ)
    → header_size + length payload < 2 ^ 16
    → k < length payload
    → round names (take (suc (suc (suc k))) (frame command payload)) s
      ≡ ok (record {
        more = false;
        buffer = take (suc (suc (suc k))) (frame command payload);
        state = s;
      })
unfolding round
round_partial names s command payload k h part =
    rw (has, read_rtde_header-partial command payload k h, lacks) refl
  where
    size : length (take (suc (suc (suc k))) (frame command payload)) ≡ 3 + k
    size = omega (
      arith,
      length-take (suc (suc (suc k))) (frame command payload)
          (omega (arith, length-frame command payload [])),
    )

    has : ltb (length (take (suc (suc (suc k))) (frame command payload))) header_size ≡ false
    has = rw size (no_wrap k)

    lacks :
        leb
          (header_size + length payload)
          (length (take (suc (suc (suc k))) (frame command payload)))
        ≡ false
    lacks = rw size (ground arith)

module _ (names : List (List ℕ)) (fuel : ℕ) (s : RobotState) where
  -- A package of less than 2^16 bytes that is not complete stays in the buffer, whatever part of it has
  -- arrived, and the robot state does not change.
  pub process-partial :
      (command : ℕ) (payload : List ℕ) (k : ℕ)
      → header_size + length payload < 2 ^ 16
      → k < header_size + length payload
      → process (suc fuel) names (take k (frame command payload)) s
        ≡ some (ok (take k (frame command payload), s))
  process-partial command payload zero h part = process_short names fuel _ s (omega arith)
  process-partial command payload (suc zero) h part =
      process_short names fuel _ s (unfold frame in omega arith)
  process-partial command payload (suc (suc zero)) h part =
      process_short names fuel _ s (unfold frame in omega arith)
  process-partial command payload (suc (suc (suc k))) h part =
      process-round names fuel _ s
        (record {
          more = false;
          buffer = take (suc (suc (suc k))) (frame command payload);
          state = s;
        })
        (round_partial names s command payload k h (omega arith))

  -- A complete package that is no data package is taken from the buffer and changes nothing else.
  process-other :
      (command : ℕ) (payload rest : List ℕ)
      → header_size + length payload < 2 ^ 16
      → command ≢ rtde_code rtde_data_package
      → process (suc fuel) names (frame command payload ++ rest) s ≡ process fuel names rest s
  process-other command payload rest h other =
      process-round names fuel _ s (record { more = true; buffer = rest; state = s })
        (round-frame names command payload rest s h
          ∙ rw (skip-other payload command rest (not-data command other), not-data command other)
              refl)

  -- A data package with less than a header behind it updates the robot state, if its variables can be
  -- read; the rest stays in the buffer.
  pub process-last :
      (payload rest : List ℕ) (s' : RobotState)
      → header_size + length payload < 2 ^ 16
      → length rest < header_size
      → apply_package names payload s ≡ ok s'
      → process (suc (suc fuel)) names (frame (rtde_code rtde_data_package) payload ++ rest) s
        ≡ some (ok (rest, s'))
  process-last payload rest s' h short e =
      process-round names (suc fuel) _ s (record { more = true; buffer = rest; state = s' })
        (round-frame names (rtde_code rtde_data_package) payload rest s h
          ∙ rw (skip_short payload rest short, ==_refl (rtde_code rtde_data_package), e) refl)
      ∙ process_short names fuel rest s' short

  -- Behind a data package, the loop looks at the sixth byte of the rest of the buffer: where it is the code of a data
  -- package, the package in front is dropped without an update.
  pub process-skip :
      (payload rest : List ℕ) (a b c d e : ℕ)
      → header_size + length payload < 2 ^ 16
      → process
          (suc fuel)
          names
          (frame (rtde_code rtde_data_package) payload
            ++ (a ∷ b ∷ c ∷ d ∷ e ∷ rtde_code rtde_data_package ∷ rest))
          s
        ≡ process fuel names (a ∷ b ∷ c ∷ d ∷ e ∷ rtde_code rtde_data_package ∷ rest) s
  process-skip payload rest a b c d e h =
      process-round names fuel _ s
        (record {
          more = true;
          buffer = a ∷ b ∷ c ∷ d ∷ e ∷ rtde_code rtde_data_package ∷ rest;
          state = s;
        })
        (round-frame names (rtde_code rtde_data_package) payload _ s h
          ∙ rw
              (
                skip_behind payload a b c d e (rtde_code rtde_data_package) rest,
                ==_refl (rtde_code rtde_data_package),
              )
              refl)

  -- Where the sixth byte behind a data package is another one, the package in front updates the robot
  -- state, if its variables can be read, and the loop goes on with the rest.
  process-keep :
      (payload rest : List ℕ) (a b c d e f : ℕ) (s' : RobotState)
      → header_size + length payload < 2 ^ 16
      → f ≢ rtde_code rtde_data_package
      → apply_package names payload s ≡ ok s'
      → process
          (suc fuel)
          names
          (frame (rtde_code rtde_data_package) payload ++ (a ∷ b ∷ c ∷ d ∷ e ∷ f ∷ rest))
          s
        ≡ process fuel names (a ∷ b ∷ c ∷ d ∷ e ∷ f ∷ rest) s'
  process-keep payload rest a b c d e f s' h other e' =
      process-round names fuel _ s
        (record { more = true; buffer = a ∷ b ∷ c ∷ d ∷ e ∷ f ∷ rest; state = s' })
        (round-frame names (rtde_code rtde_data_package) payload _ s h
          ∙ rw
              (
                skip_behind payload a b c d e f rest,
                not-data f other,
                ==_refl (rtde_code rtde_data_package),
                e',
              )
              refl)

  -- Where three to five bytes are left behind a data package, the look at the next header reads past the buffer's end.
  pub process_cut :
      (payload rest : List ℕ)
      → header_size + length payload < 2 ^ 16
      → 3 ≤ length rest
      → length rest ≤ 5
      → process (suc fuel) names (frame (rtde_code rtde_data_package) payload ++ rest) s
        ≡ some fault
  process_cut payload [] h low high = absurd (omega arith)
  process_cut payload (a ∷ []) h low high = absurd (omega arith)
  process_cut payload (a ∷ b ∷ []) h low high = absurd (omega arith)
  process_cut payload (a ∷ b ∷ c ∷ rest) h low high = process_fault names fuel _ s (
      round-frame names (rtde_code rtde_data_package) payload _ s h
      ∙ rw (skip_cut payload a b c rest (omega arith)) refl)
