-- ===== src/Examples/Gripper.antt =====
-- The theorems on the gripper, with a gripper whose answers are given in advance.
use ur_rtde_fork_custom.Base.{
  ℕ, ◌+◌, ◌*◌, ◌/◌, ◌≡◌, refl, inl, inr, arith, true, List, [], ◌∷◌, none, codes,
}
use ur_rtde_fork_custom.Base.Int.{ℤ, pos, negsuc, le_int, lt_int}
use ur_rtde_fork_custom.Base.Outcome.{ok}
use ur_rtde_fork_custom.Gripper.{Wire, Gripper, start_move}
use ur_rtde_fork_custom.Gripper.Units.{FloatOps, unit_device, unit_normalized, difference}
use ur_rtde_fork_custom.Gripper.Commands.{
  device_value, move, set_speed, set_force, open_gripper, close_gripper,
}
use ur_rtde_fork_custom.Gripper.Activation.{auto_calibrate}
use ur_rtde_fork_custom.Gripper.Noted.{Noted, noted, Commands}
use ur_rtde_fork_custom.Gripper.Bounds.{Limited, Sends, move-Sends, target_text}
use ur_rtde_fork_custom.Gripper.Endpoints.{
  IsEnd, IsExact, limited_speed, limited_force, open_gripper-Commands,
}
use ur_rtde_fork_custom.Gripper.Calibration.{auto_calibrate-KeepsRange}

abbrev next_answer : List (List ℕ) → List ℕ × List (List ℕ)
next_answer [] = ([], [])
next_answer (line ∷ lines) = (line, lines)

abbrev scripted_gripper : Wire (List (List ℕ))
scripted_gripper = record {
  connect_to = λ lines. (ok true, lines);
  write = λ str lines. (ok tt, lines);
  read_some = λ lines. (ok (next_answer lines).0, (next_answer lines).1);
}

abbrev gripper_with : List (List ℕ) → Gripper (List (List ℕ))
gripper_with lines = record {
  is_connected = true;
  has_socket = true;
  min_position = pos 0;
  max_position = pos 255;
  speed = pos 255;
  force = pos 0;
  units = λ p. unit_normalized;
  range_mm = pos 40;
  world = lines;
}

abbrev whole_times : ℤ → ℤ → ℤ
whole_times (pos m) (pos n) = pos (m * n)
whole_times (negsuc m) (negsuc n) = pos ((m + 1) * (n + 1))
whole_times (pos m) (negsuc n) = difference (pos 0) (pos (m * (n + 1)))
whole_times (negsuc m) (pos n) = difference (pos 0) (pos ((m + 1) * n))

abbrev whole_quotient : ℤ → ℤ → ℤ
whole_quotient (pos m) (pos n) = pos (m / n)
whole_quotient a b = a

-- Whole numbers in the place of `float`.
abbrev whole_floats : FloatOps ℤ
whole_floats = record {
  of_int = λ n. n;
  multiply = whole_times;
  divide = whole_quotient;
  minus = difference;
  factor_of = λ n. whole_quotient (pos 255) n;
  round_int = λ v. ok v;
  truncate = λ v. ok v;
  is_negative = λ v. lt_int v (pos 0);
}

abbrev noting : Gripper (Noted (List (List ℕ)))
noting = record {
  is_connected = true;
  has_socket = true;
  min_position = pos 0;
  max_position = pos 255;
  speed = pos 255;
  force = pos 0;
  units = λ p. unit_device;
  range_mm = pos 40;
  world = record { lines = []; inner = codes "ack" ∷ codes "PRE 255" ∷ codes "OBJ 3" ∷ [] };
}

move-Sends_example :
    Sends scripted_gripper whole_floats
      (negsuc 0)
      (pos 20)
      (pos 300)
      (negsuc 0)
      (pos 20)
      noting
      (move
        (noted scripted_gripper)
        whole_floats
        3
        (pos 300)
        (negsuc 0)
        (pos 20)
        start_move
        noting).1
    × Limited 1 255
        (negsuc 0)
        (set_speed (noted scripted_gripper) whole_floats (negsuc 0) noting).1.speed
    × Limited 0 255
        (pos 20)
        (set_force (noted scripted_gripper) whole_floats (pos 20) noting).1.force
unfolding device_value
move-Sends_example =
    move-Sends scripted_gripper whole_floats 3 (pos 300) (negsuc 0) (pos 20) start_move noting
      (pos 300) (negsuc 0) (pos 20) refl refl refl refl

abbrev normalized : Gripper (Noted (List (List ℕ)))
normalized = record noting { units = λ p. unit_normalized }

whole_floats-IsExact : IsExact whole_floats 255 (pos 255)
whole_floats-IsExact = record {
  whole = λ a e. refl;
  minus_whole = λ a e. refl;
  cancels = λ a e. ends a e;
}
  where
    ends :
        (a : ℕ)
        → IsEnd a
        → ok (whole_times (whole_quotient (difference (pos 255) (pos a)) (pos 255)) (pos 255))
          ≡ ok (difference (pos 255) (pos a))
    ends a (inl e) = rw e refl
    ends a (inr e) = rw e refl

open_gripper-Commands_example :
    Commands
      (target_text
        (pos 0)
        (limited_speed scripted_gripper whole_floats normalized (pos 1) (pos 255))
        (limited_force scripted_gripper whole_floats normalized (pos 0) (pos 0)))
      normalized
      (open_gripper (noted scripted_gripper) whole_floats 3 (pos 1) (pos 0) start_move normalized).1
    × Commands
        (target_text
          (pos 255)
          (limited_speed scripted_gripper whole_floats normalized (pos 1) (pos 255))
          (limited_force scripted_gripper whole_floats normalized (pos 0) (pos 0)))
        normalized
        (close_gripper
          (noted scripted_gripper)
          whole_floats
          3
          (pos 1)
          (pos 0)
          start_move
          normalized).1
unfolding device_value
open_gripper-Commands_example =
    open_gripper-Commands scripted_gripper whole_floats normalized 3 (pos 1) (pos 0) start_move 255
      (pos 255) (pos 0) refl refl (omega arith) whole_floats-IsExact refl refl

auto_calibrate-KeepsRange_example :
    le_int
      (auto_calibrate scripted_gripper 2 none
        (gripper_with (codes "ack" ∷ codes "PRE 0" ∷ codes "OBJ 3" ∷ []))).1.max_position
      (pos 255)
    ≡ true
auto_calibrate-KeepsRange_example =
    auto_calibrate-KeepsRange scripted_gripper 2 none
      (gripper_with (codes "ack" ∷ codes "PRE 0" ∷ codes "OBJ 3" ∷ [])) refl
