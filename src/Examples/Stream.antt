-- ===== src/Examples/Stream.antt =====
-- Theorems at concrete arguments: Rtde.Stream.Frames, Rtde.Stream.Termination, Rtde.Stream.Package, Rtde.RobotState.
use ur_rtde_fork_custom.Base.{
  ℕ, suc, ◌+◌, ◌≡◌, ◌≢◌, refl, true, false, List, [], ◌∷◌, ◌++◌, some, arith, length, take, codes,
  All, ◌≤◌,
}
use ur_rtde_fork_custom.Base.Outcome.{ok, fault, Outcome}
use ur_rtde_fork_custom.Utility.{pack_double, pack_vector_nd, get_uchar, get_double}
use ur_rtde_fork_custom.Rtde.Command.{rtde_code, rtde_data_package}
use ur_rtde_fork_custom.Rtde.Send.{frame}
use ur_rtde_fork_custom.Rtde.RobotState.{RobotState, set_state_data, get_state_data}
use ur_rtde_fork_custom.Rtde.Stream.{apply_package, process, receive_data, is_vector3}
use ur_rtde_fork_custom.Rtde.Stream.Frames.{
  process-partial, process-last, process-skip, process_cut,
}
use ur_rtde_fork_custom.Rtde.Stream.Termination.{receive_data_total}
use ur_rtde_fork_custom.Rtde.StateTypes.{Variant, double, vector_double, find, state_types, Table}
use ur_rtde_fork_custom.Rtde.Stream.Package.{
  receive_data-encode_all, AllFit, IsSetUp, Receives, encode_all,
}
use ur_rtde_fork_custom.Rtde.Stream.Encode.{number, vector6}
use ur_rtde_fork_custom.Examples.Values.{one, one-IsWord64, home, home-IsVector}

abbrev timestamp : List ℕ
timestamp = codes "timestamp"

abbrev names : List (List ℕ)
names = timestamp ∷ []

abbrev started_table : Table
started_table = (timestamp, double 0) ∷ []

abbrev started : RobotState
started = record { state_data = started_table; first_state_received = false }

abbrev updated : RobotState
updated = record { state_data = (timestamp, double one) ∷ []; first_state_received = true }

-- The recipe byte and 1.0.
abbrev first_package : List ℕ
first_package = 1 ∷ 63 ∷ 240 ∷ 0 ∷ 0 ∷ 0 ∷ 0 ∷ 0 ∷ 0 ∷ []

package_applied : apply_package names first_package started ≡ ok updated
unfolding apply_package find state_types get_uchar get_double set_state_data
package_applied = refl

abbrev two_values : List (List ℕ × Variant)
two_values = (timestamp, double one) ∷ (codes "actual_q", vector_double home) ∷ []

abbrev set_up : RobotState
set_up = record {
  state_data = (timestamp, double 0) ∷ (codes "actual_q", vector_double []) ∷ [];
  first_state_received = false;
}

two_values-fit : AllFit two_values
unfolding find state_types is_vector3
two_values-fit = (
  (double 0, refl, number one-IsWord64),
  ((vector_double [], refl, vector6 refl refl home-IsVector.1), tt),
)

two_values_short : length (encode_all two_values) + 4 ≤ 4096
unfolding pack_double pack_vector_nd
two_values_short = omega arith

text_is_no_data : 77 ≢ rtde_code rtde_data_package
unfolding rtde_code
text_is_no_data = omega arith

zero_is_no_data : 8 ≢ rtde_code rtde_data_package
unfolding rtde_code
zero_is_no_data = omega arith

process-partial_example :
    process (suc 5) names (take 6 (frame 85 first_package)) started
    ≡ some (ok (take 6 (frame 85 first_package), started))
process-partial_example =
    process-partial names 5 started 85 first_package 6 (omega arith) (omega arith)

process-last_example :
    process
      (suc (suc 5))
      names
      (frame (rtde_code rtde_data_package) first_package ++ (0 ∷ []))
      started
    ≡ some (ok ((0 ∷ []), updated))
process-last_example =
    process-last names 5 started first_package (0 ∷ []) updated (omega arith) (omega arith)
      package_applied

process-skip_example :
    process
      (suc 5)
      names
      (frame (rtde_code rtde_data_package) first_package
        ++ (0 ∷ 12 ∷ 85 ∷ 1 ∷ 64 ∷ rtde_code rtde_data_package ∷ (1 ∷ 1 ∷ [])))
      started
    ≡ process 5 names (0 ∷ 12 ∷ 85 ∷ 1 ∷ 64 ∷ rtde_code rtde_data_package ∷ (1 ∷ 1 ∷ [])) started
process-skip_example =
    process-skip names 5 started first_package (1 ∷ 1 ∷ []) 0 12 85 1 64 (omega arith)

process_cut_example :
    process
      (suc 5)
      names
      (frame (rtde_code rtde_data_package) first_package ++ (0 ∷ 12 ∷ 85 ∷ 1 ∷ []))
      started
    ≡ some fault
process_cut_example =
    process_cut names 5 started first_package (0 ∷ 12 ∷ 85 ∷ 1 ∷ []) (omega arith) (omega arith)
      (omega arith)

receive_data_total_example :
    (o : Outcome (List ℕ × RobotState)) × (receive_data names (ok first_package) (0 ∷ []) started
      ≡ some o)
receive_data_total_example = receive_data_total names (ok first_package) (0 ∷ []) started

two_values-set_up : All (λ p. IsSetUp set_up p.0) two_values
unfolding get_state_data find
two_values-set_up = (λ e. cc, (λ e. cc, tt))

receive_data-encode_all_example : Receives two_values 1 set_up
receive_data-encode_all_example =
    receive_data-encode_all two_values 1 set_up two_values-fit two_values-set_up two_values_short
