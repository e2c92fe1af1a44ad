-- ===== src/Examples/Wire.antt =====
-- Theorems at concrete arguments: Utility.RoundTrip, Utility.Text.Split, Utility.Text.Hex, Control.Limits.
use ur_rtde_fork_custom.Base.{ℕ, ◌≡◌, List, [], ◌∷◌, arith, All, ◌≢◌, codes}
use ur_rtde_fork_custom.Utility.{pack_double}
use ur_rtde_fork_custom.Utility.Text.{double2hexstr, hex_to_bytes}
use ur_rtde_fork_custom.Utility.Text.Hex.{hex_to_bytes-double2hexstr}
use ur_rtde_fork_custom.Examples.Values.{one}

abbrev two_names : List (List ℕ)
two_names = codes "timestamp" ∷ codes "actual_q" ∷ []

two_names-plain : All (All (λ c. c ≢ 44)) two_names
two_names-plain = omega arith

hex_to_bytes-double2hexstr_example : hex_to_bytes (double2hexstr one) ≡ pack_double one
hex_to_bytes-double2hexstr_example = hex_to_bytes-double2hexstr one (omega arith) (omega arith)
