-- ===== src/Rtde/Registers.antt =====
-- The names of the general purpose registers, as the interfaces spell them.
use ur_rtde_fork_custom.Base.{ℕ, ◌+◌, List, ◌++◌, codes}
use ur_rtde_fork_custom.Utility.Text.{to_string}

unfoldable pub in_double_reg : ℕ → ℕ → List ℕ
unfolding to_string
in_double_reg register_offset reg =
    codes "input_double_register_" ++ to_string (register_offset + reg)

unfoldable pub in_int_reg : ℕ → ℕ → List ℕ
unfolding to_string
in_int_reg register_offset reg = codes "input_int_register_" ++ to_string (register_offset + reg)

unfoldable pub out_double_reg : ℕ → ℕ → List ℕ
unfolding to_string
out_double_reg register_offset reg =
    codes "output_double_register_" ++ to_string (register_offset + reg)

unfoldable pub out_int_reg : ℕ → ℕ → List ℕ
unfolding to_string
out_int_reg register_offset reg = codes "output_int_register_" ++ to_string (register_offset + reg)
