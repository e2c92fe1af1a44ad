-- ===== src/Control/CustomScript/Function.antt =====
-- The function that `sendCustomScriptFunction` of src/rtde_control_interface.cpp wraps round a script.
use ur_rtde_fork_custom.Base.{ℕ, ◌≡◌, ◌≢◌, refl, ap, List, [], ◌∷◌, ◌++◌, codes, All, append_assoc}
use ur_rtde_fork_custom.Utility.Text.{to_string}
use ur_rtde_fork_custom.Utility.Text.Split.{terminate_each, split-terminate_each}
use ur_rtde_fork_custom.Control.CustomScript.{custom_function, indent}

-- 9 is the tab, and 10 the newline.
abbrev pub tabbed : List (List ℕ) → List ℕ
tabbed [] = []
tabbed (line ∷ lines) = 9 ∷ (line ++ (10 ∷ tabbed lines))

abbrev pub register_line : ℕ → List ℕ → List ℕ
register_line register_offset end_text =
    9 ∷ (codes "write_output_integer_register(0 +" ++ (to_string register_offset ++ end_text))

-- The program's text, line by line.
abbrev pub function_text : ℕ → List ℕ → List (List ℕ) → List ℕ
function_text register_offset function_name lines =
    codes "def "
    ++ (function_name
        ++ (codes "():"
            ++ (10
                ∷ (register_line register_offset (codes ", 1)")
                    ++ (10
                        ∷ (tabbed lines
                            ++ (register_line register_offset (codes ", 2)")
                                ++ (10 ∷ (codes "end" ++ (10 ∷ []))))))))))

indent-eq-tabbed : (lines : List (List ℕ)) → indent lines ≡ tabbed lines
indent-eq-tabbed [] = refl
indent-eq-tabbed (line ∷ lines) = ap (λ rest. 9 ∷ (line ++ (10 ∷ rest))) (indent-eq-tabbed lines)

-- The program for a script of whole lines, empty ones included: the function's head, the call of
-- `write_output_integer_register` that sets the register to 1, every line of the script with a tab
-- in front, the call that sets the register to 2, and the end. Condition: no line holds a newline.
pub custom_function-lines :
    (register_offset : ℕ) (function_name : List ℕ) (lines : List (List ℕ))
    → All (All (λ c. c ≢ b'\n')) lines
    → custom_function register_offset function_name (terminate_each lines b'\n')
      ≡ function_text register_offset function_name lines
unfolding custom_function
custom_function-lines register_offset function_name lines h =
    rw (split-terminate_each lines b'\n' h, indent-eq-tabbed lines) (simp append_assoc)
