-- ===== src/Rtde/Session/Answer.antt =====
-- The answers to the setup of a recipe: the datatypes and the names that the controller lacks.
use ur_rtde_fork_custom.Base.{
  ℕ, ◌+◌, List, [], ◌∷◌, ◌++◌, none, some, codes, if◌then◌else◌, is_empty, same_text, get_elem?,
}
use ur_rtde_fork_custom.Base.Outcome.{Outcome, ok, throws, fault, out_of_range, ◌>>=◌}
use ur_rtde_fork_custom.Utility.{get_uint32}

-- `data.at(i)`.
abbrev pub byte_at : List ℕ → ℕ → Outcome ℕ
byte_at data' i = elim (get_elem? data' i) [ none ↦ throws out_of_range | some b ↦ ok b ]

-- `std::string(begin + 1, end)`: without a byte the range is crossed.
abbrev pub datatypes : List ℕ → Outcome (List ℕ)
datatypes [] = fault
datatypes (id ∷ types) = ok types

-- The positions of the types that are `NOT_FOUND`.
unfoldable pub not_found_indexes : ℕ → List (List ℕ) → List ℕ
unfolding same_text
not_found_indexes i [] = []
not_found_indexes i (type ∷ types) =
    let rest = not_found_indexes (i + 1) types in
    if same_text type (codes "NOT_FOUND") then i ∷ rest else rest

-- `output_names_[i]` with the separator in front of the next one.
unfoldable pub list_names : List ℕ → List (List ℕ) → Outcome (List ℕ)
list_names [] names = ok []
list_names (i ∷ indexes) names = elim (get_elem? names i) [
  | none ↦ fault
  | some name ↦ (do
    rest ← list_names indexes names
    ok (if is_empty indexes then name else name ++ codes ", " ++ rest))
]

-- `vars_not_found` of the error's text.
unfoldable pub missing_variables : List (List ℕ) → List (List ℕ) → Outcome (List ℕ)
unfolding not_found_indexes list_names
missing_variables output_types output_names =
    list_names (not_found_indexes 0 output_types) output_names

-- Major, minor, bugfix and build.
abbrev pub VersionNumbers : Type 0
VersionNumbers = ℕ × ℕ × ℕ × ℕ

-- The four words that `getControllerVersion` reads from the body.
unfoldable pub read_version : List ℕ → Outcome VersionNumbers
unfolding get_uint32
read_version data' = do
  (v_major, o1) ← get_uint32 data' 0
  (v_minor, o2) ← get_uint32 data' o1
  (v_bugfix, o3) ← get_uint32 data' o2
  (v_build, _) ← get_uint32 data' o3
  ok (v_major, v_minor, v_bugfix, v_build)
