-- ===== src/Utility/Text/Find.antt =====
-- Searching a text for another: `std::string::find` and `strstr`.
use ur_rtde_fork_custom.Base.{
  ℕ, Bool, true, false, ◌&&◌, ◌||◌, List, [], ◌∷◌, ◌==◌, if◌then◌else◌, is_empty,
}

abbrev pub starts_with : List ℕ → List ℕ → Bool
starts_with [] text = true
starts_with (c ∷ needle) [] = false
starts_with (c ∷ needle) (d ∷ text) = c == d && starts_with needle text

-- `text.find(needle) != npos`.
unfoldable pub contains_text : List ℕ → List ℕ → Bool
contains_text needle [] = is_empty needle
contains_text needle (c ∷ text) = starts_with needle (c ∷ text) || contains_text needle text

-- `c_str()` as a C string, which ends at the first zero byte.
abbrev pub c_str : List ℕ → List ℕ
c_str [] = []
c_str (c ∷ s) = if c == 0 then [] else c ∷ c_str s

-- `strstr(text.c_str(), needle) != nullptr`.
unfoldable pub strstr : List ℕ → List ℕ → Bool
unfolding contains_text
strstr text needle = contains_text needle (c_str text)
