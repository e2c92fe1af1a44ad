-- ===== src/Control/Path/Code.antt =====
-- Which paths have script code, and which code: `Path::toScriptCode` of src/rtde_control_interface.cpp.
use ur_rtde_fork_custom.Base.{ℕ, ◌+◌, ◌^◌, ◌<◌, ◌≡◌, ◌↔◌, refl, List, [], ◌∷◌, ◌++◌, All}
use ur_rtde_fork_custom.Base.Outcome.{ok, first_returns}
use ur_rtde_fork_custom.Control.Path.Entry.{Coded, to_script_code-Coded, Coded-to_script_code}
use ur_rtde_fork_custom.Control.Path.{
  PathEntry, to_script_code, progress_text, path_code_from, path_code,
}

-- The code of a path: before each move its number is signalled.
abbrev pub PathCoded : (ℕ → List ℕ) → ℕ → List PathEntry → List ℕ → Type 0
PathCoded print i [] text = text ≡ []
PathCoded print i (entry ∷ entries) text =
    (code : List ℕ) × (rest : List ℕ) × Coded print entry code
    × PathCoded print (i + 1) entries rest
    × (text ≡ progress_text print i ++ (code ++ rest))

-- The parameters are doubles.
abbrev pub AreDoubles : List PathEntry → Type 0
AreDoubles [] = Unit
AreDoubles (entry ∷ entries) = All (λ v. v < 2 ^ 64) entry.param × AreDoubles entries

module _ (print : ℕ → List ℕ) where
  path_code_from-PathCoded :
      (i : ℕ) (entries : List PathEntry) (text : List ℕ)
      → AreDoubles entries
      → path_code_from print i entries ≡ ok text
      → PathCoded print i entries text
  unfolding path_code_from
  path_code_from-PathCoded i [] text doubles h = cc
  path_code_from-PathCoded i (entry ∷ entries) text doubles h =
      let (code, first, h1) = first_returns (to_script_code print entry) _ h in
      let (rest, later, h2) = first_returns (path_code_from print (i + 1) entries) _ h1 in
      (
        code,
        rest,
        to_script_code-Coded print entry code doubles.0 first,
        path_code_from-PathCoded (i + 1) entries rest doubles.1 later,
        cc,
      )

  PathCoded-path_code_from :
      (i : ℕ) (entries : List PathEntry) (text : List ℕ)
      → AreDoubles entries
      → PathCoded print i entries text
      → path_code_from print i entries ≡ ok text
  unfolding path_code_from
  PathCoded-path_code_from i [] text doubles h = rw h refl
  PathCoded-path_code_from i (entry ∷ entries) text doubles (code, rest, first, later, whole) =
      rw
        (
          Coded-to_script_code print entry code doubles.0 first,
          PathCoded-path_code_from (i + 1) entries rest doubles.1 later,
          whole,
        )
        refl

  -- A path of doubles has script code exactly when every entry is a move other than `MoveC` with nine
  -- numbers or more, of which velocity, acceleration and blend lie within the limits of its kind of
  -- position. The code then is, for each entry in its order, the signal with the entry's index and the
  -- line of the move.
  pub path_code_iff :
      (waypoints : List PathEntry) (text : List ℕ)
      → AreDoubles waypoints
      → (path_code print waypoints ≡ ok text) ↔ PathCoded print 0 waypoints text
  unfolding path_code
  path_code_iff waypoints text doubles = (
    path_code_from-PathCoded 0 waypoints text doubles,
    PathCoded-path_code_from 0 waypoints text doubles,
  )
