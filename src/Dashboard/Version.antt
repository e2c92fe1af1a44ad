-- ===== src/Dashboard/Version.antt =====
-- `PolyScopeVersion` of src/dashboard_enums.cpp, and the regular expressions that it uses.
use ur_rtde_fork_custom.Base.{
  ℕ, ◌+◌, ◌-◌, ◌*◌, ◌||◌, List, [], ◌∷◌, ◌++◌, Option, none, some, ◌==◌, if◌then◌else◌, length,
  take, codes, ltb, ◌^◌,
}
use ur_rtde_fork_custom.Base.Outcome.{Outcome, ok, throws, fault, runtime_error, ◌>>=◌}
use ur_rtde_fork_custom.Utility.Text.{is_digit}
use ur_rtde_fork_custom.Utility.Text

-- A matcher gives what is left behind the match, if there is one.
abbrev Matcher : Type 0
Matcher = List ℕ → Option (List ℕ)

-- `\d+` in front of a matcher: as many digits as it leaves a match to.
abbrev pub digits : Matcher → Matcher
digits next [] = none
digits next (c ∷ s) =
    let longer = digits next s in
    let here = next s in
    if is_digit c then elim longer [ some rest ↦ some rest | none ↦ here ] else none

-- `.` in front of a matcher: any character but the end of a line.
abbrev pub any_character : Matcher → Matcher
any_character next [] = none
any_character next (c ∷ s) = let rest = next s in if c == b'\n' || c == 13 then none else rest

-- `\d+.\d+.\d+.\d+` at the start of a text.
abbrev pub match_version : Matcher
match_version =
    digits (any_character (digits (any_character (digits (any_character (digits some))))))

-- `regex_search`: the first place with a match, and the text that it matches.
unfoldable pub search_version : List ℕ → Option (List ℕ)
unfolding is_digit
search_version [] = none
search_version (c ∷ s) =
    let later = search_version s in
    elim (match_version (c ∷ s)) [
      | some rest ↦ some (take (length (c ∷ s) - length rest) (c ∷ s))
      | none ↦ later
    ]

pub record PolyScopeVersion : Type 0 where
  pub major : ℕ
  pub minor : ℕ
  pub patch : ℕ
  pub build : ℕ

-- A run of digits: its value behind what came before it, and the rest of the text.
unfoldable pub read_digits : ℕ → List ℕ → ℕ × List ℕ
unfolding is_digit
read_digits n [] = (n, [])
read_digits n (c ∷ s) =
    let more = read_digits (n * 10 + (c - b'0')) s in if is_digit c then more else (n, c ∷ s)

-- `regex_search` for `\d+`, with `atoi` of the match and the text behind it. A number that an `int` does
-- not hold is undefined for `atoi`; no digit at all is the source's exception.
unfoldable pub next_number : List ℕ → Outcome (ℕ × List ℕ)
unfolding read_digits is_digit
next_number [] = throws runtime_error
next_number (c ∷ s) =
    let later = next_number s in
    let run = read_digits 0 (c ∷ s) in
    if is_digit c then (if ltb run.0 (2 ^ 31) then ok run else fault) else later

-- The version is searched for, but it is the whole text that is taken apart.
unfoldable pub parse : List ℕ → Outcome PolyScopeVersion
unfolding search_version next_number
parse str = elim (search_version str) [
  | none ↦ throws runtime_error
  | some _ ↦ (do
    (major, s1) ← next_number str
    (minor, s2) ← next_number s1
    (patch, s3) ← next_number s2
    (build, _) ← next_number s3
    ok (record { major = major; minor = minor; patch = patch; build = build }))
]

unfoldable pub to_string : PolyScopeVersion → List ℕ
unfolding Text.to_string
to_string v =
    Text.to_string v.major
    ++ codes "."
    ++ Text.to_string v.minor
    ++ codes "."
    ++ Text.to_string v.patch
    ++ codes "."
    ++ Text.to_string v.build
