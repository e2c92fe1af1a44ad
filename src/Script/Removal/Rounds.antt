-- ===== src/Script/Removal/Rounds.antt =====
-- One round of `removeUnsupportedFunctions`, at the first tag of the text.
use ur_rtde_fork_custom.Base.{
  ℕ, suc, ◌+◌, ◌≡◌, refl, ap, ◌∙◌, true, false, List, ◌∷◌, ◌++◌, Option, none, some, replicate,
  take, drop, length, arith, drop-append,
}
use ur_rtde_fork_custom.Base.Outcome.{Outcome, ok, throws, fault, ◌>>=◌}
use ur_rtde_fork_custom.Utility.Text.Edit.{
  find_byte_from, count, find_byte-append, find_byte-none, erase, erase-append, insert-append,
  drop-append_more, shift, substr-append, insert,
}
use ur_rtde_fork_custom.Script.Removal.{
  Version, Needed, read_needed, is_kept, edit_line, line_length, Round, unreadable, finished, again,
  remove_round,
}

-- What a readable tag makes of the text.
abbrev pub after_tag : Version → List ℕ → List ℕ → Option Needed → Round
after_tag v before behind none = unreadable
after_tag v before behind (some needed) =
    again (edit_line v needed (before ++ b'$' ∷ behind) (length before))

pub remove_round-tag :
    (v : Version) (before behind : List ℕ)
    → count b'$' before ≡ 0
    → remove_round v (before ++ b'$' ∷ behind)
      ≡ (read_needed (take 9 behind) >>= (λ needed. ok (after_tag v before behind needed)))
unfolding remove_round
remove_round-tag v before behind h =
    rw
      (
        find_byte-append b'$' before behind h,
        substr-append before behind b'$' (length before + 1) 9 refl,
      )
      (spread (read_needed (take 9 behind)))
  where
    spread :
        (needed : Outcome (Option Needed))
        → (needed >>= (λ versions. ok (elim versions [
          | none ↦ unreadable
          | some found ↦ again (edit_line v found (before ++ b'$' ∷ behind) (length before))
        ])))
          ≡ (needed >>= (λ versions. ok (after_tag v before behind versions)))
    spread fault = refl
    spread (throws e) = refl
    spread (ok none) = refl
    spread (ok (some needed)) = refl

pub remove_round-none :
    (v : Version) (text : List ℕ) → count b'$' text ≡ 0 → remove_round v text ≡ ok finished
unfolding remove_round
remove_round-none v text h = rw (find_byte-none b'$' text h) refl

module _ (v : Version) (needed : Needed) (before behind : List ℕ) where
  blank_tag :
      (k : ℕ) (blanks : List ℕ)
      → insert (erase (before ++ b'$' ∷ behind) (length before) (k + 1)) (length before) blanks
        ≡ before ++ (blanks ++ drop k behind)
  blank_tag k blanks =
      let one_more : k + 1 ≡ suc k = omega arith in
      let next : drop (k + 1) (b'$' ∷ behind) ≡ drop k behind = rw one_more refl in
      rw
        (
          erase-append before (b'$' ∷ behind) (k + 1),
          insert-append before (drop (k + 1) (b'$' ∷ behind)) blanks,
        )
        (ap (λ t. before ++ (blanks ++ t)) next)

  pub edit_line-kept :
      is_kept v needed ≡ true
      → needed.is_additional ≡ false
      → edit_line v needed (before ++ b'$' ∷ behind) (length before)
        ≡ before ++ (replicate 5 b' ' ++ drop 4 behind)
  unfolding edit_line
  edit_line-kept k e = rw (k, e) (blank_tag 4 (replicate 5 b' '))

  pub edit_line-kept_additional :
      is_kept v needed ≡ true
      → needed.is_additional ≡ true
      → edit_line v needed (before ++ b'$' ∷ behind) (length before)
        ≡ before ++ (replicate 10 b' ' ++ drop 9 behind)
  unfolding edit_line
  edit_line-kept_additional k e = rw (k, e) (blank_tag 9 (replicate 10 b' '))

  pub edit_line-erased :
      is_kept v needed ≡ false
      → edit_line v needed (before ++ b'$' ∷ behind) (length before)
        ≡ before ++ drop (line_length (before ++ b'$' ∷ behind) (length before)) (b'$' ∷ behind)
  unfolding edit_line
  edit_line-erased k = rw k (erase-append before (b'$' ∷ behind) _)

  pub edit_line-line :
      (line rest : List ℕ)
      → behind ≡ line ++ b'\n' ∷ rest
      → count b'\n' line ≡ 0
      → is_kept v needed ≡ false
      → edit_line v needed (before ++ b'$' ∷ behind) (length before) ≡ before ++ rest
  edit_line-line line rest e f k =
      let found : find_byte_from b'\n' (before ++ b'$' ∷ behind) (length before)
          ≡ some (length before + suc (length line)) =
        rw (drop-append before (b'$' ∷ behind), e)
          (ap (shift (length before)) (find_byte-append b'\n' (b'$' ∷ line) rest (omega arith))) in
      let long : line_length (before ++ b'$' ∷ behind) (length before) ≡ suc (length line + 1) =
        rw (line_length, found) (omega arith) in
      edit_line-erased k
      ∙ rw (long, e) (ap (λ t. before ++ t) (drop-append_more line (b'\n' ∷ rest) 1))
