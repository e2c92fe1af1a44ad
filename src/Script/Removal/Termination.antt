-- ===== src/Script/Removal/Termination.antt =====
-- The loop of `removeUnsupportedFunctions` ends.
use ur_rtde_fork_custom.Base.{
  ℕ, zero, suc, ◌+◌, ◌≤◌, ◌<◌, ◌≡◌, refl, ap, ◌∙◌, inl, inr, Bool, true, false, List, [], ◌∷◌, ◌++◌,
  Option, none, some, replicate, take, drop, length, arith, drop-append,
}
use ur_rtde_fork_custom.Base.Outcome.{Outcome, ok, throws, fault, ◌>>=◌, IsDefined}
use ur_rtde_fork_custom.Utility.Text.Edit.{
  find_byte, find_byte_from, at, count, count-append, count-drop-le, find_byte-append,
  find_byte-none, find_byte-Split, shift,
}
use ur_rtde_fork_custom.Script.Removal.{
  Version, Needed, read_needed, is_kept, edit_line, line_length, remove, next_round,
}
use ur_rtde_fork_custom.Script.Removal.Defined.{read_needed-IsDefined}
use ur_rtde_fork_custom.Script.Removal.Rounds.{
  after_tag, remove_round-tag, remove_round-none, edit_line-kept, edit_line-kept_additional,
  edit_line-erased,
}

-- Every tag has the end of a line somewhere behind it.
abbrev pub IsClosed : List ℕ → Type 0
IsClosed [] = Unit
IsClosed (c ∷ s) = (c ≡ b'$' → 0 < count b'\n' s) × IsClosed s

IsClosed-drop : (k : ℕ) (s : List ℕ) → IsClosed s → IsClosed (drop k s)
IsClosed-drop zero s h = h
IsClosed-drop (suc k) [] h = h
IsClosed-drop (suc k) (c ∷ s) h = IsClosed-drop k s h.1

IsClosed-append : (s t : List ℕ) → count b'$' s ≡ 0 → IsClosed t → IsClosed (s ++ t)
IsClosed-append [] t f h = h
IsClosed-append (c ∷ s) t f h = ((λ e. absurd (ground arith)), IsClosed-append s t (ground arith) h)

IsClosed-behind : (s t : List ℕ) → IsClosed (s ++ t) → IsClosed t
IsClosed-behind [] t h = h
IsClosed-behind (c ∷ s) t h = IsClosed-behind s t h.1

find_byte-found : (b : ℕ) (s : List ℕ) → 0 < count b s → (n : ℕ) × (find_byte b s ≡ some n)
find_byte-found b s h = elim (find_byte-Split b s) [
  | inl e ↦ absurd (omega arith)
  | inr split ↦ (
    length split.before,
    ap (find_byte b) split.parts ∙ find_byte-append b split.before split.behind split.is_first,
  )
]

-- The line of a tag with a newline behind it has a first character to erase.
line_length-positive :
    (before behind : List ℕ)
    → 0 < count b'\n' behind
    → (k : ℕ) × (line_length (before ++ b'$' ∷ behind) (length before) ≡ suc k)
unfolding find_byte
line_length-positive before behind h =
    let (n, at) = find_byte-found b'\n' behind h in
    let line : find_byte_from b'\n' (before ++ b'$' ∷ behind) (length before)
        ≡ some (length before + (1 + n)) =
      rw (drop-append before (b'$' ∷ behind), at) refl in
    (1 + n, rw (line_length, line) (omega arith))

-- The text behind a round: nothing before the tag is changed, and the tag is gone.
record Shrinks (before behind text : List ℕ) : Type 0 where
  rest : List ℕ
  is_split : text ≡ before ++ rest
  closed : IsClosed rest
  fewer : count b'$' rest ≤ count b'$' behind

Shrinks-drop :
    (before behind blanks text : List ℕ) (k : ℕ)
    → count b'$' blanks ≡ 0
    → IsClosed behind
    → text ≡ before ++ (blanks ++ drop k behind)
    → Shrinks before behind text
Shrinks-drop before behind blanks text k f closed e = record {
  rest = blanks ++ drop k behind;
  is_split = e;
  closed = IsClosed-append blanks (drop k behind) f (IsClosed-drop k behind closed);
  fewer = omega (arith, count-append b'$' blanks (drop k behind), count-drop-le b'$' k behind);
}

module _ (v : Version) (needed : Needed) (before behind : List ℕ)
    (closed : IsClosed (b'$' ∷ behind)) where
  edit_line-Shrinks :
      (kept additional : Bool)
      → is_kept v needed ≡ kept
      → needed.is_additional ≡ additional
      → Shrinks before behind (edit_line v needed (before ++ b'$' ∷ behind) (length before))
  edit_line-Shrinks true false k a =
      Shrinks-drop before behind (replicate 5 b' ') _ 4 refl closed.1
        (edit_line-kept v needed before behind k a)
  edit_line-Shrinks true true k a =
      Shrinks-drop before behind (replicate 10 b' ') _ 9 refl closed.1
        (edit_line-kept_additional v needed before behind k a)
  edit_line-Shrinks false a k _ =
      let (n, e) = line_length-positive before behind (closed.0 refl) in
      Shrinks-drop before behind [] _ n refl closed.1 (
        edit_line-erased v needed before behind k
        ∙ ap (λ (m : ℕ). before ++ drop m (b'$' ∷ behind)) e)

-- The loop has ended, and if the function reports success, no tag is left.
abbrev pub IsCleared : Option (Outcome (Bool × List ℕ)) → Type 0
IsCleared none = ⊥
IsCleared (some fault) = ⊥
IsCleared (some (throws e)) = Unit
IsCleared (some (ok (success, text))) = success ≡ true → count b'$' text ≡ 0

module _ (v : Version) (rounds : ℕ) (before behind : List ℕ) (closed : IsClosed (b'$' ∷ behind))
    (is_first : count b'$' before ≡ 0)
    (later : (text : List ℕ)
      → IsClosed text
      → count b'$' text < rounds
      → IsCleared (remove rounds v text))
    (enough : count b'$' (before ++ b'$' ∷ behind) < suc rounds) where
  Shrinks-IsCleared :
      (text : List ℕ) → Shrinks before behind text → IsCleared (remove rounds v text)
  Shrinks-IsCleared text s =
      later text (rw s.is_split (IsClosed-append before s.rest is_first s.closed)) (
        rw s.is_split (
          omega (
            arith,
            is_first,
            enough,
            s.fewer,
            count-append b'$' before s.rest,
            count-append b'$' before (b'$' ∷ behind),
          )))

  tag-IsCleared :
      (needed : Outcome (Option Needed))
      → IsDefined needed
      → IsCleared (
          next_round
            (remove rounds v)
            (before ++ b'$' ∷ behind)
            (needed >>= (λ found. ok (after_tag v before behind found))))
  tag-IsCleared fault h = h
  tag-IsCleared (throws e) h = tt
  tag-IsCleared (ok none) h = λ e. absurd (cc)
  tag-IsCleared (ok (some needed)) h =
      Shrinks-IsCleared _ (edit_line-Shrinks v needed before behind closed _ _ refl refl)

  round-IsCleared : IsCleared (remove (suc rounds) v (before ++ b'$' ∷ behind))
  unfolding remove
  round-IsCleared =
      rw (remove_round-tag v before behind is_first)
        (tag-IsCleared (read_needed (take 9 behind)) (read_needed-IsDefined (take 9 behind)))

-- If every tag has the end of a line behind it, a round for each tag and one more end the loop, without
-- undefined behaviour, and the text of a run that reports success has no tag left.
pub remove-IsCleared :
    (rounds : ℕ) (v : Version) (text : List ℕ)
    → IsClosed text
    → count b'$' text < rounds
    → IsCleared (remove rounds v text)
unfolding remove
remove-IsCleared zero v text h enough = absurd (omega arith)
remove-IsCleared (suc rounds) v text h enough = elim (find_byte-Split b'$' text) [
  | inl e ↦ rw (remove_round-none v text e) (λ _. e)
  | inr split ↦ rw split.parts (
      round-IsCleared v rounds split.before split.behind
        (IsClosed-behind split.before (b'$' ∷ split.behind) (rw split.parts at h)) split.is_first
        (remove-IsCleared rounds v) (rw split.parts at enough))
]

-- An unsupported tag at the start of a text without the end of a line is erased by no character, so
-- the loop never ends.
pub remove_endless :
    (rounds : ℕ) (v : Version) (behind : List ℕ) (needed : Needed)
    → count b'\n' behind ≡ 0
    → read_needed (take 9 behind) ≡ ok (some needed)
    → is_kept v needed ≡ false
    → remove rounds v (b'$' ∷ behind) ≡ none
unfolding remove
remove_endless zero v behind needed h tag k = refl
remove_endless (suc rounds) v behind needed h tag k =
    let nowhere : find_byte_from b'\n' (b'$' ∷ behind) 0 ≡ none =
      ap (shift 0) (find_byte-none b'\n' (b'$' ∷ behind) (omega arith)) in
    let nothing : line_length (b'$' ∷ behind) 0 ≡ 0 = rw (line_length, nowhere) refl in
    let same : edit_line v needed (b'$' ∷ behind) 0 ≡ b'$' ∷ behind =
      edit_line-erased v needed [] behind k ∙ ap (λ (n : ℕ). drop n (b'$' ∷ behind)) nothing in
    rw (remove_round-tag v [] behind refl, tag, same)
      (remove_endless rounds v behind needed h tag k)
