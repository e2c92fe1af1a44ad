-- ===== src/Script/Removal/Lines.antt =====
-- The control script line by line: what `removeUnsupportedFunctions` of src/script_client.cpp is for.
use ur_rtde_fork_custom.Base.{
  ℕ, suc, ◌<◌, ◌≡◌, refl, ap, ◌∙◌, Bool, true, false, ◌&&◌, ◌||◌, List, [], ◌∷◌, ◌++◌, ◌==◌, ltb,
  leb, if◌then◌else◌, replicate, length, arith, append_assoc, sym,
}
use ur_rtde_fork_custom.Base.Outcome.{ok}
use ur_rtde_fork_custom.Utility.Text.Edit.{count, count-append}
use ur_rtde_fork_custom.Script.Removal.{Version, is_kept, edit_line, remove_round, again}
use ur_rtde_fork_custom.Script.Removal.Tags.{
  Tag, since, since_or, tag_text, IsTag, Follows, needed_of, read_needed-tag_text, count-tag_text,
}
use ur_rtde_fork_custom.Script.Removal.Rounds.{
  remove_round-tag, edit_line-kept, edit_line-kept_additional, edit_line-line,
}

-- A line, without its end. A tag may have text before it.
pub data Line : Type 0 where
  plain : List ℕ → Line
  tagged : List ℕ → Tag → List ℕ → Line

abbrev pub IsLine : Line → Type 0
IsLine (plain s) = count b'$' s ≡ 0
IsLine (tagged before t body) =
    (count b'$' before ≡ 0)
    × (count b'$' body ≡ 0)
    × (count b'\n' body ≡ 0)
    × IsTag t
    × Follows t body

abbrev pub AreLines : List Line → Type 0
AreLines [] = Unit
AreLines (l ∷ ls) = IsLine l × AreLines ls

-- The script with these lines.
abbrev pub source : List Line → List ℕ
source [] = []
source (plain s ∷ ls) = s ++ b'\n' ∷ source ls
source (tagged before t body ∷ ls) = before ++ b'$' ∷ (tag_text t ++ (body ++ b'\n' ∷ source ls))

-- The controller has one of the versions of the tag.
abbrev pub is_supported : Version → Tag → Bool
is_supported v (since m n) = ltb m v.major || (v.major == m && leb n v.minor)
is_supported v (since_or m n k l) =
    ltb m v.major || (v.major == m && leb n v.minor) || (v.major == k && leb l v.minor)

abbrev pub blanks : Tag → List ℕ
blanks (since _ _) = replicate 5 b' '
blanks (since_or _ _ _ _) = replicate 10 b' '

-- The script for a controller: a supported line keeps its columns, and of another line nothing is left
-- but what stands before the tag.
abbrev pub supported_source : Version → List Line → List ℕ
supported_source v [] = []
supported_source v (plain s ∷ ls) = s ++ b'\n' ∷ supported_source v ls
supported_source v (tagged before t body ∷ ls) =
    let rest = supported_source v ls in
    before ++ (if is_supported v t then blanks t ++ (body ++ b'\n' ∷ rest) else rest)

abbrev pub tags : List Line → ℕ
tags [] = 0
tags (plain s ∷ ls) = tags ls
tags (tagged _ _ _ ∷ ls) = suc (tags ls)

is_kept-needed_of :
    (v : Version) (t : Tag) → 0 < v.major → is_kept v (needed_of t) ≡ is_supported v t
unfolding is_kept
is_kept-needed_of v (since m n) h = ground arith
is_kept-needed_of v (since_or m n k l) h = ground arith

edit_line-supported :
    (v : Version) (p : List ℕ) (t : Tag) (body : List ℕ)
    → is_kept v (needed_of t) ≡ true
    → edit_line v (needed_of t) (p ++ b'$' ∷ (tag_text t ++ body)) (length p)
      ≡ p ++ (blanks t ++ body)
edit_line-supported v p (since m n) body k =
    edit_line-kept v (needed_of (since m n)) p (tag_text (since m n) ++ body) k refl
edit_line-supported v p (since_or m n i j) body k =
    edit_line-kept_additional v (needed_of (since_or m n i j)) p
      (tag_text (since_or m n i j) ++ body) k refl

edit_line-unsupported :
    (v : Version) (p : List ℕ) (t : Tag) (body rest : List ℕ)
    → IsTag t
    → count b'\n' body ≡ 0
    → is_kept v (needed_of t) ≡ false
    → edit_line v (needed_of t) (p ++ b'$' ∷ (tag_text t ++ (body ++ b'\n' ∷ rest))) (length p)
      ≡ p ++ rest
edit_line-unsupported v p t body rest h f k =
    edit_line-line v (needed_of t) p (tag_text t ++ (body ++ b'\n' ∷ rest)) (tag_text t ++ body)
      rest (sym (append_assoc (tag_text t) body (b'\n' ∷ rest)))
      (omega (
        arith,
        count-append b'\n' (tag_text t) body,
        count-tag_text b'\n' t (omega arith) (omega arith) h,
        f,
      ))
      k

-- One round at a tagged line behind a prefix without tags.
pub round-tagged :
    (v : Version) (p : List ℕ) (t : Tag) (body rest : List ℕ)
    → 0 < v.major
    → count b'$' p ≡ 0
    → IsLine (tagged [] t body)
    → remove_round v (p ++ b'$' ∷ (tag_text t ++ (body ++ b'\n' ∷ rest)))
      ≡ ok (again (p ++ (if is_supported v t then blanks t ++ (body ++ b'\n' ∷ rest) else rest)))
round-tagged v p t body rest positive f (_, _, one_line, is_tag, follows) =
    remove_round-tag v p (tag_text t ++ (body ++ b'\n' ∷ rest)) f
    ∙ rw (read_needed-tag_text t body rest is_tag follows)
        (ap (λ (s : List ℕ). ok (again s)) (edited (is_supported v t) refl))
  where
    edited :
        (supported : Bool)
        → is_supported v t ≡ supported
        → edit_line v (needed_of t) (p ++ b'$' ∷ (tag_text t ++ (body ++ b'\n' ∷ rest))) (length p)
          ≡ p ++ (if supported then blanks t ++ (body ++ b'\n' ∷ rest) else rest)
    edited true e =
        edit_line-supported v p t (body ++ b'\n' ∷ rest) (is_kept-needed_of v t positive ∙ e)
    edited false e =
        edit_line-unsupported v p t body rest is_tag one_line (is_kept-needed_of v t positive ∙ e)
