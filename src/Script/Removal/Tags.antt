-- ===== src/Script/Removal/Tags.antt =====
-- The tags of scripts/rtde_control.script, and what `removeUnsupportedFunctions` reads in them.
use ur_rtde_fork_custom.Base.{
  ℕ, ◌+◌, ◌/◌, ◌%◌, ◌<◌, ◌≡◌, ◌≢◌, ◌∙◌, refl, true, false, List, [], ◌∷◌, ◌++◌, some, ltb,
  if◌then◌else◌, take, arith,
}
use ur_rtde_fork_custom.Base.Outcome.{ok}
use ur_rtde_fork_custom.Utility.Text.{is_digit}
use ur_rtde_fork_custom.Utility.Text.Stoi.{stoi}
use ur_rtde_fork_custom.Utility.Text.Edit.{count}
use ur_rtde_fork_custom.Script.Removal.{Needed, read_needed, read_numbers, version_number}

-- A version, and possibly another one of the older series, from which the line is supported.
pub data Tag : Type 0 where
  since : ℕ → ℕ → Tag
  since_or : ℕ → ℕ → ℕ → ℕ → Tag

-- The two columns of a minor version.
abbrev first_column : ℕ → ℕ
first_column n = if ltb n 10 then b'0' + n else b'0' + n / 10

abbrev second_column : ℕ → ℕ
second_column n = if ltb n 10 then b' ' else b'0' + n % 10

-- The text of a tag behind its `$`.
abbrev pub tag_text : Tag → List ℕ
tag_text (since major minor) = (b'0' + major) ∷ b'.' ∷ first_column minor ∷ second_column minor ∷ []
tag_text (since_or major minor extra_major extra_minor) =
    (b'0' + major)
    ∷ b'.'
    ∷ first_column minor
    ∷ second_column minor
    ∷ b'|'
    ∷ (b'0' + extra_major)
    ∷ b'.'
    ∷ first_column extra_minor
    ∷ second_column extra_minor
    ∷ []

abbrev pub IsTag : Tag → Type 0
IsTag (since major minor) = (major < 10) × (minor < 100)
IsTag (since_or major minor extra_major extra_minor) =
    (major < 10) × (minor < 100) × (extra_major < 10) × (extra_minor < 100)

-- A short tag must end where the text behind it starts.
abbrev pub Follows : Tag → List ℕ → Type 0
Follows (since _ _) (x ∷ y ∷ more) = (is_digit x ≡ false) × (x ≢ b'|')
Follows (since _ _) _ = ⊥
Follows (since_or _ _ _ _) _ = Unit

abbrev pub needed_of : Tag → Needed
needed_of (since major minor) = record {
  major = major;
  minor = minor;
  extra_major = 0;
  extra_minor = 0;
  is_additional = false;
}
needed_of (since_or major minor extra_major extra_minor) = record {
  major = major;
  minor = minor;
  extra_major = extra_major;
  extra_minor = extra_minor;
  is_additional = true;
}

version_number_digit : (d : ℕ) → d < 10 → version_number ((b'0' + d) ∷ []) ≡ ok d
unfolding stoi
version_number_digit d h = ground arith

version_number_columns :
    (n x : ℕ) (s : List ℕ)
    → n < 100
    → is_digit x ≡ false
    → version_number (first_column n ∷ second_column n ∷ x ∷ s) ≡ ok n
unfolding stoi
version_number_columns n x s h k = ground arith

version_number_last_columns :
    (n : ℕ) → n < 100 → version_number (first_column n ∷ second_column n ∷ []) ≡ ok n
unfolding stoi
version_number_last_columns n h = ground arith

read_needed_numbers :
    (m p f s x y z : ℕ) (rest : List ℕ)
    → m ≢ b' '
    → f ≢ b' '
    → read_needed (m ∷ p ∷ f ∷ s ∷ x ∷ y ∷ z ∷ rest)
      ≡ read_numbers (m ∷ p ∷ f ∷ s ∷ x ∷ y ∷ z ∷ rest) m (f ∷ s ∷ x ∷ y ∷ []) y (take 2 rest)
unfolding read_needed
read_needed_numbers m p f s x y z rest h k = ground arith

read_since :
    (major minor x y z : ℕ) (more : List ℕ)
    → major < 10
    → minor < 100
    → is_digit x ≡ false
    → x ≢ b'|'
    → read_needed (take 9 (tag_text (since major minor) ++ x ∷ y ∷ z ∷ more))
      ≡ ok (some (needed_of (since major minor)))
read_since major minor x y z more h k digit bar =
    read_needed_numbers (b'0' + major) b'.' (first_column minor) (second_column minor) x y z
      (take 2 more) (ground arith) (ground arith)
    ∙ rw
        (
          read_numbers,
          version_number_digit major h,
          version_number_columns minor x (y ∷ []) k digit,
        )
        (ground arith)

read_since_or :
    (major minor extra_major extra_minor : ℕ) (more : List ℕ)
    → IsTag (since_or major minor extra_major extra_minor)
    → read_needed (take 9 (tag_text (since_or major minor extra_major extra_minor) ++ more))
      ≡ ok (some (needed_of (since_or major minor extra_major extra_minor)))
unfolding is_digit
read_since_or major minor extra_major extra_minor more (a, b, c, d) =
    read_needed_numbers (b'0' + major) b'.' (first_column minor) (second_column minor) b'|'
      (b'0' + extra_major) b'.' (first_column extra_minor ∷ second_column extra_minor ∷ [])
      (ground arith) (ground arith)
    ∙ rw
        (
          read_numbers,
          version_number_digit major a,
          version_number_columns minor b'|' ((b'0' + extra_major) ∷ []) b refl,
          version_number_digit extra_major c,
          version_number_last_columns extra_minor d,
        )
        refl

-- What `removeUnsupportedFunctions` reads behind a `$` is what the tag says.
pub read_needed-tag_text :
    (t : Tag) (body rest : List ℕ)
    → IsTag t
    → Follows t body
    → read_needed (take 9 (tag_text t ++ (body ++ b'\n' ∷ rest))) ≡ ok (some (needed_of t))
read_needed-tag_text (since m n) [] rest h f = absurd f
read_needed-tag_text (since m n) (x ∷ []) rest h f = absurd f
read_needed-tag_text (since m n) (x ∷ y ∷ []) rest h f =
    read_since m n x y b'\n' rest h.0 h.1 f.0 f.1
read_needed-tag_text (since m n) (x ∷ y ∷ z ∷ more) rest h f =
    read_since m n x y z (more ++ b'\n' ∷ rest) h.0 h.1 f.0 f.1
read_needed-tag_text (since_or m n k l) body rest h f =
    read_since_or m n k l (body ++ b'\n' ∷ rest) h

pub count-tag_text : (b : ℕ) (t : Tag) → b < b'.' → b ≢ b' ' → IsTag t → count b (tag_text t) ≡ 0
count-tag_text b (since m n) k l h = ground arith
count-tag_text b (since_or m n i j) k l h = ground arith
