-- ===== src/Utility/Text/Edit.antt =====
-- Searching and changing a `std::string` by positions: `find`, `substr`, `at`, `erase` and `insert`.
use ur_rtde_fork_custom.Base.{
  ℕ, zero, suc, ◌+◌, ◌≤◌, ◌≡◌, refl, ap, ◌⊎◌, inl, inr, Bool, true, false, List, [], ◌∷◌, ◌++◌,
  Option, none, some, ◌==◌, ltb, if◌then◌else◌, is_empty, take, drop, get_elem?, length, arith,
  take-append, drop-append, length-append,
}
use ur_rtde_fork_custom.Base.Outcome.{Outcome, ok, throws, out_of_range}
use ur_rtde_fork_custom.Utility.Text.Find.{starts_with}

abbrev pub shift : ℕ → Option ℕ → Option ℕ
shift k none = none
shift k (some n) = some (k + n)

-- `find` of one character. `none` is `npos`.
unfoldable pub find_byte : ℕ → List ℕ → Option ℕ
find_byte b [] = none
find_byte b (c ∷ s) = if c == b then some 0 else shift 1 (find_byte b s)

-- `find(b, n)`.
abbrev pub find_byte_from : ℕ → List ℕ → ℕ → Option ℕ
find_byte_from b s n = shift n (find_byte b (drop n s))

-- `find` of a text.
unfoldable pub find_text : List ℕ → List ℕ → Option ℕ
find_text needle [] = if is_empty needle then some 0 else none
find_text needle (c ∷ s) =
    if starts_with needle (c ∷ s) then some 0 else shift 1 (find_text needle s)

abbrev pub in_range : Option ℕ → Outcome ℕ
in_range none = throws out_of_range
in_range (some c) = ok c

abbrev pub at : List ℕ → ℕ → Outcome ℕ
at s i = in_range (get_elem? s i)

abbrev pub substr : List ℕ → ℕ → ℕ → Outcome (List ℕ)
substr s n k = if ltb (length s) n then throws out_of_range else ok (take k (drop n s))

-- `erase` and `insert` at a position inside the text.
abbrev pub erase : List ℕ → ℕ → ℕ → List ℕ
erase s n k = take n s ++ drop k (drop n s)

abbrev pub insert : List ℕ → ℕ → List ℕ → List ℕ
insert s n t = take n s ++ (t ++ drop n s)

abbrev pub count : ℕ → List ℕ → ℕ
count b [] = 0
count b (c ∷ s) = (if c == b then 1 else 0) + count b s

pub count-append : (b : ℕ) (s t : List ℕ) → count b (s ++ t) ≡ count b s + count b t
count-append b [] t = omega arith
count-append b (c ∷ s) t = omega (arith, count-append b s t)

pub count-drop-le : (b k : ℕ) (s : List ℕ) → count b (drop k s) ≤ count b s
count-drop-le b zero s = omega arith
count-drop-le b (suc k) [] = omega arith
count-drop-le b (suc k) (c ∷ s) = omega (arith, count-drop-le b k s)

pub find_byte-append :
    (b : ℕ) (s t : List ℕ) → count b s ≡ 0 → find_byte b (s ++ b ∷ t) ≡ some (length s)
unfolding find_byte
find_byte-append b [] t h = ground arith
find_byte-append b (c ∷ s) t h = ground (arith, find_byte-append b s t)

pub find_byte-none : (b : ℕ) (s : List ℕ) → count b s ≡ 0 → find_byte b s ≡ none
unfolding find_byte
find_byte-none b [] h = refl
find_byte-none b (c ∷ s) h = ground (arith, find_byte-none b s)

-- A text either lacks a character, or splits at its first occurrence.
pub record Split (b : ℕ) (text : List ℕ) : Type 0 where
  pub before : List ℕ
  pub behind : List ℕ
  pub is_first : count b before ≡ 0
  pub parts : text ≡ before ++ b ∷ behind

Split-cons : (b c : ℕ) (s : List ℕ) → c == b ≡ false → Split b s → Split b (c ∷ s)
Split-cons b c s e split = record {
  before = c ∷ split.before;
  behind = split.behind;
  is_first = ground (arith, split.is_first);
  parts = ap (◌∷◌ c) split.parts;
}

Split-here : (b c : ℕ) (s : List ℕ) → c == b ≡ true → Split b (c ∷ s)
Split-here b c s e = record { before = []; behind = s; is_first = refl; parts = ground arith }

Split-next :
    (b c : ℕ) (s : List ℕ) (test : Bool)
    → c == b ≡ test
    → (count b s ≡ 0) ⊎ Split b s
    → (count b (c ∷ s) ≡ 0) ⊎ Split b (c ∷ s)
Split-next b c s true e rest = inr (Split-here b c s e)
Split-next b c s false e (inl h) = inl (ground arith)
Split-next b c s false e (inr split) = inr (Split-cons b c s e split)

pub find_byte-Split : (b : ℕ) (s : List ℕ) → (count b s ≡ 0) ⊎ Split b s
find_byte-Split b [] = inl refl
find_byte-Split b (c ∷ s) = Split-next b c s (c == b) refl (find_byte-Split b s)

pub erase-append : (s t : List ℕ) (k : ℕ) → erase (s ++ t) (length s) k ≡ s ++ drop k t
erase-append s t k = rw (take-append s t, drop-append s t) refl

pub drop-append_more : (s t : List ℕ) (k : ℕ) → drop (length s + k) (s ++ t) ≡ drop k t
drop-append_more [] t k = ap (λ (n : ℕ). drop n t) (omega arith)
drop-append_more (c ∷ s) t k =
    let sum : suc (length s) + k ≡ suc (length s + k) = omega arith in
    rw sum (drop-append_more s t k)

pub insert-append : (s t u : List ℕ) → insert (s ++ t) (length s) u ≡ s ++ (u ++ t)
insert-append s t u = rw (take-append s t, drop-append s t) refl

-- A part of a text behind a prefix.
pub substr-append :
    (s t : List ℕ) (c n k : ℕ) → n ≡ length s + 1 → substr (s ++ c ∷ t) n k ≡ ok (take k t)
substr-append s t c n k e =
    let shown : length (s ++ c ∷ t) ≡ length s + suc (length t) = length-append s (c ∷ t) in
    let behind : drop n (s ++ c ∷ t) ≡ t = rw e (drop-append_more s (c ∷ t) 1) in
    rw behind (ground (arith, shown, e))
