-- ===== src/Script/Injection/Scan.antt =====
-- `scanAndInjectAdditionalScriptCode` of src/script_client.cpp puts the code behind the first occurrence
-- of its search string.
use ur_rtde_fork_custom.Base.{
  ℕ, zero, suc, ◌+◌, ◌≤◌, ◌≡◌, ◌≢◌, refl, sym, ap, ◌∙◌, Bool, true, false, List, [], ◌∷◌, ◌++◌,
  Option, none, some, if◌then◌else◌, take, drop, ◌<◌, ◌^◌, length, length-append, append_assoc,
  arith,
}
use ur_rtde_fork_custom.Base.Outcome.{ok, throws, out_of_range, ◌>>=◌}
use ur_rtde_fork_custom.Utility.Text.Find.{starts_with}
use ur_rtde_fork_custom.Utility.Text.Edit.{find_text, insert, insert-append, shift}
use ur_rtde_fork_custom.Script.Injection.{ScriptInjectItem, inject_at, scan_and_inject}

starts_with-append : (needle after : List ℕ) → starts_with needle (needle ++ after) ≡ true
starts_with-append [] after = refl
starts_with-append (c ∷ needle) after = ground (arith, starts_with-append needle after)

starts_with-splits :
    (needle text : List ℕ)
    → starts_with needle text ≡ true
    → text ≡ needle ++ drop (length needle) text
starts_with-splits [] text h = refl
starts_with-splits (c ∷ needle) [] h = ground arith
starts_with-splits (c ∷ needle) (d ∷ text) h =
    let rest : starts_with needle text ≡ true = ground arith in
    let same : d ≡ c = ground arith in rw same (ap (◌∷◌ c) (starts_with-splits needle text rest))

-- No occurrence of the text starts before `n`.
abbrev pub IsFirst : List ℕ → List ℕ → ℕ → Type 0
IsFirst needle text n = (b a : List ℕ) → text ≡ b ++ (needle ++ a) → n ≤ length b

abbrev pub Lacks : List ℕ → List ℕ → Type 0
Lacks needle text = (b a : List ℕ) → text ≢ b ++ (needle ++ a)

pub record Occurs (needle text : List ℕ) (n : ℕ) : Type 0 where
  pub before : List ℕ
  pub after : List ℕ
  pub parts : text ≡ before ++ (needle ++ after)
  pub position : length before ≡ n
  pub is_first : IsFirst needle text n

-- What the position that `find` returns means.
abbrev Finds : List ℕ → List ℕ → Option ℕ → Type 0
Finds needle text none = Lacks needle text
Finds needle text (some n) = Occurs needle text n

Lacks-nil : (c : ℕ) (needle : List ℕ) → Lacks (c ∷ needle) []
Lacks-nil c needle [] a = λ e. cc
Lacks-nil c needle (d ∷ b) a = λ e. cc

-- Behind a character at which the text does not stand.
module _ (needle : List ℕ) (c : ℕ) (s : List ℕ) (differs : starts_with needle (c ∷ s) ≡ false) where
  not_here : (a : List ℕ) → c ∷ s ≢ needle ++ a
  not_here a e =
      let here : starts_with needle (c ∷ s) ≡ true =
        ap (starts_with needle) e ∙ starts_with-append needle a in
      cc

  Lacks-cons : Lacks needle s → Lacks needle (c ∷ s)
  Lacks-cons h [] a = not_here a
  Lacks-cons h (d ∷ b) a = λ e. h b a (cc)

  IsFirst-cons : (n : ℕ) → IsFirst needle s n → IsFirst needle (c ∷ s) (1 + n)
  IsFirst-cons n h [] a e = absurd (not_here a e)
  IsFirst-cons n h (d ∷ b) a e = omega (arith, h b a (cc))

  Finds-shift : (found : Option ℕ) → Finds needle s found → Finds needle (c ∷ s) (shift 1 found)
  Finds-shift none h = Lacks-cons h
  Finds-shift (some n) h = record {
    before = c ∷ h.before;
    after = h.after;
    parts = ap (◌∷◌ c) h.parts;
    position = omega (arith, h.position);
    is_first = IsFirst-cons n h.is_first;
  }

Occurs-start : (needle text : List ℕ) → starts_with needle text ≡ true → Occurs needle text 0
Occurs-start needle text h = record {
  before = [];
  after = drop (length needle) text;
  parts = starts_with-splits needle text h;
  position = refl;
  is_first = λ b a e. omega arith;
}

Finds-if :
    (here : Bool) (needle : List ℕ) (c : ℕ) (s : List ℕ)
    → starts_with needle (c ∷ s) ≡ here
    → Finds needle s (find_text needle s)
    → Finds needle (c ∷ s) (if here then some 0 else shift 1 (find_text needle s))
Finds-if true needle c s e h = Occurs-start needle (c ∷ s) e
Finds-if false needle c s e h = Finds-shift needle c s e (find_text needle s) h

find_text-Finds : (needle text : List ℕ) → Finds needle text (find_text needle text)
unfolding find_text
find_text-Finds [] [] = Occurs-start [] [] refl
find_text-Finds (c ∷ needle) [] = Lacks-nil c needle
find_text-Finds [] (d ∷ s) = Finds-if true [] d s refl (find_text-Finds [] s)
find_text-Finds (c ∷ needle) (d ∷ s) =
    Finds-if (starts_with (c ∷ needle) (d ∷ s)) (c ∷ needle) d s refl
      (find_text-Finds (c ∷ needle) s)

-- The items in their order, each on the text that the ones before it have left: behind the first
-- occurrence of the search string the code is put in, and without an occurrence nothing is changed.
pub data Injected : List ScriptInjectItem → List ℕ → List ℕ → Type 0 where
  all_done : {text : List ℕ} → Injected [] text text
  skip :
      {item : ScriptInjectItem} {items : List ScriptInjectItem} {text result : List ℕ}
      → Lacks item.search_string text
      → Injected items text result
      → Injected (item ∷ items) text result
  put :
      {item : ScriptInjectItem} {items : List ScriptInjectItem} {text result : List ℕ}
      (before after : List ℕ)
      → text ≡ before ++ (item.search_string ++ after)
      → IsFirst item.search_string text (length before)
      → Injected items (before ++ (item.search_string ++ (item.inject_string ++ after))) result
      → Injected (item ∷ items) text result

insert-between :
    (before needle after code : List ℕ)
    → insert (before ++ (needle ++ after)) (length before + length needle) code
      ≡ before ++ (needle ++ (code ++ after))
insert-between before needle after code =
    rw (sym (append_assoc before needle after), sym (length-append before needle))
      (insert-append (before ++ needle) after code ∙ append_assoc before needle (code ++ after))

-- The result of one item and of those behind it.
scan-from :
    (item : ScriptInjectItem) (items : List ScriptInjectItem) (text : List ℕ) (found : Option ℕ)
    → Finds item.search_string text found
    → ((next : List ℕ)
        → (result : List ℕ) × (scan_and_inject false items next ≡ ok result)
          × Injected items next result)
    → (result : List ℕ) × ((inject_at false item text found >>= scan_and_inject false items)
        ≡ ok result)
      × Injected (item ∷ items) text result
scan-from item items text none h later =
    let (result, e, rest) = later text in (result, e, skip h rest)
scan-from item items text (some n) h later =
    let next : insert text (n + length item.search_string) item.inject_string
        ≡ h.before ++ (item.search_string ++ (item.inject_string ++ h.after)) =
      rw (h.parts, sym h.position)
        (insert-between h.before item.search_string h.after item.inject_string) in
    let (result, e, rest) =
      later (h.before ++ (item.search_string ++ (item.inject_string ++ h.after))) in
    (result, rw next e, put h.before h.after h.parts (rw h.position h.is_first) rest)

-- The scan of a client that is not verbose returns for every list of injections and every script, and
-- what it returns is the script with the items injected in their order, each behind the first
-- occurrence of its search string, if there is one.
pub scan_and_inject-Injected :
    (items : List ScriptInjectItem) (text : List ℕ)
    → (result : List ℕ) × (scan_and_inject false items text ≡ ok result)
      × Injected items text result
unfolding scan_and_inject
scan_and_inject-Injected [] text = (text, refl, all_done)
scan_and_inject-Injected (item ∷ items) text =
    scan-from item items text (find_text item.search_string text)
      (find_text-Finds item.search_string text) (scan_and_inject-Injected items)

length-take-drop : (n : ℕ) (s : List ℕ) → length (take n s) + length (drop n s) ≡ length s
length-take-drop zero s = omega arith
length-take-drop (suc n) [] = omega arith
length-take-drop (suc n) (c ∷ s) = omega (arith, length-take-drop n s)

length-insert : (s t : List ℕ) (n : ℕ) → length (insert s n t) ≡ length s + length t
length-insert s t n = omega (
  arith,
  length-append (take n s) (t ++ drop n s),
  length-append t (drop n s),
  length-take-drop n s,
)

-- A verbose client throws when the search string of its first injection is found in the first 100
-- characters, for the message subtracts 100 from the position in an unsigned type. Conditions: the
-- position is the first one, and the text with the code is shorter than 2^63.
scan_and_inject_verbose :
    (item : ScriptInjectItem) (items : List ScriptInjectItem) (text : List ℕ) (n : ℕ)
    → find_text item.search_string text ≡ some n
    → n < 100
    → length text + length item.inject_string < 2 ^ 63
    → scan_and_inject true (item ∷ items) text ≡ throws out_of_range
unfolding scan_and_inject
scan_and_inject_verbose item items text n found early short =
    let size = length-insert text item.inject_string (n + length item.search_string) in
    rw found (ground (arith, size))
