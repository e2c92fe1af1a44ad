-- ===== src/Script/Removal/Defined.antt =====
-- Reading a tag in src/script_client.cpp is defined for every text: it returns or throws.
use ur_rtde_fork_custom.Base.{
  ℕ, Bool, true, false, List, [], ◌∷◌, ◌||◌, is_empty, get_elem?, same_text, codes, Option, none,
  some, ◌==◌, if◌then◌else◌, arith,
}
use ur_rtde_fork_custom.Base.Outcome.{Outcome, ok, IsDefined, IsDefined-bind}
use ur_rtde_fork_custom.Utility.Text.Stoi.{stoi}
use ur_rtde_fork_custom.Utility.Text.Edit.{in_range, at, substr}
use ur_rtde_fork_custom.Script.Removal.{read_needed, version_number, read_extra, read_numbers}

stoi-IsDefined : (s : List ℕ) → IsDefined (stoi s)
unfolding stoi
stoi-IsDefined [] = tt
stoi-IsDefined (c ∷ s) = ground (arith, stoi-IsDefined s)

version_number-IsDefined : (s : List ℕ) → IsDefined (version_number s)
version_number-IsDefined s = IsDefined-bind (stoi s) _ (stoi-IsDefined s) (λ _. tt)

in_range-IsDefined : (c : Option ℕ) → IsDefined (in_range c)
in_range-IsDefined none = tt
in_range-IsDefined (some c) = tt

substr-IsDefined : (s : List ℕ) (n k : ℕ) → IsDefined (substr s n k)
substr-IsDefined s n k = ground arith

read_extra-IsDefined : (m n e : ℕ) (s : List ℕ) → IsDefined (read_extra m n e s)
read_extra-IsDefined m n e s =
    IsDefined-bind (version_number (e ∷ [])) _ (version_number-IsDefined (e ∷ [])) (λ extra.
      IsDefined-bind (if is_empty s then ok 0 else version_number s) _ (minor s) (λ _. tt))
  where
    minor : (s : List ℕ) → IsDefined (if is_empty s then ok 0 else version_number s)
    minor [] = tt
    minor (c ∷ s) = version_number-IsDefined (c ∷ s)

IsDefined-if :
    {A : Type 0} (b : Bool) (x y : Outcome A)
    → IsDefined x
    → IsDefined y
    → IsDefined (if b then x else y)
IsDefined-if true x y h k = h
IsDefined-if false x y h k = k

read_numbers-IsDefined :
    (text : List ℕ) (m : ℕ) (n : List ℕ) (e : ℕ) (s : List ℕ)
    → IsDefined (read_numbers text m n e s)
read_numbers-IsDefined text m n e s =
    IsDefined-bind (version_number (m ∷ [])) _ (version_number-IsDefined (m ∷ [])) (λ major.
      IsDefined-bind (version_number n) _ (version_number-IsDefined n) (λ minor.
        IsDefined-bind (at text 4) _ (in_range-IsDefined (get_elem? text 4))
          (λ bar. IsDefined-if (bar == b'|') _ _ (read_extra-IsDefined major minor e s) tt)))

pub read_needed-IsDefined : (text : List ℕ) → IsDefined (read_needed text)
unfolding read_needed
read_needed-IsDefined text =
    IsDefined-bind (at text 0) _ (in_range-IsDefined (get_elem? text 0)) (λ major.
      IsDefined-bind (substr text 2 4) _ (substr-IsDefined text 2 4) (λ minor.
        IsDefined-bind (at text 5) _ (in_range-IsDefined (get_elem? text 5)) (λ extra.
          IsDefined-bind (substr text 7 2) _ (substr-IsDefined text 7 2) (λ extra_minor.
            IsDefined-if (is_empty minor || major == b' ' || same_text minor (codes " ")) _ _ tt
              (read_numbers-IsDefined text major minor extra extra_minor)))))
