-- ===== src/Utility/Text/Split.antt =====
-- `RTDEUtility::split` and the lists of names that the client writes.
use ur_rtde_fork_custom.Base.{ℕ, ◌≡◌, refl, ◌≢◌, ap, List, [], ◌∷◌, ◌++◌, arith, All}
use ur_rtde_fork_custom.Utility.Text.{split}

-- Every name followed by a delimiter, as `sendInputSetup` and `sendOutputSetup` build their texts.
abbrev pub terminate_each : List (List ℕ) → ℕ → List ℕ
terminate_each [] delimiter = []
terminate_each (name ∷ names) delimiter = name ++ delimiter ∷ terminate_each names delimiter

split_name :
    (name rest : List ℕ) (delimiter : ℕ)
    → All (λ c. c ≢ delimiter) name
    → split (name ++ delimiter ∷ rest) delimiter ≡ name ∷ split rest delimiter
unfolding split
split_name [] rest delimiter h = ground arith
split_name (c ∷ name) rest delimiter (hc, h) = ground (arith, split_name name rest delimiter h)

-- Splitting a text of terminated names gives the names back, empty ones included, if no name holds
-- the delimiter.
pub split-terminate_each :
    (names : List (List ℕ)) (delimiter : ℕ)
    → All (All (λ c. c ≢ delimiter)) names
    → split (terminate_each names delimiter) delimiter ≡ names
split-terminate_each [] delimiter h = unfold split in refl
split-terminate_each (name ∷ names) delimiter (hn, h) =
    rw (split_name name (terminate_each names delimiter) delimiter hn)
      (ap (◌∷◌ name) (split-terminate_each names delimiter h))
