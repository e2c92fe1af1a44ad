-- ===== src/Script/Removal/Supported.antt =====
-- `removeUnsupportedFunctions` of src/script_client.cpp agrees with the script cut line by line.
use ur_rtde_fork_custom.Base.{
  ℕ, zero, suc, ◌<◌, ◌≡◌, refl, ap, ◌∙◌, Bool, true, false, List, [], ◌∷◌, ◌++◌, some,
  if◌then◌else◌, arith, append_assoc, sym,
}
use ur_rtde_fork_custom.Base.Outcome.{ok}
use ur_rtde_fork_custom.Utility.Text.Edit.{count, count-append}
use ur_rtde_fork_custom.Script.Removal.{Version, remove, next_round, remove_unsupported_functions}
use ur_rtde_fork_custom.Script.Removal.Tags.{Tag, since, since_or, tag_text, count-tag_text}
use ur_rtde_fork_custom.Script.Removal.Rounds.{remove_round-none}
use ur_rtde_fork_custom.Script.Removal.Lines.{
  Line, plain, tagged, AreLines, source, supported_source, is_supported, blanks, tags, round-tagged,
}

count-blanks : (t : Tag) → count b'$' (blanks t) ≡ 0
count-blanks (since m n) = refl
count-blanks (since_or m n k l) = refl

-- What a supported line puts before the rest of the script.
abbrev shown : Bool → Tag → List ℕ → List ℕ
shown true t body = blanks t ++ (body ++ b'\n' ∷ [])
shown false t body = []

shown-append :
    (supported : Bool) (t : Tag) (body rest : List ℕ)
    → (if supported then blanks t ++ (body ++ b'\n' ∷ rest) else rest)
      ≡ shown supported t body ++ rest
shown-append true t body rest =
    ap (λ s. blanks t ++ s) (sym (append_assoc body (b'\n' ∷ []) rest))
    ∙ sym (append_assoc (blanks t) (body ++ b'\n' ∷ []) rest)
shown-append false t body rest = refl

count-shown :
    (supported : Bool) (t : Tag) (body : List ℕ)
    → count b'$' body ≡ 0
    → count b'$' (shown supported t body) ≡ 0
count-shown true t body h = omega (
  arith,
  count-append b'$' (blanks t) (body ++ b'\n' ∷ []),
  count-blanks t,
  count-append b'$' body (b'\n' ∷ []),
  h,
)
count-shown false t body h = refl

-- The loop from a prefix that it has gone through.
remove-lines_from :
    (ls : List Line) (v : Version) (p : List ℕ) (rounds : ℕ)
    → 0 < v.major
    → count b'$' p ≡ 0
    → AreLines ls
    → tags ls < rounds
    → remove rounds v (p ++ source ls) ≡ some (ok (true, p ++ supported_source v ls))
unfolding remove
remove-lines_from ls v p zero positive f h enough = absurd (omega arith)
remove-lines_from [] v p (suc rounds) positive f h enough =
    rw (remove_round-none v (p ++ []) (omega (arith, count-append b'$' p [], f))) refl
remove-lines_from (plain s ∷ ls) v p (suc rounds) positive f (is_line, h) enough =
    let passed : (rest : List ℕ) → (p ++ (s ++ b'\n' ∷ [])) ++ rest ≡ p ++ (s ++ b'\n' ∷ rest) =
      (λ rest.
        append_assoc p (s ++ b'\n' ∷ []) rest
        ∙ ap (λ t. p ++ t) (append_assoc s (b'\n' ∷ []) rest)) in
    ap (remove (suc rounds) v) (sym (passed (source ls)))
    ∙ remove-lines_from ls v (p ++ (s ++ b'\n' ∷ [])) (suc rounds) positive
        (omega (
          arith,
          count-append b'$' p (s ++ b'\n' ∷ []),
          count-append b'$' s (b'\n' ∷ []),
          f,
          is_line,
        ))
        h enough
    ∙ ap (λ t. some (ok (true, t))) (passed (supported_source v ls))
remove-lines_from (tagged before t body ∷ ls) v p (suc rounds) positive f (is_line, h) enough =
    let front : count b'$' (p ++ before) ≡ 0 =
      omega (arith, count-append b'$' p before, f, is_line.0) in
    let kept : List ℕ = shown (is_supported v t) t body in
    let passed : (rest : List ℕ)
        → ((p ++ before) ++ kept) ++ rest
          ≡ p
            ++ (before ++ (if is_supported v t then blanks t ++ (body ++ b'\n' ∷ rest) else rest)) =
      (λ rest.
        append_assoc (p ++ before) kept rest
        ∙ ap (λ s. (p ++ before) ++ s) (sym (shown-append (is_supported v t) t body rest))
        ∙ append_assoc p before _) in
    ap (remove (suc rounds) v)
      (sym (append_assoc p before (b'$' ∷ (tag_text t ++ (body ++ b'\n' ∷ source ls)))))
    ∙ ap
        (next_round (remove rounds v)
          ((p ++ before) ++ b'$' ∷ (tag_text t ++ (body ++ b'\n' ∷ source ls))))
        (round-tagged v (p ++ before) t body (source ls) positive front
          (refl, is_line.1, is_line.2, is_line.3, is_line.4))
    ∙ ap (remove rounds v) (append_assoc p before _ ∙ sym (passed (source ls)))
    ∙ remove-lines_from ls v ((p ++ before) ++ kept) rounds positive
        (omega (
          arith,
          count-append b'$' (p ++ before) kept,
          front,
          count-shown (is_supported v t) t body is_line.1,
        ))
        h (omega arith)
    ∙ ap (λ s. some (ok (true, s))) (passed (supported_source v ls))

count-source : (ls : List Line) → AreLines ls → count b'$' (source ls) ≡ tags ls
count-source [] h = refl
count-source (plain s ∷ ls) (is_line, h) =
    omega (arith, count-append b'$' s (b'\n' ∷ source ls), count-source ls h, is_line)
count-source (tagged before t body ∷ ls) (is_line, h) =
    let behind : List ℕ = body ++ b'\n' ∷ source ls in
    omega (
      arith,
      count-append b'$' before (b'$' ∷ (tag_text t ++ behind)),
      count-append b'$' (tag_text t) behind,
      count-append b'$' body (b'\n' ∷ source ls),
      count-tag_text b'$' t (omega arith) (omega arith) is_line.3,
      count-source ls h,
      is_line.0,
      is_line.1,
    )

-- Of a script made of such lines the controller is left exactly what it supports, whatever the order of
-- the lines and the versions in the tags: a line without a tag as it is, a supported one with blanks in
-- place of the tag, and nothing of another one but what stands before its tag. Condition: the
-- controller's major version is not 0.
pub remove_unsupported_functions-source :
    (v : Version) (ls : List Line)
    → 0 < v.major
    → AreLines ls
    → remove_unsupported_functions v (source ls) ≡ ok (true, supported_source v ls)
unfolding remove_unsupported_functions
remove_unsupported_functions-source v ls positive h =
    rw
      (
        remove_unsupported_functions,
        remove-lines_from ls v [] (suc (count b'$' (source ls))) positive refl h
            (omega (arith, count-source ls h)),
      )
      refl
