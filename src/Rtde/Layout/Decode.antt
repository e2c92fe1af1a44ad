-- ===== src/Rtde/Layout/Decode.antt =====
-- How `decode` reads what the packers of rtde_utility.h write.
use mathlib.Core.Option
use ur_rtde_fork_custom.Base.{
  ℕ, zero, suc, ◌≡◌, refl, ◌∙◌, List, [], ◌∷◌, ◌++◌, Option, none, some, All, length, replicate,
  arith, append_assoc, append-nil, is_empty, not,
}
use ur_rtde_fork_custom.Utility.{
  pack_int32, pack_uint32, pack_double, pack_vector_nd, pack_vector_n_int32,
}
use ur_rtde_fork_custom.Utility.RoundTrip.{
  IsWord32, IsWord64, pack_vector_nd-cons, pack_vector_n_int32-cons,
}
use ur_rtde_fork_custom.Rtde.Send.{append_if}
use ur_rtde_fork_custom.Rtde.Layout.{WireType, int32, uint32, uint8, double, decode}

-- Values in front of what the rest decodes to.
abbrev pub prefix : List ℕ → Option (List ℕ) → Option (List ℕ)
prefix vs r = Option.map (◌++◌ vs) r

keep_value : {a b : ℕ} (r : Option (List ℕ)) → a ≡ b → Option.map (◌∷◌ a) r ≡ Option.map (◌∷◌ b) r
keep_value r e = rw e

module _ (ts : List WireType) (rest : List ℕ) where
  pub decode-pack_int32 :
      (w : ℕ)
      → IsWord32 w
      → decode (int32 ∷ ts) (pack_int32 w ++ rest) ≡ Option.map (◌∷◌ w) (decode ts rest)
  unfolding decode pack_int32
  decode-pack_int32 w h = keep_value (decode ts rest) (omega arith)

  pub decode-pack_uint32 :
      (w : ℕ)
      → IsWord32 w
      → decode (uint32 ∷ ts) (pack_int32 w ++ rest) ≡ Option.map (◌∷◌ w) (decode ts rest)
  unfolding decode pack_int32
  decode-pack_uint32 w h = keep_value (decode ts rest) (omega arith)

  decode-steps :
      (w : ℕ)
      → IsWord32 w
      → decode (int32 ∷ ts) (pack_uint32 w ++ rest) ≡ Option.map (◌∷◌ w) (decode ts rest)
  unfolding decode pack_uint32
  decode-steps w h = keep_value (decode ts rest) (omega arith)

  pub decode-pack_double :
      (w : ℕ)
      → IsWord64 w
      → decode (double ∷ ts) (pack_double w ++ rest) ≡ Option.map (◌∷◌ w) (decode ts rest)
  unfolding decode pack_double
  decode-pack_double w h = keep_value (decode ts rest) (omega arith)

  pub decode-uint8 : (b : ℕ) → decode (uint8 ∷ ts) (b ∷ rest) ≡ Option.map (◌∷◌ b) (decode ts rest)
  unfolding decode
  decode-uint8 b = keep_value (decode ts rest) (omega arith)

pub decode_nil : decode [] [] ≡ some []
unfolding decode
decode_nil = refl

-- The last field of a package has no bytes behind it.
pub decode_last-pack_int32 :
    (w : ℕ) → IsWord32 w → decode (int32 ∷ []) (pack_int32 w) ≡ some (w ∷ [])
decode_last-pack_int32 w h = rw (append-nil) at (decode-pack_int32 [] [] w h) ∙ rw decode_nil

pub decode_last-steps : (w : ℕ) → IsWord32 w → decode (int32 ∷ []) (pack_uint32 w) ≡ some (w ∷ [])
decode_last-steps w h = rw (append-nil) at (decode-steps [] [] w h) ∙ rw decode_nil

pub decode_last-pack_double :
    (w : ℕ) → IsWord64 w → decode (double ∷ []) (pack_double w) ≡ some (w ∷ [])
decode_last-pack_double w h = rw (append-nil) at (decode-pack_double [] [] w h) ∙ rw decode_nil

map-prefix :
    (v : ℕ) (vs : List ℕ) (r : Option (List ℕ))
    → Option.map (◌∷◌ v) (prefix vs r) ≡ prefix (v ∷ vs) r
map-prefix v vs none = refl
map-prefix v vs (some x) = refl

prefix_nil : (r : Option (List ℕ)) → r ≡ prefix [] r
prefix_nil none = refl
prefix_nil (some x) = refl

module _ (ts : List WireType) (rest : List ℕ) where
  -- A vector of doubles decodes to its elements, where the recipe has as many doubles.
  pub decode-pack_vector_nd :
      (vs : List ℕ) (n : ℕ)
      → length vs ≡ n
      → All IsWord64 vs
      → decode (replicate n double ++ ts) (pack_vector_nd vs ++ rest) ≡ prefix vs (decode ts rest)
  decode-pack_vector_nd [] zero e h = unfold pack_vector_nd in prefix_nil (decode ts rest)
  decode-pack_vector_nd [] (suc n) e h = absurd (omega arith)
  decode-pack_vector_nd (v ∷ vs) zero e h = absurd (omega arith)
  decode-pack_vector_nd (v ∷ vs) (suc n) e (hv, h) =
      rw (pack_vector_nd-cons v vs, append_assoc (pack_double v) (pack_vector_nd vs) rest)
        (decode-pack_double (replicate n double ++ ts) (pack_vector_nd vs ++ rest) v hv
          ∙ rw (decode-pack_vector_nd vs n (omega arith) h) (map-prefix v vs (decode ts rest)))

  -- The same of a vector of integers.
  pub decode-pack_vector_n_int32 :
      (vs : List ℕ) (n : ℕ)
      → length vs ≡ n
      → All IsWord32 vs
      → decode (replicate n int32 ++ ts) (pack_vector_n_int32 vs ++ rest)
        ≡ prefix vs (decode ts rest)
  decode-pack_vector_n_int32 [] zero e h = unfold pack_vector_n_int32 in prefix_nil (decode ts rest)
  decode-pack_vector_n_int32 [] (suc n) e h = absurd (omega arith)
  decode-pack_vector_n_int32 (v ∷ vs) zero e h = absurd (omega arith)
  decode-pack_vector_n_int32 (v ∷ vs) (suc n) e (hv, h) =
      rw (pack_vector_n_int32-cons v vs, append_assoc (pack_int32 v) (pack_vector_n_int32 vs) rest)
        (decode-pack_int32 (replicate n int32 ++ ts) (pack_vector_n_int32 vs ++ rest) v hv
          ∙ rw (decode-pack_vector_n_int32 vs n (omega arith) h) (map-prefix v vs (decode ts rest)))

pub decode_last-pack_vector_nd :
    (vs : List ℕ) (n : ℕ)
    → length vs ≡ n
    → All IsWord64 vs
    → decode (replicate n double) (pack_vector_nd vs) ≡ some vs
decode_last-pack_vector_nd vs n e h =
    simp (append-nil, decode_nil) at (decode-pack_vector_nd [] [] vs n e h)

pub pack_vector_nd_nil : pack_vector_nd [] ≡ []
unfolding pack_vector_nd
pack_vector_nd_nil = refl

-- A vector that is too short for the recipe is no package.
pub decode_short-pack_vector_nd :
    (vs : List ℕ) (m n : ℕ)
    → length vs ≡ m
    → All IsWord64 vs
    → decode (replicate m double ++ replicate (suc n) double) (pack_vector_nd vs) ≡ none
decode_short-pack_vector_nd vs m n e h =
    rw append-nil at (decode-pack_vector_nd (replicate (suc n) double) [] vs m e h)
    ∙ unfold decode in refl

-- An empty vector packs to no bytes, so the test for it makes no difference.
pub append_if-vals :
    (vs p : List ℕ) → append_if (not (is_empty vs)) (pack_vector_nd vs) p ≡ p ++ pack_vector_nd vs
unfolding pack_vector_nd
append_if-vals [] p = rw append-nil
append_if-vals (v ∷ vs) p = refl
