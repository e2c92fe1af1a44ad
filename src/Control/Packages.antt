-- ===== src/Control/Packages.antt =====
-- What the controller receives from the commands of src/rtde_control_interface.cpp, read by the input
-- recipes that `setupRecipes` registers: the shapes that the commands share.
pub mod Moves
pub mod Streams
pub mod Modes
pub mod Questions
use ur_rtde_fork_custom.Base.{
  ℕ, suc, ◌+◌, ◌<◌, ◌≡◌, refl, ap, ◌∙◌, List, [], ◌∷◌, ◌++◌, Option, none, some, All, All-append,
  length, length-append, replicate, arith, append-nil, append_assoc,
}
use ur_rtde_fork_custom.Utility.{pack_int32, pack_vector_nd, pack_vector_n_int32}
use ur_rtde_fork_custom.Utility.RoundTrip.{IsWord32, IsWord64}
use ur_rtde_fork_custom.Rtde.Layout.{int32, double, decode}
use ur_rtde_fork_custom.Rtde.Layout.Decode.{
  decode-pack_int32, decode_last-pack_int32, decode-pack_vector_nd, decode_last-pack_vector_nd,
  decode-pack_vector_n_int32,
}

-- A vector argument of the documented length, of doubles.
abbrev pub IsVector : ℕ → List ℕ → Type 0
IsVector n vs = (length vs ≡ n) × All IsWord64 vs

pub IsVector-append :
    (m n : ℕ) (vs ws : List ℕ) → IsVector m vs → IsVector n ws → IsVector (m + n) (vs ++ ws)
IsVector-append m n vs ws v w =
    (omega (arith, length-append vs ws), All-append IsWord64 vs ws v.1 w.1)

-- The command number and a vector.
pub decode_vals :
    (code n : ℕ) (vs : List ℕ)
    → IsWord32 code
    → IsVector n vs
    → decode (int32 ∷ replicate n double) (pack_int32 code ++ pack_vector_nd vs) ≡ some (code ∷ vs)
decode_vals code n vs h v =
    decode-pack_int32 (replicate n double) (pack_vector_nd vs) code h
    ∙ rw (decode_last-pack_vector_nd vs n v.0 v.1)

-- The command number, a vector and the flag for asynchronous execution.
pub decode_vals_async :
    (code n async : ℕ) (vs : List ℕ)
    → IsWord32 code
    → IsWord32 async
    → IsVector n vs
    → decode
        (int32 ∷ (replicate n double ++ int32 ∷ []))
        ((pack_int32 code ++ pack_vector_nd vs) ++ pack_int32 async)
      ≡ some (code ∷ (vs ++ async ∷ []))
decode_vals_async code n async vs h ha v =
    rw (append_assoc (pack_int32 code) (pack_vector_nd vs) (pack_int32 async)) (
      decode-pack_int32 (replicate n double ++ int32 ∷ []) (pack_vector_nd vs ++ pack_int32 async)
        code h
      ∙ rw (
        decode-pack_vector_nd (int32 ∷ []) (pack_int32 async) vs n v.0 v.1,
        decode_last-pack_int32 async ha,
      ))

-- The command number, a vector of integers and a vector of doubles.
pub decode_ints_vals :
    (code m n : ℕ) (is vs : List ℕ)
    → IsWord32 code
    → length is ≡ m
    → All IsWord32 is
    → IsVector n vs
    → decode
        (int32 ∷ (replicate m int32 ++ replicate n double))
        ((pack_int32 code ++ pack_vector_n_int32 is) ++ pack_vector_nd vs)
      ≡ some (code ∷ (is ++ vs))
decode_ints_vals code m n is vs h hl hi v =
    rw (append_assoc (pack_int32 code) (pack_vector_n_int32 is) (pack_vector_nd vs)) (
      decode-pack_int32 (replicate m int32 ++ replicate n double)
        (pack_vector_n_int32 is ++ pack_vector_nd vs) code h
      ∙ rw (
        decode-pack_vector_n_int32 (replicate n double) (pack_vector_nd vs) is m hl hi,
        decode_last-pack_vector_nd vs n v.0 v.1,
      ))

-- The command number, the integer of `extra`, and a vector.
pub decode_flag_vals :
    (code n flag : ℕ) (vs : List ℕ)
    → IsWord32 code
    → IsWord32 flag
    → IsVector n vs
    → decode
        (int32 ∷ int32 ∷ replicate n double)
        ((pack_int32 code ++ pack_int32 flag) ++ pack_vector_nd vs)
      ≡ some (code ∷ flag ∷ vs)
decode_flag_vals code n flag vs h hf v =
    rw (append_assoc (pack_int32 code) (pack_int32 flag) (pack_vector_nd vs)) (
      decode-pack_int32 (int32 ∷ replicate n double) (pack_int32 flag ++ pack_vector_nd vs) code h
      ∙ rw (
        decode-pack_int32 (replicate n double) (pack_vector_nd vs) flag hf,
        decode_last-pack_vector_nd vs n v.0 v.1,
      ))
