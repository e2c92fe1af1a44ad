-- ===== src/Rtde/Stream/Encode.antt =====
-- A value in a data package, as the controller writes it and `receiveData` reads it.
use ur_rtde_fork_custom.Base.{ℕ, ◌+◌, ◌^◌, ◌<◌, ◌≡◌, refl, true, false, List, ◌++◌, length, All}
use ur_rtde_fork_custom.Base.Outcome.{ok}
use ur_rtde_fork_custom.Utility.{
  pack_uint32, pack_int32, pack_double, pack_vector_nd, pack_vector_n_int32, unpack_vector3d,
  unpack_vector6d, unpack_vector6_int32, read_vector, get_double, get_int32,
}
use ur_rtde_fork_custom.Utility.RoundTrip.{
  IsWord32, IsWord64, get_int32-pack_int32, get_uint32-pack_uint32, get_uint64-pack_double,
  get_double-pack_double, read_vector-pack_vector_nd, read_vector-pack_vector_n_int32,
  length-pack_vector_nd, length-pack_vector_n_int32,
}
use ur_rtde_fork_custom.Rtde.StateTypes.{
  Variant, uint32, uint64, int32, double, vector_double, vector_int32,
}
use ur_rtde_fork_custom.Rtde.Stream.{is_vector3, read_variable}

-- How the controller writes a value.
abbrev pub encode : Variant → List ℕ
encode (uint32 v) = pack_uint32 v
encode (uint64 v) = pack_double v
encode (int32 v) = pack_int32 v
encode (double v) = pack_double v
encode (vector_double vs) = pack_vector_nd vs
encode (vector_int32 is) = pack_vector_n_int32 is

-- A value of the variable `name`, whose entry in the table of types is given.
pub data Fits (name : List ℕ) : Variant → Variant → Type 0 where
  word32 : {d v : ℕ} → IsWord32 v → Fits name (uint32 d) (uint32 v)
  word64 : {d v : ℕ} → IsWord64 v → Fits name (uint64 d) (uint64 v)
  signed32 : {d v : ℕ} → IsWord32 v → Fits name (int32 d) (int32 v)
  number : {d v : ℕ} → IsWord64 v → Fits name (double d) (double v)
  vector3 :
      {ds vs : List ℕ}
      → is_vector3 name ≡ true
      → length vs ≡ 3
      → All IsWord64 vs
      → Fits name (vector_double ds) (vector_double vs)
  vector6 :
      {ds vs : List ℕ}
      → is_vector3 name ≡ false
      → length vs ≡ 6
      → All IsWord64 vs
      → Fits name (vector_double ds) (vector_double vs)
  integers6 :
      {js is : List ℕ}
      → length is ≡ 6
      → All IsWord32 is
      → Fits name (vector_int32 js) (vector_int32 is)

module _ (name front back : List ℕ) where
  read_vectors :
      (vs : List ℕ) (n : ℕ)
      → length vs ≡ n
      → All IsWord64 vs
      → length front + length (pack_vector_nd vs) < 2 ^ 32
      → read_vector get_double n (front ++ (pack_vector_nd vs ++ back)) (length front)
        ≡ ok (vs, length front + length (pack_vector_nd vs))
  read_vectors vs n hl h fits =
      rw (← hl, length-pack_vector_nd vs)
        (read_vector-pack_vector_nd vs front back h (rw (length-pack_vector_nd vs) at fits))

  read_integers :
      (is : List ℕ) (n : ℕ)
      → length is ≡ n
      → All IsWord32 is
      → length front + length (pack_vector_n_int32 is) < 2 ^ 32
      → read_vector get_int32 n (front ++ (pack_vector_n_int32 is ++ back)) (length front)
        ≡ ok (is, length front + length (pack_vector_n_int32 is))
  read_integers is n hl h fits =
      rw (← hl, length-pack_vector_n_int32 is)
        (read_vector-pack_vector_n_int32 is front back h
          (rw (length-pack_vector_n_int32 is) at fits))

  pub read_variable-encode :
      (entry v : Variant)
      → Fits name entry v
      → length front + length (encode v) < 2 ^ 32
      → read_variable entry name (front ++ (encode v ++ back)) (length front)
        ≡ ok (v, length front + length (encode v))
  unfolding read_variable pack_uint32 pack_int32 pack_double unpack_vector3d unpack_vector6d
      unpack_vector6_int32
  read_variable-encode _ _ (word32 {v = v} h) fits =
      rw (get_uint32-pack_uint32 front back v h fits) refl
  read_variable-encode _ _ (word64 {v = v} h) fits =
      rw (get_uint64-pack_double front back v h fits) refl
  read_variable-encode _ _ (signed32 {v = v} h) fits =
      rw (get_int32-pack_int32 front back v h fits) refl
  read_variable-encode _ _ (number {v = v} h) fits =
      rw (get_double-pack_double front back v h fits) refl
  read_variable-encode _ _ (vector3 {vs = vs} e hl h) fits =
      rw (e, read_vectors vs 3 hl h fits) refl
  read_variable-encode _ _ (vector6 {vs = vs} e hl h) fits =
      rw (e, read_vectors vs 6 hl h fits) refl
  read_variable-encode _ _ (integers6 {is = is} hl h) fits = rw (read_integers is 6 hl h fits) refl
