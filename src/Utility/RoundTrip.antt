-- ===== src/Utility/RoundTrip.antt =====
-- What the readers of rtde_utility.h return on the bytes that its packers write.
use ur_rtde_fork_custom.Base.{
  ℕ, suc, ◌+◌, ◌*◌, ◌^◌, ◌<◌, ◌≡◌, refl, List, [], ◌∷◌, ◌++◌, arith, ap, ◌∙◌, length, All,
  length-append, get_elem?, get_elem?-append, some, append_assoc,
}
use ur_rtde_fork_custom.Base.Outcome.{ok}
use ur_rtde_fork_custom.Utility.{
  get_uint64, pack_uint32, pack_int32, pack_vector_n_int32, pack_double, pack_vector_nd, index,
  advance, Reader, get_uint32, get_int32, get_double, read_vector, byte_of, join32, join64,
}

abbrev pub IsWord32 : ℕ → Type 0
IsWord32 w = w < 2 ^ 32

abbrev pub IsWord64 : ℕ → Type 0
IsWord64 w = w < 2 ^ 64

-- A read at the `k`th byte behind a prefix.
index-append :
    (xs ys : List ℕ) (k b : ℕ)
    → length xs + k < 2 ^ 32
    → get_elem? ys k ≡ some b
    → index (xs ++ ys) (advance (length xs) k) ≡ ok b
index-append xs ys k b h e = rw (get_elem?-append xs ys (advance (length xs) k) k (omega arith), e)

index-append_zero :
    (xs ys : List ℕ) (b : ℕ) → get_elem? ys 0 ≡ some b → index (xs ++ ys) (length xs) ≡ ok b
index-append_zero xs ys b e = rw (get_elem?-append xs ys (length xs) 0 (omega arith), e)

join32-bytes :
    (w : ℕ) → IsWord32 w → join32 (byte_of 3 w) (byte_of 2 w) (byte_of 1 w) (byte_of 0 w) ≡ w
join32-bytes w h = omega arith

join64-bytes :
    (w : ℕ)
    → IsWord64 w
    → join64
        (join32 (byte_of 7 w) (byte_of 6 w) (byte_of 5 w) (byte_of 4 w))
        (join32 (byte_of 3 w) (byte_of 2 w) (byte_of 1 w) (byte_of 0 w))
      ≡ w
join64-bytes w h = omega arith

advance_fits : (n k : ℕ) → n + k < 2 ^ 32 → advance n k ≡ n + k
advance_fits n k h = omega arith

module _ (front back : List ℕ) (w : ℕ) where
  -- `getInt32` reads back the word that `packInt32` wrote and moves the offset by four, whatever stands
  -- in front of the bytes and behind them, where the offset does not pass 2^32.
  pub get_int32-pack_int32 :
      IsWord32 w
      → length front + 4 < 2 ^ 32
      → get_int32 (front ++ (pack_int32 w ++ back)) (length front) ≡ ok (w, length front + 4)
  unfolding get_int32 pack_int32
  get_int32-pack_int32 h fits = ground (
    arith,
    index-append_zero front (pack_int32 w ++ back) (byte_of 3 w) refl,
    index-append front (pack_int32 w ++ back) 1 (byte_of 2 w),
    index-append front (pack_int32 w ++ back) 2 (byte_of 1 w),
    index-append front (pack_int32 w ++ back) 3 (byte_of 0 w),
    join32-bytes w,
    advance_fits (length front) 4,
  )

  -- The same of the unsigned pair.
  pub get_uint32-pack_uint32 :
      IsWord32 w
      → length front + 4 < 2 ^ 32
      → get_uint32 (front ++ (pack_uint32 w ++ back)) (length front) ≡ ok (w, length front + 4)
  unfolding get_uint32 pack_uint32
  get_uint32-pack_uint32 h fits = ground (
    arith,
    index-append_zero front (pack_uint32 w ++ back) (byte_of 3 w) refl,
    index-append front (pack_uint32 w ++ back) 1 (byte_of 2 w),
    index-append front (pack_uint32 w ++ back) 2 (byte_of 1 w),
    index-append front (pack_uint32 w ++ back) 3 (byte_of 0 w),
    join32-bytes w,
    advance_fits (length front) 4,
  )

  -- `getDouble` reads back the 64-bit pattern that `packDouble` wrote and moves the offset by eight, whatever
  -- stands in front of the bytes and behind them, where the offset does not pass 2^32.
  pub get_double-pack_double :
      IsWord64 w
      → length front + 8 < 2 ^ 32
      → get_double (front ++ (pack_double w ++ back)) (length front) ≡ ok (w, length front + 8)
  unfolding get_double pack_double
  get_double-pack_double h fits = rw (
    index-append_zero front (pack_double w ++ back) (byte_of 7 w) refl,
    index-append front (pack_double w ++ back) 1 (byte_of 6 w) (omega arith) refl,
    index-append front (pack_double w ++ back) 2 (byte_of 5 w) (omega arith) refl,
    index-append front (pack_double w ++ back) 3 (byte_of 4 w) (omega arith) refl,
    index-append front (pack_double w ++ back) 4 (byte_of 3 w) (omega arith) refl,
    index-append front (pack_double w ++ back) 5 (byte_of 2 w) (omega arith) refl,
    index-append front (pack_double w ++ back) 6 (byte_of 1 w) (omega arith) refl,
    index-append front (pack_double w ++ back) 7 (byte_of 0 w) (omega arith) refl,
    join64-bytes w h,
    advance_fits (length front) 8 fits,
  )

module _ (front back : List ℕ) (w : ℕ) where
  -- A 64-bit number has the bytes of the double of that bit pattern.
  pub get_uint64-pack_double :
      IsWord64 w
      → length front + 8 < 2 ^ 32
      → get_uint64 (front ++ (pack_double w ++ back)) (length front) ≡ ok (w, length front + 8)
  unfolding get_uint64 pack_double
  get_uint64-pack_double h fits = rw (
    index-append_zero front (pack_double w ++ back) (byte_of 7 w) refl,
    index-append front (pack_double w ++ back) 1 (byte_of 6 w) (omega arith) refl,
    index-append front (pack_double w ++ back) 2 (byte_of 5 w) (omega arith) refl,
    index-append front (pack_double w ++ back) 3 (byte_of 4 w) (omega arith) refl,
    index-append front (pack_double w ++ back) 4 (byte_of 3 w) (omega arith) refl,
    index-append front (pack_double w ++ back) 5 (byte_of 2 w) (omega arith) refl,
    index-append front (pack_double w ++ back) 6 (byte_of 1 w) (omega arith) refl,
    index-append front (pack_double w ++ back) 7 (byte_of 0 w) (omega arith) refl,
    join64-bytes w h,
    advance_fits (length front) 8 fits,
  )

length-pack_double : (w : ℕ) → length (pack_double w) ≡ 8
unfolding pack_double
length-pack_double w = refl

length-pack_int32 : (w : ℕ) → length (pack_int32 w) ≡ 4
unfolding pack_int32
length-pack_int32 w = refl

pub pack_vector_nd-cons :
    (d : ℕ) (ds : List ℕ) → pack_vector_nd (d ∷ ds) ≡ pack_double d ++ pack_vector_nd ds
unfolding pack_vector_nd pack_double
pack_vector_nd-cons d ds = refl

pub pack_vector_n_int32-cons :
    (i : ℕ) (is : List ℕ) → pack_vector_n_int32 (i ∷ is) ≡ pack_int32 i ++ pack_vector_n_int32 is
unfolding pack_vector_n_int32 pack_int32
pack_vector_n_int32-cons i is = refl

pub length-pack_vector_nd : (ds : List ℕ) → length (pack_vector_nd ds) ≡ 8 * length ds
length-pack_vector_nd [] = unfold pack_vector_nd in omega arith
length-pack_vector_nd (d ∷ ds) = rw (pack_vector_nd-cons d ds) (
    omega (
      arith,
      length-append (pack_double d) (pack_vector_nd ds),
      length-pack_double d,
      length-pack_vector_nd ds,
    ))

pub length-pack_vector_n_int32 : (is : List ℕ) → length (pack_vector_n_int32 is) ≡ 4 * length is
length-pack_vector_n_int32 [] = unfold pack_vector_n_int32 in omega arith
length-pack_vector_n_int32 (i ∷ is) = rw (pack_vector_n_int32-cons i is) (
    omega (
      arith,
      length-append (pack_int32 i) (pack_vector_n_int32 is),
      length-pack_int32 i,
      length-pack_vector_n_int32 is,
    ))

-- One round of a vector's loop, on a packed element behind `front`.
read_vector_step :
    (get : Reader ℕ) (rounds : ℕ) (front bytes tail : List ℕ) (w : ℕ) (ws : List ℕ) (stop : ℕ)
    → get (front ++ (bytes ++ tail)) (length front) ≡ ok (w, length front + length bytes)
    → read_vector get rounds ((front ++ bytes) ++ tail) (length (front ++ bytes)) ≡ ok (ws, stop)
    → read_vector get (suc rounds) (front ++ (bytes ++ tail)) (length front) ≡ ok (w ∷ ws, stop)
unfolding read_vector
read_vector_step get rounds front bytes tail w ws stop first rest =
    rw (first, ← length-append front bytes, ← append_assoc front bytes tail, rest)

-- The loop of the vector readers, run once for each element, reads back the doubles that
-- `packVectorNd` wrote, whatever stands around them, where the offset does not pass 2^32.
pub read_vector-pack_vector_nd :
    (ds front back : List ℕ)
    → All IsWord64 ds
    → length front + 8 * length ds < 2 ^ 32
    → read_vector get_double (length ds) (front ++ (pack_vector_nd ds ++ back)) (length front)
      ≡ ok (ds, length front + 8 * length ds)
read_vector-pack_vector_nd [] front back h fits =
    unfold read_vector in ap (λ n. ok ([], n)) (omega arith)
read_vector-pack_vector_nd (d ∷ ds) front back (hd, h) fits =
    rw (pack_vector_nd-cons d ds, append_assoc (pack_double d) (pack_vector_nd ds) back)
      (read_vector_step get_double (length ds) front (pack_double d) (pack_vector_nd ds ++ back) d
          ds _
          (rw (length-pack_double d)
            (get_double-pack_double front (pack_vector_nd ds ++ back) d hd (omega arith)))
          (read_vector-pack_vector_nd ds (front ++ pack_double d) back h
            (rw (behind-length d) (omega arith)))
        ∙ ap (λ n. ok (d ∷ ds, n)) (rw (behind-length d) (omega arith)))
  where
    behind-length : (w : ℕ) → length (front ++ pack_double w) ≡ length front + 8
    behind-length w = omega (arith, length-append front (pack_double w), length-pack_double w)

-- The same of `packVectorNInt32`.
pub read_vector-pack_vector_n_int32 :
    (is front back : List ℕ)
    → All IsWord32 is
    → length front + 4 * length is < 2 ^ 32
    → read_vector get_int32 (length is) (front ++ (pack_vector_n_int32 is ++ back)) (length front)
      ≡ ok (is, length front + 4 * length is)
read_vector-pack_vector_n_int32 [] front back h fits =
    unfold read_vector in ap (λ n. ok ([], n)) (omega arith)
read_vector-pack_vector_n_int32 (i ∷ is) front back (hi, h) fits =
    rw (pack_vector_n_int32-cons i is, append_assoc (pack_int32 i) (pack_vector_n_int32 is) back)
      (read_vector_step get_int32 (length is) front (pack_int32 i) (pack_vector_n_int32 is ++ back)
          i is _
          (rw (length-pack_int32 i)
            (get_int32-pack_int32 front (pack_vector_n_int32 is ++ back) i hi (omega arith)))
          (read_vector-pack_vector_n_int32 is (front ++ pack_int32 i) back h
            (rw (behind-length i) (omega arith)))
        ∙ ap (λ n. ok (i ∷ is, n)) (rw (behind-length i) (omega arith)))
  where
    behind-length : (w : ℕ) → length (front ++ pack_int32 w) ≡ length front + 4
    behind-length w = omega (arith, length-append front (pack_int32 w), length-pack_int32 w)
