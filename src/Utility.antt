-- ===== src/Utility.antt =====
-- include/ur_rtde/rtde_utility.h: the byte order of the RTDE protocol, and the text helpers.
-- A `char` or `uint8_t` is its bit pattern, a number below 256; an `int32_t` is its bit pattern,
-- below 2 ^ 32; a `double` is its IEEE 754 bit pattern, below 2 ^ 64. The host is little-endian,
-- as the unions and casts of the source suppose.
pub mod RoundTrip
pub mod Text
use ur_rtde_fork_custom.Base.{
  ℕ, zero, suc, ◌+◌, ◌*◌, ◌/◌, ◌%◌, ◌^◌, Bool, ◌&&◌, List, [], ◌∷◌, ◌++◌, Option, none, some,
  get_elem?,
}
use ur_rtde_fork_custom.Base.Outcome.{Outcome, ok, fault, ◌>>=◌}

-- `struct RTDEControlHeader`.
pub record RtdeControlHeader : Type 0 where
  pub msg_size : ℕ
  pub msg_cmd : ℕ

-- Byte `k` of a word, from the least significant one.
abbrev pub byte_of : ℕ → ℕ → ℕ
byte_of k w = w / 256 ^ k % 256

unfoldable pub pack_uint32 : ℕ → List ℕ
pack_uint32 uint32 = byte_of 3 uint32 ∷ byte_of 2 uint32 ∷ byte_of 1 uint32 ∷ byte_of 0 uint32 ∷ []

-- The arithmetic shift of a negative value fills with ones, which the cast to `char` cuts off.
unfoldable pub pack_int32 : ℕ → List ℕ
pack_int32 int32 = byte_of 3 int32 ∷ byte_of 2 int32 ∷ byte_of 1 int32 ∷ byte_of 0 int32 ∷ []

unfoldable pub pack_vector_n_int32 : List ℕ → List ℕ
pack_vector_n_int32 [] = []
pack_vector_n_int32 (i ∷ is) =
    byte_of 3 i ∷ byte_of 2 i ∷ byte_of 1 i ∷ byte_of 0 i ∷ pack_vector_n_int32 is

unfoldable pub pack_double : ℕ → List ℕ
pack_double d =
    byte_of 7 d
    ∷ byte_of 6 d
    ∷ byte_of 5 d
    ∷ byte_of 4 d
    ∷ byte_of 3 d
    ∷ byte_of 2 d
    ∷ byte_of 1 d
    ∷ byte_of 0 d
    ∷ []

unfoldable pub pack_vector_nd : List ℕ → List ℕ
pack_vector_nd [] = []
pack_vector_nd (d ∷ ds) =
    byte_of 7 d
    ∷ byte_of 6 d
    ∷ byte_of 5 d
    ∷ byte_of 4 d
    ∷ byte_of 3 d
    ∷ byte_of 2 d
    ∷ byte_of 1 d
    ∷ byte_of 0 d
    ∷ pack_vector_nd ds

-- `data[i]` of a `std::vector<char>`: past the end the read is undefined.
abbrev pub or_fault : Option ℕ → Outcome ℕ
or_fault none = fault
or_fault (some b) = ok b

abbrev pub index : List ℕ → ℕ → Outcome ℕ
index xs i = or_fault (get_elem? xs i)

-- `uint32_t` addition on the offset.
abbrev pub advance : ℕ → ℕ → ℕ
advance message_offset n = (message_offset + n) % 2 ^ 32

-- The value that the bytes of a word make, most significant byte first.
abbrev pub join16 : ℕ → ℕ → ℕ
join16 a b = a * 256 + b

abbrev pub join32 : ℕ → ℕ → ℕ → ℕ → ℕ
join32 a b c d = a * 256 ^ 3 + b * 256 ^ 2 + c * 256 + d

abbrev pub join64 : ℕ → ℕ → ℕ
join64 hi lo = hi * 2 ^ 32 + lo

-- A reader gets the data and the offset, and returns its value and the offset moved on.
abbrev pub Reader : Type 0 → Type 0
Reader A = List ℕ → ℕ → Outcome (A × ℕ)

unfoldable pub get_uint32 : Reader ℕ
get_uint32 data' message_offset = do
  b3 ← index data' message_offset
  b2 ← index data' (advance message_offset 1)
  b1 ← index data' (advance message_offset 2)
  b0 ← index data' (advance message_offset 3)
  ok (join32 b3 b2 b1 b0, advance message_offset 4)

unfoldable pub get_uint16 : Reader ℕ
get_uint16 data' message_offset = do
  b1 ← index data' (advance message_offset 0)
  b0 ← index data' (advance message_offset 1)
  ok (join16 b1 b0, advance message_offset 2)

unfoldable pub get_int32 : Reader ℕ
get_int32 data' message_offset = do
  b3 ← index data' message_offset
  b2 ← index data' (advance message_offset 1)
  b1 ← index data' (advance message_offset 2)
  b0 ← index data' (advance message_offset 3)
  ok (join32 b3 b2 b1 b0, advance message_offset 4)

unfoldable pub get_uint64 : Reader ℕ
get_uint64 data' message_offset = do
  b7 ← index data' message_offset
  b6 ← index data' (advance message_offset 1)
  b5 ← index data' (advance message_offset 2)
  b4 ← index data' (advance message_offset 3)
  b3 ← index data' (advance message_offset 4)
  b2 ← index data' (advance message_offset 5)
  b1 ← index data' (advance message_offset 6)
  b0 ← index data' (advance message_offset 7)
  ok (join64 (join32 b7 b6 b5 b4) (join32 b3 b2 b1 b0), advance message_offset 8)

unfoldable pub get_double : Reader ℕ
get_double data' message_offset = do
  b7 ← index data' message_offset
  b6 ← index data' (advance message_offset 1)
  b5 ← index data' (advance message_offset 2)
  b4 ← index data' (advance message_offset 3)
  b3 ← index data' (advance message_offset 4)
  b2 ← index data' (advance message_offset 5)
  b1 ← index data' (advance message_offset 6)
  b0 ← index data' (advance message_offset 7)
  ok (join64 (join32 b7 b6 b5 b4) (join32 b3 b2 b1 b0), advance message_offset 8)

unfoldable pub get_uchar : Reader ℕ
get_uchar data' message_offset = do b ← index data' message_offset; ok (b, advance message_offset 1)

unfoldable pub get_uint8 : Reader ℕ
get_uint8 data' message_offset = do b ← index data' message_offset; ok (b, advance message_offset 1)

-- The loops `for (i = 0; i < rounds; i++) vector.push_back(get(...))`.
unfoldable pub read_vector : Reader ℕ → ℕ → Reader (List ℕ)
read_vector get zero data' message_offset = ok ([], message_offset)
read_vector get (suc rounds) data' message_offset = do
  (v, next) ← get data' message_offset
  (vs, last) ← read_vector get rounds data' next
  ok (v ∷ vs, last)

unfoldable pub unpack_vector3d : Reader (List ℕ)
unfolding read_vector
unpack_vector3d = read_vector get_double 3

unfoldable pub unpack_vector6d : Reader (List ℕ)
unfolding read_vector
unpack_vector6d = read_vector get_double 6

unfoldable pub unpack_vector6_int32 : Reader (List ℕ)
unfolding read_vector
unpack_vector6_int32 = read_vector get_int32 6

unfoldable pub read_rtde_header : Reader RtdeControlHeader
unfolding get_uint16 get_uint8
read_rtde_header data' message_offset = do
  (msg_size, o) ← get_uint16 data' message_offset
  (msg_cmd, o') ← get_uint8 data' o
  ok (record { msg_size = msg_size; msg_cmd = msg_cmd }, o')
