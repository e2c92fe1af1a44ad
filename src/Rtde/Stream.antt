-- ===== src/Rtde/Stream.antt =====
-- `RTDE::receiveData` of src/rtde.cpp: the receive buffer and the update of the robot state.
pub mod Termination
pub mod Rounds
pub mod Frames
pub mod Encode
pub mod Package
pub mod Typed
use ur_rtde_fork_custom.Base.{
  ℕ, zero, suc, ◌+◌, Bool, true, false, ◌&&◌, ◌||◌, List, [], ◌∷◌, ◌++◌, Option, none, some, ltb,
  leb, ◌==◌, if◌then◌else◌, length, take, drop, codes, same_text,
}
use ur_rtde_fork_custom.Base.Outcome.{Outcome, ok, throws, fault, ◌>>=◌}
use ur_rtde_fork_custom.Utility.{
  RtdeControlHeader, read_rtde_header, get_uchar, get_double, get_int32, get_uint32, get_uint64,
  unpack_vector3d, unpack_vector6d, unpack_vector6_int32,
}
use ur_rtde_fork_custom.Rtde.Command.{rtde_code, rtde_data_package}
use ur_rtde_fork_custom.Rtde.Send.{header_size}
use ur_rtde_fork_custom.Rtde.StateTypes.{
  Variant, uint32, uint64, int32, double, vector_double, vector_int32, find, state_types,
}
use ur_rtde_fork_custom.Rtde.RobotState.{RobotState, set_state_data}

-- The variables that hold three numbers; the other vectors hold six.
unfoldable pub is_vector3 : List ℕ → Bool
unfolding same_text
is_vector3 name =
    same_text name (codes "actual_tool_accelerometer")
    || same_text name (codes "payload_cog")
    || same_text name (codes "elbow_position")
    || same_text name (codes "elbow_velocity")

-- The chain of tests on `entry.type()`.
unfoldable pub read_variable : Variant → List ℕ → List ℕ → ℕ → Outcome (Variant × ℕ)
unfolding is_vector3
read_variable (vector_double _) name packet offset = do
  (v, next) ←
      (if is_vector3 name then unpack_vector3d packet offset else unpack_vector6d packet offset)
  ok (vector_double v, next)
read_variable (double _) name packet offset = do
  (v, next) ← get_double packet offset
  ok (double v, next)
read_variable (int32 _) name packet offset = do
  (v, next) ← get_int32 packet offset
  ok (int32 v, next)
read_variable (uint32 _) name packet offset = do
  (v, next) ← get_uint32 packet offset
  ok (uint32 v, next)
read_variable (uint64 _) name packet offset = do
  (v, next) ← get_uint64 packet offset
  ok (uint64 v, next)
read_variable (vector_int32 _) name packet offset = do
  (v, next) ← unpack_vector6_int32 packet offset
  ok (vector_int32 v, next)

-- One variable of `output_names_`: a name that the table lacks takes no bytes.
unfoldable pub update_variable :
    Option Variant → List ℕ → List ℕ → ℕ → RobotState → Outcome (ℕ × RobotState)
unfolding read_variable
update_variable none name packet offset state = ok (offset, state)
update_variable (some entry) name packet offset state = do
  (v, next) ← read_variable entry name packet offset
  ok (next, (set_state_data name v state).1)

-- The loop over `output_names_`.
unfoldable pub update_variables : List (List ℕ) → List ℕ → ℕ → RobotState → Outcome (ℕ × RobotState)
unfolding update_variable
update_variables [] packet offset state = ok (offset, state)
update_variables (name ∷ names) packet offset state = do
  (next, state') ← update_variable (find name state_types) name packet offset state
  update_variables names packet next state'

-- What a data package does: the recipe byte is passed over, and the first package is noted.
unfoldable pub apply_package : List (List ℕ) → List ℕ → RobotState → Outcome RobotState
unfolding update_variables
apply_package output_names packet state = do
  (recipe_id, offset) ← get_uchar packet 0
  (_, state') ← update_variables output_names packet offset state
  ok (record state' { first_state_received = true })

-- The buffer and the state between two rounds; `more` tells whether the loop goes on.
pub record Round : Type 0 where
  pub more : Bool
  pub buffer : List ℕ
  pub state : RobotState

abbrev pub is_data : RtdeControlHeader → Bool
is_data header = header.msg_cmd == rtde_code rtde_data_package

-- Whether a package is passed over in favour of a later one. The header behind it is read at the
-- offset where the first header ended, as in the source: `message_offset` is not set back.
unfoldable pub skip_package : RtdeControlHeader → ℕ → List ℕ → Outcome Bool
unfolding rtde_code
skip_package header message_offset rest =
    if leb header_size (length rest) && is_data header
    then (do (next_header, _) ← read_rtde_header rest message_offset; ok (is_data next_header))
    else ok false

-- The branch on a complete package. A size below that of the header makes the packet's iterators
-- cross, which is undefined.
unfoldable pub take_package :
    List (List ℕ) → RtdeControlHeader → ℕ → List ℕ → RobotState → Outcome Round
unfolding skip_package apply_package rtde_code
take_package output_names header message_offset buffer state =
    if ltb header.msg_size header_size then fault else (do
      let packet = drop header_size (take header.msg_size buffer)
      let rest = drop header.msg_size buffer
      skipped ← skip_package header message_offset rest
      (if skipped
          then ok (record { more = true; buffer = rest; state = state })
          else if is_data header
          then (do
            state' ← apply_package output_names packet state
            ok (record { more = true; buffer = rest; state = state' }))
          else ok (record { more = true; buffer = rest; state = state })))

-- One round of the loop `while (buffer_.size() >= HEADER_SIZE)`.
unfoldable pub round : List (List ℕ) → List ℕ → RobotState → Outcome Round
unfolding take_package
round output_names buffer state =
    if ltb (length buffer) header_size
    then ok (record { more = false; buffer = buffer; state = state })
    else (do
      (header, message_offset) ← read_rtde_header buffer 0
      (if leb header.msg_size (length buffer)
          then take_package output_names header message_offset buffer state
          else ok (record { more = false; buffer = buffer; state = state })))

-- The loop on fuel; `none` means that the fuel ran out.
unfoldable pub process :
    ℕ → List (List ℕ) → List ℕ → RobotState → Option (Outcome (List ℕ × RobotState))
process zero output_names buffer state = none
process (suc fuel) output_names buffer state = elim (round output_names buffer state) [
  | fault ↦ some fault
  | throws e ↦ some (throws e)
  | ok r ↦ elim r.more [
    | true ↦ process fuel output_names r.buffer r.state
    | false ↦ some (ok (r.buffer, r.state))
  ]
]

-- The bytes of the vector `data` that one read fills.
abbrev pub read_size : ℕ
read_size = 4096

-- `receiveData`: of the bytes that have arrived, `async_read_some` takes no more than the vector holds, and
-- they join the buffer; its exception passes through. Each round takes three bytes at least, so the
-- fuel is enough.
unfoldable pub receive_data :
    List (List ℕ) → Outcome (List ℕ) → List ℕ → RobotState → Option (Outcome (List ℕ × RobotState))
receive_data output_names read buffer state = elim read [
  | fault ↦ some fault
  | throws e ↦ some (throws e)
  | ok arrived ↦
      (let filled = buffer ++ take read_size arrived in
        process (suc (length filled)) output_names filled state)
]
