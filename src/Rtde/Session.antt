-- ===== src/Rtde/Session.antt =====
-- The connection of the class `RTDE` of src/rtde.cpp: opening and closing it, the requests and the
-- answers. The sockets of Boost.Asio are the parameter `net`.
pub mod Answer
pub mod Effects
pub mod Machine
pub mod Version
pub mod Setup
use ur_rtde_fork_custom.Base.{
  ℕ, ◌+◌, ◌-◌, ◌%◌, ◌^◌, Bool, true, false, ◌&&◌, ◌||◌, List, [], ◌∷◌, ◌++◌, Option, none, some,
  codes, if◌then◌else◌, ◌==◌, is_empty,
}
use ur_rtde_fork_custom.Base.Outcome.{
  Outcome, Exception, ok, throws, fault, runtime_error, system_error, out_of_range,
}
use ur_rtde_fork_custom.Base.Action.{Action, return, lift, modify, gets, ◌>>=◌, ◌>>◌}
use ur_rtde_fork_custom.Utility.{get_uint16}
use ur_rtde_fork_custom.Utility.Text.{double2hexstr, hex_to_bytes, split}
use ur_rtde_fork_custom.Utility.Text.Split.{terminate_each}
use ur_rtde_fork_custom.Rtde.Command.{
  RtdeCommand, rtde_code, rtde_request_protocol_version, rtde_get_urcontrol_version,
  rtde_text_message, rtde_control_package_setup_outputs, rtde_control_package_setup_inputs,
  rtde_control_package_start, rtde_control_package_pause, ConnectionState, disconnected, connected,
  started, paused, RobotCommand, rtde_data_package,
}
use ur_rtde_fork_custom.Utility.Text.Find.{contains_text}
use ur_rtde_fork_custom.Rtde.Send.{frame, send_payload, header_size}
use ur_rtde_fork_custom.Rtde.Session.Answer.{
  byte_at, datatypes, missing_variables, VersionNumbers, read_version,
}

-- What the class does with its socket: resolve and connect, read so many bytes, write. `W` is what the
-- library and the robot keep.
pub record Network (W : Type 0) : Type 0 where
  pub connect_to : Action W (Unit {0})
  pub read : ℕ → Action W (List ℕ)
  pub write : List ℕ → Action W (Unit {0})

-- The members of the class; `has_socket` tells whether `socket_` points to a socket.
pub record Session (W : Type 0) : Type 0 where
  pub conn_state : ConnectionState
  pub has_socket : Bool
  pub buffer : List ℕ
  pub output_names : List (List ℕ)
  pub output_types : List (List ℕ)
  pub world : W

-- What the constructor sets; the name and the port are the network's.
abbrev pub constructor_state : {W : Type 0} → W → Session W
constructor_state world = record {
  conn_state = disconnected;
  has_socket = false;
  buffer = [];
  output_names = [];
  output_types = [];
  world = world;
}

abbrev pub in_state : ConnectionState → ConnectionState → Bool
in_state connected connected = true
in_state started started = true
in_state paused paused = true
in_state disconnected disconnected = true
in_state _ _ = false

-- An operation of the socket; without a socket it follows a null pointer.
abbrev pub on_world : {W A : Type 0} → Outcome A × W → Session W → Outcome A × Session W
on_world (r, w) s = (r, record s { world = w })

abbrev pub on_socket : {W A : Type 0} → Action W A → Action (Session W) A
on_socket operation s = if s.has_socket then on_world (operation s.world) s else (fault, s)

-- `catch (const system_error &) { throw runtime_error }`.
abbrev pub rethrown : Exception → Exception
rethrown system_error = runtime_error
rethrown e = e

abbrev pub rethrow : {S A : Type 0} → Outcome A × S → Outcome A × S
rethrow (throws e, s) = (throws (rethrown e), s)
rethrow (fault, s) = (fault, s)
rethrow (ok a, s) = (ok a, s)

abbrev pub set_state : {W : Type 0} → ConnectionState → Action (Session W) (Unit {0})
set_state state = modify (λ s. record s { conn_state = state })

abbrev pub is_connected : {W : Type 0} → Session W → Bool
is_connected s = in_state s.conn_state connected || in_state s.conn_state started

abbrev pub is_started : {W : Type 0} → Session W → Bool
is_started s = in_state s.conn_state started

-- Which case of the switch in `receive` a command takes.
abbrev pub is_command : ℕ → RtdeCommand → Bool
is_command msg_cmd command = msg_cmd == rtde_code command

-- `data.resize(msg_size - HEADER_SIZE)` computes in 32 bits.
abbrev pub body_size : ℕ → ℕ
body_size msg_size = (msg_size + (2 ^ 32 - header_size)) % 2 ^ 32

-- The names that the controller lacks go into the text of the exception.
unfoldable pub report_missing : {W : Type 0} → Action (Session W) (Unit {0})
unfolding missing_variables
report_missing = do
  vars_not_found ← gets (λ s. missing_variables s.output_types s.output_names)
  _ ← lift vars_not_found
  lift (throws runtime_error)

-- The branches of `receive` on an answer.
unfoldable pub setup_outputs_answer : {W : Type 0} → List ℕ → Action (Session W) (Unit {0})
unfolding report_missing contains_text
setup_outputs_answer data' = do
  types ← lift (datatypes data')
  modify (λ s. record s { output_types = split types b',' })
  (if contains_text (codes "NOT_FOUND") types then report_missing else return tt)

unfoldable pub setup_inputs_answer : {W : Type 0} → List ℕ → Action (Session W) (Unit {0})
unfolding contains_text
setup_inputs_answer data' = do
  types ← lift (datatypes data')
  (if contains_text (codes "IN_USE") types then lift (throws runtime_error) else return tt)

-- A success byte that is not 0 sets the state.
unfoldable pub success_answer :
    {W : Type 0} → ConnectionState → List ℕ → Action (Session W) (Unit {0})
success_answer state data' = do
  success ← lift (byte_at data' 0)
  (if success == 0 then return tt else set_state state)

-- The case of the switch in `receive` that a command byte selects.
unfoldable pub command_of : ℕ → Option RtdeCommand
unfolding rtde_code
command_of msg_cmd =
    if is_command msg_cmd rtde_text_message
    then some rtde_text_message
    else if is_command msg_cmd rtde_request_protocol_version
    then some rtde_request_protocol_version
    else if is_command msg_cmd rtde_get_urcontrol_version
    then some rtde_get_urcontrol_version
    else if is_command msg_cmd rtde_control_package_setup_inputs
    then some rtde_control_package_setup_inputs
    else if is_command msg_cmd rtde_control_package_setup_outputs
    then some rtde_control_package_setup_outputs
    else if is_command msg_cmd rtde_control_package_start
    then some rtde_control_package_start
    else if is_command msg_cmd rtde_control_package_pause
    then some rtde_control_package_pause
    else none

-- The switch.
unfoldable pub answer : {W : Type 0} → Option RtdeCommand → List ℕ → Action (Session W) (Unit {0})
unfolding setup_inputs_answer setup_outputs_answer success_answer
answer (some rtde_text_message) data' = do msg_length ← lift (byte_at data' 0); return tt
answer (some rtde_control_package_setup_inputs) data' = setup_inputs_answer data'
answer (some rtde_control_package_setup_outputs) data' = setup_outputs_answer data'
answer (some rtde_control_package_start) data' = success_answer started data'
answer (some rtde_control_package_pause) data' = success_answer paused data'
answer _ data' = return tt

-- `check_deadline`, given whether the deadline has passed.
unfoldable pub check_deadline : {W : Type 0} → Bool → Action (Session W) (Unit {0})
check_deadline passed s =
    if passed
    then (if s.has_socket
        then (ok tt, record s { has_socket = false; conn_state = disconnected })
        else (fault, s))
    else (ok tt, s)

module _ {W : Type 0} (net : Network W) where
  -- The common start of `receive` and `getControllerVersion`: the header's command and the body.
  unfoldable pub read_message : Action (Session W) (ℕ × List ℕ)
  unfolding get_uint16
  read_message = do
    header ← on_socket (net.read header_size)
    (msg_size, _) ← lift (get_uint16 header 0)
    msg_cmd ← lift (byte_at header 2)
    data' ← on_socket (net.read (body_size msg_size))
    return (msg_cmd, data')

  unfoldable pub receive : Action (Session W) (Unit {0})
  unfolding read_message command_of answer
  receive = do (msg_cmd, data') ← read_message; answer (command_of msg_cmd) data'

  unfoldable pub send_all : RtdeCommand → List ℕ → Action (Session W) (Unit {0})
  unfolding frame rtde_code
  send_all command payload s =
      if is_connected s
      then on_socket (net.write (frame (rtde_code command) payload)) s
      else (ok tt, s)

  unfoldable pub send_start : Action (Session W) (Unit {0})
  unfolding send_all receive
  send_start = send_all rtde_control_package_start [] >> receive

  unfoldable pub send_pause : Action (Session W) (Unit {0})
  unfolding send_all receive
  send_pause = send_all rtde_control_package_pause [] >> receive

  -- `RTDE_PROTOCOL_VERSION` is 2.
  unfoldable pub negotiate_protocol_version : Action (Session W) Bool
  unfolding send_all receive
  negotiate_protocol_version =
      send_all rtde_request_protocol_version (0 ∷ 2 ∷ []) >> (receive >> return true)

  unfoldable pub send_input_setup : List (List ℕ) → Action (Session W) Bool
  unfolding send_all receive
  send_input_setup input_names =
      send_all rtde_control_package_setup_inputs (terminate_each input_names b',')
      >> (receive >> return true)

  -- The names are kept for `receiveData`; the payload starts with the frequency.
  unfoldable pub send_output_setup : List (List ℕ) → ℕ → Action (Session W) Bool
  unfolding send_all receive double2hexstr hex_to_bytes
  send_output_setup output_names frequency =
      modify (λ s. record s { output_names = output_names })
      >> (send_all rtde_control_package_setup_outputs
            (hex_to_bytes (double2hexstr frequency) ++ terminate_each output_names b',')
          >> (receive >> return true))

  unfoldable pub send : RobotCommand → Action (Session W) (Unit {0})
  unfolding send_all send_payload
  send robot_cmd = send_all rtde_data_package (send_payload robot_cmd)

  -- Another answer than a version is taken for version 0.
  unfoldable pub get_controller_version : Action (Session W) VersionNumbers
  unfolding send_all read_message read_version rtde_code
  get_controller_version = send_all rtde_get_urcontrol_version [] >> (do
    (msg_cmd, data') ← read_message
    (if is_command msg_cmd rtde_get_urcontrol_version
        then lift (read_version data')
        else return (0, 0, 0, 0)))

  -- The socket is made anew before the name is resolved, so it stays when that fails.
  unfoldable pub connect : Action (Session W) (Unit {0})
  connect s = rethrow (
      (modify (λ t. record t { buffer = []; has_socket = true })
          >> (on_socket net.connect_to >> set_state connected))
        s)

  unfoldable pub disconnect : Bool → Action (Session W) (Unit {0})
  unfolding send_pause
  disconnect pause = do
    is_open ← gets (λ s. in_state s.conn_state connected)
    (if is_open && pause then send_pause else return tt)
    modify (λ s. record s { has_socket = false; conn_state = disconnected })
