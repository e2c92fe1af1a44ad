-- ===== src/Script/Client.antt =====
-- `ScriptClient` of src/script_client.cpp: its connection, its settings and the sending of scripts.
pub mod Sent
use ur_rtde_fork_custom.Base.{
  ℕ, Bool, true, false, ◌&&◌, not, List, [], ◌∷◌, ◌++◌, Option, none, some, codes, if◌then◌else◌,
  ◌==◌, is_empty, length,
}
use ur_rtde_fork_custom.Base.Outcome.{Outcome, ok, throws, fault}
use ur_rtde_fork_custom.Base.Action.{Action, return, lift, modify, gets, ◌>>=◌, ◌>>◌}
use ur_rtde_fork_custom.Script.Removal.{Version, remove_unsupported_functions}
use ur_rtde_fork_custom.Script.Injection.{ScriptInjectItem, set_script_injection, scan_and_inject}

-- What lies outside the client: its socket, which is connected or written to and may throw, and the
-- files. `write` gives the number of bytes written. `W` is what these keep.
pub record ScriptWorld (W : Type 0) : Type 0 where
  pub connect_to : Action W (Unit {0})
  pub write : List ℕ → Action W ℕ
  pub read_file : List ℕ → W → Option (List ℕ)
  -- `UR_SCRIPT`, which the build makes from scripts/rtde_control.script.
  pub ur_script : List ℕ
  -- `script_format`: `snprintf` with the script as the format and two texts.
  pub script_format : List ℕ → List ℕ → List ℕ → Outcome (List ℕ)

-- The heartbeat's address and port are global variables of the file.
pub record ScriptClient (W : Type 0) : Type 0 where
  pub version : Version
  pub verbose : Bool
  pub is_connected : Bool
  pub has_socket : Bool
  pub script_file_name : List ℕ
  pub script_injections : List ScriptInjectItem
  pub heartbeat_ip : List ℕ
  pub heartbeat_port : List ℕ
  pub world : W

abbrev pub on_world : {W A : Type 0} → Outcome A × W → ScriptClient W → Outcome A × ScriptClient W
on_world (r, w) s = (r, record s { world = w })

-- `*socket_`, which is undefined without a socket.
abbrev pub on_socket : {W A : Type 0} → Action W A → Action (ScriptClient W) A
on_socket operation s = if s.has_socket then on_world (operation s.world) s else (fault, s)

-- The constructor.
unfoldable pub new_client : {W : Type 0} → Version → Bool → W → ScriptClient W
new_client version verbose world = record {
  version = version;
  verbose = verbose;
  is_connected = false;
  has_socket = false;
  script_file_name = [];
  script_injections = [];
  heartbeat_ip = codes "foo";
  heartbeat_port = codes "foo";
  world = world;
}

module _ {W : Type 0} where
  unfoldable pub set_heart_beat_config : List ℕ → List ℕ → Action (ScriptClient W) (Unit {0})
  set_heart_beat_config ip port =
      modify (λ s. record s { heartbeat_ip = ip; heartbeat_port = port })

  unfoldable pub set_script_file : List ℕ → Action (ScriptClient W) (Unit {0})
  set_script_file file_name = modify (λ s. record s { script_file_name = file_name })

  unfoldable pub disconnect : Action (ScriptClient W) (Unit {0})
  disconnect = modify (λ s. record s { has_socket = false; is_connected = false })

  unfoldable pub add_script_injection : List ℕ → List ℕ → Action (ScriptClient W) (Unit {0})
  unfolding set_script_injection
  add_script_injection search inject =
      modify (λ s. record s {
        script_injections = set_script_injection search inject s.script_injections;
      })

module _ {W : Type 0} (net : ScriptWorld W) where
  unfoldable pub connect : Action (ScriptClient W) (Unit {0})
  connect = do
    modify (λ s. record s { has_socket = true })
    on_socket net.connect_to
    modify (λ s. record s { is_connected = true })

  unfoldable pub send_script_command : List ℕ → Action (ScriptClient W) Bool
  send_script_command cmd_str = do
    connected ← gets (λ s. s.is_connected)
    (if connected && not (is_empty cmd_str)
        then (do written ← on_socket (net.write cmd_str); return true)
        else return false)

  -- The custom script, if it is set and can be read and is not empty, else the given one.
  abbrev pub chosen : List ℕ → Option (List ℕ) → List ℕ
  chosen internal none = internal
  chosen internal (some text) = if is_empty text then internal else text

  abbrev pub load_or : List ℕ → ScriptClient W → List ℕ
  load_or internal s =
      if is_empty s.script_file_name
      then internal
      else chosen internal (net.read_file s.script_file_name s.world)

  abbrev pub control_program : List ℕ
  control_program =
      codes "def rtde_control():" ++ b'\n' ∷ (net.ur_script ++ (codes "end" ++ b'\n' ∷ []))

  -- The end of `sendScript`.
  abbrev pub send_text : List ℕ → Action (ScriptClient W) Bool
  send_text ur_script = do
    connected ← gets (λ s. s.is_connected)
    (if connected && not (is_empty ur_script)
        then (do
          bytes_transferred ← on_socket (net.write ur_script)
          return (length ur_script == bytes_transferred))
        else return false)

  -- `sendScript` of the client `s` behind the removal of what is not supported.
  unfoldable pub send_supported : ScriptClient W → Bool × List ℕ → Action (ScriptClient W) Bool
  unfolding scan_and_inject
  send_supported s (false, ur_script) = return false
  send_supported s (true, ur_script) = do
    extended ← lift (scan_and_inject s.verbose s.script_injections ur_script)
    formatted ← lift (net.script_format extended s.heartbeat_ip s.heartbeat_port)
    send_text formatted

  unfoldable pub send_script : Action (ScriptClient W) Bool
  unfolding remove_unsupported_functions send_supported
  send_script s =
      (lift (remove_unsupported_functions s.version (load_or control_program s))
          >>= send_supported s)
        s

  -- `sendScript` with a file: the text is sent as it is.
  unfoldable pub send_loaded : Option (List ℕ) → Action (ScriptClient W) Bool
  unfolding send_script_command
  send_loaded none = return false
  send_loaded (some text) = send_script_command text

  unfoldable pub send_script_file : List ℕ → Action (ScriptClient W) Bool
  unfolding send_loaded
  send_script_file file_name s = send_loaded (net.read_file file_name s.world) s

  -- A script in which a tag cannot be read is extended and returned as it is then.
  unfoldable pub get_script : Action (ScriptClient W) (List ℕ)
  unfolding remove_unsupported_functions scan_and_inject
  get_script s =
      (do
        (success, ur_script) ←
            lift (remove_unsupported_functions s.version (load_or net.ur_script s))
        lift (scan_and_inject s.verbose s.script_injections ur_script))
        s
