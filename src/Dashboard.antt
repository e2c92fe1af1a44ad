-- ===== src/Dashboard.antt =====
-- `DashboardClient` of src/dashboard_client.cpp: one line is sent for a command, and one line answers.
-- The sockets of Boost.Asio are the parameter `net`. The texts of the exceptions and the messages on the
-- console are left out.
pub mod Enums
pub mod Version
pub mod Errors
pub mod Counted
pub mod InStep
pub mod Roles
use ur_rtde_fork_custom.Base.{
  ℕ, Bool, true, false, ◌&&◌, not, List, [], ◌∷◌, ◌++◌, Option, none, some, codes, if◌then◌else◌,
  ◌==◌, ltb, leb, same_text, map, ◌+◌,
}
use ur_rtde_fork_custom.Base.Outcome.{Outcome, ok, throws, fault, runtime_error}
use ur_rtde_fork_custom.Base.Action.{Action, return, lift, modify, ◌>>=◌, ◌>>◌}
use ur_rtde_fork_custom.Utility.Text.{is_number}
use ur_rtde_fork_custom.Utility.Text.Find.{strstr}
use ur_rtde_fork_custom.Dashboard.Roles.{UserRole, role_message}
use ur_rtde_fork_custom.Dashboard.Version.{PolyScopeVersion, search_version, parse}

-- What the client does with its socket: connect, which may
-- fail or be cut off by the deadline, write a text, and read up to the end of a line, which is cut
-- off. `W` is what the library and the server keep.
pub record LineNetwork (W : Type 0) : Type 0 where
  pub connect_to : Action W Bool
  pub write : List ℕ → Action W (Unit {0})
  pub read_line : Action W (List ℕ)

pub record DashboardClient (W : Type 0) : Type 0 where
  pub is_connected : Bool
  pub has_socket : Bool
  pub world : W

abbrev pub on_world :
    {W A : Type 0} → Outcome A × W → DashboardClient W → Outcome A × DashboardClient W
on_world (r, w) s = (r, record s { world = w })

-- `if (socket_ != nullptr) ... else throw`.
abbrev pub on_socket : {W A : Type 0} → Action W A → Action (DashboardClient W) A
on_socket operation s =
    if s.has_socket then on_world (operation s.world) s else (throws runtime_error, s)

unfoldable pub disconnect : {W : Type 0} → Action (DashboardClient W) (Unit {0})
disconnect = modify (λ s. record s { has_socket = false; is_connected = false })

-- `check_deadline`, given whether the deadline has passed: the socket is closed, but stays.
unfoldable pub check_deadline : {W : Type 0} → Bool → Action (DashboardClient W) (Unit {0})
check_deadline passed s =
    if passed
    then (if s.has_socket then (ok tt, record s { is_connected = false }) else (fault, s))
    else (ok tt, s)

-- `std::tolower` of the "C" locale.
abbrev pub tolower : ℕ → ℕ
tolower c = if leb b'A' c && leb c b'Z' then c + 32 else c

module _ {W : Type 0} (net : LineNetwork W) where
  unfoldable pub send : List ℕ → Action (DashboardClient W) (Unit {0})
  send str = on_socket (net.write str)

  unfoldable pub receive : Action (DashboardClient W) (List ℕ)
  receive = on_socket net.read_line

  -- A connection that is not made in time leaves the client as it is, without an exception. Otherwise
  -- the server's greeting is read.
  unfoldable pub connect : Action (DashboardClient W) (Unit {0})
  unfolding receive
  connect = do
    modify (λ s. record s { has_socket = true })
    is_open ← on_socket net.connect_to
    (if is_open
        then (do modify (λ s. record s { is_connected = true }); greeting ← receive; return tt)
        else return tt)

  -- The common start of the methods.
  unfoldable pub ask : List ℕ → Action (DashboardClient W) (List ℕ)
  unfolding send receive
  ask message = send (message ++ b'\n' ∷ []) >> receive

  -- A method that takes any answer.
  unfoldable pub tell : List ℕ → Action (DashboardClient W) (Unit {0})
  unfolding ask
  tell message = do answer ← ask message; return tt

  -- A method that throws on any answer but one.
  unfoldable pub demand : List ℕ → List ℕ → Action (DashboardClient W) (Unit {0})
  unfolding ask same_text
  demand message expected = do
    result ← ask message
    (if same_text result expected then return tt else lift (throws runtime_error))

  unfoldable pub load_urp : List ℕ → Action (DashboardClient W) (Unit {0})
  unfolding ask strstr
  load_urp urp_name = do
    result ← ask (codes "load " ++ urp_name)
    (if strstr result (codes "Loading program:") then return tt else lift (throws runtime_error))

  unfoldable pub play : Action (DashboardClient W) (Unit {0})
  unfolding demand
  play = demand (codes "play") (codes "Starting program")

  unfoldable pub stop : Action (DashboardClient W) (Unit {0})
  unfolding demand
  stop = demand (codes "stop") (codes "Stopped")

  unfoldable pub pause : Action (DashboardClient W) (Unit {0})
  unfolding demand
  pause = demand (codes "pause") (codes "Pausing program")

  unfoldable pub quit : Action (DashboardClient W) (Unit {0})
  unfolding tell
  quit = tell (codes "quit")

  unfoldable pub shutdown : Action (DashboardClient W) (Unit {0})
  unfolding tell
  shutdown = tell (codes "shutdown")

  unfoldable pub close_popup : Action (DashboardClient W) (Unit {0})
  unfolding tell
  close_popup = tell (codes "close popup")

  unfoldable pub power_on : Action (DashboardClient W) (Unit {0})
  unfolding tell
  power_on = tell (codes "power on")

  unfoldable pub power_off : Action (DashboardClient W) (Unit {0})
  unfolding tell
  power_off = tell (codes "power off")

  unfoldable pub brake_release : Action (DashboardClient W) (Unit {0})
  unfolding tell
  brake_release = tell (codes "brake release")

  unfoldable pub close_safety_popup : Action (DashboardClient W) (Unit {0})
  unfolding tell
  close_safety_popup = tell (codes "close safety popup")

  unfoldable pub restart_safety : Action (DashboardClient W) (Unit {0})
  unfolding tell
  restart_safety = tell (codes "restart safety")

  unfoldable pub program_state : Action (DashboardClient W) (List ℕ)
  unfolding ask
  program_state = ask (codes "programState")

  unfoldable pub robotmode : Action (DashboardClient W) (List ℕ)
  unfolding ask
  robotmode = ask (codes "robotmode")

  unfoldable pub get_robot_model : Action (DashboardClient W) (List ℕ)
  unfolding ask
  get_robot_model = ask (codes "get robot model")

  unfoldable pub get_loaded_program : Action (DashboardClient W) (List ℕ)
  unfolding ask
  get_loaded_program = ask (codes "get loaded program")

  unfoldable pub safetymode : Action (DashboardClient W) (List ℕ)
  unfolding ask
  safetymode = ask (codes "safetymode")

  unfoldable pub safetystatus : Action (DashboardClient W) (List ℕ)
  unfolding ask
  safetystatus = ask (codes "safetystatus")

  unfoldable pub popup : List ℕ → Action (DashboardClient W) (Unit {0})
  unfolding tell
  popup message = tell (codes "popup " ++ message)

  unfoldable pub add_to_log : List ℕ → Action (DashboardClient W) (Unit {0})
  unfolding tell
  add_to_log message = tell (codes "addToLog " ++ message)

  unfoldable pub running : Action (DashboardClient W) Bool
  unfolding ask strstr
  running = do str ← ask (codes "running"); return (strstr (map tolower str) (codes "true"))

  unfoldable pub is_program_saved : Action (DashboardClient W) Bool
  unfolding ask strstr
  is_program_saved = do str ← ask (codes "isProgramSaved"); return (strstr str (codes "True"))

  unfoldable pub unlock_protective_stop : Action (DashboardClient W) Bool
  unfolding ask same_text
  unlock_protective_stop = do
    result ← ask (codes "unlock protective stop")
    return (same_text result (codes "Protective stop releasing"))

  -- The part of the answer that looks like a version, or else the whole answer.
  unfoldable pub polyscope_version : Action (DashboardClient W) (List ℕ)
  unfolding ask search_version
  polyscope_version = do
    str ← ask (codes "PolyscopeVersion")
    return (elim (search_version str) [ none ↦ str | some base_match ↦ base_match ])

  -- Whether the server is 5.6 or a later 5.
  abbrev pub is_recent : PolyScopeVersion → Bool
  is_recent v = v.major == 5 && ltb 5 v.minor

  unfoldable pub is_in_remote_control : Action (DashboardClient W) Bool
  unfolding polyscope_version parse ask strstr
  is_in_remote_control = do
    version ← polyscope_version
    v ← lift (parse version)
    (if is_recent v
        then (do str ← ask (codes "is in remote control"); return (strstr str (codes "true")))
        else return false)

  unfoldable pub get_serial_number : Action (DashboardClient W) (List ℕ)
  unfolding polyscope_version parse ask is_number
  get_serial_number = do
    version ← polyscope_version
    v ← lift (parse version)
    (if is_recent v
        then (do
          result_str ← ask (codes "get serial number")
          (if is_number result_str then return result_str else lift (throws runtime_error)))
        else lift (throws runtime_error))

  unfoldable pub set_user_role : UserRole → Action (DashboardClient W) (Unit {0})
  unfolding tell role_message
  set_user_role role = tell (codes "setUserRole " ++ role_message role)
