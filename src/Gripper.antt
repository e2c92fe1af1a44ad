-- ===== src/Gripper.antt =====
-- `RobotiqGripper` of src/robotiq_gripper.cpp: variables of the gripper are read and set in lines of
-- text. The sockets of Boost.Asio are the parameter `net`. Speeds, forces and positions stand in device
-- units here; Gripper/Commands.antt has the calls with other units. The pauses are left out. A loop that
-- waits for the gripper runs on fuel; `none` means that the fuel ran out.
pub mod Text
pub mod Activation
pub mod Units
pub mod Commands
pub mod Noted
pub mod Asking
pub mod Bounds
pub mod Endpoints
pub mod Moves
pub mod Calibration
use ur_rtde_fork_custom.Base.{
  ℕ, zero, suc, Bool, true, false, not, ◌&&◌, ◌||◌, List, [], ◌∷◌, ◌++◌, Option, none, some, codes,
  if◌then◌else◌,
}
use ur_rtde_fork_custom.Base.Int.{ℤ, pos, same_int, le_int, lt_int, subtract, clamp}
use ur_rtde_fork_custom.Base.Outcome.{Outcome, ok, throws, fault, runtime_error}
use ur_rtde_fork_custom.Base.Action.{Action, return, lift, modify, gets, ◌>>=◌, ◌>>◌}
use ur_rtde_fork_custom.Gripper.Units.{MoveParameter, UnitKind}
use ur_rtde_fork_custom.Gripper.Text.{
  get_command, get_commands, set_command, parse_value, parse_values, is_ack,
}

-- What the class does with its socket. `read_some` gives the bytes that have come, and none on an error.
pub record Wire (W : Type 0) : Type 0 where
  pub connect_to : Action W Bool
  pub write : List ℕ → Action W (Unit {0})
  pub read_some : Action W (List ℕ)

pub record Gripper (W : Type 0) : Type 0 where
  pub is_connected : Bool
  pub has_socket : Bool
  pub min_position : ℤ
  pub max_position : ℤ
  pub speed : ℤ
  pub force : ℤ
  pub units : MoveParameter → UnitKind
  pub range_mm : ℤ
  pub world : W

pub data MoveMode : Type 0 where
  start_move wait_finished : MoveMode

abbrev pub min_speed : ℤ
min_speed = pos 1

abbrev pub max_speed : ℤ
max_speed = pos 255

abbrev pub min_force : ℤ
min_force = pos 0

abbrev pub max_force : ℤ
max_force = pos 255

-- `eObjectStatus`.
abbrev pub moving : ℤ
moving = pos 0

abbrev pub stopped_outer_object : ℤ
stopped_outer_object = pos 1

abbrev pub stopped_inner_object : ℤ
stopped_inner_object = pos 2

abbrev pub at_dest : ℤ
at_dest = pos 3

abbrev pub on_world : {W A : Type 0} → Outcome A × W → Gripper W → Outcome A × Gripper W
on_world (r, w) s = (r, record s { world = w })

-- Without a socket the source follows a null pointer.
abbrev pub on_socket : {W A : Type 0} → Action W A → Action (Gripper W) A
on_socket operation s = if s.has_socket then on_world (operation s.world) s else (fault, s)

unfoldable pub disconnect : {W : Type 0} → Action (Gripper W) (Unit {0})
disconnect = modify (λ s. record s { has_socket = false; is_connected = false })

unfoldable pub set_native_position_range : {W : Type 0} → ℤ → ℤ → Action (Gripper W) (Unit {0})
set_native_position_range min_position max_position =
    modify (λ s. record s { min_position = min_position; max_position = max_position })

-- What follows a wait that ended.
abbrev pub when_done : {S A B : Type 0} → (A → Action S (Option B)) → Option A → Action S (Option B)
when_done rest none = return none
when_done rest (some a) = rest a

-- `while (!test) body`.
unfoldable pub wait_until :
    {S : Type 0} → ℕ → Action S Bool → Action S (Unit {0}) → Action S (Option (Unit {0}))
wait_until zero test body = return none
wait_until (suc fuel) test body =
    let again = wait_until fuel test body in
    (do is_done ← test; (if is_done then return (some tt) else body >> again))

module _ {W : Type 0} (net : Wire W) where
  unfoldable pub connect : Action (Gripper W) (Unit {0})
  connect = do
    modify (λ s. record s { has_socket = true })
    is_open ← on_socket net.connect_to
    (if is_open
        then modify (λ s. record s { is_connected = true })
        else lift (throws runtime_error))

  -- A command and its answer, which the lock keeps together.
  unfoldable pub exchange : List ℕ → Action (Gripper W) (List ℕ)
  exchange cmd = on_socket (net.write cmd) >> on_socket net.read_some

  unfoldable pub get_var : List ℕ → Action (Gripper W) ℤ
  unfolding exchange get_command parse_value
  get_var var = do rx_string ← exchange (get_command var); lift (parse_value var rx_string)

  unfoldable pub get_vars : List (List ℕ) → Action (Gripper W) (List ℤ)
  unfolding exchange get_commands parse_values
  get_vars vars = do rx_string ← exchange (get_commands vars); lift (parse_values rx_string)

  unfoldable pub set_vars : List (List ℕ × ℤ) → Action (Gripper W) Bool
  unfolding exchange set_command is_ack
  set_vars vars = do data' ← exchange (set_command vars); return (is_ack data')

  unfoldable pub set_var : List ℕ → ℤ → Action (Gripper W) Bool
  unfolding set_vars
  set_var var value = set_vars ((var, value) ∷ [])

  unfoldable pub is_active : Action (Gripper W) Bool
  unfolding get_var
  is_active = do status ← get_var (codes "STA"); return (same_int (pos 3) status)

  -- Two variables have their values; the second is read only if the first has.
  unfoldable pub both_are : List ℕ → ℤ → List ℕ → ℤ → Action (Gripper W) Bool
  unfolding get_var
  both_are var1 value1 var2 value2 = do
    first ← get_var var1
    (if same_int first value1
        then (do second ← get_var var2; return (same_int second value2))
        else return false)

  unfoldable pub is_reset : Action (Gripper W) Bool
  unfolding both_are
  is_reset = both_are (codes "ACT") (pos 0) (codes "STA") (pos 0)

  unfoldable pub clear_vars : Action (Gripper W) (Unit {0})
  unfolding set_var
  clear_vars = do a ← set_var (codes "ACT") (pos 0); b ← set_var (codes "ATR") (pos 0); return tt

  unfoldable pub reset : ℕ → Action (Gripper W) (Option (Unit {0}))
  unfolding clear_vars wait_until is_reset
  reset fuel = clear_vars >> wait_until fuel is_reset clear_vars

  unfoldable pub is_open : Action (Gripper W) Bool
  unfolding get_var
  is_open = do position ← get_var (codes "POS"); gets (λ s. le_int position s.min_position)

  unfoldable pub is_closed : Action (Gripper W) Bool
  unfolding get_var
  is_closed = do position ← get_var (codes "POS"); gets (λ s. le_int s.max_position position)

  -- The last value of `OBJ` that is read is returned.
  unfoldable pub wait_for_motion_complete : ℕ → Action (Gripper W) (Option ℤ)
  unfolding get_var
  wait_for_motion_complete zero = return none
  wait_for_motion_complete (suc fuel) =
      let again = wait_for_motion_complete fuel in
      (do
        status ← get_var (codes "OBJ")
        (if same_int moving status then again else return (some status)))

  unfoldable pub is_requested : ℤ → Action (Gripper W) Bool
  unfolding get_var
  is_requested position = do requested ← get_var (codes "PRE"); return (same_int requested position)

  unfoldable pub move_impl : ℕ → ℤ → ℤ → ℤ → MoveMode → Action (Gripper W) (Option ℤ)
  unfolding set_vars wait_until is_requested wait_for_motion_complete get_var
  move_impl fuel position speed force mode = do
    result ← set_vars (
        (codes "POS", position)
        ∷ (codes "SPE", speed)
        ∷ (codes "FOR", force)
        ∷ (codes "GTO", pos 1)
        ∷ [])
    (if not result then lift (throws runtime_error) else return tt)
    acknowledged ← wait_until fuel (is_requested position) (return tt)
    when_done
        (λ _. elim mode [
          | wait_finished ↦ wait_for_motion_complete fuel
          | start_move ↦ (do status ← get_var (codes "OBJ"); return (some status))
        ])
        acknowledged
