-- ===== src/Rtde/Session/Machine.antt =====
-- The connection state of the class `RTDE` of src/rtde.cpp as a state machine.
use ur_rtde_fork_custom.Base.{
  ℕ, ◌≡◌, refl, sym, subst, ◌∙◌, Bool, true, false, ◌&&◌, ◌⊎◌, inl, inr, List, [], ◌∷◌, ◌++◌,
  Bool-cases, if◌then◌else◌,
}
use ur_rtde_fork_custom.Base.Outcome.{Outcome, ok, throws, fault}
use ur_rtde_fork_custom.Base.Action.{◌>>◌, continue, return}
use ur_rtde_fork_custom.Rtde.Command.{
  RobotCommand, ConnectionState, disconnected, connected, started, paused,
  rtde_control_package_start, rtde_control_package_pause, rtde_request_protocol_version,
  rtde_control_package_setup_inputs, rtde_control_package_setup_outputs, rtde_data_package,
}
use ur_rtde_fork_custom.Rtde.Session.{
  Network, Session, in_state, connect, disconnect, send_start, send_pause,
  negotiate_protocol_version, send_input_setup, receive, read_message, send_all, constructor_state,
  send_output_setup, get_controller_version, send, check_deadline, rethrow, on_world, set_state,
}
use ur_rtde_fork_custom.Rtde.Session.Effects.{
  Same, Asked, Settled, Ends, send_pause-Ends, request-Asked, request-Asked_bool,
  get_controller_version-Same, send_all-Same,
}
use ur_rtde_fork_custom.Utility.Text.{double2hexstr, hex_to_bytes}
use ur_rtde_fork_custom.Utility.Text.Split.{terminate_each}
use ur_rtde_fork_custom.Rtde.Send.{send_payload}

-- The calls that a client can make, and the expiry of the deadline.
pub data Call : Type 0 where
  opening asking_start asking_pause negotiating asking_version : Call
  closing : Bool → Call
  asking_inputs : List (List ℕ) → Call
  asking_outputs : List (List ℕ) → ℕ → Call
  sending : RobotCommand → Call
  deadline : Bool → Call

-- Requests wait for an answer, which `receive` acts on.
abbrev pub is_request : Call → Bool
is_request asking_start = true
is_request asking_pause = true
is_request negotiating = true
is_request (asking_inputs _) = true
is_request (asking_outputs _ _) = true
is_request _ = false

-- The diagram of the connection.
pub data Moves : Call → ConnectionState → ConnectionState → Type 0 where
  stay : {call : Call} {c : ConnectionState} → Moves call c c
  opened : {c : ConnectionState} → Moves opening c connected
  closed : {c : ConnectionState} {pause : Bool} → Moves (closing pause) c disconnected
  expired : {c : ConnectionState} → Moves (deadline true) c disconnected
  started_by : {call : Call} {c : ConnectionState} → is_request call ≡ true → Moves call c started
  paused_by : {call : Call} {c : ConnectionState} → is_request call ≡ true → Moves call c paused

module _ {W : Type 0} (net : Network W) where
  -- The members behind a call, however it ends.
  abbrev pub after : Call → Session W → Session W
  after opening s = (connect net s).1
  after asking_start s = (send_start net s).1
  after asking_pause s = (send_pause net s).1
  after negotiating s = (negotiate_protocol_version net s).1
  after asking_version s = (get_controller_version net s).1
  after (closing pause) s = (disconnect net pause s).1
  after (asking_inputs names) s = (send_input_setup net names s).1
  after (asking_outputs names frequency) s = (send_output_setup net names frequency s).1
  after (sending robot_cmd) s = (send net robot_cmd s).1
  after (deadline passed) s = (check_deadline passed s).1

  -- The socket is there unless the connection is closed.
  abbrev pub IsSound : Session W → Type 0
  IsSound s = (s.conn_state ≡ disconnected) ⊎ (s.has_socket ≡ true)

  -- What every call does, however it ends: it follows the diagram and keeps the members sound.
  abbrev Fits : Call → Session W → Session W → Type 0
  Fits call s t = Moves call s.conn_state t.conn_state × (IsSound s → IsSound t)

  Same-Fits : (call : Call) (s t : Session W) → Same s t → Fits call s t
  Same-Fits call s t (h, k) = (
    subst (Moves call s.conn_state) (sym h) stay,
    λ sound. elim sound [ inl d ↦ inl (h ∙ d) | inr e ↦ inr (k ∙ e) ],
  )

  Asked-Fits :
      (call : Call) → is_request call ≡ true → (s t : Session W) → Asked s t → Fits call s t
  Asked-Fits call r s t (k, h, quiet) = (
    follow h,
    λ sound. elim sound [ inl d ↦ by_socket (Bool-cases s.has_socket) d | inr e ↦ inr (k ∙ e) ],
  )
    where
      follow : Settled s.conn_state t.conn_state → Moves call s.conn_state t.conn_state
      follow (inl e) = subst (Moves call s.conn_state) (sym e) stay
      follow (inr (inl e)) = subst (Moves call s.conn_state) (sym e) (started_by r)
      follow (inr (inr e)) = subst (Moves call s.conn_state) (sym e) (paused_by r)

      by_socket :
          (s.has_socket ≡ true) ⊎ (s.has_socket ≡ false) → s.conn_state ≡ disconnected → IsSound t
      by_socket (inl e) d = inr (k ∙ e)
      by_socket (inr e) d = inl (quiet e ∙ d)

  rethrow_keeps : (p : Outcome (Unit {0}) × Session W) → (rethrow p).1 ≡ p.1
  rethrow_keeps (fault, s) = refl
  rethrow_keeps (ok _, s) = refl
  rethrow_keeps (throws _, s) = refl

  connect-Fits : (s : Session W) → Fits opening s (connect net s).1
  unfolding connect
  connect-Fits s = subst (Fits opening s) (sym (rethrow_keeps _)) (ends (net.connect_to s.world))
    where
      start : Session W
      start = record s { buffer = []; has_socket = true }

      ends :
          (p : Outcome (Unit {0}) × W)
          → Fits opening s (continue (on_world p start) (λ _. set_state connected)).1
      ends (fault, w) = (stay, λ _. inr refl)
      ends (throws e, w) = (stay, λ _. inr refl)
      ends (ok _, w) = (opened, λ _. inr refl)

  disconnect-Fits :
      (pause : Bool) (s : Session W) → Fits (closing pause) s (disconnect net pause s).1
  unfolding disconnect
  disconnect-Fits pause s = choice (in_state s.conn_state connected && pause)
    where
      drop_socket : Session W → Session W
      drop_socket t = record t { has_socket = false; conn_state = disconnected }

      ends :
          (p : Outcome (Unit {0}) × Session W)
          → Ends s p
          → Fits (closing pause) s (continue p (λ _ t. (ok tt, drop_socket t))).1
      ends (fault, t) h = Same-Fits (closing pause) s t h
      ends (throws e, t) h = Same-Fits (closing pause) s t h
      ends (ok _, t) h = (closed, λ _. inl refl)

      choice :
          (b : Bool)
          → Fits
              (closing pause)
              s
              (continue
                ((if b then send_pause net else return tt) s)
                (λ _ t. (ok tt, drop_socket t))).1
      choice true = ends (send_pause net s) (send_pause-Ends net s)
      choice false = (closed, λ _. inl refl)

  deadline-Fits :
      (passed : Bool) (s : Session W) → Fits (deadline passed) s (check_deadline passed s).1
  unfolding check_deadline
  deadline-Fits false s = (stay, λ h. h)
  deadline-Fits true s = choice s.has_socket
    where
      answered : Bool → Outcome (Unit {0}) × Session W
      answered b =
          if b
          then (ok tt, record s { has_socket = false; conn_state = disconnected })
          else (fault, s)

      choice : (b : Bool) → Fits (deadline true) s (answered b).1
      choice true = (expired, λ _. inl refl)
      choice false = (stay, λ h. h)

  after-Fits : (call : Call) (s : Session W) → Fits call s (after call s)
  unfolding send_start send_pause negotiate_protocol_version send_input_setup send_output_setup
      get_controller_version send
  after-Fits opening s = connect-Fits s
  after-Fits (closing pause) s = disconnect-Fits pause s
  after-Fits (deadline passed) s = deadline-Fits passed s
  after-Fits asking_start s =
      Asked-Fits asking_start refl s (after asking_start s)
        (request-Asked net rtde_control_package_start [] s)
  after-Fits asking_pause s =
      Asked-Fits asking_pause refl s (after asking_pause s)
        (request-Asked net rtde_control_package_pause [] s)
  after-Fits negotiating s =
      Asked-Fits negotiating refl s (after negotiating s)
        (request-Asked_bool net rtde_request_protocol_version (0 ∷ 2 ∷ []) s)
  after-Fits (asking_inputs names) s =
      Asked-Fits (asking_inputs names) refl s (after (asking_inputs names) s)
        (request-Asked_bool net rtde_control_package_setup_inputs (terminate_each names b',') s)
  after-Fits (asking_outputs names frequency) s =
      Asked-Fits (asking_outputs names frequency) refl s (after (asking_outputs names frequency) s)
        (request-Asked_bool net rtde_control_package_setup_outputs
          (hex_to_bytes (double2hexstr frequency) ++ terminate_each names b',')
          (record s { output_names = names }))
  after-Fits asking_version s =
      Same-Fits asking_version s (after asking_version s) (get_controller_version-Same net s)
  after-Fits (sending robot_cmd) s =
      Same-Fits (sending robot_cmd) s (after (sending robot_cmd) s)
        (send_all-Same net rtde_data_package (send_payload robot_cmd) s)

  -- Whatever the network does, and whether the call returns, throws or stops, the connection state
  -- changes along an edge of the diagram `Moves`: `connect` leads to `connected` or nowhere,
  -- `disconnect` and an expired deadline lead to `disconnected` or nowhere, a request leads to `started`
  -- or `paused` or nowhere, and the question for the version and a data package lead nowhere.
  pub after-Moves :
      (call : Call) (s : Session W) → Moves call s.conn_state (after call s).conn_state
  after-Moves call s = (after-Fits call s).0

  -- The sessions that calls lead to, from the constructor on.
  pub data Reached : Session W → Type 0 where
    constructed : (world : W) → Reached (constructor_state world)
    called : {s : Session W} (call : Call) → Reached s → Reached (after call s)

  -- After any sequence of calls, each of which may have ended in an exception, a session that is not
  -- disconnected has its socket.
  pub Reached-IsSound : {s : Session W} → Reached s → IsSound s
  Reached-IsSound (constructed world) = inl refl
  Reached-IsSound (called {s = s} call r) = (after-Fits call s).1 (Reached-IsSound r)

  -- A request on a session that has no socket, as before `connect` and behind `disconnect`, follows a
  -- null pointer, whichever request it is: the guard in `sendAll` does not keep `receive` from it.
  no_socket_faults :
      (s : Session W)
      → s.conn_state ≡ disconnected
      → s.has_socket ≡ false
      → (send_start net s ≡ (fault, s))
        × (send_pause net s ≡ (fault, s))
        × (negotiate_protocol_version net s ≡ (fault, s))
        × (get_controller_version net s ≡ (fault, s))
  unfolding send_start send_pause negotiate_protocol_version get_controller_version send_all receive
      read_message
  no_socket_faults s d e = rw (d, e) (refl, refl, refl, refl)

  -- In the state `paused` nothing is written: the requests only wait for an answer, so that a stream that
  -- was paused is not started again, and `disconnect` tells the controller nothing.
  paused_is_silent :
      (s : Session W)
      → s.conn_state ≡ paused
      → (send_start net s ≡ receive net s)
        × (send_pause net s ≡ receive net s)
        × (negotiate_protocol_version net s ≡ (receive net >> return true) s)
        × (disconnect net true s ≡ disconnect net false s)
  unfolding send_start send_pause negotiate_protocol_version send_all disconnect
  paused_is_silent s e = rw e (refl, refl, refl, refl)
