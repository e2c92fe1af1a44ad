-- ===== src/Rtde/Session/Effects.antt =====
-- What the requests of the class `RTDE` of src/rtde.cpp do to the connection state and to the socket.
use ur_rtde_fork_custom.Base.{
  ℕ, ◌≡◌, refl, sym, subst, ◌∙◌, Bool, true, false, ◌⊎◌, inl, inr, List, [], ◌∷◌, if◌then◌else◌,
  ◌==◌, codes, Option, none, some,
}
use ur_rtde_fork_custom.Base.Outcome.{Outcome, ok, throws, fault, runtime_error}
use ur_rtde_fork_custom.Base.Action.{
  Action, return, lift, continue, ◌>>◌, Obeys, Obeys-bind, Obeys-then, Obeys-continue,
}
use ur_rtde_fork_custom.Utility.Text.{split}
use ur_rtde_fork_custom.Utility.{get_uint16}
use ur_rtde_fork_custom.Utility.Text.Find.{contains_text}
use ur_rtde_fork_custom.Rtde.Send.{frame, header_size}
use ur_rtde_fork_custom.Rtde.Command.{
  RtdeCommand, rtde_code, rtde_request_protocol_version, rtde_get_urcontrol_version,
  rtde_text_message, rtde_data_package, rtde_control_package_setup_outputs,
  rtde_control_package_setup_inputs, rtde_control_package_start, rtde_control_package_pause,
  ConnectionState, started, paused,
}
use ur_rtde_fork_custom.Rtde.Session.{
  Network, Session, on_socket, set_state, is_connected, report_missing, setup_outputs_answer,
  setup_inputs_answer, success_answer, answer, command_of, body_size, read_message, receive,
  send_all, send_pause, get_controller_version, is_command,
}
use ur_rtde_fork_custom.Rtde.Session.Answer.{read_version, byte_at, missing_variables}

-- What an accepted answer makes of the state.
abbrev pub Settled : ConnectionState → ConnectionState → Type 0
Settled before after = (after ≡ before) ⊎ ((after ≡ started) ⊎ (after ≡ paused))

Settled-chain : (a b c : ConnectionState) → Settled a b → Settled b c → Settled a c
Settled-chain a b c h (inl k) = subst (Settled a) (sym k) h
Settled-chain a b c h (inr k) = inr k

module _ {W : Type 0} where
  -- What an exception leaves alone.
  abbrev pub Same : Session W → Session W → Type 0
  Same s t = (t.conn_state ≡ s.conn_state) × (t.has_socket ≡ s.has_socket)

  Same-chain : (a b c : Session W) → Same a b → Same b c → Same a c
  Same-chain a b c (p, q) (p', q') = (p' ∙ p, q' ∙ q)

  -- How a request ends: an exception leaves the state alone.
  abbrev pub Ends : Session W → Outcome (Unit {0}) × Session W → Type 0
  Ends s (fault, t) = Same s t
  Ends s (throws e, t) = Same s t
  Ends s (ok _, t) = Settled s.conn_state t.conn_state × (t.has_socket ≡ s.has_socket)

  Same→Ends : (s : Session W) (p : Outcome (Unit {0}) × Session W) → Same s p.1 → Ends s p
  Same→Ends s (fault, t) h = h
  Same→Ends s (throws e, t) h = h
  Same→Ends s (ok _, t) (h, k) = (inl h, k)

  Ends-from :
      (s t : Session W) (p : Outcome (Unit {0}) × Session W) → Same s t → Ends t p → Ends s p
  Ends-from s t (fault, u) h k = Same-chain s t u h k
  Ends-from s t (throws e, u) h k = Same-chain s t u h k
  Ends-from s t (ok _, u) (h, h') (k, k') = (subst (λ c. Settled c u.conn_state) h k, k' ∙ h')

  Ends-continue :
      {A : Type 0} (s : Session W) (p : Outcome A × Session W)
      (rest : A → Action (Session W) (Unit {0}))
      → Same s p.1
      → ((a : A) (t : Session W) → Ends t (rest a t))
      → Ends s (continue p rest)
  Ends-continue s (fault, t) rest h k = h
  Ends-continue s (throws e, t) rest h k = h
  Ends-continue s (ok a, t) rest h k = Ends-from s t (rest a t) h (k a t)

  Same-if :
      {A : Type 0} (s : Session W) (b : Bool) (p q : Outcome A × Session W)
      → (b ≡ true → Same s p.1)
      → (b ≡ false → Same s q.1)
      → Same s (if b then p else q).1
  Same-if s true p q h k = h refl
  Same-if s false p q h k = k refl

  on_socket-Same : {A : Type 0} (operation : Action W A) → Obeys Same (on_socket operation)
  on_socket-Same operation s = Same-if s s.has_socket _ _ (λ _. (refl, refl)) (λ _. (refl, refl))

  quiet : {A : Type 0} (m : Outcome A) → Obeys Same (lift m)
  quiet m s = (refl, refl)

  report_missing-Same : Obeys Same report_missing
  unfolding report_missing
  report_missing-Same s =
      Obeys-continue Same s Same-chain (missing_variables s.output_types s.output_names, s) _
        (refl, refl) (λ _ t. (refl, refl))

  setup_outputs_answer-Same : (data' : List ℕ) → Obeys Same (setup_outputs_answer data')
  unfolding setup_outputs_answer
  setup_outputs_answer-Same [] s = (refl, refl)
  setup_outputs_answer-Same (id ∷ types) s =
      choice (contains_text (codes "NOT_FOUND") types)
        (record s { output_types = split types b',' })
    where
      choice : (b : Bool) (t : Session W) → Same t ((if b then report_missing else return tt) t).1
      choice true t = report_missing-Same t
      choice false t = (refl, refl)

  setup_inputs_answer-Same : (data' : List ℕ) → Obeys Same (setup_inputs_answer data')
  unfolding setup_inputs_answer
  setup_inputs_answer-Same [] s = (refl, refl)
  setup_inputs_answer-Same (id ∷ types) s = choice (contains_text (codes "IN_USE") types) s
    where
      choice :
          (b : Bool) (t : Session W)
          → Same t ((if b then lift (throws runtime_error) else return tt) t).1
      choice true t = (refl, refl)
      choice false t = (refl, refl)

  success_answer-Ends :
      (state : ConnectionState)
      → (state ≡ started) ⊎ (state ≡ paused)
      → (data' : List ℕ) (s : Session W) → Ends s (success_answer state data' s)
  unfolding success_answer
  success_answer-Ends state h data' s =
      Ends-continue s (lift (byte_at data' 0) s) _ (refl, refl)
        (λ success t. Ends-choice (success == 0) t)
    where
      Ends-choice :
          (b : Bool) (t : Session W) → Ends t ((if b then return tt else set_state state) t)
      Ends-choice true t = (inl refl, refl)
      Ends-choice false t = (inr h, refl)

  answer-Ends :
      (command : Option RtdeCommand) (data' : List ℕ) (s : Session W)
      → Ends s (answer command data' s)
  unfolding answer
  answer-Ends none data' s = (inl refl, refl)
  answer-Ends (some rtde_request_protocol_version) data' s = (inl refl, refl)
  answer-Ends (some rtde_get_urcontrol_version) data' s = (inl refl, refl)
  answer-Ends (some rtde_data_package) data' s = (inl refl, refl)
  answer-Ends (some rtde_text_message) data' s =
      Ends-continue s (lift (byte_at data' 0) s) (λ _. return tt) (refl, refl)
        (λ _ t. (inl refl, refl))
  answer-Ends (some rtde_control_package_setup_inputs) data' s =
      Same→Ends s (setup_inputs_answer data' s) (setup_inputs_answer-Same data' s)
  answer-Ends (some rtde_control_package_setup_outputs) data' s =
      Same→Ends s (setup_outputs_answer data' s) (setup_outputs_answer-Same data' s)
  answer-Ends (some rtde_control_package_start) data' s =
      success_answer-Ends started (inl refl) data' s
  answer-Ends (some rtde_control_package_pause) data' s =
      success_answer-Ends paused (inr refl) data' s

  -- What a request may do, however it ends: without a socket it changes nothing.
  abbrev pub Asked : Session W → Session W → Type 0
  Asked s t =
      (t.has_socket ≡ s.has_socket)
      × Settled s.conn_state t.conn_state
      × (s.has_socket ≡ false → t.conn_state ≡ s.conn_state)

  Asked-chain : (a b c : Session W) → Asked a b → Asked b c → Asked a c
  Asked-chain a b c (p, q, r) (p', q', r') =
      (p' ∙ p, Settled-chain a.conn_state b.conn_state c.conn_state q q', λ e. r' (p ∙ e) ∙ r e)

  Same→Asked : (s t : Session W) → Same s t → Asked s t
  Same→Asked s t (h, k) = (k, inl h, λ _. h)

  Ends-Settled :
      (s : Session W) (p : Outcome (Unit {0}) × Session W)
      → Ends s p
      → Settled s.conn_state p.1.conn_state
  Ends-Settled s (fault, t) h = inl h.0
  Ends-Settled s (throws e, t) h = inl h.0
  Ends-Settled s (ok _, t) h = h.0

  Ends-socket :
      (s : Session W) (p : Outcome (Unit {0}) × Session W)
      → Ends s p
      → p.1.has_socket ≡ s.has_socket
  Ends-socket s (fault, t) h = h.1
  Ends-socket s (throws e, t) h = h.1
  Ends-socket s (ok _, t) h = h.1

  module _ (net : Network W) where
    read_message-Same : Obeys Same (read_message net)
    unfolding read_message
    read_message-Same s =
        Obeys-continue Same s Same-chain (on_socket (net.read header_size) s) _
          (on_socket-Same (net.read header_size) s)
          (λ header.
            Obeys-bind Same Same-chain (lift (get_uint16 header 0)) _ (quiet (get_uint16 header 0))
              (λ size.
                Obeys-bind Same Same-chain (lift (byte_at header 2)) _ (quiet (byte_at header 2))
                  (λ msg_cmd.
                    Obeys-bind Same Same-chain (on_socket (net.read (body_size size.0))) _
                      (on_socket-Same (net.read (body_size size.0))) (λ _ t. (refl, refl)))))

    receive-Ends : (s : Session W) → Ends s (receive net s)
    unfolding receive
    receive-Ends s =
        Ends-continue s (read_message net s) _ (read_message-Same s)
          (λ m t. answer-Ends (command_of m.0) m.1 t)

    pub send_all-Same :
        (command : RtdeCommand) (payload : List ℕ) → Obeys Same (send_all net command payload)
    unfolding send_all
    send_all-Same command payload s =
        Same-if s (is_connected s) _ _
          (λ _. on_socket-Same (net.write (frame (rtde_code command) payload)) s)
          (λ _. (refl, refl))

    pub send_pause-Ends : (s : Session W) → Ends s (send_pause net s)
    unfolding send_pause
    send_pause-Ends s =
        Ends-continue s (send_all net rtde_control_package_pause [] s) _
          (send_all-Same rtde_control_package_pause [] s) (λ _ t. receive-Ends t)

    -- Without a socket a request follows a null pointer.
    receive_no_socket : (s : Session W) → s.has_socket ≡ false → receive net s ≡ (fault, s)
    unfolding receive read_message
    receive_no_socket s e = rw e refl

    receive-Asked : Obeys Asked (receive net)
    receive-Asked s = (
      Ends-socket s (receive net s) (receive-Ends s),
      Ends-Settled s (receive net s) (receive-Ends s),
      λ e. rw (receive_no_socket s e) refl,
    )

    pub request-Asked :
        (command : RtdeCommand) (payload : List ℕ)
        → Obeys Asked (send_all net command payload >> receive net)
    request-Asked command payload =
        Obeys-then Asked Asked-chain (send_all net command payload) (receive net)
          (λ s. Same→Asked s (send_all net command payload s).1 (send_all-Same command payload s))
          receive-Asked

    pub request-Asked_bool :
        (command : RtdeCommand) (payload : List ℕ)
        → Obeys Asked (send_all net command payload >> (receive net >> return true))
    request-Asked_bool command payload =
        Obeys-then Asked Asked-chain (send_all net command payload) (receive net >> return true)
          (λ s. Same→Asked s (send_all net command payload s).1 (send_all-Same command payload s))
          (Obeys-then Asked Asked-chain (receive net) (return true) receive-Asked
            (λ t. (refl, inl refl, λ _. refl)))

    pub get_controller_version-Same : Obeys Same (get_controller_version net)
    unfolding get_controller_version
    get_controller_version-Same s =
        Obeys-continue Same s Same-chain (send_all net rtde_get_urcontrol_version [] s) _
          (send_all-Same rtde_get_urcontrol_version [] s)
          (λ _ t.
            Obeys-continue Same t Same-chain (read_message net t) _ (read_message-Same t)
              (λ m u. choice (is_command m.0 rtde_get_urcontrol_version) m.1 u))
      where
        choice :
            (b : Bool) (data' : List ℕ) (t : Session W)
            → Same t ((if b then lift (read_version data') else return (0, 0, 0, 0)) t).1
        choice true data' t = (refl, refl)
        choice false data' t = (refl, refl)
