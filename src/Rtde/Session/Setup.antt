-- ===== src/Rtde/Session/Setup.antt =====
-- The requests of the class `RTDE` of src/rtde.cpp with their answers.
use ur_rtde_fork_custom.Base.{
  ℕ, ◌+◌, ◌≤◌, ◌<◌, ◌^◌, ◌≡◌, refl, subst, Bool, true, false, List, [], ◌∷◌, ◌++◌, length, arith,
  ◌==◌, if◌then◌else◌, is_empty, same_text, codes, get_elem?, get_elem?-append, some, append_assoc,
  length-append,
}
use ur_rtde_fork_custom.Base.Outcome.{ok, throws, runtime_error}
use ur_rtde_fork_custom.Base.Action.{lift, return, continue}
use ur_rtde_fork_custom.Utility.Text.{double2hexstr, hex_to_bytes, split}
use ur_rtde_fork_custom.Utility.Text.Split.{terminate_each}
use ur_rtde_fork_custom.Rtde.Command.{
  RtdeCommand, rtde_code, rtde_control_package_setup_inputs, rtde_control_package_setup_outputs,
  rtde_control_package_start, rtde_control_package_pause, ConnectionState, started, paused,
}
use ur_rtde_fork_custom.Utility.Text.Find.{contains_text}
use ur_rtde_fork_custom.Rtde.Send.{frame, header_size}
use ur_rtde_fork_custom.Rtde.Session.{
  Network, Session, is_connected, receive, send_all, send_output_setup, send_input_setup,
  send_start, send_pause, answer, command_of, report_missing, setup_outputs_answer,
  setup_inputs_answer, success_answer, set_state,
}
use ur_rtde_fork_custom.Rtde.Session.Answer.{missing_variables, not_found_indexes, list_names}
use ur_rtde_fork_custom.Rtde.Session.Version.{Delivers, read_message-frame, send_all_open}

-- The names whose type is reported as `NOT_FOUND`, and names in one text.
abbrev pub lacking : List (List ℕ) → List (List ℕ) → List (List ℕ)
lacking (type ∷ types) (name ∷ names) =
    let rest = lacking types names in
    if same_text type (codes "NOT_FOUND") then name ∷ rest else rest
lacking _ _ = []

abbrev pub join_names : List (List ℕ) → List ℕ
join_names [] = []
join_names (name ∷ names) = if is_empty names then name else name ++ codes ", " ++ join_names names

-- The text that `list_names` makes of one more index.
list_names-cons :
    (b : Bool) (i : ℕ) (indexes : List ℕ) (name : List ℕ) (names missing : List (List ℕ))
    → get_elem? names i ≡ some name
    → (list_names indexes names ≡ ok (join_names missing)) × (is_empty indexes ≡ is_empty missing)
    → (list_names (if b then i ∷ indexes else indexes) names
        ≡ ok (join_names (if b then name ∷ missing else missing)))
      × (is_empty (if b then i ∷ indexes else indexes)
          ≡ is_empty (if b then name ∷ missing else missing))
unfolding list_names
list_names-cons false i indexes name names missing e (p, q) = (p, q)
list_names-cons true i indexes name names missing e (p, q) = (rw (list_names, e, p, q) refl, refl)

not_found_indexes-lacking :
    (types names before : List (List ℕ)) (i : ℕ)
    → i ≡ length before
    → length types ≤ length names
    → (list_names (not_found_indexes i types) (before ++ names)
        ≡ ok (join_names (lacking types names)))
      × (is_empty (not_found_indexes i types) ≡ is_empty (lacking types names))
unfolding not_found_indexes list_names
not_found_indexes-lacking [] names before i e h = (refl, refl)
not_found_indexes-lacking (type ∷ types) [] before i e h = absurd (omega (arith, h))
not_found_indexes-lacking (type ∷ types) (name ∷ names) before i e h =
    list_names-cons (same_text type (codes "NOT_FOUND")) i (not_found_indexes (i + 1) types) name
      (before ++ name ∷ names) (lacking types names)
      (get_elem?-append before (name ∷ names) i 0 (omega (arith, e)))
      (subst
        (λ all.
          (list_names (not_found_indexes (i + 1) types) all ≡ ok (join_names (lacking types names)))
          × (is_empty (not_found_indexes (i + 1) types) ≡ is_empty (lacking types names)))
        (append_assoc before (name ∷ []) names)
        (not_found_indexes-lacking types names (before ++ name ∷ []) (i + 1)
          (omega (arith, e, length-append before (name ∷ []))) (omega (arith, h))))

-- If the controller answers with at most one type for each variable, the error names exactly the
-- variables whose type is `NOT_FOUND`, in their order, and no read is out of range.
pub missing_variables-lacking :
    (output_types output_names : List (List ℕ))
    → length output_types ≤ length output_names
    → missing_variables output_types output_names
      ≡ ok (join_names (lacking output_types output_names))
unfolding missing_variables
missing_variables-lacking types names h = (not_found_indexes-lacking types names [] 0 refl h).0

-- The two requests about the stream, and the states that they aim at.
abbrev pub question : Bool → RtdeCommand
question true = rtde_control_package_start
question false = rtde_control_package_pause

abbrev pub aim : Bool → ConnectionState
aim true = started
aim false = paused

set_unless :
    {W : Type 0} (test : Bool) (state : ConnectionState) (s : Session W)
    → (if test then return tt else set_state state) s
      ≡ (ok tt, record s { conn_state = if test then s.conn_state else state })
set_unless true state s = refl
set_unless false state s = refl

-- The rest of the setup requests behind the test on the answer.
refuse :
    {W : Type 0} (test : Bool) (s : Session W)
    → continue ((if test then lift (throws runtime_error) else return tt) s) (λ _. return true)
      ≡ (if test then throws runtime_error else ok true, s)
refuse true s = refl
refuse false s = refl

refuse_missing :
    {W : Type 0} (test : Bool) (s : Session W) (vars_not_found : List ℕ)
    → missing_variables s.output_types s.output_names ≡ ok vars_not_found
    → continue ((if test then report_missing else return tt) s) (λ _. return true)
      ≡ (if test then throws runtime_error else ok true, s)
unfolding report_missing
refuse_missing true s text e = rw e refl
refuse_missing false s text e = refl

module _ {W : Type 0} (net : Network W) where
  -- A request on an open connection comes down to the switch on the answer.
  request-answer :
      (command : RtdeCommand) (payload : List ℕ) (reply : ℕ) (body : List ℕ) (s : Session W)
      (asked after : W)
      → is_connected s ≡ true
      → s.has_socket ≡ true
      → length body + header_size < 2 ^ 16
      → net.write (frame (rtde_code command) payload) s.world ≡ (ok tt, asked)
      → Delivers net reply body asked after
      → (send_all net command payload s ≡ (ok tt, record s { world = asked }))
        × (receive net (record s { world = asked })
            ≡ answer (command_of reply) body (record s { world = after }))
  unfolding receive
  request-answer command payload reply body s asked after conn sock short wrote delivered = (
    send_all_open net command payload s asked conn sock wrote,
    rw (read_message-frame net reply body (record s { world = asked }) after sock short delivered)
        refl,
  )

  -- On an open connection, `sendOutputSetup` keeps the names, sends them behind the frequency, and
  -- keeps the types that the controller answers. It throws `std::runtime_error` exactly if the
  -- answer holds the text `NOT_FOUND`, and returns `true` otherwise. Conditions: the write
  -- succeeds, the whole answer arrives, and it has at most one type for each name; with more types
  -- the source reads out of range.
  pub send_output_setup-answer :
      (output_names : List (List ℕ)) (frequency id : ℕ) (types : List ℕ) (s : Session W)
      (asked after : W)
      → is_connected s ≡ true
      → s.has_socket ≡ true
      → length types + 1 + header_size < 2 ^ 16
      → length (split types b',') ≤ length output_names
      → net.write
          (frame
            (rtde_code rtde_control_package_setup_outputs)
            (hex_to_bytes (double2hexstr frequency) ++ terminate_each output_names b','))
          s.world
        ≡ (ok tt, asked)
      → Delivers net (rtde_code rtde_control_package_setup_outputs) (id ∷ types) asked after
      → send_output_setup net output_names frequency s ≡ (
        if contains_text (codes "NOT_FOUND") types then throws runtime_error else ok true,
        record s { output_names = output_names; output_types = split types b','; world = after },
      )
  unfolding send_output_setup answer setup_outputs_answer command_of rtde_code report_missing
  send_output_setup-answer names f id types s asked after conn sock short few wrote delivered =
      let start = record s { output_names = names } in
      let steps =
        request-answer rtde_control_package_setup_outputs
          (hex_to_bytes (double2hexstr f) ++ terminate_each names b',')
          (rtde_code rtde_control_package_setup_outputs) (id ∷ types) start asked after conn sock
          (omega (arith, short)) wrote delivered in
      rw (steps.0, steps.1)
        (refuse_missing (contains_text (codes "NOT_FOUND") types)
          (record s { output_names = names; output_types = split types b','; world = after })
          (join_names (lacking (split types b',') names))
          (missing_variables-lacking (split types b',') names few))

  -- On an open connection, `sendInputSetup` sends the names, each with a comma behind it. It throws
  -- `std::runtime_error` exactly if the answer holds the text `IN_USE`, and returns `true` otherwise.
  send_input_setup-answer :
      (input_names : List (List ℕ)) (id : ℕ) (types : List ℕ) (s : Session W) (asked after : W)
      → is_connected s ≡ true
      → s.has_socket ≡ true
      → length types + 1 + header_size < 2 ^ 16
      → net.write
          (frame (rtde_code rtde_control_package_setup_inputs) (terminate_each input_names b','))
          s.world
        ≡ (ok tt, asked)
      → Delivers net (rtde_code rtde_control_package_setup_inputs) (id ∷ types) asked after
      → send_input_setup net input_names s ≡ (
        if contains_text (codes "IN_USE") types then throws runtime_error else ok true,
        record s { world = after },
      )
  unfolding send_input_setup answer setup_inputs_answer command_of rtde_code
  send_input_setup-answer names id types s asked after conn sock short wrote delivered =
      let steps =
        request-answer rtde_control_package_setup_inputs (terminate_each names b',')
          (rtde_code rtde_control_package_setup_inputs) (id ∷ types) s asked after conn sock
          (omega (arith, short)) wrote delivered in
      rw (steps.0, steps.1)
        (refuse (contains_text (codes "IN_USE") types) (record s { world = after }))

  -- On an open connection, `sendStart` leads to `started` and `sendPause` to `paused` if the success
  -- byte of the answer is not 0; with 0 the state stays, and the call returns all the same.
  pub send_start-answer :
      (starting : Bool) (success : ℕ) (rest : List ℕ) (s : Session W) (asked after : W)
      → is_connected s ≡ true
      → s.has_socket ≡ true
      → length rest + 1 + header_size < 2 ^ 16
      → net.write (frame (rtde_code (question starting)) []) s.world ≡ (ok tt, asked)
      → Delivers net (rtde_code (question starting)) (success ∷ rest) asked after
      → (if starting then send_start net else send_pause net) s ≡ (
        ok tt,
        record s {
          world = after;
          conn_state = if success == 0 then s.conn_state else aim starting;
        },
      )
  unfolding send_start send_pause answer success_answer command_of rtde_code
  send_start-answer true success rest s asked after conn sock short wrote delivered =
      let steps =
        request-answer rtde_control_package_start [] (rtde_code rtde_control_package_start)
          (success ∷ rest) s asked after conn sock (omega (arith, short)) wrote delivered in
      rw (steps.0, steps.1) (set_unless (success == 0) started (record s { world = after }))
  send_start-answer false success rest s asked after conn sock short wrote delivered =
      let steps =
        request-answer rtde_control_package_pause [] (rtde_code rtde_control_package_pause)
          (success ∷ rest) s asked after conn sock (omega (arith, short)) wrote delivered in
      rw (steps.0, steps.1) (set_unless (success == 0) paused (record s { world = after }))
