-- ===== src/Control/Upload/Kept.antt =====
-- What the steps of an upload leave alone, in src/rtde_control_interface.cpp.
use ur_rtde_fork_custom.Base.{
  ℕ, zero, suc, ◌+◌, ◌≡◌, refl, ap, ◌∙◌, Bool, true, false, List, Option, none, some, if◌then◌else◌,
  ltb, not, ◌&&◌, is_empty, length, ◌==◌,
}
use ur_rtde_fork_custom.Base.Outcome.{Outcome, ok, throws, fault}
use ur_rtde_fork_custom.Base.Action.{
  Action, return, lift, continue, Obeys, Obeys-bind, Obeys-then, Obeys-if, ◌>>=◌,
}
use ur_rtde_fork_custom.Rtde.Command.{RobotCommand}
use ur_rtde_fork_custom.Script.Removal.{remove_unsupported_functions}
use ur_rtde_fork_custom.Script.Injection.{scan_and_inject}
use ur_rtde_fork_custom.Script.Client.{
  ScriptWorld, ScriptClient, send_script, send_script_file, send_script_command, send_supported,
  send_loaded, send_text, on_world, on_socket, load_or, control_program,
}
use ur_rtde_fork_custom.Control.Upload.{
  Controller, ControlInterface, on_client, on_controller, behind, within, recover, send_command,
  stop_script, wait_running, wait_for_program_running,
}

-- Only the world changes.
abbrev pub OnlyWorld : {W : Type 0} → ScriptClient W → ScriptClient W → Type 0
OnlyWorld s t = t ≡ record s { world = t.world }

OnlyWorld-chain :
    {W : Type 0} (a b c : ScriptClient W) → OnlyWorld a b → OnlyWorld b c → OnlyWorld a c
OnlyWorld-chain {W} a b c h k = k ∙ ap (λ (t : ScriptClient W). record t { world = c.world }) h

abbrev pub Untouched : {W : Type 0} → ControlInterface W → ControlInterface W → Type 0
Untouched s t =
    t ≡ record s { script_client = record s.script_client { world = t.script_client.world } }

pub Untouched-chain :
    {W : Type 0} (a b c : ControlInterface W) → Untouched a b → Untouched b c → Untouched a c
Untouched-chain {W} a b c h k =
    k
    ∙ ap
        (λ (t : ControlInterface W). record t {
          script_client = record t.script_client { world = c.script_client.world };
        })
        h

pub on_client-Untouched :
    {W A : Type 0} (operation : Action (ScriptClient W) A)
    → Obeys OnlyWorld operation
    → Obeys Untouched (on_client operation)
on_client-Untouched operation h s =
    ap (λ client. record s { script_client = client }) (h s.script_client)

pub on_controller-Untouched :
    {W A : Type 0} (operation : Action W A) → Obeys Untouched (on_controller operation)
on_controller-Untouched operation s = refl

module _ {W : Type 0} where
  on_socket-OnlyWorld :
      {A : Type 0} (operation : Action W A) → Obeys OnlyWorld (on_socket operation)
  on_socket-OnlyWorld operation s = choice s.has_socket
    where
      choice : (b : Bool) → OnlyWorld s (if b then on_world (operation s.world) s else (fault, s)).1
      choice true = refl
      choice false = refl

module _ {W : Type 0} (net : ScriptWorld W) where
  written-OnlyWorld :
      {A : Type 0} (text : List ℕ) (result : ℕ → A)
      → Obeys OnlyWorld (on_socket (net.write text) >>= (λ n. return (result n)))
  written-OnlyWorld text result =
      Obeys-bind OnlyWorld OnlyWorld-chain (on_socket (net.write text)) _
        (on_socket-OnlyWorld (net.write text)) (λ n s. refl)

  pub send_script_command-OnlyWorld : (cmd : List ℕ) → Obeys OnlyWorld (send_script_command net cmd)
  unfolding send_script_command
  send_script_command-OnlyWorld cmd s =
      Obeys-if OnlyWorld (s.is_connected && not (is_empty cmd)) _ _
        (written-OnlyWorld cmd (λ n. true)) (λ t. refl) s

  send_text-OnlyWorld : (text : List ℕ) → Obeys OnlyWorld (send_text net text)
  send_text-OnlyWorld text s =
      Obeys-if OnlyWorld (s.is_connected && not (is_empty text)) _ _
        (written-OnlyWorld text (λ n. length text == n)) (λ t. refl) s

  lifted-OnlyWorld :
      {A B : Type 0} (m : Outcome A) (rest : A → Action (ScriptClient W) B)
      → ((a : A) → Obeys OnlyWorld (rest a))
      → Obeys OnlyWorld (lift m >>= rest)
  lifted-OnlyWorld m rest h = Obeys-bind OnlyWorld OnlyWorld-chain (lift m) rest (λ s. refl) h

  send_supported-OnlyWorld :
      (client : ScriptClient W) (success : Bool) (text : List ℕ)
      → Obeys OnlyWorld (send_supported net client (success, text))
  unfolding send_supported
  send_supported-OnlyWorld client false text = λ s. refl
  send_supported-OnlyWorld client true text =
      lifted-OnlyWorld (scan_and_inject client.verbose client.script_injections text) _ (λ extended.
        lifted-OnlyWorld (net.script_format extended client.heartbeat_ip client.heartbeat_port)
          (send_text net) send_text-OnlyWorld)

  pub send_script-OnlyWorld : Obeys OnlyWorld (send_script net)
  unfolding send_script
  send_script-OnlyWorld s =
      lifted-OnlyWorld
        (remove_unsupported_functions s.version (load_or net (control_program net) s))
        (send_supported net s) (λ edited. send_supported-OnlyWorld s edited.0 edited.1) s

  loaded : (text : Option (List ℕ)) → Obeys OnlyWorld (send_loaded net text)
  unfolding send_loaded
  loaded none = λ s. refl
  loaded (some text) = send_script_command-OnlyWorld text

  pub send_script_file-OnlyWorld :
      (file_name : List ℕ) → Obeys OnlyWorld (send_script_file net file_name)
  unfolding send_script_file
  send_script_file-OnlyWorld file_name s = loaded (net.read_file file_name s.world) s

module _ {W : Type 0} (net : ScriptWorld W) (controller : Controller W)
    (memory : RobotCommand) where
  -- `sendCommand` never reconnects: behind an exception in its `try` block the connection is open.
  abbrev pub NeverReconnects : Type 0
  NeverReconnects =
      (cmd : RobotCommand) (w w' : W)
      → controller.try_command cmd w ≡ (ok none, w')
      → controller.is_connected w' ≡ true

  recover-Untouched :
      (cmd : RobotCommand) (answer : Option Bool) (s : ControlInterface W)
      → (answer ≡ none → controller.is_connected s.script_client.world ≡ true)
      → Untouched s (recover net controller memory cmd answer s).1
  unfolding recover
  recover-Untouched cmd (some answer) s link = refl
  recover-Untouched cmd none s link = rw (link refl) (
      Obeys-then Untouched Untouched-chain (on_controller controller.send_clear_command)
        (return false) (on_controller-Untouched controller.send_clear_command) (λ t. refl) s)

  pub send_command-Untouched :
      NeverReconnects
      → (cmd : RobotCommand) → Obeys Untouched (send_command net controller memory cmd)
  unfolding send_command
  send_command-Untouched never cmd s =
      by_answer (controller.try_command cmd s.script_client.world) refl
    where
      by_answer :
          (p : Outcome (Option Bool) × W)
          → controller.try_command cmd s.script_client.world ≡ p
          → Untouched s
              (continue (behind s (within s.script_client p)) (recover net controller memory cmd)).1
      by_answer (fault, w) e = refl
      by_answer (throws x, w) e = refl
      by_answer (ok answer, w) e =
          recover-Untouched cmd answer
            (record s { script_client = record s.script_client { world = w } })
            (λ nothing.
              never cmd s.script_client.world w (e ∙ ap (λ (a : Option Bool). (ok a, w)) nothing))

  pub stop_script-Untouched : NeverReconnects → Obeys Untouched (stop_script net controller memory)
  unfolding stop_script
  stop_script-Untouched never =
      Obeys-bind Untouched Untouched-chain (send_command net controller memory _) _
        (send_command-Untouched never _) (λ stopped s. refl)

  pub wait_running-Untouched :
      (fuel : ℕ) → Obeys Untouched (wait_running net controller memory fuel)
  unfolding wait_running
  wait_running-Untouched zero = λ s. refl
  wait_running-Untouched (suc fuel) =
      Obeys-bind Untouched Untouched-chain (on_controller controller.is_program_running) _
        (on_controller-Untouched controller.is_program_running)
        (λ running. Obeys-if Untouched running _ _ (λ s. refl) (wait_running-Untouched fuel))

  pub wait_for_program_running-Untouched :
      (fuel ms_count : ℕ)
      → Obeys Untouched (wait_for_program_running net controller memory fuel ms_count)
  unfolding wait_for_program_running
  wait_for_program_running-Untouched zero ms_count = λ s. refl
  wait_for_program_running-Untouched (suc fuel) ms_count =
      Obeys-bind Untouched Untouched-chain (on_controller controller.is_program_running) _
        (on_controller-Untouched controller.is_program_running)
        (λ running.
          Obeys-if Untouched running _ _ (λ s. refl)
            (Obeys-if Untouched (ltb 5000 (ms_count + 10)) _ _ (λ s. refl)
              (wait_for_program_running-Untouched fuel (ms_count + 10))))
