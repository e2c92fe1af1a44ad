-- ===== src/Script/Client/Sent.antt =====
-- What `ScriptClient` of src/script_client.cpp writes to the controller.
use ur_rtde_fork_custom.Base.{
  ℕ, ◌<◌, ◌≡◌, refl, sym, ap, ◌∙◌, ◌⊎◌, inl, inr, Bool, true, false, List, [], ◌∷◌, ◌++◌, Option,
  none, some, codes, if◌then◌else◌, ◌==◌, is_empty, length, append_assoc, arith,
}
use ur_rtde_fork_custom.Base.Outcome.{ok}
use ur_rtde_fork_custom.Base.Action.{lift, Obeys, Obeys-continue}
use ur_rtde_fork_custom.Script.Removal.{remove_unsupported_functions}
use ur_rtde_fork_custom.Script.Removal.Tags.{tag_text}
use ur_rtde_fork_custom.Script.Removal.Lines.{
  Line, plain, tagged, AreLines, source, supported_source,
}
use ur_rtde_fork_custom.Script.Removal.Supported.{remove_unsupported_functions-source}
use ur_rtde_fork_custom.Script.Injection.{scan_and_inject}
use ur_rtde_fork_custom.Script.Client.{
  ScriptWorld, ScriptClient, send_script, send_script_command, send_script_file, load_or,
  control_program, send_text, send_supported, send_loaded, chosen,
}

-- The lines of the program around those of the script.
abbrev pub program : List Line → List Line
program ls = plain (codes "def rtde_control():") ∷ (ls ++ plain (codes "end") ∷ [])

source-append : (ls ms : List Line) → source (ls ++ ms) ≡ source ls ++ source ms
source-append [] ms = refl
source-append (plain s ∷ ls) ms =
    ap (λ t. s ++ b'\n' ∷ t) (source-append ls ms)
    ∙ sym (append_assoc s (b'\n' ∷ source ls) (source ms))
source-append (tagged before t body ∷ ls) ms =
    ap (λ r. before ++ b'$' ∷ (tag_text t ++ (body ++ b'\n' ∷ r))) (source-append ls ms)
    ∙ ap (λ r. before ++ b'$' ∷ (tag_text t ++ r))
        (sym (append_assoc body (b'\n' ∷ source ls) (source ms)))
    ∙ ap (λ r. before ++ b'$' ∷ r)
        (sym (append_assoc (tag_text t) (body ++ b'\n' ∷ source ls) (source ms)))
    ∙ sym (append_assoc before (b'$' ∷ (tag_text t ++ (body ++ b'\n' ∷ source ls))) (source ms))

AreLines-append : (ls ms : List Line) → AreLines ls → AreLines ms → AreLines (ls ++ ms)
AreLines-append [] ms h k = k
AreLines-append (l ∷ ls) ms h k = (h.0, AreLines-append ls ms h.1 k)

-- A client that is not connected is left as it is.
abbrev Silent : {W : Type 0} → ScriptClient W → ScriptClient W → Type 0
Silent s t = s.is_connected ≡ false → t ≡ s

Silent-chain : {W : Type 0} (a b c : ScriptClient W) → Silent a b → Silent b c → Silent a c
Silent-chain a b c h k off = k (ap (λ t. t.is_connected) (h off) ∙ off) ∙ h off

module _ {W : Type 0} (net : ScriptWorld W) where
  send_text-Silent : (text : List ℕ) → Obeys Silent (send_text net text)
  send_text-Silent text s off = rw off refl

  send_supported-Silent :
      (client : ScriptClient W) (success : Bool) (text : List ℕ)
      → Obeys Silent (send_supported net client (success, text))
  unfolding send_supported
  send_supported-Silent client false text s = λ off. refl
  send_supported-Silent client true text s =
      Obeys-continue Silent s Silent-chain
        (lift (scan_and_inject client.verbose client.script_injections text) s) _ (λ _. refl)
        (λ extended t.
          Obeys-continue Silent t Silent-chain
            (lift (net.script_format extended client.heartbeat_ip client.heartbeat_port) t)
            (send_text net) (λ _. refl) send_text-Silent)

  send_loaded-silent :
      (s : ScriptClient W) (text : Option (List ℕ))
      → s.is_connected ≡ false
      → send_loaded net text s ≡ (ok false, s)
  unfolding send_loaded send_script_command
  send_loaded-silent s none off = refl
  send_loaded-silent s (some text) off = rw off refl

  send_script-Silent : Obeys Silent (send_script net)
  unfolding send_script
  send_script-Silent s =
      Obeys-continue Silent s Silent-chain
        (lift (remove_unsupported_functions s.version (load_or net (control_program net) s)) s)
        (send_supported net s) (λ _. refl) (λ edited. send_supported-Silent s edited.0 edited.1)

  -- A client that is not connected writes nothing: a command or a file is refused, and `sendScript`
  -- leaves the client and the world as they are, however it ends.
  disconnected_is_silent :
      (s : ScriptClient W) (cmd_str file_name : List ℕ)
      → s.is_connected ≡ false
      → (send_script_command net cmd_str s ≡ (ok false, s))
        × (send_script_file net file_name s ≡ (ok false, s))
        × ((send_script net s).1 ≡ s)
  unfolding send_script_command send_script_file
  disconnected_is_silent s cmd_str file_name off = (
    rw off refl,
    send_loaded-silent s (net.read_file file_name s.world) off,
    send_script-Silent s off,
  )

  send_text-sent :
      (s : ScriptClient W) (text : List ℕ) (w : W)
      → is_empty text ≡ false
      → s.is_connected ≡ true
      → s.has_socket ≡ true
      → net.write text s.world ≡ (ok (length text), w)
      → send_text net text s ≡ (ok true, record s { world = w })
  send_text-sent s text w full on socket written =
      let all : length text == length text ≡ true = ground arith in
      simp (on, full, socket, written, all)

  -- No script file is set, or it cannot be read.
  abbrev pub UsesInternal : ScriptClient W → Type 0
  UsesInternal s = (s.script_file_name ≡ []) ⊎ (net.read_file s.script_file_name s.world ≡ none)

  load_or-internal :
      (s : ScriptClient W) (internal : List ℕ) → UsesInternal s → load_or net internal s ≡ internal
  load_or-internal s internal (inl e) = rw e refl
  load_or-internal s internal (inr e) = unread (is_empty s.script_file_name)
    where
      unread :
          (unset : Bool)
          → (if unset
              then internal
              else chosen net internal (net.read_file s.script_file_name s.world))
            ≡ internal
      unread true = refl
      unread false = rw e refl

  control_program-source :
      (ls : List Line) → net.ur_script ≡ source ls → control_program net ≡ source (program ls)
  control_program-source ls e = rw e (
      ap (λ t. codes "def rtde_control():" ++ b'\n' ∷ t)
        (sym (source-append ls (plain (codes "end") ∷ []))))

  module _ (s : ScriptClient W) (ls : List Line) (extended text : List ℕ) where
    -- A connected client without a script file that it can read sends the program of the script's
    -- lines that the controller supports, with the injections and formatted with the heartbeat's
    -- address, and reports success. Conditions: the controller's major version is not 0, the
    -- generated script consists of such lines, the injections and the formatting return, the text
    -- is not empty, and the socket writes all of it.
    pub send_script-source :
        (w : W)
        → 0 < s.version.major
        → AreLines ls
        → net.ur_script ≡ source ls
        → UsesInternal s
        → scan_and_inject s.verbose s.script_injections (supported_source s.version (program ls))
          ≡ ok extended
        → net.script_format extended s.heartbeat_ip s.heartbeat_port ≡ ok text
        → is_empty text ≡ false
        → s.is_connected ≡ true
        → s.has_socket ≡ true
        → net.write text s.world ≡ (ok (length text), w)
        → send_script net s ≡ (ok true, record s { world = w })
    unfolding send_script
    send_script-source w positive lines script internal scan formatted full on socket written =
        let edited : remove_unsupported_functions s.version (load_or net (control_program net) s)
            ≡ ok (true, supported_source s.version (program ls)) =
          ap (remove_unsupported_functions s.version)
            (load_or-internal s (control_program net) internal ∙ control_program-source ls script)
          ∙ remove_unsupported_functions-source s.version (program ls) positive
              (refl, AreLines-append ls (plain (codes "end") ∷ []) lines (refl, tt)) in
        rw (edited, send_supported, scan, formatted)
          (send_text-sent s text w full on socket written)
