-- ===== src/Control/Upload/Paths.antt =====
-- What `moveJ` and `moveL` of a path and `movePath` of src/rtde_control_interface.cpp leave behind.
use ur_rtde_fork_custom.Base.{
  ℕ, ◌≡◌, ◌⊎◌, inl, inr, refl, ap, Bool, true, false, List, [], Option, none, some,
}
use ur_rtde_fork_custom.Base.Outcome.{Outcome, ok, throws, fault}
use ur_rtde_fork_custom.Base.Action.{continue, Settles, Settles-continue}
use ur_rtde_fork_custom.Rtde.Command.{RobotCommand}
use ur_rtde_fork_custom.Script.Injection.{set_script_injection}
use ur_rtde_fork_custom.Script.Client.{ScriptWorld, send_script, add_script_injection}
use ur_rtde_fork_custom.Control.Path.{PathEntry, path_code, append_movej_path, append_movel_path}
use ur_rtde_fork_custom.Control.Upload.{
  Controller, ControlInterface, on_client, send_command, stop_script, wait_running, run_path,
  start_path, move_path, move_j_path, move_l_path, move_path_inject_id,
}
use ur_rtde_fork_custom.Control.Upload.Kept.{
  NeverReconnects, Untouched, Untouched-chain, on_client-Untouched, send_command-Untouched,
  send_script-OnlyWorld, stop_script-Untouched, wait_running-Untouched,
}

-- The wait for the program has not ended.
abbrev pub is_waiting : Option Bool → Bool
is_waiting none = true
is_waiting (some result) = false

-- The interface with the code of a path injected at its place.
abbrev pub with_path : {W : Type 0} → List ℕ → Bool → ControlInterface W → ControlInterface W
with_path code running s = record s {
  script_client = record s.script_client {
    script_injections =
        set_script_injection move_path_inject_id code s.script_client.script_injections;
  };
  custom_script_running = running;
}

-- The members behind a path: nothing but the injection at the path's place and the mark of a running
-- custom script is changed, and the mark is gone once the wait has ended.
abbrev pub Injects :
    {W : Type 0} → List ℕ → ControlInterface W → Option Bool → ControlInterface W → Type 0
Injects code s result t = Untouched (with_path code (is_waiting result) s) t

-- The members behind an exception: the call has stopped before the injection, before the start of the
-- path or in its command.
abbrev pub Left : {W : Type 0} → List ℕ → ControlInterface W → ControlInterface W → Type 0
Left code s t =
    Untouched (record s { custom_script_running = true }) t
    ⊎ (Untouched (with_path code true s) t ⊎ Untouched (with_path code false s) t)

-- What a move along a path does, given what became of its code.
abbrev pub Moved :
    {W : Type 0}
    → Outcome (List ℕ)
    → ControlInterface W
    → Outcome (Option Bool) × ControlInterface W
    → Type 0
Moved fault s p = p ≡ (fault, s)
Moved (throws e) s p = p ≡ (throws e, s)
Moved (ok code) s p = Settles (Left code s) (Injects code s) p

module _ {W : Type 0} (net : ScriptWorld W) (controller : Controller W) (memory : RobotCommand)
    (never : NeverReconnects net controller memory) where
  add-Untouched :
      (code : List ℕ) (s t : ControlInterface W)
      → Untouched (record s { custom_script_running = true }) t
      → Untouched
          (with_path code true s)
          (on_client (add_script_injection move_path_inject_id code) t).1
  unfolding add_script_injection
  add-Untouched code s t h =
      ap
        (λ (u : ControlInterface W).
          (on_client (add_script_injection move_path_inject_id code) u).1)
        h

  lower :
      (code : List ℕ) (s t : ControlInterface W)
      → Untouched (with_path code true s) t
      → Untouched (with_path code false s) (record t { custom_script_running = false })
  lower code s t h = ap (λ (u : ControlInterface W). record u { custom_script_running = false }) h

  start_path-Injects :
      (code : List ℕ) (async : Bool) (s : ControlInterface W) (ended : Option (Unit {0}))
      (t : ControlInterface W)
      → Untouched (with_path code true s) t
      → Settles (Left code s) (Injects code s) (start_path net controller memory async ended t)
  unfolding start_path
  start_path-Injects code async s none t h = h
  start_path-Injects code async s (some _) t h =
      Settles-continue (Left code s) (Untouched (with_path code false s)) (Injects code s)
        (send_command net controller memory _ (record t { custom_script_running = false })) _
        (Untouched-chain (with_path code false s) (record t { custom_script_running = false }) _
          (lower code s t h) (send_command-Untouched net controller memory never _ _))
        (λ u k. inr (inr k)) (λ answer u k. k)

  run_path-Injects :
      (fuel : ℕ) (code : List ℕ) (async : Bool) (s : ControlInterface W)
      → Settles (Left code s) (Injects code s) (run_path net controller memory fuel code async s)
  unfolding run_path
  run_path-Injects fuel code async s =
      let marked : ControlInterface W = record s { custom_script_running = true } in
      Settles-continue (Left code s) (Untouched marked) (Injects code s)
        (stop_script net controller memory marked) _
        (stop_script-Untouched net controller memory never marked) (λ u k. inl k)
        (λ _ t h.
          let added = (on_client (add_script_injection move_path_inject_id code) t).1 in
          Settles-continue (Left code s) (Untouched (with_path code true s)) (Injects code s)
            (on_client (send_script net) added) _
            (Untouched-chain (with_path code true s) added (on_client (send_script net) added).1
              (add-Untouched code s t h)
              (on_client-Untouched (send_script net) (send_script-OnlyWorld net) added))
            (λ u k. inr (inl k))
            (λ _ u k.
              Settles-continue (Left code s) (Untouched (with_path code true s)) (Injects code s)
                (wait_running net controller memory fuel u) (start_path net controller memory async)
                (Untouched-chain (with_path code true s) u
                  (wait_running net controller memory fuel u).1 k
                  (wait_running-Untouched net controller memory fuel u))
                (λ v l. inr (inl l)) (start_path-Injects code async s)))

  -- `lift` of the code, then the upload.
  coded-Moved :
      (built : Outcome (List ℕ)) (fuel : ℕ) (async : Bool) (s : ControlInterface W)
      → Moved built s (continue (built, s) (λ text. run_path net controller memory fuel text async))
  coded-Moved fault fuel async s = refl
  coded-Moved (throws e) fuel async s = refl
  coded-Moved (ok code) fuel async s = run_path-Injects fuel code async s

  -- Condition: `sendCommand` never reconnects, which it does where an exception in its `try` block
  -- leaves the connection closed. `movePath`, and `moveJ` and `moveL` of a path, however they end:
  -- a path without script code is refused before anything is done. Otherwise nothing is changed on
  -- the interface and its script client but the world, the injection at the path's place and the
  -- mark of a running custom script. On a return the injection is the path's code, and the mark is
  -- gone as soon as the wait for the program has ended. An exception leaves the old injection with
  -- the mark, or the path's code with or without it.
  pub move_path-Moved :
      (print : ℕ → List ℕ) (fuel : ℕ) (path : List PathEntry) (poses : List (List ℕ)) (async : Bool)
      (s : ControlInterface W)
      → Moved (path_code print path) s (move_path net controller memory print fuel path async s)
        × Moved
            (path_code print (append_movej_path poses []))
            s
            (move_j_path net controller memory print fuel poses async s)
        × Moved
            (path_code print (append_movel_path poses []))
            s
            (move_l_path net controller memory print fuel poses async s)
  unfolding move_path move_j_path move_l_path
  move_path-Moved print fuel path poses async s = (
    coded-Moved (path_code print path) fuel async s,
    coded-Moved (path_code print (append_movej_path poses [])) fuel async s,
    coded-Moved (path_code print (append_movel_path poses [])) fuel async s,
  )
