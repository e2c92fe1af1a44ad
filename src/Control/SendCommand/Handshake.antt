-- ===== src/Control/SendCommand/Handshake.antt =====
-- The answer of `sendCommand` and the commands that it has sent.
use ur_rtde_fork_custom.Base.{
  ℕ, suc, ◌≤◌, ◌<◌, ◌≡◌, refl, ap, ◌∙◌, Bool, true, false, not, ◌&&◌, ◌||◌, List, [], ◌∷◌, ◌++◌,
  some, arith, if◌then◌else◌, ◌⊎◌, inl, inr, ◌==◌, ◌≢◌,
}
use ur_rtde_fork_custom.Base.Outcome.{Outcome, ok, throws, fault, system_error}
use ur_rtde_fork_custom.Rtde.Command.{CommandType, RobotCommand, is_type}
use ur_rtde_fork_custom.Rtde.Send.{send_payload}
use ur_rtde_fork_custom.Control.SendCommand.{
  Robot, Flags, World, Loop, until_ready, until_done, until_stopped, tick, read, send, refuse, wait,
  conclude, is_continuous, is_program_running, after_send, try_command,
}
use ur_rtde_fork_custom.Control.SendCommand.Effects.{
  StaysOpen, Refused, refuse-Refused, Shown, Waited, wait-Waited, clear, Reads, read-Reads, Runs,
  is_program_running-Runs,
}
use ur_rtde_fork_custom.Base.Post.{and_next, Post, Posts, Posts-weaken, Posts-next, Posts-if}

not-false : {b : Bool} → not b ≡ false → b ≡ true
not-false {b = true} e = refl
not-false {b = false} e = cc

true-ne-false : true ≢ false
true-ne-false = λ e. cc

module _ (robot : Robot) (memory : RobotCommand) (flags : Flags) (cmd : RobotCommand) where
  abbrev pub payload : List (List ℕ)
  payload = send_payload cmd ∷ []

  -- A step at or behind `from` at which the script has shown `state`.
  abbrev pub Seen : ℕ → ℕ → Type 0
  Seen state from = (t : ℕ) × (from ≤ t) × (robot.control_script_state t ≡ some state)

  -- The end of a command that has been sent in the world `w`.
  abbrev pub Ended : World → Bool × World → Type 0
  Ended w (true, w') =
      ((is_continuous cmd.type ≡ true) × (w'.sent ≡ w.sent))
      ⊎ ((is_continuous cmd.type ≡ false)
          × (w'.sent ≡ w.sent ++ clear robot memory)
          × (is_type cmd.type CommandType.stop_script ≡ false → Seen 2 w.time))
  Ended w (false, w') = (is_continuous cmd.type ≡ false) × (w'.sent ≡ w.sent ++ clear robot memory)

  -- What the answer of the whole command says. Where it is `true`, the script was ready when the command
  -- was sent, and a command that is waited for was reported as done later.
  abbrev pub Answered : World → Bool × World → Type 0
  Answered w (true, w') =
      (ready : ℕ) × (w.time ≤ ready)
      × (robot.control_script_state ready ≡ some 1)
      × (((is_continuous cmd.type ≡ true) × (w'.sent ≡ w.sent ++ payload))
          ⊎ ((is_continuous cmd.type ≡ false)
              × (w'.sent ≡ (w.sent ++ payload) ++ clear robot memory)
              × (is_type cmd.type CommandType.stop_script ≡ false → Seen 2 (suc ready))))
  Answered w (false, w') =
      (w'.sent ≡ w.sent ++ clear robot memory)
      ⊎ (Seen 1 w.time
          × (is_continuous cmd.type ≡ false)
          × (w'.sent ≡ (w.sent ++ payload) ++ clear robot memory))

  Sent : World → World → Type 0
  Sent w w' = (w'.sent ≡ w.sent ++ payload) × (w.time < w'.time)

  module _ (stays : StaysOpen robot) where
    loop-Ended :
        (loop : Loop) (w w0 : World) (p : Bool × World)
        → is_continuous cmd.type ≡ false
        → w0.sent ≡ w.sent
        → ((t : ℕ)
            → w0.time ≤ t
            → Shown robot memory loop t
            → is_type cmd.type CommandType.stop_script ≡ false
            → Seen 2 w.time)
        → Waited robot memory loop w0 p
        → Posts (Ended w) (conclude robot memory p)
    unfolding conclude
    loop-Ended loop w w0 (true, w1) c e seen h =
        by_link (refuse robot memory true w1) (refuse-Refused robot memory true w1)
      where
        by_link :
            (m : Outcome (Bool × World)) → Post (Refused robot memory true w1) m → Post (Ended w) m
        by_link fault k = tt
        by_link (throws x) k = tt
        by_link (ok (true, w')) k =
            inr (c, k.0.0 stays ∙ ap (λ s. s ++ clear robot memory) (h.0 ∙ e), seen h.2 h.3 h.5)
        by_link (ok (false, w')) k = (c, k.0.0 stays ∙ ap (λ s. s ++ clear robot memory) (h.0 ∙ e))
    loop-Ended loop w w0 (false, w1) c e seen h =
        (c, h.0 stays ∙ ap (λ s. s ++ clear robot memory) e)

    refuse-Ended :
        (w : World)
        → is_continuous cmd.type ≡ false
        → is_type cmd.type CommandType.stop_script ≡ true
        → Post (Ended w) (refuse robot memory true w)
    refuse-Ended w c stop =
        by_link (refuse robot memory true w) (refuse-Refused robot memory true w)
      where
        by_link :
            (m : Outcome (Bool × World)) → Post (Refused robot memory true w) m → Post (Ended w) m
        by_link fault k = tt
        by_link (throws x) k = tt
        by_link (ok (true, w')) k = inr (c, k.0.0 stays, λ e. absurd (cc (stop, e)))
        by_link (ok (false, w')) k = (c, k.0.0 stays)

    after_send-Ended :
        (fuel start : ℕ) (w : World)
        → Posts (Ended w) (after_send robot memory flags fuel cmd start w)
    unfolding after_send
    after_send-Ended fuel start w =
        Posts-if (Ended w) (is_continuous cmd.type) _ _ (λ c. inl (c, refl))
          (λ c.
            Posts-if (Ended w) (not (is_type cmd.type CommandType.stop_script)) _ _
              (λ other.
                Posts-next (Waited robot memory until_done (tick w)) (Ended w)
                  (wait robot memory fuel until_done (robot.clock w.time) (tick w)) _
                  (wait-Waited robot memory fuel until_done (robot.clock w.time) (tick w))
                  (λ p h.
                    loop-Ended until_done w (tick w) p c refl
                      (λ t later shown _. (t, omega arith, shown)) h))
              (λ stop.
                Posts-if (Ended w) flags.use_external_control_ur_cap _ _
                  (λ _. refuse-Ended w c (not-false stop))
                  (λ _.
                    Posts-next (Waited robot memory until_stopped w) (Ended w)
                      (wait robot memory fuel until_stopped start w) _
                      (wait-Waited robot memory fuel until_stopped start w)
                      (λ p h.
                        loop-Ended until_stopped w w p c refl
                          (λ t later shown e. absurd (cc (not-false stop, e))) h))))

    send-Sent : (w : World) → Post (Sent w) (send robot memory cmd w)
    unfolding send Sent
    send-Sent w = by_link (robot.is_connected w.time) (robot.is_writable w.time) (stays w.time)
      where
        by_link :
            (b can_write : Bool)
            → b ≡ true
            → Post (Sent w) (
                if b
                then (if can_write
                    then ok (record w { time = suc w.time; sent = w.sent ++ payload })
                    else throws system_error)
                else ok (tick w))
        by_link true true link = (refl, omega arith)
        by_link true false link = tt
        by_link false can_write link = cc link

    refuse-Answered :
        (w w1 : World) → w1.sent ≡ w.sent → Post (Answered w) (refuse robot memory false w1)
    refuse-Answered w w1 e =
        by_link (refuse robot memory false w1) (refuse-Refused robot memory false w1)
      where
        by_link :
            (m : Outcome (Bool × World))
            → Post (Refused robot memory false w1) m
            → Post (Answered w) m
        by_link fault k = tt
        by_link (throws x) k = tt
        by_link (ok (true, w')) k = absurd (true-ne-false k.1)
        by_link (ok (false, w')) k = inl (k.0.0 stays ∙ ap (λ s. s ++ clear robot memory) e)

    Ended-Answered :
        (w w1 w2 : World) (ready : ℕ) (p : Bool × World)
        → w.time ≤ ready
        → ready < w1.time
        → robot.control_script_state ready ≡ some 1
        → w1.sent ≡ w.sent
        → Sent w1 w2
        → Ended w2 p
        → Answered w p
    unfolding Sent
    Ended-Answered w w1 w2 ready (true, w') from before shown e sent (inl (c, h)) =
        (ready, from, shown, inl (c, h ∙ sent.0 ∙ ap (λ s. s ++ payload) e))
    Ended-Answered w w1 w2 ready (true, w') from before shown e sent (inr (c, h, seen)) = (
      ready,
      from,
      shown,
      inr (
        c,
        h ∙ ap (λ s. s ++ clear robot memory) (sent.0 ∙ ap (λ s. s ++ payload) e),
        λ other. (let d = seen other in (d.0, omega (arith, d.1, before, sent.1), d.2)),
      ),
    )
    Ended-Answered w w1 w2 ready (false, w') from before shown e sent h = inr (
      (ready, from, shown),
      h.0,
      h.1 ∙ ap (λ s. s ++ clear robot memory) (sent.0 ∙ ap (λ s. s ++ payload) e),
    )

    ready_Answered :
        (fuel : ℕ) (w w2 : World) (start : ℕ) (p : Bool × World)
        → w2.sent ≡ w.sent
        → w.time ≤ w2.time
        → Waited robot memory until_ready w2 p
        → Posts (Answered w) (
            if p.0
            then and_next
                (some (send robot memory cmd p.1))
                (λ w4. after_send robot memory flags fuel cmd start w4)
            else some (ok (false, p.1)))
    ready_Answered fuel w w2 start (true, w3) e later h =
        Posts-next (Sent w3) (Answered w) (some (send robot memory cmd w3)) _ (send-Sent w3)
          (λ w4 sent.
            Posts-weaken (Ended w4) (Answered w) (after_send robot memory flags fuel cmd start w4)
              (λ p ended.
                Ended-Answered w w3 w4 h.2 p (omega (arith, h.3, later)) h.4 h.5 (h.0 ∙ e) sent
                  ended)
              (after_send-Ended fuel start w4))
    ready_Answered fuel w w2 start (false, w3) e later h =
        inl (h.0 stays ∙ ap (λ s. s ++ clear robot memory) e)

    try_command-Answered :
        (fuel : ℕ) (w : World) → Posts (Answered w) (try_command robot memory flags fuel cmd w)
    unfolding try_command
    try_command-Answered fuel w =
        Posts-next (Reads robot.runtime_state (tick w)) (Answered w)
          (some (read robot.runtime_state (tick w))) _ (read-Reads robot.runtime_state (tick w))
          (λ p1 h1.
            Posts-if (Answered w) (p1.0 == 1 && not flags.custom_script_running) _ _
              (λ _. refuse-Answered w p1.1 h1.0.0)
              (λ _.
                Posts-next (Runs robot memory p1.1) (Answered w)
                  (some (is_program_running robot memory p1.1)) _
                  (is_program_running-Runs robot memory p1.1)
                  (λ p2 h2.
                    Posts-if (Answered w)
                      (p2.0 || flags.custom_script || flags.custom_script_running
                        || flags.use_external_control_ur_cap)
                      _ _
                      (λ _.
                        Posts-next (Waited robot memory until_ready p2.1) (Answered w)
                          (wait robot memory fuel until_ready (robot.clock w.time) p2.1) _
                          (wait-Waited robot memory fuel until_ready (robot.clock w.time) p2.1)
                          (λ p3 h3.
                            ready_Answered fuel w p2.1 (robot.clock w.time) p3 (h2.0.0 ∙ h1.0.0)
                              (omega (arith, h1.0.1, h2.0.1)) h3))
                      (λ _. refuse-Answered w p2.1 (h2.0.0 ∙ h1.0.0)))))

    -- Condition: the connection stays open, so that no write is dropped; a write may still throw.
    -- If the `try` block of `sendCommand` returns `true`, the control script has shown that it is
    -- ready, and behind that the command has been sent once: alone if its type is not waited for,
    -- and else followed by the clear command, which comes after the script has reported that it is
    -- done unless the command stops the script. If it returns `false`, the clear command alone has
    -- been sent, or, for a type that is waited for, the command and then the clear command.
    pub try_command_answer :
        (fuel : ℕ) (w w' : World) (answer : Bool)
        → try_command robot memory flags fuel cmd w ≡ some (ok (answer, w'))
        → Answered w (answer, w')
    try_command_answer fuel w w' answer e = rw e at (try_command-Answered fuel w)
