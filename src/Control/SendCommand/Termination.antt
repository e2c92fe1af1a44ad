-- ===== src/Control/SendCommand/Termination.antt =====
-- The loops of `sendCommand` end, since each has a timeout.
use ur_rtde_fork_custom.Base.{
  ℕ, zero, suc, ◌+◌, ◌-◌, ◌*◌, ◌/◌, ◌≤◌, ◌<◌, ◌≡◌, refl, ap, ◌⊎◌, inl, inr, Bool, true, false, not,
  ◌&&◌, ◌||◌, [], ◌∷◌, ◌++◌, Option, none, some, arith, if◌then◌else◌, ◌==◌,
}
use ur_rtde_fork_custom.Base.Outcome.{Outcome, ok, throws, fault, system_error}
use ur_rtde_fork_custom.Rtde.Command.{CommandType, RobotCommand, is_type}
use ur_rtde_fork_custom.Rtde.Send.{send_payload}
use ur_rtde_fork_custom.Control.SendCommand.{
  Robot, Flags, World, Loop, until_ready, until_done, until_stopped, Verdict, finished, gave_up,
  again, timeout, tick, read, send, refuse, wait_round, wait, conclude, is_continuous,
  is_program_running, after_send, try_command,
}
use ur_rtde_fork_custom.Control.SendCommand.Effects.{
  Reads, read-Reads, Runs, is_program_running-Runs, Rounded, wait_round-Rounded,
}
use ur_rtde_fork_custom.Base.Post.{Any, and_next, Post}

-- A body that does not run out of fuel, and what holds if it returns.
abbrev pub Total : {A : Type 0} → (A → Type 0) → Option (Outcome A) → Type 0
Total P none = ⊥
Total P (some m) = Post P m

Total-next :
    {A B : Type 0} (P : A → Type 0) (Q : B → Type 0) (m : Option (Outcome A))
    (rest : A → Option (Outcome B))
    → Total P m
    → ((a : A) → P a → Total Q (rest a))
    → Total Q (and_next m rest)
Total-next P Q none rest h k = absurd h
Total-next P Q (some fault) rest h k = tt
Total-next P Q (some (throws e)) rest h k = tt
Total-next P Q (some (ok a)) rest h k = k a h

Total-if :
    {A : Type 0} (P : A → Type 0) (b : Bool) (x y : Option (Outcome A))
    → Total P x
    → Total P y
    → Total P (if b then x else y)
Total-if P true x y h k = h
Total-if P false x y h k = k

Total-weaken :
    {A : Type 0} (P Q : A → Type 0) (m : Option (Outcome A))
    → ((a : A) → P a → Q a)
    → Total P m
    → Total Q m
Total-weaken P Q none f h = absurd h
Total-weaken P Q (some fault) f h = tt
Total-weaken P Q (some (throws e)) f h = tt
Total-weaken P Q (some (ok a)) f h = f a h

le_or_lt : (a b : ℕ) → (a ≤ b) ⊎ (b < a)
le_or_lt a b = ground arith

anything : {A : Type 0} (m : Outcome A) → Total Any (some m)
anything fault = tt
anything (throws e) = tt
anything (ok a) = tt

some_answer :
    {A : Type 0} (P : A → Type 0) (m : Option (Outcome A))
    → Total P m
    → (o : Outcome A) × (m ≡ some o)
some_answer P none h = absurd h
some_answer P (some m) h = (m, refl)

abbrev Later : {A : Type 0} → World → A × World → Type 0
Later w p = w.time ≤ p.1.time

module _ (robot : Robot) (memory : RobotCommand) (flags : Flags) (cmd : RobotCommand)
    (steps : ℕ) where
  -- In `steps` steps from anywhere the clock has gone on by 301 seconds, and stays there.
  abbrev pub Passes : Type 0
  Passes = (t d : ℕ) → robot.clock t + 301 * 1000000000 ≤ robot.clock (t + steps + d)

  steps_pos : Passes → 0 < steps
  steps_pos passes = ground (arith, passes 0 0)

  timeout_small : (loop : Loop) → timeout loop ≤ 300
  timeout_small until_ready = omega arith
  timeout_small until_done = omega arith
  timeout_small until_stopped = omega arith

  not_expired :
      (loop : Loop) (t0 t : ℕ)
      → Passes
      → (robot.clock t - robot.clock t0) / 1000000000 ≤ timeout loop
      → t < t0 + steps
  not_expired loop t0 t passes h = elim (le_or_lt (t0 + steps) t) [
    | inl late ↦
        absurd (omega (arith, passes t0 (t - (t0 + steps)), timeout_small loop, same_step late))
    | inr early ↦ early
  ]
    where
      same_step : t0 + steps ≤ t → robot.clock (t0 + steps + (t - (t0 + steps))) ≡ robot.clock t
      same_step late = ap robot.clock (omega arith)

  wait-Total :
      (fuel : ℕ) (loop : Loop) (t0 : ℕ) (w : World)
      → Passes
      → 0 < fuel
      → t0 + steps < w.time + fuel
      → Total (Later w) (wait robot memory fuel loop (robot.clock t0) w)
  unfolding wait
  wait-Total zero loop t0 w passes some_fuel enough = absurd (omega arith)
  wait-Total (suc fuel) loop t0 w passes some_fuel enough =
      by_round (wait_round robot memory loop (robot.clock t0) w)
        (wait_round-Rounded robot memory loop (robot.clock t0) w)
        (λ w1 a b. wait-Total fuel loop t0 w1 passes a b)
    where
      by_round :
          (m : Outcome (Verdict × World))
          → Post (Rounded robot memory loop (robot.clock t0) w) m
          → ((w1 : World)
              → 0 < fuel
              → t0 + steps < w1.time + fuel
              → Total (Later w1) (wait robot memory fuel loop (robot.clock t0) w1))
          → Total (Later w) (elim m [
            | fault ↦ some fault
            | throws e ↦ some (throws e)
            | ok p ↦ elim p.0 [
              | finished ↦ some (ok (true, p.1))
              | gave_up ↦ some (ok (false, p.1))
              | again ↦ wait robot memory fuel loop (robot.clock t0) p.1
            ]
          ])
      by_round fault h rest = tt
      by_round (throws e) h rest = tt
      by_round (ok (finished, w')) h rest = omega (arith, h.1)
      by_round (ok (gave_up, w')) h rest = omega (arith, h.1)
      by_round (ok (again, w')) h rest =
          Total-weaken (Later w') (Later w) (wait robot memory fuel loop (robot.clock t0) w')
            (λ p l. omega (arith, l, h.1))
            (rest w' (omega (arith, h.1, h.3, not_expired loop t0 h.2 passes h.4))
              (omega (arith, h.1)))

  conclude-Total : (p : Bool × World) → Total Any (conclude robot memory p)
  unfolding conclude
  conclude-Total (true, w) = anything (refuse robot memory true w)
  conclude-Total (false, w) = tt

  after_send-Total :
      (fuel t0 : ℕ) (w : World)
      → Passes
      → steps ≤ fuel
      → t0 < w.time
      → Total Any (after_send robot memory flags fuel cmd (robot.clock t0) w)
  unfolding after_send
  after_send-Total fuel t0 w passes enough before = Total-if Any (is_continuous cmd.type) _ _ tt (
      Total-if Any (not (is_type cmd.type CommandType.stop_script)) _ _
        (Total-next (Later (tick w)) Any
          (wait robot memory fuel until_done (robot.clock w.time) (tick w)) _
          (wait-Total fuel until_done w.time (tick w) passes (omega (arith, steps_pos passes))
            (omega arith))
          (λ p _. conclude-Total p))
        (Total-if Any flags.use_external_control_ur_cap _ _ (anything (refuse robot memory true w))
          (Total-next (Later w) Any (wait robot memory fuel until_stopped (robot.clock t0) w) _
            (wait-Total fuel until_stopped t0 w passes (omega (arith, steps_pos passes))
              (omega arith))
            (λ p _. conclude-Total p))))

  Ticks : World → World → Type 0
  Ticks w w' = w.time < w'.time

  send-Ticks : (w : World) → Post (Ticks w) (send robot memory cmd w)
  unfolding send Ticks
  send-Ticks w = by_link (robot.is_connected w.time) (robot.is_writable w.time)
    where
      by_link :
          (b can_write : Bool)
          → Post (Ticks w) (
              if b
              then (if can_write
                  then ok (record w { time = suc w.time; sent = w.sent ++ send_payload cmd ∷ [] })
                  else throws system_error)
              else ok (tick w))
      by_link true true = omega arith
      by_link true false = tt
      by_link false can_write = omega arith

  try_command-Total :
      (fuel : ℕ) (w : World)
      → Passes
      → steps ≤ fuel
      → Total Any (try_command robot memory flags fuel cmd w)
  unfolding try_command Ticks
  try_command-Total fuel w passes enough =
      Total-next (Reads robot.runtime_state (tick w)) Any (some (read robot.runtime_state (tick w)))
        _ (read-Reads robot.runtime_state (tick w))
        (λ p1 h1.
          Total-if Any (p1.0 == 1 && not flags.custom_script_running) _ _
            (anything (refuse robot memory false p1.1))
            (Total-next (Runs robot memory p1.1) Any (some (is_program_running robot memory p1.1)) _
              (is_program_running-Runs robot memory p1.1)
              (λ p2 h2.
                Total-if Any
                  (p2.0 || flags.custom_script || flags.custom_script_running
                    || flags.use_external_control_ur_cap)
                  _ _
                  (Total-next (Later p2.1) Any
                    (wait robot memory fuel until_ready (robot.clock w.time) p2.1) _
                    (wait-Total fuel until_ready w.time p2.1 passes
                      (omega (arith, steps_pos passes)) (omega (arith, h1.0.1, h2.0.1)))
                    (λ p3 h3.
                      Total-if Any p3.0 _ _
                        (Total-next (Ticks p3.1) Any (some (send robot memory cmd p3.1)) _
                          (send-Ticks p3.1)
                          (λ w4 h4.
                            after_send-Total fuel w.time w4 passes enough
                              (omega (arith, h1.0.1, h2.0.1, h3, h4))))
                        tt))
                  (anything (refuse robot memory false p2.1)))))

  -- If the clock goes on by 301 seconds in every `steps` steps, the loops of `sendCommand` end within as
  -- many rounds, whatever the control script and the other threads do: the body of its `try` block
  -- returns or throws.
  pub try_command_total :
      (fuel : ℕ) (w : World)
      → Passes
      → steps ≤ fuel
      → (o : Outcome (Bool × World)) × (try_command robot memory flags fuel cmd w ≡ some o)
  try_command_total fuel w passes enough =
      some_answer Any (try_command robot memory flags fuel cmd w)
        (try_command-Total fuel w passes enough)
