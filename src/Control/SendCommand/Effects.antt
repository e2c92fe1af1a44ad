-- ===== src/Control/SendCommand/Effects.antt =====
-- What each part of the handshake sends, and that every part takes time.
use ur_rtde_fork_custom.Base.{
  ℕ, zero, suc, ◌-◌, ◌/◌, ◌≤◌, ◌<◌, ◌≡◌, refl, ap, ◌∙◌, Bool, true, false, not, List, [], ◌∷◌, ◌++◌,
  Option, none, some, arith, ltb, ◌==◌, ◌≢◌, ==_iff, if◌then◌else◌, Bool-cases,
}
use ur_rtde_fork_custom.Base.Outcome.{
  Outcome, ok, throws, fault, runtime_error, system_error, ◌>>=◌,
}
use ur_rtde_fork_custom.Rtde.Command.{RobotCommand}
use ur_rtde_fork_custom.Rtde.Send.{send_payload}
use ur_rtde_fork_custom.Base.Post.{Post, Post-bind, Post-if, Posts, Posts-weaken}
use ur_rtde_fork_custom.Control.SendCommand.{
  Robot, World, Loop, until_ready, until_done, until_stopped, Verdict, finished, gave_up, again,
  timeout, tick, read, clear_cmd, send, is_program_running, is_protective_stopped,
  is_emergency_stopped, is_stopped, is_over, is_lost, refuse, wait_round, wait,
}

-- The connection is open at every step.
abbrev pub StaysOpen : Robot → Type 0
StaysOpen robot = (t : ℕ) → robot.is_connected t ≡ true

-- A later world in which `payloads` have been sent, if the connection stays open.
abbrev pub After : {A : Type 0} → Robot → World → List (List ℕ) → A × World → Type 0
After robot w payloads p = (StaysOpen robot → p.1.sent ≡ w.sent ++ payloads) × (w.time ≤ p.1.time)

-- A later world in which nothing has been sent.
abbrev pub Quiet : {A : Type 0} → World → A × World → Type 0
Quiet w p = (p.1.sent ≡ w.sent) × (w.time < p.1.time)

-- A read of an entry.
abbrev pub Reads : (ℕ → Option ℕ) → World → ℕ × World → Type 0
Reads entry w p = Quiet w p × (entry w.time ≡ some p.0)

pub read-Reads : (entry : ℕ → Option ℕ) (w : World) → Post (Reads entry w) (read entry w)
unfolding read
read-Reads entry w = by_entry (entry w.time) refl
  where
    by_entry :
        (o : Option ℕ)
        → entry w.time ≡ o
        → Post (Reads entry w) (elim o [ none ↦ throws runtime_error | some v ↦ ok (v, tick w) ])
    by_entry none e = tt
    by_entry (some v) e = ((refl, omega arith), e)

not_later : (m n : ℕ) → ltb m n ≡ false → n ≤ m
not_later m n e = ground arith

finished-ne-gave_up : finished ≢ gave_up
finished-ne-gave_up = λ e. cc

again-ne-gave_up : again ≢ gave_up
again-ne-gave_up = λ e. cc

module _ (robot : Robot) (memory : RobotCommand) where
  -- What the read at step `t` has shown where the loop's condition came true.
  abbrev pub Shown : Loop → ℕ → Type 0
  Shown until_ready t = robot.control_script_state t ≡ some 1
  Shown until_done t = robot.control_script_state t ≡ some 2
  Shown until_stopped t = (v : ℕ) × (robot.runtime_state t ≡ some v) × (v ≢ 2)

  abbrev pub Over : Loop → World → Bool × World → Type 0
  Over loop w p = Quiet w p × (p.0 ≡ true → Shown loop w.time)

  abbrev pub Runs : World → Bool × World → Type 0
  Runs w p = Quiet w p × (v : ℕ) × (robot.runtime_state w.time ≡ some v) × (p.0 ≡ (v == 2))

  pub is_program_running-Runs : (w : World) → Post (Runs w) (is_program_running robot memory w)
  unfolding is_program_running
  is_program_running-Runs w =
      Post-bind (Reads robot.runtime_state w) (Runs w) (read robot.runtime_state w) _
        (read-Reads robot.runtime_state w) (λ p h. (h.0, p.0, h.1, refl))

  not_playing : (b : Bool) (v : ℕ) → b ≡ (v == 2) → not b ≡ true → v ≢ 2
  not_playing b v e n = ground (arith, ==_iff v 2, Bool-cases b)

  is_over-Over : (loop : Loop) (w : World) → Post (Over loop w) (is_over robot memory loop w)
  unfolding is_over is_program_running
  is_over-Over until_ready w =
      Post-bind (Reads robot.control_script_state w) (Over until_ready w)
        (read robot.control_script_state w) _ (read-Reads robot.control_script_state w)
        (λ p h. (h.0, λ e. h.1 ∙ ap some ((==_iff p.0 1).0 e)))
  is_over-Over until_done w =
      Post-bind (Reads robot.control_script_state w) (Over until_done w)
        (read robot.control_script_state w) _ (read-Reads robot.control_script_state w)
        (λ p h. (h.0, λ e. h.1 ∙ ap some ((==_iff p.0 2).0 e)))
  is_over-Over until_stopped w =
      Post-bind (Runs w) (Over until_stopped w) (is_program_running robot memory w) _
        (is_program_running-Runs w) (λ p h. (h.0, λ e. (h.1, h.2, not_playing p.0 h.1 h.3 e)))

  -- No earlier, with nothing sent.
  abbrev pub Calm : {A : Type 0} → World → A × World → Type 0
  Calm w p = (p.1.sent ≡ w.sent) × (w.time ≤ p.1.time)

  is_lost-Calm : (loop : Loop) (w : World) → Post (Calm w) (is_lost robot memory loop w)
  unfolding is_lost
  is_lost-Calm until_ready w = (refl, omega arith)
  is_lost-Calm until_stopped w = (refl, omega arith)
  is_lost-Calm until_done w =
      Post-bind (Runs w) (Calm w) (is_program_running robot memory w) _ (is_program_running-Runs w)
        (λ p h. (h.0.0, omega (arith, h.0.1)))

  is_stopped-Calm : (w : World) → Post (Calm w) (is_stopped robot memory w)
  unfolding is_stopped is_protective_stopped is_emergency_stopped
  is_stopped-Calm w =
      Post-bind (Calm w) (Calm w) (is_protective_stopped robot memory w) _
        (Post-bind (Reads robot.safety_status_bits w) (Calm w) (read robot.safety_status_bits w) _
          (read-Reads robot.safety_status_bits w) (λ p h. (h.0.0, omega (arith, h.0.1))))
        (λ p h.
          Post-if (Calm w) p.0 (ok (true, p.1)) (is_emergency_stopped robot memory p.1) (λ e. h)
            (λ e.
              Post-bind (Reads robot.safety_status_bits p.1) (Calm w)
                (read robot.safety_status_bits p.1) _ (read-Reads robot.safety_status_bits p.1)
                (λ q k. (k.0.0 ∙ h.0, omega (arith, k.0.1, h.1)))))

  abbrev pub clear : List (List ℕ)
  clear = send_payload (clear_cmd memory) ∷ []

  abbrev pub Refused : {A : Type 0} → A → World → A × World → Type 0
  Refused a w p = After robot w clear p × (p.0 ≡ a)

  pub refuse-Refused :
      {A : Type 0} (a : A) (w : World) → Post (Refused a w) (refuse robot memory a w)
  unfolding refuse send
  refuse-Refused a w =
      by_link (robot.is_connected w.time) (robot.is_writable w.time) (λ c. c w.time)
    where
      by_link :
          (b can_write : Bool)
          → (StaysOpen robot → b ≡ true)
          → Post (Refused a w) (
              (if b
                then (if can_write
                    then ok (record w { time = suc w.time; sent = w.sent ++ clear })
                    else throws system_error)
                else ok (tick w))
              >>= λ w'. ok (a, w'))
      by_link true true link = ((λ stays. refl, omega arith), refl)
      by_link true false link = tt
      by_link false can_write link = ((λ stays. cc (link stays), omega arith), refl)

  -- A round, by how it ends; one that goes on has seen the clock before the timeout.
  abbrev pub Rounded : Loop → ℕ → World → Verdict × World → Type 0
  Rounded loop start w (finished, w') =
      (w'.sent ≡ w.sent)
      × (w.time < w'.time)
      × (t : ℕ) × (w.time ≤ t)
      × (t < w'.time)
      × Shown loop t
  Rounded loop start w (gave_up, w') =
      (StaysOpen robot → w'.sent ≡ w.sent ++ clear) × (w.time < w'.time)
  Rounded loop start w (again, w') =
      (w'.sent ≡ w.sent)
      × (w.time < w'.time)
      × (t : ℕ) × (w'.time ≡ suc t)
      × ((robot.clock t - start) / 1000000000 ≤ timeout loop)

  gives_up :
      (loop : Loop) (start : ℕ) (w w1 : World)
      → w1.sent ≡ w.sent
      → w.time < w1.time
      → Post (Rounded loop start w) (refuse robot memory gave_up w1)
  gives_up loop start w w1 e later =
      by_link (refuse robot memory gave_up w1) (refuse-Refused gave_up w1)
    where
      by_link :
          (m : Outcome (Verdict × World))
          → Post (Refused gave_up w1) m
          → Post (Rounded loop start w) m
      by_link fault h = tt
      by_link (throws x) h = tt
      by_link (ok (gave_up, w')) h =
          (λ stays. h.0.0 stays ∙ ap (λ s. s ++ clear) e, omega (arith, h.0.1))
      by_link (ok (finished, w')) h = absurd (finished-ne-gave_up h.1)
      by_link (ok (again, w')) h = absurd (again-ne-gave_up h.1)

  pub wait_round-Rounded :
      (loop : Loop) (start : ℕ) (w : World)
      → Post (Rounded loop start w) (wait_round robot memory loop start w)
  unfolding wait_round
  wait_round-Rounded loop start w =
      Post-bind (Over loop w) (Rounded loop start w) (is_over robot memory loop w) _
        (is_over-Over loop w)
        (λ p h.
          Post-if (Rounded loop start w) p.0 _ _
            (λ e. (h.0.0, h.0.1, w.time, omega arith, h.0.1, h.1 e))
            (λ _.
              Post-bind (Calm p.1) (Rounded loop start w) (is_lost robot memory loop p.1) _
                (is_lost-Calm loop p.1)
                (λ q k.
                  Post-if (Rounded loop start w) q.0 _ _
                    (λ _. gives_up loop start w q.1 (k.0 ∙ h.0.0) (omega (arith, h.0.1, k.1)))
                    (λ _.
                      Post-bind (Calm q.1) (Rounded loop start w) (is_stopped robot memory q.1) _
                        (is_stopped-Calm q.1)
                        (λ r l.
                          Post-if (Rounded loop start w) r.0 _ _
                            (λ _.
                              gives_up loop start w r.1 (l.0 ∙ k.0 ∙ h.0.0)
                                (omega (arith, h.0.1, k.1, l.1)))
                            (λ _.
                              Post-if (Rounded loop start w)
                                (ltb (timeout loop) ((robot.clock r.1.time - start) / 1000000000)) _
                                _
                                (λ _.
                                  gives_up loop start w (tick r.1) (l.0 ∙ k.0 ∙ h.0.0)
                                    (omega (arith, h.0.1, k.1, l.1)))
                                (λ e. (
                                  l.0 ∙ k.0 ∙ h.0.0,
                                  omega (arith, h.0.1, k.1, l.1),
                                  r.1.time,
                                  refl,
                                  not_later (timeout loop) _ e,
                                ))))))))

  -- A loop, by what it returns.
  abbrev pub Waited : Loop → World → Bool × World → Type 0
  Waited loop w (true, w') =
      (w'.sent ≡ w.sent)
      × (w.time < w'.time)
      × (t : ℕ) × (w.time ≤ t)
      × (t < w'.time)
      × Shown loop t
  Waited loop w (false, w') = (StaysOpen robot → w'.sent ≡ w.sent ++ clear) × (w.time < w'.time)

  later_Waited :
      (loop : Loop) (w w1 : World) (p : Bool × World)
      → w1.sent ≡ w.sent
      → w.time < w1.time
      → Waited loop w1 p
      → Waited loop w p
  later_Waited loop w w1 (true, w') e later h =
      (h.0 ∙ e, omega (arith, h.1), h.2, omega (arith, h.3), h.4, h.5)
  later_Waited loop w w1 (false, w') e later h =
      (λ stays. h.0 stays ∙ ap (λ s. s ++ clear) e, omega (arith, h.1))

  pub wait-Waited :
      (fuel : ℕ) (loop : Loop) (start : ℕ) (w : World)
      → Posts (Waited loop w) (wait robot memory fuel loop start w)
  unfolding wait
  wait-Waited zero loop start w = tt
  wait-Waited (suc fuel) loop start w =
      by_round (wait_round robot memory loop start w) (wait_round-Rounded loop start w)
        (λ w1. wait-Waited fuel loop start w1)
    where
      by_round :
          (m : Outcome (Verdict × World))
          → Post (Rounded loop start w) m
          → ((w1 : World) → Posts (Waited loop w1) (wait robot memory fuel loop start w1))
          → Posts (Waited loop w) (elim m [
            | fault ↦ some fault
            | throws e ↦ some (throws e)
            | ok p ↦ elim p.0 [
              | finished ↦ some (ok (true, p.1))
              | gave_up ↦ some (ok (false, p.1))
              | again ↦ wait robot memory fuel loop start p.1
            ]
          ])
      by_round fault h rest = tt
      by_round (throws e) h rest = tt
      by_round (ok (finished, w')) h rest = h
      by_round (ok (gave_up, w')) h rest = h
      by_round (ok (again, w')) h rest =
          Posts-weaken (Waited loop w') (Waited loop w) (wait robot memory fuel loop start w')
            (λ p. later_Waited loop w w' p h.0 h.1) (rest w')
