-- ===== src/Rtde/Stream/Termination.antt =====
-- The loop of `receiveData` ends on every input.
use ur_rtde_fork_custom.Base.{
  ℕ, zero, suc, ◌≤◌, ◌<◌, ◌≡◌, ◌≢◌, refl, true, false, List, none, some, arith, length, take,
  length-drop, Option-cases, ◌++◌, ◌⊎◌, inl, inr, Bool-cases, if◌then◌else◌, leb, ltb,
}
use ur_rtde_fork_custom.Base.Outcome.{Outcome, Exception, ok, throws, fault, first_returns}
use ur_rtde_fork_custom.Utility.{RtdeControlHeader, read_rtde_header}
use ur_rtde_fork_custom.Rtde.Send.{header_size}
use ur_rtde_fork_custom.Rtde.RobotState.{RobotState}
use ur_rtde_fork_custom.Rtde.Stream.{Round, take_package, round, process, receive_data, read_size}

Outcome-cases {ℓ} :
    {A : Type ℓ} (o : Outcome A)
    → (o ≡ fault) ⊎ ((e : Exception) × (o ≡ throws e)) ⊎ ((a : A) × (o ≡ ok a))
Outcome-cases (ok a) = inr (inr (a, refl))
Outcome-cases (throws e) = inr (inl (e, refl))
Outcome-cases fault = inl refl

-- A round that goes on has taken a header at least.
take_package_shrinks :
    (names : List (List ℕ)) (h : RtdeControlHeader) (o : ℕ) (buffer : List ℕ) (s : RobotState)
    (r : Round)
    → h.msg_size ≤ length buffer
    → take_package names h o buffer s ≡ ok r
    → length r.buffer < length buffer
unfolding take_package
take_package_shrinks names h o buffer s r fits e = ground (arith, length-drop h.msg_size buffer)

-- The branch of `round` behind the header.
header_shrinks :
    (names : List (List ℕ)) (p : RtdeControlHeader × ℕ) (buffer : List ℕ) (s : RobotState)
    (r : Round)
    → (if leb p.0.msg_size (length buffer)
        then take_package names p.0 p.1 buffer s
        else ok (record { more = false; buffer = buffer; state = s }))
      ≡ ok r
    → r.more ≡ true
    → length r.buffer < length buffer
header_shrinks names p buffer s r e m =
    ground (arith, take_package_shrinks names p.0 p.1 buffer s r)

round_shrinks :
    (names : List (List ℕ)) (buffer : List ℕ) (s : RobotState) (r : Round)
    → round names buffer s ≡ ok r
    → r.more ≡ true
    → length r.buffer < length buffer
unfolding round
round_shrinks names buffer s r e m = elim (Bool-cases (ltb (length buffer) header_size)) [
  | inl short ↦ cc (rw (short, round) at e)
  | inr long ↦
      let found = first_returns (read_rtde_header buffer 0) _ (rw (long, round) at e) in
      header_shrinks names found.0 buffer s r found.2 m
]

process-ne-none :
    (fuel : ℕ) (names : List (List ℕ)) (buffer : List ℕ) (s : RobotState)
    → length buffer < fuel
    → process fuel names buffer s ≢ none
unfolding process
process-ne-none zero names buffer s h = absurd (omega arith)
process-ne-none (suc fuel) names buffer s h = elim (Outcome-cases (round names buffer s)) [
  | inl e ↦ rw (e, process) (λ x. cc)
  | inr (inl (x, e)) ↦ rw (e, process) (λ y. cc)
  | inr (inr (r, e)) ↦
      rw (e, process)
        (ground
          (arith, round_shrinks names buffer s r e, process-ne-none fuel names r.buffer r.state))
]

-- The loop of `receiveData` ends, whatever bytes are in the buffer and arrive: the fuel never runs out,
-- and the call returns, throws or reads outside its data.
pub receive_data_total :
    (names : List (List ℕ)) (read : Outcome (List ℕ)) (buffer : List ℕ) (s : RobotState)
    → (o : Outcome (List ℕ × RobotState)) × (receive_data names read buffer s ≡ some o)
unfolding receive_data
receive_data_total names (ok arrived) buffer s =
    let filled = buffer ++ take read_size arrived in
    elim (Option-cases (process (suc (length filled)) names filled s)) [
      | inl e ↦ absurd (process-ne-none _ names filled s (omega arith) e)
      | inr found ↦ found
    ]
receive_data_total names (throws e) buffer s = (throws e, refl)
receive_data_total names fault buffer s = (fault, refl)
