-- ===== src/Rtde/Stream/Rounds.antt =====
-- One round of the loop of `receiveData` on a buffer that starts with a frame.
use ur_rtde_fork_custom.Base.{
  ℕ, suc, ◌+◌, ◌^◌, ◌<◌, ◌≡◌, ◌≢◌, refl, Bool, true, false, List, [], ◌∷◌, ◌++◌, some, arith,
  length, drop, take, length-append, drop-append, take-append, ap, leb, ltb, if◌then◌else◌, ◌==◌,
  Bool-cases, ==_iff, ◌&&◌, lt→ltb,
}
use ur_rtde_fork_custom.Base.Outcome.{ok, fault, ◌>>=◌}
use ur_rtde_fork_custom.Utility.{RtdeControlHeader, read_rtde_header, get_uint16}
use ur_rtde_fork_custom.Rtde.Command.{rtde_code, rtde_data_package}
use ur_rtde_fork_custom.Rtde.Send.{header_size, frame}
use ur_rtde_fork_custom.Rtde.RobotState.{RobotState}
use ur_rtde_fork_custom.Rtde.Stream.{
  Round, skip_package, apply_package, take_package, round, process, is_data,
}

abbrev pub header_of : ℕ → List ℕ → RtdeControlHeader
header_of command payload = record { msg_size = header_size + length payload; msg_cmd = command }

-- `readRTDEHeader` reads back the size and the command of a frame that `sendAll` built, of less than
-- 2^16 bytes, whatever follows it.
read_rtde_header-frame :
    (command : ℕ) (payload rest : List ℕ)
    → header_size + length payload < 2 ^ 16
    → read_rtde_header (frame command payload ++ rest) 0
      ≡ ok (header_of command payload, header_size)
unfolding read_rtde_header get_uint16 frame
read_rtde_header-frame command payload rest h =
    ap (λ n. ok (record { msg_size = n; msg_cmd = command }, 3)) (omega arith)

module _ (command : ℕ) (payload rest : List ℕ) where
  frame_fits : leb (header_size + length payload) (length (frame command payload ++ rest)) ≡ true
  unfolding frame
  frame_fits = ground (arith, length-append payload rest)

  pub length-frame : header_size + length payload ≡ length (frame command payload)
  unfolding frame
  length-frame = omega arith

  behind-frame : drop (header_size + length payload) (frame command payload ++ rest) ≡ rest
  behind-frame = rw length-frame (drop-append (frame command payload) rest)

  inside-frame :
      drop header_size (take (header_size + length payload) (frame command payload ++ rest))
      ≡ payload
  inside-frame = rw (length-frame, take-append (frame command payload) rest) (unfold frame in refl)

  has_header-frame : ltb (length (frame command payload ++ rest)) header_size ≡ false
  unfolding frame
  has_header-frame = ground arith

pub no_wrap : (n : ℕ) → ltb (header_size + n) header_size ≡ false
no_wrap n = ground arith

module _ (names : List (List ℕ)) (command : ℕ) (payload rest : List ℕ) (s : RobotState) where
  -- A round on a buffer that starts with a complete frame.
  pub round-frame :
      header_size + length payload < 2 ^ 16
      → round names (frame command payload ++ rest) s ≡ (
          skip_package (header_of command payload) header_size rest >>= λ skipped.
          if skipped
          then ok (record { more = true; buffer = rest; state = s })
          else if command == rtde_code rtde_data_package
          then (apply_package names payload s >>= λ s'.
              ok (record { more = true; buffer = rest; state = s' }))
          else ok (record { more = true; buffer = rest; state = s }))
  unfolding round take_package rtde_code
  round-frame h =
      rw
        (
          has_header-frame command payload rest,
          read_rtde_header-frame command payload rest h,
          frame_fits command payload rest,
          behind-frame command payload rest,
          inside-frame command payload rest,
          no_wrap (length payload),
        )
        (refl)

pub not-data :
    (command : ℕ)
    → command ≢ rtde_code rtde_data_package
    → (command == rtde_code rtde_data_package) ≡ false
not-data command other = ground (
  arith,
  Bool-cases (command == rtde_code rtde_data_package),
  ==_iff command (rtde_code rtde_data_package),
)

-- What the look at the next header says.
module _ (payload : List ℕ) where
  pub skip-other :
      (command : ℕ) (rest : List ℕ)
      → (command == (rtde_code rtde_data_package)) ≡ false
      → skip_package (header_of command payload) header_size rest ≡ ok false
  unfolding skip_package rtde_code
  skip-other command rest e = rw e (by_length (leb header_size (length rest)))
    where
      by_length :
          (b : Bool)
          → (if b && false
              then (read_rtde_header rest header_size >>= λ p. ok (is_data p.0))
              else ok false)
            ≡ ok false
      by_length true = refl
      by_length false = refl

  pub skip_short :
      (rest : List ℕ)
      → length rest < header_size
      → skip_package (header_of (rtde_code rtde_data_package) payload) header_size rest ≡ ok false
  unfolding skip_package rtde_code
  skip_short rest short = ground arith

  pub skip_cut :
      (a b c : ℕ) (rest : List ℕ)
      → length rest < 3
      → skip_package
          (header_of (rtde_code rtde_data_package) payload)
          header_size
          (a ∷ b ∷ c ∷ rest)
        ≡ fault
  unfolding skip_package read_rtde_header get_uint16 rtde_code
  skip_cut a b c [] short = ground arith
  skip_cut a b c (d ∷ []) short = ground arith
  skip_cut a b c (d ∷ e ∷ []) short = ground arith
  skip_cut a b c (d ∷ e ∷ f ∷ rest) short = absurd (omega arith)

  pub skip_behind :
      (a b c d e f : ℕ) (rest : List ℕ)
      → skip_package
          (header_of (rtde_code rtde_data_package) payload)
          header_size
          (a ∷ b ∷ c ∷ d ∷ e ∷ f ∷ rest)
        ≡ ok (f == (rtde_code rtde_data_package))
  unfolding skip_package read_rtde_header get_uint16 rtde_code
  skip_behind a b c d e f rest = ground arith

-- A round of the loop, by what `round` says of it.
pub process-round :
    (names : List (List ℕ)) (fuel : ℕ) (buffer : List ℕ) (s : RobotState) (r : Round)
    → round names buffer s ≡ ok r
    → process (suc fuel) names buffer s
      ≡ (if r.more then process fuel names r.buffer r.state else some (ok (r.buffer, r.state)))
unfolding process
process-round names fuel buffer s r e = rw (process, e) (by_more r.more)
  where
    by_more :
        (b : Bool)
        → elim b [
          | true ↦ process fuel names r.buffer r.state
          | false ↦ some (ok (r.buffer, r.state))
        ]
          ≡ (if b then process fuel names r.buffer r.state else some (ok (r.buffer, r.state)))
    by_more true = refl
    by_more false = refl

pub process_fault :
    (names : List (List ℕ)) (fuel : ℕ) (buffer : List ℕ) (s : RobotState)
    → round names buffer s ≡ fault
    → process (suc fuel) names buffer s ≡ some fault
unfolding process
process_fault names fuel buffer s e = rw (process, e) refl

-- A buffer of less than a header ends the loop.
pub process_short :
    (names : List (List ℕ)) (fuel : ℕ) (rest : List ℕ) (s : RobotState)
    → length rest < header_size
    → process (suc fuel) names rest s ≡ some (ok (rest, s))
unfolding round
process_short names fuel rest s short =
    process-round names fuel rest s (record { more = false; buffer = rest; state = s })
      (rw (round, lt→ltb (length rest) header_size short) refl)
