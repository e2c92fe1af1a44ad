-- ===== src/Control/Readings/Async.antt =====
-- The parts of the status word of an asynchronous operation: `AsyncOperationStatus` of
-- include/ur_rtde/rtde_control_interface.h.
use ur_rtde_fork_custom.Base.{
  ℕ, ◌+◌, ◌*◌, ◌%◌, ◌^◌, ◌<◌, ◌≡◌, refl, ap, Bool, true, false, ◌==◌, if◌then◌else◌, arith,
}
use ur_rtde_fork_custom.Base.Int.{ℤ, pos, negsuc}
use ur_rtde_fork_custom.Base.Outcome.{ok}
use ur_rtde_fork_custom.Control.Readings.{
  StatePointer, is_async_operation_running, operation_id, change_count, progress,
  get_async_operation_progress_ex, get_async_operation_progress, progress_or_id,
}

-- The word that the control script writes: bit 31 is reserved, then come the identifier, the reserved
-- bit 23, the change counter of seven bits, the running bit and the progress.
abbrev pub status_word : ℕ → ℕ → ℕ → ℕ → Bool → ℕ → ℕ
status_word bit_31 id bit_23 count running progress =
    bit_31 * 2 ^ 31
    + id * 2 ^ 24
    + bit_23 * 2 ^ 23
    + count * 2 ^ 16
    + (if running then 2 ^ 15 else 0)
    + progress

module _ (bit_31 id bit_23 count progress_value : ℕ) (running : Bool) (id_bound : id < 2 ^ 7)
    (bit_23_bound : bit_23 < 2) (count_bound : count < 2 ^ 7)
    (progress_bound : progress_value < 2 ^ 15) where
  running_lem :
      is_async_operation_running (status_word bit_31 id bit_23 count running progress_value)
      ≡ running
  unfolding is_async_operation_running
  running_lem = ground arith

  operation_id_lem : operation_id (status_word bit_31 id bit_23 count running progress_value) ≡ id
  unfolding operation_id
  operation_id_lem = ground arith

  change_count_lem :
      change_count (status_word bit_31 id bit_23 count running progress_value)
      ≡ bit_23 * 2 ^ 7 + count
  unfolding change_count
  change_count_lem = ground arith

  low_bits : status_word bit_31 id bit_23 count running progress_value % 2 ^ 15 ≡ progress_value
  low_bits = ground arith

  -- The result of `getAsyncOperationProgress` for the parts of the word: the progress while the
  -- operation runs, and then -2 or -1 in turn from one operation to the next.
  abbrev expected_progress : ℤ
  expected_progress =
      if running then pos progress_value else (if id % 2 == 0 then negsuc 1 else negsuc 0)

  progress_or_id_lem :
      progress_or_id (status_word bit_31 id bit_23 count running progress_value) ≡ expected_progress
  unfolding progress
  progress_or_id_lem = rw (running_lem, operation_id_lem, low_bits) (inner running)
    where
      inner :
          (b : Bool)
          → (if b
              then (if b then pos progress_value else negsuc 0)
              else (if id % 2 == 0 then negsuc 1 else negsuc 0))
            ≡ (if b then pos progress_value else (if id % 2 == 0 then negsuc 1 else negsuc 0))
      inner true = refl
      inner false = refl

  -- Whatever the robot state is from which the status word is read, and whatever its reserved bits
  -- 31 and 23 are, `operationId` and the running bit are the parts of the word, `changeCount` is
  -- the counter of seven bits where bit 23 is 0 and 128 more where it is 1, and
  -- `getAsyncOperationProgress` gives the progress while the operation runs, and -2 or -1 by the
  -- parity of the identifier behind its end.
  pub get_async_operation_progress-status_word :
      (register_offset : ℕ) (s : StatePointer)
      → get_async_operation_progress_ex register_offset s
        ≡ ok (status_word bit_31 id bit_23 count running progress_value)
      → (operation_id (status_word bit_31 id bit_23 count running progress_value) ≡ id)
        × (change_count (status_word bit_31 id bit_23 count running progress_value)
            ≡ bit_23 * 2 ^ 7 + count)
        × (is_async_operation_running (status_word bit_31 id bit_23 count running progress_value)
            ≡ running)
        × (get_async_operation_progress register_offset s
            ≡ ok (
                if running
                then pos progress_value
                else (if id % 2 == 0 then negsuc 1 else negsuc 0)))
  unfolding get_async_operation_progress
  get_async_operation_progress-status_word register_offset s e =
      (operation_id_lem, change_count_lem, running_lem, rw e (ap ok progress_or_id_lem))
