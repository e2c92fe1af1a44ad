-- ===== src/Examples/Handshake.antt =====
-- The theorems on `sendCommand` at a robot that is ready at once and done a step later.
use ur_rtde_fork_custom.Base.{
  ◌*◌, ◌≡◌, refl, Bool, true, false, [], ◌∷◌, some, arith, ltb, if◌then◌else◌,
}
use ur_rtde_fork_custom.Base.Outcome.{Outcome, ok}
use ur_rtde_fork_custom.Rtde.Command.{CommandType, RobotCommand, command_code}
use ur_rtde_fork_custom.Rtde.Send.{send_payload}
use ur_rtde_fork_custom.Control.SendCommand.{
  Robot, Flags, World, clear_cmd, try_command, wait, wait_round,
}
use ur_rtde_fork_custom.Control.SendCommand.Handshake.{Answered, try_command_answer}
use ur_rtde_fork_custom.Control.SendCommand.Termination.{try_command_total}
use ur_rtde_fork_custom.Examples.Values.{stale}

abbrev prompt : Robot
prompt = record {
  runtime_state = λ t. some 2;
  control_script_state = λ t. some (if ltb t 5 then 1 else 2);
  safety_status_bits = λ t. some 1;
  clock = λ t. t * 1000000000;
  is_connected = λ t. true;
  is_writable = λ t. true;
}

abbrev no_flags : Flags
no_flags = record {
  custom_script = false;
  custom_script_running = false;
  use_external_control_ur_cap = false;
}

abbrev zero_sensor : RobotCommand
zero_sensor = record stale { type = CommandType.zero_ft_sensor; recipe_id = 4 }

abbrev at_first : World
at_first = record { time = 0; sent = [] }

abbrev at_last : World
at_last = record { time = 8; sent = send_payload zero_sensor ∷ send_payload (clear_cmd stale) ∷ [] }

prompt_run : try_command prompt stale no_flags 5 zero_sensor at_first ≡ some (ok (true, at_last))
unfolding try_command wait wait_round command_code
prompt_run = refl

try_command_answer_example : Answered prompt stale no_flags zero_sensor at_first (true, at_last)
try_command_answer_example =
    try_command_answer prompt stale no_flags zero_sensor (λ t. refl) 5 at_first at_last true
      prompt_run

try_command_total_example :
    (o : Outcome (Bool × World)) × (try_command prompt stale no_flags 301 zero_sensor at_first
      ≡ some o)
try_command_total_example =
    try_command_total prompt stale no_flags zero_sensor 301 301 at_first (λ t d. omega arith)
      (omega arith)
