-- ===== src/Examples/Session.antt =====
-- The theorems on the connection at a network that delivers given bytes.
use ur_rtde_fork_custom.Base.{
  ℕ, ◌≡◌, refl, true, List, [], ◌∷◌, length, take, drop, leb, if◌then◌else◌, codes, same_text,
  arith,
}
use ur_rtde_fork_custom.Base.Outcome.{ok, throws, system_error, runtime_error}
use ur_rtde_fork_custom.Utility.{pack_uint32}
use ur_rtde_fork_custom.Utility.Text.{split}
use ur_rtde_fork_custom.Utility.Text.Find.{contains_text}
use ur_rtde_fork_custom.Rtde.Command.{rtde_code, connected, started, paused}
use ur_rtde_fork_custom.Rtde.Send.{frame}
use ur_rtde_fork_custom.Rtde.Session.{
  Network, Session, constructor_state, send_start, get_controller_version, send_output_setup,
}
use ur_rtde_fork_custom.Rtde.Session.Answer.{missing_variables}
use ur_rtde_fork_custom.Rtde.Session.Machine.{
  Moves, after, asking_start, opening, after-Moves, IsSound, constructed, called, Reached-IsSound,
}
use ur_rtde_fork_custom.Rtde.Session.Version.{version, version_body, get_controller_version-answer}
use ur_rtde_fork_custom.Rtde.Session.Setup.{
  send_output_setup-answer, send_start-answer, missing_variables-lacking,
}

-- It takes every connection and every write, and reads from the bytes that are left.
abbrev canned : Network (List ℕ)
canned = record {
  connect_to = λ w. (ok tt, w);
  read = λ n w. if leb n (length w) then (ok (take n w), drop n w) else (throws system_error, w);
  write = λ bytes w. (ok tt, w);
}

abbrev opened_with : List ℕ → Session (List ℕ)
opened_with bytes = record (constructor_state bytes) { conn_state = connected; has_socket = true }

-- The answer to `sendStart` with success.
abbrev start_reply : List ℕ
start_reply = 0 ∷ 4 ∷ 83 ∷ 1 ∷ []

after-Moves_example :
    Moves asking_start connected (after canned asking_start (opened_with start_reply)).conn_state
after-Moves_example = after-Moves canned asking_start (opened_with start_reply)

Reached-IsSound_example :
    IsSound canned
      (after canned asking_start (after canned opening (constructor_state start_reply)))
Reached-IsSound_example =
    Reached-IsSound canned (called asking_start (called opening (constructed start_reply)))

abbrev paused_with : List ℕ → Session (List ℕ)
paused_with bytes = record (opened_with bytes) { conn_state = paused }

abbrev version_reply : List ℕ
version_reply = 0 ∷ 19 ∷ 118 ∷ version_body 5 11 1 1000

get_controller_version-answer_example :
    get_controller_version canned (opened_with version_reply)
    ≡ (ok (5, 11, 1, 1000), opened_with [])
unfolding frame pack_uint32 rtde_code
get_controller_version-answer_example =
    get_controller_version-answer canned 118 (version_body 5 11 1 1000) (5, 11, 1, 1000)
      (opened_with version_reply) version_reply []
      (version 5 11 1 1000 refl refl (omega arith) (omega arith) (omega arith) (omega arith)) refl
      refl refl (version_body 5 11 1 1000, refl, refl)

abbrev two_names : List (List ℕ)
two_names = codes "timestamp" ∷ codes "speed" ∷ []

abbrev two_types : List ℕ
two_types = codes "DOUBLE,NOT_FOUND"

abbrev output_reply : List ℕ
output_reply = 0 ∷ 20 ∷ 79 ∷ 1 ∷ two_types

send_output_setup-answer_example :
    send_output_setup canned two_names 4638707616191610880 (opened_with output_reply) ≡ (
      throws runtime_error,
      record (opened_with []) {
        output_names = two_names;
        output_types = codes "DOUBLE" ∷ codes "NOT_FOUND" ∷ [];
      },
    )
unfolding frame rtde_code split contains_text
send_output_setup-answer_example =
    send_output_setup-answer canned two_names 4638707616191610880 1 two_types
      (opened_with output_reply) output_reply [] refl refl (omega arith) (omega arith) refl
      (1 ∷ two_types, refl, refl)

send_start-answer_example :
    send_start canned (opened_with start_reply)
    ≡ (ok tt, record (opened_with []) { conn_state = started })
unfolding frame rtde_code
send_start-answer_example =
    send_start-answer canned true 1 [] (opened_with start_reply) start_reply [] refl refl
      (omega arith) refl (1 ∷ [], refl, refl)

missing_variables-lacking_example :
    missing_variables (codes "DOUBLE" ∷ codes "NOT_FOUND" ∷ []) two_names ≡ ok (codes "speed")
unfolding same_text
missing_variables-lacking_example =
    missing_variables-lacking (codes "DOUBLE" ∷ codes "NOT_FOUND" ∷ []) two_names (omega arith)
