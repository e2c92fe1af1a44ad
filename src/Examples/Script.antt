-- ===== src/Examples/Script.antt =====
-- The theorems on the script client.
use ur_rtde_fork_custom.Base.{
  ℕ, ◌≡◌, refl, true, false, List, [], ◌∷◌, ◌++◌, none, some, codes, same_text, if◌then◌else◌,
  arith, inl, length,
}
use ur_rtde_fork_custom.Base.Outcome.{ok}
use ur_rtde_fork_custom.Utility.Text.{is_digit}
use ur_rtde_fork_custom.Script.Removal.{
  Version, Needed, remove, remove_unsupported_functions, read_needed, is_kept,
}
use ur_rtde_fork_custom.Script.Removal.Tags.{since, since_or}
use ur_rtde_fork_custom.Script.Removal.Lines.{
  Line, plain, tagged, AreLines, source, supported_source,
}
use ur_rtde_fork_custom.Script.Removal.Supported.{remove_unsupported_functions-source}
use ur_rtde_fork_custom.Script.Removal.Termination.{
  IsClosed, IsCleared, remove-IsCleared, remove_endless,
}
use ur_rtde_fork_custom.Script.Injection.{ScriptInjectItem, set_script_injection, scan_and_inject}
use ur_rtde_fork_custom.Script.Injection.Items.{AreDistinct, injection, set_script_injection_lem}
use ur_rtde_fork_custom.Script.Injection.Scan.{Injected, scan_and_inject-Injected}
use ur_rtde_fork_custom.Script.Client.{ScriptWorld, ScriptClient, send_script}
use ur_rtde_fork_custom.Script.Client.Sent.{program, send_script-source}

abbrev five_three : Version
five_three = record { major = 5; minor = 3 }

-- A line for every controller, one for newer controllers and one for two series.
abbrev few_lines : List Line
few_lines =
    plain (codes "sync()")
    ∷ tagged [] (since 5 4) (codes "  tool_contact()")
    ∷ tagged (codes " ") (since_or 5 3 3 12) (codes " zero()")
    ∷ []

few_lines-AreLines : AreLines few_lines
unfolding is_digit
few_lines-AreLines = (
  refl,
  ((refl, refl, refl, omega arith, (refl, omega arith)), ((refl, refl, refl, omega arith, tt), tt)),
)

remove_unsupported_functions-source_example :
    remove_unsupported_functions five_three (source few_lines)
    ≡ ok (true, supported_source five_three few_lines)
remove_unsupported_functions-source_example =
    remove_unsupported_functions-source five_three few_lines (omega arith) few_lines-AreLines

few_lines_cut :
    supported_source five_three few_lines
    ≡ codes "sync()" ++ 10 ∷ (codes "            zero()" ++ 10 ∷ [])
few_lines_cut = refl

-- Two tags in one line and a short one at the end.
abbrev odd_text : List ℕ
odd_text = codes "$9.9  a $3.4  b" ++ 10 ∷ []

odd_text-IsClosed : IsClosed odd_text
odd_text-IsClosed = omega arith

remove-IsCleared_example : IsCleared (remove 3 five_three odd_text)
remove-IsCleared_example = remove-IsCleared 3 five_three odd_text odd_text-IsClosed (omega arith)

odd_text_result : remove 3 five_three odd_text ≡ some (ok (true, []))
unfolding remove
odd_text_result = refl

abbrev nine_nine : Needed
nine_nine = record { major = 9; minor = 9; extra_major = 0; extra_minor = 0; is_additional = false }

nine_nine_read : read_needed (codes "9.9  abc") ≡ ok (some nine_nine)
unfolding read_needed
nine_nine_read = refl

nine_nine_refused : is_kept five_three nine_nine ≡ false
unfolding is_kept
nine_nine_refused = refl

remove_endless_example : remove 1000 five_three (codes "$9.9  abc") ≡ none
remove_endless_example =
    remove_endless 1000 five_three (codes "9.9  abc") nine_nine refl nine_nine_read
      nine_nine_refused

abbrev header_item : ScriptInjectItem
header_item = record { search_string = codes "# HEADER"; inject_string = codes " tool()" }

set_script_injection_lem_example :
    AreDistinct (set_script_injection (codes "# END") (codes "x") (header_item ∷ []))
    × ((text : List ℕ)
        → injection text (set_script_injection (codes "# END") (codes "x") (header_item ∷ [])) ≡ (
            if same_text text (codes "# END")
            then some (codes "x")
            else injection text (header_item ∷ [])))
set_script_injection_lem_example =
    set_script_injection_lem (codes "# END") (codes "x") (header_item ∷ []) (tt, tt)

scan_and_inject-Injected_example :
    (result : List ℕ) × (scan_and_inject false (header_item ∷ []) (codes "a # HEADER b")
      ≡ ok result)
    × Injected (header_item ∷ []) (codes "a # HEADER b") result
scan_and_inject-Injected_example =
    scan_and_inject-Injected (header_item ∷ []) (codes "a # HEADER b")

-- A controller that takes every text; the script holds no `%`, so it is printed as it is.
abbrev recording : ScriptWorld (List ℕ)
recording = record {
  connect_to = λ w. (ok tt, w);
  write = λ text w. (ok (length text), w ++ text);
  read_file = λ name w. none;
  ur_script = source few_lines;
  script_format = λ text ip port. ok text;
}

abbrev ready_client : ScriptClient (List ℕ)
ready_client = record {
  version = five_three;
  verbose = false;
  is_connected = true;
  has_socket = true;
  script_file_name = [];
  script_injections = header_item ∷ [];
  heartbeat_ip = codes "foo";
  heartbeat_port = codes "foo";
  world = [];
}

abbrev sent_text : List ℕ
sent_text = supported_source five_three (program few_lines)

sent_text_scanned : scan_and_inject false (header_item ∷ []) sent_text ≡ ok sent_text
unfolding scan_and_inject
sent_text_scanned = refl

send_script-source_example :
    send_script recording ready_client ≡ (ok true, record ready_client { world = sent_text })
send_script-source_example =
    send_script-source recording ready_client few_lines sent_text sent_text sent_text (omega arith)
      few_lines-AreLines refl (inl refl) sent_text_scanned refl refl refl refl refl
