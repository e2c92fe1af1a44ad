-- ===== src/Rtde/Session/Version.antt =====
-- The messages of the controller, as the class `RTDE` of src/rtde.cpp takes them apart.
use ur_rtde_fork_custom.Base.{
  ℕ, ◌+◌, ◌%◌, ◌^◌, ◌<◌, ◌≡◌, refl, ◌∙◌, subst, true, false, List, [], ◌++◌, length, take, arith,
  ◌==◌, if◌then◌else◌,
}
use ur_rtde_fork_custom.Base.Outcome.{ok}
use ur_rtde_fork_custom.Base.Action.{lift, return}
use ur_rtde_fork_custom.Utility.{pack_uint32, byte_of, join16, join32, get_uint16, get_uint32}
use ur_rtde_fork_custom.Utility.RoundTrip.{IsWord32}
use ur_rtde_fork_custom.Rtde.Command.{RtdeCommand, rtde_code, rtde_get_urcontrol_version}
use ur_rtde_fork_custom.Rtde.Send.{frame, header_size}
use ur_rtde_fork_custom.Rtde.Session.{
  Network, Session, is_connected, body_size, read_message, get_controller_version, send_all,
}
use ur_rtde_fork_custom.Rtde.Session.Answer.{VersionNumbers, read_version}

-- The two reads of a message get the header and the body of a frame.
abbrev pub Delivers : {W : Type 0} → Network W → ℕ → List ℕ → W → W → Type 0
Delivers {W = W} net command body before after =
    (between : W) × (net.read header_size before
      ≡ (ok (take header_size (frame command body)), between))
    × (net.read (length body) between ≡ (ok body, after))

body_size-frame :
    (n : ℕ)
    → n + header_size < 2 ^ 16
    → body_size (
        join16
          (byte_of 1 ((header_size + n % 2 ^ 16) % 2 ^ 16))
          (byte_of 0 ((header_size + n % 2 ^ 16) % 2 ^ 16)))
      ≡ n
body_size-frame n h = omega (arith, h)

-- The body of the controller's answer.
abbrev pub version_body : ℕ → ℕ → ℕ → ℕ → List ℕ
version_body v_major v_minor v_bugfix v_build =
    pack_uint32 v_major ++ pack_uint32 v_minor ++ pack_uint32 v_bugfix ++ pack_uint32 v_build

version_body-length : (a b c d : ℕ) → length (version_body a b c d) + header_size < 2 ^ 16
unfolding pack_uint32
version_body-length a b c d = omega arith

join32-pack_uint32 :
    (w : ℕ) → IsWord32 w → join32 (byte_of 3 w) (byte_of 2 w) (byte_of 1 w) (byte_of 0 w) ≡ w
join32-pack_uint32 w h = omega (arith, h)

read_version-version_body :
    (a b c d : ℕ)
    → IsWord32 a
    → IsWord32 b
    → IsWord32 c
    → IsWord32 d
    → read_version (version_body a b c d) ≡ ok (a, b, c, d)
unfolding read_version pack_uint32 get_uint32
read_version-version_body a b c d ha hb hc hd =
    rw
      (
        join32-pack_uint32 a ha,
        join32-pack_uint32 b hb,
        join32-pack_uint32 c hc,
        join32-pack_uint32 d hd,
      )
      refl

-- What the answer of the controller says of its version.
pub data Answered (command : ℕ) (body : List ℕ) : VersionNumbers → Type 0 where
  version :
      (v_major v_minor v_bugfix v_build : ℕ)
      → (command == rtde_code rtde_get_urcontrol_version) ≡ true
      → body ≡ version_body v_major v_minor v_bugfix v_build
      → IsWord32 v_major
      → IsWord32 v_minor
      → IsWord32 v_bugfix
      → IsWord32 v_build
      → Answered command body (v_major, v_minor, v_bugfix, v_build)
  other :
      (command == rtde_code rtde_get_urcontrol_version) ≡ false
      → length body + header_size < 2 ^ 16
      → Answered command body (0, 0, 0, 0)

module _ {W : Type 0} (net : Network W) where
  -- A frame that the controller sends is taken apart into its command and its payload.
  pub read_message-frame :
      (command : ℕ) (body : List ℕ) (s : Session W) (after : W)
      → s.has_socket ≡ true
      → length body + header_size < 2 ^ 16
      → Delivers net command body s.world after
      → read_message net s ≡ (ok (command, body), record s { world = after })
  unfolding read_message frame get_uint16
  read_message-frame command body s after e h (between, r1, r2) =
      rw (e, r1, body_size-frame (length body) h, r2) refl

  -- An open connection gets the frame.
  pub send_all_open :
      (command : RtdeCommand) (payload : List ℕ) (s : Session W) (sent : W)
      → is_connected s ≡ true
      → s.has_socket ≡ true
      → net.write (frame (rtde_code command) payload) s.world ≡ (ok tt, sent)
      → send_all net command payload s ≡ (ok tt, record s { world = sent })
  unfolding send_all
  send_all_open command payload s sent conn sock wrote = rw (conn, sock, wrote) refl

  -- The request, and the message that is read behind it.
  requested :
      (command : ℕ) (body : List ℕ) (s : Session W) (asked after : W)
      → length body + header_size < 2 ^ 16
      → is_connected s ≡ true
      → s.has_socket ≡ true
      → net.write (frame (rtde_code rtde_get_urcontrol_version) []) s.world ≡ (ok tt, asked)
      → Delivers net command body asked after
      → get_controller_version net s
        ≡ (if command == rtde_code rtde_get_urcontrol_version
              then lift (read_version body)
              else return (0, 0, 0, 0))
            (record s { world = after })
  unfolding get_controller_version
  requested command body s asked after short conn sock wrote delivered =
      rw
        (
          send_all_open rtde_get_urcontrol_version [] s asked conn sock wrote,
          read_message-frame command body (record s { world = asked }) after sock short delivered,
        )
        refl

  -- On an open connection `getControllerVersion` writes the one request. It returns the four
  -- numbers of the controller's answer if that is one to this request, with a body of four words;
  -- an answer of any other kind counts as version 0.0.0.0, whatever its body. Conditions: the write
  -- succeeds, and the whole answer arrives.
  pub get_controller_version-answer :
      (command : ℕ) (body : List ℕ) (v : VersionNumbers) (s : Session W) (asked after : W)
      → Answered command body v
      → is_connected s ≡ true
      → s.has_socket ≡ true
      → net.write (frame (rtde_code rtde_get_urcontrol_version) []) s.world ≡ (ok tt, asked)
      → Delivers net command body asked after
      → get_controller_version net s ≡ (ok v, record s { world = after })
  get_controller_version-answer command body _ s asked after (version a b c d kind e ha hb hc hd)
        conn sock wrote delivered =
      requested command (version_body a b c d) s asked after (version_body-length a b c d) conn sock
        wrote (subst (λ x. Delivers net command x asked after) e delivered)
      ∙ (rw (kind, read_version-version_body a b c d ha hb hc hd) refl)
  get_controller_version-answer command body _ s asked after (other kind short) conn sock wrote
        delivered =
      requested command body s asked after short conn sock wrote delivered ∙ (rw kind refl)
