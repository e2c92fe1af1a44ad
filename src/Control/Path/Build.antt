-- ===== src/Control/Path/Build.antt =====
-- `buildPathScriptCode` of src/rtde_control_interface.cpp agrees with the `Path` that has replaced it.
use ur_rtde_fork_custom.Base.{
  ℕ, ◌≡◌, refl, sym, ap, ◌∙◌, List, [], ◌∷◌, ◌++◌, codes, map, append_assoc, append-nil,
}
use ur_rtde_fork_custom.Base.Outcome.{Outcome, ok, throws, fault, ◌>>=◌, ◌>>◌}
use ur_rtde_fork_custom.Control.Path.{
  move_j, move_l, position_tcp_pose, position_joints, PathEntry, limits, verify_move, verify_entry,
  coordinates, motion, to_script_code, append_movel_path, append_movej_path, build_path_script_code,
}

abbrev tool_move : List ℕ → PathEntry
tool_move pose = record { move_type = move_l; pos_type = position_tcp_pose; param = pose }

abbrev joint_move : List ℕ → PathEntry
joint_move pose = record { move_type = move_j; pos_type = position_joints; param = pose }

append_movel_path-map :
    (path : List (List ℕ)) (waypoints : List PathEntry)
    → append_movel_path path waypoints ≡ waypoints ++ map tool_move path
unfolding append_movel_path
append_movel_path-map [] waypoints = sym (append-nil waypoints)
append_movel_path-map (pose ∷ path) waypoints =
    append_movel_path-map path (waypoints ++ tool_move pose ∷ [])
    ∙ append_assoc waypoints (tool_move pose ∷ []) (map tool_move path)

append_movej_path-map :
    (path : List (List ℕ)) (waypoints : List PathEntry)
    → append_movej_path path waypoints ≡ waypoints ++ map joint_move path
unfolding append_movej_path
append_movej_path-map [] waypoints = sym (append-nil waypoints)
append_movej_path-map (pose ∷ path) waypoints =
    append_movej_path-map path (waypoints ++ joint_move pose ∷ [])
    ∙ append_assoc waypoints (joint_move pose ∷ []) (map joint_move path)

-- The lines of the moves, without the signals between them.
abbrev pub moves_code : (ℕ → List ℕ) → List PathEntry → Outcome (List ℕ)
moves_code print [] = ok []
moves_code print (entry ∷ entries) = do
  code ← to_script_code print entry
  rest ← moves_code print entries
  ok (code ++ rest)

-- One line in front of the others, written in one go and as a line of its own.
emit :
    (cmd : List ℕ) (check : Outcome (Unit {0})) (position speed rest rest' : Outcome (List ℕ))
    → rest ≡ rest'
    → (check
        >> (position >>= (λ q. speed >>= (λ s.
            rest >>= (λ t. ok (b'\t' ∷ (cmd ++ (codes "[" ++ (q ++ (codes "]," ++ (s ++ t)))))))))))
      ≡ ((check
            >> (position >>= (λ q.
                speed >>= (λ s. ok (b'\t' ∷ (cmd ++ (codes "[" ++ (q ++ (codes "]," ++ s)))))))))
          >>= (λ code. rest' >>= (λ t. ok (code ++ t))))
emit cmd fault position speed rest rest' e = refl
emit cmd (throws x) position speed rest rest' e = refl
emit cmd (ok u) fault speed rest rest' e = refl
emit cmd (ok u) (throws x) speed rest rest' e = refl
emit cmd (ok u) (ok q) fault rest rest' e = refl
emit cmd (ok u) (ok q) (throws x) rest rest' e = refl
emit cmd (ok u) (ok q) (ok s) rest rest' e =
    ap (λ r. r >>= (λ t. ok (b'\t' ∷ (cmd ++ (codes "[" ++ (q ++ (codes "]," ++ (s ++ t)))))))) e
    ∙ joined rest'
  where
    joined :
        (r : Outcome (List ℕ))
        → (r >>= (λ t. ok (b'\t' ∷ (cmd ++ (codes "[" ++ (q ++ (codes "]," ++ (s ++ t))))))))
          ≡ (r >>= (λ t. ok ((b'\t' ∷ (cmd ++ (codes "[" ++ (q ++ (codes "]," ++ s))))) ++ t)))
    joined fault = refl
    joined (throws x) = refl
    joined (ok t) = simp append_assoc

build-tool_moves :
    (print : ℕ → List ℕ) (path : List (List ℕ))
    → build_path_script_code print path (codes "movel(p") ≡ moves_code print (map tool_move path)
unfolding build_path_script_code to_script_code verify_entry
build-tool_moves print [] = refl
build-tool_moves print (pose ∷ path) =
    emit (codes "movel(p") (verify_move (limits position_tcp_pose) pose) (coordinates print pose)
      (motion print pose) _ _ (build-tool_moves print path)

build-joint_moves :
    (print : ℕ → List ℕ) (path : List (List ℕ))
    → build_path_script_code print path (codes "movej(") ≡ moves_code print (map joint_move path)
unfolding build_path_script_code to_script_code verify_entry
build-joint_moves print [] = refl
build-joint_moves print (pose ∷ path) =
    emit (codes "movej(") (verify_move (limits position_joints) pose) (coordinates print pose)
      (motion print pose) _ _ (build-joint_moves print path)

-- For the commands "movel(p" and "movej(" `buildPathScriptCode` gives, refuses or fails with what the
-- moves of the `Path` filled by `appendMovelPath` or `appendMovejPath` do, without the progress signals.
pub build_path_script_code-moves :
    (print : ℕ → List ℕ) (path : List (List ℕ))
    → (build_path_script_code print path (codes "movel(p")
        ≡ moves_code print (append_movel_path path []))
      × (build_path_script_code print path (codes "movej(")
          ≡ moves_code print (append_movej_path path []))
build_path_script_code-moves print path = (
  build-tool_moves print path ∙ ap (moves_code print) (sym (append_movel_path-map path [])),
  build-joint_moves print path ∙ ap (moves_code print) (sym (append_movej_path-map path [])),
)
