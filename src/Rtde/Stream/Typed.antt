-- ===== src/Rtde/Stream/Typed.antt =====
-- The types of the entries of the robot state, which `receiveData` keeps.
use ur_rtde_fork_custom.Base.{
  ℕ, zero, suc, ◌≡◌, refl, sym, ap, ◌∙◌, Bool, true, false, ◌&&◌, List, [], ◌∷◌, ◌++◌, Option, none,
  some, length, same_text, same_text-eq, if◌then◌else◌, drop, take, leb, ltb,
}
use ur_rtde_fork_custom.Base.Outcome.{Outcome, ok, throws, fault}
use ur_rtde_fork_custom.Base.Post.{Post, Post-bind, Post-if, Post-Any, Any, Posts}
use ur_rtde_fork_custom.Utility.{
  RtdeControlHeader, read_rtde_header, get_uchar, get_double, get_int32, get_uint32, get_uint64,
  unpack_vector3d, unpack_vector6d, unpack_vector6_int32,
}
use ur_rtde_fork_custom.Rtde.Send.{header_size}
use ur_rtde_fork_custom.Rtde.StateTypes.{
  Variant, uint32, uint64, int32, double, vector_double, vector_int32, find, state_types,
}
use ur_rtde_fork_custom.Rtde.RobotState.{
  RobotState, set_state_data, get_state_data, get_state_data-set_state_data,
}
use ur_rtde_fork_custom.Rtde.RobotState.Kind.{Kind, kind}
use ur_rtde_fork_custom.Rtde.Stream.{
  Round, is_vector3, read_variable, update_variable, update_variables, apply_package, skip_package,
  take_package, round, process, receive_data, read_size, is_data,
}

-- The state has an entry of the name, and it is of the type.
abbrev pub Holds : List ℕ → Kind → RobotState → Type 0
Holds name k s = (v : Variant) × (get_state_data name s ≡ some v) × (kind v ≡ k)

set-Holds :
    (name : List ℕ) (k : Kind) (key : List ℕ) (v : Variant) (s : RobotState)
    → (same_text name key ≡ true → kind v ≡ k)
    → Holds name k s
    → Holds name k (set_state_data key v s).1
set-Holds name k key v s typed (u, e, h) =
    choose (set_state_data key v s).0 (same_text name key) typed
      (get_state_data-set_state_data key name v s).0
  where
    choose :
        (b c : Bool)
        → (c ≡ true → kind v ≡ k)
        → get_state_data name (set_state_data key v s).1
          ≡ (if b && c then some v else get_state_data name s)
        → Holds name k (set_state_data key v s).1
    choose true true t g = (v, g, t refl)
    choose true false t g = (u, cc, h)
    choose false c t g = (u, cc, h)

read_variable-kind :
    (entry : Variant) (name packet : List ℕ) (o : ℕ)
    → Post (λ (p : Variant × ℕ). kind p.0 ≡ kind entry) (read_variable entry name packet o)
unfolding read_variable
read_variable-kind (uint32 _) name packet o =
    Post-bind Any _ (get_uint32 packet o) _ (Post-Any _) (λ a h. refl)
read_variable-kind (uint64 _) name packet o =
    Post-bind Any _ (get_uint64 packet o) _ (Post-Any _) (λ a h. refl)
read_variable-kind (int32 _) name packet o =
    Post-bind Any _ (get_int32 packet o) _ (Post-Any _) (λ a h. refl)
read_variable-kind (double _) name packet o =
    Post-bind Any _ (get_double packet o) _ (Post-Any _) (λ a h. refl)
read_variable-kind (vector_double _) name packet o =
    Post-bind Any _ (if is_vector3 name then unpack_vector3d packet o else unpack_vector6d packet o)
      _ (Post-Any _) (λ a h. refl)
read_variable-kind (vector_int32 _) name packet o =
    Post-bind Any _ (unpack_vector6_int32 packet o) _ (Post-Any _) (λ a h. refl)

-- A name of the table keeps its type over every package.
module _ (name : List ℕ) (entry : Variant) (known : find name state_types ≡ some entry) where
  abbrev Good : RobotState → Type 0
  Good s = Holds name (kind entry) s

  -- The type of a table's answer.
  abbrev kind_of : Option Variant → Kind
  kind_of none = kind entry
  kind_of (some v) = kind v

  update_variable-Good :
      (found : Option Variant) (key packet : List ℕ) (o : ℕ) (s : RobotState)
      → (same_text name key ≡ true → found ≡ some entry)
      → Good s
      → Post (λ p. Good p.1) (update_variable found key packet o s)
  unfolding update_variable
  update_variable-Good none key packet o s same h = h
  update_variable-Good (some e) key packet o s same h =
      Post-bind (λ p. kind p.0 ≡ kind e) _ (read_variable e key packet o) _
        (read_variable-kind e key packet o)
        (λ p hp. set-Holds name (kind entry) key p.0 s (λ t. hp ∙ ap kind_of (same t)) h)

  update_variables-Good :
      (names : List (List ℕ)) (packet : List ℕ) (o : ℕ) (s : RobotState)
      → Good s
      → Post (λ p. Good p.1) (update_variables names packet o s)
  unfolding update_variables
  update_variables-Good [] packet o s h = h
  update_variables-Good (key ∷ names) packet o s h =
      Post-bind (λ p. Good p.1) _ (update_variable (find key state_types) key packet o s) _
        (update_variable-Good (find key state_types) key packet o s
          (λ t. rw (sym (same_text-eq name key t)) known) h)
        (λ p hp. update_variables-Good names packet p.0 p.1 hp)

  apply_package-Good :
      (names : List (List ℕ)) (packet : List ℕ) (s : RobotState)
      → Good s
      → Post Good (apply_package names packet s)
  unfolding apply_package get_state_data
  apply_package-Good names packet s h = Post-bind Any _ (get_uchar packet 0) _ (Post-Any _) (λ a _.
      Post-bind (λ p. Good p.1) _ (update_variables names packet a.1 s) _
        (update_variables-Good names packet a.1 s h) (λ p hp. hp))

  take_package-Good :
      (names : List (List ℕ)) (header : RtdeControlHeader) (o : ℕ) (buffer : List ℕ)
      (s : RobotState)
      → Good s
      → Post (λ r. Good r.state) (take_package names header o buffer s)
  unfolding take_package
  take_package-Good names header o buffer s h =
      Post-if _ (ltb header.msg_size header_size) _ _ (λ _. tt)
        (λ _.
          Post-bind Any _ (skip_package header o (drop header.msg_size buffer)) _ (Post-Any _)
            (λ b _.
              Post-if _ b _ _ (λ _. h)
                (λ _.
                  Post-if _ (is_data header) _ _
                    (λ _.
                      Post-bind Good _
                        (apply_package names (drop header_size (take header.msg_size buffer)) s) _
                        (apply_package-Good names (drop header_size (take header.msg_size buffer)) s
                          h)
                        (λ _ g. g))
                    (λ _. h))))

  round-Good :
      (names : List (List ℕ)) (buffer : List ℕ) (s : RobotState)
      → Good s
      → Post (λ r. Good r.state) (round names buffer s)
  unfolding round
  round-Good names buffer s h =
      Post-if _ (ltb (length buffer) header_size) _ _ (λ _. h)
        (λ _. Post-bind Any _ (read_rtde_header buffer 0) _ (Post-Any _) (λ a _.
          Post-if _ (leb a.0.msg_size (length buffer)) _ _
            (λ _. take_package-Good names a.0 a.1 buffer s h) (λ _. h)))

  abbrev Kept : Option (Outcome (List ℕ × RobotState)) → Type 0
  Kept = Posts (λ p. Good p.1)

  process-Good :
      (fuel : ℕ) (names : List (List ℕ)) (buffer : List ℕ) (s : RobotState)
      → Good s
      → Kept (process fuel names buffer s)
  unfolding process
  process-Good zero names buffer s h = tt
  process-Good (suc fuel) names buffer s h =
      continue (round names buffer s) (round-Good names buffer s h)
        (λ b t g. process-Good fuel names b t g)
    where
      stop_or_go :
          (more : Bool) (b : List ℕ) (t : RobotState)
          → Good t
          → ((b : List ℕ) (t : RobotState) → Good t → Kept (process fuel names b t))
          → Kept (elim more [ true ↦ process fuel names b t | false ↦ some (ok (b, t)) ])
      stop_or_go true b t g rest = rest b t g
      stop_or_go false b t g rest = g

      continue :
          (m : Outcome Round)
          → Post (λ r. Good r.state) m
          → ((b : List ℕ) (t : RobotState) → Good t → Kept (process fuel names b t))
          → Kept (elim m [
            | fault ↦ some fault
            | throws e ↦ some (throws e)
            | ok r ↦ elim r.more [
              | true ↦ process fuel names r.buffer r.state
              | false ↦ some (ok (r.buffer, r.state))
            ]
          ])
      continue fault g rest = tt
      continue (throws e) g rest = tt
      continue (ok r) g rest = stop_or_go r.more r.buffer r.state g rest

  pub receive_data-Good :
      (names : List (List ℕ)) (read : Outcome (List ℕ)) (buffer : List ℕ) (s : RobotState)
      → Good s
      → Posts (λ p. Good p.1) (receive_data names read buffer s)
  unfolding receive_data
  receive_data-Good names fault buffer s h = tt
  receive_data-Good names (throws e) buffer s h = tt
  receive_data-Good names (ok d) buffer s h = process-Good _ names (buffer ++ take read_size d) s h
