-- ===== src/Control/Path/Entry.antt =====
-- Which entries of a path have script code, and which code: `PathEntry::toScriptCode` of
-- src/rtde_control_interface.cpp.
use ur_rtde_fork_custom.Base.{
  ℕ, ◌*◌, ◌^◌, ◌≤◌, ◌<◌, ◌≡◌, ◌≢◌, ◌↔◌, ◌⊎◌, refl, sym, subst, ◌∙◌, List, [], ◌∷◌, ◌++◌, codes, All,
  arith,
}
use ur_rtde_fork_custom.Base.Outcome.{Outcome, ok, throws, fault, ◌>>◌, first_returns}
use ur_rtde_fork_custom.Control.Limits.{
  verify_value_is_within, verify_value_is_within_lem, ur_blend_min, ur_blend_max,
}
use ur_rtde_fork_custom.Control.Path.{
  MoveType, move_j, move_l, move_p, move_c, PositionType, position_tcp_pose, position_joints,
  PathEntry, limits, element, verify_move, verify_entry, command_text, position_text, coordinates,
  motion, to_script_code,
}

-- The value lies within the bounds; -0.0 counts as 0.0.
abbrev pub Passes : ℕ → ℕ → ℕ → Type 0
Passes value min max = ((min ≤ value) × (value ≤ max)) ⊎ ((value ≡ 2 ^ 63) × (min ≡ 0))

-- An entry that the controller can be given, and its line of code.
pub record Coded (print : ℕ → List ℕ) (entry : PathEntry) (code : List ℕ) : Type 0 where
  pub a : ℕ
  pub b : ℕ
  pub c : ℕ
  pub d : ℕ
  pub e : ℕ
  pub f : ℕ
  pub velocity : ℕ
  pub acceleration : ℕ
  pub blend : ℕ
  pub more : List ℕ
  pub numbers : entry.param ≡ a ∷ b ∷ c ∷ d ∷ e ∷ f ∷ velocity ∷ acceleration ∷ blend ∷ more
  pub no_circle : entry.move_type ≢ move_c
  pub velocity_passes :
      Passes velocity (limits entry.pos_type).velocity_min (limits entry.pos_type).velocity_max
  pub acceleration_passes :
      Passes acceleration
        (limits entry.pos_type).acceleration_min
        (limits entry.pos_type).acceleration_max
  pub blend_passes : Passes blend ur_blend_min ur_blend_max
  pub line :
      code
      ≡ b'\t'
        ∷ (command_text entry.move_type
            ++ (position_text entry.pos_type
                ++ (codes "["
                    ++ ((print a
                          ++ b','
                            ∷ (print b
                                ++ b','
                                  ∷ (print c
                                      ++ b',' ∷ (print d ++ b',' ∷ (print e ++ b',' ∷ print f)))))
                        ++ (codes "],"
                            ++ (codes "a="
                                ++ (print acceleration
                                    ++ (codes ",v="
                                        ++ (print velocity
                                            ++ (codes ",r="
                                                ++ (print blend
                                                    ++ (codes ")" ++ b'\n' ∷ []))))))))))))

verify_iff :
    (value min max : ℕ)
    → value < 2 ^ 64
    → min ≤ 2047 * 2 ^ 52
    → max ≤ 2047 * 2 ^ 52
    → (verify_value_is_within value min max ≡ ok tt) ↔ Passes value min max
verify_iff value min max hv hl hh = (verify_value_is_within_lem value min max hv hl hh).0

abbrev Nine : List ℕ → Type 0
Nine param =
    (a b c d e f v x r : ℕ) × (more : List ℕ) × (param ≡ a ∷ b ∷ c ∷ d ∷ e ∷ f ∷ v ∷ x ∷ r ∷ more)

nine : (param : List ℕ) (r : ℕ) → element param 8 ≡ ok r → Nine param
nine (a ∷ b ∷ c ∷ d ∷ e ∷ f ∷ v ∷ x ∷ y ∷ more) r h = (a, b, c, d, e, f, v, x, y, more, refl)
nine [] r h = cc
nine (a ∷ []) r h = cc
nine (a ∷ b ∷ []) r h = cc
nine (a ∷ b ∷ c ∷ []) r h = cc
nine (a ∷ b ∷ c ∷ d ∷ []) r h = cc
nine (a ∷ b ∷ c ∷ d ∷ e ∷ []) r h = cc
nine (a ∷ b ∷ c ∷ d ∷ e ∷ f ∷ []) r h = cc
nine (a ∷ b ∷ c ∷ d ∷ e ∷ f ∷ v ∷ []) r h = cc
nine (a ∷ b ∷ c ∷ d ∷ e ∷ f ∷ v ∷ x ∷ []) r h = cc

verified :
    (m : MoveType) (p : PositionType) (param : List ℕ)
    → m ≢ move_c
    → verify_entry (record { move_type = m; pos_type = p; param = param })
      ≡ verify_move (limits p) param
unfolding verify_entry
verified move_j p param h = refl
verified move_l p param h = refl
verified move_p p param h = refl
verified move_c p param h = absurd (h refl)

then_returns {ℓ} :
    {B : Type ℓ} {result : B} (first : Outcome (Unit {0})) (rest : Outcome B)
    → (first >> rest) ≡ ok result
    → (first ≡ ok tt) × (rest ≡ ok result)
then_returns fault rest h = cc
then_returns (throws e) rest h = cc
then_returns (ok u) rest h = (refl, h)

-- The bounds of the limits are doubles that are neither negative nor NaN.
velocity_bounds :
    (p : PositionType)
    → ((limits p).velocity_min ≤ 2047 * 2 ^ 52) × ((limits p).velocity_max ≤ 2047 * 2 ^ 52)
velocity_bounds position_joints = omega arith
velocity_bounds position_tcp_pose = omega arith

acceleration_bounds :
    (p : PositionType)
    → ((limits p).acceleration_min ≤ 2047 * 2 ^ 52) × ((limits p).acceleration_max ≤ 2047 * 2 ^ 52)
acceleration_bounds position_joints = omega arith
acceleration_bounds position_tcp_pose = omega arith

checks_passed :
    (p : PositionType) (v x r : ℕ) (a b c d e f : ℕ) (more : List ℕ)
    → v < 2 ^ 64
    → x < 2 ^ 64
    → r < 2 ^ 64
    → (verify_move (limits p) (a ∷ b ∷ c ∷ d ∷ e ∷ f ∷ v ∷ x ∷ r ∷ more) ≡ ok tt) ↔ (
        Passes v (limits p).velocity_min (limits p).velocity_max
        × Passes x (limits p).acceleration_min (limits p).acceleration_max
        × Passes r ur_blend_min ur_blend_max)
unfolding verify_move
checks_passed p v x r a b c d e f more hv hx hr =
    let (vl, vh) = velocity_bounds p in
    let (al, ah) = acceleration_bounds p in
    let velocity = verify_iff v (limits p).velocity_min (limits p).velocity_max hv vl vh in
    let acceleration =
      verify_iff x (limits p).acceleration_min (limits p).acceleration_max hx al ah in
    let blend = verify_iff r ur_blend_min ur_blend_max hr (omega arith) (omega arith) in
    (
      (λ h.
          let (ev, h1) =
            then_returns (verify_value_is_within v (limits p).velocity_min (limits p).velocity_max)
              _ h in
          let (ea, er) =
            then_returns
              (verify_value_is_within x (limits p).acceleration_min (limits p).acceleration_max) _
              h1 in
          (velocity.0 ev, acceleration.0 ea, blend.0 er)),
      (λ (pv, pa, pr). rw (velocity.1 pv, acceleration.1 pa, blend.1 pr) refl),
    )

module _ (print : ℕ → List ℕ) where
  returned_numbers :
      (entry : PathEntry) (code : List ℕ) → to_script_code print entry ≡ ok code → Nine entry.param
  unfolding to_script_code
  returned_numbers entry code h =
      let (_, rest) = then_returns (verify_entry entry) _ h in
      let (position, _, rest') = first_returns (coordinates print entry.param) _ rest in
      let (speed, em, _) = first_returns (motion print entry.param) _ rest' in
      let (_, _, e6) = first_returns (element entry.param 7) _ em in
      let (_, _, e8) = first_returns (element entry.param 6) _ e6 in
      let (r, e, _) = first_returns (element entry.param 8) _ e8 in nine entry.param r e

  module _ (m : MoveType) (p : PositionType) (a b c d e f v x r : ℕ) (more : List ℕ) where
    abbrev nine_line : List ℕ
    nine_line =
        b'\t'
        ∷ (command_text m
            ++ (position_text p
                ++ (codes "["
                    ++ ((print a
                          ++ b','
                            ∷ (print b
                                ++ b','
                                  ∷ (print c
                                      ++ b',' ∷ (print d ++ b',' ∷ (print e ++ b',' ∷ print f)))))
                        ++ (codes "],"
                            ++ (codes "a="
                                ++ (print x
                                    ++ (codes ",v="
                                        ++ (print v
                                            ++ (codes ",r="
                                                ++ (print r ++ (codes ")" ++ b'\n' ∷ []))))))))))))

    entry_iff :
        (code : List ℕ)
        → (to_script_code print (record {
          move_type = m;
          pos_type = p;
          param = a ∷ b ∷ c ∷ d ∷ e ∷ f ∷ v ∷ x ∷ r ∷ more;
        })
            ≡ ok code)
          ↔ ((verify_entry (record {
            move_type = m;
            pos_type = p;
            param = a ∷ b ∷ c ∷ d ∷ e ∷ f ∷ v ∷ x ∷ r ∷ more;
          })
                ≡ ok tt)
              × (code ≡ nine_line))
    unfolding to_script_code
    entry_iff code = (
      (λ h.
          let (checked, e) =
            then_returns
              (verify_entry (record {
                move_type = m;
                pos_type = p;
                param = a ∷ b ∷ c ∷ d ∷ e ∷ f ∷ v ∷ x ∷ r ∷ more;
              }))
              _ h in
          (checked, cc)),
      (λ (checked, e). rw (checked, e) refl),
    )

  circle_refused :
      (m : MoveType) (p : PositionType) (param : List ℕ)
      → verify_entry (record { move_type = m; pos_type = p; param = param }) ≡ ok tt
      → m ≢ move_c
  unfolding verify_entry
  circle_refused move_j p param h = λ e. cc
  circle_refused move_l p param h = λ e. cc
  circle_refused move_p p param h = λ e. cc
  circle_refused move_c p param h = absurd (cc)

  pub to_script_code-Coded :
      (entry : PathEntry) (code : List ℕ)
      → All (λ v. v < 2 ^ 64) entry.param
      → to_script_code print entry ≡ ok code
      → Coded print entry code
  to_script_code-Coded entry code doubles h =
      let (a, b, c, d, e, f, v, x, r, more, numbers) = returned_numbers entry code h in
      let at =
        subst
          (λ (param : List ℕ).
            to_script_code print
              (record { move_type = entry.move_type; pos_type = entry.pos_type; param = param })
            ≡ ok code)
          numbers h in
      let bounded : All (λ v. v < 2 ^ 64) (a ∷ b ∷ c ∷ d ∷ e ∷ f ∷ v ∷ x ∷ r ∷ more) =
        subst (All (λ v. v < 2 ^ 64)) numbers doubles in
      let last : All (λ v. v < 2 ^ 64) (v ∷ x ∷ r ∷ more) = bounded.1.1.1.1.1.1 in
      let (checked, line) =
        (entry_iff entry.move_type entry.pos_type a b c d e f v x r more code).0 at in
      let straight = circle_refused entry.move_type entry.pos_type _ checked in
      let (pv, px, pr) =
        (checks_passed entry.pos_type v x r a b c d e f more last.0 last.1.0 last.1.1.0).0
          (sym (verified entry.move_type entry.pos_type _ straight) ∙ checked) in
      record {
        a = a;
        b = b;
        c = c;
        d = d;
        e = e;
        f = f;
        velocity = v;
        acceleration = x;
        blend = r;
        more = more;
        numbers = numbers;
        no_circle = straight;
        velocity_passes = pv;
        acceleration_passes = px;
        blend_passes = pr;
        line = line;
      }

  pub Coded-to_script_code :
      (entry : PathEntry) (code : List ℕ)
      → All (λ v. v < 2 ^ 64) entry.param
      → Coded print entry code
      → to_script_code print entry ≡ ok code
  Coded-to_script_code entry code doubles h =
      let shape : List ℕ =
        h.a ∷ h.b ∷ h.c ∷ h.d ∷ h.e ∷ h.f ∷ h.velocity ∷ h.acceleration ∷ h.blend ∷ h.more in
      let bounded : All (λ v. v < 2 ^ 64) shape = subst (All (λ v. v < 2 ^ 64)) h.numbers doubles in
      let last : All (λ v. v < 2 ^ 64) (h.velocity ∷ h.acceleration ∷ h.blend ∷ h.more) =
        bounded.1.1.1.1.1.1 in
      let checked =
        (checks_passed entry.pos_type h.velocity h.acceleration h.blend h.a h.b h.c h.d h.e h.f
            h.more last.0 last.1.0 last.1.1.0).1
          (h.velocity_passes, h.acceleration_passes, h.blend_passes) in
      let done =
        (entry_iff entry.move_type entry.pos_type h.a h.b h.c h.d h.e h.f h.velocity h.acceleration
            h.blend h.more code).1
          (verified entry.move_type entry.pos_type shape h.no_circle ∙ checked, h.line) in
      subst
        (λ (param : List ℕ).
          to_script_code print
            (record { move_type = entry.move_type; pos_type = entry.pos_type; param = param })
          ≡ ok code)
        (sym h.numbers) done
