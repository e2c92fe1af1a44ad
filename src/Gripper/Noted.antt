-- ===== src/Gripper/Noted.antt =====
-- The lines that `RobotiqGripper` of src/robotiq_gripper.cpp writes: one command, or questions.
use ur_rtde_fork_custom.Base.{
  ◌≡◌, refl, ap, ◌∙◌, ◌⊎◌, Bool, true, false, List, [], ◌∷◌, ◌++◌, All, codes, if◌then◌else◌, ℕ,
  append-nil, append_assoc,
}
use ur_rtde_fork_custom.Base.Outcome.{Outcome, ok, throws, fault}
use ur_rtde_fork_custom.Base.Action.{Action, lift, continue, Obeys}
use ur_rtde_fork_custom.Gripper.{Wire, Gripper, on_socket, on_world}

-- A gripper's socket that notes the lines written to it.
pub record Noted (W : Type 0) : Type 0 where
  pub lines : List (List ℕ)
  pub inner : W

abbrev note : {W A : Type 0} → List (List ℕ) → Outcome A × W → Noted W → Outcome A × Noted W
note written (r, w) c = (r, record { lines = c.lines ++ written; inner = w })

abbrev pub noted : {W : Type 0} → Wire W → Wire (Noted W)
noted net = record {
  connect_to = λ c. note [] (net.connect_to c.inner) c;
  write = λ str c. note (str ∷ []) (net.write str c.inner) c;
  read_some = λ c. note [] (net.read_some c.inner) c;
}

abbrev pub IsQuestion : List ℕ → Type 0
IsQuestion line = (line ≡ codes "GET PRE" ++ 10 ∷ []) ⊎ (line ≡ codes "GET OBJ" ++ 10 ∷ [])

All-append : (P : List ℕ → Type 0) (xs ys : List (List ℕ)) → All P xs → All P ys → All P (xs ++ ys)
All-append P [] ys h k = k
All-append P (x ∷ xs) ys h k = (h.0, All-append P xs ys h.1 k)

module _ {W : Type 0} where
  -- Nothing but questions is written between two states.
  abbrev pub Asks : Gripper (Noted W) → Gripper (Noted W) → Type 0
  Asks s t =
      (questions : List (List ℕ)) × (t.world.lines ≡ s.world.lines ++ questions)
      × All IsQuestion questions

  -- One command, and then nothing but questions.
  abbrev pub Commands : List ℕ → Gripper (Noted W) → Gripper (Noted W) → Type 0
  Commands cmd s t =
      (questions : List (List ℕ)) × (t.world.lines ≡ s.world.lines ++ cmd ∷ questions)
      × All IsQuestion questions

  pub Asks-refl : (s : Gripper (Noted W)) → Asks s s
  Asks-refl s = ([], rw append-nil, tt)

  pub chain : (a b c : Gripper (Noted W)) → Asks a b → Asks b c → Asks a c
  chain a b c (q, e, h) (r, f, k) = (
    q ++ r,
    f ∙ ap (λ l. l ++ r) e ∙ append_assoc a.world.lines q r,
    All-append IsQuestion q r h k,
  )

  Commands-Asks :
      (cmd : List ℕ) (a b c : Gripper (Noted W)) → Commands cmd a b → Asks b c → Commands cmd a c
  Commands-Asks cmd a b c (q, e, h) (r, f, k) = (
    q ++ r,
    f ∙ ap (λ l. l ++ r) e ∙ append_assoc a.world.lines (cmd ∷ q) r,
    All-append IsQuestion q r h k,
  )

  pub Commands-continue :
      {A B : Type 0} (cmd : List ℕ) (s : Gripper (Noted W)) (p : Outcome A × Gripper (Noted W))
      (rest : A → Action (Gripper (Noted W)) B)
      → Commands cmd s p.1
      → ((a : A) → Obeys Asks (rest a))
      → Commands cmd s (continue p rest).1
  Commands-continue cmd s (fault, t) rest h k = h
  Commands-continue cmd s (throws x, t) rest h k = h
  Commands-continue cmd s (ok a, t) rest h k = Commands-Asks cmd s t (rest a t).1 h (k a t)

  pub quiet : {A : Type 0} (m : Outcome A) → Obeys Asks (lift m)
  quiet m s = Asks-refl s

  module _ (net : Wire W) where
    pub write-Commands :
        (cmd : List ℕ) (s : Gripper (Noted W))
        → s.has_socket ≡ true
        → Commands cmd s (on_socket ((noted net).write cmd) s).1
    write-Commands cmd s link = rw link (by_end (net.write cmd s.world.inner))
      where
        by_end :
            (p : Outcome (Unit {0}) × W) → Commands cmd s (on_world (note (cmd ∷ []) p s.world) s).1
        by_end (r, w) = ([], refl, tt)

    pub write-Asks :
        (cmd : List ℕ) → IsQuestion cmd → Obeys Asks (on_socket ((noted net).write cmd))
    write-Asks cmd h s = by_socket s.has_socket (net.write cmd s.world.inner)
      where
        by_socket :
            (b : Bool) (p : Outcome (Unit {0}) × W)
            → Asks s (if b then on_world (note (cmd ∷ []) p s.world) s else (fault, s)).1
        by_socket true (r, w) = (cmd ∷ [], refl, (h, tt))
        by_socket false p = Asks-refl s

    pub read-Asks : Obeys Asks (on_socket (noted net).read_some)
    read-Asks s = by_socket s.has_socket (net.read_some s.world.inner)
      where
        by_socket :
            (b : Bool) (p : Outcome (List ℕ) × W)
            → Asks s (if b then on_world (note [] p s.world) s else (fault, s)).1
        by_socket true (r, w) = ([], refl, tt)
        by_socket false p = Asks-refl s
