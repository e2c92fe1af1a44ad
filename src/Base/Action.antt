-- ===== src/Base/Action.antt =====
-- Methods of an object: the members before the call give how the call ends and the members behind it,
-- also behind an exception.
use mathlib.Core.Bool.{Bool, true, false}
use ur_rtde_fork_custom.Base.Tests.{if◌then◌else◌}
use ur_rtde_fork_custom.Base.Outcome.{Outcome, ok, throws, fault}

abbrev pub Action : Type 0 → Type 0 → Type 0
Action S A = S → Outcome A × S

module _ {S : Type 0} where
  abbrev pub return : {A : Type 0} → A → Action S A
  return a s = (ok a, s)

  -- A call that neither reads nor writes the members.
  abbrev pub lift : {A : Type 0} → Outcome A → Action S A
  lift m s = (m, s)

  abbrev pub modify : (S → S) → Action S (Unit {0})
  modify f s = (ok tt, f s)

  -- Reads the members.
  abbrev pub gets : {A : Type 0} → (S → A) → Action S A
  gets f s = (ok (f s), s)

  abbrev pub continue : {A B : Type 0} → Outcome A × S → (A → Action S B) → Outcome B × S
  continue (fault, s) rest = (fault, s)
  continue (throws e, s) rest = (throws e, s)
  continue (ok a, s) rest = rest a s

  -- The rest of a method behind a call.
  infixl 5 ◌>>=◌
  abbrev pub ◌>>=◌ : {A B : Type 0} → Action S A → (A → Action S B) → Action S B
  (first >>= rest) s = continue (first s) rest

  infixl 5 ◌>>◌
  abbrev pub ◌>>◌ : {B : Type 0} → Action S (Unit {0}) → Action S B → Action S B
  (first >> rest) s = continue (first s) (λ _. rest)

  -- What a method may do to the members, however it ends.
  abbrev pub Obeys : {A : Type 0} → (S → S → Type 0) → Action S A → Type 0
  Obeys R m = (s : S) → R s (m s).1

  -- A method with a rest obeys what its parts obey, for a relation that can be chained.
  pub Obeys-continue :
      {A B : Type 0} (R : S → S → Type 0) (s : S)
      → ((a b c : S) → R a b → R b c → R a c)
      → (p : Outcome A × S) (rest : A → Action S B) → R s p.1
      → ((a : A) → Obeys R (rest a))
      → R s (continue p rest).1
  Obeys-continue R s chain (fault, t) rest h k = h
  Obeys-continue R s chain (throws e, t) rest h k = h
  Obeys-continue R s chain (ok a, t) rest h k = chain s t (rest a t).1 h (k a t)

  pub Obeys-bind :
      {A B : Type 0} (R : S → S → Type 0)
      → ((a b c : S) → R a b → R b c → R a c)
      → (first : Action S A) (rest : A → Action S B) → Obeys R first
      → ((a : A) → Obeys R (rest a))
      → Obeys R (first >>= rest)
  Obeys-bind R chain first rest h k s = Obeys-continue R s chain (first s) rest (h s) k

  pub Obeys-then :
      {B : Type 0} (R : S → S → Type 0)
      → ((a b c : S) → R a b → R b c → R a c)
      → (first : Action S (Unit {0})) (rest : Action S B) → Obeys R first
      → Obeys R rest
      → Obeys R (first >> rest)
  Obeys-then R chain first rest h k s =
      Obeys-continue R s chain (first s) (λ _. rest) (h s) (λ _. k)

  pub Obeys-if :
      {A : Type 0} (R : S → S → Type 0) (b : Bool) (m n : Action S A)
      → Obeys R m
      → Obeys R n
      → Obeys R (if b then m else n)
  Obeys-if R true m n h k = h
  Obeys-if R false m n h k = k

  -- What holds if a method returns.
  abbrev pub Ensures : {A : Type 0} → (S → S → Type 0) → S → Outcome A × S → Type 0
  Ensures R s (fault, t) = Unit {0}
  Ensures R s (throws e, t) = Unit {0}
  Ensures R s (ok a, t) = R s t

  Ensures-later :
      {A : Type 0} (R Q T : S → S → Type 0) (s t : S)
      → ((a b c : S) → R a b → Q b c → T a c)
      → R s t
      → (p : Outcome A × S) → Ensures Q t p
      → Ensures T s p
  Ensures-later R Q T s t chain h (fault, u) k = tt
  Ensures-later R Q T s t chain h (throws e, u) k = tt
  Ensures-later R Q T s t chain h (ok a, u) k = chain s t u h k

  pub Ensures-continue :
      {A B : Type 0} (R Q T : S → S → Type 0) (s : S)
      → ((a b c : S) → R a b → Q b c → T a c)
      → (p : Outcome A × S) (rest : A → Action S B) → Ensures R s p
      → ((a : A) (t : S) → Ensures Q t (rest a t))
      → Ensures T s (continue p rest)
  Ensures-continue R Q T s chain (fault, t) rest h k = tt
  Ensures-continue R Q T s chain (throws e, t) rest h k = tt
  Ensures-continue R Q T s chain (ok a, t) rest h k =
      Ensures-later R Q T s t chain h (rest a t) (k a t)

  -- What holds of the value and the members if a method returns.
  abbrev pub Ends : {A : Type 0} → (A → S → Type 0) → Outcome A × S → Type 0
  Ends Q (fault, t) = Unit {0}
  Ends Q (throws e, t) = Unit {0}
  Ends Q (ok a, t) = Q a t

  -- The same, and what holds of the members behind an exception.
  abbrev pub Settles : {A : Type 0} → (S → Type 0) → (A → S → Type 0) → Outcome A × S → Type 0
  Settles P Q (fault, t) = P t
  Settles P Q (throws e, t) = P t
  Settles P Q (ok a, t) = Q a t

  pub Settles-continue :
      {A B : Type 0} (P R : S → Type 0) (Q : B → S → Type 0) (p : Outcome A × S)
      (rest : A → Action S B)
      → R p.1
      → ((t : S) → R t → P t)
      → ((a : A) (t : S) → R t → Settles P Q (rest a t))
      → Settles P Q (continue p rest)
  Settles-continue P R Q (fault, t) rest h early later = early t h
  Settles-continue P R Q (throws e, t) rest h early later = early t h
  Settles-continue P R Q (ok a, t) rest h early later = later a t h
