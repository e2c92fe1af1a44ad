-- ===== src/Dashboard/Counted.antt =====
-- The lines that `DashboardClient` of src/dashboard_client.cpp sends and reads, counted.
use ur_rtde_fork_custom.Base.{
  ℕ, ◌+◌, ◌≡◌, refl, Bool, true, false, List, [], ◌∷◌, ◌++◌, codes, if◌then◌else◌, arith, same_text,
  ◌==◌, ap,
}
use ur_rtde_fork_custom.Base.Outcome.{Outcome, ok, throws, fault, runtime_error}
use ur_rtde_fork_custom.Base.Action.{Action, return, lift, continue, Ensures, Ensures-continue}
use ur_rtde_fork_custom.Dashboard.Version.{parse, PolyScopeVersion}
use ur_rtde_fork_custom.Dashboard.{LineNetwork, DashboardClient}
use ur_rtde_fork_custom.Dashboard

-- The lines that a text ends.
abbrev pub lines_in : List ℕ → ℕ
lines_in [] = 0
lines_in (c ∷ str) = (if c == b'\n' then 1 else 0) + lines_in str

lines_in-append : (s t : List ℕ) → lines_in (s ++ t) ≡ lines_in s + lines_in t
lines_in-append [] t = omega arith
lines_in-append (c ∷ s) t = omega (arith, lines_in-append s t)

-- A network that counts the lines that the client sends, by the newlines in what it writes, and reads.
pub record Counted (W : Type 0) : Type 0 where
  pub lines_sent : ℕ
  pub lines_read : ℕ
  pub inner : W

abbrev count_sent : {W A : Type 0} → ℕ → Outcome A × W → Counted W → Outcome A × Counted W
count_sent n (r, w) c = (r, record c { lines_sent = c.lines_sent + n; inner = w })

abbrev count_none : {W A : Type 0} → Outcome A × W → Counted W → Outcome A × Counted W
count_none (r, w) c = (r, record c { inner = w })

abbrev count_read : {W A : Type 0} → Outcome A × W → Counted W → Outcome A × Counted W
count_read (r, w) c = (r, record c { lines_read = c.lines_read + 1; inner = w })

abbrev pub counted : {W : Type 0} → LineNetwork W → LineNetwork (Counted W)
counted net = record {
  connect_to = λ c. count_none (net.connect_to c.inner) c;
  write = λ str c. count_sent (lines_in str) (net.write str c.inner) c;
  read_line = λ c. count_read (net.read_line c.inner) c;
}

module _ {W : Type 0} where
  -- As many lines were sent as were read.
  abbrev pub InStep : DashboardClient (Counted W) → DashboardClient (Counted W) → Type 0
  InStep s t = t.world.lines_sent + s.world.lines_read ≡ s.world.lines_sent + t.world.lines_read

  abbrev SentOne : DashboardClient (Counted W) → DashboardClient (Counted W) → Type 0
  SentOne s t =
      (t.world.lines_sent ≡ s.world.lines_sent + 1) × (t.world.lines_read ≡ s.world.lines_read)

  abbrev ReadOne : DashboardClient (Counted W) → DashboardClient (Counted W) → Type 0
  ReadOne s t =
      (t.world.lines_sent ≡ s.world.lines_sent) × (t.world.lines_read ≡ s.world.lines_read + 1)

  InStep-chain : (a b c : DashboardClient (Counted W)) → InStep a b → InStep b c → InStep a c
  InStep-chain a b c h k = omega (arith, h, k)

  module _ (net : LineNetwork W) where
    send-SentOne :
        (str : List ℕ)
        → lines_in str ≡ 1
        → (s : DashboardClient (Counted W)) → Ensures SentOne s (Dashboard.send (counted net) str s)
    unfolding Dashboard.send
    send-SentOne str one s = by_socket s.has_socket (net.write str s.world.inner)
      where
        by_socket :
            (b : Bool) (p : Outcome (Unit {0}) × W)
            → Ensures SentOne s (
                if b
                then Dashboard.on_world (count_sent (lines_in str) p s.world) s
                else (throws runtime_error, s))
        by_socket false p = tt
        by_socket true (fault, w) = tt
        by_socket true (throws e, w) = tt
        by_socket true (ok a, w) = (ap (λ n. s.world.lines_sent + n) one, refl)

    receive-ReadOne :
        (s : DashboardClient (Counted W)) → Ensures ReadOne s (Dashboard.receive (counted net) s)
    unfolding Dashboard.receive
    receive-ReadOne s = by_socket s.has_socket (net.read_line s.world.inner)
      where
        by_socket :
            (b : Bool) (p : Outcome (List ℕ) × W)
            → Ensures ReadOne s (
                if b
                then Dashboard.on_world (count_read p s.world) s
                else (throws runtime_error, s))
        by_socket false p = tt
        by_socket true (fault, w) = tt
        by_socket true (throws e, w) = tt
        by_socket true (ok a, w) = (refl, refl)

    pub ask-InStep :
        (message : List ℕ)
        → lines_in message ≡ 0
        → (s : DashboardClient (Counted W))
        → Ensures InStep s (Dashboard.ask (counted net) message s)
    unfolding Dashboard.ask
    ask-InStep message h s =
        Ensures-continue SentOne ReadOne InStep s (λ a b c h k. omega (arith, h.0, h.1, k.0, k.1))
          (Dashboard.send (counted net) (message ++ b'\n' ∷ []) s)
          (λ _. Dashboard.receive (counted net))
          (send-SentOne (message ++ b'\n' ∷ [])
            (omega (arith, h, lines_in-append message (b'\n' ∷ []))) s)
          (λ _ t. receive-ReadOne t)

    -- A method that does something with the answer.
    pub ask_then-InStep :
        {B : Type 0} (message : List ℕ)
        → lines_in message ≡ 0
        → (rest : List ℕ → Action (DashboardClient (Counted W)) B)
        → ((answer : List ℕ) (t : DashboardClient (Counted W)) → Ensures InStep t (rest answer t))
        → (s : DashboardClient (Counted W))
        → Ensures InStep s (continue (Dashboard.ask (counted net) message s) rest)
    ask_then-InStep message line rest h s =
        Ensures-continue InStep InStep InStep s InStep-chain (Dashboard.ask (counted net) message s)
          rest (ask-InStep message line s) h

    -- What wraps a method's result into a reply.
    pub reply-InStep :
        {A B : Type 0} (wrap : A → B) (s : DashboardClient (Counted W))
        (p : Outcome A × DashboardClient (Counted W))
        → Ensures InStep s p
        → Ensures InStep s (continue p (λ a. return (wrap a)))
    reply-InStep wrap s (fault, t) h = tt
    reply-InStep wrap s (throws e, t) h = tt
    reply-InStep wrap s (ok a, t) h = h

    pub return_if-InStep :
        {A : Type 0} (b : Bool) (a : A) (t : DashboardClient (Counted W))
        → Ensures InStep t ((if b then return a else lift (throws runtime_error)) t)
    return_if-InStep true a t = refl
    return_if-InStep false a t = tt

    pub tell-InStep :
        (message : List ℕ)
        → lines_in message ≡ 0
        → (s : DashboardClient (Counted W))
        → Ensures InStep s (Dashboard.tell (counted net) message s)
    unfolding Dashboard.tell
    tell-InStep message h s = ask_then-InStep message h (λ _. return tt) (λ _ t. refl) s

    pub demand-InStep :
        (message : List ℕ)
        → lines_in message ≡ 0
        → (expected : List ℕ) (s : DashboardClient (Counted W))
        → Ensures InStep s (Dashboard.demand (counted net) message expected s)
    unfolding Dashboard.demand
    demand-InStep message h expected s =
        ask_then-InStep message h _ (λ answer t. return_if-InStep (same_text answer expected) tt t)
          s

    -- A question after the guard on the version.
    pub guarded-InStep :
        {A : Type 0} (recent older : Action (DashboardClient (Counted W)) A)
        → ((t : DashboardClient (Counted W)) → Ensures InStep t (recent t))
        → ((t : DashboardClient (Counted W)) → Ensures InStep t (older t))
        → (s : DashboardClient (Counted W))
        → Ensures InStep s (
            continue (Dashboard.polyscope_version (counted net) s) (λ version t.
              continue
                (lift (parse version) t)
                (λ v. if Dashboard.is_recent (counted net) v then recent else older)))
    unfolding Dashboard.polyscope_version
    guarded-InStep recent older h k s =
        Ensures-continue InStep InStep InStep s InStep-chain
          (Dashboard.polyscope_version (counted net) s) _
          (ask_then-InStep (codes "PolyscopeVersion") refl _ (λ answer t. refl) s)
          (λ version t.
            Ensures-continue InStep InStep InStep t InStep-chain (lift (parse version) t) _
              (parsed (parse version) t) (λ v u. choice (Dashboard.is_recent (counted net) v) u))
      where
        parsed :
            (m : Outcome PolyScopeVersion) (t : DashboardClient (Counted W))
            → Ensures InStep t (lift m t)
        parsed fault t = tt
        parsed (throws e) t = tt
        parsed (ok v) t = refl

        choice :
            (b : Bool) (t : DashboardClient (Counted W))
            → Ensures InStep t ((if b then recent else older) t)
        choice true t = h t
        choice false t = k t
