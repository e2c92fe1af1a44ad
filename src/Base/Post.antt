-- ===== src/Base/Post.antt =====
-- What holds of a result, for calls and for loops on fuel.
use ur_rtde_fork_custom.Base.{◌≡◌, refl, Bool, true, false, Option, none, some, if◌then◌else◌}
use ur_rtde_fork_custom.Base.Outcome.{Outcome, ok, throws, fault, ◌>>=◌}

-- The next part of a body in which a loop may run out of fuel.
abbrev pub and_next {ℓ κ} :
    {A : Type ℓ} {B : Type κ} → Option (Outcome A) → (A → Option (Outcome B)) → Option (Outcome B)
and_next none rest = none
and_next (some fault) rest = some fault
and_next (some (throws e)) rest = some (throws e)
and_next (some (ok a)) rest = rest a

-- What holds of the result of a call that returns.
abbrev pub Post {ℓ} : {A : Type ℓ} → (A → Type 0) → Outcome A → Type 0
Post P fault = Unit {0}
Post P (throws e) = Unit {0}
Post P (ok a) = P a

pub Post-bind :
    {A B : Type 0} (P : A → Type 0) (Q : B → Type 0) (m : Outcome A) (f : A → Outcome B)
    → Post P m
    → ((a : A) → P a → Post Q (f a))
    → Post Q (m >>= f)
Post-bind P Q fault f h k = tt
Post-bind P Q (throws e) f h k = tt
Post-bind P Q (ok a) f h k = k a h

-- Nothing is known of the result.
abbrev pub Any {ℓ} : {A : Type ℓ} → A → Type 0
Any a = Unit {0}

pub Post-Any {ℓ} : {A : Type ℓ} (m : Outcome A) → Post Any m
Post-Any fault = tt
Post-Any (throws e) = tt
Post-Any (ok a) = tt

pub Post-if :
    {A : Type 0} (P : A → Type 0) (b : Bool) (x y : Outcome A)
    → (b ≡ true → Post P x)
    → (b ≡ false → Post P y)
    → Post P (if b then x else y)
Post-if P true x y h k = h refl
Post-if P false x y h k = k refl

abbrev pub Posts {ℓ} : {A : Type ℓ} → (A → Type 0) → Option (Outcome A) → Type 0
Posts P none = Unit {0}
Posts P (some m) = Post P m

pub Posts-weaken :
    {A : Type 0} (P Q : A → Type 0) (m : Option (Outcome A))
    → ((a : A) → P a → Q a)
    → Posts P m
    → Posts Q m
Posts-weaken P Q none f h = tt
Posts-weaken P Q (some fault) f h = tt
Posts-weaken P Q (some (throws e)) f h = tt
Posts-weaken P Q (some (ok a)) f h = f a h

pub Posts-next :
    {A B : Type 0} (P : A → Type 0) (Q : B → Type 0) (m : Option (Outcome A))
    (rest : A → Option (Outcome B))
    → Posts P m
    → ((a : A) → P a → Posts Q (rest a))
    → Posts Q (and_next m rest)
Posts-next P Q none rest h k = tt
Posts-next P Q (some fault) rest h k = tt
Posts-next P Q (some (throws e)) rest h k = tt
Posts-next P Q (some (ok a)) rest h k = k a h

pub Posts-if :
    {A : Type 0} (P : A → Type 0) (b : Bool) (x y : Option (Outcome A))
    → (b ≡ true → Posts P x)
    → (b ≡ false → Posts P y)
    → Posts P (if b then x else y)
Posts-if P true x y h k = h refl
Posts-if P false x y h k = k refl
