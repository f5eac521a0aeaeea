-- ===== src/Heap/Holds.antt =====
-- A predicate on the results of code that may panic.
use db_flashback.Base.{Bool, true, false, Option, none, some, if◌then◌else◌}
use db_flashback.Record.{◌>>=◌}

-- What the result satisfies, if there is one.
abbrev pub Holds {ℓ κ} : {A : Type ℓ} → (A → Type κ) → Option A → Type κ
Holds P none = Unit
Holds P (some a) = P a

pub if-P {ℓ κ} :
    {A : Type ℓ} (P : A → Type κ) (b : Bool) {x y : A} → P x → P y → P (if b then x else y)
if-P P true p q = p
if-P P false p q = q

pub Holds-bind {ℓ κ μ} :
    {A : Type ℓ} {B : Type κ} (P : B → Type μ) (o : Option A) (f : A → Option B)
    → ((a : A) → Holds P (f a))
    → Holds P (o >>= f)
Holds-bind P none f h = tt
Holds-bind P (some a) f h = h a

-- With what is known of the first result.
pub Holds-then {ℓ κ μ ν} :
    {A : Type ℓ} {B : Type κ} (Q : A → Type ν) (P : B → Type μ) (o : Option A) (f : A → Option B)
    → Holds Q o
    → ((a : A) → Q a → Holds P (f a))
    → Holds P (o >>= f)
Holds-then Q P none f q h = tt
Holds-then Q P (some a) f q h = h a q

pub Holds-map {ℓ κ μ} :
    {A : Type ℓ} (Q : A → Type κ) (P : A → Type μ) (o : Option A)
    → ((a : A) → Q a → P a)
    → Holds Q o
    → Holds P o
Holds-map Q P none h q = tt
Holds-map Q P (some a) h q = h a q
