-- ===== src/Base/Results.antt =====
-- What a call that may raise comes to, in an error type of the caller's.
use mathlib.Core.Bool.{Bool, true, false}
use mathlib.Core.Option.{Option, none, some}
use mathlib.Core.Logic.{◌⊎◌, inl, inr}
use mathlib.Core.Path.{◌≡◌, refl}

pub data Outcome {ℓ κ} (E : Type ℓ) (A : Type κ) : Type (ℓ ⊔ κ) where
  returns : A → Outcome E A
  raises : E → Outcome E A

infixl 5 ◌>>=◌ ◌>>◌
abbrev pub ◌>>=◌ {ℓ κ μ} :
    {E : Type ℓ} {A : Type κ} {B : Type μ} → Outcome E A → (A → Outcome E B) → Outcome E B
returns a >>= f = f a
raises e >>= f = raises e

abbrev pub ◌>>◌ {ℓ κ} : {E : Type ℓ} {B : Type κ} → Outcome E (Unit {0}) → Outcome E B → Outcome E B
m >> k = m >>= λ _. k

-- `if not test: raise e`
abbrev pub check {ℓ} : {E : Type ℓ} → Bool → E → Outcome E (Unit {0})
check true e = returns tt
check false e = raises e

-- `if x is None: raise e`
abbrev pub required {ℓ κ} : {E : Type ℓ} {A : Type κ} → Option A → E → Outcome E A
required none e = raises e
required (some a) e = returns a

-- The call raises.
abbrev pub IsRaised {ℓ κ} : {E : Type ℓ} {A : Type κ} → Outcome E A → Type 0
IsRaised (returns a) = ⊥
IsRaised (raises e) = Unit

-- Inversions of a call that returns.
pub bind_inv {ℓ κ μ} :
    {E : Type ℓ} {A : Type κ} {B : Type μ} (m : Outcome E A) (f : A → Outcome E B) {b : B}
    → (m >>= f) ≡ returns b
    → (a : A) × (m ≡ returns a) × (f a ≡ returns b)
bind_inv (returns a) f h = (a, refl, h)
bind_inv (raises e) f h = cc

pub check_inv {ℓ κ} :
    {E : Type ℓ} {B : Type κ} (test : Bool) (e : E) (k : Outcome E B) {b : B}
    → (check test e >> k) ≡ returns b
    → (test ≡ true) × (k ≡ returns b)
check_inv true e k h = (refl, h)
check_inv false e k h = cc

pub required_inv {ℓ κ μ} :
    {E : Type ℓ} {A : Type κ} {B : Type μ} (o : Option A) (e : E) (f : A → Outcome E B) {b : B}
    → (required o e >>= f) ≡ returns b
    → (a : A) × (o ≡ some a) × (f a ≡ returns b)
required_inv none e f h = cc
required_inv (some a) e f h = (a, refl, h)

pub required-some {ℓ κ} :
    {E : Type ℓ} {A : Type κ} (o : Option A) (e : E) {a : A} → required o e ≡ returns a → o ≡ some a
required-some none e h = cc
required-some (some a) e h = cc

-- A call that cannot return raises.
pub IsRaised-of {ℓ κ} :
    {E : Type ℓ} {A : Type κ} (m : Outcome E A) → ((a : A) → m ≡ returns a → ⊥) → IsRaised m
IsRaised-of (returns a) h = h a refl
IsRaised-of (raises e) h = tt

pub Outcome-cases {ℓ κ} :
    {E : Type ℓ} {A : Type κ} (m : Outcome E A)
    → ((e : E) × (m ≡ raises e)) ⊎ ((a : A) × (m ≡ returns a))
Outcome-cases (raises e) = inl (e, refl)
Outcome-cases (returns a) = inr (a, refl)

-- And their converses: a chain whose steps return.
pub bind_of {ℓ κ μ} :
    {E : Type ℓ} {A : Type κ} {B : Type μ} (m : Outcome E A) (f : A → Outcome E B) {a : A}
    {out : Outcome E B}
    → m ≡ returns a
    → f a ≡ out
    → (m >>= f) ≡ out
bind_of m f {a} h g = rw h g

pub check_of {ℓ κ} :
    {E : Type ℓ} {B : Type κ} (test : Bool) (e : E) (k : Outcome E B) {out : Outcome E B}
    → test ≡ true
    → k ≡ out
    → (check test e >> k) ≡ out
check_of test e k h g = rw h g
