-- ===== src/Base/Results.antt =====
-- The outcome of C++ code that returns std::expected. `out_of_bounds` is an access outside of a
-- span or vector, and `out_of_fuel` a loop that did not end in the rounds given to it: neither is a
-- value of the code, and theorems exclude both.
use mathlib.Core.Path.{◌≡◌, refl, subst}
use mathlib.Core.Logic.{◌⊎◌, ◌≢◌, inl, inr}
use mathlib.Core.Bool.{Bool, true, false}
use mathlib.Core.Option.{Option, none, some}

pub data Outcome {ℓ} (E : Type 0) (A : Type ℓ) : Type ℓ where
  ok : A → Outcome E A
  err : E → Outcome E A
  out_of_bounds : Outcome E A
  out_of_fuel : Outcome E A

infixl 5 ◌>>=◌ ◌>>◌
abbrev pub ◌>>=◌ {ℓ κ} :
    {E : Type 0} {A : Type ℓ} {B : Type κ} → Outcome E A → (A → Outcome E B) → Outcome E B
ok a >>= f = f a
err e >>= f = err e
out_of_bounds >>= f = out_of_bounds
out_of_fuel >>= f = out_of_fuel

abbrev pub ◌>>◌ {κ} : {E : Type 0} {B : Type κ} → Outcome E (Unit {0}) → Outcome E B → Outcome E B
m >> k = m >>= λ _. k

-- `if (test) return error;`
abbrev pub refuse_if : {E : Type 0} → Bool → E → Outcome E (Unit {0})
refuse_if true e = err e
refuse_if false e = ok tt

abbrev pub or_fail {ℓ} : {E : Type 0} {A : Type ℓ} → Option A → E → Outcome E A
or_fail none e = err e
or_fail (some a) e = ok a

-- An element that the code takes without a test of its own.
abbrev pub in_bounds {ℓ} : {E : Type 0} {A : Type ℓ} → Option A → Outcome E A
in_bounds none = out_of_bounds
in_bounds (some a) = ok a

-- The code returned, with a value or with an error.
abbrev pub Returns {ℓ} : {E : Type 0} {A : Type ℓ} → Outcome E A → Type 0
Returns (ok a) = Unit {0}
Returns (err e) = Unit {0}
Returns out_of_bounds = ⊥
Returns out_of_fuel = ⊥

pub Returns-bind {ℓ κ} :
    {E : Type 0} {A : Type ℓ} {B : Type κ} (m : Outcome E A) (f : A → Outcome E B)
    → Returns m
    → ((a : A) → m ≡ ok a → Returns (f a))
    → Returns (m >>= f)
Returns-bind (ok a) f h k = k a refl
Returns-bind (err e) f h k = tt
Returns-bind out_of_bounds f h k = h
Returns-bind out_of_fuel f h k = h

pub bind-eq-ok {ℓ κ} :
    {E : Type 0} {A : Type ℓ} {B : Type κ} (m : Outcome E A) (f : A → Outcome E B) {b : B}
    → (m >>= f) ≡ ok b
    → (a : A) × (m ≡ ok a) × (f a ≡ ok b)
bind-eq-ok (ok a) f h = (a, refl, h)
bind-eq-ok (err e) f h = cc
bind-eq-ok out_of_bounds f h = cc
bind-eq-ok out_of_fuel f h = cc

-- The code returned, and a value that it returned satisfies `P`.
abbrev pub Ensures {ℓ} : {E : Type 0} {A : Type ℓ} → (A → Type 0) → Outcome E A → Type 0
Ensures P (ok a) = P a
Ensures P (err e) = Unit {0}
Ensures P out_of_bounds = ⊥
Ensures P out_of_fuel = ⊥

pub Ensures-bind {ℓ κ} :
    {E : Type 0} {A : Type ℓ} {B : Type κ} (P : A → Type 0) (Q : B → Type 0) (m : Outcome E A)
    (f : A → Outcome E B)
    → Ensures P m
    → ((a : A) → P a → Ensures Q (f a))
    → Ensures Q (m >>= f)
Ensures-bind P Q (ok a) f h k = k a h
Ensures-bind P Q (err e) f h k = tt
Ensures-bind P Q out_of_bounds f h k = h
Ensures-bind P Q out_of_fuel f h k = h

-- The refusing test lets through only what fails it.
pub Ensures-refuse_if {κ} :
    {E : Type 0} {B : Type κ} (Q : B → Type 0) (test : Bool) (e : E) (m : Outcome E B)
    → (test ≡ false → Ensures Q m)
    → Ensures Q (refuse_if test e >> m)
Ensures-refuse_if Q true e m h = tt
Ensures-refuse_if Q false e m h = h refl

pub Ensures-mono {ℓ} :
    {E : Type 0} {A : Type ℓ} (P Q : A → Type 0) (m : Outcome E A)
    → Ensures P m
    → ((a : A) → P a → Q a)
    → Ensures Q m
Ensures-mono P Q (ok a) h k = k a h
Ensures-mono P Q (err e) h k = tt
Ensures-mono P Q out_of_bounds h k = h
Ensures-mono P Q out_of_fuel h k = h

pub Ensures-Returns {ℓ} :
    {E : Type 0} {A : Type ℓ} (P : A → Type 0) (m : Outcome E A) → Ensures P m → Returns m
Ensures-Returns P (ok a) h = tt
Ensures-Returns P (err e) h = tt
Ensures-Returns P out_of_bounds h = h
Ensures-Returns P out_of_fuel h = h

pub Returns-Ensures {ℓ} :
    {E : Type 0} {A : Type ℓ} (P : A → Type 0) (m : Outcome E A)
    → Returns m
    → ((a : A) → m ≡ ok a → P a)
    → Ensures P m
Returns-Ensures P (ok a) h k = k a refl
Returns-Ensures P (err e) h k = tt
Returns-Ensures P out_of_bounds h k = h
Returns-Ensures P out_of_fuel h k = h

pub Ensures-ok {ℓ} :
    {E : Type 0} {A : Type ℓ} (P : A → Type 0) (m : Outcome E A) (a : A)
    → Ensures P m
    → m ≡ ok a
    → P a
Ensures-ok P m a h e = subst (Ensures P) e h

pub Outcome-cases {ℓ} :
    {E : Type 0} {A : Type ℓ} (m : Outcome E A) → ((a : A) × (m ≡ ok a)) ⊎ ((a : A) → m ≢ ok a)
Outcome-cases (ok a) = inl (a, refl)
Outcome-cases (err e) = inr (λ a h. cc)
Outcome-cases out_of_bounds = inr (λ a h. cc)
Outcome-cases out_of_fuel = inr (λ a h. cc)
