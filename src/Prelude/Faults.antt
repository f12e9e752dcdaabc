-- ===== src/Prelude/Faults.antt =====
-- Code that may fault: what it leaves when it does not.
use mathlib.Core.Path.{◌≡◌, refl}
use mathlib.Core.Option.{Option, none, some}
use os_lab_project.Prelude.Tests.{◌>>=◌}

-- The code returns, with no access out of range, and the result satisfies the predicate.
abbrev pub Runs {ℓ} : {A : Type ℓ} → Option A → (A → Type 0) → Type 0
Runs none Q = ⊥
Runs (some a) Q = Q a

pub Runs-bind {ℓ κ} :
    {A : Type ℓ} {B : Type κ} (m : Option A) (f : A → Option B) (Q : A → Type 0) (R : B → Type 0)
    → Runs m Q
    → ((a : A) → Q a → Runs (f a) R)
    → Runs (m >>= f) R
Runs-bind none f Q R h next = absurd h
Runs-bind (some a) f Q R h next = next a h

pub Runs-map {ℓ} :
    {A : Type ℓ} (m : Option A) (Q R : A → Type 0) → Runs m Q → ((a : A) → Q a → R a) → Runs m R
Runs-map none Q R h imp = h
Runs-map (some a) Q R h imp = imp a h

-- The predicate holds of the result, if there is one.
abbrev pub Yields {ℓ} : {A : Type ℓ} → (A → Type 0) → Option A → Type 0
Yields Q none = Unit
Yields Q (some a) = Q a

pub Yields-bind {ℓ κ} :
    {A : Type ℓ} {B : Type κ} (m : Option A) (f : A → Option B) (Q : B → Type 0)
    → ((a : A) → m ≡ some a → Yields Q (f a))
    → Yields Q (m >>= f)
Yields-bind none f Q next = tt
Yields-bind (some a) f Q next = next a refl

pub Yields-map {ℓ} :
    {A : Type ℓ} (m : Option A) (P Q : A → Type 0) → Yields P m → ((a : A) → P a → Q a) → Yields Q m
Yields-map none P Q h imp = tt
Yields-map (some a) P Q h imp = imp a h

pub Yields-then {ℓ κ} :
    {A : Type ℓ} {B : Type κ} (m : Option A) (f : A → Option B) (P : A → Type 0) (Q : B → Type 0)
    → Yields P m
    → ((a : A) → P a → Yields Q (f a))
    → Yields Q (m >>= f)
Yields-then none f P Q h next = tt
Yields-then (some a) f P Q h next = next a h

pub Runs-Yields {ℓ} :
    {A : Type ℓ} (m : Option A) (P Q : A → Type 0) → Runs m P → Yields Q m → Runs m (λ a. P a × Q a)
Runs-Yields none P Q h k = h
Runs-Yields (some a) P Q h k = (h, k)
