-- ===== src/Prelude/Arrays.antt =====
-- Arrays as lists: writes that may be out of range, and the laws of reads and writes.
use Prim.Native.Nat.{ℕ, zero, suc, ◌<◌}
use mathlib.Core.Path.{◌≡◌, refl, sym, ap}
use mathlib.Core.Logic.{◌≢◌, ◌⊎◌, inl, inr}
use mathlib.Core.Bool.{true}
use mathlib.Core.List.{List, [], ◌∷◌}
use mathlib.Core.Option.{Option, none, some, some-injective}
use native.Mathlib.Omega.{arith}
use os_lab_project.Prelude.Tests.{ltb, ◌==◌, if◌then◌else◌, Bool-cases}
use os_lab_project.Prelude.Lists.{length, get_elem?, set, replicate}

-- `a[i] = v`
unfoldable pub write {ℓ} : {A : Type ℓ} → List A → ℕ → A → Option (List A)
write xs i v = if ltb i (length xs) then some (set xs i v) else none

pub write_at {ℓ} :
    {A : Type ℓ} (xs : List A) (i : ℕ) (x v : A)
    → get_elem? xs i ≡ some x
    → write xs i v ≡ some (set xs i v)
unfolding write
write_at {A} xs i x v a = rw (in_range xs i a)
  where
    in_range : (ys : List A) (j : ℕ) → get_elem? ys j ≡ some x → ltb j (length ys) ≡ true
    in_range [] j h = cc
    in_range (y ∷ ys) zero h = ground arith
    in_range (y ∷ ys) (suc j) h = ground (arith, in_range ys j h)

pub write_below {ℓ} :
    {A : Type ℓ} (xs : List A) (i : ℕ) (v : A) → i < length xs → write xs i v ≡ some (set xs i v)
unfolding write
write_below xs i v h = ground arith

pub below {ℓ} : {A : Type ℓ} {x : A} (xs : List A) (i : ℕ) → get_elem? xs i ≡ some x → i < length xs
below [] i at = cc
below (y ∷ xs) zero at = omega arith
below (y ∷ xs) (suc i) at = omega (arith, below xs i at)

pub index_cases : (i j : ℕ) → (i ≡ j) ⊎ (i ≢ j)
index_cases i j = elim (Bool-cases (i == j)) [
  | inl e ↦ inl (ground arith)
  | inr e ↦ inr (λ h. ground arith)
]

pub get_elem?-replicate {ℓ} :
    {A : Type ℓ} (n i : ℕ) (a x : A) → get_elem? (replicate n a) i ≡ some x → x ≡ a
get_elem?-replicate zero i a x h = cc
get_elem?-replicate (suc n) zero a x h = sym (some-injective a x h)
get_elem?-replicate (suc n) (suc i) a x h = get_elem?-replicate n i a x h

pub length-replicate {ℓ} : {A : Type ℓ} (n : ℕ) (a : A) → length (replicate n a) ≡ n
length-replicate zero a = refl
length-replicate (suc n) a = ap suc (length-replicate n a)
