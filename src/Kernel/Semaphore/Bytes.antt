-- ===== src/Kernel/Semaphore/Bytes.antt =====
-- A user memory of bytes for the semaphores, in which an `int` takes four, the lowest first.
use mathlib.Core.Path.{subst}
use mathlib.Core.Option.{some-injective}
use os_lab_project.Prelude.{
  ℕ, ◌+◌, ◌-◌, ◌*◌, ◌/◌, ◌%◌, ◌≤◌, ◌<◌, ◌⊎◌, ◌≡◌, ◌≢◌, refl, sym, ap, ◌∙◌, inl, inr, true, false,
  Option, some, arith, ltb, ◌==◌, if◌then◌else◌, Bool-cases, ℤ, pos, negsuc,
}
use os_lab_project.Kernel.Semaphore.Interleaving.{IsInt, Apart, ReadsBack}

-- Two's complement on 32 bits.
abbrev encode : ℤ → ℕ
encode (pos n) = n
encode (negsuc n) = 4294967295 - n

abbrev decode : ℕ → ℤ
decode x = if ltb x 2147483648 then pos x else negsuc (4294967295 - x)

decode-encode : (v : ℤ) → IsInt v → (decode (encode v) ≡ v) × (encode v < 4294967296)
decode-encode (pos n) h =
    let small : ltb n 2147483648 ≡ true = ground arith in (rw small refl, omega arith)
decode-encode (negsuc n) h =
    let large : ltb (4294967295 - n) 2147483648 ≡ false = ground arith in
    (rw large (ap negsuc (omega arith)), omega arith)

decode-IsInt : (x : ℕ) → x < 4294967296 → IsInt (decode x)
decode-IsInt x h = elim (Bool-cases (ltb x 2147483648)) [
  | inl e ↦ rw e (ground arith, omega arith)
  | inr e ↦ rw e (omega arith, ground arith)
]

abbrev word : (ℕ → ℕ) → ℕ → ℕ
word u a =
    u a % 256 + 256 * (u (a + 1) % 256) + 65536 * (u (a + 2) % 256) + 16777216 * (u (a + 3) % 256)

abbrev put : ℕ → ℕ → (ℕ → ℕ) → ℕ → ℕ
put x a u b =
    if b == a
    then x
    else if b == a + 1
    then x / 256
    else if b == a + 2
    then x / 65536
    else if b == a + 3
    then x / 16777216
    else u b

abbrev pub load : (ℕ → ℕ) → ℕ → Option ℤ
load u a = some (decode (word u a))

abbrev pub store : (ℕ → ℕ) → ℕ → ℤ → Option (ℕ → ℕ)
store u a v = some (put (encode v) a u)

is : (a b : ℕ) → a ≡ b → (a == b) ≡ true
is a b e = elim (Bool-cases (a == b)) [ inl h ↦ h | inr h ↦ absurd (ground arith) ]

is_not : (a b : ℕ) → a ≢ b → (a == b) ≡ false
is_not a b ne = elim (Bool-cases (a == b)) [ inl h ↦ absurd (ne (ground arith)) | inr h ↦ h ]

word-put : (x a : ℕ) (u : ℕ → ℕ) → x < 4294967296 → word (put x a u) a ≡ x
word-put x a u small =
    rw
      (
        is a a refl,
        is_not (a + 1) a (λ e. omega arith),
        is (a + 1) (a + 1) refl,
        is_not (a + 2) a (λ e. omega arith),
        is_not (a + 2) (a + 1) (λ e. omega arith),
        is (a + 2) (a + 2) refl,
        is_not (a + 3) a (λ e. omega arith),
        is_not (a + 3) (a + 1) (λ e. omega arith),
        is_not (a + 3) (a + 2) (λ e. omega arith),
        is (a + 3) (a + 3) refl,
      )
      (omega arith)

put-other : (x a : ℕ) (u : ℕ → ℕ) (b : ℕ) → (b < a) ⊎ (a + 4 ≤ b) → put x a u b ≡ u b
put-other x a u b far =
    rw
      (
        is_not b a (λ e. ground arith),
        is_not b (a + 1) (λ e. ground arith),
        is_not b (a + 2) (λ e. ground arith),
        is_not b (a + 3) (λ e. ground arith),
      )
      refl

word-put_other : (x a : ℕ) (u : ℕ → ℕ) (b : ℕ) → Apart a b → word (put x a u) b ≡ word u b
word-put_other x a u b apart =
    rw
      (
        put-other x a u b first,
        put-other x a u (b + 1) (away 1 (omega arith)),
        put-other x a u (b + 2) (away 2 (omega arith)),
        put-other x a u (b + 3) (away 3 (omega arith)),
      )
      refl
  where
    first : (b < a) ⊎ (a + 4 ≤ b)
    first = elim apart [ inl h ↦ inr (omega arith) | inr h ↦ inl (omega arith) ]

    away : (k : ℕ) → k < 4 → (b + k < a) ⊎ (a + 4 ≤ b + k)
    away k less = elim apart [ inl h ↦ inr (omega arith) | inr h ↦ inl (omega arith) ]

pub store-ReadsBack : ReadsBack load store
store-ReadsBack = (
  λ u a v e. subst IsInt (some-injective _ v e) (decode-IsInt (word u a) (omega arith)),
  λ u u' a v fits e.
      subst
        (λ w.
          (load w a ≡ some v)
          × ((b : ℕ) (x : ℤ) → Apart a b → load w b ≡ some x → load u b ≡ some x))
        (some-injective _ u' e)
        (
          ap some (
              ap decode (word-put (encode v) a u (decode-encode v fits).1)
              ∙ (decode-encode v fits).0),
          λ b x apart at.
              ap (λ y. some (decode y)) (sym (word-put_other (encode v) a u b apart)) ∙ at,
        ),
)
