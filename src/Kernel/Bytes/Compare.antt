-- ===== src/Kernel/Bytes/Compare.antt =====
-- `memcmp` and `memset`.
use mathlib.Core.Path.{subst}
use mathlib.Core.Option.{some-injective}
use os_lab_project.Prelude.{
  write_below, ℕ, zero, suc, ◌+◌, ◌%◌, ◌<◌, ◌≤◌, ◌≡◌, ◌≢◌, ◌⊎◌, ◌↔◌, refl, sym, ap, ◌∙◌, inl, inr,
  some, List, arith, ◌==◌, get_elem?, length, length-set, set, get_elem?_of_lt, get_elem?-set_self,
  get_elem?-set_ne, Bool-cases, Runs, Runs-map, pos, ◌-ℤ◌, -ℤ_parts, pos_part, neg_part,
}
use os_lab_project.Kernel.Bytes.{fill, memset, memcmp}

-- The n bytes at v1 are those at v2.
abbrev pub SameBytes : ℕ → ℕ → ℕ → List ℕ → Type 0
SameBytes v1 v2 n m = (k : ℕ) → k < n → get_elem? m (v1 + k) ≡ get_elem? m (v2 + k)

difference : (a b : ℕ) → pos a -ℤ pos b ≡ pos 0 → a ≡ b
difference a b e = omega (arith, -ℤ_parts (pos a) (pos b), ap pos_part e, ap neg_part e)

module _ (v1 v2 n : ℕ) (m : List ℕ) where
  SameBytes-cons :
      get_elem? m v1 ≡ get_elem? m v2 → SameBytes (v1 + 1) (v2 + 1) n m → SameBytes v1 v2 (suc n) m
  SameBytes-cons head tail zero less =
      ap (get_elem? m) (omega arith) ∙ head ∙ ap (get_elem? m) (omega arith)
  SameBytes-cons head tail (suc k) less =
      ap (get_elem? m) (omega arith) ∙ tail k (omega arith) ∙ ap (get_elem? m) (omega arith)

  SameBytes-head : SameBytes v1 v2 (suc n) m → get_elem? m v1 ≡ get_elem? m v2
  SameBytes-head h =
      ap (get_elem? m) (omega arith) ∙ h 0 (omega arith) ∙ ap (get_elem? m) (omega arith)

  SameBytes-tail : SameBytes v1 v2 (suc n) m → SameBytes (v1 + 1) (v2 + 1) n m
  SameBytes-tail h k less =
      ap (get_elem? m) (omega arith) ∙ h (suc k) (omega arith) ∙ ap (get_elem? m) (omega arith)

-- When both ranges lie in the memory `memcmp` faults on no access, and gives 0 exactly when their
-- bytes are the same.
pub memcmp-SameBytes :
    (v1 v2 n : ℕ) (m : List ℕ)
    → v1 + n ≤ length m
    → v2 + n ≤ length m
    → Runs (memcmp v1 v2 n m) (λ r. (r ≡ pos 0) ↔ SameBytes v1 v2 n m)
unfolding memcmp
memcmp-SameBytes v1 v2 zero m one two = ((λ _ k less. absurd (omega arith)), λ _. refl)
memcmp-SameBytes v1 v2 (suc n) m one two =
    let (a, at) = get_elem?_of_lt m v1 (omega arith) in
    let (b, at') = get_elem?_of_lt m v2 (omega arith) in
    rw (at, at')
      (elim (Bool-cases (a == b)) [
        | inl e ↦
            let same : a ≡ b = ground arith in
            rw e (
              Runs-map (memcmp (v1 + 1) (v2 + 1) n m)
                (λ r. (r ≡ pos 0) ↔ SameBytes (v1 + 1) (v2 + 1) n m) _
                (memcmp-SameBytes (v1 + 1) (v2 + 1) n m (omega arith) (omega arith))
                λ r h. (
                  (λ zero_result.
                      SameBytes-cons v1 v2 n m (at ∙ ap some same ∙ sym at') (h.0 zero_result)),
                  λ all. h.1 (SameBytes-tail v1 v2 n m all),
                ))
        | inr e ↦
            let apart : a ≢ b = λ same. ground arith in
            rw e (
              (λ zero_result. absurd (apart (difference a b zero_result))),
              λ all.
                  absurd (apart (some-injective a b (sym at ∙ SameBytes-head v1 v2 n m all ∙ at'))),
            )
      ])

-- The n bytes at dst are c; the others are as they were.
pub record Filled (dst c n : ℕ) (m m' : List ℕ) : Type 0 where
  pub set_to : (k : ℕ) → k < n → get_elem? m' (dst + k) ≡ some c
  pub kept : (j : ℕ) → (j < dst) ⊎ (dst + n ≤ j) → get_elem? m' j ≡ get_elem? m j
  pub same_length : length m' ≡ length m

fill-Filled :
    (dst c i n : ℕ) (m : List ℕ)
    → dst + i + n ≤ length m
    → Runs (fill dst c i n m) (Filled (dst + i) c n m)
unfolding fill
fill-Filled dst c i zero m inside = record {
  set_to = λ k less. absurd (omega arith);
  kept = λ j out. refl;
  same_length = refl;
}
fill-Filled dst c i (suc n) m inside = rw (write_below m (dst + i) c (omega arith)) (
    Runs-map (fill dst c (i + 1) n m1) (Filled (dst + (i + 1)) c n m1) _
      (fill-Filled dst c (i + 1) n m1 (omega (arith, length-set m (dst + i) c)))
      λ m' h. record {
        set_to = set_to m' h;
        kept = λ j out. h.kept j (wider out) ∙ get_elem?-set_ne m c (λ e. outside out (sym e));
        same_length = h.same_length ∙ length-set m (dst + i) c;
      })
  where
    m1 : List ℕ
    m1 = set m (dst + i) c

    wider :
        {j : ℕ}
        → (j < dst + i) ⊎ (dst + i + suc n ≤ j)
        → (j < dst + (i + 1)) ⊎ (dst + (i + 1) + n ≤ j)
    wider (inl h) = inl (omega arith)
    wider (inr h) = inr (omega arith)

    outside : {j : ℕ} → (j < dst + i) ⊎ (dst + i + suc n ≤ j) → j ≢ dst + i
    outside (inl h) e = omega arith
    outside (inr h) e = omega arith

    set_to :
        (m' : List ℕ)
        → Filled (dst + (i + 1)) c n m1 m'
        → (k : ℕ) → k < suc n
        → get_elem? m' (dst + i + k) ≡ some c
    set_to m' h zero less =
        ap (get_elem? m') (omega arith)
        ∙ h.kept (dst + i) (inl (omega arith))
        ∙ get_elem?-set_self m (dst + i) c (omega arith)
    set_to m' h (suc k) less = ap (get_elem? m') (omega arith) ∙ h.set_to k (omega arith)

-- When the range lies in the memory `memset` faults on no access, sets its n bytes to c cut to a
-- byte, and leaves the others as they were.
memset-Filled :
    (dst c n : ℕ) (m : List ℕ)
    → dst + n ≤ length m
    → Runs (memset dst c n m) (Filled dst (c % 256) n m)
unfolding memset
memset-Filled dst c n m inside =
    let base : dst + 0 ≡ dst = omega arith in
    subst (λ b. Runs (fill dst (c % 256) 0 n m) (Filled b (c % 256) n m)) base
      (fill-Filled dst (c % 256) 0 n m (omega arith))
