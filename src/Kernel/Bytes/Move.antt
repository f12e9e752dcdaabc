-- ===== src/Kernel/Bytes/Move.antt =====
-- `memmove` and `memset` against what they are to leave in the memory.
use os_lab_project.Prelude.{
  write_below, ℕ, zero, suc, ◌+◌, ◌<◌, ◌≤◌, ◌≡◌, ◌≢◌, ◌⊎◌, refl, sym, ap, ◌∙◌, inl, inr, ◌&&◌, some,
  List, arith, ltb, ◌==◌, get_elem?, length, length-set, set, get_elem?_of_lt, get_elem?-set_self,
  get_elem?-set_ne, Bool-cases, Runs, Runs-map,
}
use os_lab_project.Kernel.Bytes.{copy_up, copy_down, memmove}

-- The n bytes at d are those that were at s; the others are as they were.
pub record Copied (d s n : ℕ) (m m' : List ℕ) : Type 0 where
  pub moved : (k : ℕ) → k < n → get_elem? m' (d + k) ≡ get_elem? m (s + k)
  pub kept : (j : ℕ) → (j < d) ⊎ (d + n ≤ j) → get_elem? m' j ≡ get_elem? m j
  pub same_length : length m' ≡ length m

at_index : (m : List ℕ) {i j : ℕ} → i ≡ j → get_elem? m i ≡ get_elem? m j
at_index m e = ap (get_elem? m) e

copy_up-Copied :
    (n d s : ℕ) (m : List ℕ)
    → s + n ≤ length m
    → d + n ≤ length m
    → (d ≤ s) ⊎ (s + n ≤ d)
    → Runs (copy_up n d s m) (Copied d s n m)
unfolding copy_up
copy_up-Copied zero d s m from to apart = record {
  moved = λ k h. absurd (omega arith);
  kept = λ j h. refl;
  same_length = refl;
}
copy_up-Copied (suc n) d s m from to apart =
    let (c, at) = get_elem?_of_lt m s (omega arith) in
    rw (at, write_below m d c (omega arith))
      (Runs-map (copy_up n (d + 1) (s + 1) (set m d c)) (Copied (d + 1) (s + 1) n (set m d c)) _
        (copy_up-Copied n (d + 1) (s + 1) (set m d c) (omega (arith, length-set m d c))
          (omega (arith, length-set m d c)) (closer apart))
        λ m' h. record {
          moved = λ k less. moved c at m' h k less;
          kept = λ j out. h.kept j (wider out) ∙ get_elem?-set_ne m c (λ e. outside out (sym e));
          same_length = h.same_length ∙ length-set m d c;
        })
  where
    closer : (d ≤ s) ⊎ (s + suc n ≤ d) → (d + 1 ≤ s + 1) ⊎ (s + 1 + n ≤ d + 1)
    closer (inl h) = inl (omega arith)
    closer (inr h) = inr (omega arith)

    wider : {j : ℕ} → (j < d) ⊎ (d + suc n ≤ j) → (j < d + 1) ⊎ (d + 1 + n ≤ j)
    wider (inl h) = inl (omega arith)
    wider (inr h) = inr (omega arith)

    outside : {j : ℕ} → (j < d) ⊎ (d + suc n ≤ j) → j ≢ d
    outside (inl h) e = omega arith
    outside (inr h) e = omega arith

    ahead : (k : ℕ) → k < n → d ≢ s + 1 + k
    ahead k less e = elim apart [ inl h ↦ omega arith | inr h ↦ omega arith ]

    moved :
        (c : ℕ)
        → get_elem? m s ≡ some c
        → (m' : List ℕ) → Copied (d + 1) (s + 1) n (set m d c) m'
        → (k : ℕ) → k < suc n
        → get_elem? m' (d + k) ≡ get_elem? m (s + k)
    moved c at m' h zero less =
        at_index m' (omega arith)
        ∙ h.kept d (inl (omega arith))
        ∙ get_elem?-set_self m d c (omega arith)
        ∙ sym at
        ∙ at_index m (omega arith)
    moved c at m' h (suc k) less =
        at_index m' (omega arith)
        ∙ h.moved k (omega arith)
        ∙ get_elem?-set_ne m c (ahead k (omega arith))
        ∙ at_index m (omega arith)

copy_down-Copied :
    (n d s : ℕ) (m : List ℕ)
    → s + n ≤ length m
    → d + n ≤ length m
    → s ≤ d
    → Runs (copy_down n d s m) (Copied d s n m)
unfolding copy_down
copy_down-Copied zero d s m from to below = record {
  moved = λ k h. absurd (omega arith);
  kept = λ j h. refl;
  same_length = refl;
}
copy_down-Copied (suc n) d s m from to below =
    let (c, at) = get_elem?_of_lt m (s + n) (omega arith) in
    rw (at, write_below m (d + n) c (omega arith))
      (Runs-map (copy_down n d s (set m (d + n) c)) (Copied d s n (set m (d + n) c)) _
        (copy_down-Copied n d s (set m (d + n) c) (omega (arith, length-set m (d + n) c))
          (omega (arith, length-set m (d + n) c)) below)
        λ m' h. record {
          moved = λ k less. moved c at m' h k less;
          kept = λ j out. h.kept j (wider out) ∙ get_elem?-set_ne m c (λ e. outside out (sym e));
          same_length = h.same_length ∙ length-set m (d + n) c;
        })
  where
    wider : {j : ℕ} → (j < d) ⊎ (d + suc n ≤ j) → (j < d) ⊎ (d + n ≤ j)
    wider (inl h) = inl h
    wider (inr h) = inr (omega arith)

    outside : {j : ℕ} → (j < d) ⊎ (d + suc n ≤ j) → j ≢ d + n
    outside (inl h) e = omega arith
    outside (inr h) e = omega arith

    moved :
        (c : ℕ)
        → get_elem? m (s + n) ≡ some c
        → (m' : List ℕ) → Copied d s n (set m (d + n) c) m'
        → (k : ℕ) → k < suc n
        → get_elem? m' (d + k) ≡ get_elem? m (s + k)
    moved c at m' h k less = elim (Bool-cases (k == n)) [
      | inl e ↦
          let last : k ≡ n = ground arith in
          at_index m' (ap (λ x. d + x) last)
          ∙ h.kept (d + n) (inr (omega arith))
          ∙ get_elem?-set_self m (d + n) c (omega arith)
          ∙ sym at
          ∙ at_index m (ap (λ x. s + x) (sym last))
      | inr e ↦
          let early : k < n = ground arith in
          h.moved k early ∙ get_elem?-set_ne m c (λ same. before k early same)
    ]
      where
        before : (i : ℕ) → i < n → d + n ≢ s + i
        before i h' same = omega arith

-- When both ranges lie in the memory, even if they overlap: `memmove` faults on no access, the n
-- bytes at `dst` are those that were at `src` before the call, and all others are as they were.
pub memmove-Copied :
    (dst src n : ℕ) (m : List ℕ)
    → src + n ≤ length m
    → dst + n ≤ length m
    → Runs (memmove dst src n m) (Copied dst src n m)
unfolding memmove
memmove-Copied dst src n m from to = elim (Bool-cases (n == 0)) [
  | inl none_asked ↦
      rw none_asked
        (record { moved = λ k h. absurd (ground arith); kept = λ j h. refl; same_length = refl })
  | inr some_asked ↦ rw some_asked (elim (Bool-cases (ltb src dst && ltb dst (src + n))) [
    | inl overlap ↦ rw overlap (copy_down-Copied n dst src m from to (ground arith))
    | inr apart ↦ rw apart (copy_up-Copied n dst src m from to (ground arith))
  ])
]
