-- ===== src/Sched/Steal/Deque.antt =====
-- The queue of a CPU is a deque: its operations on the array against those on a list.
use os_lab_project.Prelude.{
  ℕ, zero, suc, ◌+◌, ◌-◌, ◌<◌, ◌≤◌, ◌≡◌, refl, ap, ◌∙◌, false, Option, none, some, List, [], ◌∷◌,
  ◌++◌, arith, ◌==◌, length, length-set, get_elem?, get_elem?_of_lt, set, Bool-cases, inl, inr,
}
use os_lab_project.Sched.Table.{write_below}
use os_lab_project.Sched.Rule.{Runs}
use os_lab_project.Sched.Steal.{CpuQueue, push_back, pop_front, pop_back, pop_at}

-- n entries from index f on.
abbrev pub slice {ℓ} : {A : Type ℓ} → List A → ℕ → ℕ → List A
slice [] f n = []
slice (x ∷ xs) (suc f) n = slice xs f n
slice (x ∷ xs) zero zero = []
slice (x ∷ xs) zero (suc n) = x ∷ slice xs zero n

pub slice-nil {ℓ} : {A : Type ℓ} (xs : List A) (f : ℕ) → slice xs f 0 ≡ []
slice-nil [] f = refl
slice-nil (x ∷ xs) zero = refl
slice-nil (x ∷ xs) (suc f) = slice-nil xs f

slice-first {ℓ} :
    {A : Type ℓ} (xs : List A) (f g n : ℕ) (x : A)
    → g ≡ f + 1
    → get_elem? xs f ≡ some x
    → slice xs f (suc n) ≡ x ∷ slice xs g n
slice-first [] f g n x e h = cc
slice-first (y ∷ xs) zero zero n x e h = absurd (omega arith)
slice-first (y ∷ xs) zero (suc zero) n x e h = ground arith
slice-first (y ∷ xs) zero (suc (suc g)) n x e h = absurd (omega arith)
slice-first (y ∷ xs) (suc f) zero n x e h = absurd (omega arith)
slice-first (y ∷ xs) (suc f) (suc g) n x e h = slice-first xs f g n x (omega arith) h

slice-last {ℓ} :
    {A : Type ℓ} (xs : List A) (f r n : ℕ) (x : A)
    → r ≡ f + n
    → get_elem? xs r ≡ some x
    → slice xs f (suc n) ≡ slice xs f n ++ (x ∷ [])
slice-last [] f r n x e h = cc
slice-last (y ∷ xs) zero zero zero x e h = ground (arith, slice-nil xs 0)
slice-last (y ∷ xs) zero zero (suc n) x e h = absurd (omega arith)
slice-last (y ∷ xs) zero (suc r) zero x e h = absurd (omega arith)
slice-last (y ∷ xs) zero (suc r) (suc n) x e h =
    ap (◌∷◌ y) (slice-last xs zero r n x (omega arith) h)
slice-last (y ∷ xs) (suc f) zero n x e h = absurd (omega arith)
slice-last (y ∷ xs) (suc f) (suc r) n x e h = slice-last xs f r n x (omega arith) h

slice-set {ℓ} :
    {A : Type ℓ} (xs : List A) (f r n : ℕ) (x : A)
    → r ≡ f + n
    → r < length xs
    → slice (set xs r x) f (suc n) ≡ slice xs f n ++ (x ∷ [])
slice-set [] f r n x e h = absurd (omega arith)
slice-set (y ∷ xs) zero zero zero x e h = ap (◌∷◌ x) (slice-nil xs 0)
slice-set (y ∷ xs) zero zero (suc n) x e h = absurd (omega arith)
slice-set (y ∷ xs) zero (suc r) zero x e h = absurd (omega arith)
slice-set (y ∷ xs) zero (suc r) (suc n) x e h =
    ap (◌∷◌ y) (slice-set xs zero r n x (omega arith) (omega arith))
slice-set (y ∷ xs) (suc f) zero n x e h = absurd (omega arith)
slice-set (y ∷ xs) (suc f) (suc r) n x e h = slice-set xs f r n x (omega arith) (omega arith)

length-slice {ℓ} :
    {A : Type ℓ} (xs : List A) (f n : ℕ) → f + n ≤ length xs → length (slice xs f n) ≡ n
length-slice [] f n h = omega arith
length-slice (y ∷ xs) zero zero h = refl
length-slice (y ∷ xs) zero (suc n) h = ap suc (length-slice xs zero n (omega arith))
length-slice (y ∷ xs) (suc f) n h = length-slice xs f n (omega arith)

-- The processes in the queue, front first.
abbrev pub contents : CpuQueue → List ℕ
contents q = slice q.process_indices q.front q.size

pub record IsDeque (q : CpuQueue) : Type 0 where
  pub extent : q.rear ≡ q.front + q.size
  pub inside : q.rear ≤ length q.process_indices

pub length-contents : (q : CpuQueue) → IsDeque q → length (contents q) ≡ q.size
length-contents q ok =
    length-slice q.process_indices q.front q.size (omega (arith, ok.extent, ok.inside))

-- On a well formed queue with room in its array `push_back` appends to the contents.
pub push_back-Runs :
    (q : CpuQueue) (p : ℕ)
    → IsDeque q
    → q.rear < length q.process_indices
    → Runs (push_back q p) (λ r.
      IsDeque r
      × (contents r ≡ contents q ++ (p ∷ []))
      × (r.rear ≡ q.rear + 1)
      × (length r.process_indices ≡ length q.process_indices))
unfolding push_back
push_back-Runs q p ok room = rw (write_below q.process_indices q.rear p room) (
  record {
    extent = omega (arith, ok.extent);
    inside = omega (arith, length-set q.process_indices q.rear p);
  },
  ap (slice (set q.process_indices q.rear p) q.front) (omega arith)
      ∙ slice-set q.process_indices q.front q.rear q.size p ok.extent room,
  refl,
  length-set q.process_indices q.rear p,
)

-- What a pop leaves, and which process it gives.
abbrev pub PoppedFront : CpuQueue → Option ℕ → CpuQueue → Type 0
PoppedFront q none r = (contents q ≡ []) × (r ≡ q)
PoppedFront q (some p) r = contents q ≡ p ∷ contents r

abbrev pub PoppedBack : CpuQueue → Option ℕ → CpuQueue → Type 0
PoppedBack q none r = (contents q ≡ []) × (r ≡ q)
PoppedBack q (some p) r = contents q ≡ contents r ++ (p ∷ [])

abbrev pub Within : CpuQueue → CpuQueue → Type 0
Within q r = IsDeque r × (r.rear ≤ q.rear) × (length r.process_indices ≡ length q.process_indices)

-- On a well formed queue `pop_front` takes the first element of the contents; if there is none it
-- gives none and changes nothing.
pub pop_front-Runs :
    (q : CpuQueue)
    → IsDeque q
    → Runs (pop_front q) (λ out. PoppedFront q out.0 out.1 × Within q out.1)
unfolding pop_front
pop_front-Runs q ok = elim (Bool-cases (q.size == 0)) [
  | inl e ↦ rw e (
    (
      ap (slice q.process_indices q.front) (ground arith) ∙ slice-nil q.process_indices q.front,
      refl,
    ),
    (ok, omega arith, refl),
  )
  | inr e ↦
      let (p, there) =
        get_elem?_of_lt q.process_indices q.front (ground (arith, ok.extent, ok.inside)) in
      rw (e, there)
        (
          ap (slice q.process_indices q.front) (ground arith)
              ∙ slice-first q.process_indices q.front (q.front + 1) (q.size - 1) p refl there,
          (record { extent = ground (arith, ok.extent); inside = ok.inside }, omega arith, refl),
        )
]

pop_at-Runs :
    (q : CpuQueue) (r : ℕ)
    → q.rear ≡ r
    → IsDeque q
    → (q.size == 0) ≡ false
    → Runs (pop_at q r) (λ out. PoppedBack q out.0 out.1 × Within q out.1)
unfolding pop_at
pop_at-Runs q zero h ok e = absurd (ground (arith, ok.extent))
pop_at-Runs q (suc r) h ok e =
    let (p, there) = get_elem?_of_lt q.process_indices r (omega (arith, ok.inside)) in
    rw there (
      ap (slice q.process_indices q.front) (ground arith)
          ∙ slice-last q.process_indices q.front r (q.size - 1) p (ground (arith, ok.extent)) there,
      (
        record { extent = ground (arith, ok.extent); inside = omega (arith, ok.inside) },
        omega arith,
        refl,
      ),
    )

-- On a well formed queue `pop_back` takes the last element of the contents; if there is none it
-- gives none and changes nothing.
pub pop_back-Runs :
    (q : CpuQueue)
    → IsDeque q
    → Runs (pop_back q) (λ out. PoppedBack q out.0 out.1 × Within q out.1)
unfolding pop_back
pop_back-Runs q ok = elim (Bool-cases (q.size == 0)) [
  | inl e ↦ rw e (
    (
      ap (slice q.process_indices q.front) (ground arith) ∙ slice-nil q.process_indices q.front,
      refl,
    ),
    (ok, omega arith, refl),
  )
  | inr e ↦ rw e (pop_at-Runs q q.rear refl ok e)
]
