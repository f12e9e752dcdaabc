-- ===== src/Sched/Steal/Arrivals.antt =====
-- The marks that work_steal.c sets when a process arrives, and the time.
use mathlib.Core.Path.{subst}
use mathlib.Core.Option.{some-injective, none-ne-some}
use os_lab_project.Prelude.{
  ℕ, zero, suc, ◌+◌, ◌-◌, ◌≡◌, ◌≢◌, refl, sym, ap, ◌∙◌, ◌⊎◌, inl, inr, Bool, true, false, Option,
  some, List, [], ◌∷◌, arith, bit, length, get_elem?, get_elem?-set_ne, set, Bool-cases, ltb, pos,
  ◌==ℤ◌, Yields, Yields-bind, index_cases,
}
use os_lab_project.Sched.{Process, write}
use os_lab_project.Sched.Steal.Steady.{has_come, MarkedTo}
use os_lab_project.Sched.Steal.{State, shortest, push_back, enqueue, arrive, for_each}

-- A loop whose steps take I i to I (i + 1).
module _ (I : ℕ → State → Type 0) (body : ℕ → State → Option State)
    (keep : (i : ℕ) (s : State) → I i s → Yields (I (i + 1)) (body i s)) where
  pub for_each-Yields : (m i : ℕ) (s : State) → I i s → Yields (I (i + m)) (for_each body m i s)
  unfolding for_each
  for_each-Yields zero i s h = subst (λ k. I k s) (omega arith) h
  for_each-Yields (suc m) i s h = Yields-bind (body i s) (for_each body m (i + 1)) _ λ u e.
      subst (λ k. Yields (I k) (for_each body m (i + 1) u)) (omega arith)
        (for_each-Yields m (i + 1) u (subst (Yields (I (i + 1))) e (keep i s h)))

-- Part A up to process i.
abbrev pub up_to : ℕ → ℕ → ℕ → ℕ
up_to t i j = t + bit (ltb j i)

abbrev pub MarkedUpTo : ℕ → ℕ → ℕ → State → Type 0
MarkedUpTo t n i s = (s.time ≡ t) × (length s.processes ≡ n) × MarkedTo (up_to t i) s

later_same :
    (t i j : ℕ) (p : Process) → i ≢ j → has_come (up_to t i j) p ≡ has_come (up_to t (i + 1) j) p
later_same t i j p ne = elim (Bool-cases (ltb j i)) [
  | inl e ↦ let e' : ltb j (i + 1) ≡ true = ground arith in rw (e, e') refl
  | inr e ↦ let e' : ltb j (i + 1) ≡ false = no (index_cases i j) e in rw (e, e') refl
]
  where
    no : (i ≡ j) ⊎ (i ≢ j) → ltb j i ≡ false → ltb j (i + 1) ≡ false
    no (inl h) e = absurd (ne h)
    no (inr h) e = ground arith

own_now :
    (t i : ℕ) (p : Process)
    → (p.arrival_time ==ℤ pos t) ≡ true
    → has_come (up_to t (i + 1) i) p ≡ true
own_now t i p now = let e : ltb i (i + 1) ≡ true = ground arith in rw e (ground arith)

own_later :
    (t i : ℕ) (p : Process)
    → (p.arrival_time ==ℤ pos t) ≡ false
    → has_come (up_to t i i) p ≡ has_come (up_to t (i + 1) i) p
own_later t i p other =
    let e : ltb i (i + 1) ≡ true = ground arith in
    let e' : ltb i i ≡ false = ground arith in rw (e, e') (ground arith)

-- The marks of process i, p, and of the others after part A for it.
stays :
    (t n i : ℕ) (p : Process) (s : State)
    → get_elem? s.processes i ≡ some p
    → ((f : Bool) → get_elem? s.arrived i ≡ some f → f ≡ has_come (up_to t (i + 1) i) p)
    → MarkedUpTo t n i s
    → MarkedUpTo t n (i + 1) s
stays t n i p s there own (clock, size, marked) = (
  clock,
  size,
  λ j q f at. elim (index_cases i j) [
    | inl e ↦
        let same : p ≡ q = some-injective p q (sym there ∙ ap (get_elem? s.processes) e ∙ at.0) in
        own f (ap (get_elem? s.arrived) e ∙ at.1)
        ∙ ap (has_come (up_to t (i + 1) i)) same
        ∙ ap (λ k. has_come (up_to t (i + 1) k) q) e
    | inr ne ↦ marked j q f at ∙ later_same t i j q ne
  ],
)

-- A process that arrives now is marked.
marks_own :
    (t n i : ℕ) (p : Process) (s u : State)
    → get_elem? s.processes i ≡ some p
    → (p.arrival_time ==ℤ pos t) ≡ true
    → u.processes ≡ s.processes
    → u.time ≡ s.time
    → u.arrived ≡ set s.arrived i true
    → MarkedUpTo t n i s
    → MarkedUpTo t n (i + 1) u
marks_own t n i p s u there now ps_same t_same marks (clock, size, marked) = (
  t_same ∙ clock,
  ap length ps_same ∙ size,
  λ j q f at.
      let row = sym (ap (λ ps. get_elem? ps j) ps_same) ∙ at.0 in
      let mark = sym (ap (λ fs. get_elem? fs j) marks) ∙ at.1 in
      elim (index_cases i j) [
        | inl e ↦
            let same : p ≡ q =
              some-injective p q (sym there ∙ ap (get_elem? s.processes) e ∙ row) in
            set-true s.arrived i f (ap (get_elem? (set s.arrived i true)) e ∙ mark)
            ∙ sym (own_now t i p now)
            ∙ ap (has_come (up_to t (i + 1) i)) same
            ∙ ap (λ k. has_come (up_to t (i + 1) k) q) e
        | inr ne ↦
            marked j q f (row, sym (get_elem?-set_ne s.arrived true ne) ∙ mark)
            ∙ later_same t i j q ne
      ],
)
  where
    set-true : (fs : List Bool) (k : ℕ) (f : Bool) → get_elem? (set fs k true) k ≡ some f → f ≡ true
    set-true [] k f e = absurd (none-ne-some f e)
    set-true (g ∷ gs) zero f e = sym (some-injective true f e)
    set-true (g ∷ gs) (suc k) f e = set-true gs k f e

enqueue-MarkedUpTo :
    (t n i : ℕ) (p : Process) (s : State)
    → get_elem? s.processes i ≡ some p
    → (p.arrival_time ==ℤ pos t) ≡ true
    → MarkedUpTo t n i s
    → Yields (MarkedUpTo t n (i + 1)) (enqueue i s)
unfolding enqueue write
enqueue-MarkedUpTo t n i p s there now h =
    Yields-bind (shortest s.queues (length s.queues - 1) 1 0) _ _ λ m _.
      Yields-bind (get_elem? s.queues m) _ _ λ q _. Yields-bind (push_back q i) _ _ λ r _.
        elim (Bool-cases (ltb i (length s.arrived))) [
          | inl e ↦ rw e (
              marks_own t n i p s
                (record s { queues = set s.queues m r; arrived = set s.arrived i true }) there now
                refl refl refl h)
          | inr e ↦ rw e tt
        ]

pub arrive-MarkedUpTo :
    (t n i : ℕ) (s : State) → MarkedUpTo t n i s → Yields (MarkedUpTo t n (i + 1)) (arrive i s)
unfolding arrive
arrive-MarkedUpTo t n i s h = Yields-bind (get_elem? s.processes i) _ _ λ p there.
    elim (Bool-cases (p.arrival_time ==ℤ pos s.time)) [
      | inr other ↦
          let other' : (p.arrival_time ==ℤ pos t) ≡ false =
            sym (ap (λ k. p.arrival_time ==ℤ pos k) h.0) ∙ other in
          rw other
            (stays t n i p s there (λ f mark. h.2 i p f (there, mark) ∙ own_later t i p other') h)
      | inl now ↦
          let now' : (p.arrival_time ==ℤ pos t) ≡ true =
            sym (ap (λ k. p.arrival_time ==ℤ pos k) h.0) ∙ now in
          rw now (
            Yields-bind (get_elem? s.arrived i) _ _ λ f mark. elim (Bool-cases f) [
              | inl old ↦ rw old (
                  stays t n i p s there
                    (λ g mark'.
                      some-injective g f (sym mark' ∙ mark) ∙ old ∙ sym (own_now t i p now'))
                    h)
              | inr new ↦ rw new (enqueue-MarkedUpTo t n i p s there now' h)
            ])
    ]
