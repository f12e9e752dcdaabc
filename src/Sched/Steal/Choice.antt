-- ===== src/Sched/Steal/Choice.antt =====
-- Where work_steal.c puts a process that arrives, and from where an idle CPU takes one.
use mathlib.Core.Path.{subst}
use mathlib.Core.Option.{some-injective}
use os_lab_project.Prelude.{
  ℕ, zero, suc, ◌-◌, ◌≤◌, ◌<◌, ◌≡◌, ◌≢◌, refl, sym, ap, ◌∙◌, ◌⊎◌, inl, inr, Bool, true, false,
  Option, none, some, List, [], ◌∷◌, ◌++◌, arith, length, get_elem?, set, All, All-get, Bool-cases,
  pos, ◌==ℤ◌, ==ℤ_iff, ==ℤ_ne,
}
use os_lab_project.Sched.{Process}
use os_lab_project.Sched.Table.{At, write_at}
use os_lab_project.Sched.Rule.{Runs, Runs-bind, Runs-map}
use os_lab_project.Sched.Steal.{
  CpuQueue, State, push_back, pop_front, pop_back, shortest, longest, enqueue, arrive, steal_from,
  steal, or_steal, find_work,
}
use os_lab_project.Sched.Steal.Deque.{
  contents, IsDeque, Within, PoppedFront, PoppedBack, push_back-Runs, pop_front-Runs, pop_back-Runs,
  length-contents,
}
use os_lab_project.Sched.Steal.Balance.{
  Below, ShortestBelow, LongestBelow, shortest-ShortestBelow, longest-LongestBelow,
}

-- Process i is appended to a queue than which none is shorter, and marked as arrived; nothing else
-- changes.
abbrev pub Joined : ℕ → State → State → Type 0
Joined i s s' =
    (m : ℕ) × (q r : CpuQueue) × (get_elem? s.queues m ≡ some q)
    × Below s.queues (length s.queues) (λ k x. q.size ≤ x.size)
    × (contents r ≡ contents q ++ (i ∷ []))
    × (s' ≡ record s { queues = set s.queues m r; arrived = set s.arrived i true })

-- Part A of the loop for process i, which is p and has the mark f.
abbrev pub Arrives : ℕ → Process → Bool → State → State → Type 0
Arrives i p f s s' =
    (p.arrival_time ≡ pos s.time) × (f ≡ false) × Joined i s s'
    ⊎ ((p.arrival_time ≢ pos s.time) ⊎ (f ≡ true)) × (s' ≡ s)

enqueue-Joined :
    (i : ℕ) (p : Process) (s : State)
    → At s.processes s.arrived i p false
    → 0 < length s.queues
    → All (λ q. IsDeque q × (q.rear < length q.process_indices)) s.queues
    → Runs (enqueue i s) (Joined i s)
unfolding enqueue
enqueue-Joined i p s at some_cpu room =
    Runs-bind (shortest s.queues (length s.queues - 1) 1 0) _
      (λ m. ShortestBelow s.queues (length s.queues) m) (Joined i s)
      (shortest-ShortestBelow s.queues some_cpu)
      λ m (q, there, least).
        let ok =
          All-get (λ q. IsDeque q × (q.rear < length q.process_indices)) s.queues m q room there in
        rw (there, write_at s.arrived i false true at.1)
          (Runs-bind (push_back q i)
            (λ r. some (record s { queues = set s.queues m r; arrived = set s.arrived i true })) _
            (Joined i s) (push_back-Runs q i ok.0 ok.1)
            λ r (_, pushed, _, _). (m, q, r, there, least, pushed, refl))

-- With one CPU at least, and well formed queues with room in their arrays: a process that arrives
-- now, and has not yet, is appended to a queue than which none is shorter, and marked as arrived;
-- any other changes nothing.
pub arrive-Arrives :
    (i : ℕ) (p : Process) (f : Bool) (s : State)
    → At s.processes s.arrived i p f
    → 0 < length s.queues
    → All (λ q. IsDeque q × (q.rear < length q.process_indices)) s.queues
    → Runs (arrive i s) (Arrives i p f s)
unfolding arrive
arrive-Arrives i p f s at some_cpu room =
    rw (at.0, at.1)
      (elim (Bool-cases (p.arrival_time ==ℤ pos s.time)) [
        | inr later ↦ rw later (inr (inl (==ℤ_ne later), refl))
        | inl now ↦ elim (Bool-cases f) [
          | inl old ↦ rw (now, old) (inr (inr refl, refl))
          | inr new ↦
              rw (now, new)
                (Runs-map (enqueue i s) (Joined i s) _
                  (enqueue-Joined i p s (at.0, at.1 ∙ ap some new) some_cpu room)
                  λ s' joined. inl ((==ℤ_iff _ _).0 now, refl, joined))
        ]
      ])

-- From the back of the queue of another CPU, which is not empty and than which no other CPU's is
-- longer, process p is taken; nothing else changes.
abbrev pub Stolen : ℕ → List CpuQueue → ℕ → List CpuQueue → Type 0
Stolen i qs p qs' =
    (c : ℕ) × (x r : CpuQueue) × (c ≢ i)
    × (get_elem? qs c ≡ some x)
    × Below qs (length qs) (λ k y. k ≢ i → y.size ≤ x.size)
    × (contents x ≡ contents r ++ (p ∷ []))
    × (qs' ≡ set qs c r)

-- What the search of CPU i for work gives, whose queue is q.
abbrev pub Chosen : ℕ → CpuQueue → List CpuQueue → Option ℕ × List CpuQueue → Type 0
Chosen i q qs (none, qs') =
    (contents q ≡ []) × Below qs (length qs) (λ k x. k ≢ i → x.size ≤ 0) × (qs' ≡ qs)
Chosen i q qs (some p, qs') =
    ((r : CpuQueue) × (contents q ≡ p ∷ contents r) × (qs' ≡ set qs i r))
    ⊎ (contents q ≡ []) × Stolen i qs p qs'

set-same : (qs : List CpuQueue) (i : ℕ) (q : CpuQueue) → get_elem? qs i ≡ some q → set qs i q ≡ qs
set-same [] i q at = cc
set-same (x ∷ qs) zero q at = ap (λ y. y ∷ qs) (sym (some-injective x q at))
set-same (x ∷ qs) (suc i) q at = ap (λ ys. x ∷ ys) (set-same qs i q at)

not_empty : {A : Type 0} (x r : CpuQueue) → IsDeque x → 0 < x.size → (contents x ≡ []) × (r ≡ x) → A
not_empty x r ok more (empty, _) = absurd (omega (arith, length-contents x ok, ap length empty))

module _ (i : ℕ) (q : CpuQueue) (qs : List CpuQueue) where
  popped-Chosen :
      (c : ℕ) (x : CpuQueue) (o : Option ℕ) (r : CpuQueue)
      → contents q ≡ []
      → c ≢ i
      → get_elem? qs c ≡ some x
      → 0 < x.size
      → Below qs (length qs) (λ k y. k ≢ i → y.size ≤ x.size)
      → IsDeque x
      → PoppedBack x o r
      → Chosen i q qs (o, set qs c r)
  popped-Chosen c x none r empty ne at more top ok popped = not_empty x r ok more popped
  popped-Chosen c x (some p) r empty ne at more top ok popped =
      inr (empty, (c, x, r, ne, at, top, popped, refl))

  steal_from-Chosen :
      (o : Option ℕ) (top : ℕ)
      → contents q ≡ []
      → All IsDeque qs
      → LongestBelow qs i (length qs) o top
      → Runs (steal_from qs o) (Chosen i q qs)
  unfolding steal_from
  steal_from-Chosen none top empty all (least, below) =
      (empty, (λ k x less at ne. omega (arith, below k x less at ne, least)), refl)
  steal_from-Chosen (some c) top empty all ((x, at, ne, more, same), below) = rw at (
      Runs-bind (pop_back x) (λ (o, r). some (o, set qs c r))
        (λ out. PoppedBack x out.0 out.1 × Within x out.1) (Chosen i q qs)
        (pop_back-Runs x (All-get IsDeque qs c x all at))
        λ out h.
          popped-Chosen c x out.0 out.1 empty ne at (omega arith)
            (λ k y less at' other. omega (arith, below k y less at' other))
            (All-get IsDeque qs c x all at) h.0)

  or_steal-Chosen :
      (o : Option ℕ) (r : CpuQueue)
      → get_elem? qs i ≡ some q
      → All IsDeque qs
      → PoppedFront q o r
      → Runs (or_steal i (set qs i r) o) (Chosen i q qs)
  unfolding or_steal steal
  or_steal-Chosen (some p) r at all popped = inl (r, popped, refl)
  or_steal-Chosen none r at all (empty, same) =
      subst (λ ys. Runs (or_steal i ys none) (Chosen i q qs))
        (sym (ap (set qs i) same ∙ set-same qs i q at))
        (Runs-bind (longest qs i (length qs) 0 none 0) (steal_from qs)
          (λ o. (top : ℕ) × LongestBelow qs i (length qs) o top) (Chosen i q qs)
          (longest-LongestBelow qs i) λ o h. steal_from-Chosen o h.0 empty all h.1)

  -- If all queues are well formed, CPU i takes the first process of its own queue. If that is empty
  -- it steals the last process of the longest queue of the other CPUs, and if those are empty too
  -- it takes none. Nothing else changes in the queues.
  pub find_work-Chosen :
      get_elem? qs i ≡ some q → All IsDeque qs → Runs (find_work i qs) (Chosen i q qs)
  unfolding find_work
  find_work-Chosen at all = rw at (
      Runs-bind (pop_front q) (λ (o, r). or_steal i (set qs i r) o)
        (λ out. PoppedFront q out.0 out.1 × Within q out.1) (Chosen i q qs)
        (pop_front-Runs q (All-get IsDeque qs i q all at))
        λ out h. or_steal-Chosen out.0 out.1 at all h.0)
