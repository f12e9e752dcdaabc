-- ===== src/Sched/Steal/Moves.antt =====
-- The steps of work_steal.c and the places of the processes: the invariant, and the arrivals.
use mathlib.Core.Bool.{false≢true}
use mathlib.Core.Path.{subst}
use mathlib.Core.Option.{some-injective}
pub use os_lab_project.Prelude.{below, index_cases}
use os_lab_project.Prelude.{
  ℕ, zero, suc, ◌+◌, ◌-◌, ◌<◌, ◌≤◌, ◌≡◌, ◌≢◌, refl, sym, ap, ◌∙◌, ◌⊎◌, inl, inr, Bool, true, false,
  not, ◌&&◌, some, List, [], ◌∷◌, ◌++◌, arith, ◌==◌, bit, length, length-set, get_elem?,
  get_elem?_of_lt, get_elem?-set_self, get_elem?-set_ne, set, All, All-set, All-get, Bool-cases, ℤ,
  pos, minus_one, ◌==ℤ◌, ◌≤ℤ◌,
}
use os_lab_project.Sched.{Process, Core}
use os_lab_project.Sched.Table.{pids, At, write_at, length-pids}
use os_lab_project.Sched.Rule.{count, Runs, Runs-bind}
use os_lab_project.Sched.Locks.{IsCore}
use os_lab_project.Sched.Metrics.{MeasuredWithoutIo}
use os_lab_project.Sched.Steal.{CpuQueue, State, arrive, enqueue, shortest, push_back}
use os_lab_project.Sched.Steal.Deque.{contents, IsDeque, push_back-Runs}
use os_lab_project.Sched.Steal.Balance.{ShortestBelow, shortest-ShortestBelow}
use os_lab_project.Sched.Steal.Places.{times, times-append, queued, queued-set, IsQueue}

abbrev pub is_over : Process → Bool
is_over p = p.remaining_time ==ℤ pos 0

-- The process at index i: once it has arrived, and until it is over, it stands in one queue or
-- runs on one CPU, and not both; else it is in no place.
pub record Placed (qs : List CpuQueue) (cores : List Core) (i : ℕ) (p : Process) (f : Bool)
    : Type 0 where
  pub named : p.pid ≢ minus_one
  pub placed : queued qs i + count cores p.pid ≡ bit (f && not (is_over p))
  pub nonneg : pos 0 ≤ℤ p.remaining_time
  pub measured : is_over p ≡ true → (f ≡ true) × MeasuredWithoutIo p

abbrev pub over_count : List Process → ℕ
over_count [] = 0
over_count (p ∷ ps) = bit (is_over p) + over_count ps

abbrev pub flag_count : List Bool → ℕ
flag_count [] = 0
flag_count (f ∷ fs) = bit f + flag_count fs

-- What holds between two steps, with n CPUs at the time t.
pub record Good (ids : List ℤ) (n t : ℕ) (s : State) : Type 0 where
  pub same : pids s.processes ≡ ids
  pub flags : length s.arrived ≡ 100
  pub table :
      (i : ℕ) (p : Process) (f : Bool)
      → At s.processes s.arrived i p f
      → Placed s.queues s.cores i p f
  pub known : (i : ℕ) → length s.processes ≤ i → queued s.queues i ≡ 0
  pub counted : s.completed ≡ over_count s.processes
  pub crews : All (IsCore ids) s.cores
  pub deques : All (IsQueue (flag_count s.arrived)) s.queues
  pub queue_each : length s.queues ≡ n
  pub core_each : length s.cores ≡ n
  pub clock : s.time ≡ t

pub flag_count-set :
    (fs : List Bool) (i : ℕ)
    → get_elem? fs i ≡ some false
    → (flag_count (set fs i true) ≡ flag_count fs + 1) × (flag_count fs < length fs)
flag_count-set [] i at = cc
flag_count-set (g ∷ fs) zero at =
    let clear : g ≡ false = some-injective g false at in
    (ground (arith, ap bit clear), ground (arith, ap bit clear, flag_count-le fs))
  where
    flag_count-le : (gs : List Bool) → flag_count gs ≤ length gs
    flag_count-le [] = omega arith
    flag_count-le (true ∷ gs) = omega (arith, flag_count-le gs)
    flag_count-le (false ∷ gs) = omega (arith, flag_count-le gs)
flag_count-set (g ∷ fs) (suc i) at =
    let (more, less) = flag_count-set fs i at in (omega (arith, more), ground (arith, less))

All-more : (a b : ℕ) (qs : List CpuQueue) → a ≤ b → All (IsQueue a) qs → All (IsQueue b) qs
All-more a b [] h all = tt
All-more a b (q ∷ qs) h all = ((all.0.0, all.0.1, omega (arith, all.0.2)), All-more a b qs h all.1)

-- A process whose number of places stays.
pub Placed-keep :
    (qs qs' : List CpuQueue) (cores cores' : List Core) (i : ℕ) (p : Process) (f : Bool)
    → queued qs' i + count cores' p.pid ≡ queued qs i + count cores p.pid
    → Placed qs cores i p f
    → Placed qs' cores' i p f
Placed-keep qs qs' cores cores' i p f same h = record {
  named = h.named;
  placed = same ∙ h.placed;
  nonneg = h.nonneg;
  measured = h.measured;
}

-- A process that was in no place, and is now in one.
Placed-join :
    (qs qs' : List CpuQueue) (cores : List Core) (i : ℕ) (p : Process)
    → queued qs' i ≡ queued qs i + 1
    → Placed qs cores i p false
    → Placed qs' cores i p true
Placed-join qs qs' cores i p more h = elim (Bool-cases (is_over p)) [
  | inl over ↦ absurd (false≢true (h.measured over).0)
  | inr left ↦ record {
    named = h.named;
    placed = rw left (omega (arith, h.placed, more));
    nonneg = h.nonneg;
    measured = λ over. absurd (false≢true (sym left ∙ over));
  }
]

pub At-same :
    (s : State) (i j : ℕ) (p x : Process)
    → i ≡ j
    → get_elem? s.processes i ≡ some p
    → get_elem? s.processes j ≡ some x
    → p ≡ x
At-same s i j p x e at at' = some-injective p x (sym at ∙ ap (get_elem? s.processes) e ∙ at')

module _ (ids : List ℤ) (n t : ℕ) (some_cpu : 0 < n) where
  -- A new process joins the shortest queue.
  joins :
      (i : ℕ) (p : Process) (s : State) (m : ℕ) (q r : CpuQueue)
      → Good ids n t s
      → At s.processes s.arrived i p false
      → get_elem? s.queues m ≡ some q
      → IsQueue (flag_count s.arrived) q
      → IsDeque r
      → contents r ≡ contents q ++ (i ∷ [])
      → r.rear ≡ q.rear + 1
      → length r.process_indices ≡ length q.process_indices
      → Good ids n t (record s { queues = set s.queues m r; arrived = set s.arrived i true })
  joins i p s m q r g at there ok deque pushed back len = record {
    same = g.same;
    flags = length-set s.arrived i true ∙ g.flags;
    table = λ j x f at'. table j x f at' (index_cases i j);
    known = λ j h. omega (
      arith,
      moved j,
      g.known j h,
      other j (λ e. absurd (omega (arith, below s.processes i at.0))),
    );
    counted = g.counted;
    crews = g.crews;
    deques =
        All-set (IsQueue (flag_count (set s.arrived i true))) s.queues m r
          (deque, omega (arith, ok.1), omega (arith, ok.2, (flag_count-set s.arrived i at.1).0))
          (All-more (flag_count s.arrived) (flag_count (set s.arrived i true)) s.queues
            (omega (arith, (flag_count-set s.arrived i at.1).0)) g.deques);
    queue_each = length-set s.queues m r ∙ g.queue_each;
    core_each = g.core_each;
    clock = g.clock;
  }
    where
      moved : (j : ℕ) → queued (set s.queues m r) j ≡ queued s.queues j + bit (j == i)
      moved j = omega (
        arith,
        queued-set s.queues m q r j there,
        ap (times j) pushed ∙ times-append j (contents q) (i ∷ []),
      )

      own : (j : ℕ) → i ≡ j → bit (j == i) ≡ 1
      own j e = elim (Bool-cases (j == i)) [ inl h ↦ rw h refl | inr h ↦ absurd (ground arith) ]

      other : (j : ℕ) → i ≢ j → bit (j == i) ≡ 0
      other j ne = elim (Bool-cases (j == i)) [
        | inl e ↦ absurd (ne (ground arith))
        | inr e ↦ rw e refl
      ]

      table :
          (j : ℕ) (x : Process) (f : Bool)
          → At s.processes (set s.arrived i true) j x f
          → (i ≡ j) ⊎ (i ≢ j)
          → Placed (set s.queues m r) s.cores j x f
      table j x f at' (inl e) =
          let now : f ≡ true = some-injective f true (
            sym at'.1
            ∙ ap (get_elem? (set s.arrived i true)) (sym e)
            ∙ get_elem?-set_self s.arrived i true (below s.arrived i at.1)) in
          let mine : p ≡ x = At-same s i j p x e at.0 at'.0 in
          subst (λ b. Placed (set s.queues m r) s.cores j x b) (sym now)
            (subst (λ y. Placed (set s.queues m r) s.cores j y true) mine
              (subst (λ k. Placed (set s.queues m r) s.cores k p true) e
                (Placed-join s.queues (set s.queues m r) s.cores i p
                  (omega (arith, moved i, own i refl)) (g.table i p false at))))
      table j x f at' (inr ne) =
          Placed-keep s.queues (set s.queues m r) s.cores s.cores j x f
            (omega (arith, moved j, other j ne))
            (g.table j x f (at'.0, sym (get_elem?-set_ne s.arrived true ne) ∙ at'.1))

  enqueue-Good :
      (i : ℕ) (p : Process) (s : State)
      → At s.processes s.arrived i p false
      → Good ids n t s
      → Runs (enqueue i s) (Good ids n t)
  unfolding enqueue
  enqueue-Good i p s at g =
      Runs-bind (shortest s.queues (length s.queues - 1) 1 0) _
        (λ m. ShortestBelow s.queues (length s.queues) m) (Good ids n t)
        (shortest-ShortestBelow s.queues (omega (arith, g.queue_each)))
        λ m (q, there, _).
          let ok = All-get (IsQueue (flag_count s.arrived)) s.queues m q g.deques there in
          rw (there, write_at s.arrived i false true at.1)
            (Runs-bind (push_back q i)
              (λ r. some (record s { queues = set s.queues m r; arrived = set s.arrived i true })) _
              (Good ids n t)
              (push_back-Runs q i ok.0
                (omega (arith, ok.1, ok.2, g.flags, (flag_count-set s.arrived i at.1).1)))
              λ r (deque, pushed, back, len). joins i p s m q r g at there ok deque pushed back len)

  -- A. A process that arrives is put into one queue.
  pub arrive-Good :
      (i : ℕ) (s : State)
      → length ids ≤ 100
      → i < length ids
      → Good ids n t s
      → Runs (arrive i s) (Good ids n t)
  unfolding arrive
  arrive-Good i s fits early g =
      let size : length s.processes ≡ length ids = length-pids s.processes ∙ ap length g.same in
      let (p, there) = get_elem?_of_lt s.processes i (omega arith) in
      let (f, flag) = get_elem?_of_lt s.arrived i (omega (arith, g.flags)) in
      rw (there, flag)
        (elim (Bool-cases (p.arrival_time ==ℤ pos s.time)) [
          | inl now ↦ rw now (elim (Bool-cases f) [
            | inl old ↦ rw old g
            | inr new ↦ rw new (enqueue-Good i p s (there, flag ∙ ap some new) g)
          ])
          | inr later ↦ rw later g
        ])
