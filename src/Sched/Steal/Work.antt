-- ===== src/Sched/Steal/Work.antt =====
-- The idle CPUs of work_steal.c that take a process, and the places of the processes.
use mathlib.Core.Path.{subst}
use mathlib.Core.Option.{some-injective}
use os_lab_project.Prelude.{
  ℕ, zero, suc, ◌<◌, ◌≡◌, ◌≢◌, refl, sym, ap, ◌∙◌, ◌⊎◌, inl, inr, Bool, Option, none, some, List,
  [], ◌∷◌, arith, ◌==◌, bit, length, length-set, get_elem?, get_elem?_of_lt, set, All-set, All-get,
  Bool-cases, ℤ, minus_one, ◌==ℤ◌, ==ℤ_iff, ltb,
}
use os_lab_project.Sched.{Process, Core}
use os_lab_project.Sched.Table.{Unique, HasPid, HasPid-at, pids, At, pid_at}
use os_lab_project.Sched.Rule.{Runs, Runs-bind}
use os_lab_project.Sched.Locks.{IsCore}
use os_lab_project.Sched.Steps.{count-set, hit_of_ne, hit_of_eq, hit_of_idle}
use os_lab_project.Sched.Steal.{CpuQueue, State, assign, find_work, take_up}
use os_lab_project.Sched.Steal.Places.{Taken, find_work-Taken}
use os_lab_project.Sched.Steal.Moves.{Placed, Good, Placed-keep, index_cases, At-same, flag_count}

-- Two indices with one pid are one index.
pub Unique-index :
    (ps : List Process) (i j : ℕ) (p q : Process)
    → Unique (pids ps)
    → get_elem? ps i ≡ some p
    → get_elem? ps j ≡ some q
    → i ≢ j
    → p.pid ≢ q.pid
Unique-index [] i j p q u a b ne e = cc
Unique-index (x ∷ ps) zero zero p q u a b ne e = ne refl
Unique-index (x ∷ ps) zero (suc j) p q u a b ne e =
    pid_at (λ y. y ≢ x.pid) ps j q u.0 b (sym e ∙ ap (λ y. y.pid) (sym (some-injective x p a)))
Unique-index (x ∷ ps) (suc i) zero p q u a b ne e =
    pid_at (λ y. y ≢ x.pid) ps i p u.0 a (e ∙ ap (λ y. y.pid) (sym (some-injective x q b)))
Unique-index (x ∷ ps) (suc i) (suc j) p q u a b ne e =
    Unique-index ps i j p q u.1 a b (λ h. ne (ap suc h)) e

bit_own : (i j : ℕ) → i ≡ j → bit (j == i) ≡ 1
bit_own i j e = elim (Bool-cases (j == i)) [ inl h ↦ rw h refl | inr h ↦ absurd (ground arith) ]

bit_other : (i j : ℕ) → i ≢ j → bit (j == i) ≡ 0
bit_other i j ne = elim (Bool-cases (j == i)) [
  | inl e ↦ absurd (ne (ground arith))
  | inr e ↦ rw e refl
]

module _ (ids : List ℤ) (n t : ℕ) (unique : Unique ids) where
  -- CPU i, which is idle, takes the process at p_idx, which leaves its queue.
  takes :
      (i p_idx : ℕ) (c : Core) (p : Process) (s : State) (qs : List CpuQueue)
      → Good ids n t s
      → get_elem? s.cores i ≡ some c
      → c.current_pid ≡ minus_one
      → get_elem? s.processes p_idx ≡ some p
      → Taken s.queues (flag_count s.arrived) (some p_idx, qs)
      → Good ids n t
          (record s { queues = qs; cores = set s.cores i (record c { current_pid = p.pid }) })
  takes i p_idx c p s qs g here idle there (len, deques, moved) = record {
    same = g.same;
    flags = g.flags;
    table = λ j x f at. table j x f at (index_cases p_idx j);
    known = λ j h. omega (arith, moved j, g.known j h);
    counted = g.counted;
    crews =
        All-set (IsCore ids) s.cores i c'
          (record {
            known = inr (subst (HasPid p.pid) g.same (HasPid-at s.processes p_idx p there));
            whole = (All-get (IsCore ids) s.cores i c g.crews here).whole;
          })
          g.crews;
    deques = deques;
    queue_each = len ∙ g.queue_each;
    core_each = length-set s.cores i c' ∙ g.core_each;
    clock = g.clock;
  }
    where
      c' : Core
      c' = record c { current_pid = p.pid }

      table :
          (j : ℕ) (x : Process) (f : Bool)
          → At s.processes s.arrived j x f
          → (p_idx ≡ j) ⊎ (p_idx ≢ j)
          → Placed qs (set s.cores i c') j x f
      table j x f at (inl e) =
          let old = g.table j x f at in
          let mine : p.pid ≡ x.pid = ap (λ y. y.pid) (At-same s p_idx j p x e there at.0) in
          Placed-keep s.queues qs s.cores (set s.cores i c') j x f
            (omega (
              arith,
              moved j,
              bit_own p_idx j e,
              count-set s.cores i c c' x.pid here,
              hit_of_idle c x.pid idle old.named,
              hit_of_eq c' x.pid mine,
            ))
            old
      table j x f at (inr ne) =
          let old = g.table j x f at in
          Placed-keep s.queues qs s.cores (set s.cores i c') j x f
            (omega (
              arith,
              moved j,
              bit_other p_idx j ne,
              count-set s.cores i c c' x.pid here,
              hit_of_idle c x.pid idle old.named,
              hit_of_ne c' x.pid (
                  Unique-index s.processes p_idx j p x (subst Unique (sym g.same) unique) there at.0
                    ne),
            ))
            old

  take_up-Good :
      (i : ℕ) (c : Core) (s : State) (o : Option ℕ) (qs : List CpuQueue)
      → Good ids n t s
      → get_elem? s.cores i ≡ some c
      → c.current_pid ≡ minus_one
      → Taken s.queues (flag_count s.arrived) (o, qs)
      → Runs (take_up i c (record s { queues = qs }) o) (Good ids n t)
  unfolding take_up
  take_up-Good i c s none qs g here idle (len, deques, stays) = record {
    same = g.same;
    flags = g.flags;
    table = λ j x f at.
        Placed-keep s.queues qs s.cores s.cores j x f (omega (arith, stays j)) (g.table j x f at);
    known = λ j h. stays j ∙ g.known j h;
    counted = g.counted;
    crews = g.crews;
    deques = deques;
    queue_each = len ∙ g.queue_each;
    core_each = g.core_each;
    clock = g.clock;
  }
  take_up-Good i c s (some p_idx) qs g here idle taken =
      elim (Bool-cases (ltb p_idx (length s.processes))) [
        | inl inside ↦
            let (p, there) = get_elem?_of_lt s.processes p_idx (ground arith) in
            rw there (takes i p_idx c p s qs g here idle there taken)
        | inr outside ↦
            absurd
              (omega (arith, taken.2 p_idx, bit_own p_idx p_idx refl, g.known p_idx (ground arith)))
      ]

  -- B. An idle CPU takes a process out of a queue, or none.
  pub assign-Good : (i : ℕ) (s : State) → i < n → Good ids n t s → Runs (assign i s) (Good ids n t)
  unfolding assign
  assign-Good i s early g =
      let (c, here) = get_elem?_of_lt s.cores i (omega (arith, g.core_each)) in
      let (q, at) = get_elem?_of_lt s.queues i (omega (arith, g.queue_each)) in
      rw here (elim (Bool-cases (c.current_pid ==ℤ minus_one)) [
        | inl idle ↦ rw idle (
            Runs-bind (find_work i s.queues) (λ (o, qs). take_up i c (record s { queues = qs }) o)
              (Taken s.queues (flag_count s.arrived)) (Good ids n t)
              (find_work-Taken (flag_count s.arrived) i q s.queues at g.deques)
              λ out h. take_up-Good i c s out.0 out.1 g here ((==ℤ_iff _ _).0 idle) h)
        | inr busy ↦ rw busy g
      ])
