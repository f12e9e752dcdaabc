-- ===== src/Sched/Steal/Execution.antt =====
-- The unit of time that a CPU of work_steal.c runs, and the places of the processes.
use mathlib.Core.Bool.{false≢true}
use mathlib.Core.Path.{subst}
use mathlib.Core.Option.{some-injective}
use os_lab_project.Prelude.{
  ℕ, zero, suc, ◌+◌, ◌<◌, ◌≤◌, ◌≡◌, ◌≢◌, refl, sym, ap, ◌∙◌, ◌⊎◌, inl, inr, Bool, true, false, not,
  ◌&&◌, some, List, [], ◌∷◌, arith, bit, length, length-set, get_elem?, get_elem?_of_lt,
  get_elem?-set_self, get_elem?-set_ne, set, All-set, All-get, Bool-cases, ℤ, pos, minus_one, ◌==ℤ◌,
  -ℤ_parts,
}
use os_lab_project.Sched.{Process, Core, write, max_time}
use os_lab_project.Sched.Table.{
  Unique, HasPid, At, write_below, length-pids, first_index-Finds, pids-set,
}
use os_lab_project.Sched.Rule.{hit, Runs}
use os_lab_project.Sched.Locks.{IsCore}
use os_lab_project.Sched.Policy.{spend_unit}
use os_lab_project.Sched.Policy.Phases.{busy_pid}
use os_lab_project.Sched.Steps.{count-set, hit_of_ne, hit_of_eq, hit_of_idle}
use os_lab_project.Sched.Steal.{State, execute, work_on, work, close_account}
use os_lab_project.Sched.Steal.Moves.{
  Placed, Good, Placed-keep, below, index_cases, is_over, over_count,
}
use os_lab_project.Sched.Steal.Work.{Unique-index}

over_count-set :
    (ps : List Process) (i : ℕ) (p r : Process)
    → get_elem? ps i ≡ some p
    → over_count (set ps i r) + bit (is_over p) ≡ over_count ps + bit (is_over r)
over_count-set [] i p r at = cc
over_count-set (x ∷ ps) zero p r at =
    let same : bit (is_over x) ≡ bit (is_over p) =
      ap (λ y. bit (is_over y)) (some-injective x p at) in
    omega (arith, same)
over_count-set (x ∷ ps) (suc i) p r at = omega (arith, over_count-set ps i p r at)

module _ (ids : List ℤ) (n t : ℕ) (unique : Unique ids) where
  -- CPU i becomes c', and the process at j, which it runs, becomes r.
  module _ (i j : ℕ) (c c' : Core) (p r : Process) (f : Bool) (s : State) (done : ℕ)
      (g : Good ids n t s) (here : get_elem? s.cores i ≡ some c)
      (there : At s.processes s.arrived j p f) (mine : p.pid ≡ c.current_pid) (pid : r.pid ≡ p.pid)
      (crew : IsCore ids c') (others : (a : ℤ) → a ≢ minus_one → a ≢ p.pid → hit c' a ≡ 0)
      (own : Placed s.queues (set s.cores i c') j r f)
      (counts : done + bit (is_over p) ≡ s.completed + bit (is_over r)) where
    table :
        (k : ℕ) (x : Process) (b : Bool)
        → At (set s.processes j r) s.arrived k x b
        → (j ≡ k) ⊎ (j ≢ k)
        → Placed s.queues (set s.cores i c') k x b
    table k x b at (inl e) =
        let new : r ≡ x = some-injective r x (
          sym (get_elem?-set_self s.processes j r (below s.processes j there.0))
          ∙ ap (get_elem? (set s.processes j r)) e
          ∙ at.0) in
        let flag : f ≡ b = some-injective f b (sym there.1 ∙ ap (get_elem? s.arrived) e ∙ at.1) in
        subst (λ y. Placed s.queues (set s.cores i c') k x y) flag
          (subst (λ y. Placed s.queues (set s.cores i c') k y f) new
            (subst (λ y. Placed s.queues (set s.cores i c') y r f) e own))
    table k x b at (inr ne) =
        let at' : get_elem? s.processes k ≡ some x =
          sym (get_elem?-set_ne s.processes r ne) ∙ at.0 in
        let old = g.table k x b (at', at.1) in
        let apart : p.pid ≢ x.pid =
          Unique-index s.processes j k p x (subst Unique (sym g.same) unique) there.0 at' ne in
        Placed-keep s.queues s.queues s.cores (set s.cores i c') k x b
          (omega (
            arith,
            count-set s.cores i c c' x.pid here,
            hit_of_ne c x.pid (λ e. apart (mine ∙ e)),
            others x.pid old.named (λ e. apart (sym e)),
          ))
          old

    worked :
        Good ids n t
          (record s { processes = set s.processes j r; completed = done; cores = set s.cores i c' })
    worked = record {
      same = pids-set s.processes j p r there.0 pid ∙ g.same;
      flags = g.flags;
      table = λ k x b at. table k x b at (index_cases j k);
      known = λ k h. g.known k (omega (arith, length-set s.processes j r));
      counted = omega (arith, over_count-set s.processes j p r there.0, g.counted, counts);
      crews = All-set (IsCore ids) s.cores i c' crew g.crews;
      deques = g.deques;
      queue_each = g.queue_each;
      core_each = length-set s.cores i c' ∙ g.core_each;
      clock = g.clock;
    }

  -- A process that is in some place has arrived and is not over.
  present :
      (f over : Bool) {a b : ℕ}
      → a + b ≡ bit (f && not over)
      → 0 < b
      → (f ≡ true) × (over ≡ false) × (a ≡ 0) × (b ≡ 1)
  present true true h more = absurd (omega arith)
  present true false h more = (refl, refl, omega arith, omega arith)
  present false over h more = absurd (omega arith)

  work-Good :
      (i j : ℕ) (c c1 : Core) (p : Process) (f : Bool) (s : State)
      → Good ids n t s
      → get_elem? s.cores i ≡ some c
      → At s.processes s.arrived j p f
      → p.pid ≡ c.current_pid
      → IsCore ids c1
      → c1.current_pid ≡ c.current_pid
      → Runs (work i c1 j s) (Good ids n t)
  unfolding work close_account
  work-Good i j c c1 p f s g here there mine crew same =
      let old = g.table j p f there in
      let idle : Core = record c1 { current_pid = minus_one } in
      let left = count-set s.cores i c idle p.pid here in
      let gone : hit idle p.pid ≡ 0 = hit_of_idle idle p.pid refl old.named in
      let here_once : hit c p.pid ≡ 1 = hit_of_eq c p.pid (sym mine) in
      let (arrived, more, unqueued, once) =
        present f (is_over p) old.placed (omega (arith, left, gone, here_once)) in
      let q = spend_unit p in
      rw there.0 (elim (Bool-cases (is_over q)) [
        | inl over ↦ rw over (
            worked i j c idle p (close_account s.time q) f s (s.completed + 1) g here there mine
              refl (record { known = inl refl; whole = crew.whole })
              (λ a named ne. hit_of_idle idle a refl named)
              (record {
                named = old.named;
                placed = rw (arrived, over) (omega (arith, unqueued, left, gone, here_once, once));
                nonneg = ground arith;
                measured = λ _. (arrived, (refl, refl));
              })
              (rw (more, over) (omega arith)))
        | inr on ↦ rw on (
            worked i j c c1 p q f s s.completed g here there mine refl crew
              (λ a named ne. hit_of_ne c1 a (λ e. ne (sym e ∙ same ∙ sym mine)))
              (record {
                named = old.named;
                placed =
                    rw (arrived, on)
                      (omega (
                        arith,
                        unqueued,
                        count-set s.cores i c c1 p.pid here,
                        hit_of_eq c1 p.pid (same ∙ sym mine),
                        here_once,
                        once,
                      ));
                nonneg = ground (arith, -ℤ_parts p.remaining_time (pos 1), old.nonneg, more);
                measured = λ over. absurd (false≢true (sym on ∙ over));
              })
              (rw (more, on) (omega arith)))
      ])

  -- An idle CPU writes to its chart only.
  charts :
      (i : ℕ) (c : Core) (row : List ℤ) (s : State)
      → Good ids n t s
      → get_elem? s.cores i ≡ some c
      → length row ≡ length c.row
      → Good ids n t (record s { cores = set s.cores i (record c { row = row }) })
  charts i c row s g here size = record {
    same = g.same;
    flags = g.flags;
    table = λ k x b at.
        Placed-keep s.queues s.queues s.cores (set s.cores i (record c { row = row })) k x b
          (omega (arith, count-set s.cores i c (record c { row = row }) x.pid here))
          (g.table k x b at);
    known = g.known;
    counted = g.counted;
    crews =
        let crew = All-get (IsCore ids) s.cores i c g.crews here in
        All-set (IsCore ids) s.cores i (record c { row = row })
          (record { known = crew.known; whole = size ∙ crew.whole }) g.crews;
    deques = g.deques;
    queue_each = g.queue_each;
    core_each = length-set s.cores i (record c { row = row }) ∙ g.core_each;
    clock = g.clock;
  }

  -- C. A CPU with a process works on it, and the process leaves it when it is over.
  pub execute-Good :
      (i : ℕ) (s : State)
      → length ids ≤ 100
      → t < max_time
      → i < n
      → Good ids n t s
      → Runs (execute i s) (Good ids n t)
  unfolding execute work_on
  execute-Good i s fits in_time early g =
      let (c, here) = get_elem?_of_lt s.cores i (omega (arith, g.core_each)) in
      let crew = All-get (IsCore ids) s.cores i c g.crews here in
      let charted : (a : ℤ) → write c.row s.time a ≡ some (set c.row s.time a) =
        λ a. write_below c.row s.time a (omega (arith, crew.whole, g.clock)) in
      rw here (elim (Bool-cases (c.current_pid ==ℤ minus_one)) [
        | inl idle ↦
            rw (idle, charted (pos 0))
              (charts i c (set c.row s.time (pos 0)) s g here (length-set c.row s.time (pos 0)))
        | inr busy ↦
            let (j, p, found, there, mine) =
              first_index-Finds c.current_pid s.processes (subst Unique (sym g.same) unique)
                (subst (HasPid c.current_pid) (sym g.same) (busy_pid crew busy)) in
            let (f, flag) = get_elem?_of_lt s.arrived j (
              omega (
                arith,
                g.flags,
                below s.processes j there,
                length-pids s.processes,
                ap length g.same,
              )) in
            rw (busy, charted c.current_pid, found)
              (work-Good i j c (record c { row = set c.row s.time c.current_pid }) p f s g here
                (there, flag) mine
                (record {
                  known = crew.known;
                  whole = length-set c.row s.time c.current_pid ∙ crew.whole;
                })
                refl)
      ])
