-- ===== src/Sched/Steal/Run.antt =====
-- The rounds of work_steal.c and the places of the processes.
use mathlib.Core.Path.{subst}
use os_lab_project.Prelude.{
  ℕ, zero, suc, ◌+◌, ◌<◌, ◌≤◌, ◌≡◌, sym, ap, ◌∙◌, inl, inr, true, false, ◌&&◌, Option, some, List,
  arith, ◌>>=◌, length, Bool-cases, ltb, ℤ,
}
use os_lab_project.Sched.{max_time}
use os_lab_project.Sched.Table.{Unique, length-pids}
use os_lab_project.Sched.Rule.{Runs, Runs-map, Runs-bind}
use os_lab_project.Sched.Steal.{State, arrive, assign, execute, for_each, tick, rounds}
use os_lab_project.Sched.Steal.Moves.{Good, arrive-Good}
use os_lab_project.Sched.Steal.Work.{assign-Good}
use os_lab_project.Sched.Steal.Execution.{execute-Good}

-- A loop over the indices below a bound.
module _ (Inv : State → Type 0) (body : ℕ → State → Option State) (bound : ℕ)
    (keep : (i : ℕ) (s : State) → i < bound → Inv s → Runs (body i s) Inv) where
  for_each_rule : (m i : ℕ) (s : State) → i + m ≡ bound → Inv s → Runs (for_each body m i s) Inv
  unfolding for_each
  for_each_rule zero i s e inv = inv
  for_each_rule (suc m) i s e inv =
      Runs-bind (body i s) (for_each body m (i + 1)) Inv Inv (keep i s (omega arith) inv)
        λ s' inv'. for_each_rule m (i + 1) s' (omega arith) inv'

-- Good at whatever time it is.
abbrev pub Valid : List ℤ → ℕ → State → Type 0
Valid ids n s = Good ids n s.time s

module _ (ids : List ℤ) (n : ℕ) (some_cpu : 0 < n) (unique : Unique ids)
    (fits : length ids ≤ 100) where
  ticked :
      (t : ℕ) (s : State) → Good ids n t s → Good ids n (t + 1) (record s { time = s.time + 1 })
  ticked t s g = record {
    same = g.same;
    flags = g.flags;
    table = g.table;
    known = g.known;
    counted = g.counted;
    crews = g.crews;
    deques = g.deques;
    queue_each = g.queue_each;
    core_each = g.core_each;
    clock = omega (arith, g.clock);
  }

  tick-Good :
      (t : ℕ) (s : State) → t < max_time → Good ids n t s → Runs (tick s) (Good ids n (t + 1))
  unfolding tick
  tick-Good t s early g =
      Runs-bind
        (for_each arrive (length s.processes) 0 s
          >>= for_each assign (length s.cores) 0
          >>= for_each execute (length s.cores) 0)
        (λ v. some (record v { time = v.time + 1 })) (Good ids n t) (Good ids n (t + 1))
        (Runs-bind (for_each arrive (length s.processes) 0 s >>= for_each assign (length s.cores) 0)
          (for_each execute (length s.cores) 0) (Good ids n t) (Good ids n t)
          (Runs-bind (for_each arrive (length s.processes) 0 s) (for_each assign (length s.cores) 0)
            (Good ids n t) (Good ids n t)
            (for_each_rule (Good ids n t) arrive (length s.processes)
              (λ i u h v. arrive-Good ids n t some_cpu i u fits (omega (arith, size)) v)
              (length s.processes) 0 s (omega arith) g)
            λ u h.
              for_each_rule (Good ids n t) assign (length s.cores)
                (λ i v h' w. assign-Good ids n t unique i v (omega (arith, cpus)) w)
                (length s.cores) 0 u (omega arith) h)
          λ u h.
            for_each_rule (Good ids n t) execute (length s.cores)
              (λ i v h' w. execute-Good ids n t unique i v fits early (omega (arith, cpus)) w)
              (length s.cores) 0 u (omega arith) h)
        λ u h. ticked t u h
    where
      size : length s.processes ≡ length ids
      size = length-pids s.processes ∙ ap length g.same

      cpus : length s.cores ≡ n
      cpus = g.core_each

  tick-Valid :
      (m : ℕ) (s : State)
      → (ltb s.completed m && ltb s.time max_time) ≡ true
      → Valid ids n s
      → Runs (tick s) (λ v. Valid ids n v × (v.time ≡ s.time + 1))
  tick-Valid m s more g =
      Runs-map (tick s) (Good ids n (s.time + 1)) _ (tick-Good s.time s (ground arith) g)
        λ v h. (subst (λ t. Good ids n t v) (sym h.clock) h, h.clock)

  pub rounds-Valid : (m fuel : ℕ) (s : State) → Valid ids n s → Runs (rounds m fuel s) (Valid ids n)
  unfolding rounds
  rounds-Valid m zero s g = g
  rounds-Valid m (suc fuel) s g = elim (Bool-cases (ltb s.completed m && ltb s.time max_time)) [
    | inl more ↦
        rw (more, rounds, Runs)
          (Runs-bind (tick s) (rounds m fuel) (λ v. Valid ids n v × (v.time ≡ s.time + 1))
            (Valid ids n) (tick-Valid m s more g) λ v h. rounds-Valid m fuel v h.0)
    | inr over ↦ rw (over, rounds, Runs) g
  ]

  pub rounds-over :
      (m fuel : ℕ) (s : State)
      → max_time ≤ s.time + fuel
      → Valid ids n s
      → Runs
          (rounds m fuel s)
          (λ v. Valid ids n v × ((ltb v.completed m && ltb v.time max_time) ≡ false))
  unfolding rounds
  rounds-over m zero s h g = (g, ground arith)
  rounds-over m (suc fuel) s h g = elim (Bool-cases (ltb s.completed m && ltb s.time max_time)) [
    | inl more ↦
        rw (more, rounds, Runs)
          (Runs-bind (tick s) (rounds m fuel) (λ v. Valid ids n v × (v.time ≡ s.time + 1)) _
            (tick-Valid m s more g) λ v next. rounds-over m fuel v (omega (arith, next.1)) next.0)
    | inr over ↦ rw (over, rounds, Runs) (g, over)
  ]
