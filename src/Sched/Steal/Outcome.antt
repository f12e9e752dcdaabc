-- ===== src/Sched/Steal/Outcome.antt =====
-- A whole run of work_steal.c, from its start to its end.
use mathlib.Core.Path.{subst}
use os_lab_project.Prelude.{get_elem?-replicate, length-replicate, ◌∙◌, Runs-Yields}
use os_lab_project.Prelude.{
  ℕ, zero, suc, ◌+◌, ◌<◌, ◌≤◌, ◌≡◌, ◌≢◌, refl, sym, ap, ◌⊎◌, inl, inr, Bool, true, false, not, ◌&&◌,
  some, List, [], ◌∷◌, arith, bit, length, get_elem?, get_elem?_of_lt, All, All-get, Bool-cases,
  ltb, ℤ, pos, minus_one, ==ℤ_iff, ◌<ℤ◌,
}
use os_lab_project.Sched.{Process, max_time, idle_cores}
use os_lab_project.Sched.Table.{pids, At, pid_at, length-pids}
use os_lab_project.Sched.Rule.{count, Runs, Runs-map}
use os_lab_project.Sched.Locks.{Facts}
use os_lab_project.Sched.Policy.Run.{IsInput, idle_cores-free, idle_cores-IsCore}
use os_lab_project.Sched.Metrics.{MeasuredWithoutIo}
use os_lab_project.Sched.Steal.{State, rounds, empty_queues, start_steal, run_work_steal}
use os_lab_project.Sched.Steal.Deque.{slice-nil}
use os_lab_project.Sched.Steal.Places.{times, queued, IsQueue}
use os_lab_project.Sched.Steal.Moves.{Placed, Good, is_over, over_count, below}
use os_lab_project.Sched.Steal.Steady.{has_come}
use os_lab_project.Sched.Steal.Marks.{Marked, rounds-Marked, start_steal-Marked}
use os_lab_project.Sched.Steal.Run.{Valid, rounds-Valid, rounds-over}

abbrev pub steal_facts : Facts
steal_facts = record { Fit = λ p. Unit {0}; Measured = MeasuredWithoutIo }

length-idle_cores : (c n : ℕ) → length (idle_cores c n) ≡ n
unfolding idle_cores
length-idle_cores c zero = refl
length-idle_cores c (suc n) = ap suc (length-idle_cores (c + 1) n)

nothing_over : (ps : List Process) → All (λ p. pos 0 <ℤ p.remaining_time) ps → over_count ps ≡ 0
nothing_over [] h = refl
nothing_over (p ∷ ps) h = ground (arith, h.0, nothing_over ps h.1)

over_count-le : (ps : List Process) → over_count ps ≤ length ps
over_count-le [] = omega arith
over_count-le (p ∷ ps) = ground (arith, over_count-le ps)

everything_over : (ps : List Process) → length ps ≤ over_count ps → All (λ p. is_over p ≡ true) ps
everything_over [] h = tt
everything_over (p ∷ ps) h =
    (ground (arith, over_count-le ps), everything_over ps (ground (arith, over_count-le ps)))

module _ (blank : List ℕ) (whole : length blank ≡ 100) where
  nothing_queued : (n i : ℕ) → queued (empty_queues blank n) i ≡ 0
  unfolding empty_queues
  nothing_queued zero i = refl
  nothing_queued (suc n) i = omega (arith, ap (times i) (slice-nil blank 0), nothing_queued n i)

  empty_queues-IsQueue : (m n : ℕ) → All (IsQueue m) (empty_queues blank n)
  unfolding empty_queues
  empty_queues-IsQueue m zero = tt
  empty_queues-IsQueue m (suc n) = (
    (record { extent = refl; inside = omega arith }, whole, omega arith),
    empty_queues-IsQueue m n,
  )

  length-empty_queues : (n : ℕ) → length (empty_queues blank n) ≡ n
  unfolding empty_queues
  length-empty_queues n = length-replicate n _

  -- A process that has not arrived.
  Placed-away :
      (n i : ℕ) (p : Process)
      → p.pid ≢ minus_one
      → pos 0 <ℤ p.remaining_time
      → Placed (empty_queues blank n) (idle_cores 0 n) i p false
  Placed-away n i p named more = record {
    named = named;
    placed = omega (arith, nothing_queued n i, idle_cores-free 0 n p.pid named);
    nonneg = omega arith;
    measured = λ over. absurd (ground arith);
  }

  start_steal-Good :
      (n : ℕ) (ps : List Process)
      → IsInput steal_facts ps
      → Good (pids ps) n 0 (start_steal blank n ps)
  unfolding start_steal
  start_steal-Good n ps input = record {
    same = refl;
    flags = length-replicate 100 false;
    table = λ i p f at.
        subst (λ b. Placed (empty_queues blank n) (idle_cores 0 n) i p b)
          (sym (get_elem?-replicate 100 i false f at.1))
          (Placed-away n i p (pid_at (λ a. a ≢ minus_one) ps i p input.named at.0)
            (All-get (λ q. pos 0 <ℤ q.remaining_time) ps i p input.positive at.0));
    known = λ i h. nothing_queued n i;
    counted = sym (nothing_over ps input.positive);
    crews = idle_cores-IsCore (pids ps) 0 n;
    deques = empty_queues-IsQueue _ n;
    queue_each = length-empty_queues n;
    core_each = length-idle_cores 0 n;
    clock = refl;
  }

start-Valid :
    (blank : List ℕ)
    → length blank ≡ 100
    → (n : ℕ) (ps : List Process) → IsInput steal_facts ps
    → Valid (pids ps) n (start_steal blank n ps)
unfolding start_steal
start-Valid blank whole n ps input = start_steal-Good blank whole n ps input

-- A process whose time of arrival has passed and that has work left is in one place: in one queue,
-- once, or on one CPU. Every other process is in no place.
abbrev pub InOnePlace : State → Type 0
InOnePlace s =
    (i : ℕ) (p : Process)
    → get_elem? s.processes i ≡ some p
    → queued s.queues i + count s.cores p.pid ≡ bit (has_come s.time p && not (is_over p))

-- Every process is over, with its metrics, or the time is.
abbrev pub Finished : State → Type 0
Finished s =
    ((i : ℕ) (p : Process)
      → get_elem? s.processes i ≡ some p
      → (p.remaining_time ≡ pos 0) × MeasuredWithoutIo p)
    ⊎ (max_time ≤ s.time)

module _ (ids : List ℤ) (n : ℕ) (fits : length ids ≤ 100) where
  flag-At :
      (s : State) (i : ℕ) (p : Process)
      → Valid ids n s
      → get_elem? s.processes i ≡ some p
      → (f : Bool) × At s.processes s.arrived i p f
  flag-At s i p g there =
      let (f, flag) = get_elem?_of_lt s.arrived i (
        omega
          (arith, g.flags, below s.processes i there, length-pids s.processes, ap length g.same)) in
      (f, (there, flag))

  Valid-InOnePlace : (s : State) → Valid ids n s × Marked s → InOnePlace s
  Valid-InOnePlace s (g, marked) i p there =
      let (f, at) = flag-At s i p g there in
      (g.table i p f at).placed ∙ ap (λ b. bit (b && not (is_over p))) (marked i p f at)

  Valid-Finished :
      (s : State)
      → Valid ids n s
      → (ltb s.completed (length ids) && ltb s.time max_time) ≡ false
      → Finished s
  Valid-Finished s g over = elim (Bool-cases (ltb s.time max_time)) [
    | inl early ↦
        let all =
          everything_over s.processes
            (ground (arith, g.counted, length-pids s.processes, ap length g.same)) in
        inl λ i p there.
          let (f, at) = flag-At s i p g there in
          let done = All-get (λ q. is_over q ≡ true) s.processes i p all there in
          ((==ℤ_iff _ _).0 done, ((g.table i p f at).measured done).1)
    | inr late ↦ inr (ground arith)
  ]

-- With one CPU at least, the work stealing simulation returns on every valid input, with no access
-- out of range, whatever the queues' arrays hold at the start: no queue takes more than its 100
-- entries. It has the processes of the input, and unless the 1000 units of time are over each has
-- run to its end, with turnaround = completion - arrival and waiting = turnaround - burst; the I/O
-- wait is not taken off.
pub run_work_steal-Finished :
    (blank : List ℕ) (num_cpus : ℕ) (ps : List Process)
    → length blank ≡ 100
    → 0 < num_cpus
    → IsInput steal_facts ps
    → Runs (run_work_steal blank num_cpus ps) (λ s. (pids s.processes ≡ pids ps) × Finished s)
unfolding run_work_steal start_steal
run_work_steal-Finished blank num_cpus ps whole some_cpu input =
    let same : length ps ≡ length (pids ps) = length-pids ps in
    let fits : length (pids ps) ≤ 100 = omega (arith, input.fits) in
    Runs-map (rounds (length ps) max_time (start_steal blank num_cpus ps)) _ _
      (rounds-over (pids ps) num_cpus some_cpu input.unique fits (length ps) max_time
        (start_steal blank num_cpus ps) (omega arith)
        (start_steal-Good blank whole num_cpus ps input))
      λ s h. (
        h.0.same,
        Valid-Finished (pids ps) num_cpus fits s h.0
            (subst (λ m. (ltb s.completed m && ltb s.time max_time) ≡ false) same h.1),
      )

-- With one CPU at least, on valid input: after any number of rounds, with arrivals and thefts, a
-- process whose time of arrival, 0 or later, has passed and that has work left stands once in one
-- queue or runs on one CPU, never both, and every other process stands nowhere.
pub steal_rounds-InOnePlace :
    (blank : List ℕ) (num_cpus : ℕ) (ps : List Process) (fuel : ℕ)
    → length blank ≡ 100
    → 0 < num_cpus
    → IsInput steal_facts ps
    → Runs (rounds (length ps) fuel (start_steal blank num_cpus ps)) InOnePlace
steal_rounds-InOnePlace blank num_cpus ps fuel whole some_cpu input =
    let begin = start_steal blank num_cpus ps in
    let same : length ps ≡ length (pids ps) = length-pids ps in
    let fits : length (pids ps) ≤ 100 = omega (arith, input.fits) in
    Runs-map (rounds (length ps) fuel begin) (λ s. Valid (pids ps) num_cpus s × Marked s) InOnePlace
      (Runs-Yields (rounds (length ps) fuel begin) (Valid (pids ps) num_cpus) Marked
        (rounds-Valid (pids ps) num_cpus some_cpu input.unique fits (length ps) fuel begin
          (start-Valid blank whole num_cpus ps input))
        (rounds-Marked (length ps) fuel begin (start_steal-Marked blank num_cpus ps)))
      (Valid-InOnePlace (pids ps) num_cpus fits)
