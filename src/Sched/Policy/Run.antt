-- ===== src/Sched/Policy/Run.antt =====
-- A whole run of the main loop under a sound policy.
use os_lab_project.Prelude.{
  ℕ, zero, suc, ◌+◌, ◌≤◌, ◌≡◌, refl, sym, ap, ◌∙◌, ◌≢◌, ◌⊎◌, inl, inr, Bool, true, false, List, [],
  ◌∷◌, arith, ℤ, pos, minus_one, ◌<ℤ◌, eq_of_parts, ltb, bit, length, All, Bool-cases, replicate,
}
use os_lab_project.Sched.{
  Process, World, max_time, main_loop, start, unfinished, idle_cores, idle_core,
}
use os_lab_project.Sched.Table.{Unique, pids, length-pids, Each}
use os_lab_project.Sched.Rule.{
  Runs, Runs-map, count, Counts, nobody, main_loop_keeps, main_loop_rule,
}
use os_lab_project.Sched.Locks.{Facts, Entry, IsCore, is_done, done_count}
use os_lab_project.Sched.Steps.{hit_of_idle}
use os_lab_project.Sched.Policy.{Policy, tick, simulate}
use os_lab_project.Sched.Policy.Laws.{IsSound}
use os_lab_project.Sched.Policy.Round.{Good, tick-Good}

-- What the processes of a run have to satisfy: their pids differ and none is -1, each has time to
-- run, and there are no more than the entries of `is_running`.
pub record IsInput (facts : Facts) (ps : List Process) : Type 0 where
  pub unique : Unique (pids ps)
  pub named : All (λ a. a ≢ minus_one) (pids ps)
  pub positive : All (λ p. pos 0 <ℤ p.remaining_time) ps
  pub fit : All facts.Fit ps
  pub fits : length ps ≤ 100

-- No process runs on two CPUs.
abbrev pub Exclusive : World → Type 0
Exclusive w = All (λ p. count w.cores p.pid ≤ 1) w.sim.processes

-- The loop is over: every process is complete, or the time is.
abbrev pub Over : Facts → World → Type 0
Over facts w =
    All (λ p. (p.remaining_time ≡ pos 0) × facts.Measured p) w.sim.processes
    ⊎ (max_time ≤ w.sim.time)

module _ (facts : Facts) where
  All-fresh :
      (k : Counts) (n : ℕ) (ps : List Process)
      → ((a : ℤ) → a ≢ minus_one → k a ≡ 0)
      → length ps ≤ n
      → All (λ a. a ≢ minus_one) (pids ps)
      → All (λ p. pos 0 <ℤ p.remaining_time) ps
      → All facts.Fit ps
      → Each (Entry facts nobody k) ps (replicate n false) × (0 ≡ done_count ps (replicate n false))
  All-fresh k n [] free fits named positive fit = (tt, refl)
  All-fresh k zero (p ∷ ps) free fits named positive fit = absurd (omega arith)
  All-fresh k (suc n) (p ∷ ps) free fits named positive fit =
      let (each, none_done) = All-fresh k n ps free (omega arith) named.1 positive.1 fit.1 in
      (
        (
          record {
            named = named.0;
            locked = free p.pid named.0;
            fit = fit.0;
            nonneg = omega (arith, positive.0);
            working = λ h. positive.0;
            measured = λ h. absurd (ground (arith, positive.0));
          },
          each,
        ),
        ground (arith, positive.0),
      )

  All-of-Each :
      {P : Process → Bool → Type 0} {Q : Process → Type 0} (ps : List Process) (fs : List Bool)
      → ((p : Process) (f : Bool) → P p f → Q p)
      → Each P ps fs
      → All Q ps
  All-of-Each [] fs imp e = tt
  All-of-Each (p ∷ ps) [] imp e = absurd e
  All-of-Each (p ∷ ps) (f ∷ fs) imp e = (imp p f e.0, All-of-Each ps fs imp e.1)

pub idle_cores-free : (c n : ℕ) (a : ℤ) → a ≢ minus_one → count (idle_cores c n) a ≡ 0
unfolding idle_cores
idle_cores-free c zero a h = refl
idle_cores-free c (suc n) a h =
    omega (arith, hit_of_idle (idle_core c) a refl h, idle_cores-free (c + 1) n a h)

pub idle_cores-IsCore : (ids : List ℤ) (c n : ℕ) → All (IsCore ids) (idle_cores c n)
unfolding idle_cores
idle_cores-IsCore ids c zero = tt
idle_cores-IsCore ids c (suc n) =
    (record { known = inl refl; whole = refl }, idle_cores-IsCore ids (c + 1) n)

module _ (facts : Facts) where
  -- The first world of a run on valid input.
  start-Good :
      (num_cpus : ℕ) (ps : List Process)
      → IsInput facts ps
      → Good facts (pids ps) (start num_cpus ps)
  unfolding start
  start-Good num_cpus ps input =
      let k = count (idle_cores 0 num_cpus) in
      let (each, none_done) =
        All-fresh facts k 100 ps (idle_cores-free 0 num_cpus) input.fits input.named input.positive
          input.fit in
      record {
        cores = idle_cores-IsCore (pids ps) 0 num_cpus;
        locked = record { same = refl; table = each; counted = none_done };
      }

  Good-Exclusive : (ids : List ℤ) (w : World) → Good facts ids w → Exclusive w
  Good-Exclusive ids w g =
      All-of-Each facts w.sim.processes w.sim.is_running (λ p f e. at_most_one f e.locked)
        g.locked.table
    where
      at_most_one : {a : ℕ} (f : Bool) → a ≡ bit f → a ≤ 1
      at_most_one true e = omega arith
      at_most_one false e = omega arith

  -- If as many are done as there are processes, then each is.
  done_count-le : (ps : List Process) (fs : List Bool) → done_count ps fs ≤ length ps
  done_count-le [] fs = omega arith
  done_count-le (p ∷ ps) [] = omega arith
  done_count-le (p ∷ ps) (f ∷ fs) = ground (arith, done_count-le ps fs)

  All-done :
      (busy k : Counts) (ps : List Process) (fs : List Bool)
      → length ps ≤ done_count ps fs
      → Each (Entry facts busy k) ps fs
      → All (λ p. (p.remaining_time ≡ pos 0) × facts.Measured p) ps
  All-done busy k [] fs full e = tt
  All-done busy k (p ∷ ps) [] full e = absurd e
  All-done busy k (p ∷ ps) (f ∷ fs) full e =
      let done : is_done p f ≡ true = ground (arith, done_count-le ps fs) in
      (
        (eq_of_parts p.remaining_time (pos 0) (ground arith), e.0.measured done),
        All-done busy k ps fs (ground (arith, done_count-le ps fs)) e.1,
      )

  Good-Over :
      (ps : List Process) (w : World)
      → Good facts (pids ps) w
      → unfinished (length ps) w ≡ false
      → Over facts w
  unfolding unfinished
  Good-Over ps w g over = elim (Bool-cases (ltb w.sim.time max_time)) [
    | inl early ↦
        let sizes = length-pids w.sim.processes ∙ ap length g.locked.same ∙ sym (length-pids ps) in
        inl (
          All-done nobody (count w.cores) w.sim.processes w.sim.is_running
            (ground (arith, sizes, g.locked.counted)) g.locked.table)
    | inr late ↦ inr (ground arith)
  ]

module _ {facts : Facts} (policy : Policy) (sound : IsSound facts policy) (num_cpus : ℕ)
    (ps : List Process) (input : IsInput facts ps) where
  round :
      (w : World)
      → Good facts (pids ps) w
      → unfinished (length ps) w ≡ true
      → Runs (tick policy w) (λ v. Good facts (pids ps) v × (v.sim.time ≡ w.sim.time + 1))
  unfolding unfinished
  round w g more = tick-Good policy sound (pids ps) input.unique w (ground arith) g

  -- After any number of rounds the run has made no access out of range, and each process is on
  -- one CPU at most.
  pub main_loop-Exclusive :
      (rounds : ℕ) → Runs (main_loop (tick policy) (length ps) rounds (start num_cpus ps)) Exclusive
  main_loop-Exclusive rounds =
      Runs-map _ (Good facts (pids ps)) Exclusive
        (main_loop_keeps (Good facts (pids ps)) (tick policy) (length ps) round rounds
          (start num_cpus ps) (start-Good facts num_cpus ps input))
        (Good-Exclusive facts (pids ps))

  -- The run returns. It has the processes of its input, and is over.
  pub simulate-Over :
      Runs
        (simulate policy num_cpus ps)
        (λ w. (pids w.sim.processes ≡ pids ps) × All facts.Fit w.sim.processes × Over facts w)
  unfolding simulate
  simulate-Over =
      Runs-map _ (λ w. Good facts (pids ps) w × (unfinished (length ps) w ≡ false)) _
        (main_loop_rule (Good facts (pids ps)) (tick policy) (length ps) round (start num_cpus ps)
          (start-Good facts num_cpus ps input))
        λ w done. (
          done.0.locked.same,
          All-of-Each facts w.sim.processes w.sim.is_running (λ p f e. e.fit) done.0.locked.table,
          Good-Over facts ps w done.0 done.1,
        )
