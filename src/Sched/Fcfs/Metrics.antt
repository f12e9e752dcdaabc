-- ===== src/Sched/Fcfs/Metrics.antt =====
-- The policy of fcfs.c and its runs: the metrics of the README.
use os_lab_project.Prelude.{
  ℕ, ◌≡◌, refl, List, pos, ◌==ℤ◌, ==ℤ_iff, ==ℤ_ne, Bool-cases, inl, inr, length,
}
use os_lab_project.Sched.{last_index, Process, Sim, Core, start, main_loop}
use os_lab_project.Sched.Table.{pids, last_index-Finds}
use os_lab_project.Sched.Rule.{Runs, Runs-map}
use os_lab_project.Sched.Locks.{Facts}
use os_lab_project.Sched.Metrics.{MeasuredWithIo}
use os_lab_project.Sched.Policy.{tick, simulate}
use os_lab_project.Sched.Policy.Laws.{IsSound, Judges, spend_found-one, chart_zero-length}
use os_lab_project.Sched.Policy.Run.{IsInput, Over, Exclusive, simulate-Over, main_loop-Exclusive}
use os_lab_project.Sched.Scan.Best.{Picks-Chooses}
use os_lab_project.Sched.Fcfs.{judge, choose, fcfs, run_fcfs}
use os_lab_project.Sched.Fcfs.Sort.{sort, sort-Unique, All-sort, All-pids-sort, length-sort}
use os_lab_project.Sched.Fcfs.Order.{Before, fcfs_choose-Picks}

abbrev pub fcfs_facts : Facts
fcfs_facts = record { Fit = λ p. Unit {0}; Measured = MeasuredWithIo }

judge-Judges : (c : Core) (s : Sim) (p : Process) → Judges fcfs_facts p (judge c s p)
unfolding judge
judge-Judges c s p = elim (Bool-cases (p.remaining_time ==ℤ pos 0)) [
  | inl over ↦ rw over ((==ℤ_iff _ _).0 over, (refl, refl, λ h. h), (refl, refl))
  | inr more ↦ rw more (==ℤ_ne more)
]

fcfs-IsSound : IsSound fcfs_facts fcfs
unfolding fcfs
fcfs-IsSound = record {
  finds = last_index-Finds;
  judges = judge-Judges;
  spends_one = λ a ps i p u found there same. spend_found-one last_index a ps i p found there;
  charts_idle = chart_zero-length;
  spends = λ p h. h;
  preempts = λ ids time w u b. b;
  chooses = λ s early each.
      Runs-map (choose s) _ _ (fcfs_choose-Picks _ s early each)
        (λ out. Picks-Chooses Before s out.0);
}

fcfs-IsInput : {ps : List Process} → IsInput fcfs_facts ps → IsInput fcfs_facts (sort ps)
fcfs-IsInput input = record {
  unique = sort-Unique _ input.unique;
  named = All-pids-sort _ _ input.named;
  positive = All-sort _ _ input.positive;
  fit = All-sort _ _ input.fit;
  fits = rw length-sort input.fits;
}

-- FCFS returns on every valid input, with no access out of range. It has the processes of the
-- input, and unless the 1000 units of time are over each has run to its end, with
-- turnaround = completion - arrival and waiting = turnaround - burst - I/O wait.
pub run_fcfs-Over :
    (num_cpus : ℕ) (ps : List Process)
    → IsInput fcfs_facts ps
    → Runs (run_fcfs num_cpus ps) (λ w. (pids w.sim.processes ≡ pids (sort ps)) × Over fcfs_facts w)
unfolding run_fcfs
run_fcfs-Over num_cpus ps input =
    Runs-map (simulate fcfs num_cpus (sort ps)) _ _
      (simulate-Over fcfs fcfs-IsSound num_cpus (sort ps) (fcfs-IsInput input))
      λ w done. (done.0, done.2)

-- On valid input: after any number of rounds no access was
-- out of range and no process runs on two CPUs.
fcfs_rounds-Exclusive :
    (num_cpus : ℕ) (ps : List Process) (rounds : ℕ)
    → IsInput fcfs_facts ps
    → Runs (main_loop (tick fcfs) (length (sort ps)) rounds (start num_cpus (sort ps))) Exclusive
fcfs_rounds-Exclusive num_cpus ps rounds input =
    main_loop-Exclusive fcfs fcfs-IsSound num_cpus (sort ps) (fcfs-IsInput input) rounds
