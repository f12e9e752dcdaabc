-- ===== src/Sched/Edf/Metrics.antt =====
-- The policy of edf.c and its runs: the metrics and the missed deadlines.
use os_lab_project.Prelude.{
  ℕ, ◌≡◌, refl, true, List, arith, pos, ◌==ℤ◌, ==ℤ_iff, ==ℤ_ne, ltb_ℤ, ◌<ℤ◌, Bool-cases, inl, inr,
  length,
}
use os_lab_project.Sched.{first_index, Process, Sim, Core, start, main_loop, settle_with_io}
use os_lab_project.Sched.Table.{pids, first_index-Finds}
use os_lab_project.Sched.Rule.{Runs, Runs-map}
use os_lab_project.Sched.Locks.{Facts}
use os_lab_project.Sched.Metrics.{MeasuredWithIo}
use os_lab_project.Sched.Policy.{tick, simulate}
use os_lab_project.Sched.Policy.Laws.{Keeps, IsSound, Judges, spend_found-one, chart_zero-length}
use os_lab_project.Sched.Policy.Run.{IsInput, Over, Exclusive, simulate-Over, main_loop-Exclusive}
use os_lab_project.Sched.Scan.Best.{Picks-Chooses}
use os_lab_project.Sched.Edf.{judge, close_account, choose, edf, run_edf}
use os_lab_project.Sched.Edf.Order.{Before, HasDeadline, edf_choose-Picks}
use os_lab_project.Sched.Edf.Preempt.{preempt-Between}

-- The metrics of the README, and a completion after the deadline is marked.
abbrev pub Accounted : Process → Type 0
Accounted p = MeasuredWithIo p × (p.deadline <ℤ p.completion_time → p.deadline_missed ≡ true)

abbrev pub edf_facts : Facts
edf_facts = record { Fit = HasDeadline; Measured = Accounted }

close_account-Accounted :
    (time : ℕ) (p : Process)
    → Keeps edf_facts p (close_account time p) × Accounted (close_account time p)
unfolding close_account
close_account-Accounted time p =
    let q = settle_with_io time p in
    elim (Bool-cases (ltb_ℤ q.deadline q.completion_time)) [
      | inl late ↦ rw late ((refl, refl, λ h. h), ((refl, refl), λ _. refl))
      | inr met ↦ rw met ((refl, refl, λ h. h), ((refl, refl), λ h. absurd (ground arith)))
    ]

judge-Judges : (c : Core) (s : Sim) (p : Process) → Judges edf_facts p (judge c s p)
unfolding judge
judge-Judges c s p = elim (Bool-cases (p.remaining_time ==ℤ pos 0)) [
  | inl over ↦
      let (keeps, accounted) = close_account-Accounted s.time p in
      rw over ((==ℤ_iff _ _).0 over, keeps, accounted)
  | inr more ↦ rw more (==ℤ_ne more)
]

edf-IsSound : IsSound edf_facts edf
unfolding edf
edf-IsSound = record {
  finds = first_index-Finds;
  judges = judge-Judges;
  spends_one = λ a ps i p u found there same. spend_found-one first_index a ps i p found there;
  charts_idle = chart_zero-length;
  spends = λ p h. h;
  preempts = λ ids time w u b. preempt-Between edf_facts ids time w u b;
  chooses = λ s early each.
      Runs-map (choose s) _ _ (edf_choose-Picks s each) (λ out. Picks-Chooses Before s out.0);
}

-- EDF returns on every valid input whose deadlines lie below 999999, with no access out of range.
-- It has the processes of the input, and unless the 1000 units of time are over each has run to
-- its end, with turnaround = completion - arrival, waiting = turnaround - burst - I/O wait, and
-- the mark of a missed deadline if it completed after it.
pub run_edf-Over :
    (num_cpus : ℕ) (ps : List Process)
    → IsInput edf_facts ps
    → Runs (run_edf num_cpus ps) (λ w. (pids w.sim.processes ≡ pids ps) × Over edf_facts w)
unfolding run_edf
run_edf-Over num_cpus ps input =
    Runs-map (simulate edf num_cpus ps) _ _ (simulate-Over edf edf-IsSound num_cpus ps input)
      λ w done. (done.0, done.2)

-- On valid input whose deadlines lie below 999999: after any number of rounds, preemptions
-- included, no access was out of range and no process runs on two CPUs.
pub edf_rounds-Exclusive :
    (num_cpus : ℕ) (ps : List Process) (rounds : ℕ)
    → IsInput edf_facts ps
    → Runs (main_loop (tick edf) (length ps) rounds (start num_cpus ps)) Exclusive
edf_rounds-Exclusive num_cpus ps rounds input =
    main_loop-Exclusive edf edf-IsSound num_cpus ps input rounds
