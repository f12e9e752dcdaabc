-- ===== src/Sched/Tests.antt =====
-- Runs of Group6_Project2's schedulers on three processes: the theorems at concrete inputs.
use mathlib.Core.List.{Perm}
use os_lab_project.Prelude.{
  ℕ, ◌≡◌, refl, true, false, List, [], ◌∷◌, arith, ℤ, pos, minus_one, All, length, inl, inr,
  replicate,
}
use os_lab_project.Sched.{Process, Core, Sim, start, main_loop}
use os_lab_project.Sched.Table.{pids}
use os_lab_project.Sched.Rule.{Runs}
use os_lab_project.Sched.Locks.{Facts}
use os_lab_project.Sched.Policy.{tick}
use os_lab_project.Sched.Policy.Run.{IsInput, Over, Exclusive}
use os_lab_project.Sched.Scan.Best.{Picks}
use os_lab_project.Sched.Fcfs.{run_fcfs}
use os_lab_project.Sched.Fcfs.Sort.{sort}
use os_lab_project.Sched.Fcfs.Metrics.{fcfs_facts, run_fcfs-Over}
use os_lab_project.Sched.Mlfq.{mlfq, run_mlfq, enter_q0}
use os_lab_project.Sched.Mlfq.Order.{InQueue}
use os_lab_project.Sched.Mlfq.Demotion.{mlfq_facts, any_facts, run_mlfq-Over, mlfq_rounds-Exclusive}
use os_lab_project.Sched.Edf.{edf, run_edf}
use os_lab_project.Sched.Edf.Metrics.{edf_facts, run_edf-Over, edf_rounds-Exclusive}
use os_lab_project.Sched.Lottery.{run_lottery}
use os_lab_project.Sched.Lottery.Metrics.{lottery_facts, run_lottery-Over}
use os_lab_project.Sched.Fcfs.{choose as fcfs_choose}
use os_lab_project.Sched.Mlfq.{choose as mlfq_choose}
use os_lab_project.Sched.Edf.{choose as edf_choose, find_worst, no_worst}
use os_lab_project.Sched.Lottery.{choose as lottery_choose}
use os_lab_project.Sched.Fcfs.Order.{Before as FcfsOrder, fcfs_choose-Picks}
use os_lab_project.Sched.Mlfq.Order.{Before as MlfqOrder, mlfq_choose-Picks}
use os_lab_project.Sched.Edf.Order.{Before as EdfOrder, edf_choose-Picks}
use os_lab_project.Sched.Edf.Latest.{Attained, Bounded, find_worst-Attained}
use os_lab_project.Sched.Lottery.Draw.{Drawn, choose-Drawn}
use os_lab_project.Sched.Fcfs.Sort.{IsSorted, sort-IsSorted}

abbrev pub job : ℤ → ℤ → ℤ → ℤ → Process
job pid arrival burst deadline = record {
  pid = pid;
  arrival_time = arrival;
  burst_time = burst;
  remaining_time = burst;
  priority = pos 1;
  deadline = deadline;
  period = pos 0;
  io_wait_time = pos 1;
  completion_time = pos 0;
  turnaround_time = pos 0;
  waiting_time = pos 0;
  deadline_missed = false;
}

abbrev pub jobs : List Process
jobs =
    job (pos 1) (pos 2) (pos 3) (pos 9)
    ∷ job (pos 2) (pos 0) (pos 4) (pos 20)
    ∷ job (pos 3) (pos 0) (pos 1) (pos 4)
    ∷ []

pub jobs-IsInput : (facts : Facts) → All facts.Fit jobs → IsInput facts jobs
jobs-IsInput facts fit = record {
  unique = (((λ e. cc), ((λ e. cc), tt)), (((λ e. cc), tt), (tt, tt)));
  named = ((λ e. cc), ((λ e. cc), ((λ e. cc), tt)));
  positive = (omega arith, (omega arith, (omega arith, tt)));
  fit = fit;
  fits = omega arith;
}

run_fcfs-Over_example :
    Runs (run_fcfs 2 jobs) (λ w. (pids w.sim.processes ≡ pids (sort jobs)) × Over fcfs_facts w)
run_fcfs-Over_example = run_fcfs-Over 2 jobs (jobs-IsInput fcfs_facts (tt, (tt, (tt, tt))))

run_mlfq-Over_example :
    Runs
      (run_mlfq 2 jobs)
      (λ w. (pids w.sim.processes ≡ pids jobs) × All InQueue w.sim.processes × Over mlfq_facts w)
run_mlfq-Over_example = run_mlfq-Over 2 jobs (jobs-IsInput any_facts (tt, (tt, (tt, tt))))

mlfq_rounds-Exclusive_example :
    Runs (main_loop (tick mlfq) (length (enter_q0 jobs)) 5 (start 2 (enter_q0 jobs))) Exclusive
mlfq_rounds-Exclusive_example =
    mlfq_rounds-Exclusive 2 jobs 5 (jobs-IsInput any_facts (tt, (tt, (tt, tt))))

run_edf-Over_example :
    Runs (run_edf 2 jobs) (λ w. (pids w.sim.processes ≡ pids jobs) × Over edf_facts w)
run_edf-Over_example =
    run_edf-Over 2 jobs (jobs-IsInput edf_facts (omega arith, (omega arith, (omega arith, tt))))

edf_rounds-Exclusive_example : Runs (main_loop (tick edf) (length jobs) 5 (start 2 jobs)) Exclusive
edf_rounds-Exclusive_example =
    edf_rounds-Exclusive 2 jobs 5
      (jobs-IsInput edf_facts (omega arith, (omega arith, (omega arith, tt))))

abbrev rand : ℕ → ℕ
rand k = k

run_lottery-Over_example :
    Runs (run_lottery rand 2 jobs) (λ w. (pids w.sim.processes ≡ pids jobs) × Over lottery_facts w)
run_lottery-Over_example =
    run_lottery-Over rand 2 jobs
      (jobs-IsInput lottery_facts (omega arith, (omega arith, (omega arith, tt))))

abbrev moment : Sim
moment = record {
  time = 1;
  completed = 0;
  deadline_misses = 0;
  draws = 4;
  processes = jobs;
  is_running = false ∷ false ∷ true ∷ [];
}

fcfs_choose-Picks_example : Runs (fcfs_choose moment) (λ out. Picks FcfsOrder moment out.0)
fcfs_choose-Picks_example =
    fcfs_choose-Picks (λ p f. Unit {0}) moment (omega arith) (tt, (tt, (tt, tt)))

mlfq_choose-Picks_example : Runs (mlfq_choose moment) (λ out. Picks MlfqOrder moment out.0)
mlfq_choose-Picks_example =
    mlfq_choose-Picks moment
      ((omega arith, omega arith), ((omega arith, omega arith), ((omega arith, omega arith), tt)))

edf_choose-Picks_example : Runs (edf_choose moment) (λ out. Picks EdfOrder moment out.0)
edf_choose-Picks_example = edf_choose-Picks moment (omega arith, (omega arith, (omega arith, tt)))

choose-Drawn_example : Runs (lottery_choose rand moment) (Drawn rand moment)
choose-Drawn_example = choose-Drawn rand moment (omega arith, (omega arith, (omega arith, tt)))

abbrev cpu : ℕ → ℤ → Core
cpu k pid = record {
  core_id = k;
  current_pid = pid;
  time_left_on_core = pos 0;
  row = replicate 1000 (pos 0);
}

find_worst-Attained_example :
    Runs (find_worst jobs (cpu 0 (pos 3) ∷ cpu 1 minus_one ∷ cpu 2 (pos 2) ∷ []) 0 no_worst) (λ b.
      Attained jobs (cpu 0 (pos 3) ∷ cpu 1 minus_one ∷ cpu 2 (pos 2) ∷ []) b
      × Bounded jobs b.worst_deadline (cpu 0 (pos 3) ∷ cpu 1 minus_one ∷ cpu 2 (pos 2) ∷ []))
find_worst-Attained_example =
    find_worst-Attained jobs (cpu 0 (pos 3) ∷ cpu 1 minus_one ∷ cpu 2 (pos 2) ∷ [])
      (((λ e. cc), ((λ e. cc), tt)), (((λ e. cc), tt), (tt, tt)))
      (
        record { known = inr (inr ((λ e. cc), inr ((λ e. cc), inl refl))); whole = refl },
        (
          record { known = inl refl; whole = refl },
          (record { known = inr (inr ((λ e. cc), inl refl)); whole = refl }, tt),
        ),
      )

sort-IsSorted_example : IsSorted (sort jobs) × Perm (sort jobs) jobs
sort-IsSorted_example = sort-IsSorted jobs
