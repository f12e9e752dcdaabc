-- ===== src/Sched/Fcfs.antt =====
-- Group6_Project2/fcfs.c: first come, first served.
pub mod Sort
pub mod Order
pub mod Metrics
use os_lab_project.Prelude.{
  ℕ, ◌&&◌, Bool, true, false, Option, none, some, List, ◌>>=◌, ℤ, pos, ltb_ℤ, ◌==ℤ◌, ◌-ℤ◌,
  if◌then◌else◌,
}
use os_lab_project.Sched.{Process, Core, Sim, World, last_index, scan, settle_with_io}
use os_lab_project.Sched.Policy.{
  Policy, Verdict, stays, finishes, simulate, spend_found, chart_zero,
}
use Sort.{sort}

-- STEP 1: only a process whose burst is over leaves its CPU.
unfoldable pub judge : Core → Sim → Process → Verdict
unfolding settle_with_io
judge c s p = if p.remaining_time ==ℤ pos 0 then finishes (settle_with_io s.time p) false else stays

-- `best_idx` with `processes[best_idx]`, and `earliest_arrival`.
pub record Choice : Type 0 where
  pub best : Option (ℕ × Process)
  pub earliest_arrival : ℤ

abbrev pub no_choice : Choice
no_choice = record { best = none; earliest_arrival = pos 9999 }

-- `best_idx != -1 && processes[i].pid < processes[best_idx].pid`
abbrev pub beats_best : Process → Option (ℕ × Process) → Bool
beats_best p none = false
beats_best p (some (j, q)) = ltb_ℤ p.pid q.pid

-- The body of STEP 2's scan at an eligible process.
unfoldable pub prefer : ℕ → Process → Choice → Choice
prefer i p b =
    if ltb_ℤ p.arrival_time b.earliest_arrival
    then record { best = some (i, p); earliest_arrival = p.arrival_time }
    else if p.arrival_time ==ℤ b.earliest_arrival && beats_best p b.best
    then record b { best = some (i, p) }
    else b

-- STEP 2's scan.
unfoldable pub choose : Sim → Option (Option (ℕ × Process) × ℕ)
unfolding scan prefer
choose s =
    scan prefer (pos s.time) s.processes s.is_running 0 no_choice >>= λ b. some (b.best, s.draws)

unfoldable pub fcfs : Policy
unfolding judge choose last_index spend_found chart_zero
fcfs = record {
  find = last_index;
  judge = judge;
  preempt = some;
  choose = choose;
  spend = spend_found last_index;
  chart_idle = chart_zero;
  slice = λ p left. p.remaining_time;
  charge = λ left. left -ℤ pos 1;
}

unfoldable pub run_fcfs : ℕ → List Process → Option World
unfolding fcfs simulate sort
run_fcfs num_cpus ps = simulate fcfs num_cpus (sort ps)
