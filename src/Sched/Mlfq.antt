-- ===== src/Sched/Mlfq.antt =====
-- Group6_Project2/mlfq.c: three queues, with a quantum and a demotion.
pub mod Order
pub mod Demotion
use os_lab_project.Prelude.{
  ℕ, ◌&&◌, false, Option, none, some, List, map, ◌>>=◌, ℤ, pos, ltb_ℤ, ◌==ℤ◌, ◌+ℤ◌, ◌-ℤ◌,
  if◌then◌else◌,
}
use os_lab_project.Sched.{Process, Core, Sim, World, last_index, scan, settle_with_io}
use os_lab_project.Sched.Policy.{
  Policy, Verdict, stays, finishes, yields, simulate, spend_found, chart_zero,
}

abbrev pub q0_quantum : ℤ
q0_quantum = pos 2

abbrev pub q1_quantum : ℤ
q1_quantum = pos 4

abbrev pub q2_quantum : ℤ
q2_quantum = pos 999

-- The demotion of a process whose quantum is over.
unfoldable pub demote : Process → Process
demote p = if ltb_ℤ p.priority (pos 2) then record p { priority = p.priority +ℤ pos 1 } else p

-- STEP1: a process leaves its CPU when its burst is over, or else when its quantum is.
unfoldable pub judge : Core → Sim → Process → Verdict
unfolding settle_with_io demote
judge c s p =
    if p.remaining_time ==ℤ pos 0
    then finishes (settle_with_io s.time p) false
    else if c.time_left_on_core ==ℤ pos 0
    then yields (demote p)
    else stays

-- `best_idx` with `processes[best_idx]`, `best_priority` and `earliest_arrival`.
pub record Choice : Type 0 where
  pub best : Option (ℕ × Process)
  pub best_priority : ℤ
  pub earliest_arrival : ℤ

abbrev pub no_choice : Choice
no_choice = record { best = none; best_priority = pos 999; earliest_arrival = pos 9999 }

-- The body of STEP2's scan at an eligible process.
unfoldable pub prefer : ℕ → Process → Choice → Choice
prefer i p b =
    if ltb_ℤ p.priority b.best_priority
    then record {
      best = some (i, p);
      best_priority = p.priority;
      earliest_arrival = p.arrival_time;
    }
    else if p.priority ==ℤ b.best_priority && ltb_ℤ p.arrival_time b.earliest_arrival
    then record b { best = some (i, p); earliest_arrival = p.arrival_time }
    else b

-- STEP2's scan.
unfoldable pub choose : Sim → Option (Option (ℕ × Process) × ℕ)
unfolding scan prefer
choose s =
    scan prefer (pos s.time) s.processes s.is_running 0 no_choice >>= λ b. some (b.best, s.draws)

-- The quantum of the queue of the process.
unfoldable pub quantum : Process → ℤ → ℤ
quantum p left =
    if p.priority ==ℤ pos 0
    then q0_quantum
    else if p.priority ==ℤ pos 1
    then q1_quantum
    else q2_quantum

unfoldable pub mlfq : Policy
unfolding judge choose quantum last_index spend_found chart_zero
mlfq = record {
  find = last_index;
  judge = judge;
  preempt = some;
  choose = choose;
  spend = spend_found last_index;
  chart_idle = chart_zero;
  slice = quantum;
  charge = λ left. left -ℤ pos 1;
}

-- `processes[i].priority = 0`
unfoldable pub enter_q0 : List Process → List Process
enter_q0 = map (λ (p : Process). record p { priority = pos 0 })

unfoldable pub run_mlfq : ℕ → List Process → Option World
unfolding mlfq simulate enter_q0
run_mlfq num_cpus ps = simulate mlfq num_cpus (enter_q0 ps)
