-- ===== src/Sched/Lottery.antt =====
-- Group6_Project2/lottery.c: each ready process holds `priority + 1` tickets, and a draw picks the
-- next one. `rand` is the C library's: the k-th call gives `rand k`, which is not negative.
pub mod Draw
pub mod Metrics
use os_lab_project.Prelude.{
  ℕ, ◌+◌, ◌%◌, Bool, true, false, Option, none, some, List, [], ◌∷◌, map, ◌>>=◌, ℤ, pos, ltb_ℤ,
  ◌==ℤ◌, ◌+ℤ◌, ◌-ℤ◌, if◌then◌else◌, pos_part,
}
use os_lab_project.Sched.{Process, Core, Sim, World, last_index, is_eligible, rest, scan}
use os_lab_project.Sched.Policy.{Policy, Verdict, stays, finishes, simulate, spend_unit}

-- The metrics of a process that finishes; the I/O wait does not enter.
unfoldable pub close_account : ℕ → Process → Process
close_account time p = record p {
  completion_time = pos time;
  turnaround_time = turnaround;
  waiting_time = turnaround -ℤ p.burst_time;
}
  where
    turnaround : ℤ
    turnaround = pos time -ℤ p.arrival_time

-- STEP 1: only a process whose burst is over leaves its CPU.
unfoldable pub judge : Core → Sim → Process → Verdict
unfolding close_account
judge c s p = if p.remaining_time ==ℤ pos 0 then finishes (close_account s.time p) false else stays

-- `total_tickets += (processes[i].priority + 1)`
unfoldable pub add_tickets : ℕ → Process → ℤ → ℤ
add_tickets i p total = total +ℤ (p.priority +ℤ pos 1)

-- The second scan, which stops at the first ready process whose tickets pass the winning one.
unfoldable pub draw_from : ℤ → ℤ → List Process → List Bool → ℕ → ℤ → Option (Option (ℕ × Process))
draw_from time ticket [] flags i sum = some none
draw_from time ticket (p ∷ ps) flags i sum = is_eligible time p flags >>= λ e.
    let sum' = if e then sum +ℤ (p.priority +ℤ pos 1) else sum in
    let onward = draw_from time ticket ps (rest flags) (i + 1) sum' in
    if e then (if ltb_ℤ ticket sum' then some (some (i, p)) else onward) else onward

-- `if (processes[i].pid == pid) processes[i].remaining_time--` for every i
unfoldable pub spend_all : ℤ → List Process → Option (List Process)
spend_all pid ps = some (map (λ p. if p.pid ==ℤ pid then spend_unit p else p) ps)

module _ (rand : ℕ → ℕ) where
  -- STEP 2's draw: no call of `rand` without tickets.
  unfoldable pub choose : Sim → Option (Option (ℕ × Process) × ℕ)
  unfolding scan add_tickets draw_from
  choose s = scan add_tickets (pos s.time) s.processes s.is_running 0 (pos 0) >>= λ total.
      if ltb_ℤ (pos 0) total
      then (draw_from (pos s.time) (pos (rand s.draws % pos_part total)) s.processes s.is_running 0
            (pos 0)
          >>= λ o. some (o, s.draws + 1))
      else some (none, s.draws)

  unfoldable pub lottery : Policy
  unfolding judge choose last_index spend_all
  lottery = record {
    find = last_index;
    judge = judge;
    preempt = some;
    choose = choose;
    spend = spend_all;
    chart_idle = λ row t. some row;
    slice = λ p left. left;
    charge = λ left. left;
  }

  unfoldable pub run_lottery : ℕ → List Process → Option World
  unfolding lottery simulate
  run_lottery num_cpus ps = simulate lottery num_cpus ps
