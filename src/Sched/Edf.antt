-- ===== src/Sched/Edf.antt =====
-- Group6_Project2/edf.c: the earliest deadline first, with preemption by a process that arrives.
pub mod Order
pub mod Latest
pub mod Preempt
pub mod Metrics
use os_lab_project.Prelude.{
  ℕ, ◌+◌, ◌&&◌, Bool, true, false, Option, none, some, List, [], ◌∷◌, ◌>>=◌, ℤ, pos, minus_one,
  ltb_ℤ, ◌==ℤ◌, if◌then◌else◌, get_elem?, set,
}
use os_lab_project.Sched.{Process, Core, Sim, World, write, first_index, scan, settle_with_io}
use os_lab_project.Sched.Policy.{
  Policy, Verdict, stays, finishes, simulate, spend_found, chart_zero,
}

-- The metrics of a finished process, with the flag of a missed deadline.
unfoldable pub close_account : ℕ → Process → Process
unfolding settle_with_io
close_account time p =
    let q = settle_with_io time p in
    if ltb_ℤ q.deadline q.completion_time then record q { deadline_missed = true } else q

-- STEP 1: a process whose burst is over leaves its CPU, and a missed deadline is counted.
unfoldable pub judge : Core → Sim → Process → Verdict
unfolding close_account
judge c s p =
    if p.remaining_time ==ℤ pos 0
    then (let q = close_account s.time p in finishes q (ltb_ℤ q.deadline q.completion_time))
    else stays

-- `worst_cpu` (`none` is -1) and `worst_deadline`.
pub record Worst : Type 0 where
  pub worst_cpu : Option ℕ
  pub worst_deadline : ℤ

abbrev pub no_worst : Worst
no_worst = record { worst_cpu = none; worst_deadline = minus_one }

-- The loop that finds the CPU whose process has the latest deadline, from CPU k on.
unfoldable pub find_worst : List Process → List Core → ℕ → Worst → Option Worst
find_worst ps [] k b = some b
find_worst ps (c ∷ cs) k b =
    let next = first_index c.current_pid ps >>= λ i. get_elem? ps i >>= λ p.
    find_worst ps cs (k + 1) (
      if ltb_ℤ b.worst_deadline p.deadline
      then record { worst_cpu = some k; worst_deadline = p.deadline }
      else b) in
    let skip = find_worst ps cs (k + 1) b in if c.current_pid ==ℤ minus_one then skip else next

-- CPU k is made idle, and the lock of its process is cleared.
unfoldable pub evict : ℕ → World → Option World
evict k w = get_elem? cores k >>= λ c. first_index c.current_pid sim.processes >>= λ i.
    write sim.is_running i false >>= λ flags. some (record {
      cores = set cores k (record c { current_pid = minus_one });
      sim = record sim { is_running = flags };
    })
  where
    open w use {cores, sim}

-- The new process preempts the latest deadline, if its own is earlier.
unfoldable pub answer : Process → World → ℤ → Option ℕ → Option World
unfolding evict
answer p w worst_deadline none = some w
answer p w worst_deadline (some k) = if ltb_ℤ p.deadline worst_deadline then evict k w else some w

unfoldable pub challenge : Process → World → Option World
unfolding find_worst answer
challenge p w =
    find_worst w.sim.processes w.cores 0 no_worst >>= λ b. answer p w b.worst_deadline b.worst_cpu

-- STEP 2 at process i.
unfoldable pub preempt_for : ℕ → Process → World → Option World
unfolding challenge
preempt_for i p w =
    if (p.arrival_time ==ℤ pos w.sim.time) && ltb_ℤ (pos 0) p.remaining_time
    then (get_elem? w.sim.is_running i >>= λ r. if r then some w else challenge p w)
    else some w

-- STEP 2 from process i on. It changes no process.
unfoldable pub preempt_from : ℕ → List Process → World → Option World
unfolding preempt_for
preempt_from i [] w = some w
preempt_from i (p ∷ ps) w = preempt_for i p w >>= preempt_from (i + 1) ps

unfoldable pub preempt : World → Option World
unfolding preempt_from
preempt w = preempt_from 0 w.sim.processes w

-- `best_idx` with `processes[best_idx]`, and `earliest_deadline`.
pub record Choice : Type 0 where
  pub best : Option (ℕ × Process)
  pub earliest_deadline : ℤ

abbrev pub no_choice : Choice
no_choice = record { best = none; earliest_deadline = pos 999999 }

-- The body of STEP 3's scan at an eligible process.
unfoldable pub prefer : ℕ → Process → Choice → Choice
prefer i p b =
    if ltb_ℤ p.deadline b.earliest_deadline
    then record { best = some (i, p); earliest_deadline = p.deadline }
    else b

-- STEP 3's scan.
unfoldable pub choose : Sim → Option (Option (ℕ × Process) × ℕ)
unfolding scan prefer
choose s =
    scan prefer (pos s.time) s.processes s.is_running 0 no_choice >>= λ b. some (b.best, s.draws)

unfoldable pub edf : Policy
unfolding judge preempt choose first_index spend_found chart_zero
edf = record {
  find = first_index;
  judge = judge;
  preempt = preempt;
  choose = choose;
  spend = spend_found first_index;
  chart_idle = chart_zero;
  slice = λ p left. left;
  charge = λ left. left;
}

unfoldable pub run_edf : ℕ → List Process → Option World
unfolding edf simulate
run_edf num_cpus ps = simulate edf num_cpus ps
