-- ===== src/Sched/Policy.antt =====
-- The round of the main loop that fcfs.c, mlfq.c, edf.c and lottery.c have in common, over what
-- each of them does differently. Every function visits one CPU.
pub mod Laws
pub mod Phases
pub mod Round
pub mod Run
use os_lab_project.Prelude.{
  ℕ, zero, suc, ◌+◌, ◌≡◌, Bool, true, false, ◌&&◌, Option, none, some, List, [], ◌∷◌, ◌>>=◌, ℤ, pos,
  minus_one, ltb_ℤ, ◌==ℤ◌, ◌-ℤ◌, if◌then◌else◌, length, get_elem?, set, bit,
}
use os_lab_project.Sched.{
  Process, Core, Sim, World, max_time, write, on_cores, advance, main_loop, start,
}

-- What becomes of the process of a busy CPU at the start of a round. It is written back as the
-- process given; `finishes` says whether a missed deadline is counted.
pub data Verdict : Type 0 where
  stays : Verdict
  finishes : Process → Bool → Verdict
  yields : Process → Verdict

pub record Policy : Type 0 where
  -- the index of a pid
  pub find : ℤ → List Process → Option ℕ
  pub judge : Core → Sim → Process → Verdict
  -- what the code does between the completions and the assignments
  pub preempt : World → Option World
  -- the next process, with its index, and the number of random draws made so far
  pub choose : Sim → Option (Option (ℕ × Process) × ℕ)
  -- one unit of time for the process with the pid
  pub spend : ℤ → List Process → Option (List Process)
  -- the chart's row of an idle CPU
  pub chart_idle : List ℤ → ℕ → Option (List ℤ)
  -- `time_left_on_core` when a CPU takes a process, and after a unit of time
  pub slice : Process → ℤ → ℤ
  pub charge : ℤ → ℤ

-- `processes[i].remaining_time--`
abbrev pub spend_unit : Process → Process
spend_unit p = record p { remaining_time = p.remaining_time -ℤ pos 1 }

-- The search for the index, and the decrement there.
unfoldable pub spend_found :
    (ℤ → List Process → Option ℕ) → ℤ → List Process → Option (List Process)
spend_found find pid ps =
    find pid ps >>= λ i. get_elem? ps i >>= λ p. some (set ps i (spend_unit p))

-- `timeline[c][time] = 0`
unfoldable pub chart_zero : List ℤ → ℕ → Option (List ℤ)
chart_zero row time = write row time (pos 0)

module _ (policy : Policy) where
  open policy use {find, judge, preempt, choose, spend, chart_idle, slice, charge}

  unfoldable pub settle : Core → Sim → ℕ → Verdict → Option (Core × Sim)
  settle c s i stays = some (c, s)
  settle c s i (finishes p late) = write s.is_running i false >>= λ flags. some (
    record c { current_pid = minus_one },
    record s {
      processes = set s.processes i p;
      is_running = flags;
      completed = s.completed + 1;
      deadline_misses = s.deadline_misses + bit late;
    },
  )
  settle c s i (yields p) = write s.is_running i false >>= λ flags. some (
    record c { current_pid = minus_one },
    record s { processes = set s.processes i p; is_running = flags },
  )

  -- STEP 1: finished and expired processes leave their CPU.
  unfoldable pub complete : Core → Sim → Option (Core × Sim)
  unfolding settle
  complete c s =
      if c.current_pid ==ℤ minus_one
      then some (c, s)
      else (find c.current_pid s.processes >>= λ i.
          get_elem? s.processes i >>= λ p. settle c s i (judge c s p))

  unfoldable pub dispatch : Core → Sim → Option (ℕ × Process) → Option (Core × Sim)
  dispatch c s none = some (c, s)
  dispatch c s (some (i, p)) = write s.is_running i true >>= λ flags. some (
    record c { current_pid = p.pid; time_left_on_core = slice p c.time_left_on_core },
    record s { is_running = flags },
  )

  -- An idle CPU takes the next process.
  unfoldable pub assign : Core → Sim → Option (Core × Sim)
  unfolding dispatch
  assign c s =
      if c.current_pid ==ℤ minus_one
      then (choose s >>= λ (o, draws). dispatch c (record s { draws = draws }) o)
      else some (c, s)

  -- One unit of time, and the entry of the chart.
  unfoldable pub execute : Core → Sim → Option (Core × Sim)
  execute c s =
      if c.current_pid ==ℤ minus_one
      then (chart_idle c.row s.time >>= λ row. some (record c { row = row }, s))
      else (write c.row s.time c.current_pid >>= λ row. spend c.current_pid s.processes >>= λ ps.
          some (
            record c { row = row; time_left_on_core = charge c.time_left_on_core },
            record s { processes = ps },
          ))

  unfoldable pub tick : World → Option World
  tick w = on_cores complete w >>= preempt >>= on_cores assign >>= on_cores execute >>= λ v.
      some (advance v)

  unfoldable pub simulate : ℕ → List Process → Option World
  unfolding main_loop tick complete assign execute start advance
  simulate num_cpus ps = main_loop tick (length ps) max_time (start num_cpus ps)
