-- ===== src/Sched.antt =====
-- Group6_Project2/scheduler.h, and the loops that the simulated schedulers of Group6_Project2
-- share: the search for a process by its pid, the scan for the next process, the loops over the
-- CPUs and the main loop. An array access out of range is undefined behaviour, here `none`.
pub mod Table
pub mod Rule
pub mod Locks
pub mod Steps
pub mod Metrics
pub mod Policy
pub mod Scan
pub mod Fcfs
pub mod Mlfq
pub mod Edf
pub mod Lottery
pub mod Steal
pub mod Rms
mod Tests
unfoldable pub use os_lab_project.Prelude.{write}
use os_lab_project.Prelude.{
  ℕ, zero, suc, ◌+◌, Bool, true, false, not, ◌&&◌, Option, none, some, List, [], ◌∷◌, ◌>>=◌, ℤ, pos,
  minus_one, ltb, ltb_ℤ, leb_ℤ, ◌==ℤ◌, ◌+ℤ◌, ◌-ℤ◌, if◌then◌else◌, length, get_elem?, set, replicate,
}

abbrev pub max_time : ℕ
max_time = 1000

-- `struct Process`; the flag `deadline_missed` is a Boolean.
pub record Process : Type 0 where
  pub pid : ℤ
  pub arrival_time : ℤ
  pub burst_time : ℤ
  pub remaining_time : ℤ
  pub priority : ℤ
  pub deadline : ℤ
  pub period : ℤ
  pub io_wait_time : ℤ
  pub completion_time : ℤ
  pub turnaround_time : ℤ
  pub waiting_time : ℤ
  pub deadline_missed : Bool

-- `struct Processor` of CPU c with its row `timeline[c]` of the Gantt chart.
pub record Core : Type 0 where
  pub core_id : ℕ
  pub current_pid : ℤ
  pub time_left_on_core : ℤ
  pub row : List ℤ

-- The local variables of a scheduler that its loops over the CPUs share. `draws` counts the calls
-- of `rand`; `deadline_misses` is EDF's.
pub record Sim : Type 0 where
  pub time : ℕ
  pub completed : ℕ
  pub deadline_misses : ℕ
  pub draws : ℕ
  pub processes : List Process
  pub is_running : List Bool

pub record World : Type 0 where
  pub cores : List Core
  pub sim : Sim

-- The last index with the pid, by the loop without `break`; `none` is -1.
unfoldable pub find_last : ℤ → List Process → ℕ → Option ℕ → Option ℕ
find_last pid [] i best = best
find_last pid (p ∷ ps) i best = find_last pid ps (i + 1) (if p.pid ==ℤ pid then some i else best)

-- `int p_idx = -1; for (...) if (processes[i].pid == pid) p_idx = i;`
unfoldable pub last_index : ℤ → List Process → Option ℕ
unfolding find_last
last_index pid ps = find_last pid ps 0 none

-- The first index with the pid, by the loop with `break`.
unfoldable pub find_first : ℤ → List Process → ℕ → Option ℕ
find_first pid [] i = none
find_first pid (p ∷ ps) i = if p.pid ==ℤ pid then some i else find_first pid ps (i + 1)

-- The same with `break`.
unfoldable pub first_index : ℤ → List Process → Option ℕ
unfolding find_first
first_index pid ps = find_first pid ps 0

-- `arrival_time <= time && remaining_time > 0 && !is_running[i]`, where the list starts at index i.
unfoldable pub is_eligible : ℤ → Process → List Bool → Option Bool
is_eligible time p flags =
    if leb_ℤ p.arrival_time time && ltb_ℤ (pos 0) p.remaining_time
    then elim flags [ [] ↦ none | f ∷ _ ↦ some (not f) ]
    else some false

abbrev pub rest {ℓ} : {A : Type ℓ} → List A → List A
rest [] = []
rest (x ∷ xs) = xs

-- `for (i ...) if (eligible) ...` with what the body does to its variables.
unfoldable pub scan {ℓ} :
    {B : Type ℓ} → (ℕ → Process → B → B) → ℤ → List Process → List Bool → ℕ → B → Option B
unfolding is_eligible
scan body time [] flags i b = some b
scan body time (p ∷ ps) flags i b = do
  e ← is_eligible time p flags
  scan body time ps (rest flags) (i + 1) (if e then body i p b else b)

-- `for (c = 0; c < num_cpus; c++)`, whose body reads and writes only the entries of CPU c.
unfoldable pub for_cores :
    (Core → Sim → Option (Core × Sim)) → List Core → Sim → Option (List Core × Sim)
for_cores body [] s = some ([], s)
for_cores body (c ∷ cs) s =
    body c s >>= λ (c', s'). for_cores body cs s' >>= λ (cs', t). some (c' ∷ cs', t)

abbrev pub on_cores : (Core → Sim → Option (Core × Sim)) → World → Option World
on_cores body w = for_cores body w.cores w.sim >>= λ (cs, s). some (record { cores = cs; sim = s })

-- The metrics of a process that has finished its burst and whose I/O wait follows.
unfoldable pub settle_with_io : ℕ → Process → Process
settle_with_io time p = record p {
  completion_time = completion;
  turnaround_time = turnaround;
  waiting_time = turnaround -ℤ p.burst_time -ℤ p.io_wait_time;
}
  where
    completion : ℤ
    completion = pos time +ℤ p.io_wait_time

    turnaround : ℤ
    turnaround = completion -ℤ p.arrival_time

-- `time++`
unfoldable pub advance : World → World
advance w = record w { sim = record sim { time = sim.time + 1 } }
  where
    open w use {sim}

-- `completed < num_processes && time < MAX_TIME`
unfoldable pub unfinished : ℕ → World → Bool
unfinished n w = ltb w.sim.completed n && ltb w.sim.time max_time

-- The main loop, on fuel: `max_time` rounds are enough (`Rule`).
unfoldable pub main_loop : (World → Option World) → ℕ → ℕ → World → Option World
main_loop tick n zero w = some w
main_loop tick n (suc fuel) w = elim (unfinished n w) [
  | true ↦ tick w >>= main_loop tick n fuel
  | false ↦ some w
]

idle_core : ℕ → Core
idle_core c = record {
  core_id = c;
  current_pid = minus_one;
  time_left_on_core = pos 0;
  row = idle_row;
}
  where
    idle_row : List ℤ
    idle_row = replicate max_time (pos 0)

-- CPUs c, c + 1, ... up to c + n - 1, all idle.
unfoldable pub idle_cores : ℕ → ℕ → List Core
unfolding idle_core
idle_cores c zero = []
idle_cores c (suc n) = idle_core c ∷ idle_cores (c + 1) n

-- `int is_running[100] = {0}` and the other variables at the start.
unfoldable pub start : ℕ → List Process → World
unfolding idle_cores
start num_cpus ps = record {
  cores = idle_cores 0 num_cpus;
  sim = record {
    time = 0;
    completed = 0;
    deadline_misses = 0;
    draws = 0;
    processes = ps;
    is_running = replicate 100 false;
  };
}
