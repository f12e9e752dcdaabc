-- ===== src/Sched/Steal.antt =====
-- Group6_Project2/work_steal.c: every CPU has its own queue, and an idle CPU whose queue is empty
-- steals from the back of the longest one. An array access out of range is `none`; the index -1
-- is `none` of the Option inside.
pub mod Deque
pub mod Balance
pub mod Choice
pub mod Places
pub mod Moves
pub mod Work
pub mod Execution
pub mod Run
pub mod Steady
pub mod Arrivals
pub mod Marks
pub mod Outcome
mod Tests
use os_lab_project.Prelude.{
  ℕ, zero, suc, ◌+◌, ◌-◌, Bool, true, false, not, ◌&&◌, Option, none, some, List, [], ◌∷◌, ◌>>=◌, ℤ,
  pos, minus_one, ltb, ◌==◌, ◌==ℤ◌, ◌-ℤ◌, if◌then◌else◌, length, get_elem?, set, replicate,
}
use os_lab_project.Sched.{Process, Core, write, first_index, max_time, idle_cores}
use os_lab_project.Sched.Policy.{spend_unit}

pub record CpuQueue : Type 0 where
  pub process_indices : List ℕ
  pub front : ℕ
  pub rear : ℕ
  pub size : ℕ

unfoldable pub push_back : CpuQueue → ℕ → Option CpuQueue
push_back q p_idx = write q.process_indices q.rear p_idx >>= λ xs.
    some (record q { process_indices = xs; rear = q.rear + 1; size = q.size + 1 })

unfoldable pub pop_front : CpuQueue → Option (Option ℕ × CpuQueue)
pop_front q =
    if q.size == 0
    then some (none, q)
    else (get_elem? q.process_indices q.front >>= λ p.
        some (some p, record q { size = q.size - 1; front = q.front + 1 }))

-- `process_indices[--rear]`
unfoldable pub pop_at : CpuQueue → ℕ → Option (Option ℕ × CpuQueue)
pop_at q zero = none
pop_at q (suc r) =
    get_elem? q.process_indices r >>= λ p. some (some p, record q { size = q.size - 1; rear = r })

unfoldable pub pop_back : CpuQueue → Option (Option ℕ × CpuQueue)
unfolding pop_at
pop_back q = if q.size == 0 then some (none, q) else pop_at q q.rear

-- The local variables of `run_work_steal`.
pub record State : Type 0 where
  pub queues : List CpuQueue
  pub cores : List Core
  pub arrived : List Bool
  pub processes : List Process
  pub time : ℕ
  pub completed : ℕ

-- The CPU with the shortest queue, of CPU m and the n CPUs from c on.
unfoldable pub shortest : List CpuQueue → ℕ → ℕ → ℕ → Option ℕ
shortest qs zero c m = some m
shortest qs (suc n) c m = get_elem? qs c >>= λ q.
    get_elem? qs m >>= λ best. shortest qs n (c + 1) (if ltb q.size best.size then c else m)

-- The CPU with the longest queue, of the n CPUs from c on but CPU i; `max_q` and `max_size` so far.
unfoldable pub longest : List CpuQueue → ℕ → ℕ → ℕ → Option ℕ → ℕ → Option (Option ℕ)
longest qs i zero c max_q max_size = some max_q
longest qs i (suc n) c max_q max_size = get_elem? qs c >>= λ q.
    let better = not (c == i) && ltb max_size q.size in
    longest qs i n (c + 1) (if better then some c else max_q) (if better then q.size else max_size)

-- A. Process i joins the shortest queue.
unfoldable pub enqueue : ℕ → State → Option State
unfolding shortest push_back
enqueue i s = shortest s.queues (length s.queues - 1) 1 0 >>= λ min_q.
    get_elem? s.queues min_q >>= λ q. push_back q i >>= λ q'. write s.arrived i true >>= λ arrived.
    some (record s { queues = set s.queues min_q q'; arrived = arrived })

unfoldable pub arrive : ℕ → State → Option State
unfolding enqueue
arrive i s = get_elem? s.processes i >>= λ p.
    if p.arrival_time ==ℤ pos s.time
    then (get_elem? s.arrived i >>= λ a. if a then some s else enqueue i s)
    else some s

-- From the back of the longest queue.
unfoldable pub steal_from : List CpuQueue → Option ℕ → Option (Option ℕ × List CpuQueue)
unfolding pop_back
steal_from qs none = some (none, qs)
steal_from qs (some c) = get_elem? qs c >>= λ q. pop_back q >>= λ (o, q'). some (o, set qs c q')

unfoldable pub steal : ℕ → List CpuQueue → Option (Option ℕ × List CpuQueue)
unfolding longest steal_from
steal i qs = longest qs i (length qs) 0 none 0 >>= steal_from qs

-- What the pop from CPU i's own queue gave; with nothing in it CPU i steals.
unfoldable pub or_steal : ℕ → List CpuQueue → Option ℕ → Option (Option ℕ × List CpuQueue)
unfolding steal
or_steal i qs none = steal i qs
or_steal i qs (some p) = some (some p, qs)

unfoldable pub find_work : ℕ → List CpuQueue → Option (Option ℕ × List CpuQueue)
unfolding pop_front or_steal
find_work i qs = get_elem? qs i >>= λ q. pop_front q >>= λ (o, q'). or_steal i (set qs i q') o

unfoldable pub take_up : ℕ → Core → State → Option ℕ → Option State
take_up i c s none = some s
take_up i c s (some p_idx) = get_elem? s.processes p_idx >>= λ p.
    some (record s { cores = set s.cores i (record c { current_pid = p.pid }) })

-- B. CPU i takes a process, if it is idle.
unfoldable pub assign : ℕ → State → Option State
unfolding find_work take_up
assign i s = get_elem? s.cores i >>= λ c.
    if c.current_pid ==ℤ minus_one
    then (find_work i s.queues >>= λ (o, qs). take_up i c (record s { queues = qs }) o)
    else some s

-- The metrics of a process that finishes in the unit of time.
unfoldable pub close_account : ℕ → Process → Process
close_account time p = record p {
  completion_time = completion;
  turnaround_time = turnaround;
  waiting_time = turnaround -ℤ p.burst_time;
}
  where
    completion : ℤ
    completion = pos (time + 1)

    turnaround : ℤ
    turnaround = completion -ℤ p.arrival_time

-- The unit of time of the process at j, which CPU i runs.
unfoldable pub work : ℕ → Core → ℕ → State → Option State
unfolding close_account
work i c j s = get_elem? s.processes j >>= λ p.
    let q = spend_unit p in
    if q.remaining_time ==ℤ pos 0
    then some (record s {
      processes = set s.processes j (close_account s.time q);
      completed = s.completed + 1;
      cores = set s.cores i (record c { current_pid = minus_one });
    })
    else some (record s { processes = set s.processes j q; cores = set s.cores i c })

unfoldable pub work_on : ℕ → Core → State → Option ℕ → Option State
unfolding work
work_on i c s none = some (record s { cores = set s.cores i c })
work_on i c s (some j) = work i c j s

-- C. CPU i runs for a unit of time.
unfoldable pub execute : ℕ → State → Option State
unfolding work_on
execute i s = get_elem? s.cores i >>= λ c.
    if c.current_pid ==ℤ minus_one
    then (write c.row s.time (pos 0) >>= λ row.
        some (record s { cores = set s.cores i (record c { row = row }) }))
    else (write c.row s.time c.current_pid >>= λ row.
        work_on i (record c { row = row }) s (first_index c.current_pid s.processes))

-- `for (i ...)`, n times from i on.
unfoldable pub for_each : (ℕ → State → Option State) → ℕ → ℕ → State → Option State
for_each body zero i s = some s
for_each body (suc n) i s = body i s >>= for_each body n (i + 1)

unfoldable pub tick : State → Option State
unfolding arrive assign execute for_each
tick s =
    for_each arrive (length s.processes) 0 s
    >>= for_each assign (length s.cores) 0
    >>= for_each execute (length s.cores) 0
    >>= λ t. some (record t { time = t.time + 1 })

-- The main loop, on fuel.
unfoldable pub rounds : ℕ → ℕ → State → Option State
unfolding tick
rounds n zero s = some s
rounds n (suc fuel) s = elim (ltb s.completed n && ltb s.time max_time) [
  | true ↦ tick s >>= rounds n fuel
  | false ↦ some s
]

module _ (blank : List ℕ) where
  -- The queues at the start; what `process_indices` holds there is not set: `blank`.
  unfoldable pub empty_queues : ℕ → List CpuQueue
  empty_queues n = replicate n (record { process_indices = blank; front = 0; rear = 0; size = 0 })

  unfoldable pub start_steal : ℕ → List Process → State
  unfolding empty_queues
  start_steal num_cpus ps = record {
    queues = empty_queues num_cpus;
    cores = idle_cores 0 num_cpus;
    arrived = replicate 100 false;
    processes = ps;
    time = 0;
    completed = 0;
  }

  unfoldable pub run_work_steal : ℕ → List Process → Option State
  unfolding start_steal rounds
  run_work_steal num_cpus ps = rounds (length ps) max_time (start_steal num_cpus ps)
