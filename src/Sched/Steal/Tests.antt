-- ===== src/Sched/Steal/Tests.antt =====
-- The theorems about work_steal.c at concrete inputs.
use os_lab_project.Prelude.{
  ℕ, ◌+◌, ◌≡◌, refl, false, pos, List, [], ◌∷◌, ◌++◌, arith, length, replicate,
}
use os_lab_project.Sched.Table.{pids}
use os_lab_project.Sched.Rule.{Runs}
use os_lab_project.Sched.Tests.{job, jobs, jobs-IsInput}
use os_lab_project.Sched.{idle_cores}
use os_lab_project.Sched.Steal.{
  CpuQueue, State, push_back, pop_back, arrive, find_work, rounds, start_steal, run_work_steal,
}
use os_lab_project.Sched.Steal.Deque.{
  IsDeque, contents, PoppedBack, Within, push_back-Runs, pop_back-Runs,
}
use os_lab_project.Sched.Steal.Choice.{Arrives, Chosen, arrive-Arrives, find_work-Chosen}
use os_lab_project.Sched.Steal.Places.{Taken, find_work-Taken}
use os_lab_project.Sched.Steal.Outcome.{
  steal_facts, Finished, InOnePlace, run_work_steal-Finished, steal_rounds-InOnePlace,
}

abbrev junk : List ℕ
junk = replicate 100 7

run_work_steal-Finished_example :
    Runs (run_work_steal junk 2 jobs) (λ s. (pids s.processes ≡ pids jobs) × Finished s)
run_work_steal-Finished_example =
    run_work_steal-Finished junk 2 jobs refl (omega arith)
      (jobs-IsInput steal_facts (tt, (tt, (tt, tt))))

steal_rounds-InOnePlace_example : Runs (rounds (length jobs) 5 (start_steal junk 2 jobs)) InOnePlace
steal_rounds-InOnePlace_example =
    steal_rounds-InOnePlace junk 2 jobs 5 refl (omega arith)
      (jobs-IsInput steal_facts (tt, (tt, (tt, tt))))

-- The processes 4 and 6 wait.
abbrev busy : CpuQueue
busy = record { process_indices = 9 ∷ 4 ∷ 6 ∷ replicate 97 0; front = 1; rear = 3; size = 2 }

abbrev empty : CpuQueue
empty = record { process_indices = replicate 100 0; front = 2; rear = 2; size = 0 }

push_back-Runs_example : Runs (push_back busy 5) (λ r.
    IsDeque r
    × (contents r ≡ contents busy ++ (5 ∷ []))
    × (r.rear ≡ busy.rear + 1)
    × (length r.process_indices ≡ length busy.process_indices))
push_back-Runs_example =
    push_back-Runs busy 5 (record { extent = refl; inside = omega arith }) (omega arith)

pop_back-Runs_example :
    Runs (pop_back busy) (λ out. PoppedBack busy out.0 out.1 × Within busy out.1)
pop_back-Runs_example = pop_back-Runs busy (record { extent = refl; inside = omega arith })

-- The second of the jobs arrives at 0, and CPU 1 has the shorter queue.
abbrev waiting : State
waiting = record {
  queues = busy ∷ empty ∷ [];
  cores = idle_cores 0 2;
  arrived = replicate 100 false;
  processes = jobs;
  time = 0;
  completed = 0;
}

arrive-Arrives_example :
    Runs (arrive 1 waiting) (Arrives 1 (job (pos 2) (pos 0) (pos 4) (pos 20)) false waiting)
arrive-Arrives_example =
    arrive-Arrives 1 (job (pos 2) (pos 0) (pos 4) (pos 20)) false waiting (refl, refl) (omega arith)
      (
        (record { extent = refl; inside = omega arith }, omega arith),
        ((record { extent = refl; inside = omega arith }, omega arith), tt),
      )

find_work-Chosen_example :
    Runs (find_work 1 (busy ∷ empty ∷ [])) (Chosen 1 empty (busy ∷ empty ∷ []))
find_work-Chosen_example = find_work-Chosen 1 empty (busy ∷ empty ∷ []) refl (
  record { extent = refl; inside = omega arith },
  (record { extent = refl; inside = omega arith }, tt),
)

find_work-Taken_example : Runs (find_work 1 (busy ∷ empty ∷ [])) (Taken (busy ∷ empty ∷ []) 3)
find_work-Taken_example = find_work-Taken 3 1 empty (busy ∷ empty ∷ []) refl (
  (record { extent = refl; inside = omega arith }, refl, omega arith),
  ((record { extent = refl; inside = omega arith }, refl, omega arith), tt),
)
