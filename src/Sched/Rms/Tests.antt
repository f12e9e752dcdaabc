-- ===== src/Sched/Rms/Tests.antt =====
-- The theorems about rate-monotonic scheduling at concrete inputs.
use os_lab_project.Prelude.{
  ℕ, ◌+◌, ◌≡◌, refl, some, List, [], ◌∷◌, Runs, sum, Option, ◌>>=◌, write, arith,
}
use os_lab_project.Sched.Rms.{
  Task, pick, run_length, run_rms, run_from, run_cpus, run_cpu, release, release_all, add_int,
  pick_from, total_miss,
}
use os_lab_project.Sched.Rms.Period.{IsLength, run_length-IsLength}
use os_lab_project.Sched.Rms.Pick.{Picked, pick-Picked}
use os_lab_project.Sched.Rms.Balance.{left, demand, run_rms-demand}

abbrev two_tasks : List Task
two_tasks =
    record { e = 1; p = 4; a = 0; r = 1; m = 0 } ∷ record { e = 2; p = 6; a = 0; r = 2; m = 0 } ∷ []

run_length-IsLength_example : Runs (run_length two_tasks) (IsLength two_tasks)
run_length-IsLength_example = run_length-IsLength two_tasks (omega arith, (omega arith, tt))

pick-Picked_example : Picked 0 two_tasks (pick 0 two_tasks)
pick-Picked_example = pick-Picked 0 two_tasks

run_rms-demand_example :
    Runs (run_rms 1 12 two_tasks) (λ s. left s.tasks + sum s.busy ≡ demand 12 two_tasks)
run_rms-demand_example = run_rms-demand 1 12 two_tasks (omega arith)

-- A task that needs 5 units in each period of 4 ends the simulation with work left over and no
-- miss counted.
uncounted_miss :
    ◌≡◌ {A = Option (ℕ × ℕ)}
      (◌>>=◌ {B = ℕ × ℕ}
        (run_rms 1 4 (record { e = 5; p = 4; a = 0; r = 0; m = 0 } ∷ []))
        λ s. some (total_miss s.tasks, left s.tasks))
      (some (0, 1))
unfolding run_rms run_from run_cpus run_cpu release_all release add_int pick pick_from total_miss
    write
uncounted_miss = refl
