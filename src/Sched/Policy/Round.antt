-- ===== src/Sched/Policy/Round.antt =====
-- One round of the main loop under a sound policy.
use mathlib.Core.Path.{subst}
use os_lab_project.Prelude.{ℕ, ◌+◌, ◌<◌, ◌≡◌, refl, sym, some, List, arith, ℤ, All, ◌>>=◌}
use os_lab_project.Sched.{World, max_time, on_cores, advance}
use os_lab_project.Sched.Table.{Unique}
use os_lab_project.Sched.Rule.{
  Runs, Runs-bind, Runs-map, count, ⊞_nobody, nobody_⊞, nobody, for_cores_rule,
}
use os_lab_project.Sched.Locks.{Facts, Locked, IsCore}
use os_lab_project.Sched.Policy.{Policy, complete, assign, execute, tick}
use os_lab_project.Sched.Policy.Laws.{IsSound, Between}
use os_lab_project.Sched.Policy.Phases.{
  Completing, Assigning, Executing, complete-Completing, assign-Assigning, execute-Executing,
}

-- What holds between two rounds.
pub record Good (facts : Facts) (ids : List ℤ) (w : World) : Type 0 where
  pub cores : All (IsCore ids) w.cores
  pub locked :
      Locked facts ids nobody (count w.cores) w.sim.processes w.sim.is_running w.sim.completed

module _ {facts : Facts} (policy : Policy) (sound : IsSound facts policy) (ids : List ℤ)
    (unique : Unique ids) where
  module _ (time : ℕ) (early : time < max_time) where
    completed :
        (w : World)
        → w.sim.time ≡ time
        → Good facts ids w
        → Runs (on_cores (complete policy) w) (Between facts ids time)
    completed w now g =
        Runs-map _ _ (Between facts ids time)
          (for_cores_rule (Completing policy sound ids unique time early) (IsCore ids) (IsCore ids)
            (complete policy) (complete-Completing policy sound ids unique time early) w g.cores
            (
              subst (λ k. Locked facts ids nobody k sim.processes sim.is_running sim.completed)
                  (sym (nobody_⊞ (count w.cores))) g.locked,
              now,
            ))
          λ v done. (
            done.0,
            subst
                (λ k.
                  Locked facts ids (count v.cores) k v.sim.processes v.sim.is_running
                    v.sim.completed)
                (⊞_nobody (count v.cores)) done.1.0,
            done.1.1,
          )
      where
        open w use {sim}

    assigned :
        (w : World)
        → Between facts ids time w
        → Runs (on_cores (assign policy) w) (Between facts ids time)
    assigned w b =
        Runs-map _ _ (Between facts ids time)
          (for_cores_rule (Assigning policy sound ids unique time early) (IsCore ids) (IsCore ids)
            (assign policy) (assign-Assigning policy sound ids unique time early) w b.0
            (
              subst (λ k. Locked facts ids k k sim.processes sim.is_running sim.completed)
                  (sym (nobody_⊞ (count w.cores))) b.1,
              b.2,
            ))
          λ v done. (
            done.0,
            subst (λ k. Locked facts ids k k v.sim.processes v.sim.is_running v.sim.completed)
                (⊞_nobody (count v.cores)) done.1.0,
            done.1.1,
          )
      where
        open w use {sim}

    executed :
        (w : World)
        → Between facts ids time w
        → Runs (on_cores (execute policy) w) (λ v. Good facts ids v × (v.sim.time ≡ time))
    executed w b =
        Runs-map _ _ (λ v. Good facts ids v × (v.sim.time ≡ time))
          (for_cores_rule (Executing policy sound ids unique time early) (IsCore ids) (IsCore ids)
            (execute policy) (execute-Executing policy sound ids unique time early) w b.0
            (
              subst
                  (λ k.
                    Locked facts ids (count w.cores) k sim.processes sim.is_running sim.completed)
                  (sym (nobody_⊞ (count w.cores))) b.1,
              b.2,
            ))
          λ v done. (
            record {
              cores = done.0;
              locked =
                  subst
                    (λ k.
                      Locked facts ids nobody k v.sim.processes v.sim.is_running v.sim.completed)
                    (⊞_nobody (count v.cores)) done.1.0;
            },
            done.1.1,
          )
      where
        open w use {sim}

  -- A round within the time runs to its end and keeps the locks.
  pub tick-Good :
      (w : World)
      → w.sim.time < max_time
      → Good facts ids w
      → Runs (tick policy w) (λ v. Good facts ids v × (v.sim.time ≡ w.sim.time + 1))
  unfolding tick advance
  tick-Good w early g =
      let time = w.sim.time in
      let between = Between facts ids time in
      let first = on_cores (complete policy) w in
      let second = first >>= policy.preempt in
      let third = second >>= on_cores (assign policy) in
      let goal : World → Type 0 = λ v. Good facts ids v × (v.sim.time ≡ time + 1) in
      let good : World → Type 0 = λ v. Good facts ids v × (v.sim.time ≡ time) in
      Runs-bind (third >>= on_cores (execute policy)) (λ v. some (advance v)) good goal
        (Runs-bind third (on_cores (execute policy)) between good
          (Runs-bind second (on_cores (assign policy)) between between
            (Runs-bind first policy.preempt between between (completed time early w refl g)
              (λ v. sound.preempts ids time v unique))
            (assigned time early))
          (executed time early))
        λ v done. (record { cores = done.0.cores; locked = done.0.locked }, omega (arith, done.1))
