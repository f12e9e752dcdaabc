-- ===== src/Sched/Mlfq/Demotion.antt =====
-- The policy of mlfq.c and its runs: the queues and the metrics.
use os_lab_project.Prelude.{
  ℕ, ◌≡◌, refl, List, [], ◌∷◌, arith, pos, ◌==ℤ◌, ==ℤ_iff, ==ℤ_ne, Bool-cases, inl, inr, length,
  suc, ◌∙◌, +ℤ_parts, All, ap,
}
use os_lab_project.Sched.{last_index, Process, Sim, Core, start, main_loop}
use os_lab_project.Sched.Table.{pids, last_index-Finds}
use os_lab_project.Sched.Rule.{Runs, Runs-map}
use os_lab_project.Sched.Locks.{Facts}
use os_lab_project.Sched.Metrics.{MeasuredWithIo}
use os_lab_project.Sched.Policy.{tick, simulate}
use os_lab_project.Sched.Policy.Laws.{IsSound, Judges, spend_found-one, chart_zero-length}
use os_lab_project.Sched.Policy.Run.{IsInput, Over, Exclusive, simulate-Over, main_loop-Exclusive}
use os_lab_project.Sched.Scan.Best.{Picks-Chooses}
use os_lab_project.Sched.Mlfq.{judge, demote, choose, mlfq, enter_q0, run_mlfq}
use os_lab_project.Sched.Mlfq.Order.{Before, InQueue, mlfq_choose-Picks}

abbrev pub mlfq_facts : Facts
mlfq_facts = record { Fit = InQueue; Measured = MeasuredWithIo }

demote-InQueue : (p : Process) → InQueue p → InQueue (demote p)
unfolding demote
demote-InQueue p h = ground (arith, +ℤ_parts p.priority (pos 1))

demote_keeps :
    (p : Process) → ((demote p).pid ≡ p.pid) × ((demote p).remaining_time ≡ p.remaining_time)
unfolding demote
demote_keeps p = ground arith

judge-Judges : (c : Core) (s : Sim) (p : Process) → Judges mlfq_facts p (judge c s p)
unfolding judge
judge-Judges c s p = elim (Bool-cases (p.remaining_time ==ℤ pos 0)) [
  | inl over ↦ rw over ((==ℤ_iff _ _).0 over, (refl, refl, λ h. h), (refl, refl))
  | inr more ↦ rw more (elim (Bool-cases (c.time_left_on_core ==ℤ pos 0)) [
    | inl expired ↦
        rw expired (==ℤ_ne more, ((demote_keeps p).0, (demote_keeps p).1, demote-InQueue p))
    | inr left ↦ rw left (==ℤ_ne more)
  ])
]

mlfq-IsSound : IsSound mlfq_facts mlfq
unfolding mlfq
mlfq-IsSound = record {
  finds = last_index-Finds;
  judges = judge-Judges;
  spends_one = λ a ps i p u found there same. spend_found-one last_index a ps i p found there;
  charts_idle = chart_zero-length;
  spends = λ p h. h;
  preempts = λ ids time w u b. b;
  chooses = λ s early each.
      Runs-map (choose s) _ _ (mlfq_choose-Picks s each) (λ out. Picks-Chooses Before s out.0);
}

module _ (R : Process → Type 0)
    (keep : (p : Process) → R p → R (record p { priority = pos 0 })) where
  All-enter_q0 : (ps : List Process) → All R ps → All R (enter_q0 ps)
  unfolding enter_q0
  All-enter_q0 [] h = tt
  All-enter_q0 (p ∷ ps) h = (keep p h.0, All-enter_q0 ps h.1)

pids-enter_q0 : (ps : List Process) → pids (enter_q0 ps) ≡ pids ps
unfolding enter_q0
pids-enter_q0 [] = refl
pids-enter_q0 (p ∷ ps) = ap (◌∷◌ p.pid) (pids-enter_q0 ps)

length-enter_q0 : (ps : List Process) → length (enter_q0 ps) ≡ length ps
unfolding enter_q0
length-enter_q0 [] = refl
length-enter_q0 (p ∷ ps) = ap suc (length-enter_q0 ps)

enter_q0-InQueue : (ps : List Process) → All InQueue (enter_q0 ps)
unfolding enter_q0
enter_q0-InQueue [] = tt
enter_q0-InQueue (p ∷ ps) = (omega arith, enter_q0-InQueue ps)

-- A valid input, whatever the priorities.
abbrev pub any_facts : Facts
any_facts = record { Fit = λ p. Unit {0}; Measured = MeasuredWithIo }

mlfq-IsInput : {ps : List Process} → IsInput any_facts ps → IsInput mlfq_facts (enter_q0 ps)
mlfq-IsInput {ps} input = record {
  unique = rw (pids-enter_q0 ps) input.unique;
  named = rw (pids-enter_q0 ps) input.named;
  positive = All-enter_q0 _ (λ p h. h) ps input.positive;
  fit = enter_q0-InQueue ps;
  fits = rw (length-enter_q0 ps) input.fits;
}

-- MLFQ returns on every valid input, with no access out of range. It has the processes of the
-- input, each in one of the three queues, and unless the 1000 units of time are over each has run
-- to its end, with turnaround = completion - arrival and
-- waiting = turnaround - burst - I/O wait.
pub run_mlfq-Over :
    (num_cpus : ℕ) (ps : List Process)
    → IsInput any_facts ps
    → Runs
        (run_mlfq num_cpus ps)
        (λ w. (pids w.sim.processes ≡ pids ps) × All InQueue w.sim.processes × Over mlfq_facts w)
unfolding run_mlfq
run_mlfq-Over num_cpus ps input =
    Runs-map (simulate mlfq num_cpus (enter_q0 ps)) _ _
      (simulate-Over mlfq mlfq-IsSound num_cpus (enter_q0 ps) (mlfq-IsInput input))
      λ w done. (done.0 ∙ pids-enter_q0 ps, done.1, done.2)

-- On valid input: after any number of rounds no access was
-- out of range and no process runs on two CPUs.
pub mlfq_rounds-Exclusive :
    (num_cpus : ℕ) (ps : List Process) (rounds : ℕ)
    → IsInput any_facts ps
    → Runs
        (main_loop (tick mlfq) (length (enter_q0 ps)) rounds (start num_cpus (enter_q0 ps)))
        Exclusive
mlfq_rounds-Exclusive num_cpus ps rounds input =
    main_loop-Exclusive mlfq mlfq-IsSound num_cpus (enter_q0 ps) (mlfq-IsInput input) rounds
