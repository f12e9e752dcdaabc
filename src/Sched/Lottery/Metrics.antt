-- ===== src/Sched/Lottery/Metrics.antt =====
-- The policy of lottery.c and its runs.
use os_lab_project.Prelude.{
  ℕ, zero, suc, ◌≡◌, refl, sym, ◌∙◌, ap, ◌≢◌, Option, none, some, List, [], ◌∷◌, ◌++◌, map, arith,
  ℤ, pos, ◌==ℤ◌, ==ℤ_iff, ==ℤ_ne, Bool-cases, inl, inr, if◌then◌else◌, length, All, get_elem?, set,
}
use mathlib.Core.Path.{ap₂, subst}
use mathlib.Core.Option.{some-injective}
use os_lab_project.Sched.Metrics.{MeasuredWithoutIo}
use os_lab_project.Sched.Table.{At}
use os_lab_project.Sched.{Process, Sim, Core, start, main_loop}
use os_lab_project.Sched.Table.{pids, last_index-Finds, Unique, pid_at}
use os_lab_project.Sched.Rule.{Runs, Runs-map}
use os_lab_project.Sched.Locks.{Facts}
use os_lab_project.Sched.Policy.{tick, simulate, spend_unit}
use os_lab_project.Sched.Policy.Laws.{Chooses, IsSound, Judges}
use os_lab_project.Sched.Policy.Run.{IsInput, Over, Exclusive, simulate-Over, main_loop-Exclusive}
use os_lab_project.Sched.Scan.{Listed, candidates-Listed}
use os_lab_project.Sched.Lottery.{judge, choose, lottery, run_lottery, spend_all}
use os_lab_project.Sched.Lottery.Draw.{HasTicket, Drawn, choose-Drawn}

abbrev pub lottery_facts : Facts
lottery_facts = record { Fit = HasTicket; Measured = MeasuredWithoutIo }

judge-Judges : (c : Core) (s : Sim) (p : Process) → Judges lottery_facts p (judge c s p)
unfolding judge
judge-Judges c s p = elim (Bool-cases (p.remaining_time ==ℤ pos 0)) [
  | inl over ↦ rw over ((==ℤ_iff _ _).0 over, (refl, refl, λ h. h), (refl, refl))
  | inr more ↦ rw more (==ℤ_ne more)
]

-- The decrement of every entry with the pid is the decrement of the one that has it.
abbrev spend_if : ℤ → Process → Process
spend_if a p = if p.pid ==ℤ a then spend_unit p else p

spend_if_ne : (a : ℤ) (p : Process) → p.pid ≢ a → spend_if a p ≡ p
spend_if_ne a p ne = elim (Bool-cases (p.pid ==ℤ a)) [
  | inl e ↦ absurd (ne ((==ℤ_iff p.pid a).0 e))
  | inr e ↦ rw e
]

spend_if_self : (a : ℤ) (p : Process) → p.pid ≡ a → spend_if a p ≡ spend_unit p
spend_if_self a p e = rw ((==ℤ_iff p.pid a).1 e) refl

spend_none : (a : ℤ) (ps : List Process) → All (λ b. b ≢ a) (pids ps) → map (spend_if a) ps ≡ ps
spend_none a [] h = refl
spend_none a (p ∷ ps) h = ap₂ ◌∷◌ (spend_if_ne a p h.0) (spend_none a ps h.1)

spend_one :
    (a : ℤ) (ps : List Process) (i : ℕ) (p : Process)
    → Unique (pids ps)
    → get_elem? ps i ≡ some p
    → p.pid ≡ a
    → map (spend_if a) ps ≡ set ps i (spend_unit p)
spend_one a [] i p u there mine = refl
spend_one a (q ∷ ps) zero p u there mine =
    let same : q ≡ p = some-injective q p there in
    let mine' : q.pid ≡ a = ap (λ x. x.pid) same ∙ mine in
    ap₂ ◌∷◌ (spend_if_self a q mine' ∙ ap spend_unit same)
      (spend_none a ps (subst (λ b. All (λ x. x ≢ b) (pids ps)) mine' u.0))
spend_one a (q ∷ ps) (suc i) p u there mine =
    ap₂ ◌∷◌ (spend_if_ne a q (λ h. pid_at (λ b. b ≢ q.pid) ps i p u.0 there (mine ∙ sym h)))
      (spend_one a ps i p u.1 there mine)

All-among :
    (R : ℕ × Process → Type 0) (before : List (ℕ × Process)) (c : ℕ × Process)
    (after : List (ℕ × Process))
    → All R (before ++ (c ∷ after))
    → R c
All-among R [] c after h = h.0
All-among R (b ∷ before) c after h = All-among R before c after h.1

Listed-Chooses :
    (s : Sim) (c : ℕ × Process) → Listed s.time s.processes s.is_running 0 c → Chooses s (some c)
Listed-Chooses s (i, p) (j, f, e, a, r) =
    let e' : j ≡ i = omega (arith, e) in (f, subst (λ k. At s.processes s.is_running k p f) e' a, r)

Drawn-Chooses :
    (rand : ℕ → ℕ) (s : Sim) (out : Option (ℕ × Process) × ℕ) → Drawn rand s out → Chooses s out.0
Drawn-Chooses rand s (none, draws) h = h.0
Drawn-Chooses rand s (some (i, p), draws) ((before, after, e, _, _), _) =
    Listed-Chooses s (i, p)
      (All-among (Listed s.time s.processes s.is_running 0) before (i, p) after
        (subst (All (Listed s.time s.processes s.is_running 0)) e
          (candidates-Listed s.time s.processes s.is_running 0)))

module _ (rand : ℕ → ℕ) where
  lottery-IsSound : IsSound lottery_facts (lottery rand)
  unfolding lottery spend_all
  lottery-IsSound = record {
    finds = last_index-Finds;
    judges = judge-Judges;
    spends_one = λ a ps i p u found there same. ap some (spend_one a ps i p u there same);
    charts_idle = λ row t h. refl;
    spends = λ p h. h;
    preempts = λ ids time w u b. b;
    chooses = λ s early each.
        Runs-map (choose rand s) _ _ (choose-Drawn rand s each) (Drawn-Chooses rand s);
  }

  -- Whatever `rand` gives, the lottery returns on every valid input whose priorities are not
  -- negative, with no access out of range. It has the processes of the input, and unless the 1000
  -- units of time are over each has run to its end, with turnaround = completion - arrival and
  -- waiting = turnaround - burst.
  pub run_lottery-Over :
      (num_cpus : ℕ) (ps : List Process)
      → IsInput lottery_facts ps
      → Runs
          (run_lottery rand num_cpus ps)
          (λ w. (pids w.sim.processes ≡ pids ps) × Over lottery_facts w)
  unfolding run_lottery
  run_lottery-Over num_cpus ps input =
      Runs-map (simulate (lottery rand) num_cpus ps) _ _
        (simulate-Over (lottery rand) lottery-IsSound num_cpus ps input) λ w done. (done.0, done.2)

  -- On valid input whose priorities are not negative: after any number of rounds no access was
  -- out of range and no process runs on two CPUs.
  lottery_rounds-Exclusive :
      (num_cpus : ℕ) (ps : List Process) (rounds : ℕ)
      → IsInput lottery_facts ps
      → Runs (main_loop (tick (lottery rand)) (length ps) rounds (start num_cpus ps)) Exclusive
  lottery_rounds-Exclusive num_cpus ps rounds input =
      main_loop-Exclusive (lottery rand) lottery-IsSound num_cpus ps input rounds
