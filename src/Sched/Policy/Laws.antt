-- ===== src/Sched/Policy/Laws.antt =====
-- What a policy has to satisfy, and the predicates of the parts of a round.
use os_lab_project.Prelude.{
  ◌<◌, get_elem?, set, length, length-set, ℕ, ◌≡◌, ◌≢◌, Bool, true, false, not, ◌&&◌, Option, none,
  some, List, ℤ, pos, leb_ℤ, ltb_ℤ, All,
}
use os_lab_project.Sched.{Process, Core, Sim, World, max_time}
use os_lab_project.Sched.Table.{Unique, pids, Each, At, Finds, write_below}
use os_lab_project.Sched.Rule.{Runs, count}
use os_lab_project.Sched.Locks.{Facts, Locked, IsCore}
use os_lab_project.Sched.Policy.{
  Policy, Verdict, stays, finishes, yields, spend_unit, spend_found, chart_zero,
}

-- A process that the next idle CPU may take.
abbrev pub is_ready : ℕ → Process → Bool → Bool
is_ready time p f = leb_ℤ p.arrival_time (pos time) && ltb_ℤ (pos 0) p.remaining_time && not f

-- Pid and remaining time are as they were.
abbrev pub Keeps : Facts → Process → Process → Type 0
Keeps facts p p' =
    (p'.pid ≡ p.pid) × (p'.remaining_time ≡ p.remaining_time) × (facts.Fit p → facts.Fit p')

abbrev pub Judges : Facts → Process → Verdict → Type 0
Judges facts p stays = p.remaining_time ≢ pos 0
Judges facts p (finishes p' late) =
    (p.remaining_time ≡ pos 0) × Keeps facts p p' × facts.Measured p'
Judges facts p (yields p') = (p.remaining_time ≢ pos 0) × Keeps facts p p'

-- A chosen process is ready at the index given; where none is chosen, none is ready.
abbrev pub Chooses : Sim → Option (ℕ × Process) → Type 0
Chooses s none = Each (λ p f. is_ready s.time p f ≡ false) s.processes s.is_running
Chooses s (some (i, p)) =
    (f : Bool) × At s.processes s.is_running i p f × (is_ready s.time p f ≡ true)

-- What holds between the parts of a round.
abbrev pub Between : Facts → List ℤ → ℕ → World → Type 0
Between facts ids time w =
    All (IsCore ids) w.cores
    × Locked facts ids (count w.cores) (count w.cores) w.sim.processes w.sim.is_running
        w.sim.completed
    × (w.sim.time ≡ time)

pub record IsSound (facts : Facts) (policy : Policy) : Type 1 where
  pub finds : Finds policy.find
  pub judges : (c : Core) (s : Sim) (p : Process) → Judges facts p (policy.judge c s p)
  pub spends_one :
      (a : ℤ) (ps : List Process) (i : ℕ) (p : Process)
      → Unique (pids ps)
      → policy.find a ps ≡ some i
      → get_elem? ps i ≡ some p
      → p.pid ≡ a
      → policy.spend a ps ≡ some (set ps i (spend_unit p))
  pub charts_idle :
      (row : List ℤ) (t : ℕ)
      → t < length row
      → Runs (policy.chart_idle row t) (λ row'. length row' ≡ length row)
  pub spends : (p : Process) → facts.Fit p → facts.Fit (spend_unit p)
  pub preempts :
      (ids : List ℤ) (time : ℕ) (w : World)
      → Unique ids
      → Between facts ids time w
      → Runs (policy.preempt w) (Between facts ids time)
  pub chooses :
      (s : Sim)
      → s.time < max_time
      → Each (λ p f. facts.Fit p) s.processes s.is_running
      → Runs (policy.choose s) (λ out. Chooses s out.0)

-- The laws of the two loops that most schedulers share.
pub spend_found-one :
    (find : ℤ → List Process → Option ℕ) (a : ℤ) (ps : List Process) (i : ℕ) (p : Process)
    → find a ps ≡ some i
    → get_elem? ps i ≡ some p
    → spend_found find a ps ≡ some (set ps i (spend_unit p))
unfolding spend_found
spend_found-one find a ps i p found there = rw (found, there)

pub chart_zero-length :
    (row : List ℤ) (t : ℕ)
    → t < length row
    → Runs (chart_zero row t) (λ row'. length row' ≡ length row)
unfolding chart_zero
chart_zero-length row t h = rw (write_below row t (pos 0) h) (length-set row t (pos 0))
