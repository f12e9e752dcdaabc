-- ===== src/Sched/Fcfs/Order.antt =====
-- The choice of the next process in fcfs.c.
use os_lab_project.Prelude.{
  ℕ, ◌<◌, ◌≡◌, refl, Bool, true, Option, none, some, arith, ℤ, pos, ◌≤ℤ◌, ◌<ℤ◌, ◌⊎◌,
}
use os_lab_project.Sched.{Process, Sim, scan, max_time}
use os_lab_project.Sched.Table.{Each, Each-map}
use os_lab_project.Sched.Rule.{Runs, Runs-bind}
use os_lab_project.Sched.Policy.Laws.{is_ready}
use os_lab_project.Sched.Scan.Best.{Leads, Picks, scan-Picks}
use os_lab_project.Sched.Fcfs.{Choice, no_choice, prefer, choose}

-- Earlier arrival first; at one time, the lower pid first.
abbrev pub Before : Process → Process → Type 0
Before p q =
    (p.arrival_time <ℤ q.arrival_time) ⊎ ((p.arrival_time ≤ℤ q.arrival_time) × (p.pid ≤ℤ q.pid))

-- `earliest_arrival` is that of the best process, or the 9999 that it starts with.
abbrev AgreesWith : ℤ → Option (ℕ × Process) → Type 0
AgreesWith t none = t ≡ pos 9999
AgreesWith t (some (i, p)) = t ≡ p.arrival_time

abbrev Agrees : Choice → Type 0
Agrees b = AgreesWith b.earliest_arrival b.best

abbrev InTime : Process → Type 0
InTime q = q.arrival_time <ℤ pos 9999

prefer-Agrees : (i : ℕ) (q : Process) (b : Choice) → InTime q → Agrees b → Agrees (prefer i q b)
unfolding prefer
prefer-Agrees i q b fine ok = ground arith

prefer-new :
    (i : ℕ) (q : Process) (b : Choice) → InTime q → Agrees b → Leads Before (prefer i q b).best q
unfolding prefer
prefer-new i q b fine ok = ground arith

prefer-old :
    (i : ℕ) (q : Process) (b : Choice) (x : Process)
    → InTime q
    → Agrees b
    → Leads Before b.best x
    → Leads Before (prefer i q b).best x
unfolding prefer
prefer-old i q b x fine ok h = ground arith

prefer-source :
    (i : ℕ) (q : Process) (b : Choice)
    → ((prefer i q b).best ≡ b.best) ⊎ ((prefer i q b).best ≡ some (i, q))
unfolding prefer
prefer-source i q b = ground arith

-- Before time 1000, when every process has a flag: the scan reads no flag out of range; it picks the first ready process, and none if none is ready.
pub fcfs_choose-Picks :
    (P : Process → Bool → Type 0) (s : Sim)
    → s.time < max_time
    → Each P s.processes s.is_running
    → Runs (choose s) (λ out. Picks Before s out.0)
unfolding choose
fcfs_choose-Picks P s early each =
    Runs-bind (scan prefer (pos s.time) s.processes s.is_running 0 no_choice)
      (λ b. some (b.best, s.draws)) (λ b. Picks Before s b.best) _
      (scan-Picks prefer (λ b. b.best) Before InTime Agrees prefer-Agrees prefer-new prefer-old
        prefer-source s no_choice P each in_time refl refl)
      λ b h. h
  where
    in_time : Each (λ q g. is_ready s.time q g ≡ true → InTime q) s.processes s.is_running
    in_time = Each-map P _ (λ q g e r. ground arith) s.processes s.is_running each
