-- ===== src/Sched/Mlfq/Order.antt =====
-- The choice of the next process in mlfq.c.
use os_lab_project.Prelude.{ℕ, ◌≡◌, refl, true, Option, none, some, arith, ℤ, pos, ◌≤ℤ◌, ◌<ℤ◌, ◌⊎◌}
use os_lab_project.Sched.{Process, Sim, scan}
use os_lab_project.Sched.Table.{Each, Each-map}
use os_lab_project.Sched.Rule.{Runs, Runs-bind}
use os_lab_project.Sched.Policy.Laws.{is_ready}
use os_lab_project.Sched.Scan.Best.{Leads, Picks, scan-Picks}
use os_lab_project.Sched.Mlfq.{Choice, no_choice, prefer, choose}

-- The higher queue first; in one queue, the earlier arrival first.
abbrev pub Before : Process → Process → Type 0
Before p q =
    (p.priority <ℤ q.priority) ⊎ ((p.priority ≤ℤ q.priority) × (p.arrival_time ≤ℤ q.arrival_time))

-- The process is in one of the three queues.
abbrev pub InQueue : Process → Type 0
InQueue p = (pos 0 ≤ℤ p.priority) × (p.priority ≤ℤ pos 2)

abbrev AgreesWith : ℤ → ℤ → Option (ℕ × Process) → Type 0
AgreesWith t a none = t ≡ pos 999
AgreesWith t a (some (i, p)) = (t ≡ p.priority) × (a ≡ p.arrival_time)

abbrev Agrees : Choice → Type 0
Agrees b = AgreesWith b.best_priority b.earliest_arrival b.best

prefer-Agrees : (i : ℕ) (q : Process) (b : Choice) → InQueue q → Agrees b → Agrees (prefer i q b)
unfolding prefer
prefer-Agrees i q b fine ok = ground arith

prefer-new :
    (i : ℕ) (q : Process) (b : Choice) → InQueue q → Agrees b → Leads Before (prefer i q b).best q
unfolding prefer
prefer-new i q b fine ok = ground arith

prefer-old :
    (i : ℕ) (q : Process) (b : Choice) (x : Process)
    → InQueue q
    → Agrees b
    → Leads Before b.best x
    → Leads Before (prefer i q b).best x
unfolding prefer
prefer-old i q b x fine ok h = ground arith

prefer-source :
    (i : ℕ) (q : Process) (b : Choice)
    → ((prefer i q b).best ≡ b.best) ⊎ ((prefer i q b).best ≡ some (i, q))
unfolding prefer
prefer-source i q b = ground arith

-- While all processes are in the three queues: the scan reads no flag out of range; it picks a
-- ready process of the highest queue that has one, the earliest of that queue, and none if none
-- is ready.
pub mlfq_choose-Picks :
    (s : Sim)
    → Each (λ p f. InQueue p) s.processes s.is_running
    → Runs (choose s) (λ out. Picks Before s out.0)
unfolding choose
mlfq_choose-Picks s each =
    Runs-bind (scan prefer (pos s.time) s.processes s.is_running 0 no_choice)
      (λ b. some (b.best, s.draws)) (λ b. Picks Before s b.best) _
      (scan-Picks prefer (λ b. b.best) Before InQueue Agrees prefer-Agrees prefer-new prefer-old
        prefer-source s no_choice (λ p f. InQueue p) each queued refl refl)
      λ b h. h
  where
    queued : Each (λ q g. is_ready s.time q g ≡ true → InQueue q) s.processes s.is_running
    queued = Each-map (λ p f. InQueue p) _ (λ q g e r. e) s.processes s.is_running each
