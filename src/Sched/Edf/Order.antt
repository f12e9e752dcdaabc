-- ===== src/Sched/Edf/Order.antt =====
-- The choice of the next process in edf.c.
use os_lab_project.Prelude.{ℕ, ◌≡◌, refl, true, Option, none, some, arith, ℤ, pos, ◌≤ℤ◌, ◌<ℤ◌, ◌⊎◌}
use os_lab_project.Sched.{Process, Sim, scan}
use os_lab_project.Sched.Table.{Each, Each-map}
use os_lab_project.Sched.Rule.{Runs, Runs-bind}
use os_lab_project.Sched.Policy.Laws.{is_ready}
use os_lab_project.Sched.Scan.Best.{Leads, Picks, scan-Picks}
use os_lab_project.Sched.Edf.{Choice, no_choice, prefer, choose}

-- The earlier deadline first.
abbrev pub Before : Process → Process → Type 0
Before p q = p.deadline ≤ℤ q.deadline

-- The deadline lies below the scan's starting value.
abbrev pub HasDeadline : Process → Type 0
HasDeadline p = p.deadline <ℤ pos 999999

abbrev AgreesWith : ℤ → Option (ℕ × Process) → Type 0
AgreesWith t none = t ≡ pos 999999
AgreesWith t (some (i, p)) = t ≡ p.deadline

abbrev Agrees : Choice → Type 0
Agrees b = AgreesWith b.earliest_deadline b.best

prefer-Agrees :
    (i : ℕ) (q : Process) (b : Choice) → HasDeadline q → Agrees b → Agrees (prefer i q b)
unfolding prefer
prefer-Agrees i q b fine ok = ground arith

prefer-new :
    (i : ℕ) (q : Process) (b : Choice)
    → HasDeadline q
    → Agrees b
    → Leads Before (prefer i q b).best q
unfolding prefer
prefer-new i q b fine ok = ground arith

prefer-old :
    (i : ℕ) (q : Process) (b : Choice) (x : Process)
    → HasDeadline q
    → Agrees b
    → Leads Before b.best x
    → Leads Before (prefer i q b).best x
unfolding prefer
prefer-old i q b x fine ok h = ground arith

prefer-source :
    (i : ℕ) (q : Process) (b : Choice)
    → ((prefer i q b).best ≡ b.best) ⊎ ((prefer i q b).best ≡ some (i, q))
unfolding prefer
prefer-source i q b = ground arith

-- While every deadline lies below 999999: the scan reads no flag out of range; it picks a ready
-- process with the earliest deadline of all ready ones, and none if none is ready.
pub edf_choose-Picks :
    (s : Sim)
    → Each (λ p f. HasDeadline p) s.processes s.is_running
    → Runs (choose s) (λ out. Picks Before s out.0)
unfolding choose
edf_choose-Picks s each =
    Runs-bind (scan prefer (pos s.time) s.processes s.is_running 0 no_choice)
      (λ b. some (b.best, s.draws)) (λ b. Picks Before s b.best) _
      (scan-Picks prefer (λ b. b.best) Before HasDeadline Agrees prefer-Agrees prefer-new prefer-old
        prefer-source s no_choice (λ p f. HasDeadline p) each bounded refl refl)
      λ b h. h
  where
    bounded : Each (λ q g. is_ready s.time q g ≡ true → HasDeadline q) s.processes s.is_running
    bounded = Each-map (λ p f. HasDeadline p) _ (λ q g e r. e) s.processes s.is_running each
