-- ===== src/Sched/Edf/Latest.antt =====
-- The search of edf.c for the CPU whose process has the latest deadline.
use os_lab_project.Prelude.{
  ℕ, suc, ◌+◌, ◌≡◌, refl, ap, ◌∙◌, ◌≢◌, inl, inr, Option, none, some, List, [], ◌∷◌, arith, ℤ,
  minus_one, ◌==ℤ◌, ==ℤ_iff, ==ℤ_ne, ltb_ℤ, ◌≤ℤ◌, get_elem?, All, Bool-cases,
}
use os_lab_project.Sched.{Process, Core, first_index}
use os_lab_project.Sched.Table.{Unique, pids, first_index-Finds}
use os_lab_project.Sched.Rule.{Runs, Runs-map}
use os_lab_project.Sched.Locks.{IsCore}
use os_lab_project.Sched.Policy.Phases.{busy_pid}
use os_lab_project.Sched.Edf.{Worst, no_worst, find_worst}

-- The CPU runs the process p.
abbrev pub RunsProcess : List Process → Core → Process → Type 0
RunsProcess ps c p =
    (i : ℕ) × (first_index c.current_pid ps ≡ some i)
    × (get_elem? ps i ≡ some p)
    × (p.pid ≡ c.current_pid)

-- Every process that a CPU of the list runs has its deadline no later than d.
abbrev pub Bounded : List Process → ℤ → List Core → Type 0
Bounded ps d =
    All λ c. c.current_pid ≢ minus_one → (p : Process) × RunsProcess ps c p × (p.deadline ≤ℤ d)

-- `worst_cpu` is a busy CPU, whose process has the deadline `worst_deadline`, or none, and then
-- `worst_deadline` is the -1 that it starts with.
abbrev pub AttainedAt : List Process → List Core → ℤ → Option ℕ → Type 0
AttainedAt ps cores d none = d ≡ minus_one
AttainedAt ps cores d (some k) =
    (c : Core) × (get_elem? cores k ≡ some c)
    × (c.current_pid ≢ minus_one)
    × (p : Process) × RunsProcess ps c p
    × (p.deadline ≡ d)

abbrev pub Attained : List Process → List Core → Worst → Type 0
Attained ps cores b = AttainedAt ps cores b.worst_deadline b.worst_cpu

module _ (ps : List Process) (all : List Core) (unique : Unique (pids ps)) where
  -- What the loop has found once it has visited the list, started with b.
  abbrev Found : List Core → Worst → Worst → Type 0
  Found cs b r =
      Attained ps all r × Bounded ps r.worst_deadline cs × (b.worst_deadline ≤ℤ r.worst_deadline)

  find_worst_from :
      (cs : List Core) (k : ℕ) (b : Worst)
      → ((j : ℕ) → get_elem? all (k + j) ≡ get_elem? cs j)
      → All (IsCore (pids ps)) cs
      → Attained ps all b
      → Runs (find_worst ps cs k b) (Found cs b)
  unfolding find_worst
  find_worst_from [] k b here cores ok = (ok, tt, omega arith)
  find_worst_from (c ∷ cs) k b here cores ok = elim (Bool-cases (c.current_pid ==ℤ minus_one)) [
    | inl idle ↦ rw idle (
        Runs-map (find_worst ps cs (k + 1) b) (Found cs b) (Found (c ∷ cs) b)
          (find_worst_from cs (k + 1) b onward cores.1 ok)
          λ r h. (h.0, ((λ busy. absurd (busy ((==ℤ_iff _ _).0 idle))), h.1), h.2))
    | inr busy ↦
        let (i, p, found, there, mine) =
          first_index-Finds c.current_pid ps unique (busy_pid cores.0 busy) in
        elim (Bool-cases (ltb_ℤ b.worst_deadline p.deadline)) [
          | inl later ↦
              let next : Worst = record { worst_cpu = some k; worst_deadline = p.deadline } in
              rw (busy, found, there, later)
                (Runs-map (find_worst ps cs (k + 1) next) (Found cs next) (Found (c ∷ cs) b)
                  (find_worst_from cs (k + 1) next onward cores.1
                    (c, at_k, ==ℤ_ne busy, p, (i, found, there, mine), refl))
                  λ r h. (h.0, ((λ _. (p, (i, found, there, mine), h.2)), h.1), ground arith))
          | inr sooner ↦
              rw (busy, found, there, sooner)
                (Runs-map (find_worst ps cs (k + 1) b) (Found cs b) (Found (c ∷ cs) b)
                  (find_worst_from cs (k + 1) b onward cores.1 ok)
                  λ r h. (h.0, ((λ _. (p, (i, found, there, mine), ground arith)), h.1), h.2))
        ]
  ]
    where
      at_k : get_elem? all k ≡ some c
      at_k = ap (get_elem? all) (omega arith) ∙ here 0

      onward : (j : ℕ) → get_elem? all (k + 1 + j) ≡ get_elem? cs j
      onward j = ap (get_elem? all) (omega arith) ∙ here (suc j)

-- If the pids differ and every CPU is idle or runs one of the processes, the search faults on no
-- access. The deadline that it gives is at least that of every running process. It is that of the
-- process on the CPU that it gives; if it gives no CPU, it is -1, so that no running process has a
-- deadline above -1.
pub find_worst-Attained :
    (ps : List Process) (cores : List Core)
    → Unique (pids ps)
    → All (IsCore (pids ps)) cores
    → Runs
        (find_worst ps cores 0 no_worst)
        (λ b. Attained ps cores b × Bounded ps b.worst_deadline cores)
find_worst-Attained ps cores unique ok =
    Runs-map (find_worst ps cores 0 no_worst) _ _
      (find_worst_from ps cores unique cores 0 no_worst (λ j. ap (get_elem? cores) (omega arith)) ok
        refl)
      λ r h. (h.0, h.1)
