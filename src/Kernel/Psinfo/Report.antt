-- ===== src/Kernel/Psinfo/Report.antt =====
-- What `psinfo` of Group6_Project1/kernel/proc.c reports to the user.
mod Tests
use mathlib.Core.Option.{none-ne-some}
use os_lab_project.Prelude.{
  ℕ, ◌≤◌, ◌<◌, ◌≡◌, Bool, true, false, Option, none, some, List, [], ◌∷◌, if◌then◌else◌, length, ℤ,
  minus_one, Option-cases,
}
use os_lab_project.Kernel.Strings.Text.{text, take}
use os_lab_project.Kernel.Proc.{Proc}
use os_lab_project.Kernel.Proc.Life.{is_unused}
use os_lab_project.Kernel.Psinfo.{ProcInfo, states}

abbrev pub in_use : List Proc → List Proc
in_use [] = []
in_use (p ∷ ps) = if is_unused p.state then in_use ps else p ∷ in_use ps

abbrev pub HasName : Proc → Type 0
HasName p = (str : List ℕ) × (text p.name ≡ some str)

-- The entry shows the pid, the state and the first 15 characters of the name.
abbrev pub Shows : Proc → ProcInfo → Type 0
Shows p i =
    (i.pid ≡ p.pid)
    × (text i.state ≡ text (states p.state))
    × ((str : List ℕ) → text p.name ≡ some str → text i.name ≡ some (take 15 str))

abbrev pub Report : List Proc → List ProcInfo → Type 0
Report [] [] = Unit
Report (p ∷ ps) (i ∷ is) = Shows p i × Report ps is
Report _ _ = ⊥

-- The arrays of the entry have their size.
abbrev pub IsInfo : ProcInfo → Type 0
IsInfo i = (length i.name ≡ 16) × (length i.state ≡ 10)

abbrev pub accepts : ℕ → ProcInfo → Bool
accepts count i = true
