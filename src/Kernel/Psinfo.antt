-- ===== src/Kernel/Psinfo.antt =====
-- `psinfo` of Group6_Project1/kernel/proc.c and psinfo.h. `none` is an access outside an array.
pub mod Report
use os_lab_project.Prelude.{
  ℕ, zero, suc, ◌+◌, Bool, true, false, Option, none, some, List, [], ◌∷◌, ◌>>=◌, if◌then◌else◌, ℤ,
  pos, minus_one, leb_ℤ,
}
use os_lab_project.Kernel.Strings.{safestrcpy}
use os_lab_project.Kernel.Proc.{Proc, ProcState, unused, used, sleeping, runnable, running, zombie}
use os_lab_project.Kernel.Proc.Life.{is_unused}

-- `struct procinfo`
pub record ProcInfo : Type 0 where
  pub pid : ℤ
  pub name : List ℕ
  pub state : List ℕ

-- `states`
abbrev pub states : ProcState → List ℕ
states unused = 85 ∷ 78 ∷ 85 ∷ 83 ∷ 69 ∷ 68 ∷ 0 ∷ []
states used = 85 ∷ 83 ∷ 69 ∷ 68 ∷ 0 ∷ []
states sleeping = 83 ∷ 76 ∷ 69 ∷ 69 ∷ 80 ∷ 73 ∷ 78 ∷ 71 ∷ 0 ∷ []
states runnable = 82 ∷ 85 ∷ 78 ∷ 78 ∷ 65 ∷ 66 ∷ 76 ∷ 69 ∷ 0 ∷ []
states running = 82 ∷ 85 ∷ 78 ∷ 78 ∷ 73 ∷ 78 ∷ 71 ∷ 0 ∷ []
states zombie = 90 ∷ 79 ∷ 77 ∷ 66 ∷ 73 ∷ 69 ∷ 0 ∷ []

-- `info` is one variable: each process writes over what the last has left in it.
unfoldable pub fill_info : Proc → ProcInfo → Option ProcInfo
fill_info p info = safestrcpy info.name p.name (pos 16) >>= λ name.
    safestrcpy info.state (states p.state) (pos 10) >>= λ state.
    some (record { pid = p.pid; name = name; state = state })

-- The loop of `psinfo`, with what `copyout` says to the entry at an index: the result, and the
-- entries that the user gets.
unfoldable pub psinfo_from :
    (ℕ → ProcInfo → Bool) → ℤ → ℕ → ProcInfo → List Proc → Option (ℤ × List ProcInfo)
unfolding fill_info
psinfo_from copyout max count info [] = some (pos count, [])
psinfo_from copyout max count info (p ∷ ps) =
    let skip = psinfo_from copyout max count info ps in
    let report = fill_info p info >>= λ i.
    (let rest = psinfo_from copyout max (count + 1) i ps in
      if copyout count i then (rest >>= λ r. some (r.0, i ∷ r.1)) else some (minus_one, [])) in
    if is_unused p.state
    then skip
    else if leb_ℤ max (pos count)
    then some (pos count, [])
    else report

-- What stands in `info` at the start is not initialised.
unfoldable pub psinfo :
    (ℕ → ProcInfo → Bool) → ProcInfo → ℤ → List Proc → Option (ℤ × List ProcInfo)
unfolding psinfo_from
psinfo copyout garbage max ps = psinfo_from copyout max 0 garbage ps
