-- ===== src/Kernel/Psinfo/Report/Tests.antt =====
-- The theorem about `psinfo` at a concrete input.
use os_lab_project.Prelude.{
  ℕ, ◌≡◌, refl, some, List, [], ◌∷◌, replicate, pos, get_elem?, write, ◌>>=◌,
}
use os_lab_project.Kernel.Proc.{Proc, zeroed, running, sleeping}
use os_lab_project.Kernel.Psinfo.{ProcInfo, psinfo, psinfo_from, fill_info}
use os_lab_project.Kernel.Strings.{safestrcpy, copy_string}
use os_lab_project.Kernel.Psinfo.Report.{accepts, Report}

abbrev sh : Proc
sh = record zeroed { state = running; pid = pos 2; name = 115 ∷ 104 ∷ replicate 14 0 }

abbrev table : List Proc
table = zeroed ∷ sh ∷ record sh { state = sleeping; pid = pos 3 } ∷ []

abbrev stack : ProcInfo
stack = record { pid = pos 0; name = replicate 16 170; state = replicate 10 170 }

-- Bytes that stood in the variable after the text reach the user.
left_over :
    (◌>>=◌ {B = ℕ}
      (psinfo accepts stack (pos 1) table)
      λ r. get_elem? r.1 0 >>= λ i. get_elem? i.name 4)
    ≡ some 170
unfolding psinfo psinfo_from fill_info safestrcpy copy_string write
left_over = refl
