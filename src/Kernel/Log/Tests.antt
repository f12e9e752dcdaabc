-- ===== src/Kernel/Log/Tests.antt =====
-- The theorems about the log at concrete inputs.
use mathlib.Core.Option.{some-injective}
use os_lab_project.Prelude.{
  ℕ, zero, suc, ◌≡◌, refl, sym, inl, inr, ◌⊎◌, true, false, some, [], ◌∷◌, replicate, pos, arith,
  write, index_cases, ap, ◌∙◌, ◌+ℤ◌, ◌-ℤ◌,
}
use os_lab_project.Kernel.Log.{
  LogHeader, Disk, Log, Run, done, crashed, panics, put_block, commit, boot, recover_from_log,
  log_write, begin_op, read_head, write_head, install_from, install_trans, write_log,
  write_log_from, bwrite, copy_block, copy_entries,
}
use os_lab_project.Kernel.Log.Install.{
  Home, Entry, IsHeader, Recoverable, Clean, Placed, Logged, put_block_ne, put_block_self,
}
use os_lab_project.Kernel.Log.Commit.{IsTransaction, comes_up, commit-Restarts}
use os_lab_project.Kernel.Log.Power.{Costs, commit-Costs, recover_from_log-Clean}
use os_lab_project.Kernel.Log.Space.{idle, begins, Fits, log_write-Calls}

-- The log is the blocks 2 to 32; block 40 is to become 7.
abbrev all_zero : ℕ → ℕ
all_zero b = 0

abbrev one_entry : LogHeader
one_entry = record { n = 1; block = 40 ∷ replicate 29 0 }

abbrev no_entry : LogHeader
no_entry = record { n = 0; block = replicate 30 0 }

-- The power lasts for the write of the log's block and that of the header.
abbrev changed : Log ℕ
changed = record {
  disk = record { blocks = all_zero; head = no_entry };
  cache = put_block all_zero 40 7;
  lh = one_entry;
  outstanding = pos 0;
  committing = true;
  power = 2;
}

abbrev disk_of : Run ℕ → Disk ℕ
disk_of (done s) = s.disk
disk_of (crashed d) = d
disk_of panics = changed.disk

left_behind : Disk ℕ
unfolding commit write_log write_log_from write_head copy_entries install_trans install_from bwrite
    copy_block write
left_behind = disk_of (commit 2 changed)

one_entry-IsHeader : IsHeader 2 one_entry
one_entry-IsHeader = (omega arith, refl, home)
  where
    home : (i b : ℕ) → Entry one_entry i b → Home 2 b
    home zero b e = inr (omega (arith, some-injective 40 b e.1))
    home (suc i) b e = absurd (omega (arith, e.0))

changed-IsTransaction : IsTransaction 2 all_zero changed
changed-IsTransaction = (one_entry-IsHeader, (refl, refl, λ b h. refl), placed)
  where
    placed : Placed 2 one_entry (put_block all_zero 40 7) 0 all_zero
    placed b h = elim (index_cases b 40) [
      | inl e ↦ inr (0, omega arith, (omega arith, ap some (sym e)))
      | inr ne ↦ inl (sym (put_block_ne all_zero 40 b 7 ne))
    ]

came_up : Disk ℕ
unfolding recover_from_log boot read_head write_head copy_entries install_trans install_from bwrite
    copy_block write left_behind
came_up = disk_of (recover_from_log 2 (boot 5 left_behind))

commit-Restarts_example : Clean 2 all_zero came_up ⊎ Clean 2 (put_block all_zero 40 7) came_up
unfolding left_behind came_up commit write_log write_log_from write_head copy_entries install_trans
    install_from bwrite copy_block write recover_from_log boot read_head
commit-Restarts_example =
    commit-Restarts 2 all_zero changed left_behind came_up changed-IsTransaction refl
      (comes_up 5 refl)

-- The disk on which the header is written and nothing is installed.
abbrev committed : Disk ℕ
committed = record { blocks = put_block all_zero 3 7; head = one_entry }

committed-Recoverable : Recoverable 2 (put_block all_zero 40 7) committed
committed-Recoverable = (one_entry-IsHeader, logged, placed)
  where
    logged : Logged 2 one_entry (put_block all_zero 40 7) 1 (put_block all_zero 3 7)
    logged zero b l e = sym (put_block_self all_zero 40 b 7 (sym (some-injective 40 b e.1)))
    logged (suc i) b l e = absurd (omega (arith, e.0))

    placed : Placed 2 one_entry (put_block all_zero 40 7) 0 (put_block all_zero 3 7)
    placed b h = elim (index_cases b 40) [
      | inl e ↦ inr (0, omega arith, (omega arith, ap some (sym e)))
      | inr ne ↦ inl (
          put_block_ne all_zero 3 b 7
            (λ e. elim h [ inl low ↦ omega arith | inr high ↦ omega arith ])
          ∙ sym (put_block_ne all_zero 40 b 7 ne))
    ]

recover_from_log-Clean_example :
    (t : Log ℕ) × (recover_from_log 2 (boot 2 committed) ≡ done t)
    × Clean 2 (put_block all_zero 40 7) t.disk
recover_from_log-Clean_example =
    recover_from_log-Clean 2 (put_block all_zero 40 7) committed 2 committed-Recoverable
      (omega arith)

commit-Costs_example : Costs 2 4 0 (commit 2 changed)
commit-Costs_example = commit-Costs 2 changed

abbrev at_rest : Log ℕ
at_rest = record changed { lh = no_entry; committing = false }

abbrev one_call : Log ℕ
one_call = record at_rest { outstanding = pos 1 }

log_write-Calls_example : (t : Log ℕ) × (log_write 40 one_call ≡ done t) × Fits t (9 ∷ [])
unfolding begin_op ◌+ℤ◌ ◌-ℤ◌
log_write-Calls_example =
    log_write-Calls 2 at_rest one_call (10 ∷ []) 0 9 40 (omega arith, refl, refl, refl, tt)
      (begins idle refl) refl
