-- ===== src/Kernel/Proc/Tests.antt =====
-- The theorems about the process table at concrete inputs.
use mathlib.Core.Option.{some-injective, none-ne-some}
use os_lab_project.Prelude.{
  ℕ, zero, suc, ◌≡◌, ◌≢◌, refl, sym, ap, true, false, Option, none, some, [], ◌∷◌, write, ◌+ℤ◌, ℤ,
  pos, minus_one, inl, ◌⊎◌,
}
use os_lab_project.Kernel.Proc.{Proc, zeroed, running, zombie}
use os_lab_project.Kernel.Proc.Life.{
  Services, Table, kfork, spawn, make_child, allocproc, alloc_at, allocpid, find_unused, freeproc,
  fresh_page,
}
use os_lab_project.Kernel.Proc.Exit.{kwait, kwaitpid}
use os_lab_project.Kernel.Proc.Wait.{kwaitpid-kwait}
use os_lab_project.Kernel.Proc.Face.{absent, live, Face, face, view}
use os_lab_project.Kernel.Proc.Tree.{Rooted, HasParent}
use os_lab_project.Kernel.Strings.{safestrcpy, copy_string}
use os_lab_project.Kernel.Proc.Family.{start, later, forks, Reach-Rooted}

-- The number of free pages; a page table takes one.
abbrev pages : Services ℕ
pages = record {
  kalloc = λ m. elim m [ zero ↦ (false, zero) | suc k ↦ (true, k) ];
  kfree = suc;
  proc_pagetable = λ m. elim m [ zero ↦ (none, zero) | suc k ↦ (some k, k) ];
  proc_freepagetable = λ pt sz m. suc m;
  uvmunmap = λ pt va n m. m;
  uvmfree = λ pt sz m. suc m;
  uvmcopy = λ from to sz m. (true, m);
  uvmmirror = λ from to sz m. (true, m);
  filedup = λ f m. m;
  fileclose = λ f m. m;
  idup = λ f m. m;
  iput = λ f m. m;
  copyout = λ pt a v m. (true, m);
}

abbrev at_address : ℕ → ℕ
at_address i = suc i

abbrev first : Proc
first = record zeroed {
  state = running;
  pid = pos 1;
  pagetable = some 9;
  trapframe = some fresh_page;
  cwd = some 1;
}

-- The first process and a child that has exited.
abbrev with_zombie : Table ℕ
with_zombie = record {
  procs = first ∷ record zeroed { state = zombie; pid = pos 2; parent = some 0 } ∷ [];
  nextpid = pos 3;
  rest = 4;
}

kwaitpid-kwait_example :
    kwaitpid at_address pages minus_one 8 (pos 0) 0 with_zombie
    ≡ kwait at_address pages 0 8 with_zombie
kwaitpid-kwait_example = kwaitpid-kwait at_address pages minus_one 8 (pos 0) 0 with_zombie refl refl

-- The first process and a free entry.
abbrev alone : Table ℕ
alone = record { procs = first ∷ zeroed ∷ []; nextpid = pos 2; rest = 4 }

alone-Rooted : Rooted 0 (view alone.procs)
alone-Rooted = ((record { at_stage = live; child_of = none }, refl, refl), others)
  where
    others :
        (i : ℕ) (f : Face)
        → view alone.procs i ≡ some f
        → f.at_stage ≢ absent
        → (i ≡ 0) ⊎ HasParent (view alone.procs) f
    others zero f at here = inl refl
    others (suc zero) f at here =
        absurd (here (ap (λ (x : Face). x.at_stage) (sym (some-injective (face zeroed) f at))))
    others (suc (suc i)) f at here = absurd (none-ne-some f at)

abbrev table_after : Option (ℤ × Table ℕ) → Table ℕ
table_after none = alone
table_after (some (r, t)) = t

forked : Table ℕ
unfolding kfork spawn make_child allocproc alloc_at allocpid find_unused freeproc safestrcpy
    copy_string write ◌+ℤ◌
forked = table_after (kfork pages 0 alone)

Reach-Rooted_example : Rooted 0 (view forked.procs)
unfolding forked kfork spawn make_child allocproc alloc_at allocpid find_unused freeproc safestrcpy
    copy_string write ◌+ℤ◌
Reach-Rooted_example =
    Reach-Rooted pages at_address 0 alone forked alone-Rooted
      (later start (forks 0 (pos 2) (first, refl, refl) refl))
