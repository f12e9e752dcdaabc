-- ===== src/Kernel/Semaphore.antt =====
-- Group6_Project1/kernel/sysproc.c: `sys_sem_wait` and `sys_sem_post`. The value is an `int` in
-- the user memory that the threads share; `copyin` and `copyout` of vm.c move it, and are
-- parameters. What a call does under `sem_lock` is one step.
pub mod Wakeups
pub mod Interleaving
pub mod Bytes
use os_lab_project.Prelude.{
  ℕ, zero, suc, ◌+◌, Bool, true, false, Option, none, some, List, [], ◌∷◌, ◌>>=◌, ℤ, pos, negsuc,
  int_max, minus_one, ◌==ℤ◌, ltb_ℤ, ◌+ℤ◌, ◌-ℤ◌, if◌then◌else◌, get_elem?,
}
use os_lab_project.Kernel.Proc.{Proc, wakeup, fall_asleep}

pub record Machine (U : Type 0) : Type 0 where
  pub memory : U
  pub procs : List Proc

-- A call returns, or its caller sleeps on the semaphore and tries again when it runs.
pub data Answer : Type 0 where
  returns : ℤ → Answer
  sleeps : Answer

-- `semval++` on 32 bits: past the greatest int comes the least.
unfoldable pub increment : ℤ → ℤ
increment v = if v ==ℤ pos int_max then negsuc int_max else v +ℤ pos 1

module _ {U : Type 0} (copyin : U → ℕ → Option ℤ) (copyout : U → ℕ → ℤ → Option U) where
  -- `semval > 0`: the value is taken down by one.
  unfoldable pub take_down : ℕ → ℤ → Machine U → Answer × Machine U
  take_down semaddr semval m = elim (copyout m.memory semaddr (semval -ℤ pos 1)) [
    | none ↦ (returns minus_one, m)
    | some u ↦ (returns (pos 0), record m { memory = u })
  ]

  -- One pass of the loop of `sys_sem_wait` by process i.
  unfoldable pub sem_wait : ℕ → ℕ → Machine U → Option (Answer × Machine U)
  unfolding take_down fall_asleep
  sem_wait i semaddr m = get_elem? m.procs i >>= λ p. elim (copyin m.memory semaddr) [
    | none ↦ some (returns minus_one, m)
    | some semval ↦
        if ltb_ℤ (pos 0) semval
        then some (take_down semaddr semval m)
        else if p.killed
        then some (returns minus_one, m)
        else (fall_asleep i semaddr m.procs >>= λ ps. some (sleeps, record m { procs = ps }))
  ]

  unfoldable pub sem_post : ℕ → ℕ → Machine U → ℤ × Machine U
  unfolding increment wakeup
  sem_post i semaddr m = elim (copyin m.memory semaddr) [
    | none ↦ (minus_one, m)
    | some semval ↦ elim (copyout m.memory semaddr (increment semval)) [
      | none ↦ (minus_one, m)
      | some u ↦ (pos 0, record m { memory = u; procs = wakeup i semaddr 0 m.procs })
    ]
  ]
