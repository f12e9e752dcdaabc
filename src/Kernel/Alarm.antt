-- ===== src/Kernel/Alarm.antt =====
-- The alarms of Group6_Project1/kernel: `sys_alarm` of sysproc.c, the timer interrupt of
-- `usertrap` in trap.c, `alarm_return` of proc.c and what `syscall` of syscall.c does with its
-- result, on the fields of `struct proc` that they use.
pub mod Cycle
use os_lab_project.Prelude.{
  ℕ, Bool, true, false, not, ◌&&◌, Option, none, some, List, [], ◌∷◌, set, ◌>>=◌, ℤ, pos, ltb_ℤ,
  leb_ℤ, ◌+ℤ◌, if◌then◌else◌,
}

-- `struct trapframe`: the program counter and the other registers.
pub record Trapframe : Type 0 where
  pub epc : ℕ
  pub registers : List ℕ

-- `none` is a null `alarm_trapframe`.
pub record Alarmed : Type 0 where
  pub trapframe : Trapframe
  pub alarm_interval : ℤ
  pub alarm_ticks : ℤ
  pub alarm_handler : ℕ
  pub alarm_trapframe : Option Trapframe
  pub alarm_active : Bool

unfoldable pub sys_alarm : ℤ → ℕ → Alarmed → Alarmed
sys_alarm interval handler p = record p {
  alarm_interval = interval;
  alarm_handler = handler;
  alarm_ticks = pos 0;
  alarm_active = false;
}

-- The alarm fires, if `kalloc` has a page for the backup.
unfoldable pub fire : Bool → Alarmed → Alarmed
fire has_page p =
    if has_page
    then record p {
      alarm_trapframe = some p.trapframe;
      trapframe = record trapframe { epc = p.alarm_handler };
      alarm_active = true;
      alarm_ticks = pos 0;
    }
    else record p { alarm_trapframe = none }
  where
    open p use {trapframe}

-- A timer interrupt.
unfoldable pub timer_tick : Bool → Alarmed → Alarmed
unfolding fire
timer_tick has_page p =
    if ltb_ℤ (pos 0) p.alarm_interval && not p.alarm_active
    then (let q = record p { alarm_ticks = p.alarm_ticks +ℤ pos 1 } in
        if leb_ℤ q.alarm_interval q.alarm_ticks then fire has_page q else q)
    else p

-- `alarm_return`, with its result; `none` is the copy from a null pointer, which the code does not
-- exclude.
unfoldable pub alarm_return : Alarmed → Option (ℕ × Alarmed)
alarm_return p = elim p.alarm_trapframe [
  | none ↦ none
  | some saved ↦ some (
    0,
    record p {
      trapframe = saved;
      alarm_trapframe = none;
      alarm_active = false;
      alarm_ticks = pos 0;
    },
  )
]

-- The index of `a0` among the registers.
abbrev pub a0 : ℕ
a0 = 13

abbrev pub with_a0 : ℕ → Trapframe → Trapframe
with_a0 v f = record f { registers = set f.registers a0 v }

-- `p->trapframe->a0 = syscalls[num]()`
unfoldable pub syscall : (Alarmed → Option (ℕ × Alarmed)) → Alarmed → Option Alarmed
syscall call p = call p >>= λ (v, q). some (record q { trapframe = with_a0 v q.trapframe })

-- Timer interrupts, each with the trapframe in which the trap saved the registers of then, and with
-- a page to be had.
unfoldable pub ticks : List Trapframe → Alarmed → Alarmed
unfolding timer_tick
ticks [] p = p
ticks (own ∷ later) p = ticks later (timer_tick true (record p { trapframe = own }))
