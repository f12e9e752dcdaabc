-- ===== src/Kernel/Proc.antt =====
-- Group6_Project1/kernel/proc.c and proc.h: the process table, and sleeping, waking and killing. A
-- process is named by its index in `proc[NPROC]`; a function that holds `p->lock` around what it
-- does to p is one update of the entry.
pub mod Life
pub mod Exit
pub mod Scan
pub mod Wait
pub mod Face
pub mod Tree
pub mod Birth
pub mod Leave
pub mod Family
mod Tests
use os_lab_project.Prelude.{
  ℕ, ◌+◌, Bool, true, false, not, ◌&&◌, Option, none, some, List, [], ◌∷◌, ◌>>=◌, ℤ, pos, minus_one,
  ◌==◌, ◌==ℤ◌, if◌then◌else◌, get_elem?, set, replicate, ◌≡◌,
}
use os_lab_project.Kernel.Alarm.{Trapframe}

pub data ProcState : Type 0 where
  unused : ProcState
  used : ProcState
  sleeping : ProcState
  runnable : ProcState
  running : ProcState
  zombie : ProcState

abbrev pub is_sleeping : ProcState → Bool
is_sleeping sleeping = true
is_sleeping _ = false

-- The fields of `struct proc`, less the lock, the kernel's stack and the saved context. A channel
-- is an address; page tables, files and inodes are named by number.
pub record Proc : Type 0 where
  pub state : ProcState
  pub chan : ℕ
  pub killed : Bool
  pub xstate : ℤ
  pub pid : ℤ
  pub parent : Option ℕ
  pub sz : ℕ
  pub pagetable : Option ℕ
  pub trapframe : Option Trapframe
  pub ofile : List (Option ℕ)
  pub cwd : Option ℕ
  pub name : List ℕ
  pub is_thread : Bool
  pub alarm_interval : ℤ
  pub alarm_ticks : ℤ
  pub alarm_handler : ℕ
  pub alarm_trapframe : Option Trapframe
  pub alarm_active : Bool

-- An entry of `proc` at the start.
abbrev pub zeroed : Proc
zeroed = record {
  state = unused;
  chan = 0;
  killed = false;
  xstate = pos 0;
  pid = pos 0;
  parent = none;
  sz = 0;
  pagetable = none;
  trapframe = none;
  ofile = replicate 16 none;
  cwd = none;
  name = replicate 16 0;
  is_thread = false;
  alarm_interval = pos 0;
  alarm_ticks = pos 0;
  alarm_handler = 0;
  alarm_trapframe = none;
  alarm_active = false;
}

-- `p->state == SLEEPING && p->chan == chan`
abbrev pub sleeps_on : ℕ → Proc → Bool
sleeps_on chan p = is_sleeping p.state && p.chan == chan

-- The processes from index i on, when process `me` calls `wakeup`.
unfoldable pub wakeup : ℕ → ℕ → ℕ → List Proc → List Proc
wakeup me chan i [] = []
wakeup me chan i (p ∷ ps) =
    (if not (i == me) && sleeps_on chan p then record p { state = runnable } else p)
    ∷ wakeup me chan (i + 1) ps

-- The victim is killed, and wakes if it sleeps.
abbrev pub kill_one : Proc → Proc
kill_one p =
    if is_sleeping p.state
    then record p { killed = true; state = runnable }
    else record p { killed = true }

-- The first process with the pid; the result is 0, or -1 if there is none.
unfoldable pub kkill : ℤ → List Proc → ℤ × List Proc
kkill pid [] = (minus_one, [])
kkill pid (p ∷ ps) =
    let (r, qs) = kkill pid ps in if p.pid ==ℤ pid then (pos 0, kill_one p ∷ ps) else (r, p ∷ qs)

unfoldable pub setkilled : ℕ → List Proc → Option (List Proc)
setkilled i ps = get_elem? ps i >>= λ p. some (set ps i (record p { killed = true }))

-- `sleep` up to `sched`: process i sleeps on the channel.
unfoldable pub fall_asleep : ℕ → ℕ → List Proc → Option (List Proc)
fall_asleep i chan ps =
    get_elem? ps i >>= λ p. some (set ps i (record p { chan = chan; state = sleeping }))

-- `sleep` after `sched`.
unfoldable pub tidy_up : ℕ → List Proc → Option (List Proc)
tidy_up i ps = get_elem? ps i >>= λ p. some (set ps i (record p { chan = 0 }))

-- `yield` up to `sched`.
unfoldable pub give_way : ℕ → List Proc → Option (List Proc)
give_way i ps = get_elem? ps i >>= λ p. some (set ps i (record p { state = runnable }))

-- The CPU's scheduler takes process i if it may run.
unfoldable pub run_one : ℕ → List Proc → Option (List Proc)
run_one i ps = get_elem? ps i >>= λ p.
    some (elim p.state [ runnable ↦ set ps i (record p { state = running }) | _ ↦ ps ])

-- Process i runs.
abbrev pub IsRunning : ℕ → List Proc → Type 0
IsRunning i ps = (p : Proc) × (get_elem? ps i ≡ some p) × (p.state ≡ running)
