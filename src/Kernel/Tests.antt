-- ===== src/Kernel/Tests.antt =====
-- The theorems about the kernel at concrete inputs.
use mathlib.Core.Option.{some-injective}
use mathlib.Core.Path.{subst}
use os_lab_project.Prelude.{
  ℕ, zero, suc, ◌+◌, ◌%◌, ◌≡◌, refl, sym, true, false, not, ◌||◌, Option, none, some, List, [], ◌∷◌,
  ◌++◌, arith, length, get_elem?, replicate, ℤ, pos, pos_part, ◌<ℤ◌, Runs, ◌+ℤ◌, int_laws,
}
use os_lab_project.Kernel.Pipe.{Pipe, pipewrite, piperead}
use os_lab_project.Kernel.Pipe.Fifo.{Holds}
use os_lab_project.Kernel.Pipe.Transfer.{Fetched, Ends, Moved, pipewrite-Fetched, piperead-Moved}
use os_lab_project.Kernel.Proc.{zeroed, sleeping, running}
use os_lab_project.Kernel.Semaphore.{Machine, sem_post}
use os_lab_project.Kernel.Semaphore.Bytes.{load, store, store-ReadsBack}
use os_lab_project.Kernel.Semaphore.Wakeups.{Awake}
use os_lab_project.Kernel.Semaphore.Interleaving.{posts, here, later, NoLostWakeup, Reach-Awake}
use os_lab_project.Prelude.{◌↔◌}
use os_lab_project.Kernel.Bytes.{memmove, memcmp}
use os_lab_project.Kernel.Bytes.Move.{Copied, memmove-Copied}
use os_lab_project.Kernel.Bytes.Compare.{SameBytes, memcmp-SameBytes}
use os_lab_project.Prelude.{◌<◌}
use os_lab_project.Kernel.Alarm.{Trapframe, Alarmed, ticks, alarm_return, syscall, with_a0}
use os_lab_project.Kernel.Alarm.Cycle.{
  armed, counted, fired, handling, last_from, ticks-fired, alarm_return-handling,
}

abbrev six_bytes : List ℕ
six_bytes = 1 ∷ 2 ∷ 3 ∷ 4 ∷ 5 ∷ 6 ∷ []

memmove-Copied_example : Runs (memmove 1 0 4 six_bytes) (Copied 1 0 4 six_bytes)
memmove-Copied_example = memmove-Copied 1 0 4 six_bytes (omega arith) (omega arith)

memcmp-SameBytes_example :
    Runs (memcmp 0 3 2 six_bytes) (λ r. (r ≡ pos 0) ↔ SameBytes 0 3 2 six_bytes)
memcmp-SameBytes_example = memcmp-SameBytes 0 3 2 six_bytes (omega arith) (omega arith)

-- A user memory in which every address holds its own number.
abbrev byte_at : ℕ → Option ℕ
byte_at a = some a

abbrev one_byte : Pipe
one_byte = record {
  data_bytes = 65 ∷ replicate 511 0;
  nread = 0;
  nwrite = 1;
  readopen = true;
  writeopen = true;
}

one_byte-Holds : Holds one_byte (65 ∷ [])
one_byte-Holds = record {
  whole = refl;
  fits = omega arith;
  reader = omega arith;
  writer = refl;
  ring = ring;
}
  where
    ring :
        (k x : ℕ)
        → get_elem? (65 ∷ []) k ≡ some x
        → get_elem? (65 ∷ replicate 511 0) ((0 + k) % 512) ≡ some x
    ring zero x at = at
    ring (suc k) x at = cc

pipewrite-Fetched_example : Runs (pipewrite byte_at false 1000 (pos 3) one_byte) (λ (out, qi).
    (ys : List ℕ) × Holds qi ((65 ∷ []) ++ ys)
    × Fetched byte_at 1000 0 ys
    × Ends byte_at 1000
        (not one_byte.readopen || false)
        ((65 ∷ []) ++ ys)
        (pos_part (pos 3))
        (length ys)
        out)
pipewrite-Fetched_example =
    pipewrite-Fetched byte_at 1000 false (pos 3) one_byte (65 ∷ []) one_byte-Holds

-- The bytes written so far, with their addresses.
abbrev note : List (ℕ × ℕ) → ℕ → ℕ → Option (List (ℕ × ℕ))
note u a b = some ((a, b) ∷ u)

piperead-Moved_example :
    Runs
      (piperead note 1000 false (pos 2) one_byte [])
      (λ (out, qi, v). Moved note 1000 false (pos_part (pos 2)) one_byte (65 ∷ []) [] out qi v)
piperead-Moved_example = piperead-Moved note 1000 false (pos 2) one_byte (65 ∷ []) [] one_byte-Holds

-- Process 0 sleeps on the semaphore at 8, process 1 runs.
abbrev waiting : Machine (ℕ → ℕ)
waiting = record {
  memory = λ a. 0;
  procs =
      record zeroed { state = sleeping; chan = 8; pid = pos 1 }
      ∷ record zeroed { state = running; pid = pos 2 }
      ∷ [];
}

waiting-NoLostWakeup : NoLostWakeup load store waiting
waiting-NoLostWakeup a v fit at more = absurd (below_zero v (some-injective (pos 0) v at) more)
  where
    below_zero : (w : ℤ) → pos 0 ≡ w → pos 0 <ℤ w → ⊥
    below_zero w e h = omega (arith, subst (λ x. pos 0 <ℤ x) (sym e) h)

Reach-Awake_example : Awake 8 (sem_post load store 1 8 waiting).1.procs
unfolding sem_post ◌+ℤ◌
Reach-Awake_example =
    Reach-Awake load store waiting (sem_post load store 1 8 waiting).1 store-ReadsBack
      waiting-NoLostWakeup (later here (posts 1 8 refl (_, refl, refl))) 8 (pos 1) refl refl
      (omega int_laws)

abbrev thread : Alarmed
thread = record {
  trapframe = record { epc = 100; registers = 7 ∷ [] };
  alarm_interval = pos 0;
  alarm_ticks = pos 0;
  alarm_handler = 0;
  alarm_trapframe = none;
  alarm_active = false;
}

-- What the timer interrupts find.
abbrev steps : List Trapframe
steps =
    record { epc = 104; registers = replicate 30 1 }
    ∷ record { epc = 112; registers = replicate 30 2 }
    ∷ []

ticks-fired_example :
    (length steps < 2
      → ticks steps (armed 2 500 thread)
        ≡ counted 2 500 thread (length steps) (last_from thread.trapframe steps))
    × (length steps ≡ 2
        → ticks steps (armed 2 500 thread) ≡ fired 2 500 thread (last_from thread.trapframe steps))
ticks-fired_example = ticks-fired 2 500 thread (omega arith) steps

-- The handler's first instruction, and its call.
abbrev entry : Trapframe
entry = record { epc = 500; registers = replicate 30 2 }

abbrev ecall : Trapframe
ecall = record { epc = 520; registers = replicate 30 7 }

alarm_return-handling_example :
    syscall alarm_return
      (record (ticks
        (ecall ∷ [])
        (handling 2 500 thread (last_from thread.trapframe steps) entry)) { trapframe = ecall })
    ≡ some (record (armed 2 500 thread) {
      trapframe = with_a0 0 (last_from thread.trapframe steps);
      alarm_trapframe = none;
    })
alarm_return-handling_example =
    alarm_return-handling 2 500 thread (last_from thread.trapframe steps) entry ecall (ecall ∷ [])
