-- ===== src/Kernel/Alarm/Cycle.antt =====
-- One cycle of an alarm.
use os_lab_project.Prelude.{
  ℕ, ◌+◌, ◌<◌, ◌≡◌, refl, ap, ◌∙◌, Bool, true, false, ◌&&◌, none, some, List, [], ◌∷◌, length,
  arith, pos, ltb_ℤ, leb_ℤ, ◌+ℤ◌, +ℤ_parts, eq_of_parts,
}
use os_lab_project.Kernel.Alarm.{
  Trapframe, Alarmed, sys_alarm, fire, timer_tick, alarm_return, ticks, syscall, with_a0,
}

-- The last trapframe of a list, or f.
abbrev pub last_from : Trapframe → List Trapframe → Trapframe
last_from f [] = f
last_from f (g ∷ gs) = last_from g gs

add_one : (k : ℕ) → pos k +ℤ pos 1 ≡ pos (k + 1)
add_one k = eq_of_parts _ _ (omega (arith, +ℤ_parts (pos k) (pos 1)))

module _ (n : ℕ) (handler : ℕ) (p : Alarmed) where
  abbrev pub armed : Alarmed
  armed = sys_alarm (pos n) handler p

  -- The alarm when k of its ticks have passed, the process having come to f.
  abbrev pub counted : ℕ → Trapframe → Alarmed
  counted k f = record armed { alarm_ticks = pos k; trapframe = f }

  -- The process in its handler, which interrupts it at f.
  abbrev pub fired : Trapframe → Alarmed
  fired f = record armed {
    alarm_trapframe = some f;
    trapframe = record { epc = handler; registers = f.registers };
    alarm_active = true;
    alarm_ticks = pos 0;
  }

  active_test : (k : ℕ) → k < n → (ltb_ℤ (pos 0) (pos n) && true) ≡ true
  active_test k less = ground arith

  early_test : (k : ℕ) → k + 1 < n → leb_ℤ (pos n) (pos (k + 1)) ≡ false
  early_test k less = ground arith

  due_test : (k : ℕ) → k + 1 ≡ n → leb_ℤ (pos n) (pos (k + 1)) ≡ true
  due_test k e = ground arith

  tick_waits :
      (k : ℕ) (f : Trapframe) → k + 1 < n → timer_tick true (counted k f) ≡ counted (k + 1) f
  unfolding timer_tick sys_alarm
  tick_waits k f less = rw (active_test k (omega arith), add_one k, early_test k less) refl

  tick_fires : (k : ℕ) (f : Trapframe) → k + 1 ≡ n → timer_tick true (counted k f) ≡ fired f
  unfolding timer_tick sys_alarm fire
  tick_fires k f e = rw (active_test k (omega arith), add_one k, due_test k e) refl

  ticks_wait :
      (k : ℕ) (f : Trapframe) (seen : List Trapframe)
      → k + length seen < n
      → ticks seen (counted k f) ≡ counted (k + length seen) (last_from f seen)
  unfolding ticks sys_alarm
  ticks_wait k f [] less = ap (λ j. counted j f) (omega arith)
  ticks_wait k f (g ∷ gs) less =
      ap (ticks gs) (tick_waits k g (omega arith))
      ∙ ticks_wait (k + 1) g gs (omega arith)
      ∙ ap (λ j. counted j (last_from g gs)) (omega arith)

  ticks_fire :
      (k : ℕ) (f : Trapframe) (seen : List Trapframe)
      → k < n
      → k + length seen ≡ n
      → ticks seen (counted k f) ≡ fired (last_from f seen)
  unfolding ticks sys_alarm
  ticks_fire k f [] less e = absurd (omega arith)
  ticks_fire k f (g ∷ []) less e = tick_fires k g (omega arith)
  ticks_fire k f (g ∷ h ∷ gs) less e =
      ap (ticks (h ∷ gs)) (tick_waits k g (omega arith))
      ∙ ticks_fire (k + 1) g (h ∷ gs) (omega arith) (omega arith)

  -- An alarm of n > 0 ticks, at whose timer interrupts the process is found with the trapframes
  -- `seen`: after fewer than n of them nothing has changed but the process's own trapframe and the
  -- count of ticks; the n-th sends it to the handler with its registers kept and a backup of the
  -- trapframe found then, if there is a page for it.
  pub ticks-fired :
      0 < n
      → (seen : List Trapframe)
      → (length seen < n → ticks seen armed ≡ counted (length seen) (last_from p.trapframe seen))
        × (length seen ≡ n → ticks seen armed ≡ fired (last_from p.trapframe seen))
  unfolding sys_alarm
  ticks-fired some_ticks seen = (
    λ less.
        ticks_wait 0 p.trapframe seen (omega arith)
        ∙ ap (λ j. counted j (last_from p.trapframe seen)) (omega arith),
    λ e. ticks_fire 0 p.trapframe seen some_ticks (omega arith),
  )

  -- The handler, which has come to own.
  abbrev pub handling : Trapframe → Trapframe → Alarmed
  handling f own = record (fired f) { trapframe = own }

  ticks-handling :
      (f own : Trapframe) (seen : List Trapframe)
      → ticks seen (handling f own) ≡ handling f (last_from own seen)
  unfolding ticks timer_tick sys_alarm
  ticks-handling f own [] = refl
  ticks-handling f own (g ∷ gs) =
      ap (ticks gs) (rw (never (ltb_ℤ (pos 0) (pos n))) refl) ∙ ticks-handling f g gs
    where
      never : (b : Bool) → (b && false) ≡ false
      never true = refl
      never false = refl

  -- Whatever the handler does to its trapframe and however many timer interrupts find it there: its
  -- system call `alarm_return` brings the process back to the trapframe f that the alarm interrupted
  -- but for a0, which becomes 0, the result of the call; the alarm counts from 0 again.
  pub alarm_return-handling :
      (f own at_call : Trapframe) (seen : List Trapframe)
      → syscall alarm_return (record (ticks seen (handling f own)) { trapframe = at_call })
        ≡ some (record armed { trapframe = with_a0 0 f; alarm_trapframe = none })
  unfolding syscall alarm_return sys_alarm
  alarm_return-handling f own at_call seen =
      ap (λ q. syscall alarm_return (record q { trapframe = at_call })) (ticks-handling f own seen)
