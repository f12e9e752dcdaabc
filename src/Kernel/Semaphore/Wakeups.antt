-- ===== src/Kernel/Semaphore/Wakeups.antt =====
-- What `wakeup`, `kkill` and the steps of the scheduler do to those who sleep on a channel.
use mathlib.Core.Path.{subst}
use mathlib.Core.Option.{some-injective, none-ne-some}
use os_lab_project.Prelude.{
  ℕ, suc, ◌+◌, ◌≡◌, refl, inl, inr, false, not, ◌&&◌, some, List, [], ◌∷◌, arith, ◌==◌,
  if◌then◌else◌, get_elem?, set, All, All-set, All-get, Bool-cases, Option-cases, ℤ, ◌==ℤ◌,
}
use os_lab_project.Kernel.Proc.{
  Proc, ProcState, unused, used, sleeping, runnable, running, zombie, is_sleeping, sleeps_on,
  wakeup, kkill, kill_one, tidy_up, give_way, run_one, IsRunning,
}

-- No process sleeps on the channel.
abbrev pub Awake : ℕ → List Proc → Type 0
Awake chan = All λ p. sleeps_on chan p ≡ false

pub wakeup-Awake :
    (me chan i : ℕ) (ps : List Proc)
    → ((k : ℕ) (p : Proc) → get_elem? ps k ≡ some p → i + k ≡ me → sleeps_on chan p ≡ false)
    → Awake chan (wakeup me chan i ps)
unfolding wakeup
wakeup-Awake me chan i [] self = tt
wakeup-Awake me chan i (p ∷ ps) self =
    (woken, wakeup-Awake me chan (i + 1) ps (λ k q at e. self (suc k) q at (omega arith)))
  where
    woken :
        sleeps_on chan
          (if not (i == me) && sleeps_on chan p then record p { state = runnable } else p)
        ≡ false
    woken = elim (Bool-cases (i == me)) [
      | inl e ↦ rw e (self 0 p refl (ground arith))
      | inr e ↦ rw e (elim (Bool-cases (sleeps_on chan p)) [ inl s ↦ rw s refl | inr s ↦ rw s s ])
    ]

pub wakeup_keeps :
    (me chan other i : ℕ) (ps : List Proc) → Awake other ps → Awake other (wakeup me chan i ps)
unfolding wakeup
wakeup_keeps me chan other i [] h = tt
wakeup_keeps me chan other i (p ∷ ps) h = (
  elim (Bool-cases (not (i == me) && sleeps_on chan p)) [ inl e ↦ rw e refl | inr e ↦ rw e h.0 ],
  wakeup_keeps me chan other (i + 1) ps h.1,
)

kill_one_keeps :
    (chan : ℕ) (p : Proc) → sleeps_on chan p ≡ false → sleeps_on chan (kill_one p) ≡ false
kill_one_keeps chan p h = elim (Bool-cases (is_sleeping p.state)) [
  | inl e ↦ rw e refl
  | inr e ↦ rw e (rw e refl)
]

pub kkill_keeps :
    (chan : ℕ) (pid : ℤ) (ps : List Proc) → Awake chan ps → Awake chan (kkill pid ps).1
unfolding kkill
kkill_keeps chan pid [] h = tt
kkill_keeps chan pid (p ∷ ps) h = elim (Bool-cases (p.pid ==ℤ pid)) [
  | inl e ↦ rw e (kill_one_keeps chan p h.0, h.1)
  | inr e ↦ rw e (h.0, kkill_keeps chan pid ps h.1)
]

-- Writing back a process that does not sleep on the channel.
pub set_keeps :
    (chan i : ℕ) (p q : Proc) (ps : List Proc)
    → get_elem? ps i ≡ some p
    → (sleeps_on chan p ≡ false → sleeps_on chan q ≡ false)
    → Awake chan ps
    → Awake chan (set ps i q)
set_keeps chan i p q ps at keep h =
    All-set (λ r. sleeps_on chan r ≡ false) ps i q
      (keep (All-get (λ r. sleeps_on chan r ≡ false) ps i p h at)) h

-- The steps of the scheduler and of `sleep` after it.
pub give_way_keeps :
    (chan i : ℕ) (ps qs : List Proc) → give_way i ps ≡ some qs → Awake chan ps → Awake chan qs
unfolding give_way
give_way_keeps chan i ps qs e h = elim (Option-cases (get_elem? ps i)) [
  | inl absent ↦ absurd (none-ne-some qs (rw absent at e))
  | inr (p, at) ↦
      subst (Awake chan) (some-injective _ qs (rw at at e))
        (set_keeps chan i p (record p { state = runnable }) ps at (λ _. refl) h)
]

pub run_one_keeps :
    (chan i : ℕ) (ps qs : List Proc) → run_one i ps ≡ some qs → Awake chan ps → Awake chan qs
unfolding run_one
run_one_keeps chan i ps qs e h = elim (Option-cases (get_elem? ps i)) [
  | inl absent ↦ absurd (none-ne-some qs (rw absent at e))
  | inr (p, at) ↦ subst (Awake chan) (some-injective _ qs (rw at at e)) (taken p at p.state)
]
  where
    taken :
        (p : Proc)
        → get_elem? ps i ≡ some p
        → (s : ProcState)
        → Awake chan (elim s [ runnable ↦ set ps i (record p { state = running }) | _ ↦ ps ])
    taken p at runnable = set_keeps chan i p (record p { state = running }) ps at (λ _. refl) h
    taken p at unused = h
    taken p at used = h
    taken p at sleeping = h
    taken p at running = h
    taken p at zombie = h

pub tidy_up_keeps :
    (chan i : ℕ) (ps qs : List Proc)
    → IsRunning i ps
    → tidy_up i ps ≡ some qs
    → Awake chan ps
    → Awake chan qs
unfolding tidy_up
tidy_up_keeps chan i ps qs (p, at, run) e h =
    subst (Awake chan) (some-injective _ qs (rw at at e))
      (set_keeps chan i p (record p { chan = 0 }) ps at (λ _. rw run refl) h)
