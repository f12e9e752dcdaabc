-- ===== src/Kernel/Semaphore/Interleaving.antt =====
-- The calls of `sys_sem_wait` and `sys_sem_post` by all threads, in any order.
use mathlib.Core.Path.{subst}
use mathlib.Core.Option.{some-injective}
use mathlib.Core.Bool.{false≢true}
use os_lab_project.Prelude.{
  ℕ, int_max, ◌+◌, ◌%◌, ◌≤◌, ◌⊎◌, ◌≡◌, ◌≢◌, refl, sym, ap, ◌∙◌, inl, inr, true, false, Option, leb,
  ◌==ℤ◌, pos_part, neg_part, some, List, arith, ◌==◌, get_elem?, set, Bool-cases, Option-cases, ℤ,
  pos, ltb_ℤ, ◌<ℤ◌, ◌+ℤ◌, ◌-ℤ◌, Runs,
}
use os_lab_project.Kernel.Proc.{
  Proc, IsRunning, sleeping, running, sleeps_on, wakeup, kkill, fall_asleep, tidy_up, give_way,
  run_one,
}
use os_lab_project.Kernel.Semaphore.{Machine, Answer, increment, take_down, sem_wait, sem_post}
use os_lab_project.Kernel.Semaphore.Wakeups.{
  Awake, wakeup-Awake, wakeup_keeps, kkill_keeps, set_keeps, give_way_keeps, run_one_keeps,
  tidy_up_keeps,
}

eq_of : {a b : ℕ} → (a == b) ≡ true → a ≡ b
eq_of e = ground arith

ne_of : {a b : ℕ} → (a == b) ≡ false → a ≢ b
ne_of e h = ground arith

positive : (v : ℤ) → ltb_ℤ (pos 0) v ≡ true → pos 0 <ℤ v
positive v e = ground arith

is_positive : (v : ℤ) → pos 0 <ℤ v → ltb_ℤ (pos 0) v ≡ true
is_positive v h = ground arith

-- A process that runs does not sleep.
caller : (chan : ℕ) (p q : Proc) → p.state ≡ running → some p ≡ some q → sleeps_on chan q ≡ false
caller chan p q run same =
    let s : q.state ≡ running = ap (λ x. x.state) (sym (some-injective p q same)) ∙ run in rw s refl

-- The values of an `int`, and the addresses that a compiler gives to one.
abbrev pub IsInt : ℤ → Type 0
IsInt v = (pos_part v ≤ int_max) × (neg_part v ≤ int_max + 1)

abbrev pub IsAligned : ℕ → Type 0
IsAligned a = a % 4 ≡ 0

-- The four bytes at a and the four at b do not overlap.
abbrev pub Apart : ℕ → ℕ → Type 0
Apart a b = (a + 4 ≤ b) ⊎ (b + 4 ≤ a)

Apart-IsAligned : (a b : ℕ) → IsAligned a → IsAligned b → a ≢ b → Apart a b
Apart-IsAligned a b ha hb ne = elim (Bool-cases (leb a b)) [
  | inl less ↦ inl (ground arith)
  | inr more ↦ inr (ground arith)
]

increment-IsInt : (v : ℤ) → IsInt v → IsInt (increment v)
unfolding increment ◌+ℤ◌
increment-IsInt v h = elim (Bool-cases (v ==ℤ pos int_max)) [
  | inl e ↦ rw e (omega arith, omega arith)
  | inr e ↦ rw e (ground arith, ground arith)
]

decrement-IsInt : (v : ℤ) → ltb_ℤ (pos 0) v ≡ true → IsInt v → IsInt (v -ℤ pos 1)
unfolding ◌-ℤ◌
decrement-IsInt v more h = (ground arith, ground arith)

module _ {U : Type 0} (copyin : U → ℕ → Option ℤ) (copyout : U → ℕ → ℤ → Option U) where
  -- A step of a process that runs, of a CPU's scheduler, or of one that kills. The semaphores are
  -- aligned ints.
  pub data Step (m : Machine U) : Machine U → Type 0 where
    waits :
        (i semaddr : ℕ) (answer : Answer) {m' : Machine U}
        → IsAligned semaddr
        → IsRunning i m.procs
        → sem_wait copyin copyout i semaddr m ≡ some (answer, m')
        → Step m m'
    posts :
        (i semaddr : ℕ)
        → IsAligned semaddr
        → IsRunning i m.procs
        → Step m (sem_post copyin copyout i semaddr m).1
    kills : (pid : ℤ) → Step m (record m { procs = (kkill pid m.procs).1 })
    gives_way :
        (i : ℕ) {ps : List Proc} → give_way i m.procs ≡ some ps → Step m (record m { procs = ps })
    runs : (i : ℕ) {ps : List Proc} → run_one i m.procs ≡ some ps → Step m (record m { procs = ps })
    tidies :
        (i : ℕ) {ps : List Proc}
        → IsRunning i m.procs
        → tidy_up i m.procs ≡ some ps
        → Step m (record m { procs = ps })

  pub data Reach (m : Machine U) : Machine U → Type 0 where
    here : Reach m m
    later : {m' m'' : Machine U} → Reach m m' → Step m' m'' → Reach m m''

  -- No process sleeps on a semaphore whose value is positive.
  abbrev pub NoLostWakeup : Machine U → Type 0
  NoLostWakeup m =
      (semaddr : ℕ) (v : ℤ)
      → IsAligned semaddr
      → copyin m.memory semaddr ≡ some v
      → pos 0 <ℤ v
      → Awake semaddr m.procs

  -- What is read from user memory is an int; an int that is copied there can be read back, and an
  -- int apart from it that can be read afterwards was there before.
  abbrev pub ReadsBack : Type 0
  ReadsBack =
      ((u : U) (a : ℕ) (v : ℤ) → copyin u a ≡ some v → IsInt v)
      × ((u u' : U) (a : ℕ) (v : ℤ)
          → IsInt v
          → copyout u a v ≡ some u'
          → (copyin u' a ≡ some v)
            × ((b : ℕ) (w : ℤ) → Apart a b → copyin u' b ≡ some w → copyin u b ≡ some w))

  module _ (reads_back : ReadsBack) where
    take_down-NoLostWakeup :
        (semaddr : ℕ) (v : ℤ) (m : Machine U)
        → IsAligned semaddr
        → copyin m.memory semaddr ≡ some v
        → ltb_ℤ (pos 0) v ≡ true
        → NoLostWakeup m
        → NoLostWakeup (take_down copyin copyout semaddr v m).1
    unfolding take_down
    take_down-NoLostWakeup semaddr v m fit at more safe =
        elim (Option-cases (copyout m.memory semaddr (v -ℤ pos 1))) [
          | inl fails ↦ rw (take_down, fails) safe
          | inr (u, done) ↦
              rw (take_down, done)
                (λ b w fit' at' more'. elim (Bool-cases (semaddr == b)) [
                  | inl e ↦
                      subst (λ k. Awake k m.procs) (eq_of e)
                        (safe semaddr v fit at (positive v more))
                  | inr e ↦
                      safe b w fit'
                        ((reads_back.1 m.memory u semaddr (v -ℤ pos 1)
                            (decrement-IsInt v more (reads_back.0 m.memory semaddr v at)) done).1
                          b w (Apart-IsAligned semaddr b fit fit' (ne_of e)) at')
                        more'
                ])
        ]

    asleep :
        (semaddr i : ℕ) (p : Proc) (v : ℤ) (m : Machine U)
        → get_elem? m.procs i ≡ some p
        → copyin m.memory semaddr ≡ some v
        → ltb_ℤ (pos 0) v ≡ false
        → NoLostWakeup m
        → NoLostWakeup
            (record m { procs = set m.procs i (record p { chan = semaddr; state = sleeping }) })
    asleep semaddr i p v m at there none_left safe b w fit at' more =
        set_keeps b i p (record p { chan = semaddr; state = sleeping }) m.procs at
          (λ _. elim (Bool-cases (semaddr == b)) [
            | inl e ↦
                let same : v ≡ w =
                  some-injective v w (sym there ∙ ap (copyin m.memory) (eq_of e) ∙ at') in
                absurd (false≢true (sym none_left ∙ ap (ltb_ℤ (pos 0)) same ∙ is_positive w more))
            | inr e ↦ e
          ])
          (safe b w fit at' more)

    sem_wait-NoLostWakeup :
        (i semaddr : ℕ) (m : Machine U)
        → IsAligned semaddr
        → IsRunning i m.procs
        → NoLostWakeup m
        → Runs (sem_wait copyin copyout i semaddr m) (λ out. NoLostWakeup out.1)
    unfolding sem_wait
    sem_wait-NoLostWakeup i semaddr m fit (p, at, run) safe =
        rw at (elim (Option-cases (copyin m.memory semaddr)) [
          | inl fails ↦ rw fails safe
          | inr (v, there) ↦ rw there (elim (Bool-cases (ltb_ℤ (pos 0) v)) [
            | inl more ↦ rw more (take_down-NoLostWakeup semaddr v m fit there more safe)
            | inr zero_left ↦ rw zero_left (elim (Bool-cases p.killed) [
              | inl dead ↦ rw dead safe
              | inr alive ↦
                  rw (alive, fall_asleep, at) (asleep semaddr i p v m at there zero_left safe)
            ])
          ])
        ])

    sem_post-NoLostWakeup :
        (i semaddr : ℕ) (m : Machine U)
        → IsAligned semaddr
        → IsRunning i m.procs
        → NoLostWakeup m
        → NoLostWakeup (sem_post copyin copyout i semaddr m).1
    unfolding sem_post
    sem_post-NoLostWakeup i semaddr m fit (p, at, run) safe =
        elim (Option-cases (copyin m.memory semaddr)) [
          | inl fails ↦ rw (sem_post, fails) safe
          | inr (v, there) ↦ elim (Option-cases (copyout m.memory semaddr (increment v))) [
            | inl fails ↦ rw (sem_post, there, fails) safe
            | inr (u, done) ↦
                rw (sem_post, there, done)
                  (λ b w fit' at' more. elim (Bool-cases (semaddr == b)) [
                    | inl e ↦
                        subst (λ k. Awake k (wakeup i semaddr 0 m.procs)) (eq_of e)
                          (wakeup-Awake i semaddr 0 m.procs (λ k q there' mine.
                            caller semaddr p q run
                              (sym at ∙ ap (get_elem? m.procs) (omega arith) ∙ there')))
                    | inr e ↦ wakeup_keeps i semaddr b 0 m.procs (
                        safe b w fit'
                          ((reads_back.1 m.memory u semaddr (increment v)
                              (increment-IsInt v (reads_back.0 m.memory semaddr v there)) done).1
                            b w (Apart-IsAligned semaddr b fit fit' (ne_of e)) at')
                          more)
                  ])
          ]
        ]

    Step-NoLostWakeup : (m m' : Machine U) → Step m m' → NoLostWakeup m → NoLostWakeup m'
    Step-NoLostWakeup m m' (waits i semaddr answer fit run e) safe =
        subst (λ o. Runs o (λ out. NoLostWakeup out.1)) e
          (sem_wait-NoLostWakeup i semaddr m fit run safe)
    Step-NoLostWakeup m m' (posts i semaddr fit run) safe =
        sem_post-NoLostWakeup i semaddr m fit run safe
    Step-NoLostWakeup m m' (kills pid) safe =
        λ b w fit at more. kkill_keeps b pid m.procs (safe b w fit at more)
    Step-NoLostWakeup m m' (gives_way i {ps} e) safe =
        λ b w fit at more. give_way_keeps b i m.procs ps e (safe b w fit at more)
    Step-NoLostWakeup m m' (runs i {ps} e) safe =
        λ b w fit at more. run_one_keeps b i m.procs ps e (safe b w fit at more)
    Step-NoLostWakeup m m' (tidies i {ps} run e) safe =
        λ b w fit at more. tidy_up_keeps b i m.procs ps run e (safe b w fit at more)

  Reach-NoLostWakeup :
      (m m' : Machine U) → ReadsBack → NoLostWakeup m → Reach m m' → NoLostWakeup m'
  Reach-NoLostWakeup m m' reads_back safe here = safe
  Reach-NoLostWakeup m m' reads_back safe (later {m' = n} before step) =
      Step-NoLostWakeup reads_back n m' step (Reach-NoLostWakeup m n reads_back safe before)

  -- Whatever the calls of the threads on aligned semaphores, in any order, with kills and
  -- scheduling between them: while a semaphore's value is positive no process sleeps on it, if that
  -- was so at first. The copies are taken to read ints, to read back the int that was written, and
  -- to find no int apart from it that was not there before.
  pub Reach-Awake :
      (m m' : Machine U)
      → ReadsBack
      → NoLostWakeup m
      → Reach m m'
      → (semaddr : ℕ) (v : ℤ) → IsAligned semaddr
      → copyin m'.memory semaddr ≡ some v
      → pos 0 <ℤ v
      → Awake semaddr m'.procs
  Reach-Awake m m' reads_back safe reach = Reach-NoLostWakeup m m' reads_back safe reach
