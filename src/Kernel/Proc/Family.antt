-- ===== src/Kernel/Proc/Family.antt =====
-- Group6_Project1/kernel/proc.c: fork, clone, exit and wait in any order keep the tree of processes.
use mathlib.Core.Path.{subst}
use mathlib.Core.Bool.{false≢true}
use os_lab_project.Prelude.{
  Yields, ℕ, ◌≡◌, ◌≢◌, refl, sym, ap, true, false, some, List, get_elem?, set, ℤ, below,
  Option-cases, inl, inr,
}
use os_lab_project.Kernel.Proc.{
  tidy_up, Proc, IsRunning, ProcState, unused, used, sleeping, runnable, running, zombie, wakeup,
  kkill, fall_asleep, give_way, run_one,
}
use os_lab_project.Kernel.Proc.Life.{
  Services, Table, is_zombie, freed, kfork, clone, returns_zero, starts_at,
}
use os_lab_project.Kernel.Proc.Exit.{Waited, returns, sleeps, kexit, kwaitpid}
use os_lab_project.Kernel.Proc.Wait.{Waits, Ended, kwaitpid-Ended}
use os_lab_project.Kernel.Proc.Face.{
  live, stage, face, view, view_at, view-set_self, view-set_ne, view-set_same, view-wakeup,
  view-kkill,
}
use os_lab_project.Kernel.Proc.Tree.{nobody, Lives, Rooted, Rooted-same, Rooted-write}
use os_lab_project.Kernel.Proc.Birth.{Spawned, spawn-Spawned, Spawned-Rooted}
use os_lab_project.Kernel.Proc.Leave.{kexit-Rooted}

abbrev table_of : {M : Type 0} → Waited M → Table M
table_of (returns r u) = u
table_of (sleeps u) = u

module _ {M : Type 0} (s : Services M) (address : ℕ → ℕ) (init : ℕ) where
  -- A system call of a process that runs, a wakeup, a kill, or a step of the scheduler. What
  -- the calls do to the rest of the kernel between the steps is left open.
  pub data Step (t : Table M) : Table M → Type 0 where
    forks :
        (me : ℕ) (r : ℤ) {u : Table M}
        → IsRunning me t.procs
        → kfork s me t ≡ some (r, u)
        → Step t u
    clones :
        (fcn arg stack me : ℕ) (r : ℤ) {u : Table M}
        → IsRunning me t.procs
        → clone s fcn arg stack me t ≡ some (r, u)
        → Step t u
    exits :
        (me : ℕ) (status : ℤ) {u : Table M}
        → IsRunning me t.procs
        → kexit address init s me status t ≡ some u
        → Step t u
    waits :
        (target : ℤ) (addr : ℕ) (options : ℤ) (me : ℕ) (r : ℤ) {u : Table M}
        → IsRunning me t.procs
        → kwaitpid address s target addr options me t ≡ some (returns r u)
        → Step t u
    sleeps_on_children :
        (target : ℤ) (addr : ℕ) (options : ℤ) (me : ℕ) {u : Table M}
        → IsRunning me t.procs
        → kwaitpid address s target addr options me t ≡ some (sleeps u)
        → Step t u
    sleeps_on_channel :
        (me chan : ℕ) {ps : List Proc}
        → IsRunning me t.procs
        → fall_asleep me chan t.procs ≡ some ps
        → Step t (record t { procs = ps })
    wakes : (me chan : ℕ) → Step t (record t { procs = wakeup me chan 0 t.procs })
    kills : (pid : ℤ) → Step t (record t { procs = (kkill pid t.procs).1 })
    gives_way :
        (me : ℕ) {ps : List Proc}
        → IsRunning me t.procs
        → give_way me t.procs ≡ some ps
        → Step t (record t { procs = ps })
    runs : (i : ℕ) {ps : List Proc} → run_one i t.procs ≡ some ps → Step t (record t { procs = ps })
    wakes_up :
        (me : ℕ) {ps : List Proc} → tidy_up me t.procs ≡ some ps → Step t (record t { procs = ps })
    elsewhere : (m : M) → Step t (record t { rest = m })

  pub data Reach (t : Table M) : Table M → Type 0 where
    start : Reach t t
    later : {u v : Table M} → Reach t u → Step u v → Reach t v

  running-Lives : (me : ℕ) (ps : List Proc) → IsRunning me ps → Lives (view ps) me
  running-Lives me ps (p, at, run) = (face p, view_at ps me p at, ap stage run)

  zombie-dead : (st : ProcState) → is_zombie st ≡ true → stage st ≢ live
  zombie-dead zombie h e = cc
  zombie-dead unused h e = absurd (false≢true h)
  zombie-dead used h e = absurd (false≢true h)
  zombie-dead sleeping h e = absurd (false≢true h)
  zombie-dead runnable h e = absurd (false≢true h)
  zombie-dead running h e = absurd (false≢true h)

  fall_asleep-Rooted :
      (me chan : ℕ) (ps : List Proc)
      → IsRunning me ps
      → Rooted init (view ps)
      → Yields (λ qs. Rooted init (view qs)) (fall_asleep me chan ps)
  unfolding fall_asleep
  fall_asleep-Rooted me chan ps (p, at, run) h = rw at (
      Rooted-same init (view ps) (view (set ps me (record p { chan = chan; state = sleeping })))
        (λ j.
          view-set_same ps me j p (record p { chan = chan; state = sleeping }) at
            (ap (λ st. record { at_stage = st; child_of = p.parent }) (sym (ap stage run))))
        h)

  Waits-Rooted :
      (target : ℤ) (options : ℤ) (me : ℕ) (t : Table M) (addr : ℕ) (p : Proc) (w : Waited M)
      → IsRunning me t.procs
      → Rooted init (view t.procs)
      → Waits address target options me t s addr p w
      → Rooted init (view (table_of w).procs)
  Waits-Rooted target options me t addr p (returns r u) run h
        (inl (k, q, at, mine, ended, inl (_, same, _))) =
      subst (λ ps. Rooted init (view ps)) (sym same)
        (Rooted-write init (view t.procs) (view (set t.procs k (freed q))) k (face q) nobody
          (view_at t.procs k q at) (zombie-dead q.state ended)
          (λ j ne. view-set_ne t.procs k j (freed q) ne)
          (view-set_self t.procs k (freed q) (below t.procs k at)) (inl refl) h)
  Waits-Rooted target options me t addr p (returns r u) run h
        (inl (k, q, at, mine, ended, inr (_, same, _, _))) =
      subst (λ ps. Rooted init (view ps)) (sym same) h
  Waits-Rooted target options me t addr p (returns r u) run h (inr (same, _, _)) =
      subst (λ (v : Table M). Rooted init (view v.procs)) (sym same) h
  Waits-Rooted target options me t addr p (sleeps u) run h (_, _, _, _, asleep) =
      subst (Yields (λ qs. Rooted init (view qs))) asleep
        (fall_asleep-Rooted me (address me) t.procs run h)

  kwaitpid-Rooted :
      (target : ℤ) (addr : ℕ) (options : ℤ) (me : ℕ) (t : Table M) (w : Waited M)
      → IsRunning me t.procs
      → kwaitpid address s target addr options me t ≡ some w
      → Rooted init (view t.procs)
      → Rooted init (view (table_of w).procs)
  kwaitpid-Rooted target addr options me t w (p, at, run) e h =
      Waits-Rooted target options me t addr p w (p, at, run) h
        (subst (Ended Unit (Waits address target options me t s addr p)) e
          (kwaitpid-Ended address target options me t Unit s addr p at (λ _. tt)))

  give_way-Rooted :
      (me : ℕ) (ps : List Proc)
      → IsRunning me ps
      → Rooted init (view ps)
      → Yields (λ qs. Rooted init (view qs)) (give_way me ps)
  unfolding give_way
  give_way-Rooted me ps (p, at, run) h = rw at (
      Rooted-same init (view ps) (view (set ps me (record p { state = runnable })))
        (λ j.
          view-set_same ps me j p (record p { state = runnable }) at
            (ap (λ st. record { at_stage = st; child_of = p.parent }) (sym (ap stage run))))
        h)

  tidy_up-Rooted :
      (me : ℕ) (ps : List Proc)
      → Rooted init (view ps)
      → Yields (λ qs. Rooted init (view qs)) (tidy_up me ps)
  unfolding tidy_up
  tidy_up-Rooted me ps h = elim (Option-cases (get_elem? ps me)) [
    | inl gone ↦ rw gone tt
    | inr (p, at) ↦ rw at (
        Rooted-same init (view ps) (view (set ps me (record p { chan = 0 })))
          (λ j. view-set_same ps me j p (record p { chan = 0 }) at refl) h)
  ]

  run_one-Rooted :
      (i : ℕ) (ps : List Proc)
      → Rooted init (view ps)
      → Yields (λ qs. Rooted init (view qs)) (run_one i ps)
  unfolding run_one
  run_one-Rooted i ps h = elim (Option-cases (get_elem? ps i)) [
    | inl gone ↦ rw gone tt
    | inr (p, at) ↦ rw at (taken p at p.state refl)
  ]
    where
      taken :
          (p : Proc)
          → get_elem? ps i ≡ some p
          → (st : ProcState) → p.state ≡ st
          → Rooted init
              (view (elim st [ runnable ↦ set ps i (record p { state = running }) | _ ↦ ps ]))
      taken p at runnable e =
          Rooted-same init (view ps) (view (set ps i (record p { state = running })))
            (λ j.
              view-set_same ps i j p (record p { state = running }) at
                (ap (λ st. record { at_stage = st; child_of = p.parent }) (sym (ap stage e))))
            h
      taken p at unused e = h
      taken p at used e = h
      taken p at sleeping e = h
      taken p at running e = h
      taken p at zombie e = h

  Step-Rooted : (t u : Table M) → Rooted init (view t.procs) → Step t u → Rooted init (view u.procs)
  unfolding kfork clone
  Step-Rooted t u h (forks me r run e) =
      Spawned-Rooted s init me t u r (running-Lives me t.procs run) h
        (subst (Yields (Spawned s me t)) e (spawn-Spawned s s.uvmcopy false returns_zero me t))
  Step-Rooted t u h (clones fcn arg stack me r run e) =
      Spawned-Rooted s init me t u r (running-Lives me t.procs run) h (
        subst (Yields (Spawned s me t)) e
          (spawn-Spawned s s.uvmmirror true (starts_at fcn arg stack) me t))
  Step-Rooted t u h (exits me status run e) =
      subst (Yields (λ v. Rooted init (view v.procs))) e
        (kexit-Rooted s address init me status t run h)
  Step-Rooted t u h (waits target addr options me r run e) =
      kwaitpid-Rooted target addr options me t (returns r u) run e h
  Step-Rooted t u h (sleeps_on_children target addr options me run e) =
      kwaitpid-Rooted target addr options me t (sleeps u) run e h
  Step-Rooted t u h (sleeps_on_channel me chan run e) =
      subst (Yields (λ qs. Rooted init (view qs))) e (fall_asleep-Rooted me chan t.procs run h)
  Step-Rooted t u h (wakes me chan) =
      Rooted-same init (view t.procs) (view (wakeup me chan 0 t.procs))
        (λ j. view-wakeup me chan 0 j t.procs) h
  Step-Rooted t u h (kills pid) =
      Rooted-same init (view t.procs) (view (kkill pid t.procs).1) (view-kkill pid t.procs) h
  Step-Rooted t u h (gives_way me run e) =
      subst (Yields (λ qs. Rooted init (view qs))) e (give_way-Rooted me t.procs run h)
  Step-Rooted t u h (runs i e) =
      subst (Yields (λ qs. Rooted init (view qs))) e (run_one-Rooted i t.procs h)
  Step-Rooted t u h (wakes_up me e) =
      subst (Yields (λ qs. Rooted init (view qs))) e (tidy_up-Rooted me t.procs h)
  Step-Rooted t u h (elsewhere m) = h

  -- Whatever the order of kfork, clone, kexit, kwaitpid, sleeps, wakeups, kills and
  -- scheduling, initproc lives and the parent of every other process in use lives, if that was
  -- so at first.
  pub Reach-Rooted :
      (t u : Table M) → Rooted init (view t.procs) → Reach t u → Rooted init (view u.procs)
  Reach-Rooted t u h start = h
  Reach-Rooted t u h (later {u = v} before step) = Step-Rooted v u (Reach-Rooted t v h before) step
