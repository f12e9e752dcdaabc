-- ===== src/Kernel/Proc/Exit.antt =====
-- Group6_Project1/kernel/proc.c: a process exits, and its parent waits for it. Each function is one
-- pass of its loop; `none` is a panic or an access through a null pointer.
use os_lab_project.Prelude.{
  ℕ, zero, suc, ◌+◌, Bool, true, false, not, ◌&&◌, ◌||◌, Option, none, some, List, [], ◌∷◌, map,
  ltb_ℤ, ◌==◌, ◌==ℤ◌, if◌then◌else◌, get_elem?, set, ◌>>=◌, ℤ, pos, minus_one, length,
}
use os_lab_project.Kernel.Proc.{Proc, zombie, wakeup, fall_asleep}
use os_lab_project.Kernel.Proc.Life.{Services, Table, is_zombie, points_to, each_file, freeproc}

-- The scan of `kwait` from index i on: whether there are children, and the first zombie.
unfoldable pub scan_children : ℕ → ℕ → List Proc → Bool × Option (ℕ × Proc)
scan_children me i [] = (false, none)
scan_children me i (q ∷ qs) =
    let (more, found) = scan_children me (i + 1) qs in
    if points_to me q.parent
    then if is_zombie q.state then (true, some (i, q)) else (true, found)
    else (more, found)

-- The scan of `kwaitpid`.
unfoldable pub scan_target : ℤ → ℕ → ℕ → List Proc → Bool × Option (ℕ × Proc)
scan_target target me i [] = (false, none)
scan_target target me i (q ∷ qs) =
    let (more, found) = scan_target target me (i + 1) qs in
    if points_to me q.parent
    then if ltb_ℤ (pos 0) target && not (q.pid ==ℤ target)
      then (more, found)
      else if is_zombie q.state
      then (true, some (i, q))
      else (true, found)
    else (more, found)

-- What `kwait` and `kwaitpid` do: they return, or sleep and look again.
pub data Waited (M : Type 0) : Type 0 where
  returns : ℤ → Table M → Waited M
  sleeps : Table M → Waited M

module _ {M : Type 0} (s : Services M) where
  -- A zombie child is found: its status is copied out, and its entry is free again.
  unfoldable pub reap : Proc → ℕ → ℕ → Proc → Table M → Option (Waited M)
  unfolding freeproc
  reap p addr i child t =
      if addr == 0
      then some (returns child.pid (freeproc s i child t))
      else (p.pagetable >>= λ pt.
          let (copied, m) = s.copyout pt addr child.xstate t.rest in
          if copied
          then some (returns child.pid (freeproc s i child (record t { rest = m })))
          else some (returns minus_one (record t { rest = m })))

-- `kexit`, `kwait` and `kwaitpid`; a process's address is its channel.
module _ (address : ℕ → ℕ) (init : ℕ) where
  -- The loop of `reparent` in process `me`, for n entries from index i on.
  unfoldable pub reparent_from : ℕ → ℕ → ℕ → List Proc → Option (List Proc)
  reparent_from me i zero ps = some ps
  reparent_from me i (suc n) ps = get_elem? ps i >>= λ p.
      let adopted = wakeup me (address init) 0 (set ps i (record p { parent = some init })) in
      let onward = reparent_from me (i + 1) n ps in
      let onward' = reparent_from me (i + 1) n adopted in
      if points_to me p.parent then onward' else onward

  unfoldable pub reparent : ℕ → List Proc → Option (List Proc)
  unfolding reparent_from
  reparent me ps = reparent_from me 0 (length ps) ps

  module _ {M : Type 0} (s : Services M) where
    -- `kexit` up to `sched`.
    unfoldable pub kexit : ℕ → ℤ → Table M → Option (Table M)
    unfolding reparent
    kexit me status t = get_elem? t.procs me >>= λ p.
        if me == init
        then none
        else (p.cwd >>= λ dir.
            let q = record p { ofile = map (λ f. none) p.ofile; cwd = none } in
            reparent me (set t.procs me q) >>= λ ps. get_elem? ps me >>= λ r.
            let woken = wakeup me (parent_address r.parent) 0 ps in
            some (record t {
              procs = set woken me (record r { xstate = status; state = zombie });
              rest = s.iput dir (each_file s.fileclose p.ofile t.rest);
            }))
      where
        parent_address : Option ℕ → ℕ
        parent_address none = 0
        parent_address (some j) = address j

module _ (address : ℕ → ℕ) {M : Type 0} (s : Services M) where
  -- One pass of the loop of `kwait`.
  unfoldable pub kwait : ℕ → ℕ → Table M → Option (Waited M)
  unfolding scan_children reap
  kwait me addr t = get_elem? t.procs me >>= λ p.
      let (kids, found) = scan_children me 0 t.procs in
      elim found [
        | some e ↦ reap s p addr e.0 e.1 t
        | none ↦
            if not kids || p.killed
            then some (returns minus_one t)
            else fall_asleep me (address me) t.procs >>= λ ps.
                some (sleeps (record t { procs = ps }))
      ]

  -- One pass of the loop of `kwaitpid`.
  unfoldable pub kwaitpid : ℤ → ℕ → ℤ → ℕ → Table M → Option (Waited M)
  unfolding scan_target reap
  kwaitpid target addr options me t = get_elem? t.procs me >>= λ p.
      let (kids, found) = scan_target target me 0 t.procs in
      elim found [
        | some e ↦ reap s p addr e.0 e.1 t
        | none ↦
            if not kids || p.killed
            then some (returns minus_one t)
            else if options ==ℤ pos 1
            then some (returns (pos 0) t)
            else fall_asleep me (address me) t.procs >>= λ ps.
                some (sleeps (record t { procs = ps }))
      ]
