-- ===== src/Kernel/Proc/Birth.antt =====
-- Group6_Project1/kernel/proc.c: what `allocproc`, `kfork` and `clone` make of the table.
use mathlib.Core.Path.{subst}
use mathlib.Core.Bool.{false≢true}
use mathlib.Core.Option.{map, some-injective, none-ne-some}
use os_lab_project.Prelude.{
  Yields, ℕ, suc, ◌+◌, ◌<◌, ◌≡◌, refl, sym, ap, ◌∙◌, Bool, true, false, Option, none, some, List,
  [], ◌∷◌, get_elem?, set, ℤ, pos, minus_one, length, length-set, get_elem?-set_self, below,
  Bool-cases, Option-cases, inl, inr, ◌⊎◌, arith,
}
use os_lab_project.Kernel.Alarm.{Trapframe}
use os_lab_project.Kernel.Strings.{safestrcpy}
use os_lab_project.Kernel.Proc.{Proc, ProcState, unused, used, sleeping, runnable, running, zombie}
use os_lab_project.Kernel.Proc.Life.{
  Services, Table, is_unused, find_unused, freed, freeproc, allocpid, alloc_at, allocproc,
  make_child, spawn, share_files, fresh_page,
}
use os_lab_project.Kernel.Proc.Face.{absent, stage, face, view, view-set_self, view-set_ne}
use os_lab_project.Kernel.Proc.Tree.{Elsewhere, absent≢live, nobody, Rooted, Rooted-write, Lives}

-- Entry i of the first table is unused, and the tables differ at i alone.
abbrev pub Filled : ℕ → List Proc → List Proc → Type 0
Filled i ps qs =
    (i < length ps)
    × (length qs ≡ length ps)
    × ((p : Proc) × (get_elem? ps i ≡ some p) × (is_unused p.state ≡ true))
    × Elsewhere i (view ps) (view qs)

find_unused-lem :
    (k : ℕ) (ps : List Proc) (e : ℕ × Proc)
    → find_unused k ps ≡ some e
    → (i : ℕ) × (e.0 ≡ k + i) × (get_elem? ps i ≡ some e.1) × (is_unused e.1.state ≡ true)
unfolding find_unused
find_unused-lem k [] e h = absurd (none-ne-some e h)
find_unused-lem k (p ∷ ps) e h = elim (Bool-cases (is_unused p.state)) [
  | inl free ↦
      let same = some-injective (k, p) e (rw free at h) in
      (
        0,
        omega (arith, ap (λ (x : ℕ × Proc). x.0) same),
        ap some (ap (λ (x : ℕ × Proc). x.1) same),
        ap (λ (x : ℕ × Proc). is_unused x.1.state) (sym same) ∙ free,
      )
  | inr busy ↦
      let (i, eq, at, free) = find_unused-lem (k + 1) ps e (rw busy at h) in
      (suc i, omega (arith, eq), at, free)
]

module _ {M : Type 0} (s : Services M) where
  -- What `allocproc` leaves: no entry, and then the table as it was or an entry freed once
  -- more; or an entry that was unused.
  abbrev pub Allocated : Table M → Option (ℕ × Proc) × Table M → Type 0
  Allocated t (none, u) =
      (u.procs ≡ t.procs) ⊎ ((i : ℕ) × Filled i t.procs u.procs × (view u.procs i ≡ some nobody))
  Allocated t (some e, u) =
      Filled e.0 t.procs u.procs × (get_elem? u.procs e.0 ≡ some e.1) × (e.1.state ≡ used)

  Filled-set :
      (ps : List Proc) (i : ℕ) (p q : Proc)
      → get_elem? ps i ≡ some p
      → is_unused p.state ≡ true
      → Filled i ps (set ps i q)
  Filled-set ps i p q at free =
      (below ps i at, length-set ps i q, (p, at, free), λ j ne. view-set_ne ps i j q ne)

  alloc_at-Allocated :
      (i : ℕ) (p : Proc) (t : Table M)
      → get_elem? t.procs i ≡ some p
      → is_unused p.state ≡ true
      → Allocated t (alloc_at s i p t)
  unfolding alloc_at allocpid freeproc
  alloc_at-Allocated i p t at free = elim (Bool-cases (s.kalloc t.rest).0) [
    | inr no_page ↦
        rw no_page (
          refused (record p { pid = t.nextpid; is_thread = false; state = used; trapframe = none }))
    | inl page ↦ elim (Option-cases (s.proc_pagetable (s.kalloc t.rest).1).0) [
      | inl no_table ↦
          rw (page, no_table)
            (refused (record p {
              pid = t.nextpid;
              is_thread = false;
              state = used;
              trapframe = some fresh_page;
              pagetable = none;
            }))
      | inr (a, table) ↦
          rw (page, table)
            (
              Filled-set t.procs i p (taken a) at free,
              get_elem?-set_self t.procs i (taken a) (below t.procs i at),
              refl,
            )
    ]
  ]
    where
      refused :
          (q : Proc)
          → (set t.procs i (freed q) ≡ t.procs)
            ⊎ ((k : ℕ) × Filled k t.procs (set t.procs i (freed q))
                × (view (set t.procs i (freed q)) k ≡ some nobody))
      refused q = inr (
        i,
        Filled-set t.procs i p (freed q) at free,
        view-set_self t.procs i (freed q) (below t.procs i at),
      )

      taken : ℕ → Proc
      taken a = record p {
        pid = t.nextpid;
        is_thread = false;
        state = used;
        trapframe = some fresh_page;
        pagetable = some a;
        alarm_interval = pos 0;
        alarm_ticks = pos 0;
        alarm_handler = 0;
        alarm_trapframe = none;
        alarm_active = false;
      }

  allocproc-Allocated : (t : Table M) → Allocated t (allocproc s t)
  unfolding allocproc
  allocproc-Allocated t = elim (Option-cases (find_unused 0 t.procs)) [
    | inl full ↦
        let same : allocproc s t ≡ (none, t) = rw (allocproc, full) refl in
        subst (Allocated t) (sym same) (inl refl)
    | inr (e, found) ↦
        let (i, eq, at, free) = find_unused-lem 0 t.procs e found in
        let here : e.0 ≡ i = omega (arith, eq) in
        let same : allocproc s t ≡ alloc_at s e.0 e.1 t = rw (allocproc, found) refl in
        subst (Allocated t) (sym same)
          (alloc_at-Allocated e.0 e.1 t (ap (get_elem? t.procs) here ∙ at) free)
  ]

  -- What `kfork` and `clone` leave: all as it was, or one unused entry that is nobody or the
  -- child of `me`, whose pid is the result.
  abbrev pub Spawned : ℕ → Table M → ℤ × Table M → Type 0
  Spawned me t (r, u) =
      (r ≡ minus_one) × (u.procs ≡ t.procs)
      ⊎ (r ≡ minus_one) × ((i : ℕ) × Filled i t.procs u.procs × (view u.procs i ≡ some nobody))
      ⊎ ((i : ℕ) × (c : Proc) × Filled i t.procs u.procs
          × (get_elem? u.procs i ≡ some c)
          × (c.state ≡ runnable)
          × (c.parent ≡ some me)
          × (r ≡ c.pid))

  Filled-again : (i : ℕ) (ps qs : List Proc) (q : Proc) → Filled i ps qs → Filled i ps (set qs i q)
  Filled-again i ps qs q (l, len, free, else') =
      (l, length-set qs i q ∙ len, free, λ j ne. view-set_ne qs i j q ne ∙ else' j ne)

  make_child-Spawned :
      (copy : ℕ → ℕ → ℕ → M → Bool × M) (thread : Bool) (change : Trapframe → Trapframe) (me : ℕ)
      (t : Table M) (p : Proc) (x : Option (ℕ × Proc) × Table M)
      → Allocated t x
      → Yields (Spawned me t) (make_child s copy thread change me p x)
  unfolding make_child freeproc
  make_child-Spawned copy thread change me t p (none, u) (inl same) = inl (refl, same)
  make_child-Spawned copy thread change me t p (none, u) (inr freed_one) =
      inr (inl (refl, freed_one))
  make_child-Spawned copy thread change me t p (some (i, np), u) (filled, at, is_used) =
      elim (Option-cases p.pagetable) [
        | inl e ↦ rw e tt
        | inr (from, e) ↦ elim (Option-cases np.pagetable) [
          | inl e' ↦ rw (e, e') tt
          | inr (to, e') ↦ elim (Bool-cases (copy from to p.sz u.rest).0) [
            | inr fails ↦
                rw (e, e', fails)
                  (inr (
                    inl (
                      refl,
                      (
                        i,
                        Filled-again i t.procs u.procs (freed np) filled,
                        view-set_self u.procs i (freed np) (below u.procs i at),
                      ),
                    )))
            | inl copied ↦ elim (Option-cases p.trapframe) [
              | inl f ↦ rw (e, e', copied, f) tt
              | inr (frame, f) ↦ elim (Option-cases p.cwd) [
                | inl d ↦ rw (e, e', copied, f, d) tt
                | inr (dir, d) ↦ elim (Option-cases (safestrcpy np.name p.name (pos 16))) [
                  | inl n ↦ rw (e, e', copied, f, d, n) tt
                  | inr (name, n) ↦
                      rw (e, e', copied, f, d, n)
                        (inr (
                          inr (
                            i,
                            child to frame dir name,
                            Filled-again i t.procs u.procs (child to frame dir name) filled,
                            get_elem?-set_self u.procs i (child to frame dir name)
                                (below u.procs i at),
                            refl,
                            refl,
                            refl,
                          )))
                ]
              ]
            ]
          ]
        ]
      ]
    where
      child : ℕ → Trapframe → ℕ → List ℕ → Proc
      child to frame dir name = record np {
        sz = p.sz;
        pagetable = some to;
        is_thread = thread;
        trapframe = some (change frame);
        ofile = share_files p.ofile np.ofile;
        cwd = some dir;
        name = name;
        parent = some me;
        state = runnable;
      }

  pub spawn-Spawned :
      (copy : ℕ → ℕ → ℕ → M → Bool × M) (thread : Bool) (change : Trapframe → Trapframe) (me : ℕ)
      (t : Table M)
      → Yields (Spawned me t) (spawn s copy thread change me t)
  unfolding spawn
  spawn-Spawned copy thread change me t = elim (Option-cases (get_elem? t.procs me)) [
    | inl gone ↦ rw gone tt
    | inr (p, at) ↦
        rw at (make_child-Spawned copy thread change me t p (allocproc s t) (allocproc-Allocated t))
  ]

  unused-absent : (st : ProcState) → is_unused st ≡ true → stage st ≡ absent
  unused-absent unused h = refl
  unused-absent used h = absurd (false≢true h)
  unused-absent sleeping h = absurd (false≢true h)
  unused-absent runnable h = absurd (false≢true h)
  unused-absent running h = absurd (false≢true h)
  unused-absent zombie h = absurd (false≢true h)

  -- The tree of processes is rooted still, if the parent lives.
  pub Spawned-Rooted :
      (init me : ℕ) (t u : Table M) (r : ℤ)
      → Lives (view t.procs) me
      → Rooted init (view t.procs)
      → Spawned me t (r, u)
      → Rooted init (view u.procs)
  Spawned-Rooted init me t u r alive h (inl (_, same)) =
      subst (λ ps. Rooted init (view ps)) (sym same) h
  Spawned-Rooted init me t u r alive h (inr (inl (_, (i, (l, len, (p, at, free), else'), new)))) =
      Rooted-write init (view t.procs) (view u.procs) i (face p) nobody (ap (map face) at)
        (absent≢live (stage p.state) (unused-absent p.state free)) else' new (inl refl) h
  Spawned-Rooted init me t u r alive h
        (inr (inr (i, c, (l, len, (p, at, free), else'), new, runs, child, _))) =
      Rooted-write init (view t.procs) (view u.procs) i (face p) (face c) (ap (map face) at)
        (absent≢live (stage p.state) (unused-absent p.state free)) else' (ap (map face) new)
        (inr (me, child, alive)) h
