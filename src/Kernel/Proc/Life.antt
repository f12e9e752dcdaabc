-- ===== src/Kernel/Proc/Life.antt =====
-- Group6_Project1/kernel/proc.c: how a process comes to be, by `kfork` and `clone`, and is freed.
-- What these functions call of kalloc.c, vm.c, file.c and fs.c acts on a state of its own and is a
-- parameter. A call is one step of the table; `none` is a panic or an access through a null pointer.
use os_lab_project.Prelude.{
  ℕ, ◌+◌, ◌/◌, ◌%◌, ◌^◌, Bool, true, false, Option, none, some, List, [], ◌∷◌, ◌==◌, if◌then◌else◌,
  get_elem?, set, ◌>>=◌, ℤ, pos, minus_one, ◌+ℤ◌, replicate,
}
use os_lab_project.Kernel.Alarm.{Trapframe, a0}
use os_lab_project.Kernel.Strings.{safestrcpy}
use os_lab_project.Kernel.Proc.{Proc, ProcState, unused, used, runnable, zombie}

-- The calls of the other parts; a Boolean result says that the call succeeds.
pub record Services (M : Type 0) : Type 0 where
  pub kalloc : M → Bool × M
  pub kfree : M → M
  pub proc_pagetable : M → Option ℕ × M
  pub proc_freepagetable : ℕ → ℕ → M → M
  pub uvmunmap : ℕ → ℕ → ℕ → M → M
  pub uvmfree : ℕ → ℕ → M → M
  pub uvmcopy : ℕ → ℕ → ℕ → M → Bool × M
  pub uvmmirror : ℕ → ℕ → ℕ → M → Bool × M
  pub filedup : ℕ → M → M
  pub fileclose : ℕ → M → M
  pub idup : ℕ → M → M
  pub iput : ℕ → M → M
  pub copyout : ℕ → ℕ → ℤ → M → Bool × M

-- `proc`, `nextpid` and the rest of the kernel.
pub record Table (M : Type 0) : Type 0 where
  pub procs : List Proc
  pub nextpid : ℤ
  pub rest : M

abbrev pub trampoline : ℕ
trampoline = 274877902848

abbrev pub trapframe_page : ℕ
trapframe_page = 274877898752

-- `PGROUNDUP(sz)/PGSIZE`
abbrev pub pages_of : ℕ → ℕ
pages_of sz = ((sz + 4095) % 2 ^ 64) / 4096

-- The index of `sp` among the registers.
abbrev pub sp : ℕ
sp = 5

-- A page as `kalloc` fills it.
abbrev pub fresh_page : Trapframe
fresh_page = record { epc = 361700864190383365; registers = replicate 35 361700864190383365 }

-- `allocpid`
unfoldable pub allocpid : {M : Type 0} → Table M → ℤ × Table M
allocpid t = (t.nextpid, record t { nextpid = t.nextpid +ℤ pos 1 })

abbrev pub is_unused : ProcState → Bool
is_unused unused = true
is_unused _ = false

abbrev pub is_zombie : ProcState → Bool
is_zombie zombie = true
is_zombie _ = false

-- The search of `allocproc`, from index i on.
unfoldable pub find_unused : ℕ → List Proc → Option (ℕ × Proc)
find_unused i [] = none
find_unused i (p ∷ ps) =
    let onward = find_unused (i + 1) ps in if is_unused p.state then some (i, p) else onward

-- The entry that `freeproc` leaves.
abbrev pub freed : Proc → Proc
freed p = record p {
  trapframe = none;
  alarm_trapframe = none;
  pagetable = none;
  sz = 0;
  pid = pos 0;
  parent = none;
  name = set p.name 0 0;
  chan = 0;
  killed = false;
  xstate = pos 0;
  state = unused;
  alarm_interval = pos 0;
  alarm_ticks = pos 0;
  alarm_handler = 0;
  alarm_active = false;
}

-- The test of a parent pointer.
abbrev pub points_to : ℕ → Option ℕ → Bool
points_to i none = false
points_to i (some j) = j == i

-- The files of the parent, over those of the child.
abbrev pub share_files : List (Option ℕ) → List (Option ℕ) → List (Option ℕ)
share_files [] gs = gs
share_files (f ∷ fs) [] = []
share_files (none ∷ fs) (g ∷ gs) = g ∷ share_files fs gs
share_files (some f ∷ fs) (g ∷ gs) = some f ∷ share_files fs gs

-- `np->trapframe->a0 = 0`
abbrev pub returns_zero : Trapframe → Trapframe
returns_zero f = record f { registers = set f.registers a0 0 }

-- The registers with which a thread starts.
abbrev pub starts_at : ℕ → ℕ → ℕ → Trapframe → Trapframe
starts_at fcn arg stack f = record f {
  epc = fcn;
  registers = set (set f.registers a0 arg) sp stack;
}

-- A call for each open file.
abbrev pub each_file : {M : Type 0} → (ℕ → M → M) → List (Option ℕ) → M → M
each_file f [] m = m
each_file f (none ∷ fs) m = each_file f fs m
each_file f (some g ∷ fs) m = each_file f fs (f g m)

module _ {M : Type 0} (s : Services M) where
  abbrev pub free_page : Option Trapframe → M → M
  free_page none m = m
  free_page (some f) m = s.kfree m

  abbrev pub free_memory : Option ℕ → Bool → ℕ → M → M
  free_memory none thread sz m = m
  free_memory (some pt) thread sz m =
      if thread
      then s.uvmfree pt 0 (
          s.uvmunmap pt trapframe_page 1
            (s.uvmunmap pt trampoline 1 (s.uvmunmap pt 0 (pages_of sz) m)))
      else s.proc_freepagetable pt sz m

  -- `freeproc` of entry i, which is p.
  unfoldable pub freeproc : ℕ → Proc → Table M → Table M
  freeproc i p t = record t {
    procs = set t.procs i (freed p);
    rest =
        free_memory p.pagetable p.is_thread p.sz
          (free_page p.alarm_trapframe (free_page p.trapframe t.rest));
  }

  -- `allocproc` once the unused entry i is found.
  unfoldable pub alloc_at : ℕ → Proc → Table M → Option (ℕ × Proc) × Table M
  unfolding allocpid freeproc
  alloc_at i p t =
      let (pid, u) = allocpid t in
      let q = record p { pid = pid; is_thread = false; state = used } in
      let (has_page, m) = s.kalloc u.rest in
      let r = record q { trapframe = some fresh_page } in
      let (pt, m') = s.proc_pagetable m in
      if has_page
      then elim pt [
        | none ↦ (none, freeproc i (record r { pagetable = none }) (record u { rest = m' }))
        | some a ↦
            let n = record r {
              pagetable = some a;
              alarm_interval = pos 0;
              alarm_ticks = pos 0;
              alarm_handler = 0;
              alarm_trapframe = none;
              alarm_active = false;
            } in
            (some (i, n), record u { procs = set u.procs i n; rest = m' })
      ]
      else (none, freeproc i (record q { trapframe = none }) (record u { rest = m }))

  unfoldable pub allocproc : Table M → Option (ℕ × Proc) × Table M
  unfolding find_unused alloc_at
  allocproc t = elim (find_unused 0 t.procs) [ none ↦ (none, t) | some e ↦ alloc_at e.0 e.1 t ]

  -- `kfork` and `clone` of parent p once `allocproc` is done, with the copy of the memory and the
  -- change of the child's registers.
  unfoldable pub make_child :
      (ℕ → ℕ → ℕ → M → Bool × M)
      → Bool
      → (Trapframe → Trapframe)
      → ℕ
      → Proc
      → Option (ℕ × Proc) × Table M
      → Option (ℤ × Table M)
  unfolding freeproc
  make_child copy thread change me p (none, u) = some (minus_one, u)
  make_child copy thread change me p (some (i, np), u) = p.pagetable >>= λ from.
      np.pagetable >>= λ to.
      let (copied, m) = copy from to p.sz u.rest in
      if copied
      then (p.trapframe >>= λ frame. p.cwd >>= λ dir. safestrcpy np.name p.name (pos 16) >>= λ name.
          some (
            np.pid,
            record u {
              procs = set u.procs i (record np {
                sz = p.sz;
                is_thread = thread;
                trapframe = some (change frame);
                ofile = share_files p.ofile np.ofile;
                cwd = some dir;
                name = name;
                parent = some me;
                state = runnable;
              });
              rest = s.idup dir (each_file s.filedup p.ofile m);
            },
          ))
      else some (minus_one, freeproc i np (record u { rest = m }))

  unfoldable pub spawn :
      (ℕ → ℕ → ℕ → M → Bool × M)
      → Bool
      → (Trapframe → Trapframe)
      → ℕ
      → Table M
      → Option (ℤ × Table M)
  unfolding allocproc make_child
  spawn copy thread change me t =
      get_elem? t.procs me >>= λ p. make_child copy thread change me p (allocproc t)

  unfoldable pub kfork : ℕ → Table M → Option (ℤ × Table M)
  unfolding spawn
  kfork = spawn s.uvmcopy false returns_zero

  unfoldable pub clone : ℕ → ℕ → ℕ → ℕ → Table M → Option (ℤ × Table M)
  unfolding spawn
  clone fcn arg stack = spawn s.uvmmirror true (starts_at fcn arg stack)
