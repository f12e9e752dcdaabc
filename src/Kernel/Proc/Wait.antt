-- ===== src/Kernel/Proc/Wait.antt =====
-- Group6_Project1/kernel/proc.c: what `kwait` and `kwaitpid` find in the table.
use mathlib.Core.Bool.{false≢true}
use mathlib.Core.Path.{subst}
use os_lab_project.Prelude.{
  ℕ, ◌+◌, ◌≡◌, ◌≢◌, refl, sym, ap, ◌∙◌, Bool, true, false, not, ◌||◌, Option, none, some, List, [],
  ◌∷◌, ltb_ℤ, ◌==◌, ◌==ℤ◌, ==ℤ_iff, ==ℤ_ne, get_elem?, set, ℤ, pos, minus_one, Bool-cases,
  Option-cases, inl, inr, ◌⊎◌, arith,
}
use os_lab_project.Kernel.Proc.{Proc, fall_asleep}
use os_lab_project.Kernel.Proc.Life.{Services, Table, is_zombie, freed, freeproc}
use os_lab_project.Kernel.Proc.Exit.{
  scan_children, scan_target, Waited, returns, sleeps, reap, kwait, kwaitpid,
}
use os_lab_project.Kernel.Proc.Scan.{
  IsAwaited, FoundZombie, scan_target-Scanned, scan_target-FoundZombie,
}

-- A positive target is passed over by no child, so the two scans are one.
scan_target-any :
    (target : ℤ) (me i : ℕ) (ps : List Proc)
    → ltb_ℤ (pos 0) target ≡ false
    → scan_target target me i ps ≡ scan_children me i ps
unfolding scan_target scan_children
scan_target-any target me i [] any = refl
scan_target-any target me i (p ∷ ps) any = rw (any, scan_target-any target me (i + 1) ps any) refl

-- With a target that is not positive and options other than 1, kwaitpid is kwait.
pub kwaitpid-kwait :
    (address : ℕ → ℕ) {M : Type 0} (s : Services M) (target : ℤ) (addr : ℕ) (options : ℤ) (me : ℕ)
    (t : Table M)
    → ltb_ℤ (pos 0) target ≡ false
    → options ==ℤ pos 1 ≡ false
    → kwaitpid address s target addr options me t ≡ kwait address s me addr t
unfolding kwaitpid kwait
kwaitpid-kwait address s target addr options me t any hang =
    elim (Option-cases (get_elem? t.procs me)) [
      | inl absent ↦ rw absent refl
      | inr (p, at) ↦
          rw (at, scan_target-any target me 0 t.procs any)
            (elim (Option-cases (scan_children me 0 t.procs).1) [
              | inl e ↦ rw (e, scan_target-any target me 0 t.procs any, hang) refl
              | inr (x, e) ↦ rw e refl
            ])
    ]

-- D where the code faults, and the predicate of what it returns.
abbrev pub Ended : {A : Type 0} → Type 0 → (A → Type 0) → Option A → Type 0
Ended D Q none = D
Ended D Q (some a) = Q a

not_or_true : (a b : Bool) → (not a || b) ≡ true → (b ≡ true) ⊎ (a ≡ false)
not_or_true true b h = inl h
not_or_true false b h = inr refl

not_or_false : (a b : Bool) → (not a || b) ≡ false → (a ≡ true) × (b ≡ false)
not_or_false true b h = (refl, h)
not_or_false false b h = absurd (false≢true (sym h))

null_address : {a : ℕ} → (a == 0) ≡ true → a ≡ 0
null_address e = ground arith

some_address : {a : ℕ} → (a == 0) ≡ false → a ≢ 0
some_address e h = ground arith

module _ {M : Type 0} (address : ℕ → ℕ) (target : ℤ) (options : ℤ) (me : ℕ) (t : Table M) where
  -- Whether the status of q can be copied out to the caller p.
  abbrev pub CopiesOut : Services M → ℕ → Proc → Proc → Bool → Type 0
  CopiesOut s addr p q copied =
      (pt : ℕ) × (p.pagetable ≡ some pt) × ((s.copyout pt addr q.xstate t.rest).0 ≡ copied)

  -- A zombie that is awaited leaves the table, and the result is its pid, if no status is wanted
  -- or it is copied out; if the copy fails, the table stays and the result is -1.
  abbrev pub Reaps : Services M → ℕ → Proc → ℤ → Table M → Type 0
  Reaps s addr p r u =
      (k : ℕ) × (q : Proc) × (get_elem? t.procs k ≡ some q)
      × IsAwaited target me q
      × (is_zombie q.state ≡ true)
      × ((r ≡ q.pid)
            × (u.procs ≡ set t.procs k (freed q))
            × ((addr ≡ 0) ⊎ (addr ≢ 0) × CopiesOut s addr p q true)
          ⊎ (r ≡ minus_one) × (u.procs ≡ t.procs) × (addr ≢ 0) × CopiesOut s addr p q false)

  abbrev pub NoZombie : Type 0
  NoZombie =
      (k : ℕ) (q : Proc)
      → get_elem? t.procs k ≡ some q
      → IsAwaited target me q
      → is_zombie q.state ≡ false

  -- What one pass of `kwaitpid` of process p leaves.
  abbrev pub Waits : Services M → ℕ → Proc → Waited M → Type 0
  Waits s addr p (returns r u) =
      Reaps s addr p r u
      ⊎ ((u ≡ t)
          × NoZombie
          × ((r ≡ minus_one)
                × ((p.killed ≡ true)
                    ⊎ ((k : ℕ) (q : Proc)
                        → get_elem? t.procs k ≡ some q
                        → ¬ (IsAwaited target me q)))
              ⊎ (r ≡ pos 0) × (options ≡ pos 1)))
  Waits s addr p (sleeps u) =
      NoZombie
      × ((k : ℕ) × (q : Proc) × (get_elem? t.procs k ≡ some q) × IsAwaited target me q)
      × (p.killed ≡ false)
      × (options ≢ pos 1)
      × (fall_asleep me (address me) t.procs ≡ some u.procs)

  reap-Waits :
      (D : Type 0) (s : Services M) (addr j : ℕ) (p q : Proc)
      → (p.pagetable ≡ none → D)
      → FoundZombie target me 0 t.procs (some (j, q))
      → Ended D (Waits s addr p) (reap s p addr j q t)
  unfolding reap freeproc
  reap-Waits D s addr j p q null (k, eq, at, awaited, dead) =
      let same : j ≡ k = omega (arith, eq) in
      let at' = ap (get_elem? t.procs) same ∙ at in
      elim (Bool-cases (addr == 0)) [
        | inl none_wanted ↦
            rw none_wanted
              (inl (j, q, at', awaited, dead, inl (refl, refl, inl (null_address none_wanted))))
        | inr wanted ↦ elim (Option-cases p.pagetable) [
          | inl no_table ↦ rw (wanted, no_table) (null no_table)
          | inr (pt, table) ↦ elim (Bool-cases (s.copyout pt addr q.xstate t.rest).0) [
            | inl copied ↦
                rw (wanted, table, copied)
                  (inl (
                    j,
                    q,
                    at',
                    awaited,
                    dead,
                    inl (refl, refl, inr (some_address wanted, (pt, refl, copied))),
                  ))
            | inr fails ↦
                rw (wanted, table, fails)
                  (inl (
                    j,
                    q,
                    at',
                    awaited,
                    dead,
                    inr (refl, refl, some_address wanted, (pt, refl, fails)),
                  ))
          ]
        ]
      ]

  -- A pass through `kwaitpid`, with D for the null page table of the caller.
  pub kwaitpid-Ended :
      (D : Type 0) (s : Services M) (addr : ℕ) (p : Proc)
      → get_elem? t.procs me ≡ some p
      → (p.pagetable ≡ none → D)
      → Ended D (Waits s addr p) (kwaitpid address s target addr options me t)
  unfolding kwaitpid fall_asleep
  kwaitpid-Ended D s addr p at null =
      let scanned = scan_target-Scanned target me 0 t.procs in
      let found = scan_target-FoundZombie target me 0 t.procs in
      elim (Option-cases (scan_target target me 0 t.procs).1) [
        | inr ((j, q), e) ↦
            rw (at, e)
              (reap-Waits D s addr j p q null (subst (FoundZombie target me 0 t.procs) e found))
        | inl e ↦ elim (Bool-cases (not (scan_target target me 0 t.procs).0 || p.killed)) [
          | inl stop ↦
              rw (at, e, stop)
                (inr (
                  refl,
                  scanned.2 e,
                  inl (
                    refl,
                    elim (not_or_true (scan_target target me 0 t.procs).0 p.killed stop) [
                      | inl killed ↦ inl killed
                      | inr childless ↦ inr (scanned.0 childless)
                    ],
                  ),
                ))
          | inr go ↦
              let (kids, lives) = not_or_false (scan_target target me 0 t.procs).0 p.killed go in
              elim (Bool-cases (options ==ℤ pos 1)) [
                | inl h ↦
                    rw (at, e, go, h)
                      (inr (refl, scanned.2 e, inr (refl, (==ℤ_iff options (pos 1)).0 h)))
                | inr h ↦
                    rw (at, e, go, h, at) (scanned.2 e, scanned.1 kids, lives, ==ℤ_ne h, rw at refl)
              ]
        ]
      ]
