-- ===== src/Kernel/Proc/Leave.antt =====
-- Group6_Project1/kernel/proc.c: the exit of a process gives its children to `initproc`.
use mathlib.Core.Path.{subst}
use mathlib.Core.Option.{some-injective}
use os_lab_project.Prelude.{
  Yields, ℕ, ◌<◌, ◌≡◌, ◌≢◌, refl, sym, ap, ◌∙◌, false, none, some, List, map, ◌==◌, get_elem?, set,
  ℤ, length, below, Bool-cases, Option-cases, inl, inr, arith, Runs,
}
use os_lab_project.Kernel.Proc.{Proc, IsRunning, zombie, wakeup}
use os_lab_project.Kernel.Proc.Life.{Services, Table}
use os_lab_project.Kernel.Proc.Exit.{reparent, kexit}
use os_lab_project.Kernel.Proc.Face.{
  dead, stage, Face, face, view, view_at, adopted, view-set_self, view-set_ne, view-set_same,
  view-wakeup, length-wakeup, adopt, reparent-adopt,
}
use os_lab_project.Kernel.Proc.Tree.{live≢absent, Rooted, Rooted-exit}

module _ {M : Type 0} (s : Services M) (address : ℕ → ℕ) (init : ℕ) where
  -- The exit keeps the tree of processes rooted.
  pub kexit-Rooted :
      (me : ℕ) (status : ℤ) (t : Table M)
      → IsRunning me t.procs
      → Rooted init (view t.procs)
      → Yields (λ u. Rooted init (view u.procs)) (kexit address init s me status t)
  unfolding kexit
  kexit-Rooted me status t (p, at, run) h = elim (Bool-cases (me == init)) [
    | inl root ↦ rw (at, root) tt
    | inr other ↦ elim (Option-cases p.cwd) [
      | inl no_dir ↦ rw (at, other, no_dir) tt
      | inr (dir, cwd) ↦ elim (Option-cases (reparent address init me before)) [
        | inl e ↦ rw (at, other, cwd, e) tt
        | inr (qs, e) ↦ elim (Option-cases (get_elem? qs me)) [
          | inl gone ↦ rw (at, other, cwd, e, gone) tt
          | inr (r, at_r) ↦
              rw (at, other, cwd, e, at_r)
                (Rooted-exit init (view t.procs) (view (after r qs)) me (face p) (differ other)
                  (view_at t.procs me p at) (live≢absent (stage p.state) (ap stage run))
                  (λ j ne.
                    view-set_ne (woken r qs) me j (last r) ne
                    ∙ view-wakeup me (parent_of r) 0 j qs
                    ∙ (spec qs e).1 j
                    ∙ ap (adopted me init) (view-set_same t.procs me j p closed at refl))
                  (view-set_self (woken r qs) me (last r) (
                      subst (λ n. me < n) (sym (length-wakeup me (parent_of r) 0 qs))
                        (below qs me at_r))
                    ∙ ap (λ o. some (record { at_stage = dead; child_of = o }))
                        (parent_kept qs r e at_r))
                  h)
        ]
      ]
    ]
  ]
    where
      closed : Proc
      closed = record p { ofile = map (λ f. none) p.ofile; cwd = none }

      before : List Proc
      before = set t.procs me closed

      differ : (me == init) ≡ false → me ≢ init
      differ ne eq = ground arith

      parent_of : Proc → ℕ
      parent_of r = elim r.parent [ none ↦ 0 | some j ↦ address j ]

      woken : Proc → List Proc → List Proc
      woken r qs = wakeup me (parent_of r) 0 qs

      last : Proc → Proc
      last r = record r { xstate = status; state = zombie }

      after : Proc → List Proc → List Proc
      after r qs = set (woken r qs) me (last r)

      spec :
          (qs : List Proc)
          → reparent address init me before ≡ some qs
          → (length qs ≡ length before) × ((j : ℕ) → view qs j ≡ adopted me init (view before j))
      spec qs e =
          subst
            (λ o. Runs o (λ qs.
              (length qs ≡ length before)
              × ((j : ℕ) → view qs j ≡ adopted me init (view before j))))
            e (reparent-adopt address init me before)

      parent_kept :
          (qs : List Proc) (r : Proc)
          → reparent address init me before ≡ some qs
          → get_elem? qs me ≡ some r
          → r.parent ≡ (adopt me init (face p)).child_of
      parent_kept qs r e at_r =
          ap (λ (f : Face). f.child_of)
            (some-injective (face r) (adopt me init (face p)) (
              sym (view_at qs me r at_r)
              ∙ (spec qs e).1 me
              ∙ ap (adopted me init) (view-set_self t.procs me closed (below t.procs me at))))
