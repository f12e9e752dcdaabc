-- ===== src/Sched/Rule.antt =====
-- Rules for the loops of Sched over the CPUs, and for the main loop.
pub use os_lab_project.Prelude.{Runs, Runs-bind, Runs-map}
use mathlib.Core.Path.{subst, fun_ext}
use os_lab_project.Prelude.{
  ℕ, zero, suc, ◌+◌, ◌≤◌, ◌≡◌, sym, inl, inr, true, false, Option, some, List, [], ◌∷◌, arith,
  ◌>>=◌, ℤ, bit, ◌==ℤ◌, All, Bool-cases,
}
use os_lab_project.Sched.{Core, Sim, World, for_cores, on_cores, unfinished, main_loop, max_time}

-- Whether a CPU runs the process with the pid, as a number, and how many CPUs do.
abbrev pub hit : Core → ℤ → ℕ
hit c pid = bit (c.current_pid ==ℤ pid)

abbrev pub count : List Core → ℤ → ℕ
count [] pid = 0
count (c ∷ cs) pid = hit c pid + count cs pid

abbrev pub Counts : Type 0
Counts = ℤ → ℕ

infixl 65 ◌⊞◌
abbrev pub ◌⊞◌ : Counts → Counts → Counts
(f ⊞ g) pid = f pid + g pid

abbrev pub nobody : Counts
nobody pid = 0

pub ⊞_assoc : (f g h : Counts) → f ⊞ g ⊞ h ≡ f ⊞ (g ⊞ h)
⊞_assoc f g h = fun_ext (λ pid. omega arith)

pub ⊞_nobody : (f : Counts) → f ⊞ nobody ≡ f
⊞_nobody f = fun_ext (λ pid. omega arith)

pub nobody_⊞ : (f : Counts) → nobody ⊞ f ≡ f
nobody_⊞ f = fun_ext (λ pid. omega arith)

-- `Inv o r s`: o counts the CPUs before the one that is visited next, r that one and those after.
module _ (Inv : Counts → Counts → Sim → Type 0) (Pre Post : Core → Type 0)
    (body : Core → Sim → Option (Core × Sim))
    (keep : (o r : Counts) (c : Core) (s : Sim)
      → Pre c
      → Inv o (hit c ⊞ r) s
      → Runs (body c s) (λ out. Post out.0 × Inv (o ⊞ hit out.0) r out.1)) where
  for_cores_from :
      (o : Counts) (cs : List Core) (s : Sim)
      → All Pre cs
      → Inv o (count cs) s
      → Runs (for_cores body cs s) (λ out. All Post out.0 × Inv (o ⊞ count out.0) nobody out.1)
  unfolding for_cores
  for_cores_from o [] s pre inv = (tt, subst (λ f. Inv f nobody s) (sym (⊞_nobody o)) inv)
  for_cores_from o (c ∷ cs) s pre inv =
      Runs-bind (body c s) (λ (c', s'). for_cores body cs s' >>= λ (cs', t). some (c' ∷ cs', t))
        (λ out. Post out.0 × Inv (o ⊞ hit out.0) (count cs) out.1)
        (λ out. All Post out.0 × Inv (o ⊞ count out.0) nobody out.1)
        (keep o (count cs) c s pre.0 inv)
        λ out now.
          Runs-bind (for_cores body cs out.1) (λ (cs', t). some (out.0 ∷ cs', t))
            (λ fin. All Post fin.0 × Inv (o ⊞ hit out.0 ⊞ count fin.0) nobody fin.1)
            (λ fin. All Post fin.0 × Inv (o ⊞ count fin.0) nobody fin.1)
            (for_cores_from (o ⊞ hit out.0) cs out.1 pre.1 now.1)
            λ fin later. (
              (now.0, later.0),
              subst (λ f. Inv f nobody fin.1) (⊞_assoc o (hit out.0) (count fin.0)) later.1,
            )

  -- What the loop needs of all CPUs, and what it leaves.
  pub for_cores_rule :
      (w : World)
      → All Pre w.cores
      → Inv nobody (count w.cores) w.sim
      → Runs (on_cores body w) (λ v. All Post v.cores × Inv (count v.cores) nobody v.sim)
  for_cores_rule w pre inv =
      Runs-bind (for_cores body w.cores w.sim) (λ (cs, s). some (record { cores = cs; sim = s }))
        (λ out. All Post out.0 × Inv (nobody ⊞ count out.0) nobody out.1)
        (λ v. All Post v.cores × Inv (count v.cores) nobody v.sim)
        (for_cores_from nobody w.cores w.sim pre inv)
        λ out done. (done.0, subst (λ f. Inv f nobody out.1) (nobody_⊞ (count out.0)) done.1)

timed_out : (n : ℕ) (w : World) → max_time ≤ w.sim.time → unfinished n w ≡ false
unfolding unfinished
timed_out n w h = ground arith

-- A round that keeps `Good` and moves the clock on by one: the loop returns within `max_time`
-- rounds, by its test, with `Good` still true.
module _ (Good : World → Type 0) (tick : World → Option World) (n : ℕ)
    (keep : (w : World)
      → Good w
      → unfinished n w ≡ true
      → Runs (tick w) (λ v. Good v × (v.sim.time ≡ w.sim.time + 1))) where
  main_loop_from :
      (fuel : ℕ) (w : World)
      → max_time ≤ w.sim.time + fuel
      → Good w
      → Runs (main_loop tick n fuel w) (λ v. Good v × (unfinished n v ≡ false))
  unfolding main_loop
  main_loop_from zero w h g = (g, timed_out n w (omega arith))
  main_loop_from (suc fuel) w h g = elim (Bool-cases (unfinished n w)) [
    | inl more ↦
        rw (more, main_loop, Runs)
          (Runs-bind (tick w) (main_loop tick n fuel) (λ v. Good v × (v.sim.time ≡ w.sim.time + 1))
            (λ v. Good v × (unfinished n v ≡ false)) (keep w g more)
            λ v next. main_loop_from fuel v (omega (arith, next.1)) next.0)
    | inr over ↦ rw (over, main_loop, Runs) (g, over)
  ]

  -- Whatever the fuel.
  pub main_loop_keeps : (fuel : ℕ) (w : World) → Good w → Runs (main_loop tick n fuel w) Good
  unfolding main_loop
  main_loop_keeps zero w g = g
  main_loop_keeps (suc fuel) w g = elim (Bool-cases (unfinished n w)) [
    | inl more ↦
        rw (more, main_loop, Runs)
          (Runs-bind (tick w) (main_loop tick n fuel) (λ v. Good v × (v.sim.time ≡ w.sim.time + 1))
            Good (keep w g more) λ v next. main_loop_keeps fuel v next.0)
    | inr over ↦ rw (over, main_loop, Runs) g
  ]

  pub main_loop_rule :
      (w : World)
      → Good w
      → Runs (main_loop tick n max_time w) (λ v. Good v × (unfinished n v ≡ false))
  main_loop_rule w g = main_loop_from max_time w (omega arith) g
