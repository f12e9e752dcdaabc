-- ===== src/Sched/Scan.antt =====
-- What `scan` computes: its body is applied to the ready processes in the order of the table.
pub mod Best
use os_lab_project.Prelude.{
  ℕ, zero, suc, ◌+◌, ◌<◌, ◌≡◌, refl, sym, ap, ◌∙◌, Bool, true, false, not, ◌&&◌, Option, none, some,
  List, [], ◌∷◌, arith, ℤ, pos, leb_ℤ, ltb_ℤ, get_elem?, All, Bool-cases, inl, inr, if◌then◌else◌,
  ◌>>=◌,
}
use os_lab_project.Sched.{Process, is_eligible, scan}
use os_lab_project.Sched.Table.{Each, At}
use os_lab_project.Sched.Policy.Laws.{is_ready}

-- The ready processes with their indices, which start at i.
unfoldable pub candidates : ℕ → List Process → List Bool → ℕ → List (ℕ × Process)
candidates time [] fs i = []
candidates time (p ∷ ps) [] i = []
candidates time (p ∷ ps) (f ∷ fs) i =
    if is_ready time p f
    then (i, p) ∷ candidates time ps fs (i + 1)
    else candidates time ps fs (i + 1)

pub is_eligible_lem :
    (time : ℕ) (p : Process) (f : Bool) (fs : List Bool)
    → is_eligible (pos time) p (f ∷ fs) ≡ some (is_ready time p f)
unfolding is_eligible
is_eligible_lem time p f fs = ground arith

module _ {ℓ} {B : Type ℓ} (body : ℕ → Process → B → B) where
  unfoldable pub fold : List (ℕ × Process) → B → B
  fold [] b = b
  fold ((i, p) ∷ cs) b = fold cs (body i p b)

  -- `scan` faults on no flag, and folds its body over the ready processes.
  pub scan-fold :
      (P : Process → Bool → Type 0) (time : ℕ) (ps : List Process) (fs : List Bool) (i : ℕ) (b : B)
      → Each P ps fs
      → scan body (pos time) ps fs i b ≡ some (fold (candidates time ps fs i) b)
  unfolding scan fold candidates
  scan-fold P time [] fs i b e = refl
  scan-fold P time (p ∷ ps) [] i b e = absurd e
  scan-fold P time (p ∷ ps) (f ∷ fs) i b e =
      rw (is_eligible_lem time p f fs) (elim (Bool-cases (is_ready time p f)) [
        | inl r ↦ rw r (scan-fold P time ps fs (i + 1) (body i p b) e.1)
        | inr r ↦ rw r (scan-fold P time ps fs (i + 1) b e.1)
      ])

-- Every candidate stands in the table, at its index, and is ready.
abbrev pub Listed : ℕ → List Process → List Bool → ℕ → ℕ × Process → Type 0
Listed time ps fs k (i, p) =
    (j : ℕ) × (f : Bool) × (i ≡ k + j) × At ps fs j p f × (is_ready time p f ≡ true)

Listed-later :
    (time : ℕ) (q : Process) (g : Bool) (ps : List Process) (fs : List Bool) (k : ℕ)
    (cs : List (ℕ × Process))
    → All (Listed time ps fs (k + 1)) cs
    → All (Listed time (q ∷ ps) (g ∷ fs) k) cs
Listed-later time q g ps fs k [] h = tt
Listed-later time q g ps fs k ((i, p) ∷ cs) h =
    let (j, f, e, a, r) = h.0 in
    ((suc j, f, omega arith, a, r), Listed-later time q g ps fs k cs h.1)

pub candidates-Listed :
    (time : ℕ) (ps : List Process) (fs : List Bool) (k : ℕ)
    → All (Listed time ps fs k) (candidates time ps fs k)
unfolding candidates
candidates-Listed time [] fs k = tt
candidates-Listed time (p ∷ ps) [] k = tt
candidates-Listed time (p ∷ ps) (f ∷ fs) k = elim (Bool-cases (is_ready time p f)) [
  | inl r ↦ rw r (
    (0, f, omega arith, (refl, refl), r),
    Listed-later time p f ps fs k _ (candidates-Listed time ps fs (k + 1)),
  )
  | inr r ↦ rw r (Listed-later time p f ps fs k _ (candidates-Listed time ps fs (k + 1)))
]

-- With no candidate, no process is ready.
pub candidates-nil :
    (time : ℕ) (P : Process → Bool → Type 0) (ps : List Process) (fs : List Bool) (k : ℕ)
    → Each P ps fs
    → candidates time ps fs k ≡ []
    → Each (λ p f. is_ready time p f ≡ false) ps fs
unfolding candidates
candidates-nil time P [] fs k e h = tt
candidates-nil time P (p ∷ ps) [] k e h = e
candidates-nil time P (p ∷ ps) (f ∷ fs) k e h = elim (Bool-cases (is_ready time p f)) [
  | inl r ↦ absurd (ground arith)
  | inr r ↦ (r, candidates-nil time P ps fs (k + 1) e.1 (rw r at h))
]

pub candidates-All :
    (R : Process → Type 0) (time : ℕ) (ps : List Process) (fs : List Bool) (k : ℕ)
    → Each (λ q g. is_ready time q g ≡ true → R q) ps fs
    → All (λ c. R c.1) (candidates time ps fs k)
unfolding candidates
candidates-All R time [] fs k h = tt
candidates-All R time (p ∷ ps) [] k h = tt
candidates-All R time (p ∷ ps) (f ∷ fs) k h = elim (Bool-cases (is_ready time p f)) [
  | inl r ↦ rw r (h.0 r, candidates-All R time ps fs (k + 1) h.1)
  | inr r ↦ rw r (candidates-All R time ps fs (k + 1) h.1)
]
