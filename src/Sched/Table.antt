-- ===== src/Sched/Table.antt =====
-- The process table with its locking array: predicates on both arrays at once, the searches by
-- pid, and updates at one index.
pub use os_lab_project.Prelude.{write_at, write_below}
use os_lab_project.Prelude.{
  ℕ, zero, suc, ◌+◌, ◌≡◌, refl, sym, ap, ◌∙◌, ◌≢◌, ◌⊎◌, inl, inr, Bool, false, Option, none, some,
  List, [], ◌∷◌, map, arith, ℤ, ◌==ℤ◌, ==ℤ_refl, ==ℤ_iff, length, get_elem?, set, All, Bool-cases,
}
use mathlib.Core.Bool.{false≢true}
use os_lab_project.Sched.{Process, find_last, find_first, last_index, first_index}

-- No two processes have one pid.
abbrev pub Unique : List ℤ → Type 0
Unique [] = Unit
Unique (a ∷ bs) = All (λ b. b ≢ a) bs × Unique bs

abbrev pub HasPid : ℤ → List ℤ → Type 0
HasPid a [] = ⊥
HasPid a (b ∷ bs) = (b ≡ a) ⊎ ((b ≢ a) × HasPid a bs)

abbrev pub pids : List Process → List ℤ
pids = map λ p. p.pid

-- Every process has a flag, and the predicate holds of the two.
abbrev pub Each : (Process → Bool → Type 0) → List Process → List Bool → Type 0
Each P [] flags = Unit
Each P (p ∷ ps) [] = ⊥
Each P (p ∷ ps) (f ∷ fs) = P p f × Each P ps fs

-- Index i holds the process p with the flag f.
abbrev pub At : List Process → List Bool → ℕ → Process → Bool → Type 0
At ps fs i p f = (get_elem? ps i ≡ some p) × (get_elem? fs i ≡ some f)

module _ (P : Process → Bool → Type 0) where
  pub Each-At :
      (ps : List Process) (fs : List Bool) (i : ℕ) (p : Process) (f : Bool)
      → Each P ps fs
      → At ps fs i p f
      → P p f
  Each-At [] fs i p f e a = cc
  Each-At (q ∷ ps) [] i p f e a = absurd e
  Each-At (q ∷ ps) (g ∷ fs) zero p f e a = ground (arith, e.0)
  Each-At (q ∷ ps) (g ∷ fs) (suc i) p f e a = Each-At ps fs i p f e.1 a

  -- Of the two arrays the second is at least as long.
  pub Each-flag :
      (ps : List Process) (fs : List Bool) (i : ℕ) (p : Process)
      → Each P ps fs
      → get_elem? ps i ≡ some p
      → (f : Bool) × (get_elem? fs i ≡ some f)
  Each-flag [] fs i p e a = cc
  Each-flag (q ∷ ps) [] i p e a = absurd e
  Each-flag (q ∷ ps) (g ∷ fs) zero p e a = (g, refl)
  Each-flag (q ∷ ps) (g ∷ fs) (suc i) p e a = Each-flag ps fs i p e.1 a

pub pid_at :
    (R : ℤ → Type 0) (ps : List Process) (i : ℕ) (p : Process)
    → All R (pids ps)
    → get_elem? ps i ≡ some p
    → R p.pid
pid_at R [] i p h a = cc
pid_at R (q ∷ ps) zero p h a = ground (arith, h.0)
pid_at R (q ∷ ps) (suc i) p h a = pid_at R ps i p h.1 a

-- Writing back a process under its pid keeps the pids.
pub pids-set :
    (ps : List Process) (i : ℕ) (p p' : Process)
    → get_elem? ps i ≡ some p
    → p'.pid ≡ p.pid
    → pids (set ps i p') ≡ pids ps
pids-set [] i p p' a e = refl
pids-set (q ∷ ps) zero p p' a e = ground arith
pids-set (q ∷ ps) (suc i) p p' a e = ap (◌∷◌ q.pid) (pids-set ps i p p' a e)

module _ (P Q : Process → Bool → Type 0) where
  pub Each-others :
      (a : ℤ)
      → ((q : Process) (g : Bool) → q.pid ≢ a → P q g → Q q g)
      → (ps : List Process) (fs : List Bool) → All (λ b. b ≢ a) (pids ps)
      → Each P ps fs
      → Each Q ps fs
  Each-others a keep [] fs h e = tt
  Each-others a keep (q ∷ ps) [] h e = e
  Each-others a keep (q ∷ ps) (g ∷ fs) h e = (keep q g h.0 e.0, Each-others a keep ps fs h.1 e.1)

  pub Each-map :
      ((q : Process) (g : Bool) → P q g → Q q g)
      → (ps : List Process) (fs : List Bool) → Each P ps fs
      → Each Q ps fs
  Each-map keep [] fs e = tt
  Each-map keep (q ∷ ps) [] e = e
  Each-map keep (q ∷ ps) (g ∷ fs) e = (keep q g e.0, Each-map keep ps fs e.1)

  -- One entry is written anew; of the other processes the old predicate implies the new one.
  pub Each-set :
      (ps : List Process) (fs : List Bool) (i : ℕ) (p p' : Process) (f f' : Bool)
      → Unique (pids ps)
      → At ps fs i p f
      → ((q : Process) (g : Bool) → q.pid ≢ p.pid → P q g → Q q g)
      → Q p' f'
      → Each P ps fs
      → Each Q (set ps i p') (set fs i f')
  Each-set [] fs i p p' f f' u a keep new e = tt
  Each-set (q ∷ ps) [] i p p' f f' u a keep new e = absurd e
  Each-set (q ∷ ps) (g ∷ fs) zero p p' f f' u a keep new e =
      (new, Each-others p.pid keep ps fs (ground (arith, u.0)) e.1)
  Each-set (q ∷ ps) (g ∷ fs) (suc i) p p' f f' u a keep new e = (
    keep q g (λ h. pid_at (λ b. b ≢ q.pid) ps i p u.0 a.0 (sym h)) e.0,
    Each-set ps fs i p p' f f' u.1 a keep new e.1,
  )

pub HasPid-at :
    (ps : List Process) (i : ℕ) (p : Process) → get_elem? ps i ≡ some p → HasPid p.pid (pids ps)
HasPid-at [] i p a = cc
HasPid-at (q ∷ ps) zero p a = inl (ground arith)
HasPid-at (q ∷ ps) (suc i) p a = elim (Bool-cases (q.pid ==ℤ p.pid)) [
  | inl e ↦ inl ((==ℤ_iff q.pid p.pid).0 e)
  | inr e ↦ inr ((λ h. false≢true (sym e ∙ (==ℤ_iff q.pid p.pid).1 h)), HasPid-at ps i p a)
]

-- A search from index 0 that finds the one process with the pid.
abbrev pub Finds : (ℤ → List Process → Option ℕ) → Type 0
Finds find =
    (a : ℤ) (ps : List Process)
    → Unique (pids ps)
    → HasPid a (pids ps)
    → (i : ℕ) × (p : Process) × (find a ps ≡ some i) × (get_elem? ps i ≡ some p) × (p.pid ≡ a)

not_eq : (a b : ℤ) → a ≢ b → (a ==ℤ b) ≡ false
not_eq a b h = elim (Bool-cases (a ==ℤ b)) [ inl e ↦ absurd (h ((==ℤ_iff a b).0 e)) | inr e ↦ e ]

find_first_from :
    (a : ℤ) (ps : List Process) (k : ℕ)
    → HasPid a (pids ps)
    → (i : ℕ) × (p : Process) × (find_first a ps k ≡ some (k + i))
      × (get_elem? ps i ≡ some p)
      × (p.pid ≡ a)
unfolding find_first
find_first_from a [] k h = absurd h
find_first_from a (q ∷ ps) k (inl e) = (0, q, rw (e, ==ℤ_refl) (ap some (omega arith)), refl, e)
find_first_from a (q ∷ ps) k (inr (ne, h)) =
    let (i, p, found, there, same) = find_first_from a ps (k + 1) h in
    (suc i, p, rw (not_eq q.pid a ne) (found ∙ ap some (omega arith)), there, same)

pub first_index-Finds : Finds first_index
unfolding first_index
first_index-Finds a ps u h =
    let (i, p, found, there, same) = find_first_from a ps 0 h in
    (i, p, found ∙ ap some (omega arith), there, same)

find_last_absent :
    (a : ℤ) (ps : List Process) (k : ℕ) (best : Option ℕ)
    → All (λ b. b ≢ a) (pids ps)
    → find_last a ps k best ≡ best
unfolding find_last
find_last_absent a [] k best h = refl
find_last_absent a (q ∷ ps) k best h =
    rw (not_eq q.pid a h.0) (find_last_absent a ps (k + 1) best h.1)

find_last_from :
    (a : ℤ) (ps : List Process) (k : ℕ) (best : Option ℕ)
    → Unique (pids ps)
    → HasPid a (pids ps)
    → (i : ℕ) × (p : Process) × (find_last a ps k best ≡ some (k + i))
      × (get_elem? ps i ≡ some p)
      × (p.pid ≡ a)
unfolding find_last
find_last_from a [] k best u h = absurd h
find_last_from a (q ∷ ps) k best u (inl e) = (
  0,
  q,
  rw (e, ==ℤ_refl) (find_last_absent a ps (k + 1) (some k) (rw e at u.0) ∙ ap some (omega arith)),
  refl,
  e,
)
find_last_from a (q ∷ ps) k best u (inr (ne, h)) =
    let (i, p, found, there, same) = find_last_from a ps (k + 1) best u.1 h in
    (suc i, p, rw (not_eq q.pid a ne) (found ∙ ap some (omega arith)), there, same)

pub last_index-Finds : Finds last_index
unfolding last_index
last_index-Finds a ps u h =
    let (i, p, found, there, same) = find_last_from a ps 0 none u h in
    (i, p, found ∙ ap some (omega arith), there, same)

pub set_same {ℓ} :
    {A : Type ℓ} (xs : List A) (i : ℕ) (x : A) → get_elem? xs i ≡ some x → set xs i x ≡ xs
set_same [] i x a = refl
set_same (y ∷ ys) zero x a = ground (arith)
set_same (y ∷ ys) (suc i) x a = ap (◌∷◌ y) (set_same ys i x a)

pub length-pids : (ps : List Process) → length ps ≡ length (pids ps)
length-pids [] = refl
length-pids (p ∷ ps) = ap suc (length-pids ps)
