-- ===== src/Sched/Scan/Best.antt =====
-- A scan whose body keeps the best process seen, as in fcfs.c, mlfq.c and edf.c.
use os_lab_project.Prelude.{
  ℕ, ◌+◌, ◌≡◌, refl, sym, ◌∙◌, Bool, true, false, Option, none, some, List, [], ◌∷◌, arith, pos,
  All, Bool-cases, ◌⊎◌, inl, inr,
}
use mathlib.Core.Bool.{false≢true}
use os_lab_project.Sched.{Process, Sim, scan}
use os_lab_project.Sched.Table.{Each, At}
use os_lab_project.Sched.Rule.{Runs}
use mathlib.Core.Path.{subst}
use os_lab_project.Sched.Policy.Laws.{is_ready, Chooses}
use os_lab_project.Sched.Scan.{
  candidates, fold, scan-fold, Listed, candidates-Listed, candidates-nil, candidates-All,
}

abbrev pub Leads : (Process → Process → Type 0) → Option (ℕ × Process) → Process → Type 0
Leads Before none q = ⊥
Leads Before (some (i, p)) q = Before p q

-- The process picked is ready and comes before every ready one; if none is picked, none is ready.
abbrev pub Picks : (Process → Process → Type 0) → Sim → Option (ℕ × Process) → Type 0
Picks Before s none = Each (λ p f. is_ready s.time p f ≡ false) s.processes s.is_running
Picks Before s (some (i, p)) =
    (f : Bool) × At s.processes s.is_running i p f
    × (is_ready s.time p f ≡ true)
    × Each (λ q g. is_ready s.time q g ≡ true → Before p q) s.processes s.is_running

pub Picks-Chooses :
    (Before : Process → Process → Type 0) (s : Sim) (o : Option (ℕ × Process))
    → Picks Before s o
    → Chooses s o
Picks-Chooses Before s none h = h
Picks-Chooses Before s (some (i, p)) (f, a, r, _) = (f, a, r)

abbrev Holds : (ℕ × Process → Type 0) → Option (ℕ × Process) → Type 0
Holds R none = Unit
Holds R (some c) = R c

-- What leads the candidates comes before every ready process.
Each-of_candidates :
    (R : Process → Type 0) (P : Process → Bool → Type 0) (time : ℕ) (ps : List Process)
    (fs : List Bool) (k : ℕ)
    → Each P ps fs
    → All (λ c. R c.1) (candidates time ps fs k)
    → Each (λ q g. is_ready time q g ≡ true → R q) ps fs
unfolding candidates
Each-of_candidates R P time [] fs k e h = tt
Each-of_candidates R P time (p ∷ ps) [] k e h = e
Each-of_candidates R P time (p ∷ ps) (f ∷ fs) k e h = elim (Bool-cases (is_ready time p f)) [
  | inl r ↦
      let h' : All (λ c. R c.1) ((k, p) ∷ candidates time ps fs (k + 1)) = rw r at h in
      ((λ _. h'.0), Each-of_candidates R P time ps fs (k + 1) e.1 h'.1)
  | inr r ↦
      let h' : All (λ c. R c.1) (candidates time ps fs (k + 1)) = rw r at h in
      ((λ r'. absurd (false≢true (sym r ∙ r'))), Each-of_candidates R P time ps fs (k + 1) e.1 h')
]

-- The order, what the scan's variables keep true, what the processes have to satisfy.
module _ {B : Type 0} (body : ℕ → Process → B → B) (best : B → Option (ℕ × Process))
    (Before : Process → Process → Type 0) (Fine : Process → Type 0) (Agrees : B → Type 0)
    (keep : (i : ℕ) (q : Process) (b : B) → Fine q → Agrees b → Agrees (body i q b))
    (new : (i : ℕ) (q : Process) (b : B) → Fine q → Agrees b → Leads Before (best (body i q b)) q)
    (old : (i : ℕ) (q : Process) (b : B) (x : Process)
      → Fine q
      → Agrees b
      → Leads Before (best b) x
      → Leads Before (best (body i q b)) x)
    (source : (i : ℕ) (q : Process) (b : B)
      → (best (body i q b) ≡ best b) ⊎ (best (body i q b) ≡ some (i, q))) where
  fold-old :
      (cs : List (ℕ × Process)) (b : B) (x : Process)
      → All (λ c. Fine c.1) cs
      → Agrees b
      → Leads Before (best b) x
      → Leads Before (best (fold body cs b)) x
  unfolding fold
  fold-old [] b x fine ok h = h
  fold-old ((i, q) ∷ cs) b x fine ok h =
      fold-old cs (body i q b) x fine.1 (keep i q b fine.0 ok) (old i q b x fine.0 ok h)

  fold-Leads :
      (cs : List (ℕ × Process)) (b : B)
      → All (λ c. Fine c.1) cs
      → Agrees b
      → All (λ c. Leads Before (best (fold body cs b)) c.1) cs
  unfolding fold
  fold-Leads [] b fine ok = tt
  fold-Leads ((i, q) ∷ cs) b fine ok = (
    fold-old cs (body i q b) q fine.1 (keep i q b fine.0 ok) (new i q b fine.0 ok),
    fold-Leads cs (body i q b) fine.1 (keep i q b fine.0 ok),
  )

  fold-Holds :
      (R : ℕ × Process → Type 0) (cs : List (ℕ × Process)) (b : B)
      → All R cs
      → Holds R (best b)
      → Holds R (best (fold body cs b))
  unfolding fold
  fold-Holds R [] b all h = h
  fold-Holds R ((i, q) ∷ cs) b all h =
      fold-Holds R cs (body i q b) all.1
        (elim (source i q b) [ inl e ↦ rw e h | inr e ↦ rw e all.0 ])

  -- The scan faults on no flag and picks the best ready process.
  Picks-of_fold :
      (s : Sim) (o : Option (ℕ × Process)) (P : Process → Bool → Type 0)
      → Each P s.processes s.is_running
      → All (λ c. Leads Before o c.1) (candidates s.time s.processes s.is_running 0)
      → Holds (Listed s.time s.processes s.is_running 0) o
      → Picks Before s o
  Picks-of_fold s none P each leads held =
      candidates-nil s.time P s.processes s.is_running 0 each (none_leads _ leads)
    where
      none_leads : (cs : List (ℕ × Process)) → All (λ c. Leads Before none c.1) cs → cs ≡ []
      none_leads [] h = refl
      none_leads (c ∷ cs) h = absurd h.0
  Picks-of_fold s (some (i, p)) P each leads (j, f, e, a, r) =
      let e' : j ≡ i = omega (arith, e) in
      (
        f,
        subst (λ k. At s.processes s.is_running k p f) e' a,
        r,
        Each-of_candidates (Before p) P s.time s.processes s.is_running 0 each leads,
      )

  pub scan-Picks :
      (s : Sim) (b : B) (P : Process → Bool → Type 0)
      → Each P s.processes s.is_running
      → Each (λ q g. is_ready s.time q g ≡ true → Fine q) s.processes s.is_running
      → Agrees b
      → best b ≡ none
      → Runs (scan body (pos s.time) s.processes s.is_running 0 b) (λ r. Picks Before s (best r))
  scan-Picks s b P each fine ok empty =
      let cs = candidates s.time s.processes s.is_running 0 in
      let listed = candidates-Listed s.time s.processes s.is_running 0 in
      rw (scan-fold body P s.time s.processes s.is_running 0 b each) (
        Picks-of_fold s (best (fold body cs b)) P each
          (fold-Leads cs b (candidates-All Fine s.time s.processes s.is_running 0 fine) ok)
          (fold-Holds (Listed s.time s.processes s.is_running 0) cs b listed (rw empty tt)))
