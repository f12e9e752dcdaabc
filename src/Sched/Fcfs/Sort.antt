-- ===== src/Sched/Fcfs/Sort.antt =====
-- The exchange sort of fcfs.c.
use mathlib.Core.List.{Perm}
use mathlib.Core.List.Perm
use mathlib.Core.Path.{subst}
use os_lab_project.Prelude.{
  ℕ, zero, suc, ◌≡◌, refl, true, false, List, [], ◌∷◌, arith, ℤ, ltb_ℤ, ◌≤ℤ◌, if◌then◌else◌, length,
  All, ap, sym, ◌∙◌, ◌≤◌, ◌≢◌, Bool-cases, inl, inr,
}
use os_lab_project.Sched.{Process}
use os_lab_project.Sched.Table.{Unique, pids}

-- The inner loop: position i, which holds p at first, is exchanged with each later entry that
-- arrives earlier. Gives what position i holds at the end, and the later positions.
unfoldable pub sweep : Process → List Process → Process × List Process
sweep p [] = (p, [])
sweep p (q ∷ qs) =
    let late = if ltb_ℤ q.arrival_time p.arrival_time then p else q in
    let (m, rest) = sweep (if ltb_ℤ q.arrival_time p.arrival_time then q else p) qs in
    (m, late ∷ rest)

-- The outer loop, over the number of positions left.
unfoldable pub sort_from : ℕ → List Process → List Process
unfolding sweep
sort_from zero ps = ps
sort_from (suc n) [] = []
sort_from (suc n) (p ∷ ps) = let (m, rest) = sweep p ps in m ∷ sort_from n rest

unfoldable pub sort : List Process → List Process
unfolding sort_from
sort ps = sort_from (length ps) ps

module _ (R : Process → Type 0) where
  All-sweep :
      (p : Process) (qs : List Process) → R p → All R qs → R (sweep p qs).0 × All R (sweep p qs).1
  unfolding sweep
  All-sweep p [] h hs = (h, tt)
  All-sweep p (q ∷ qs) h hs = elim (Bool-cases (ltb_ℤ q.arrival_time p.arrival_time)) [
    | inl e ↦ rw e (let (m, rest) = All-sweep q qs hs.0 hs.1 in (m, (h, rest)))
    | inr e ↦ rw e (let (m, rest) = All-sweep p qs h hs.1 in (m, (hs.0, rest)))
  ]

  All-sort_from : (n : ℕ) (ps : List Process) → All R ps → All R (sort_from n ps)
  unfolding sort_from
  All-sort_from zero ps h = h
  All-sort_from (suc n) [] h = h
  All-sort_from (suc n) (p ∷ ps) h =
      let (m, rest) = All-sweep p ps h.0 h.1 in (m, All-sort_from n (sweep p ps).1 rest)

  pub All-sort : (ps : List Process) → All R ps → All R (sort ps)
  unfolding sort
  All-sort ps h = All-sort_from (length ps) ps h

length-sweep : (p : Process) (qs : List Process) → length (sweep p qs).1 ≡ length qs
unfolding sweep
length-sweep p [] = refl
length-sweep p (q ∷ qs) =
    ap suc (length-sweep (if ltb_ℤ q.arrival_time p.arrival_time then q else p) qs)

length-sort_from : (n : ℕ) (ps : List Process) → length (sort_from n ps) ≡ length ps
unfolding sort_from
length-sort_from zero ps = refl
length-sort_from (suc n) [] = refl
length-sort_from (suc n) (p ∷ ps) = ap suc (length-sort_from n (sweep p ps).1 ∙ length-sweep p ps)

pub length-sort : (ps : List Process) → length (sort ps) ≡ length ps
unfolding sort
length-sort ps = length-sort_from (length ps) ps

sweep-perm : (p : Process) (qs : List Process) → Perm ((sweep p qs).0 ∷ (sweep p qs).1) (p ∷ qs)
unfolding sweep
sweep-perm p [] = Perm.refl (p ∷ [])
sweep-perm p (q ∷ qs) = elim (Bool-cases (ltb_ℤ q.arrival_time p.arrival_time)) [
  | inl e ↦
      rw e (Perm.trans (Perm.swap p (sweep q qs).0 (sweep q qs).1) (Perm.cons p (sweep-perm q qs)))
  | inr e ↦ rw e (
      Perm.trans (Perm.swap q (sweep p qs).0 (sweep p qs).1)
        (Perm.trans (Perm.cons q (sweep-perm p qs)) (Perm.swap p q qs)))
]

sort_from-perm : (n : ℕ) (ps : List Process) → Perm (sort_from n ps) ps
unfolding sort_from
sort_from-perm zero ps = Perm.refl ps
sort_from-perm (suc n) [] = Perm.refl []
sort_from-perm (suc n) (p ∷ ps) =
    Perm.trans (Perm.cons (sweep p ps).0 (sort_from-perm n (sweep p ps).1)) (sweep-perm p ps)

-- One exchange, and one comparison that exchanges nothing.
exchange :
    (p q : Process) (qs : List Process)
    → ltb_ℤ q.arrival_time p.arrival_time ≡ true
    → sweep p (q ∷ qs) ≡ ((sweep q qs).0, p ∷ (sweep q qs).1)
unfolding sweep
exchange p q qs e = rw e

no_exchange :
    (p q : Process) (qs : List Process)
    → ltb_ℤ q.arrival_time p.arrival_time ≡ false
    → sweep p (q ∷ qs) ≡ ((sweep p qs).0, q ∷ (sweep p qs).1)
unfolding sweep
no_exchange p q qs e = rw e

abbrev Leads : Process → Process × List Process → Type 0
Leads p out =
    (out.0.arrival_time ≤ℤ p.arrival_time) × All (λ q. out.0.arrival_time ≤ℤ q.arrival_time) out.1

sweep-Leads : (p : Process) (qs : List Process) → Leads p (sweep p qs)
unfolding sweep
sweep-Leads p [] = (omega arith, tt)
sweep-Leads p (q ∷ qs) = elim (Bool-cases (ltb_ℤ q.arrival_time p.arrival_time)) [
  | inl e ↦
      let (here, later) = sweep-Leads q qs in
      subst (Leads p) (sym (exchange p q qs e)) (ground arith, (ground arith, later))
  | inr e ↦
      let (here, later) = sweep-Leads p qs in
      subst (Leads p) (sym (no_exchange p q qs e)) (here, (ground arith, later))
]

abbrev pub IsSorted : List Process → Type 0
IsSorted [] = Unit
IsSorted (p ∷ ps) = All (λ q. p.arrival_time ≤ℤ q.arrival_time) ps × IsSorted ps

sort_from-IsSorted : (n : ℕ) (ps : List Process) → length ps ≤ n → IsSorted (sort_from n ps)
unfolding sort_from
sort_from-IsSorted zero [] h = tt
sort_from-IsSorted zero (p ∷ ps) h = absurd (omega arith)
sort_from-IsSorted (suc n) [] h = tt
sort_from-IsSorted (suc n) (p ∷ ps) h = (
  All-sort_from _ n (sweep p ps).1 (sweep-Leads p ps).1,
  sort_from-IsSorted n (sweep p ps).1 (omega (arith, length-sweep p ps)),
)

-- The exchange sort puts the processes in the order of their arrival, and loses and repeats none.
pub sort-IsSorted : (ps : List Process) → IsSorted (sort ps) × Perm (sort ps) ps
unfolding sort
sort-IsSorted ps = (sort_from-IsSorted (length ps) ps (omega arith), sort_from-perm (length ps) ps)

All-of-pids : (R : ℤ → Type 0) (ps : List Process) → All R (pids ps) → All (λ p. R p.pid) ps
All-of-pids R [] h = tt
All-of-pids R (p ∷ ps) h = (h.0, All-of-pids R ps h.1)

pids-of-All : (R : ℤ → Type 0) (ps : List Process) → All (λ p. R p.pid) ps → All R (pids ps)
pids-of-All R [] h = tt
pids-of-All R (p ∷ ps) h = (h.0, pids-of-All R ps h.1)

pub All-pids-sort : (R : ℤ → Type 0) (ps : List Process) → All R (pids ps) → All R (pids (sort ps))
All-pids-sort R ps h = pids-of-All R (sort ps) (All-sort (λ p. R p.pid) ps (All-of-pids R ps h))

abbrev Distinct : List Process → Type 0
Distinct ps = Unique (pids ps)

Distinct-swap : (p q : Process) (qs : List Process) → Distinct (p ∷ q ∷ qs) → Distinct (q ∷ p ∷ qs)
Distinct-swap p q qs (fresh, (fresh', rest)) = (((λ e. fresh.0 (sym e)), fresh'), (fresh.1, rest))

module _ (out now : Process) (qs : List Process) where
  put_back :
      (now.pid ≢ out.pid) × All (λ a. a ≢ out.pid) (pids qs)
      → Distinct ((sweep now qs).0 ∷ (sweep now qs).1)
      → Distinct ((sweep now qs).0 ∷ out ∷ (sweep now qs).1)
  put_back fresh rest =
      let away =
        All-sweep (λ r. r.pid ≢ out.pid) now qs fresh.0
          (All-of-pids (λ a. a ≢ out.pid) qs fresh.1) in
      Distinct-swap out (sweep now qs).0 (sweep now qs).1
        ((away.0, pids-of-All (λ a. a ≢ out.pid) (sweep now qs).1 away.1), rest)

abbrev DistinctOut : Process × List Process → Type 0
DistinctOut out = Distinct (out.0 ∷ out.1)

sweep-Distinct : (p : Process) (qs : List Process) → Distinct (p ∷ qs) → DistinctOut (sweep p qs)
unfolding sweep
sweep-Distinct p [] d = d
sweep-Distinct p (q ∷ qs) d = elim (Bool-cases (ltb_ℤ q.arrival_time p.arrival_time)) [
  | inl e ↦
      subst DistinctOut (sym (exchange p q qs e)) (put_back p q qs d.0 (sweep-Distinct q qs d.1))
  | inr e ↦
      let swapped = Distinct-swap p q qs d in
      subst DistinctOut (sym (no_exchange p q qs e))
        (put_back q p qs swapped.0 (sweep-Distinct p qs swapped.1))
]

sort_from-Distinct : (n : ℕ) (ps : List Process) → Distinct ps → Distinct (sort_from n ps)
unfolding sort_from
sort_from-Distinct zero ps d = d
sort_from-Distinct (suc n) [] d = d
sort_from-Distinct (suc n) (p ∷ ps) d =
    let swept = sweep-Distinct p ps d in
    let m = (sweep p ps).0 in
    let rest = (sweep p ps).1 in
    (
      pids-of-All (λ a. a ≢ m.pid) (sort_from n rest)
          (All-sort_from (λ r. r.pid ≢ m.pid) n rest (All-of-pids (λ a. a ≢ m.pid) rest swept.0)),
      sort_from-Distinct n rest swept.1,
    )

pub sort-Unique : (ps : List Process) → Unique (pids ps) → Unique (pids (sort ps))
unfolding sort
sort-Unique ps d = sort_from-Distinct (length ps) ps d
