-- ===== src/Sched/Rms/Balance.antt =====
-- Group6_Project2/rms.c: the work released, run and left.
use native.Mathlib.Nat
use mathlib.Core.Path.{subst, ap₂}
use mathlib.Core.Option.{some-injective, none-ne-some}
use os_lab_project.Prelude.{
  int_max, true, leb, ℕ, zero, suc, ◌+◌, ◌-◌, ◌*◌, ◌%◌, ◌≤◌, ◌<◌, ◌≡◌, refl, sym, ap, ◌∙◌, some,
  List, [], ◌∷◌, map, ◌==◌, if◌then◌else◌, get_elem?, get_elem?_of_lt, set, sum, sum-set, replicate,
  length, length-set, length-replicate, write_below, Runs, Runs-bind, Runs-map, Bool-cases,
  Option-cases, inl, inr, arith,
}
use os_lab_project.Sched.Rms.{
  Task, Rms, add_int, release, release_all, pick, run_cpu, run_cpus, run_from, run_rms, at_rest,
}
use os_lab_project.Sched.Rms.Pick.{Picked, pick-Picked}

-- The work that is left.
abbrev pub left : List Task → ℕ
left [] = 0
left (q ∷ ts) = q.r + left ts

-- The work that is released at time t: that of the tasks whose period divides t.
abbrev pub due : ℕ → List Task → ℕ
due t [] = 0
due t (q ∷ ts) = (if (t % q.p) == 0 then q.e else 0) + due t ts

-- The work that is released before time t.
abbrev pub demand : ℕ → List Task → ℕ
demand zero ts = 0
demand (suc t) ts = demand t ts + due t ts

-- What the releases at time t leave.
abbrev Released : ℕ → List Task → List Task → Type 0
Released t ts us = (left us ≡ left ts + due t ts) × ((u : ℕ) → due u us ≡ due u ts)

add_int-Runs : (a b : ℕ) → a + b ≤ int_max → Runs (add_int a b) (λ c. c ≡ a + b)
unfolding add_int
add_int-Runs a b fits = let small : leb (a + b) int_max ≡ true = ground arith in rw small refl

-- One task keeps its period and execution time, and has its work added if it is due.
abbrev Job : ℕ → Task → Task → Type 0
Job t q u = (u.r ≡ q.r + (if (t % q.p) == 0 then q.e else 0)) × (u.p ≡ q.p) × (u.e ≡ q.e)

release-Job :
    (t : ℕ) (q : Task)
    → q.r + (if (t % q.p) == 0 then q.e else 0) ≤ int_max
    → Runs (release t q) (Job t q)
unfolding release
release-Job t q fits = elim (Bool-cases ((t % q.p) == 0)) [
  | inl e ↦ rw e (
      Runs-bind (add_int q.r q.e) _ (λ r. r ≡ q.r + q.e) _ (add_int-Runs q.r q.e (rw e at fits))
        λ r same. (rw e same, refl, refl))
  | inr e ↦ rw e (rw e (omega arith), refl, refl)
]

release_all-Released :
    (t : ℕ) (ts : List Task)
    → left ts + due t ts ≤ int_max
    → Runs (release_all t ts) (Released t ts)
unfolding release_all
release_all-Released t [] fits = (refl, λ u. refl)
release_all-Released t (q ∷ ts) fits =
    Runs-bind (release t q) _ (Job t q) (Released t (q ∷ ts)) (release-Job t q (omega arith))
      λ u (work, period, time).
        Runs-bind (release_all t ts) (λ us. some (u ∷ us)) (Released t ts) (Released t (q ∷ ts))
          (release_all-Released t ts (omega arith))
          λ us (all, keep). (
            omega arith,
            λ v.
                ap₂ (λ a b. (if (v % a) == 0 then b else 0) + due v us) period time
                ∙ ap (λ n. (if (v % q.p) == 0 then q.e else 0) + n) (keep v),
          )

abbrev run_unit : Task → Task
run_unit q = record q { r = q.r - 1 }

left-set :
    (ts : List Task) (k : ℕ) (q : Task)
    → get_elem? ts k ≡ some q
    → 0 < q.r
    → left (set ts k (run_unit q)) + 1 ≡ left ts
left-set [] k q at pos_r = absurd (none-ne-some q at)
left-set (x ∷ ts) zero q at pos_r = omega (arith, ap (λ (y : Task). y.r) (some-injective x q at))
left-set (x ∷ ts) (suc k) q at pos_r = omega (arith, left-set ts k q at pos_r)

due-set :
    (u : ℕ) (ts : List Task) (k : ℕ) (q : Task)
    → get_elem? ts k ≡ some q
    → due u (set ts k (run_unit q)) ≡ due u ts
due-set u [] k q at = refl
due-set u (x ∷ ts) zero q at =
    ap (λ (y : Task). (if (u % y.p) == 0 then y.e else 0) + due u ts) (sym (some-injective x q at))
due-set u (x ∷ ts) (suc k) q at =
    ap (λ n. (if (u % x.p) == 0 then x.e else 0) + n) (due-set u ts k q at)

module _ (num_cpus h : ℕ) (ts : List Task) where
  one_more : (t : ℕ) → suc t ≡ t + 1
  one_more t = omega arith

  -- The work left and the work run make d, and the arrays have their size.
  Balanced : ℕ → Rms → Type 0
  Balanced d s =
      (left s.tasks + sum s.busy ≡ d)
      × (length s.busy ≡ num_cpus)
      × (length s.timeline ≡ num_cpus * h)
      × ((u : ℕ) → due u s.tasks ≡ due u ts)

  in_row : (c t : ℕ) → c < num_cpus → t < h → c * h + t < num_cpus * h
  in_row c t lc lt =
      omega
        (arith, Nat.mul-le-mul_right {m = c + 1} {n = num_cpus} h (omega arith), Nat.add-mul c 1 h)

  run_cpu-Balanced :
      (d t c : ℕ) (s : Rms)
      → t < h
      → c < num_cpus
      → Balanced d s
      → Runs (run_cpu h t c s) (Balanced d)
  unfolding run_cpu Balanced
  run_cpu-Balanced d t c s lt lc b =
      let row : c * h + t < length s.timeline = omega (arith, in_row c t lc lt, b.2) in
      let cpu : c < length s.busy = omega (arith, lc, b.1) in
      elim (Option-cases (pick c s.tasks)) [
        | inl idle ↦
            rw (run_cpu, idle, write_below s.timeline (c * h + t) 0 row)
              (b.0, b.1, length-set s.timeline (c * h + t) 0 ∙ b.2, b.3)
        | inr (k, e) ↦
            let picked = subst (Picked c s.tasks) e (pick-Picked c s.tasks) in
            let (q, at, ready, _) = picked.0 in
            let (n, at_c) = get_elem?_of_lt s.busy c cpu in
            rw
              (
                run_cpu,
                e,
                write_below s.timeline (c * h + t) (k.0 + 1) row,
                at,
                at_c,
                write_below s.busy c (n + 1) cpu,
              )
              (
                omega (
                  arith,
                  left-set s.tasks k.0 q at ready.1,
                  sum-set s.busy c n (n + 1) at_c,
                  b.0,
                ),
                length-set s.busy c (n + 1) ∙ b.1,
                length-set s.timeline (c * h + t) (k.0 + 1) ∙ b.2,
                λ u. due-set u s.tasks k.0 q at ∙ b.3 u,
              )
      ]

  run_cpus-Balanced :
      (d t c n : ℕ) (s : Rms)
      → t < h
      → c + n ≤ num_cpus
      → Balanced d s
      → Runs (run_cpus h t c n s) (Balanced d)
  unfolding run_cpus
  run_cpus-Balanced d t c zero s lt le b = b
  run_cpus-Balanced d t c (suc n) s lt le b =
      Runs-bind (run_cpu h t c s) (run_cpus h t (c + 1) n) (Balanced d) (Balanced d)
        (run_cpu-Balanced d t c s lt (omega arith) b)
        λ u b'. run_cpus-Balanced d t (c + 1) n u lt (omega arith) b'

  demand-le : (t k : ℕ) → t + k ≡ h → demand t ts ≤ demand h ts
  demand-le t zero e = let same : t ≡ h = omega arith in omega (arith, ap (λ u. demand u ts) same)
  demand-le t (suc k) e = omega (arith, demand-le (suc t) k (omega arith))

  run_from-Balanced :
      (t k : ℕ) (s : Rms)
      → t + k ≡ h
      → demand h ts ≤ int_max
      → Balanced (demand t ts) s
      → Runs (run_from num_cpus h t k s) (Balanced (demand h ts))
  unfolding run_from Balanced
  run_from-Balanced t zero s e fits b = subst (λ u. Balanced (demand u ts) s) (omega arith) b
  run_from-Balanced t (suc k) s e fits b =
      let now : demand (suc t) ts ≤ demand h ts = demand-le (suc t) k (omega arith) in
      Runs-bind (release_all t s.tasks) _ (Released t s.tasks) (Balanced (demand h ts))
        (release_all-Released t s.tasks (omega (arith, b.0, b.3 t)))
        λ us (all, keep).
          Runs-bind (run_cpus h t 0 num_cpus (record s { tasks = us }))
            (run_from num_cpus h (t + 1) k) (Balanced (demand (suc t) ts)) (Balanced (demand h ts))
            (run_cpus-Balanced (demand (suc t) ts) t 0 num_cpus (record s { tasks = us })
              (omega arith) (omega arith)
              (omega (arith, b.0, b.3 t), b.1, b.2, λ u. keep u ∙ b.3 u))
            λ v b'.
              run_from-Balanced (t + 1) k v (omega arith) fits
                (subst (λ u. Balanced (demand u ts) v) (one_more t) b')

left-at_rest : (ts : List Task) → left (map at_rest ts) ≡ 0
left-at_rest [] = refl
left-at_rest (q ∷ ts) = omega (arith, left-at_rest ts)

due-at_rest : (u : ℕ) (ts : List Task) → due u (map at_rest ts) ≡ due u ts
due-at_rest u [] = refl
due-at_rest u (q ∷ ts) = ap (λ n. (if (u % q.p) == 0 then q.e else 0) + n) (due-at_rest u ts)

sum-replicate : (n : ℕ) → sum (replicate n 0) ≡ 0
sum-replicate zero = refl
sum-replicate (suc n) = omega (arith, sum-replicate n)

-- If the work released before the end fits into an int: no sum overflows and no access is out of
-- range, and at the end the work left and the units that the CPUs were busy are together the work
-- released: for each time before the end, that of the tasks whose period divides it.
pub run_rms-demand :
    (num_cpus h : ℕ) (ts : List Task)
    → demand h ts ≤ int_max
    → Runs (run_rms num_cpus h ts) (λ s. left s.tasks + sum s.busy ≡ demand h ts)
unfolding run_rms Balanced
run_rms-demand num_cpus h ts fits =
    Runs-map (run_from num_cpus h 0 h begin) (Balanced num_cpus h ts (demand h ts))
      (λ s. left s.tasks + sum s.busy ≡ demand h ts)
      (run_from-Balanced num_cpus h ts 0 h begin (omega arith) fits (
        omega (arith, left-at_rest ts, sum-replicate num_cpus),
        length-replicate num_cpus 0,
        length-replicate (num_cpus * h) 0,
        λ u. due-at_rest u ts,
      ))
      λ s b. b.0
  where
    begin : Rms
    begin = record {
      tasks = map at_rest ts;
      busy = replicate num_cpus 0;
      timeline = replicate (num_cpus * h) 0;
    }
