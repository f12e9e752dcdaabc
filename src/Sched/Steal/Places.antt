-- ===== src/Sched/Steal/Places.antt =====
-- Where the processes are: in a queue, on a CPU, complete, or not yet arrived.
use mathlib.Core.Option.{some-injective}
use os_lab_project.Prelude.{
  ℕ, zero, suc, ◌+◌, ◌≤◌, ◌≡◌, refl, sym, ap, ◌∙◌, Option, none, some, List, [], ◌∷◌, ◌++◌, arith,
  ◌==◌, bit, length, length-set, get_elem?, set, All, All-set, All-get,
}
use os_lab_project.Sched.Rule.{Runs, Runs-map, Runs-bind}
use os_lab_project.Sched.Steal.{
  CpuQueue, pop_front, pop_back, find_work, or_steal, steal, steal_from, longest,
}
use os_lab_project.Sched.Steal.Deque.{
  contents, IsDeque, Within, PoppedFront, PoppedBack, pop_front-Runs, pop_back-Runs,
}
use os_lab_project.Sched.Steal.Balance.{LongestBelow, Top, longest-LongestBelow}

-- How often an index stands in a list, and in the queues.
abbrev pub times : ℕ → List ℕ → ℕ
times i [] = 0
times i (x ∷ xs) = bit (i == x) + times i xs

abbrev pub queued : List CpuQueue → ℕ → ℕ
queued [] i = 0
queued (q ∷ qs) i = times i (contents q) + queued qs i

pub times-append : (i : ℕ) (xs ys : List ℕ) → times i (xs ++ ys) ≡ times i xs + times i ys
times-append i [] ys = omega arith
times-append i (x ∷ xs) ys = omega (arith, times-append i xs ys)

pub queued-set :
    (qs : List CpuQueue) (k : ℕ) (q q' : CpuQueue) (i : ℕ)
    → get_elem? qs k ≡ some q
    → queued (set qs k q') i + times i (contents q) ≡ queued qs i + times i (contents q')
queued-set [] k q q' i at = cc
queued-set (x ∷ qs) zero q q' i at =
    let same : times i (contents x) ≡ times i (contents q) =
      ap (λ y. times i (contents y)) (some-injective x q at) in
    omega (arith, same)
queued-set (x ∷ qs) (suc k) q q' i at = omega (arith, queued-set qs k q q' i at)

-- A deque on an array of 100 entries, to which no more than n processes were ever pushed.
abbrev pub IsQueue : ℕ → CpuQueue → Type 0
IsQueue n q = IsDeque q × (length q.process_indices ≡ 100) × (q.rear ≤ n)

-- What a search for work leaves in the queues.
abbrev pub Taken : List CpuQueue → ℕ → Option ℕ × List CpuQueue → Type 0
Taken qs n (none, qs') =
    (length qs' ≡ length qs) × All (IsQueue n) qs' × ((i : ℕ) → queued qs' i ≡ queued qs i)
Taken qs n (some p, qs') =
    (length qs' ≡ length qs)
    × All (IsQueue n) qs'
    × ((i : ℕ) → queued qs i ≡ queued qs' i + bit (i == p))

module _ (n : ℕ) where
  IsQueue-Within : (q r : CpuQueue) → IsQueue n q → Within q r → IsQueue n r
  IsQueue-Within q r (deque, full, few) (deque', less, same) = (deque', omega arith, omega arith)

  front-Taken :
      (qs : List CpuQueue) (k : ℕ) (q : CpuQueue) (o : Option ℕ) (r : CpuQueue)
      → get_elem? qs k ≡ some q
      → All (IsQueue n) qs
      → PoppedFront q o r
      → Within q r
      → Taken qs n (o, set qs k r)
  front-Taken qs k q none r at all popped within = (
    length-set qs k r,
    All-set (IsQueue n) qs k r (IsQueue-Within q r (All-get (IsQueue n) qs k q all at) within) all,
    λ i. omega (arith, queued-set qs k q r i at, ap (λ y. times i (contents y)) popped.1),
  )
  front-Taken qs k q (some p) r at all popped within = (
    length-set qs k r,
    All-set (IsQueue n) qs k r (IsQueue-Within q r (All-get (IsQueue n) qs k q all at) within) all,
    λ i. omega (arith, queued-set qs k q r i at, ap (times i) popped),
  )

  back-Taken :
      (qs : List CpuQueue) (k : ℕ) (q : CpuQueue) (o : Option ℕ) (r : CpuQueue)
      → get_elem? qs k ≡ some q
      → All (IsQueue n) qs
      → PoppedBack q o r
      → Within q r
      → Taken qs n (o, set qs k r)
  back-Taken qs k q none r at all popped within = front-Taken qs k q none r at all popped within
  back-Taken qs k q (some p) r at all popped within = (
    length-set qs k r,
    All-set (IsQueue n) qs k r (IsQueue-Within q r (All-get (IsQueue n) qs k q all at) within) all,
    λ i. omega (
      arith,
      queued-set qs k q r i at,
      ap (times i) popped ∙ times-append i (contents r) (p ∷ []),
    ),
  )

  Taken-trans :
      (qs qs' : List CpuQueue) (out : Option ℕ × List CpuQueue)
      → Taken qs n (none, qs')
      → Taken qs' n out
      → Taken qs n out
  Taken-trans qs qs' (none, rs) (len, all, keep) (len', all', keep') =
      (len' ∙ len, all', λ i. keep' i ∙ keep i)
  Taken-trans qs qs' (some p, rs) (len, all, keep) (len', all', keep') =
      (len' ∙ len, all', λ i. sym (keep i) ∙ keep' i)

  steal_from-Taken :
      (i : ℕ) (qs : List CpuQueue) (o : Option ℕ) (top : ℕ)
      → All (IsQueue n) qs
      → Top qs i o top
      → Runs (steal_from qs o) (Taken qs n)
  unfolding steal_from
  steal_from-Taken i qs none top all t = (refl, all, λ j. refl)
  steal_from-Taken i qs (some c) top all (q, at, _, _, _) = rw at (
      Runs-bind (pop_back q) (λ (o, q'). some (o, set qs c q'))
        (λ out. PoppedBack q out.0 out.1 × Within q out.1) (Taken qs n)
        (pop_back-Runs q (All-get (IsQueue n) qs c q all at).0)
        λ out h. back-Taken qs c q out.0 out.1 at all h.0 h.1)

  or_steal-Taken :
      (i : ℕ) (qs qs' : List CpuQueue) (o : Option ℕ)
      → Taken qs n (o, qs')
      → Runs (or_steal i qs' o) (Taken qs n)
  unfolding or_steal steal
  or_steal-Taken i qs qs' none taken =
      Runs-bind (longest qs' i (length qs') 0 none 0) (steal_from qs')
        (λ r. (top : ℕ) × LongestBelow qs' i (length qs') r top) (Taken qs n)
        (longest-LongestBelow qs' i)
        λ r h.
          Runs-map (steal_from qs' r) (Taken qs' n) (Taken qs n)
            (steal_from-Taken i qs' r h.0 taken.1 h.1.0) λ out h'. Taken-trans qs qs' out taken h'
  or_steal-Taken i qs qs' (some p) taken = taken

  -- If all queues are well formed: the search for work faults on no access, what CPU i takes leaves
  -- the queues and nothing else does, and with nothing to take they hold what they held.
  pub find_work-Taken :
      (i : ℕ) (q : CpuQueue) (qs : List CpuQueue)
      → get_elem? qs i ≡ some q
      → All (IsQueue n) qs
      → Runs (find_work i qs) (Taken qs n)
  unfolding find_work
  find_work-Taken i q qs at all = rw at (
      Runs-bind (pop_front q) (λ (o, q'). or_steal i (set qs i q') o)
        (λ out. PoppedFront q out.0 out.1 × Within q out.1) (Taken qs n)
        (pop_front-Runs q (All-get (IsQueue n) qs i q all at).0)
        λ out h.
          or_steal-Taken i qs (set qs i out.1) out.0
            (front-Taken qs i q out.0 out.1 at all h.0 h.1))
