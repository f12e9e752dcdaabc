-- ===== src/Sched/Steal/Balance.antt =====
-- Which queue a new process joins, and which queue an idle CPU steals from.
use os_lab_project.Prelude.{
  ℕ, zero, suc, ◌+◌, ◌-◌, ◌<◌, ◌≤◌, ◌≡◌, ◌≢◌, refl, sym, ◌∙◌, inl, inr, Bool, true, false, not,
  ◌&&◌, Option, none, some, List, arith, ◌==◌, length, get_elem?, get_elem?_of_lt, Bool-cases, ltb,
}
use mathlib.Core.Path.{subst}
use mathlib.Core.Option.{some-injective}
use os_lab_project.Sched.Rule.{Runs}
use os_lab_project.Sched.Steal.{CpuQueue, shortest, longest}

-- R holds of every queue of a CPU below c.
abbrev pub Below : List CpuQueue → ℕ → (ℕ → CpuQueue → Type 0) → Type 0
Below qs c R = (k : ℕ) (q : CpuQueue) → k < c → get_elem? qs k ≡ some q → R k q

Below-next :
    (qs : List CpuQueue) (c : ℕ) (R : ℕ → CpuQueue → Type 0) (q : CpuQueue)
    → get_elem? qs c ≡ some q
    → R c q
    → Below qs c R
    → Below qs (c + 1) R
Below-next qs c R q here holds below k x h at = elim (Bool-cases (k == c)) [
  | inl e ↦
      let same : c ≡ k = ground arith in
      subst (λ y. R k y)
        (some-injective q x (sym (subst (λ j. get_elem? qs j ≡ some q) same here) ∙ at))
        (subst (λ j. R j q) same holds)
  | inr e ↦ below k x (ground arith) at
]

-- CPU m's queue is no longer than that of any CPU below c.
abbrev pub ShortestBelow : List CpuQueue → ℕ → ℕ → Type 0
ShortestBelow qs c m =
    (best : CpuQueue) × (get_elem? qs m ≡ some best) × Below qs c (λ k q. best.size ≤ q.size)

-- `max_q` and `max_size` agree: none and 0, or a CPU other than i with a queue that is not empty.
abbrev pub Top : List CpuQueue → ℕ → Option ℕ → ℕ → Type 0
Top qs i none size = size ≡ 0
Top qs i (some m) size =
    (best : CpuQueue) × (get_elem? qs m ≡ some best) × (m ≢ i) × (0 < size) × (best.size ≡ size)

-- No CPU below c but i has a longer queue.
abbrev pub LongestBelow : List CpuQueue → ℕ → ℕ → Option ℕ → ℕ → Type 0
LongestBelow qs i c o size = Top qs i o size × Below qs c (λ k q. k ≢ i → q.size ≤ size)

module _ (qs : List CpuQueue) where
  shortest_from :
      (n c m : ℕ)
      → c + n ≡ length qs
      → ShortestBelow qs c m
      → Runs (shortest qs n c m) (λ r. ShortestBelow qs (length qs) r)
  unfolding shortest
  shortest_from zero c m total (best, there, least) =
      (best, there, λ k q h at. least k q (omega arith) at)
  shortest_from (suc n) c m total (best, there, least) =
      let (q, here) = get_elem?_of_lt qs c (omega arith) in
      elim (Bool-cases (ltb q.size best.size)) [
        | inl less ↦
            rw (here, there, less)
              (shortest_from n (c + 1) c (omega arith) (
                q,
                here,
                Below-next qs c (λ k x. q.size ≤ x.size) q here (omega arith)
                    (λ k x h at. ground (arith, least k x h at)),
              ))
        | inr more ↦
            rw (here, there, more)
              (shortest_from n (c + 1) m (omega arith) (
                best,
                there,
                Below-next qs c (λ k x. best.size ≤ x.size) q here (ground arith) least,
              ))
      ]

  -- With one CPU at least: the search faults on no queue, and no queue is shorter than the one
  -- that it gives.
  pub shortest-ShortestBelow :
      0 < length qs → Runs (shortest qs (length qs - 1) 1 0) (λ m. ShortestBelow qs (length qs) m)
  shortest-ShortestBelow some_cpu =
      let (best, there) = get_elem?_of_lt qs 0 some_cpu in
      shortest_from (length qs - 1) 1 0 (ground arith) (
        best,
        there,
        Below-next qs 0 (λ k x. best.size ≤ x.size) best there (omega arith)
            (λ k q h at. absurd (omega arith)),
      )

  module _ (i : ℕ) where
    longest_from :
        (n c : ℕ) (o : Option ℕ) (size : ℕ)
        → c + n ≡ length qs
        → LongestBelow qs i c o size
        → Runs (longest qs i n c o size) (λ r. (top : ℕ) × LongestBelow qs i (length qs) r top)
    unfolding longest
    longest_from zero c o size total h = (size, (h.0, λ k q below at. h.1 k q (omega arith) at))
    longest_from (suc n) c o size total h =
        let (q, here) = get_elem?_of_lt qs c (omega arith) in
        elim (Bool-cases (not (c == i) && ltb size q.size)) [
          | inl better ↦
              rw (here, better)
                (longest_from n (c + 1) (some c) q.size (omega arith) (
                  (q, here, (λ e. ground (arith, better)), ground (arith, better), refl),
                  Below-next qs c (λ k x. k ≢ i → x.size ≤ q.size) q here (λ _. omega arith)
                      (λ k x lt at ne. ground (arith, h.1 k x lt at ne, better)),
                ))
          | inr worse ↦
              rw (here, worse)
                (longest_from n (c + 1) o size (omega arith) (
                  h.0,
                  Below-next qs c (λ k x. k ≢ i → x.size ≤ size) q here
                      (λ ne. not_longer (c == i) (λ e. ne (ground arith)) worse) h.1,
                ))
        ]
      where
        not_longer :
            {a b : ℕ} (same : Bool) → (same ≡ true → ⊥) → (not same && ltb a b) ≡ false → b ≤ a
        not_longer true ne h = absurd (ne refl)
        not_longer false ne h = ground arith

    -- The search faults on no queue. It gives the longest of the queues of the other CPUs, and
    -- none if all of those are empty.
    pub longest-LongestBelow :
        Runs
          (longest qs i (length qs) 0 none 0)
          (λ r. (top : ℕ) × LongestBelow qs i (length qs) r top)
    longest-LongestBelow =
        longest_from (length qs) 0 none 0 (omega arith) (refl, λ k q h at. absurd (omega arith))
