-- ===== src/Sched/Steal/Marks.antt =====
-- The marks of work_steal.c after whole rounds.
use mathlib.Core.Path.{subst}
use os_lab_project.Prelude.{
  ℕ, zero, suc, ◌+◌, ◌≡◌, refl, sym, ap, ◌∙◌, inl, inr, true, false, ◌&&◌, Option, some, List,
  arith, bit, length, Bool-cases, ltb, ◌>>=◌, ℤ, pos, leb_ℤ, ltb_ℤ, Yields, Yields-map, Yields-then,
  below, get_elem?-replicate,
}
use os_lab_project.Sched.{Process, max_time}
use os_lab_project.Sched.Steal.Steady.{
  has_come, MarkedTo, Steady, Steady-refl, Steady-trans, Steady-MarkedTo, assign-Steady,
  execute-Steady,
}
use os_lab_project.Sched.Steal.Arrivals.{for_each-Yields, up_to, MarkedUpTo, arrive-MarkedUpTo}
use os_lab_project.Sched.Steal.{State, arrive, assign, execute, for_each, tick, rounds, start_steal}

loop-Steady :
    (body : ℕ → State → Option State)
    → ((i : ℕ) (s : State) → Yields (Steady s) (body i s))
    → (m : ℕ) (s u : State) → Steady s u
    → Yields (Steady s) (for_each body m 0 u)
loop-Steady body keep m s u h =
    for_each-Yields (λ _. Steady s) body
      (λ i v h'.
        Yields-map (body i v) (Steady v) (Steady s) (keep i v) (λ w h''. Steady-trans s v w h' h''))
      m 0 u h

-- The marks are right at the time of the state.
abbrev pub Marked : State → Type 0
Marked s = MarkedTo (λ _. s.time) s

-- After part A the marks are right for the next time.
arrivals-MarkedTo :
    (s : State)
    → Marked s
    → Yields
        (λ u. (u.time ≡ s.time) × MarkedTo (λ _. s.time + 1) u)
        (for_each arrive (length s.processes) 0 s)
arrivals-MarkedTo s marked =
    Yields-map (for_each arrive (length s.processes) 0 s)
      (MarkedUpTo s.time (length s.processes) (0 + length s.processes)) _
      (for_each-Yields (MarkedUpTo s.time (length s.processes)) arrive
        (arrive-MarkedUpTo s.time (length s.processes)) (length s.processes) 0 s
        (refl, refl, λ i p f at. marked i p f at ∙ ap (λ k. has_come k p) (none_below i)))
      λ u (clock, size, h). (
        clock,
        λ i p f at.
            let inside : ltb i (0 + length s.processes) ≡ true =
              ground (arith, below u.processes i at.0, size) in
            h i p f at ∙ ap (λ b. has_come (s.time + bit b) p) inside,
      )
  where
    none_below : (i : ℕ) → s.time ≡ up_to s.time 0 i
    none_below i = ground arith

tick-Marked : (s : State) → Marked s → Yields Marked (tick s)
unfolding tick
tick-Marked s marked =
    Yields-then
      (for_each arrive (length s.processes) 0 s
        >>= for_each assign (length s.cores) 0
        >>= for_each execute (length s.cores) 0)
      (λ v. some (record v { time = v.time + 1 })) Next Marked
      (Yields-then (for_each arrive (length s.processes) 0 s >>= for_each assign (length s.cores) 0)
        (for_each execute (length s.cores) 0) Next Next
        (Yields-then (for_each arrive (length s.processes) 0 s) (for_each assign (length s.cores) 0)
          Next Next (arrivals-MarkedTo s marked) λ u h. keeps assign assign-Steady u h)
        λ u h. keeps execute execute-Steady u h)
      λ u (clock, h). subst (λ t. MarkedTo (λ _. t + 1) u) (sym clock) h
  where
    Next : State → Type 0
    Next u = (u.time ≡ s.time) × MarkedTo (λ _. s.time + 1) u

    keeps :
        (body : ℕ → State → Option State)
        → ((i : ℕ) (v : State) → Yields (Steady v) (body i v))
        → (u : State) → Next u
        → Yields Next (for_each body (length s.cores) 0 u)
    keeps body steady u (clock, h) =
        Yields-map (for_each body (length s.cores) 0 u) (Steady u) Next
          (loop-Steady body steady (length s.cores) u u (Steady-refl u))
          λ v same. (same.clock ∙ clock, Steady-MarkedTo (λ _. s.time + 1) u v same h)

-- After any number of rounds a process is marked as arrived exactly if its time of arrival has
-- passed.
pub rounds-Marked : (m fuel : ℕ) (s : State) → Marked s → Yields Marked (rounds m fuel s)
unfolding rounds
rounds-Marked m zero s h = h
rounds-Marked m (suc fuel) s h = elim (Bool-cases (ltb s.completed m && ltb s.time max_time)) [
  | inl more ↦
      rw (more, rounds, Yields)
        (Yields-then (tick s) (rounds m fuel) Marked Marked (tick-Marked s h)
          λ v h'. rounds-Marked m fuel v h')
  | inr over ↦ rw (over, rounds, Yields) h
]

pub start_steal-Marked :
    (blank : List ℕ) (n : ℕ) (ps : List Process) → Marked (start_steal blank n ps)
unfolding start_steal
start_steal-Marked blank n ps i p f at =
    get_elem?-replicate 100 i false f at.1 ∙ sym (too_early p.arrival_time)
  where
    too_early : (a : ℤ) → (leb_ℤ (pos 0) a && ltb_ℤ a (pos 0)) ≡ false
    too_early a = ground arith
