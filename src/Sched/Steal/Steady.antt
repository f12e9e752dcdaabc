-- ===== src/Sched/Steal/Steady.antt =====
-- What parts B and C of a round of work_steal.c leave as it is: the marks of the processes that have
-- arrived, and the times of arrival.
use mathlib.Core.Option.{some-injective}
use os_lab_project.Prelude.{
  ℕ, ◌≡◌, refl, sym, ap, ◌∙◌, inl, inr, Bool, ◌&&◌, Option, none, some, get_elem?,
  get_elem?-set_self, get_elem?-set_ne, set, Bool-cases, pos, minus_one, leb_ℤ, ltb_ℤ, ◌==ℤ◌,
  Yields, Yields-bind, below, index_cases,
}
use os_lab_project.Sched.{Process, Core, write, first_index}
use os_lab_project.Sched.Table.{At}
use os_lab_project.Sched.Policy.{spend_unit}
use os_lab_project.Sched.Steal.{
  State, find_work, take_up, assign, work, work_on, execute, close_account,
}

-- The process arrives at a time from 0 on that lies before t.
abbrev pub has_come : ℕ → Process → Bool
has_come t p = leb_ℤ (pos 0) p.arrival_time && ltb_ℤ p.arrival_time (pos t)

-- The mark of each process says whether it arrives before the time that `cut` gives for it.
abbrev pub MarkedTo : (ℕ → ℕ) → State → Type 0
MarkedTo cut s =
    (i : ℕ) (p : Process) (f : Bool) → At s.processes s.arrived i p f → f ≡ has_come (cut i) p

-- The marks, the times of arrival and the time are those of s.
pub record Steady (s u : State) : Type 0 where
  pub marks : u.arrived ≡ s.arrived
  pub clock : u.time ≡ s.time
  pub rows :
      (i : ℕ) (p : Process)
      → get_elem? u.processes i ≡ some p
      → (q : Process) × (get_elem? s.processes i ≡ some q) × (p.arrival_time ≡ q.arrival_time)

pub Steady-refl : (s : State) → Steady s s
Steady-refl s = record { marks = refl; clock = refl; rows = λ i p at. (p, at, refl) }

pub Steady-trans : (s u v : State) → Steady s u → Steady u v → Steady s v
Steady-trans s u v a b = record {
  marks = b.marks ∙ a.marks;
  clock = b.clock ∙ a.clock;
  rows = λ i p at.
      let (q, there, same) = b.rows i p at in
      let (r, there', same') = a.rows i q there in (r, there', same ∙ same');
}

pub Steady-MarkedTo : (cut : ℕ → ℕ) (s u : State) → Steady s u → MarkedTo cut s → MarkedTo cut u
Steady-MarkedTo cut s u h marked i p f at =
    let (q, there, same) = h.rows i p at.0 in
    marked i q f (there, sym (ap (λ fs. get_elem? fs i) h.marks) ∙ at.1)
    ∙ ap (λ a. leb_ℤ (pos 0) a && ltb_ℤ a (pos (cut i))) (sym same)

take_up-Steady :
    (i : ℕ) (c : Core) (s u : State) (o : Option ℕ)
    → Steady s u
    → Yields (Steady s) (take_up i c u o)
unfolding take_up
take_up-Steady i c s u none h = h
take_up-Steady i c s u (some j) h =
    Yields-bind (get_elem? u.processes j) _ _
      λ p _. record { marks = h.marks; clock = h.clock; rows = h.rows }

pub assign-Steady : (i : ℕ) (s : State) → Yields (Steady s) (assign i s)
unfolding assign
assign-Steady i s = Yields-bind (get_elem? s.cores i) _ _ λ c _.
    elim (Bool-cases (c.current_pid ==ℤ minus_one)) [
      | inl idle ↦ rw idle (
          Yields-bind (find_work i s.queues) _ _ λ out _.
            take_up-Steady i c s (record s { queues = out.1 }) out.0
              (record { marks = refl; clock = refl; rows = λ k p at. (p, at, refl) }))
      | inr busy ↦ rw busy (Steady-refl s)
    ]

-- A process is written back with its time of arrival.
rewritten :
    (s : State) (j : ℕ) (p r : Process)
    → get_elem? s.processes j ≡ some p
    → r.arrival_time ≡ p.arrival_time
    → (i : ℕ) (x : Process) → get_elem? (set s.processes j r) i ≡ some x
    → (q : Process) × (get_elem? s.processes i ≡ some q) × (x.arrival_time ≡ q.arrival_time)
rewritten s j p r there keeps i x at = elim (index_cases j i) [
  | inl e ↦
      let mine : r ≡ x = some-injective r x (
        sym (get_elem?-set_self s.processes j r (below s.processes j there))
        ∙ ap (get_elem? (set s.processes j r)) e
        ∙ at) in
      (
        p,
        sym (ap (get_elem? s.processes) e) ∙ there,
        sym (ap (λ (y : Process). y.arrival_time) mine) ∙ keeps,
      )
  | inr ne ↦ (x, sym (get_elem?-set_ne s.processes r ne) ∙ at, refl)
]

work_on-Steady : (i : ℕ) (c : Core) (s : State) (o : Option ℕ) → Yields (Steady s) (work_on i c s o)
unfolding work_on work close_account
work_on-Steady i c s none = record { marks = refl; clock = refl; rows = λ k p at. (p, at, refl) }
work_on-Steady i c s (some j) = Yields-bind (get_elem? s.processes j) _ _ λ p there.
    elim (Bool-cases ((spend_unit p).remaining_time ==ℤ pos 0)) [
      | inl over ↦ rw over (record {
        marks = refl;
        clock = refl;
        rows = rewritten s j p (close_account s.time (spend_unit p)) there refl;
      })
      | inr left ↦
          rw left (record {
            marks = refl;
            clock = refl;
            rows = rewritten s j p (spend_unit p) there refl;
          })
    ]

pub execute-Steady : (i : ℕ) (s : State) → Yields (Steady s) (execute i s)
unfolding execute
execute-Steady i s = Yields-bind (get_elem? s.cores i) _ _ λ c _.
    elim (Bool-cases (c.current_pid ==ℤ minus_one)) [
      | inl idle ↦ rw idle (
          Yields-bind (write c.row s.time (pos 0)) _ _
            λ row _. record { marks = refl; clock = refl; rows = λ k p at. (p, at, refl) })
      | inr busy ↦ rw busy (
          Yields-bind (write c.row s.time c.current_pid) _ _ λ row _.
            work_on-Steady i (record c { row = row }) s (first_index c.current_pid s.processes))
    ]
