-- ===== src/Sched/Policy/Phases.antt =====
-- The visits of a CPU in a round, for every policy that is sound.
use os_lab_project.Prelude.{
  ℕ, ◌+◌, ◌<◌, ◌≡◌, refl, sym, ◌∙◌, ◌≢◌, ◌⊎◌, inl, inr, Bool, true, false, Option, none, some, List,
  arith, ℤ, pos, minus_one, ◌==ℤ◌, ==ℤ_iff, length, length-set, set, Bool-cases, eq_of_parts,
}
use mathlib.Core.Bool.{false≢true}
use mathlib.Core.Path.{subst}
use os_lab_project.Sched.{Process, Core, Sim, max_time}
use os_lab_project.Sched.Table.{
  Unique, HasPid, Each-map, At, write_at, write_below, Each-At, HasPid-at,
}
use os_lab_project.Sched.Rule.{Runs, Runs-bind, hit, Counts, ◌⊞◌, ⊞_assoc}
use os_lab_project.Sched.Locks.{Facts, Entry, Locked, located, IsIdle, IsCore, is_done}
use os_lab_project.Sched.Steps.{pass_idle, pass_busy, give_up, take_up, rest_idle, spend}
use os_lab_project.Sched.Policy.{
  Policy, Verdict, stays, finishes, yields, settle, complete, dispatch, assign, execute, spend_unit,
}
use os_lab_project.Sched.Policy.Laws.{Judges, Chooses, IsSound}

charted :
    {ids : List ℤ} {c : Core}
    → IsCore ids c
    → (t : ℕ) (a left : ℤ) → IsCore ids (record c { row = set c.row t a; time_left_on_core = left })
charted {c = c} core t a left = record {
  known = core.known;
  whole = length-set c.row t a ∙ core.whole;
}

not_done : (p : Process) → p.remaining_time ≢ pos 0 → is_done p false ≡ true → ⊥
not_done p ne h = ne (eq_of_parts p.remaining_time (pos 0) (ground arith))

chosen_draws :
    (s : Sim) (out : Option (ℕ × Process) × ℕ)
    → Chooses s out.0
    → Chooses (record s { draws = out.1 }) out.0
chosen_draws s (none, draws) h = h
chosen_draws s (some (i, p), draws) h = h

pub busy_pid :
    {ids : List ℤ} {c : Core}
    → IsCore ids c
    → (c.current_pid ==ℤ minus_one) ≡ false
    → HasPid c.current_pid ids
busy_pid {ids} {c} core busy = go core.known
  where
    go : IsIdle c ⊎ HasPid c.current_pid ids → HasPid c.current_pid ids
    go (inl idle) = absurd (false≢true (sym busy ∙ (==ℤ_iff c.current_pid minus_one).1 idle))
    go (inr h) = h

module _ {facts : Facts} (policy : Policy) (sound : IsSound facts policy) (ids : List ℤ)
    (unique : Unique ids) (time : ℕ) (early : time < max_time) where
  open policy use {find, judge, preempt, choose, chart_idle, slice, charge}

  -- While CPUs are released: those before the one that is visited have time left.
  abbrev pub Completing : Counts → Counts → Sim → Type 0
  Completing o r s =
      Locked facts ids o (o ⊞ r) s.processes s.is_running s.completed × (s.time ≡ time)

  abbrev pub Assigning : Counts → Counts → Sim → Type 0
  Assigning o r s =
      Locked facts ids (o ⊞ r) (o ⊞ r) s.processes s.is_running s.completed × (s.time ≡ time)

  -- While CPUs execute: those from the one that is visited on have time left.
  abbrev pub Executing : Counts → Counts → Sim → Type 0
  Executing o r s =
      Locked facts ids r (o ⊞ r) s.processes s.is_running s.completed × (s.time ≡ time)

  freed : {c : Core} → IsCore ids c → IsCore ids (record c { current_pid = minus_one })
  freed core = record { known = inl refl; whole = core.whole }

  settle-Completing :
      (o r : Counts) (c : Core) (s : Sim) (i : ℕ) (p : Process) (f : Bool) (v : Verdict)
      → IsCore ids c
      → Judges facts p v
      → At s.processes s.is_running i p f
      → p.pid ≡ c.current_pid
      → Entry facts o (o ⊞ (hit c ⊞ r)) p f
      → Completing o (hit c ⊞ r) s
      → Runs (settle policy c s i v) (λ out. IsCore ids out.0 × Completing (o ⊞ hit out.0) r out.1)
  unfolding settle
  settle-Completing o r c s i p f stays core j a mine e inv = (
    core,
    (
      pass_busy unique o r c s.processes s.is_running i a mine (ground (arith, e.nonneg, j)) e
          inv.0,
      inv.1,
    ),
  )
  settle-Completing o r c s i p f (finishes p' late) core j a mine e inv =
      rw (write_at s.is_running i f false a.1) (
        freed core,
        (
          give_up unique o r c s.processes s.is_running i a (record c { current_pid = minus_one })
              p' (s.completed + 1) refl mine j.1.0 j.1.1 j.1.2 (ground (arith, j.0)) (λ _. j.2) e
              inv.0,
          inv.1,
        ),
      )
  settle-Completing o r c s i p f (yields p') core j a mine e inv =
      rw (write_at s.is_running i f false a.1) (
        freed core,
        (
          give_up unique o r c s.processes s.is_running i a (record c { current_pid = minus_one })
              p' s.completed refl mine j.1.0 j.1.1 j.1.2 (ground (arith, j.0))
              (λ h. absurd (not_done p j.0 h)) e inv.0,
          inv.1,
        ),
      )

  pub complete-Completing :
      (o r : Counts) (c : Core) (s : Sim)
      → IsCore ids c
      → Completing o (hit c ⊞ r) s
      → Runs (complete policy c s) (λ out. IsCore ids out.0 × Completing (o ⊞ hit out.0) r out.1)
  unfolding complete
  complete-Completing o r c s core inv = elim (Bool-cases (c.current_pid ==ℤ minus_one)) [
    | inl idle ↦ rw idle (
      core,
      (pass_idle unique o r c s.processes s.is_running ((==ℤ_iff _ _).0 idle) inv.0, inv.1),
    )
    | inr busy ↦
        let (i, p, f, found, a, mine, e) =
          located unique find sound.finds s.processes s.is_running c inv.0 (busy_pid core busy) in
        rw (busy, found, a.0)
          (settle-Completing o r c s i p f (judge c s p) core (sound.judges c s p) a mine e inv)
  ]

  dispatch-Assigning :
      (o r : Counts) (c : Core) (s : Sim) (out : Option (ℕ × Process))
      → IsCore ids c
      → IsIdle c
      → Chooses s out
      → Assigning o (hit c ⊞ r) s
      → Runs (dispatch policy c s out) (λ out. IsCore ids out.0 × Assigning (o ⊞ hit out.0) r out.1)
  unfolding dispatch
  dispatch-Assigning o r c s none core idle ch inv = (
    core,
    (
      subst (λ k. Locked facts ids k k s.processes s.is_running s.completed)
          (sym (⊞_assoc o (hit c) r)) inv.0,
      inv.1,
    ),
  )
  dispatch-Assigning o r c s (some (i, p)) core idle (f, a, ready) inv =
      rw (write_at s.is_running i f true a.1) (
        record {
          known = inr (subst (HasPid p.pid) inv.0.same (HasPid-at s.processes i p a.0));
          whole = core.whole;
        },
        (
          take_up unique o r c s.processes s.is_running i a
              (record c { current_pid = p.pid; time_left_on_core = slice p c.time_left_on_core })
              idle refl (ground arith) (ground arith)
              (Each-At _ s.processes s.is_running i p f inv.0.table a) inv.0,
          inv.1,
        ),
      )

  pub assign-Assigning :
      (o r : Counts) (c : Core) (s : Sim)
      → IsCore ids c
      → Assigning o (hit c ⊞ r) s
      → Runs (assign policy c s) (λ out. IsCore ids out.0 × Assigning (o ⊞ hit out.0) r out.1)
  unfolding assign
  assign-Assigning o r c s core inv = elim (Bool-cases (c.current_pid ==ℤ minus_one)) [
    | inl idle ↦ rw idle (
        Runs-bind (choose s) (λ (out, draws). dispatch policy c (record s { draws = draws }) out)
          (λ out. Chooses s out.0) (λ out. IsCore ids out.0 × Assigning (o ⊞ hit out.0) r out.1)
          (sound.chooses s (omega (arith, inv.1))
            (Each-map _ _ (λ q g e. e.fit) s.processes s.is_running inv.0.table))
          λ out chosen.
            dispatch-Assigning o r c (record s { draws = out.1 }) out.0 core ((==ℤ_iff _ _).0 idle)
              (chosen_draws s out chosen) inv)
    | inr busy ↦ rw busy (
      core,
      (
        subst (λ k. Locked facts ids k k s.processes s.is_running s.completed)
            (sym (⊞_assoc o (hit c) r)) inv.0,
        inv.1,
      ),
    )
  ]

  pub execute-Executing :
      (o r : Counts) (c : Core) (s : Sim)
      → IsCore ids c
      → Executing o (hit c ⊞ r) s
      → Runs (execute policy c s) (λ out. IsCore ids out.0 × Executing (o ⊞ hit out.0) r out.1)
  unfolding execute
  execute-Executing o r c s core inv = elim (Bool-cases (c.current_pid ==ℤ minus_one)) [
    | inl idle ↦ rw idle (
        Runs-bind (chart_idle c.row s.time) (λ row. some (record c { row = row }, s))
          (λ row. length row ≡ length c.row) _
          (sound.charts_idle c.row s.time (omega (arith, inv.1, core.whole)))
          λ row same. (
            record { known = core.known; whole = same ∙ core.whole },
            (rest_idle unique o r c s.processes s.is_running ((==ℤ_iff _ _).0 idle) inv.0, inv.1),
          ))
    | inr busy ↦
        let room : s.time < length c.row = omega (arith, inv.1, core.whole) in
        let (i, p, f, found, a, mine, e) =
          located unique find sound.finds s.processes s.is_running c inv.0 (busy_pid core busy) in
        let spent =
          sound.spends_one c.current_pid s.processes i p (rw inv.0.same unique) found a.0 mine in
        rw (busy, write_below c.row s.time c.current_pid room, spent)
          (
            charted core s.time c.current_pid (charge c.time_left_on_core),
            (
              spend unique o r c s.processes s.is_running i a
                  (record c {
                    row = set c.row s.time c.current_pid;
                    time_left_on_core = charge c.time_left_on_core;
                  })
                  (spend_unit p) refl mine refl refl (sound.spends p) e inv.0,
              inv.1,
            ),
          )
  ]
