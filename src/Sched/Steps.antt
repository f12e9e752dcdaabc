-- ===== src/Sched/Steps.antt =====
-- What one visit of a CPU does to the locks, for each thing that a scheduler's loop body does.
-- The CPUs before this one are counted by `o`, those after it by `r`.
use os_lab_project.Prelude.{
  ℕ, ◌+◌, ◌<◌, ◌≡◌, refl, sym, ap, ◌∙◌, ◌≢◌, inl, inr, Bool, true, false, List, arith, ℤ, pos,
  minus_one, ◌==ℤ◌, ==ℤ_iff, ◌≤ℤ◌, ◌<ℤ◌, bit, get_elem?, set, [], ◌∷◌, zero, suc, some, Bool-cases,
  ◌-ℤ◌, int_laws,
}
use os_lab_project.Sched.{Process, Core}
use os_lab_project.Sched.Table.{Unique, At, set_same}
use os_lab_project.Sched.Rule.{hit, count, Counts, ◌⊞◌}
use os_lab_project.Sched.Locks.{Facts, Entry, Locked, Locked-map, Locked-set, IsIdle, is_done}

pub hit_of_ne : (c : Core) (pid : ℤ) → c.current_pid ≢ pid → hit c pid ≡ 0
hit_of_ne c pid h = elim (Bool-cases (c.current_pid ==ℤ pid)) [
  | inl e ↦ absurd (h ((==ℤ_iff c.current_pid pid).0 e))
  | inr e ↦ rw e
]

pub hit_of_eq : (c : Core) (pid : ℤ) → c.current_pid ≡ pid → hit c pid ≡ 1
hit_of_eq c pid h = rw ((==ℤ_iff c.current_pid pid).1 h)

pub hit_of_idle : (c : Core) (pid : ℤ) → IsIdle c → pid ≢ minus_one → hit c pid ≡ 0
hit_of_idle c pid i h = hit_of_ne c pid (λ e. h (sym e ∙ i))

-- The entry of a process that is written back under its pid.
pub Entry-new :
    {facts : Facts} (b k : Counts) (p p' : Process) (f : Bool)
    → p'.pid ≡ p.pid
    → p.pid ≢ minus_one
    → k p.pid ≡ bit f
    → facts.Fit p'
    → pos 0 ≤ℤ p'.remaining_time
    → (0 < b p.pid → pos 0 <ℤ p'.remaining_time)
    → (is_done p' f ≡ true → facts.Measured p')
    → Entry facts b k p' f
Entry-new b k p p' f same named locked fit nonneg working measured = record {
  named = λ h. named (sym same ∙ h);
  locked = ap k same ∙ locked;
  fit = fit;
  nonneg = nonneg;
  working = λ h. working (omega (arith, ap b same));
  measured = measured;
}

-- The lock of a process that this CPU runs is set, and no other CPU runs the process.
abbrev Sole : Counts → Counts → ℤ → Bool → Type 0
Sole o r pid f = (f ≡ true) × (o pid ≡ 0) × (r pid ≡ 0)

sole :
    (o r : Counts) (c : Core) (pid : ℤ) (f : Bool)
    → pid ≡ c.current_pid
    → o pid + (hit c pid + r pid) ≡ bit f
    → Sole o r pid f
sole o r c pid true mine h =
    (refl, omega (arith, hit_of_eq c pid (sym mine)), omega (arith, hit_of_eq c pid (sym mine)))
sole o r c pid false mine h = absurd (omega (arith, hit_of_eq c pid (sym mine)))

-- An entry that is left alone keeps its facts when the counts of its pid stay, or fall where only
-- `busy` counts.
pub Entry-keep :
    {facts : Facts} (b b' k k' : Counts) {q : Process} {g : Bool}
    → (0 < b' q.pid → 0 < b q.pid)
    → k' q.pid ≡ k q.pid
    → Entry facts b k q g
    → Entry facts b' k' q g
Entry-keep b b' k k' more same e = record {
  named = e.named;
  locked = same ∙ e.locked;
  fit = e.fit;
  nonneg = e.nonneg;
  working = λ h. e.working (more h);
  measured = e.measured;
}

module _ {facts : Facts} {ids : List ℤ} (unique : Unique ids) (o r : Counts) (c : Core)
    (ps : List Process) (fs : List Bool) {n : ℕ} where
  -- While CPUs are released, an idle one is passed over.
  pub pass_idle :
      IsIdle c
      → Locked facts ids o (o ⊞ (hit c ⊞ r)) ps fs n
      → Locked facts ids (o ⊞ hit c) (o ⊞ hit c ⊞ r) ps fs n
  pass_idle idle = Locked-map unique (o ⊞ hit c) (o ⊞ hit c ⊞ r) ps fs λ q g e.
      Entry-keep o (o ⊞ hit c) (o ⊞ (hit c ⊞ r)) (o ⊞ hit c ⊞ r)
        (λ h. omega (arith, hit_of_idle c q.pid idle e.named)) (omega arith) e

  -- An idle CPU executes nothing.
  pub rest_idle :
      IsIdle c
      → Locked facts ids (hit c ⊞ r) (o ⊞ (hit c ⊞ r)) ps fs n
      → Locked facts ids r (o ⊞ hit c ⊞ r) ps fs n
  rest_idle idle = Locked-map unique r (o ⊞ hit c ⊞ r) ps fs λ q g e.
      Entry-keep (hit c ⊞ r) r (o ⊞ (hit c ⊞ r)) (o ⊞ hit c ⊞ r) (λ h. omega arith) (omega arith) e

  module _ {p : Process} {f : Bool} (i : ℕ) (a : At ps fs i p f) where
    -- A CPU whose process has time left keeps it.
    pub pass_busy :
        p.pid ≡ c.current_pid
        → pos 0 <ℤ p.remaining_time
        → Entry facts o (o ⊞ (hit c ⊞ r)) p f
        → Locked facts ids o (o ⊞ (hit c ⊞ r)) ps fs n
        → Locked facts ids (o ⊞ hit c) (o ⊞ hit c ⊞ r) ps fs n
    pass_busy mine left e v =
        rw (sym (set_same ps i p a.0), sym (set_same fs i f a.1))
          (Locked-set unique (o ⊞ hit c) (o ⊞ hit c ⊞ r) ps fs n i p p f f a refl refl
            (λ q g ne eq.
              Entry-keep o (o ⊞ hit c) (o ⊞ (hit c ⊞ r)) (o ⊞ hit c ⊞ r)
                (λ h. omega (arith, hit_of_ne c q.pid (λ h. ne (sym h ∙ sym mine)))) (omega arith)
                eq)
            (record {
              named = e.named;
              locked = omega (arith, e.locked);
              fit = e.fit;
              nonneg = e.nonneg;
              working = λ _. left;
              measured = e.measured;
            })
            v)

    -- A CPU gives up its process, which is written back as p' with its lock cleared.
    pub give_up :
        (c' : Core) (p' : Process) (n' : ℕ)
        → IsIdle c'
        → p.pid ≡ c.current_pid
        → p'.pid ≡ p.pid
        → p'.remaining_time ≡ p.remaining_time
        → (facts.Fit p → facts.Fit p')
        → n' ≡ n + bit (is_done p false)
        → (is_done p false ≡ true → facts.Measured p')
        → Entry facts o (o ⊞ (hit c ⊞ r)) p f
        → Locked facts ids o (o ⊞ (hit c ⊞ r)) ps fs n
        → Locked facts ids (o ⊞ hit c') (o ⊞ hit c' ⊞ r) (set ps i p') (set fs i false) n'
    give_up c' p' n' idle mine same left fit counts measured e v =
        let (taken, none_before, none_after) = sole o r c p.pid f mine e.locked in
        Locked-set unique (o ⊞ hit c') (o ⊞ hit c' ⊞ r) ps fs n' i p p' f false a same
          (ground arith)
          (λ q g ne eq.
            Entry-keep o (o ⊞ hit c') (o ⊞ (hit c ⊞ r)) (o ⊞ hit c' ⊞ r)
              (λ h. omega (arith, hit_of_idle c' q.pid idle eq.named))
              (omega (
                arith,
                hit_of_idle c' q.pid idle eq.named,
                hit_of_ne c q.pid (λ h. ne (sym h ∙ sym mine)),
              ))
              eq)
          (Entry-new (o ⊞ hit c') (o ⊞ hit c' ⊞ r) p p' false same e.named
            (omega (arith, hit_of_idle c' p.pid idle e.named)) (fit e.fit) (rw left e.nonneg)
            (λ h. absurd (omega (arith, hit_of_idle c' p.pid idle e.named)))
            (λ h. measured (ground arith)))
          v

    -- An idle CPU takes a process that no CPU runs and that has time left.
    pub take_up :
        (c' : Core)
        → IsIdle c
        → c'.current_pid ≡ p.pid
        → f ≡ false
        → pos 0 <ℤ p.remaining_time
        → Entry facts (o ⊞ (hit c ⊞ r)) (o ⊞ (hit c ⊞ r)) p f
        → Locked facts ids (o ⊞ (hit c ⊞ r)) (o ⊞ (hit c ⊞ r)) ps fs n
        → Locked facts ids (o ⊞ hit c' ⊞ r) (o ⊞ hit c' ⊞ r) ps (set fs i true) n
    take_up c' idle mine free left e v = rw (sym (set_same ps i p a.0)) (
        Locked-set unique (o ⊞ hit c' ⊞ r) (o ⊞ hit c' ⊞ r) ps fs n i p p f true a refl
          (ground arith)
          (λ q g ne eq.
            let same_count : o q.pid + hit c' q.pid + r q.pid ≡ o q.pid + (hit c q.pid + r q.pid) =
              omega (
                arith,
                hit_of_idle c q.pid idle eq.named,
                hit_of_ne c' q.pid (λ h. ne (sym h ∙ mine)),
              ) in
            Entry-keep (o ⊞ (hit c ⊞ r)) (o ⊞ hit c' ⊞ r) (o ⊞ (hit c ⊞ r)) (o ⊞ hit c' ⊞ r)
              (λ h. omega arith) same_count eq)
          (record {
            named = e.named;
            locked =
                ground (arith, e.locked, hit_of_eq c' p.pid mine, hit_of_idle c p.pid idle e.named);
            fit = e.fit;
            nonneg = e.nonneg;
            working = λ h. left;
            measured = λ h. absurd (ground arith);
          })
          v)

    -- A CPU executes its process for one unit of time.
    pub spend :
        (c' : Core) (p' : Process)
        → c'.current_pid ≡ c.current_pid
        → p.pid ≡ c.current_pid
        → p'.pid ≡ p.pid
        → p'.remaining_time ≡ p.remaining_time -ℤ pos 1
        → (facts.Fit p → facts.Fit p')
        → Entry facts (hit c ⊞ r) (o ⊞ (hit c ⊞ r)) p f
        → Locked facts ids (hit c ⊞ r) (o ⊞ (hit c ⊞ r)) ps fs n
        → Locked facts ids r (o ⊞ hit c' ⊞ r) (set ps i p') fs n
    spend c' p' keeps mine same left fit e v =
        let (taken, none_before, none_after) = sole o r c p.pid f mine e.locked in
        rw (sym (set_same fs i f a.1)) (
          Locked-set unique r (o ⊞ hit c' ⊞ r) ps fs n i p p' f f a same (ground arith)
            (λ q g ne eq.
              Entry-keep (hit c ⊞ r) r (o ⊞ (hit c ⊞ r)) (o ⊞ hit c' ⊞ r) (λ h. omega arith)
                (rw keeps (omega arith)) eq)
            (Entry-new r (o ⊞ hit c' ⊞ r) p p' f same e.named (rw keeps (omega (arith, e.locked)))
              (fit e.fit) (rw left (omega (int_laws, e.working, hit_of_eq c p.pid (sym mine))))
              (λ h. absurd (omega arith)) (λ h. absurd (ground arith)))
            v)

-- One CPU changes.
pub count-set :
    (cs : List Core) (k : ℕ) (c c' : Core) (a : ℤ)
    → get_elem? cs k ≡ some c
    → count (set cs k c') a + hit c a ≡ count cs a + hit c' a
count-set [] k c c' a e = cc
count-set (x ∷ cs) zero c c' a e = ground arith
count-set (x ∷ cs) (suc k) c c' a e = omega (arith, count-set cs k c c' a e)
