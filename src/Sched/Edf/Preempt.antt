-- ===== src/Sched/Edf/Preempt.antt =====
-- The preemption of edf.c and the locks.
use mathlib.Core.Path.{subst}
use os_lab_project.Prelude.{
  ℕ, ◌+◌, ◌<◌, ◌≡◌, refl, sym, ap, ◌∙◌, ◌≢◌, inl, inr, Bool, true, false, ◌&&◌, Option, none, some,
  List, [], ◌∷◌, arith, ℤ, pos, minus_one, ◌==ℤ◌, ==ℤ_iff, ltb_ℤ, ◌<ℤ◌, bit, length, ◌≤◌, get_elem?,
  get_elem?_of_lt, set, All-set, All-get, Bool-cases,
}
use os_lab_project.Sched.{Process, Core, World, first_index}
use os_lab_project.Sched.Table.{
  Unique, HasPid, At, first_index-Finds, set_same, write_at, Each-flag, length-pids,
}
use os_lab_project.Sched.Rule.{Runs, Runs-bind, hit, count, Counts}
use os_lab_project.Sched.Locks.{Facts, Entry, Locked, Locked-set, located, IsCore}
use os_lab_project.Sched.Steps.{count-set, hit_of_ne, hit_of_eq, hit_of_idle, Entry-keep, Entry-new}
use os_lab_project.Sched.Policy.Laws.{Between}
use os_lab_project.Sched.Policy.Phases.{busy_pid}
use os_lab_project.Sched.Edf.Latest.{AttainedAt, Attained, Bounded, find_worst-Attained}
use os_lab_project.Sched.Edf.{
  no_worst, find_worst, evict, answer, challenge, preempt_for, preempt_from, preempt,
}

alone :
    {x y h h' : ℕ} (f : Bool)
    → y ≡ bit f
    → x + h ≡ y + h'
    → h ≡ 1
    → h' ≡ 0
    → (x ≡ 0) × (y ≡ 1) × (f ≡ true)
alone true e m a b = (omega arith, omega arith, refl)
alone false e m a b = absurd (omega arith)

module _ {facts : Facts} (ids : List ℤ) (unique : Unique ids) (time : ℕ) where
  evict-Between :
      (k : ℕ) (c : Core) (w : World)
      → get_elem? w.cores k ≡ some c
      → HasPid c.current_pid ids
      → Between facts ids time w
      → Runs (evict k w) (Between facts ids time)
  unfolding evict
  evict-Between k c w there busy b =
      let (i, p, f, found, a, mine, e) =
        located unique first_index first_index-Finds w.sim.processes w.sim.is_running c b.1 busy in
      rw (there, found, write_at w.sim.is_running i f false a.1)
        (
          All-set (IsCore ids) w.cores k (idle_now c)
              (record {
                known = inl refl;
                whole = (All-get (IsCore ids) w.cores k c b.0 there).whole;
              })
              b.0,
          subst
              (λ ps. Locked facts ids after after ps (set w.sim.is_running i false) w.sim.completed)
              (set_same w.sim.processes i p a.0) (unlocked i p f a mine e),
          b.2,
        )
    where
      idle_now : Core → Core
      idle_now x = record x { current_pid = minus_one }

      before : Counts
      before = count w.cores

      after : Counts
      after = count (set w.cores k (idle_now c))

      unlocked :
          (i : ℕ) (p : Process) (f : Bool)
          → At w.sim.processes w.sim.is_running i p f
          → p.pid ≡ c.current_pid
          → Entry facts before before p f
          → Locked facts ids after after
              (set w.sim.processes i p)
              (set w.sim.is_running i false)
              w.sim.completed
      unlocked i p f a mine e =
          let moved : (q : ℤ) → after q + hit c q ≡ before q + hit (idle_now c) q =
            λ q. count-set w.cores k c (idle_now c) q there in
          let gone : (after p.pid ≡ 0) × (before p.pid ≡ 1) × (f ≡ true) =
            alone f e.locked (moved p.pid) (hit_of_eq c p.pid (sym mine))
              (hit_of_idle (idle_now c) p.pid refl e.named) in
          let left : pos 0 <ℤ p.remaining_time = e.working (omega (arith, gone.1)) in
          Locked-set unique after after w.sim.processes w.sim.is_running w.sim.completed i p p f
            false a refl (ground (arith, left, gone.2))
            (λ q g ne eq.
              let same : after q.pid ≡ before q.pid = omega (
                arith,
                moved q.pid,
                hit_of_idle (idle_now c) q.pid refl eq.named,
                hit_of_ne c q.pid (λ h. ne (sym h ∙ sym mine)),
              ) in
              Entry-keep before after before after (λ h. omega (arith, same)) same eq)
            (Entry-new after after p p false refl e.named gone.0 e.fit e.nonneg
              (λ h. absurd (omega (arith, gone.0))) (λ h. absurd (ground (arith, left))))
            b.1

  answer-Between :
      (p : Process) (w : World) (d : ℤ) (o : Option ℕ)
      → Between facts ids time w
      → AttainedAt w.sim.processes w.cores d o
      → Runs (answer p w d o) (Between facts ids time)
  unfolding answer
  answer-Between p w d none b h = b
  answer-Between p w d (some k) b (c, there, busy, q, _, _) =
      elim (Bool-cases (ltb_ℤ p.deadline d)) [
        | inl earlier ↦ rw earlier (
            evict-Between k c w there
              (busy_pid (All-get (IsCore ids) w.cores k c b.0 there) (ne_test busy)) b)
        | inr later ↦ rw later b
      ]
    where
      ne_test : c.current_pid ≢ minus_one → (c.current_pid ==ℤ minus_one) ≡ false
      ne_test ne = elim (Bool-cases (c.current_pid ==ℤ minus_one)) [
        | inl e ↦ absurd (ne ((==ℤ_iff _ _).0 e))
        | inr e ↦ e
      ]

  challenge-Between :
      (p : Process) (w : World)
      → Between facts ids time w
      → Runs (challenge p w) (Between facts ids time)
  unfolding challenge
  challenge-Between p w b =
      Runs-bind (find_worst w.sim.processes w.cores 0 no_worst)
        (λ r. answer p w r.worst_deadline r.worst_cpu)
        (λ r. Attained w.sim.processes w.cores r × Bounded w.sim.processes r.worst_deadline w.cores)
        (Between facts ids time)
        (find_worst-Attained w.sim.processes w.cores (rw b.1.same unique) (rw b.1.same b.0))
        λ r h. answer-Between p w r.worst_deadline r.worst_cpu b h.0

  preempt_for-Between :
      (i : ℕ) (p : Process) (f : Bool) (w : World)
      → get_elem? w.sim.is_running i ≡ some f
      → Between facts ids time w
      → Runs (preempt_for i p w) (Between facts ids time)
  unfolding preempt_for
  preempt_for-Between i p f w flag b =
      elim (Bool-cases ((p.arrival_time ==ℤ pos w.sim.time) && ltb_ℤ (pos 0) p.remaining_time)) [
        | inl arrives ↦
            rw (arrives, flag)
              (elim (Bool-cases f) [
                | inl busy ↦ rw busy b
                | inr free ↦ rw free (challenge-Between p w b)
              ])
        | inr not_now ↦ rw not_now b
      ]

  -- The flag of every process of the list, from index i on.
  flag_of :
      (w : World) (i : ℕ)
      → Between facts ids time w
      → i < length ids
      → (f : Bool) × (get_elem? w.sim.is_running i ≡ some f)
  flag_of w i b h =
      let (p, there) =
        get_elem?_of_lt w.sim.processes i
          (omega (arith, length-pids w.sim.processes, ap length b.1.same)) in
      Each-flag _ w.sim.processes w.sim.is_running i p b.1.table there

  preempt_from-Between :
      (i : ℕ) (ps : List Process) (w : World)
      → i + length ps ≤ length ids
      → Between facts ids time w
      → Runs (preempt_from i ps w) (Between facts ids time)
  unfolding preempt_from
  preempt_from-Between i [] w fits b = b
  preempt_from-Between i (p ∷ ps) w fits b =
      let (f, flag) = flag_of w i b (omega arith) in
      Runs-bind (preempt_for i p w) (preempt_from (i + 1) ps) (Between facts ids time)
        (Between facts ids time) (preempt_for-Between i p f w flag b)
        λ v later. preempt_from-Between (i + 1) ps v (omega arith) later

-- EDF's preemption runs to its end, and keeps what holds between the parts of a round.
pub preempt-Between :
    (facts : Facts) (ids : List ℤ) (time : ℕ) (w : World)
    → Unique ids
    → Between facts ids time w
    → Runs (preempt w) (Between facts ids time)
unfolding preempt
preempt-Between facts ids time w unique b =
    preempt_from-Between ids unique time 0 w.sim.processes w
      (omega (arith, length-pids w.sim.processes, ap length b.1.same)) b
