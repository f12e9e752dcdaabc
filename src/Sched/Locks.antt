-- ===== src/Sched/Locks.antt =====
-- What the locking array `is_running` stands for. `k` says of each pid how many CPUs run it.
use os_lab_project.Prelude.{
  ℕ, zero, suc, ◌+◌, ◌<◌, ◌≡◌, ◌∙◌, ◌≢◌, ◌⊎◌, Bool, true, not, ◌&&◌, Option, some, List, [], ◌∷◌,
  arith, ℤ, pos, minus_one, ◌==ℤ◌, ◌≤ℤ◌, ◌<ℤ◌, bit, length, set,
}
use os_lab_project.Sched.{Process, Core, max_time}
use os_lab_project.Sched.Table.{
  Unique, HasPid, pids, Each, At, Each-At, Each-flag, Each-map, Each-set, pids-set, Finds,
}
use os_lab_project.Sched.Rule.{Counts}

-- A process that has run to its end and left its CPU.
abbrev pub is_done : Process → Bool → Bool
is_done p f = p.remaining_time ==ℤ pos 0 && not f

abbrev pub done_count : List Process → List Bool → ℕ
done_count [] fs = 0
done_count (p ∷ ps) [] = 0
done_count (p ∷ ps) (f ∷ fs) = bit (is_done p f) + done_count ps fs

pub done_count-set :
    (ps : List Process) (fs : List Bool) (i : ℕ) (p p' : Process) (f f' : Bool)
    → At ps fs i p f
    → done_count (set ps i p') (set fs i f') + bit (is_done p f)
      ≡ done_count ps fs + bit (is_done p' f')
done_count-set [] fs i p p' f f' a = cc
done_count-set (q ∷ ps) [] i p p' f f' a = cc
done_count-set (q ∷ ps) (g ∷ fs) zero p p' f f' a = ground arith
done_count-set (q ∷ ps) (g ∷ fs) (suc i) p p' f f' a =
    omega (arith, done_count-set ps fs i p p' f f' a)

-- What the rounds of a scheduler keep true of every process, and what holds once it is done.
pub record Facts : Type 1 where
  pub Fit : Process → Type 0
  pub Measured : Process → Type 0

-- One process with its flag: the flag is set exactly while one CPU runs the process, and no more
-- than one does; those that `busy` counts have time left; `Measured` holds once it is done.
pub record Entry (facts : Facts) (busy k : Counts) (p : Process) (f : Bool) : Type 0 where
  pub named : p.pid ≢ minus_one
  pub locked : k p.pid ≡ bit f
  pub fit : facts.Fit p
  pub nonneg : pos 0 ≤ℤ p.remaining_time
  pub working : 0 < busy p.pid → pos 0 <ℤ p.remaining_time
  pub measured : is_done p f ≡ true → facts.Measured p

pub record Locked (facts : Facts) (ids : List ℤ) (busy k : Counts) (ps : List Process)
    (fs : List Bool) (completed : ℕ) : Type 0 where
  pub same : pids ps ≡ ids
  pub table : Each (Entry facts busy k) ps fs
  pub counted : completed ≡ done_count ps fs

abbrev pub IsIdle : Core → Type 0
IsIdle c = c.current_pid ≡ minus_one

-- The CPU is idle or runs one of the processes, and its row of the chart is whole.
pub record IsCore (ids : List ℤ) (c : Core) : Type 0 where
  pub known : IsIdle c ⊎ HasPid c.current_pid ids
  pub whole : length c.row ≡ max_time

module _ {facts : Facts} {ids : List ℤ} (unique : Unique ids) where
  pub Locked-map :
      {busy k : Counts} (busy' k' : Counts) (ps : List Process) (fs : List Bool) {n : ℕ}
      → ((q : Process) (g : Bool) → Entry facts busy k q g → Entry facts busy' k' q g)
      → Locked facts ids busy k ps fs n
      → Locked facts ids busy' k' ps fs n
  Locked-map busy' k' ps fs keep v = record {
    same = v.same;
    table = Each-map _ _ keep ps fs v.table;
    counted = v.counted;
  }

  pub Locked-set :
      {busy k : Counts} (busy' k' : Counts) (ps : List Process) (fs : List Bool) {n : ℕ} (n' i : ℕ)
      (p p' : Process) (f f' : Bool)
      → At ps fs i p f
      → p'.pid ≡ p.pid
      → n' + bit (is_done p f) ≡ n + bit (is_done p' f')
      → ((q : Process) (g : Bool)
          → q.pid ≢ p.pid
          → Entry facts busy k q g
          → Entry facts busy' k' q g)
      → Entry facts busy' k' p' f'
      → Locked facts ids busy k ps fs n
      → Locked facts ids busy' k' (set ps i p') (set fs i f') n'
  Locked-set busy' k' ps fs n' i p p' f f' a e c others new v = record {
    same = pids-set ps i p p' a.0 e ∙ v.same;
    table = Each-set _ _ ps fs i p p' f f' (rw v.same unique) a others new v.table;
    counted = omega (arith, done_count-set ps fs i p p' f f' a, v.counted);
  }

  -- The process that a busy CPU runs is found, and it is locked.
  pub located :
      (find : ℤ → List Process → Option ℕ)
      → Finds find
      → {busy k : Counts} (ps : List Process) (fs : List Bool) {n : ℕ} (c : Core)
      → Locked facts ids busy k ps fs n
      → HasPid c.current_pid ids
      → (i : ℕ) × (p : Process) × (f : Bool) × (find c.current_pid ps ≡ some i)
        × (At ps fs i p f)
        × (p.pid ≡ c.current_pid)
        × Entry facts busy k p f
  located find finds {busy} {k} ps fs c v h =
      let (i, p, found, there, same) = finds c.current_pid ps (rw v.same unique) (rw v.same h) in
      let (f, flag) = Each-flag (Entry facts busy k) ps fs i p v.table there in
      (
        i,
        p,
        f,
        found,
        (there, flag),
        same,
        Each-At (Entry facts busy k) ps fs i p f v.table (there, flag),
      )
