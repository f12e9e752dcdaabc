-- ===== src/Sched/Rms.antt =====
-- Group6_Project2/rms.c: rate-monotonic scheduling. The input loop refuses execution times and
-- periods that are not positive, so that the numbers are natural, and an addition that overflows an
-- int is `none`, as are the other faults; which CPU a task is assigned to, which the code computes
-- in floating point, is part of the input.
pub mod Period
pub mod Pick
pub mod Balance
mod Tests
use os_lab_project.Prelude.{
  ℕ, zero, suc, ◌+◌, ◌-◌, ◌*◌, ◌/◌, ◌%◌, Bool, true, false, ◌&&◌, ◌||◌, Option, none, some, List,
  [], ◌∷◌, map, int_max, ltb, leb, ◌==◌, if◌then◌else◌, get_elem?, set, replicate, write, ◌>>=◌,
}

abbrev pub max_length : ℕ
max_length = 1000

-- The loop of `gcdi`, within fuel.
unfoldable pub gcdi_from : ℕ → ℕ → ℕ → Option ℕ
gcdi_from zero a b = none
gcdi_from (suc fuel) a b =
    let onward = gcdi_from fuel b (a % b) in if b == 0 then some a else onward

unfoldable pub gcdi : ℕ → ℕ → Option ℕ
unfolding gcdi_from
gcdi a b = gcdi_from (b + 1) a b

-- `none` is also the division by 0.
unfoldable pub lcm_cap : ℕ → ℕ → ℕ → Option ℕ
unfolding gcdi
lcm_cap a b cap = gcdi a b >>= λ g.
    let v = (a / g) * b in if g == 0 then none else if ltb cap v then some cap else some v

-- An entry of the arrays e, p, a, r and m.
pub record Task : Type 0 where
  pub e : ℕ
  pub p : ℕ
  pub a : ℕ
  pub r : ℕ
  pub m : ℕ

-- The loop that computes the length of the simulation.
unfoldable pub lcm_loop : ℕ → List Task → Option ℕ
unfolding lcm_cap
lcm_loop h [] = some h
lcm_loop h (q ∷ ts) = lcm_cap h q.p max_length >>= λ g. lcm_loop g ts

unfoldable pub run_length : List Task → Option ℕ
unfolding lcm_loop
run_length ts = lcm_loop 1 ts >>= λ h. if h == 0 then some 1 else some h

-- `a + b` as an int; `none` is the overflow.
unfoldable pub add_int : ℕ → ℕ → Option ℕ
add_int a b = if leb (a + b) int_max then some (a + b) else none

-- A job is released when the period divides the time, and a miss counted if the last is left.
unfoldable pub release : ℕ → Task → Option Task
unfolding add_int
release t q =
    if (t % q.p) == 0
    then (add_int q.r q.e >>= λ r.
        some (record q { m = (if ltb 0 t && ltb 0 q.r then q.m + 1 else q.m); r = r }))
    else some q

unfoldable pub release_all : ℕ → List Task → Option (List Task)
unfolding release
release_all t [] = some []
release_all t (q ∷ ts) = release t q >>= λ u. release_all t ts >>= λ us. some (u ∷ us)

-- The task found so far, with its period.
abbrev pub Best : Type 0
Best = Option (ℕ × ℕ)

-- `k == -1 || p[i] < p[k] || (p[i] == p[k] && i < k)`
abbrev pub is_better : ℕ → ℕ → Best → Bool
is_better i p none = true
is_better i p (some k) = ltb p k.1 || (p == k.1 && ltb i k.0)

-- The search for the task of CPU c, from index i on.
unfoldable pub pick_from : ℕ → ℕ → List Task → Best → Best
pick_from c i [] best = best
pick_from c i (q ∷ ts) best =
    pick_from c (i + 1) ts
      (if q.a == c && ltb 0 q.r then if is_better i q.p best then some (i, q.p) else best else best)

unfoldable pub pick : ℕ → List Task → Best
unfolding pick_from
pick c ts = pick_from c 0 ts none

pub record Rms : Type 0 where
  pub tasks : List Task
  pub busy : List ℕ
  pub timeline : List ℕ

-- Time t on CPU c, in a simulation of length h.
unfoldable pub run_cpu : ℕ → ℕ → ℕ → Rms → Option Rms
unfolding pick
run_cpu h t c s = elim (pick c s.tasks) [
  | none ↦ write s.timeline (c * h + t) 0 >>= λ tl. some (record s { timeline = tl })
  | some k ↦ write s.timeline (c * h + t) (k.0 + 1) >>= λ tl. get_elem? s.tasks k.0 >>= λ q.
      get_elem? s.busy c >>= λ b. write s.busy c (b + 1) >>= λ busy.
      some
        (record { tasks = set s.tasks k.0 (record q { r = q.r - 1 }); busy = busy; timeline = tl })
]

-- The loop over n CPUs, from c on.
unfoldable pub run_cpus : ℕ → ℕ → ℕ → ℕ → Rms → Option Rms
unfolding run_cpu
run_cpus h t c zero s = some s
run_cpus h t c (suc n) s = run_cpu h t c s >>= run_cpus h t (c + 1) n

-- The loop over the time, for k units from t on.
unfoldable pub run_from : ℕ → ℕ → ℕ → ℕ → Rms → Option Rms
unfolding release_all run_cpus
run_from num_cpus h t zero s = some s
run_from num_cpus h t (suc k) s = release_all t s.tasks >>= λ ts.
    run_cpus h t 0 num_cpus (record s { tasks = ts }) >>= run_from num_cpus h (t + 1) k

abbrev pub at_rest : Task → Task
at_rest q = record q { r = 0; m = 0 }

-- The simulation of length h.
unfoldable pub run_rms : ℕ → ℕ → List Task → Option Rms
unfolding run_from
run_rms num_cpus h ts = run_from num_cpus h 0 h (record {
  tasks = map at_rest ts;
  busy = replicate num_cpus 0;
  timeline = replicate (num_cpus * h) 0;
})

unfoldable pub total_miss : List Task → ℕ
total_miss [] = 0
total_miss (q ∷ ts) = q.m + total_miss ts
