-- ===== src/Sched/Rms/Period.antt =====
-- Group6_Project2/rms.c: the greatest common divisor, and the length of the simulation.
use Prim.Native.Nat.{◌∣◌}
use mathlib.Core.Path.{subst}
use native.Mathlib.Nat
use os_lab_project.Prelude.{
  ℕ, zero, suc, ◌+◌, ◌*◌, ◌/◌, ◌%◌, ◌≤◌, ◌<◌, ◌≡◌, sym, ap, ◌∙◌, ◌⊎◌, inl, inr, true, false, none,
  some, List, [], ◌∷◌, ltb, ◌==◌, if◌then◌else◌, Runs, Runs-bind, Runs-map, All, Bool-cases, arith,
}
use os_lab_project.Sched.Rms.{max_length, Task, gcdi_from, gcdi, lcm_cap, lcm_loop, run_length}

-- g divides both, and what divides a * c and b * c divides g * c.
abbrev pub IsGcd : ℕ → ℕ → ℕ → Type 0
IsGcd a b g = (g ∣ a) × (g ∣ b) × ((k c : ℕ) → k ∣ a * c → k ∣ b * c → k ∣ g * c)

mod_multiple : (k a b c : ℕ) → k ∣ a * c → k ∣ b * c → k ∣ (a % b) * c
mod_multiple k a b c ha hb =
    (Nat.dvd-add_iff_right k (Nat.dvd-mul_right_of_dvd k hb (a / b))).1
      (subst (λ x. k ∣ x) parts ha)
  where
    parts : a * c ≡ (b * c) * (a / b) + (a % b) * c
    parts =
        sym (ap (λ x. x * c) (Nat.div-add-mod a b))
        ∙ Nat.add-mul (b * (a / b)) (a % b) c
        ∙ ap (λ x. x + a % b * c) (Nat.mul_right_comm b (a / b) c)

gcdi_from-IsGcd : (fuel a b : ℕ) → b < fuel → Runs (gcdi_from fuel a b) (IsGcd a b)
unfolding gcdi_from
gcdi_from-IsGcd zero a b h = absurd (omega arith)
gcdi_from-IsGcd (suc fuel) a zero h = (Nat.dvd_refl a, Nat.dvd-zero a, λ k c ha hb. ha)
gcdi_from-IsGcd (suc fuel) a (suc b) h =
    let nonzero : (suc b == 0) ≡ false = ground arith in
    rw nonzero (
      Runs-map (gcdi_from fuel (suc b) (a % suc b)) (IsGcd (suc b) (a % suc b)) (IsGcd a (suc b))
        (gcdi_from-IsGcd fuel (suc b) (a % suc b) (omega arith))
        λ g d. (
          (Nat.dvd-mod_iff g d.0).0 d.1,
          d.0,
          λ k c ha hb. d.2 k c hb (mod_multiple k a (suc b) c ha hb),
        ))

-- The result is positive, if one of the two is.
pub gcdi-IsGcd : (a b : ℕ) → Runs (gcdi a b) (IsGcd a b)
unfolding gcdi
gcdi-IsGcd a b = gcdi_from-IsGcd (b + 1) a b (omega arith)

-- The least common multiple, in the order of divisibility.
abbrev pub IsLcm : ℕ → ℕ → ℕ → Type 0
IsLcm a b v = (a ∣ v) × (b ∣ v) × ((m : ℕ) → a ∣ m → b ∣ m → v ∣ m)

IsGcd-IsLcm : (a b g : ℕ) → 0 < a → IsGcd a b g → IsLcm a b ((a / g) * b)
IsGcd-IsLcm a b g pos_a (ga, gb, least) = (first, Nat.dvd-mul_left b (a / g), below)
  where
    pos_g : 0 < g
    pos_g = Nat.pos_of_dvd_of_pos ga pos_a

    whole : g * (a / g) ≡ a
    whole = Nat.mul-div_cancel' g ga

    product : g * ((a / g) * b) ≡ a * b
    product = sym (Nat.mul_assoc g (a / g) b) ∙ ap (λ x. x * b) whole

    first : a ∣ (a / g) * b
    first =
        subst (λ x. a ∣ x)
          (ap (λ x. x * (b / g)) (sym (Nat.div-mul_cancel g ga))
            ∙ Nat.mul_assoc (a / g) g (b / g)
            ∙ ap (λ x. a / g * x) (Nat.mul-div_cancel' g gb))
          (Nat.dvd-mul_right a (b / g))

    below : (m : ℕ) → a ∣ m → b ∣ m → (a / g) * b ∣ m
    below m am bm = Nat.dvd_of_mul-dvd-mul_left ((a / g) * b) pos_g (
        subst (λ x. x ∣ g * m) (sym product)
          (least (a * b) m (Nat.mul-dvd-mul_left b a bm)
            (subst (λ x. a * b ∣ x) (Nat.mul_comm m b) (Nat.mul-dvd-mul_right a am b))))

-- The length h, capped, for the multiples of h: it divides them, or they are not below the cap.
abbrev Within : ℕ → ℕ → Type 0
Within h m = (h ∣ m) ⊎ (max_length ≤ m)

abbrev Capped : ℕ → ℕ → ℕ → Type 0
Capped a b h =
    (0 < h)
    × (h ≤ max_length)
    × (h < max_length → (a ∣ h) × (b ∣ h))
    × ((m : ℕ) → 0 < m → Within a m → b ∣ m → Within h m)

lcm_cap-Capped : (a b : ℕ) → 0 < a → 0 < b → Runs (lcm_cap a b max_length) (Capped a b)
unfolding lcm_cap
lcm_cap-Capped a b pos_a pos_b =
    Runs-bind (gcdi a b)
      (λ g.
        if g == 0
        then none
        else if ltb max_length ((a / g) * b)
        then some max_length
        else some ((a / g) * b))
      (IsGcd a b) (Capped a b) (gcdi-IsGcd a b) λ g d. with_gcd g d (IsGcd-IsLcm a b g pos_a d)
  where
    past : (v m : ℕ) → ltb max_length v ≡ true → v ≤ m → max_length ≤ m
    past v m over le = ground arith

    with_gcd :
        (g : ℕ)
        → IsGcd a b g
        → IsLcm a b ((a / g) * b)
        → Runs
            (if g == 0
              then none
              else if ltb max_length ((a / g) * b)
              then some max_length
              else some ((a / g) * b))
            (Capped a b)
    with_gcd g d (av, bv, least) =
        let pos_g : 0 < g = Nat.pos_of_dvd_of_pos d.0 pos_a in
        let nonzero : (g == 0) ≡ false = ground arith in
        let v = (a / g) * b in
        let pos_v : 0 < v =
          Nat.pos_of_dvd_of_pos (least (a * b) (Nat.dvd-mul_right a b) (Nat.dvd-mul_left b a))
            (Nat.mul-pos pos_a pos_b) in
        elim (Bool-cases (ltb max_length v)) [
          | inl over ↦
              rw (nonzero, over)
                (
                  omega arith,
                  omega arith,
                  λ h. absurd (omega arith),
                  λ m pos_m w bm. inr (elim w [
                    | inl am ↦ past v m over (Nat.le_of_dvd pos_m (least m am bm))
                    | inr far ↦ far
                  ]),
                )
          | inr fits ↦
              rw (nonzero, fits)
                (
                  pos_v,
                  ground arith,
                  λ h. (av, bv),
                  λ m pos_m w bm. elim w [ inl am ↦ inl (least m am bm) | inr far ↦ inr far ],
                )
        ]

-- Each period divides the number.
abbrev pub IsCommon : List Task → ℕ → Type 0
IsCommon ts m = All (λ q. q.p ∣ m) ts

lcm_loop-lem :
    (h : ℕ) (ts : List Task)
    → 0 < h
    → h ≤ max_length
    → All (λ q. 0 < q.p) ts
    → Runs (lcm_loop h ts) (λ r.
      (0 < r)
      × (r ≤ max_length)
      × (r < max_length → (h ∣ r) × IsCommon ts r)
      × ((m : ℕ) → 0 < m → Within h m → IsCommon ts m → Within r m))
unfolding lcm_loop
lcm_loop-lem h [] pos_h le periods = (pos_h, le, (λ l. (Nat.dvd_refl h, tt)), λ m pos_m w c. w)
lcm_loop-lem h (q ∷ ts) pos_h le periods =
    Runs-bind (lcm_cap h q.p max_length) (λ g. lcm_loop g ts) (Capped h q.p)
      (λ r.
        (0 < r)
        × (r ≤ max_length)
        × (r < max_length → (h ∣ r) × IsCommon (q ∷ ts) r)
        × ((m : ℕ) → 0 < m → Within h m → IsCommon (q ∷ ts) m → Within r m))
      (lcm_cap-Capped h q.p pos_h periods.0)
      λ g c.
        Runs-map (lcm_loop g ts)
          (λ r.
            (0 < r)
            × (r ≤ max_length)
            × (r < max_length → (g ∣ r) × IsCommon ts r)
            × ((m : ℕ) → 0 < m → Within g m → IsCommon ts m → Within r m))
          (λ r.
            (0 < r)
            × (r ≤ max_length)
            × (r < max_length → (h ∣ r) × IsCommon (q ∷ ts) r)
            × ((m : ℕ) → 0 < m → Within h m → IsCommon (q ∷ ts) m → Within r m))
          (lcm_loop-lem g ts c.0 c.1 periods.1)
          λ r l. (
            l.0,
            l.1,
            λ below.
                let (gr, common) = l.2 below in
                let (hg, pg) = c.2 (omega (arith, Nat.le_of_dvd l.0 gr, below)) in
                (Nat.dvd_trans h hg gr, (Nat.dvd_trans q.p pg gr, common)),
            λ m pos_m w common. l.3 m pos_m (c.3 m pos_m w common.0) common.1,
          )

-- The length of the simulation is the least common multiple of the periods, if that is below
-- 1000; otherwise it is 1000, and no positive common multiple is smaller.
abbrev pub IsLength : List Task → ℕ → Type 0
IsLength ts h =
    (0 < h)
    × ((h < max_length) × IsCommon ts h × ((m : ℕ) → 0 < m → IsCommon ts m → h ≤ m)
        ⊎ (h ≡ max_length) × ((m : ℕ) → 0 < m → IsCommon ts m → max_length ≤ m))

-- If the periods are positive, the length of the simulation is their least common multiple
-- where that is below 1000, and otherwise 1000, when no positive common multiple is smaller.
pub run_length-IsLength :
    (ts : List Task) → All (λ q. 0 < q.p) ts → Runs (run_length ts) (IsLength ts)
unfolding run_length
run_length-IsLength ts periods =
    Runs-bind (lcm_loop 1 ts) (λ h. if h == 0 then some 1 else some h)
      (λ r.
        (0 < r)
        × (r ≤ max_length)
        × (r < max_length → (1 ∣ r) × IsCommon ts r)
        × ((m : ℕ) → 0 < m → Within 1 m → IsCommon ts m → Within r m))
      (IsLength ts) (lcm_loop-lem 1 ts (omega arith) (omega arith) periods)
      λ h l.
        let nonzero : (h == 0) ≡ false = ground (arith, l.0) in
        rw nonzero (
          l.0,
          elim (Bool-cases (ltb h max_length)) [
            | inl low ↦
                let below : h < max_length = ground arith in
                inl (
                  below,
                  (l.2 below).1,
                  λ m pos_m common. elim (l.3 m pos_m (inl (one_dvd m)) common) [
                    | inl hm ↦ Nat.le_of_dvd pos_m hm
                    | inr far ↦ omega arith
                  ],
                )
            | inr high ↦
                let top : h ≡ max_length = ground (arith, l.1) in
                inr (
                  top,
                  λ m pos_m common. elim (l.3 m pos_m (inl (one_dvd m)) common) [
                    | inl hm ↦ omega (arith, Nat.le_of_dvd pos_m hm, top)
                    | inr far ↦ far
                  ],
                )
          ],
        )
  where
    one_dvd : (m : ℕ) → 1 ∣ m
    one_dvd m = subst (λ x. 1 ∣ x) (omega arith) (Nat.dvd-mul_right 1 m)
