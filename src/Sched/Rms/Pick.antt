-- ===== src/Sched/Rms/Pick.antt =====
-- Group6_Project2/rms.c: the search for the task that a CPU runs.
use mathlib.Core.Path.{subst}
use mathlib.Core.Bool.{false≢true}
use mathlib.Core.Option.{some-injective, none-ne-some}
use os_lab_project.Prelude.{
  ℕ, zero, suc, ◌+◌, ◌≤◌, ◌<◌, ◌≡◌, refl, sym, ap, ◌∙◌, ◌⊎◌, inl, inr, true, false, ◌&&◌, none,
  some, List, [], ◌∷◌, ltb, ◌==◌, get_elem?, Bool-cases, arith,
}
use os_lab_project.Sched.Rms.{Task, Best, is_better, pick_from, pick}

-- A task of CPU c with work left.
abbrev pub IsReady : ℕ → Task → Type 0
IsReady c q = (q.a ≡ c) × (0 < q.r)

-- Index i with period p comes before j with period q, or is it.
abbrev pub Outranks : ℕ × ℕ → ℕ → ℕ → Type 0
Outranks k j q = (k.1 < q) ⊎ ((k.1 ≡ q) × (k.0 ≤ j))

-- No task is ready and none is picked, or the one that is picked is ready and outranks the others.
abbrev pub Picked : ℕ → List Task → Best → Type 0
Picked c ts none = (j : ℕ) (q : Task) → get_elem? ts j ≡ some q → ¬ (IsReady c q)
Picked c ts (some k) =
    ((q : Task) × (get_elem? ts k.0 ≡ some q) × IsReady c q × (q.p ≡ k.1))
    × ((j : ℕ) (q : Task) → get_elem? ts j ≡ some q → IsReady c q → Outranks k j q.p)

-- The search of the entries from index i on, with what was found before.
abbrev Onward : ℕ → ℕ → List Task → Best → Best → Type 0
Onward c i ts before none =
    (before ≡ none) × ((j : ℕ) (q : Task) → get_elem? ts j ≡ some q → ¬ (IsReady c q))
Onward c i ts before (some k) =
    ((before ≡ some k)
      ⊎ ((j : ℕ) × (q : Task) × (k.0 ≡ i + j)
          × (get_elem? ts j ≡ some q)
          × IsReady c q
          × (q.p ≡ k.1)))
    × ((b : ℕ × ℕ) → before ≡ some b → Outranks k b.0 b.1)
    × ((j : ℕ) (q : Task) → get_elem? ts j ≡ some q → IsReady c q → Outranks k (i + j) q.p)

IsReady-cases : (c : ℕ) (q : Task) → ((q.a == c && ltb 0 q.r) ≡ true) → IsReady c q
IsReady-cases c q h = ground arith

idle_cases : (c : ℕ) (q : Task) → ((q.a == c && ltb 0 q.r) ≡ false) → ¬ (IsReady c q)
idle_cases c q h r = ground arith

better_cases : (i p : ℕ) (b : ℕ × ℕ) → is_better i p (some b) ≡ true → Outranks (i, p) b.0 b.1
better_cases i p (k, q) h = ground arith

worse_cases : (i p : ℕ) (b : ℕ × ℕ) → b.0 < i → is_better i p (some b) ≡ false → Outranks b i p
worse_cases i p (k, q) l h = ground arith

Outranks-trans : (a b : ℕ × ℕ) (j q : ℕ) → Outranks a b.0 b.1 → Outranks b j q → Outranks a j q
Outranks-trans (i, p) (k, r) j q h g = ground arith

shifted : (i j : ℕ) → (i + 1) + j ≡ i + suc j
shifted i j = omega arith

module _ (c i : ℕ) (q : Task) (ts : List Task) (before : Best) where
  -- The first entry does not replace what was found.
  Onward-keep :
      (r : Best)
      → (IsReady c q → (b : ℕ × ℕ) × (before ≡ some b) × Outranks b i q.p)
      → Onward c (i + 1) ts before r
      → Onward c i (q ∷ ts) before r
  Onward-keep none head (absent, idle) = (absent, others)
    where
      others : (j : ℕ) (x : Task) → get_elem? (q ∷ ts) j ≡ some x → ¬ (IsReady c x)
      others zero x at ready =
          let (b, e, _) = head (subst (IsReady c) (sym (some-injective q x at)) ready) in
          none-ne-some b (sym absent ∙ e)
      others (suc j) x at ready = idle j x at ready
  Onward-keep (some k) head (from, over, best) = (
    elim from [
      | inl e ↦ inl e
      | inr (j, x, e, at, ready, p) ↦ inr (suc j, x, e ∙ shifted i j, at, ready, p)
    ],
    over,
    others,
  )
    where
      others :
          (j : ℕ) (x : Task) → get_elem? (q ∷ ts) j ≡ some x → IsReady c x → Outranks k (i + j) x.p
      others zero x at ready =
          let same = some-injective q x at in
          let (b, e, rank) = head (subst (IsReady c) (sym same) ready) in
          let here : i ≡ i + 0 = omega arith in
          subst (λ n. Outranks k n x.p) here
            (subst (λ (y : Task). Outranks k i y.p) same (Outranks-trans k b i q.p (over b e) rank))
      others (suc j) x at ready = subst (λ n. Outranks k n x.p) (shifted i j) (best j x at ready)

  -- The first entry replaces what was found.
  Onward-take :
      (r : Best)
      → IsReady c q
      → ((b : ℕ × ℕ) → before ≡ some b → Outranks (i, q.p) b.0 b.1)
      → Onward c (i + 1) ts (some (i, q.p)) r
      → Onward c i (q ∷ ts) before r
  Onward-take none ready better (absent, idle) = absurd (none-ne-some (i, q.p) (sym absent))
  Onward-take (some k) ready better (from, over, best) = (
    elim from [
      | inl e ↦
          let same = some-injective (i, q.p) k e in
          inr (
            0,
            q,
            sym (ap (λ (x : ℕ × ℕ). x.0) same) ∙ omega arith,
            refl,
            ready,
            ap (λ (x : ℕ × ℕ). x.1) same,
          )
      | inr (j, x, e, at, ready', p) ↦ inr (suc j, x, e ∙ shifted i j, at, ready', p)
    ],
    λ b e. Outranks-trans k (i, q.p) b.0 b.1 (over (i, q.p) refl) (better b e),
    others,
  )
    where
      others :
          (j : ℕ) (x : Task) → get_elem? (q ∷ ts) j ≡ some x → IsReady c x → Outranks k (i + j) x.p
      others zero x at ready' =
          let same = some-injective q x at in
          let here : i ≡ i + 0 = omega arith in
          subst (λ n. Outranks k n x.p) here
            (subst (λ (y : Task). Outranks k i y.p) same (over (i, q.p) refl))
      others (suc j) x at ready' = subst (λ n. Outranks k n x.p) (shifted i j) (best j x at ready')

pick_from-Onward :
    (c i : ℕ) (ts : List Task) (before : Best)
    → ((b : ℕ × ℕ) → before ≡ some b → b.0 < i)
    → Onward c i ts before (pick_from c i ts before)
unfolding pick_from
pick_from-Onward c i [] none low = (refl, λ j q at r. none-ne-some q at)
pick_from-Onward c i [] (some b) low = (
  inl refl,
  λ b' e.
      subst (λ (x : ℕ × ℕ). Outranks b x.0 x.1) (some-injective b b' e) (inr (refl, omega arith)),
  λ j q at r. absurd (none-ne-some q at),
)
pick_from-Onward c i (q ∷ ts) before low =
    let later_low : (b : ℕ × ℕ) → before ≡ some b → b.0 < i + 1 = (λ b e. omega (arith, low b e)) in
    elim (Bool-cases (q.a == c && ltb 0 q.r)) [
      | inr idle ↦ rw idle (
          Onward-keep c i q ts before (pick_from c (i + 1) ts before)
            (λ ready. absurd (idle_cases c q idle ready))
            (pick_from-Onward c (i + 1) ts before later_low))
      | inl ready ↦ elim (Bool-cases (is_better i q.p before)) [
        | inl better ↦
            rw (ready, better)
              (Onward-take c i q ts before (pick_from c (i + 1) ts (some (i, q.p)))
                (IsReady-cases c q ready)
                (λ b e. better_cases i q.p b (subst (λ x. is_better i q.p x ≡ true) e better))
                (pick_from-Onward c (i + 1) ts (some (i, q.p))
                  (λ b e. omega (arith, ap (λ (x : ℕ × ℕ). x.0) (some-injective (i, q.p) b e)))))
        | inr worse ↦
            rw (ready, worse)
              (Onward-keep c i q ts before (pick_from c (i + 1) ts before)
                (λ r. worse_head before low worse) (pick_from-Onward c (i + 1) ts before later_low))
      ]
    ]
  where
    worse_head :
        (x : Best)
        → ((b : ℕ × ℕ) → x ≡ some b → b.0 < i)
        → is_better i q.p x ≡ false
        → (b : ℕ × ℕ) × (x ≡ some b) × Outranks b i q.p
    worse_head none low worse = absurd (false≢true (sym worse))
    worse_head (some b) low worse = (b, refl, worse_cases i q.p b (low b refl) worse)

-- A CPU picks, of its tasks with work left, the one with the shortest period and, among these,
-- the first; it picks none only if no task of the CPU has work left.
pub pick-Picked : (c : ℕ) (ts : List Task) → Picked c ts (pick c ts)
unfolding pick
pick-Picked c ts =
    from_start (pick_from c 0 ts none)
      (pick_from-Onward c 0 ts none (λ b e. absurd (none-ne-some b e)))
  where
    zero_add : (n : ℕ) → 0 + n ≡ n
    zero_add n = omega arith

    from_start : (r : Best) → Onward c 0 ts none r → Picked c ts r
    from_start none (_, idle) = idle
    from_start (some k) (inl e, over, best) = absurd (none-ne-some k e)
    from_start (some k) (inr (j, q, e, at, ready, p), over, best) =
        let here : k.0 ≡ j = omega (arith, e) in
        (
          (q, ap (get_elem? ts) here ∙ at, ready, p),
          λ n x at' r. subst (λ y. Outranks k y x.p) (zero_add n) (best n x at' r),
        )
