-- ===== src/Kernel/Log/Space.antt =====
-- Group6_Project1/kernel/log.c: begin_op, log_write and end_op share the room of the log.
use mathlib.Core.Path.{subst}
use mathlib.Core.Option.{some-injective, none-ne-some}
use os_lab_project.Prelude.{
  sum, sum-set, sum-append, ℕ, zero, suc, ◌+◌, ◌*◌, ◌≤◌, ◌<◌, ◌≡◌, refl, sym, ap, ◌∙◌, true, false,
  none, some, List, [], ◌∷◌, ◌++◌, get_elem?, set, write_below, get_elem?_of_lt, length, length-set,
  ltb, leb, ◌==◌, if◌then◌else◌, Bool-cases, inl, inr, All, All-set, All-get, below, length-append,
  ℤ, pos, ltb_ℤ, ◌+ℤ◌, ◌-ℤ◌, ◌==ℤ◌, +ℤ_parts, -ℤ_parts, eq_of_parts, arith,
}
use os_lab_project.Kernel.Log.{
  Log, Run, done, crashed, panics, log_blocks, max_op_blocks, reserved, begin_op, find_block,
  log_write, end_op, commit, ◌then_do◌,
}
use os_lab_project.Kernel.Log.Power.{Costs, commit-Costs}
use os_lab_project.Kernel.Log.Frame.{Keeps, Keeps-commit}

module _ {B : Type 0} (start : ℕ) where
  -- The calls between a system call's begin_op and its end_op; a number for each call in
  -- progress is how many more blocks it may write.
  pub data Calls (d : Log B) : Log B → List ℕ → Type 0 where
    idle : Calls d d []
    begins :
        {s t : Log B} {xs : List ℕ}
        → Calls d s xs
        → begin_op s ≡ some t
        → Calls d t (max_op_blocks ∷ xs)
    writes :
        {s t : Log B} {xs : List ℕ} (i k b : ℕ)
        → Calls d s xs
        → get_elem? xs i ≡ some (suc k)
        → log_write b s ≡ done t
        → Calls d t (set xs i k)
    ends :
        {s t : Log B} (xs ys : List ℕ) (k : ℕ)
        → Calls d s (xs ++ k ∷ ys)
        → end_op start s ≡ done t
        → Calls d t (xs ++ ys)

-- The blocks logged and those still promised fit in the log.
abbrev pub Fits : {B : Type 0} → Log B → List ℕ → Type 0
Fits s xs =
    (s.lh.n + sum xs ≤ log_blocks)
    × (length s.lh.block ≡ log_blocks)
    × (s.outstanding ≡ pos (length xs))
    × (s.committing ≡ false)
    × All (λ k. k ≤ max_op_blocks) xs

sum_le : (xs : List ℕ) → All (λ k. k ≤ max_op_blocks) xs → sum xs ≤ length xs * max_op_blocks
sum_le [] h = omega arith
sum_le (x ∷ xs) h = omega (arith, h.0, sum_le xs h.1)

find_block-lt :
    (b i n : ℕ) (xs : List ℕ)
    → i + n ≤ length xs
    → (j : ℕ) × (find_block b i xs n ≡ some j) × (j ≤ i + n)
unfolding find_block
find_block-lt b i zero xs h = (i, refl, omega arith)
find_block-lt b i (suc n) xs h =
    let (c, at) = get_elem?_of_lt xs i (omega arith) in
    let (j, found, le) = find_block-lt b (i + 1) n xs (omega arith) in
    elim (Bool-cases (c == b)) [
      | inl e ↦ (i, rw (at, e) refl, omega arith)
      | inr e ↦ (j, rw (at, e) found, omega (arith, le))
    ]

one_more : (n : ℕ) → pos n +ℤ pos 1 ≡ pos (suc n)
one_more n = eq_of_parts (pos n +ℤ pos 1) (pos (suc n)) (omega (arith, +ℤ_parts (pos n) (pos 1)))

room_of :
    (n m : ℕ)
    → ltb_ℤ (pos log_blocks) (pos n +ℤ reserved (pos m)) ≡ false
    → n + m * max_op_blocks ≤ log_blocks
room_of n m h =
    ground (arith, +ℤ_parts (pos n) (reserved (pos m)), -ℤ_parts (pos (m * max_op_blocks)) (pos 0))

module _ {B : Type 0} where
  log_write-Fits :
      (s : Log B) (xs : List ℕ) (i k b : ℕ)
      → Fits s xs
      → get_elem? xs i ≡ some (suc k)
      → (t : Log B) × (log_write b s ≡ done t) × Fits t (set xs i k)
  unfolding log_write
  log_write-Fits s xs i k b fits at =
      let less = sum-set xs i (suc k) k at in
      let (j, found, le) = find_block-lt b 0 s.lh.n s.lh.block (omega (arith, fits.0, fits.1)) in
      let room : leb log_blocks s.lh.n ≡ false = ground (arith, fits.0, less) in
      let called : ltb_ℤ (pos (length xs)) (pos 1) ≡ false = ground (arith, below xs i at) in
      let open_call = ap (λ o. ltb_ℤ o (pos 1)) fits.2 ∙ called in
      let fits_j : j < length s.lh.block = omega (arith, le, fits.0, fits.1, less) in
      (
        record s {
          lh = record {
            n = (if j == s.lh.n then s.lh.n + 1 else s.lh.n);
            block = set s.lh.block j b;
          };
        },
        rw (room, open_call, found, write_below s.lh.block j b fits_j) refl,
        (
          ground (arith, less, fits.0),
          length-set s.lh.block j b ∙ fits.1,
          fits.2 ∙ ap pos (sym (length-set xs i k)),
          fits.3,
          All-set (λ m. m ≤ max_op_blocks) xs i k
              (omega (arith, All-get (λ m. m ≤ max_op_blocks) xs i (suc k) fits.4 at)) fits.4,
        ),
      )

  begin_op-Fits :
      (s t : Log B) (xs : List ℕ) → Fits s xs → begin_op s ≡ some t → Fits t (max_op_blocks ∷ xs)
  unfolding begin_op
  begin_op-Fits s t xs fits e =
      elim (Bool-cases (ltb_ℤ (pos log_blocks) (pos s.lh.n +ℤ reserved (s.outstanding +ℤ pos 1)))) [
        | inl full ↦
            let asleep : begin_op s ≡ none = rw (fits.3, full) refl in
            absurd (none-ne-some t (sym asleep ∙ e))
        | inr room ↦
            let more = ap (λ o. o +ℤ pos 1) fits.2 ∙ one_more (length xs) in
            let begun : begin_op s ≡ some (record s { outstanding = s.outstanding +ℤ pos 1 }) =
              rw (fits.3, room) refl in
            let same =
              some-injective (record s { outstanding = s.outstanding +ℤ pos 1 }) t
                (sym begun ∙ e) in
            subst (λ (u : Log B). Fits u (max_op_blocks ∷ xs)) same
              (
                omega (arith, room_of s.lh.n (suc (length xs)) (rw more at room), sum_le xs fits.4),
                fits.1,
                more,
                fits.3,
                (omega arith, fits.4),
              )
      ]

one_less : (n : ℕ) → pos (suc n) -ℤ pos 1 ≡ pos n
one_less n =
    eq_of_parts (pos (suc n) -ℤ pos 1) (pos n) (omega (arith, -ℤ_parts (pos (suc n)) (pos 1)))

All-remove : (P : ℕ → Type 0) (xs ys : List ℕ) (k : ℕ) → All P (xs ++ k ∷ ys) → All P (xs ++ ys)
All-remove P [] ys k h = h.1
All-remove P (x ∷ xs) ys k h = (h.0, All-remove P xs ys k h.1)

abbrev Leaves : {B : Type 0} → (Log B → Type 0) → Run B → Type 0
Leaves P (done s) = P s
Leaves P _ = Unit

module _ {B : Type 0} (start : ℕ) where
  end_op-Fits :
      (s : Log B) (xs ys : List ℕ) (k : ℕ)
      → Fits s (xs ++ k ∷ ys)
      → Leaves (λ t. Fits t (xs ++ ys)) (end_op start s)
  unfolding end_op
  end_op-Fits s xs ys k fits = rw fits.3 (elim (Bool-cases (left ==ℤ pos 0)) [
    | inl last ↦ rw last (
        committed (commit start u) (commit-Costs start u)
          (Keeps-commit left s.lh.block start u (refl, refl)))
    | inr more ↦ rw more (
      omega (arith, fits.0, sum_fewer),
      fits.1,
      left_is,
      refl,
      All-remove (λ m. m ≤ max_op_blocks) xs ys k fits.4,
    )
  ])
    where
      left : ℤ
      left = s.outstanding -ℤ pos 1

      u : Log B
      u = record s { outstanding = left; committing = true }

      fewer : length (xs ++ k ∷ ys) ≡ suc (length (xs ++ ys))
      fewer = omega (arith, length-append xs (k ∷ ys), length-append xs ys)

      left_is : left ≡ pos (length (xs ++ ys))
      left_is = ap (λ o. o -ℤ pos 1) (fits.2 ∙ ap pos fewer) ∙ one_less (length (xs ++ ys))

      sum_fewer : sum (xs ++ k ∷ ys) ≡ sum (xs ++ ys) + k
      sum_fewer = omega (arith, sum-append xs (k ∷ ys), sum-append xs ys)

      committed :
          (r : Run B)
          → Costs s.power (if ltb 0 s.lh.n then 2 * s.lh.n + 2 else 0) 0 r
          → Keeps left s.lh.block r
          → Leaves (λ t. Fits t (xs ++ ys)) (r then_do λ v. done (record v { committing = false }))
      committed (done v) costs keeps = (
        omega (arith, costs.1, fits.0, sum_fewer),
        ap length keeps.1 ∙ fits.1,
        keeps.0 ∙ left_is,
        refl,
        All-remove (λ m. m ≤ max_op_blocks) xs ys k fits.4,
      )
      committed (crashed d) costs keeps = tt
      committed panics costs keeps = tt

  -- On the calls between begin_op and end_op, from a log on which there are none, what is
  -- logged and what is promised fit.
  pub Calls-Fits : (d s : Log B) (xs : List ℕ) → Fits d [] → Calls start d s xs → Fits s xs
  Calls-Fits d s xs h idle = h
  Calls-Fits d s xs h (begins {s = r} {xs = ys} calls e) =
      begin_op-Fits r s ys (Calls-Fits d r ys h calls) e
  Calls-Fits d s xs h (writes {s = r} {xs = ys} i k b calls at e) =
      let (t, same, fits) = log_write-Fits r ys i k b (Calls-Fits d r ys h calls) at in
      subst (Leaves (λ u. Fits u xs)) (sym same ∙ e) fits
  Calls-Fits d s xs h (ends {s = r} ys zs k calls e) =
      subst (Leaves (λ u. Fits u xs)) e
        (end_op-Fits r ys zs k (Calls-Fits d r (ys ++ k ∷ zs) h calls))

  -- Among calls of begin_op, log_write and end_op in any order from a log that nobody uses and
  -- that is not overfull, a system call that has logged fewer than ten blocks may log one more
  -- without a panic, and what is logged and promised still fits in the log.
  pub log_write-Calls :
      (d s : Log B) (xs : List ℕ) (i k b : ℕ)
      → Fits d []
      → Calls start d s xs
      → get_elem? xs i ≡ some (suc k)
      → (t : Log B) × (log_write b s ≡ done t) × Fits t (set xs i k)
  log_write-Calls d s xs i k b h calls at = log_write-Fits s xs i k b (Calls-Fits d s xs h calls) at
