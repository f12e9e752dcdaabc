-- ===== src/Kernel/Log/Header.antt =====
-- Group6_Project1/kernel/log.c: outcomes of a run that the power may cut off, and the header's copies.
use os_lab_project.Prelude.{
  ℕ, zero, suc, ◌+◌, ◌≤◌, ◌<◌, ◌≡◌, refl, sym, ap, ◌∙◌, index_cases, inl, inr, Option, none, some,
  List, get_elem?, set, length, length-set, get_elem?-set_self, get_elem?-set_ne, get_elem?_of_lt,
  write_below, Runs, Runs-map, arith,
}
use os_lab_project.Kernel.Log.{
  Disk, Log, Run, done, crashed, panics, ◌then_do◌, or_panic, with_power, copy_entries,
}

module _ {B : Type 0} where
  -- The run does not panic, and what it leaves satisfies the predicate for its case.
  abbrev pub Ends : (Log B → Type 0) → (Disk B → Type 0) → Run B → Type 0
  Ends P C (done s) = P s
  Ends P C (crashed d) = C d
  Ends P C panics = ⊥

  pub Ends-then_do :
      (P Q : Log B → Type 0) (C : Disk B → Type 0) (m : Run B) (f : Log B → Run B)
      → Ends P C m
      → ((s : Log B) → P s → Ends Q C (f s))
      → Ends Q C (m then_do f)
  Ends-then_do P Q C (done s) f h next = next s h
  Ends-then_do P Q C (crashed d) f h next = h
  Ends-then_do P Q C panics f h next = h

  pub Ends-weaken :
      (P Q : Log B → Type 0) (C D : Disk B → Type 0) (m : Run B)
      → Ends P C m
      → ((s : Log B) → P s → Q s)
      → ((d : Disk B) → C d → D d)
      → Ends Q D m
  Ends-weaken P Q C D (done s) h f g = f s h
  Ends-weaken P Q C D (crashed d) h f g = g d h
  Ends-weaken P Q C D panics h f g = h

  pub Ends-or_panic :
      {A : Type 0} (P : Log B → Type 0) (C : Disk B → Type 0) (Q : A → Type 0) (o : Option A)
      (f : A → Run B)
      → Runs o Q
      → ((a : A) → Q a → Ends P C (f a))
      → Ends P C (or_panic o f)
  Ends-or_panic P C Q none f h next = absurd h
  Ends-or_panic P C Q (some a) f h next = next a h

  pub Ends-with_power :
      (P : Log B → Type 0) (C : Disk B → Type 0) (s : Log B) (d : Disk B)
      → C s.disk
      → ((k : ℕ) → s.power ≡ suc k → P (record s { disk = d; power = k }))
      → Ends P C (with_power s d)
  Ends-with_power P C s d cut on = split s.power refl
    where
      split :
          (p : ℕ)
          → s.power ≡ p
          → Ends P C
              (elim p [ zero ↦ crashed s.disk | suc k ↦ done (record s { disk = d; power = k }) ])
      split zero h = cut
      split (suc k) h = on k h

-- The first n entries agree.
abbrev pub Agree : ℕ → List ℕ → List ℕ → Type 0
Agree n xs ys = (i : ℕ) → i < n → get_elem? xs i ≡ get_elem? ys i

abbrev Copied : ℕ → ℕ → List ℕ → List ℕ → List ℕ → Type 0
Copied i n from to r =
    (length r ≡ length to)
    × ((j : ℕ) → j < i → get_elem? r j ≡ get_elem? to j)
    × ((j : ℕ) → i ≤ j → j < i + n → get_elem? r j ≡ get_elem? from j)

copy_entries-Copied :
    (i n : ℕ) (from to : List ℕ)
    → i + n ≤ length from
    → i + n ≤ length to
    → Runs (copy_entries i n from to) (Copied i n from to)
unfolding copy_entries
copy_entries-Copied i zero from to hf ht = (refl, λ j h. refl, λ j h l. absurd (omega arith))
copy_entries-Copied i (suc n) from to hf ht =
    let (b, at) = get_elem?_of_lt from i (omega arith) in
    rw (at, write_below to i b (omega arith))
      (Runs-map (copy_entries (i + 1) n from (set to i b)) (Copied (i + 1) n from (set to i b))
        (Copied i (suc n) from to)
        (copy_entries-Copied (i + 1) n from (set to i b) (omega arith)
          (rw (length-set to i b) omega arith))
        λ r h. (
          h.0 ∙ length-set to i b,
          λ j l. h.1 j (omega arith) ∙ get_elem?-set_ne to b (λ e. omega arith),
          λ j l l'. elim (index_cases i j) [
            | inl e ↦
                ap (get_elem? r) (sym e)
                ∙ h.1 i (omega arith)
                ∙ get_elem?-set_self to i b (omega arith)
                ∙ sym at
                ∙ ap (get_elem? from) e
            | inr ne ↦ h.2 j (omega arith) (omega arith)
          ],
        ))

-- `copy_entries` from the start on copies n entries, and keeps the length.
pub copy_entries_lem :
    (n : ℕ) (from to : List ℕ)
    → n ≤ length from
    → n ≤ length to
    → Runs (copy_entries 0 n from to) (λ r. (length r ≡ length to) × Agree n r from)
copy_entries_lem n from to hf ht =
    Runs-map (copy_entries 0 n from to) (Copied 0 n from to)
      (λ r. (length r ≡ length to) × Agree n r from)
      (copy_entries-Copied 0 n from to (omega arith) (omega arith))
      (λ r h. (h.0, λ j l. h.2 j (omega arith) (omega arith)))
