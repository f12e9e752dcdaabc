-- ===== src/Kernel/Proc/Scan.antt =====
-- Group6_Project1/kernel/proc.c: the scan of the table by `kwaitpid`.
use mathlib.Core.Bool.{false≢true}
use mathlib.Core.Path.{subst}
use mathlib.Core.Option.{some-injective, none-ne-some}
use os_lab_project.Prelude.{
  ℕ, zero, suc, ◌+◌, ◌≡◌, refl, sym, ap, ◌∙◌, Bool, true, false, not, ◌&&◌, Option, none, some,
  List, [], ◌∷◌, ltb_ℤ, ◌==ℤ◌, get_elem?, ℤ, pos, Bool-cases, inl, inr, arith,
}
use os_lab_project.Kernel.Proc.{Proc}
use os_lab_project.Kernel.Proc.Life.{is_zombie, points_to}
use os_lab_project.Kernel.Proc.Exit.{scan_target}

-- A child that the caller waits for.
abbrev pub IsAwaited : ℤ → ℕ → Proc → Type 0
IsAwaited target me p =
    (points_to me p.parent ≡ true) × ((ltb_ℤ (pos 0) target && not (p.pid ==ℤ target)) ≡ false)

-- What a scan of the entries gives: whether a child is awaited, and the first that is a zombie.
abbrev pub Scanned : ℤ → ℕ → List Proc → Bool × Option (ℕ × Proc) → Type 0
Scanned target me ps r =
    ((r.0 ≡ false) → (k : ℕ) (p : Proc) → get_elem? ps k ≡ some p → ¬ (IsAwaited target me p))
    × ((r.0 ≡ true) → (k : ℕ) × (p : Proc) × (get_elem? ps k ≡ some p) × IsAwaited target me p)
    × ((r.1 ≡ none)
        → (k : ℕ) (p : Proc) → get_elem? ps k ≡ some p
        → IsAwaited target me p
        → is_zombie p.state ≡ false)

Scanned-skip :
    (target : ℤ) (me : ℕ) (p : Proc) (ps : List Proc) (r : Bool × Option (ℕ × Proc))
    → ¬ (IsAwaited target me p)
    → Scanned target me ps r
    → Scanned target me (p ∷ ps) r
Scanned-skip target me p ps r not_p h = (
  λ e k q at awaited. skip_none e k q at awaited,
  λ e. let (k, q, at, awaited) = h.1 e in (suc k, q, at, awaited),
  λ e k q at awaited. skip_zombie e k q at awaited,
)
  where
    skip_none :
        r.0 ≡ false → (k : ℕ) (q : Proc) → get_elem? (p ∷ ps) k ≡ some q → ¬ (IsAwaited target me q)
    skip_none e zero q at awaited =
        not_p (subst (IsAwaited target me) (sym (some-injective p q at)) awaited)
    skip_none e (suc k) q at awaited = h.0 e k q at awaited

    skip_zombie :
        r.1 ≡ none
        → (k : ℕ) (q : Proc) → get_elem? (p ∷ ps) k ≡ some q
        → IsAwaited target me q
        → is_zombie q.state ≡ false
    skip_zombie e zero q at awaited =
        absurd (not_p (subst (IsAwaited target me) (sym (some-injective p q at)) awaited))
    skip_zombie e (suc k) q at awaited = h.2 e k q at awaited

pub scan_target-Scanned :
    (target : ℤ) (me i : ℕ) (ps : List Proc) → Scanned target me ps (scan_target target me i ps)
unfolding scan_target
scan_target-Scanned target me i [] =
    (λ e k p at. absurd (none-ne-some p at), λ e. cc, λ e k p at. absurd (none-ne-some p at))
scan_target-Scanned target me i (p ∷ ps) =
    let h = scan_target-Scanned target me (i + 1) ps in
    elim (Bool-cases (points_to me p.parent)) [
      | inr other ↦ rw other (
          Scanned-skip target me p ps (scan_target target me (i + 1) ps)
            (λ a. false≢true (sym other ∙ a.0)) h)
      | inl child ↦ elim (Bool-cases (ltb_ℤ (pos 0) target && not (p.pid ==ℤ target))) [
        | inl other ↦
            rw (child, other)
              (Scanned-skip target me p ps (scan_target target me (i + 1) ps)
                (λ a. false≢true (sym a.1 ∙ other)) h)
        | inr mine ↦ elim (Bool-cases (is_zombie p.state)) [
          | inl dead ↦
              rw (child, mine, dead)
                (
                  λ e. absurd (false≢true (sym e)),
                  λ e. (0, p, refl, (child, mine)),
                  λ e. absurd (none-ne-some (i, p) (sym e)),
                )
          | inr alive ↦
              rw (child, mine, alive)
                (λ e. absurd (false≢true (sym e)), λ e. (0, p, refl, (child, mine)), still h alive)
        ]
      ]
    ]
  where
    still :
        Scanned target me ps (scan_target target me (i + 1) ps)
        → is_zombie p.state ≡ false
        → (scan_target target me (i + 1) ps).1 ≡ none
        → (k : ℕ) (q : Proc) → get_elem? (p ∷ ps) k ≡ some q
        → IsAwaited target me q
        → is_zombie q.state ≡ false
    still h alive e zero q at awaited =
        ap (λ (x : Proc). is_zombie x.state) (sym (some-injective p q at)) ∙ alive
    still h alive e (suc k) q at awaited = h.2 e k q at awaited

-- The scan from index i on finds a zombie that is awaited.
abbrev pub FoundZombie : ℤ → ℕ → ℕ → List Proc → Option (ℕ × Proc) → Type 0
FoundZombie target me i ps none = Unit
FoundZombie target me i ps (some e) =
    (k : ℕ) × (e.0 ≡ i + k)
    × (get_elem? ps k ≡ some e.1)
    × IsAwaited target me e.1
    × (is_zombie e.1.state ≡ true)

FoundZombie-later :
    (target : ℤ) (me i : ℕ) (p : Proc) (ps : List Proc) (o : Option (ℕ × Proc))
    → FoundZombie target me (i + 1) ps o
    → FoundZombie target me i (p ∷ ps) o
FoundZombie-later target me i p ps none h = tt
FoundZombie-later target me i p ps (some e) (k, eq, at, awaited, dead) =
    (suc k, omega (arith, eq), at, awaited, dead)

pub scan_target-FoundZombie :
    (target : ℤ) (me i : ℕ) (ps : List Proc)
    → FoundZombie target me i ps (scan_target target me i ps).1
unfolding scan_target
scan_target-FoundZombie target me i [] = tt
scan_target-FoundZombie target me i (p ∷ ps) =
    let onward =
      FoundZombie-later target me i p ps (scan_target target me (i + 1) ps).1
        (scan_target-FoundZombie target me (i + 1) ps) in
    elim (Bool-cases (points_to me p.parent)) [
      | inr other ↦ rw other onward
      | inl child ↦ elim (Bool-cases (ltb_ℤ (pos 0) target && not (p.pid ==ℤ target))) [
        | inl other ↦ rw (child, other) onward
        | inr mine ↦ elim (Bool-cases (is_zombie p.state)) [
          | inl dead ↦ rw (child, mine, dead) (0, omega arith, refl, (child, mine), dead)
          | inr alive ↦ rw (child, mine, alive) onward
        ]
      ]
    ]
