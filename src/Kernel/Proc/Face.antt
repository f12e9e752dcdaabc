-- ===== src/Kernel/Proc/Face.antt =====
-- Group6_Project1/kernel/proc.c: which processes there are and whose children they are, and which
-- operations of the table leave that as it is.
use mathlib.Core.Path.{subst}
use mathlib.Core.Bool.{false≢true}
use mathlib.Core.Option.{map}
use os_lab_project.Prelude.{
  ℕ, zero, suc, ◌+◌, ◌≤◌, ◌<◌, ◌≡◌, ◌≢◌, refl, sym, ap, ◌∙◌, Bool, true, false, not, ◌&&◌, Option,
  none, some, List, [], ◌∷◌, ◌==◌, ◌==ℤ◌, if◌then◌else◌, get_elem?, set, ℤ, length, length-set,
  get_elem?-set_self, get_elem?-set_ne, get_elem?_of_lt, below, Bool-cases, Option-cases, inl, inr,
  ◌⊎◌, arith, index_cases, Runs, Runs-map, ltb,
}
use os_lab_project.Kernel.Proc.{
  Proc, ProcState, unused, used, sleeping, runnable, running, zombie, is_sleeping, sleeps_on,
  wakeup, kkill, kill_one,
}
use os_lab_project.Kernel.Proc.Life.{points_to}
use os_lab_project.Kernel.Proc.Exit.{reparent_from, reparent}

pub data Stage : Type 0 where
  absent : Stage
  live : Stage
  dead : Stage

abbrev pub stage : ProcState → Stage
stage unused = absent
stage zombie = dead
stage _ = live

-- What the tree of processes shows of one.
pub record Face : Type 0 where
  pub at_stage : Stage
  pub child_of : Option ℕ

abbrev pub face : Proc → Face
face p = record { at_stage = stage p.state; child_of = p.parent }

abbrev pub view : List Proc → ℕ → Option Face
view ps i = map face (get_elem? ps i)

pub view_at :
    (ps : List Proc) (i : ℕ) (p : Proc) → get_elem? ps i ≡ some p → view ps i ≡ some (face p)
view_at ps i p at = ap (map face) at

pub view-set_self :
    (ps : List Proc) (i : ℕ) (q : Proc) → i < length ps → view (set ps i q) i ≡ some (face q)
view-set_self ps i q l = ap (map face) (get_elem?-set_self ps i q l)

pub view-set_ne : (ps : List Proc) (i j : ℕ) (q : Proc) → i ≢ j → view (set ps i q) j ≡ view ps j
view-set_ne ps i j q ne = ap (map face) (get_elem?-set_ne ps q ne)

-- A write that keeps the face changes nothing.
pub view-set_same :
    (ps : List Proc) (i j : ℕ) (p q : Proc)
    → get_elem? ps i ≡ some p
    → face q ≡ face p
    → view (set ps i q) j ≡ view ps j
view-set_same ps i j p q at same = elim (index_cases i j) [
  | inl e ↦
      ap (view (set ps i q)) (sym e)
      ∙ view-set_self ps i q (below ps i at)
      ∙ ap some same
      ∙ ap (map face) (sym at)
      ∙ ap (view ps) e
  | inr ne ↦ view-set_ne ps i j q ne
]

stage-live : (st : ProcState) → is_sleeping st ≡ true → live ≡ stage st
stage-live sleeping h = refl
stage-live unused h = absurd (false≢true h)
stage-live used h = absurd (false≢true h)
stage-live runnable h = absurd (false≢true h)
stage-live running h = absurd (false≢true h)
stage-live zombie h = absurd (false≢true h)

middle_true : (a b c : Bool) → (a && (b && c)) ≡ true → b ≡ true
middle_true true true c h = refl
middle_true true false c h = h
middle_true false b c h = absurd (false≢true h)

-- A sleeper that becomes runnable keeps its face.
runs-face :
    (p : Proc)
    → is_sleeping p.state ≡ true
    → ◌≡◌ {A = Face} (record { at_stage = live; child_of = p.parent }) (face p)
runs-face p h = ap (λ st. record { at_stage = st; child_of = p.parent }) (stage-live p.state h)

woken-face :
    (me chan i : ℕ) (p : Proc)
    → face (if not (i == me) && sleeps_on chan p then record p { state = runnable } else p) ≡ face p
woken-face me chan i p = elim (Bool-cases (not (i == me) && sleeps_on chan p)) [
  | inl wakes ↦
      rw wakes
        (runs-face p (middle_true (not (i == me)) (is_sleeping p.state) (p.chan == chan) wakes))
  | inr stays ↦ rw stays refl
]

pub view-wakeup : (me chan i j : ℕ) (ps : List Proc) → view (wakeup me chan i ps) j ≡ view ps j
unfolding wakeup
view-wakeup me chan i j [] = refl
view-wakeup me chan i zero (p ∷ ps) = ap some (woken-face me chan i p)
view-wakeup me chan i (suc j) (p ∷ ps) = view-wakeup me chan (i + 1) j ps

kill_one-face : (p : Proc) → face (kill_one p) ≡ face p
kill_one-face p = elim (Bool-cases (is_sleeping p.state)) [
  | inl asleep ↦ rw asleep (runs-face p asleep)
  | inr awake ↦ rw awake refl
]

pub length-wakeup : (me chan i : ℕ) (ps : List Proc) → length (wakeup me chan i ps) ≡ length ps
unfolding wakeup
length-wakeup me chan i [] = refl
length-wakeup me chan i (p ∷ ps) = ap suc (length-wakeup me chan (i + 1) ps)

pub view-kkill : (pid : ℤ) (ps : List Proc) (j : ℕ) → view (kkill pid ps).1 j ≡ view ps j
unfolding kkill
view-kkill pid [] j = refl
view-kkill pid (p ∷ ps) zero = elim (Bool-cases (p.pid ==ℤ pid)) [
  | inl e ↦ rw e (ap some (kill_one-face p))
  | inr e ↦ rw e refl
]
view-kkill pid (p ∷ ps) (suc j) = elim (Bool-cases (p.pid ==ℤ pid)) [
  | inl e ↦ rw e refl
  | inr e ↦ rw e (view-kkill pid ps j)
]

-- The children of `me` become children of `init`.
abbrev pub adopt : ℕ → ℕ → Face → Face
adopt me init f = if points_to me f.child_of then record f { child_of = some init } else f

abbrev pub adopted : ℕ → ℕ → Option Face → Option Face
adopted me init none = none
adopted me init (some f) = some (adopt me init f)

module _ (address : ℕ → ℕ) (init me : ℕ) where
  -- After a loop of n entries from index i on.
  Adopted : ℕ → ℕ → List Proc → List Proc → Type 0
  Adopted i n ps qs =
      (length qs ≡ length ps)
      × ((j : ℕ) → i ≤ j → j < i + n → view qs j ≡ adopted me init (view ps j))
      × ((j : ℕ) → (j < i) ⊎ (i + n ≤ j) → view qs j ≡ view ps j)

  Adopted-step :
      (i n : ℕ) (ps qs rs : List Proc)
      → length qs ≡ length ps
      → view qs i ≡ adopted me init (view ps i)
      → ((j : ℕ) → i ≢ j → view qs j ≡ view ps j)
      → Adopted (i + 1) n qs rs
      → Adopted i (suc n) ps rs
  unfolding Adopted
  Adopted-step i n ps qs rs len here there h = (
    h.0 ∙ len,
    λ j a b. elim (index_cases i j) [
      | inl e ↦
          subst (λ k. view rs k ≡ adopted me init (view ps k)) e (h.2 i (inl (omega arith)) ∙ here)
      | inr ne ↦ h.1 j (omega arith) (omega arith) ∙ ap (adopted me init) (there j ne)
    ],
    λ j a. h.2 j (outside j a) ∙ there j (λ e. apart j e a),
  )
    where
      outside : (j : ℕ) → (j < i) ⊎ (i + suc n ≤ j) → (j < i + 1) ⊎ (i + 1 + n ≤ j)
      outside j (inl l) = inl (omega arith)
      outside j (inr l) = inr (omega arith)

      apart : (j : ℕ) → i ≡ j → (j < i) ⊎ (i + suc n ≤ j) → ⊥
      apart j e (inl l) = omega arith
      apart j e (inr l) = omega arith

  reparent_from-Adopted :
      (i n : ℕ) (ps : List Proc)
      → i + n ≤ length ps
      → Runs (reparent_from address init me i n ps) (Adopted i n ps)
  unfolding reparent_from Adopted
  reparent_from-Adopted i zero ps l = (refl, λ j a b. absurd (omega arith), λ j h. refl)
  reparent_from-Adopted i (suc n) ps l =
      let (p, at) = get_elem?_of_lt ps i (omega arith) in
      let ps' = set ps i (record p { parent = some init }) in
      let qs = wakeup me (address init) 0 ps' in
      let len =
        length-wakeup me (address init) 0 ps' ∙ length-set ps i (record p { parent = some init }) in
      elim (Bool-cases (points_to me p.parent)) [
        | inl mine ↦
            rw (at, mine)
              (Runs-map (reparent_from address init me (i + 1) n qs) (Adopted (i + 1) n qs)
                (Adopted i (suc n) ps) (reparent_from-Adopted (i + 1) n qs (rw len (omega arith)))
                λ rs h.
                  Adopted-step i n ps qs rs len
                    (view-wakeup me (address init) 0 i ps'
                      ∙ view-set_self ps i (record p { parent = some init }) (omega arith)
                      ∙ rw (at, mine) refl)
                    (λ j ne.
                      view-wakeup me (address init) 0 j ps'
                      ∙ view-set_ne ps i j (record p { parent = some init }) ne)
                    h)
        | inr other ↦
            rw (at, other)
              (Runs-map (reparent_from address init me (i + 1) n ps) (Adopted (i + 1) n ps)
                (Adopted i (suc n) ps) (reparent_from-Adopted (i + 1) n ps (omega arith))
                λ rs h. Adopted-step i n ps ps rs refl (rw (at, other) refl) (λ j ne. refl) h)
      ]

  -- `reparent` gives each child of `me` to `init`, and does not fault.
  pub reparent-adopt :
      (ps : List Proc)
      → Runs
          (reparent address init me ps)
          (λ qs. (length qs ≡ length ps) × ((j : ℕ) → view qs j ≡ adopted me init (view ps j)))
  unfolding reparent Adopted
  reparent-adopt ps =
      Runs-map (reparent_from address init me 0 (length ps) ps) (Adopted 0 (length ps) ps)
        (λ qs. (length qs ≡ length ps) × ((j : ℕ) → view qs j ≡ adopted me init (view ps j)))
        (reparent_from-Adopted 0 (length ps) ps (omega arith))
        λ qs h. (
          h.0,
          λ j. elim (Bool-cases (ltb j (length ps))) [
            | inl low ↦ h.1 j (omega arith) (ground arith)
            | inr high ↦ h.2 j (inr (ground arith)) ∙ beyond j high
          ],
        )
    where
      beyond : (j : ℕ) → ltb j (length ps) ≡ false → view ps j ≡ adopted me init (view ps j)
      beyond j high = elim (Option-cases (get_elem? ps j)) [
        | inl e ↦ rw e refl
        | inr (p, at) ↦ absurd (past (length ps) (below ps j at) high)
      ]
        where
          past : (n : ℕ) → j < n → ltb j n ≡ false → ⊥
          past n l h = ground arith
