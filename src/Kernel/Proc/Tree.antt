-- ===== src/Kernel/Proc/Tree.antt =====
-- Group6_Project1/kernel/proc.c: the tree of processes under `initproc`.
use mathlib.Core.Path.{subst, fun_ext}
use mathlib.Core.Option.{some-injective, none-ne-some}
use os_lab_project.Prelude.{
  ℕ, ◌≡◌, ◌≢◌, refl, sym, ap, ◌∙◌, false, Option, none, some, ◌==◌, Bool-cases, Option-cases, inl,
  inr, ◌⊎◌, arith, index_cases,
}
use os_lab_project.Kernel.Proc.Life.{points_to}
use os_lab_project.Kernel.Proc.Face.{Stage, absent, live, dead, Face, adopt, adopted}

-- `initproc` lives, and each other process in the table has a parent that lives.
abbrev pub HasParent : (ℕ → Option Face) → Face → Type 0
HasParent v f = (j : ℕ) × (g : Face) × (f.child_of ≡ some j) × (v j ≡ some g) × (g.at_stage ≡ live)

abbrev pub Lives : (ℕ → Option Face) → ℕ → Type 0
Lives v i = (f : Face) × (v i ≡ some f) × (f.at_stage ≡ live)

abbrev pub Rooted : ℕ → (ℕ → Option Face) → Type 0
Rooted init v =
    Lives v init
    × ((i : ℕ) (f : Face) → v i ≡ some f → f.at_stage ≢ absent → (i ≡ init) ⊎ HasParent v f)

abbrev pub nobody : Face
nobody = record { at_stage = absent; child_of = none }

-- The entries other than i look the same.
abbrev pub Elsewhere : ℕ → (ℕ → Option Face) → (ℕ → Option Face) → Type 0
Elsewhere i v w = (j : ℕ) → i ≢ j → w j ≡ v j

pub live≢absent : (st : Stage) → st ≡ live → st ≢ absent
live≢absent live h e = cc
live≢absent absent h e = cc
live≢absent dead h e = cc

adopt-stage : (me init : ℕ) (f : Face) → (adopt me init f).at_stage ≡ f.at_stage
adopt-stage me init f = elim (Bool-cases (points_to me f.child_of)) [
  | inl e ↦ rw e refl
  | inr e ↦ rw e refl
]

-- A stage that is not live.
pub absent≢live : (st : Stage) → st ≡ absent → st ≢ live
absent≢live absent h e = cc
absent≢live live h e = cc
absent≢live dead h e = cc

module _ (init : ℕ) where
  pub Rooted-same : (v w : ℕ → Option Face) → ((j : ℕ) → w j ≡ v j) → Rooted init v → Rooted init w
  Rooted-same v w same h = subst (Rooted init) (fun_ext (λ j. sym (same j))) h

  -- Who lives in v and is not at i lives in w.
  Lives-Elsewhere :
      (v w : ℕ → Option Face) (i j : ℕ) (f : Face)
      → Elsewhere i v w
      → v i ≡ some f
      → f.at_stage ≢ live
      → Lives v j
      → Lives w j
  Lives-Elsewhere v w i j f else' at gone (g, at_j, alive) = elim (index_cases i j) [
    | inl e ↦
        absurd (
          gone
            (ap (λ (x : Face). x.at_stage) (some-injective f g (sym at ∙ ap v e ∙ at_j)) ∙ alive))
    | inr ne ↦ (g, else' j ne ∙ at_j, alive)
  ]

  -- One entry that does not live is written; the new one is nobody, or has a parent that lives.
  pub Rooted-write :
      (v w : ℕ → Option Face) (i : ℕ) (f g : Face)
      → v i ≡ some f
      → f.at_stage ≢ live
      → Elsewhere i v w
      → w i ≡ some g
      → (g ≡ nobody) ⊎ ((j : ℕ) × (g.child_of ≡ some j) × Lives v j)
      → Rooted init v
      → Rooted init w
  Rooted-write v w i f g at gone else' new g_is h =
      (Lives-Elsewhere v w i init f else' at gone h.0, parents)
    where
      parents : (k : ℕ) (x : Face) → w k ≡ some x → x.at_stage ≢ absent → (k ≡ init) ⊎ HasParent w x
      parents k x at_k here = elim (index_cases i k) [
        | inl e ↦ elim g_is [
          | inl no_one ↦ absurd (
              here (
                ap (λ (y : Face). y.at_stage)
                  (some-injective x g (sym at_k ∙ ap w (sym e) ∙ new) ∙ no_one)))
          | inr (j, child, alive) ↦
              let (y, at_y, live_y) = Lives-Elsewhere v w i j f else' at gone alive in
              inr (
                j,
                y,
                ap (λ (z : Face). z.child_of) (some-injective x g (sym at_k ∙ ap w (sym e) ∙ new))
                    ∙ child,
                at_y,
                live_y,
              )
        ]
        | inr ne ↦ elim (h.1 k x (sym (else' k ne) ∙ at_k) here) [
          | inl root ↦ inl root
          | inr (j, y, child, at_j, alive) ↦
              let (z, at_z, live_z) = Lives-Elsewhere v w i j f else' at gone (y, at_j, alive) in
              inr (j, z, child, at_z, live_z)
        ]
      ]

  -- The exit of `me`, whose children are given to `init`.
  pub Rooted-exit :
      (v w : ℕ → Option Face) (me : ℕ) (f : Face)
      → me ≢ init
      → v me ≡ some f
      → f.at_stage ≢ absent
      → ((j : ℕ) → me ≢ j → w j ≡ adopted me init (v j))
      → w me ≡ some (record { at_stage = dead; child_of = (adopt me init f).child_of })
      → Rooted init v
      → Rooted init w
  Rooted-exit v w me f other at here given gone h = (stays init h.0 other, parents)
    where
      stays : (j : ℕ) → Lives v j → me ≢ j → Lives w j
      stays j (g, at_j, alive) ne =
          (adopt me init g, given j ne ∙ ap (adopted me init) at_j, adopt-stage me init g ∙ alive)

      moved :
          (k : ℕ) (x y : Face)
          → v k ≡ some y
          → y.at_stage ≢ absent
          → x.child_of ≡ (adopt me init y).child_of
          → (k ≡ init) ⊎ HasParent w x
      moved k x y at_k present child = elim (Bool-cases (points_to me y.child_of)) [
        | inl mine ↦
            let (g, at_g, alive) = stays init h.0 other in
            inr (init, g, child ∙ rw mine refl, at_g, alive)
        | inr not_mine ↦ elim (h.1 k y at_k present) [
          | inl root ↦ inl root
          | inr (j, g, child', at_j, alive) ↦
              let (g', at', alive') =
                stays j (g, at_j, alive) (λ e. pointed j e (rw child' at not_mine)) in
              inr (j, g', child ∙ rw not_mine child', at', alive')
        ]
      ]
        where
          pointed : (j : ℕ) → me ≡ j → (j == me) ≡ false → ⊥
          pointed j e n = ground arith

      parents : (k : ℕ) (x : Face) → w k ≡ some x → x.at_stage ≢ absent → (k ≡ init) ⊎ HasParent w x
      parents k x at_k present = elim (index_cases me k) [
        | inl e ↦ moved k x f (ap v (sym e) ∙ at) here (
            ap (λ (z : Face). z.child_of)
              (some-injective x (record { at_stage = dead; child_of = (adopt me init f).child_of })
                (sym at_k ∙ ap w (sym e) ∙ gone)))
        | inr ne ↦ elim (Option-cases (v k)) [
          | inl none_there ↦
              absurd
                (none-ne-some x (ap (adopted me init) (sym none_there) ∙ sym (given k ne) ∙ at_k))
          | inr (y, at_y) ↦
              let same =
                some-injective x (adopt me init y)
                  (sym at_k ∙ given k ne ∙ ap (adopted me init) at_y) in
              moved k x y at_y
                (λ e. present (ap (λ (z : Face). z.at_stage) same ∙ adopt-stage me init y ∙ e))
                (ap (λ (z : Face). z.child_of) same)
        ]
      ]
