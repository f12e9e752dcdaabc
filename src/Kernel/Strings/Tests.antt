-- ===== src/Kernel/Strings/Tests.antt =====
-- The theorems about strings at concrete inputs.
use os_lab_project.Prelude.{ℕ, ◌≡◌, refl, List, [], ◌∷◌, some, Runs, pos, length, replicate, arith}
use os_lab_project.Kernel.Strings.{safestrcpy}
use os_lab_project.Kernel.Strings.Text.{text, safestrcpy-text}

abbrev name : List ℕ
name = 115 ∷ 104 ∷ 0 ∷ 120 ∷ []

safestrcpy-text_example :
    Runs
      (safestrcpy (replicate 16 7) name (pos 16))
      (λ r. (text r ≡ some (115 ∷ 104 ∷ [])) × (length r ≡ 16))
safestrcpy-text_example =
    safestrcpy-text (replicate 16 7) name (115 ∷ 104 ∷ []) 16 (omega arith) (omega arith) refl
