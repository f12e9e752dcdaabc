-- ===== src/User/Grep/Tests.antt =====
-- The theorem about the matcher at a concrete input.
use os_lab_project.Prelude.{◌≡◌, ◌↔◌, true, [], ◌∷◌}
use os_lab_project.User.Grep.{match}
use os_lab_project.User.Grep.Language.{Matches, match-Matches}

-- The pattern a*b. and the text xaabc.
match-Matches_example :
    (match (97 ∷ 42 ∷ 98 ∷ 46 ∷ []) (120 ∷ 97 ∷ 97 ∷ 98 ∷ 99 ∷ []) ≡ true)
    ↔ Matches (97 ∷ 42 ∷ 98 ∷ 46 ∷ []) (120 ∷ 97 ∷ 97 ∷ 98 ∷ 99 ∷ [])
match-Matches_example = match-Matches (97 ∷ 42 ∷ 98 ∷ 46 ∷ []) (120 ∷ 97 ∷ 97 ∷ 98 ∷ 99 ∷ [])
