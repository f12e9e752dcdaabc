-- ===== src/User/Grep.antt =====
-- The matcher of Group6_Project1/user/grep.c. A string is the list of its characters, and the list
-- is empty where the code reads the 0 at its end.
pub mod Language
mod Tests
use os_lab_project.Prelude.{ℕ, Bool, true, false, ◌&&◌, ◌||◌, List, [], ◌∷◌, ◌==◌}

abbrev pub caret : ℕ
caret = 94

abbrev pub dollar : ℕ
dollar = 36

abbrev pub dot : ℕ
dot = 46

abbrev pub star : ℕ
star = 42

-- `re[0]=='.' || re[0]==*text`
abbrev pub fits : ℕ → ℕ → Bool
fits c x = c == dot || c == x

-- `*text!='\0'`, the test of the character, and the rest of the match.
abbrev pub step : ℕ → (List ℕ → Bool) → List ℕ → Bool
step c rest [] = false
step c rest (x ∷ text) = fits c x && rest text

abbrev pub is_empty : List ℕ → Bool
is_empty [] = true
is_empty (x ∷ text) = false

-- `matchstar`, with `matchhere` of the rest of the pattern.
unfoldable pub matchstar : (List ℕ → Bool) → ℕ → List ℕ → Bool
matchstar here c [] = here []
matchstar here c (x ∷ text) = here (x ∷ text) || ((x == c || c == dot) && matchstar here c text)

unfoldable pub matchhere : List ℕ → List ℕ → Bool
unfolding matchstar
matchhere [] text = true
matchhere (c ∷ []) text = elim (c == dollar) [
  | true ↦ is_empty text
  | false ↦ step c (λ rest. true) text
]
matchhere (c ∷ d ∷ re) text = elim (d == star) [
  | true ↦ matchstar (matchhere re) c text
  | false ↦ step c (matchhere (d ∷ re)) text
]

-- The loop of `match`.
unfoldable pub match_from : List ℕ → List ℕ → Bool
unfolding matchhere
match_from re [] = matchhere re []
match_from re (x ∷ text) = matchhere re (x ∷ text) || match_from re text

unfoldable pub match : List ℕ → List ℕ → Bool
unfolding matchhere match_from
match [] text = match_from [] text
match (c ∷ re) text = elim (c == caret) [
  | true ↦ matchhere re text
  | false ↦ match_from (c ∷ re) text
]
