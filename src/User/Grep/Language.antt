-- ===== src/User/Grep/Language.antt =====
-- The language of the patterns of Group6_Project1/user/grep.c.
use mathlib.Core.Path.{subst}
use mathlib.Core.Bool.{false≢true}
use os_lab_project.Prelude.{
  ℕ, ◌≡◌, ◌≢◌, refl, sym, ap, ◌⊎◌, inl, inr, ◌↔◌, Bool, true, false, ◌&&◌, ◌||◌, List, [], ◌∷◌,
  ◌++◌, ◌==◌, All, Bool-cases, arith,
}
use os_lab_project.User.Grep.{
  caret, dollar, dot, star, fits, step, is_empty, matchstar, matchhere, match_from, match,
}

-- A character that `c` stands for: any for a dot, otherwise itself.
abbrev pub StandsFor : ℕ → ℕ → Type 0
StandsFor c x = (c ≡ dot) ⊎ (c ≡ x)

-- The text begins with a character that c stands for, and the rest satisfies P.
abbrev pub Begins : ℕ → (List ℕ → Type 0) → List ℕ → Type 0
Begins c P text = (x : ℕ) × (rest : List ℕ) × (text ≡ x ∷ rest) × StandsFor c x × P rest

-- The text is some characters that c stands for, and a rest that satisfies P.
abbrev pub Repeats : ℕ → (List ℕ → Type 0) → List ℕ → Type 0
Repeats c P text =
    (xs : List ℕ) × (rest : List ℕ) × (text ≡ xs ++ rest) × All (StandsFor c) xs × P rest

-- The pattern matches a beginning of the text.
pub Here : List ℕ → List ℕ → Type 0
Here [] text = Unit
Here (c ∷ []) text = (c ≡ dollar) × (text ≡ []) ⊎ (c ≢ dollar) × Begins c (λ rest. Unit) text
Here (c ∷ d ∷ re) text =
    (d ≡ star) × Repeats c (Here re) text ⊎ (d ≢ star) × Begins c (Here (d ∷ re)) text

abbrev pub Somewhere : List ℕ → List ℕ → Type 0
Somewhere re text = (before rest : List ℕ) × (text ≡ before ++ rest) × Here re rest

-- The pattern matches in the text: at its beginning after a caret, otherwise anywhere.
abbrev pub Matches : List ℕ → List ℕ → Type 0
Matches [] text = Somewhere [] text
Matches (c ∷ re) text = (c ≡ caret) × Here re text ⊎ (c ≢ caret) × Somewhere (c ∷ re) text

-- The test decides the predicate on every text.
abbrev Decides : (List ℕ → Bool) → (List ℕ → Type 0) → Type 0
Decides m P = (text : List ℕ) → (m text ≡ true) ↔ P text

fits-StandsFor : (c x : ℕ) → (fits c x ≡ true) ↔ StandsFor c x
fits-StandsFor c x = ground arith

and_iff : (a b : Bool) → ((a && b) ≡ true) ↔ ((a ≡ true) × (b ≡ true))
and_iff true b = ((λ h. (refl, h)), (λ h. h.1))
and_iff false b = ((λ h. absurd (false≢true h)), (λ h. h.0))

or_iff : (a b : Bool) → ((a || b) ≡ true) ↔ ((a ≡ true) ⊎ (b ≡ true))
or_iff true b = ((λ h. inl refl), (λ h. refl))
or_iff false b = ((λ h. inr h), (λ h. elim h [ inl e ↦ absurd (false≢true e) | inr e ↦ e ]))

step-Begins :
    (c : ℕ) (m : List ℕ → Bool) (P : List ℕ → Type 0)
    → Decides m P
    → Decides (step c m) (Begins c P)
step-Begins c m P d [] = ((λ h. absurd (false≢true h)), (λ b. let (y, rest, e, s, p) = b in cc))
step-Begins c m P d (x ∷ text) = (
  λ h.
      let (f, rest) = (and_iff (fits c x) (m text)).0 h in
      (x, text, refl, (fits-StandsFor c x).0 f, (d text).0 rest),
  λ b.
      let (y, rest, e, s, p) = b in
      let same : x ≡ y = cc in
      let same' : text ≡ rest = cc in
      (and_iff (fits c x) (m text)).1 (
        (fits-StandsFor c x).1 (subst (StandsFor c) (sym same) s),
        (d text).1 (subst P (sym same') p),
      ),
)

nothing_left : (xs rest : List ℕ) → [] ≡ xs ++ rest → [] ≡ rest
nothing_left [] rest e = e
nothing_left (x ∷ xs) rest e = cc

star-StandsFor : (c x : ℕ) → ((x == c || c == dot) ≡ true) ↔ StandsFor c x
star-StandsFor c x = ground arith

matchstar-Repeats :
    (c : ℕ) (m : List ℕ → Bool) (P : List ℕ → Type 0)
    → Decides m P
    → Decides (matchstar m c) (Repeats c P)
unfolding matchstar
matchstar-Repeats c m P d [] = (
  λ h. ([], [], refl, tt, (d []).0 h),
  λ r. let (xs, rest, e, all, p) = r in (d []).1 (subst P (sym (nothing_left xs rest e)) p),
)
matchstar-Repeats c m P d (x ∷ text) = (
  λ h. elim ((or_iff (m (x ∷ text)) ((x == c || c == dot) && matchstar m c text)).0 h) [
    | inl now ↦ ([], x ∷ text, refl, tt, (d (x ∷ text)).0 now)
    | inr on ↦
        let (s, onward) = (and_iff (x == c || c == dot) (matchstar m c text)).0 on in
        let (xs, rest, e, all, p) = (matchstar-Repeats c m P d text).0 onward in
        (x ∷ xs, rest, ap (λ ys. x ∷ ys) e, ((star-StandsFor c x).0 s, all), p)
  ],
  λ r. let (xs, rest, e, all, p) = r in repeated (matchstar-Repeats c m P d text).1 xs rest e all p,
)
  where
    repeated :
        (Repeats c P text → matchstar m c text ≡ true)
        → (xs rest : List ℕ) → x ∷ text ≡ xs ++ rest
        → All (StandsFor c) xs
        → P rest
        → matchstar m c (x ∷ text) ≡ true
    repeated onward [] rest e all p =
        (or_iff (m (x ∷ text)) ((x == c || c == dot) && matchstar m c text)).1
          (inl ((d (x ∷ text)).1 (subst P (sym e) p)))
    repeated onward (y ∷ ys) rest e (s, all) p =
        let same : x ≡ y = cc in
        let same' : text ≡ ys ++ rest = cc in
        (or_iff (m (x ∷ text)) ((x == c || c == dot) && matchstar m c text)).1 (
          inr (
            (and_iff (x == c || c == dot) (matchstar m c text)).1 (
              (star-StandsFor c x).1 (subst (StandsFor c) (sym same) s),
              onward (ys, rest, same', all, p),
            )))

is_empty_iff : (text : List ℕ) → (is_empty text ≡ true) ↔ (text ≡ [])
is_empty_iff [] = ((λ h. refl), (λ h. refl))
is_empty_iff (x ∷ text) = ((λ h. absurd (false≢true h)), (λ h. cc))

-- A test of two characters chooses between two predicates.
choose :
    (a b : ℕ) (m n : Bool) (P Q : Type 0)
    → (m ≡ true) ↔ P
    → (n ≡ true) ↔ Q
    → (elim (a == b) [ true ↦ m | false ↦ n ] ≡ true) ↔ ((a ≡ b) × P ⊎ (a ≢ b) × Q)
choose a b m n P Q p q = elim (Bool-cases (a == b)) [
  | inl e ↦
      let same : a ≡ b = ground arith in
      rw e (λ h. inl (same, p.0 h), λ h. elim h [ inl l ↦ p.1 l.1 | inr r ↦ absurd (r.0 same) ])
  | inr e ↦
      let apart : a ≢ b = (λ h. ground arith) in
      rw e (λ h. inr (apart, q.0 h), λ h. elim h [ inl l ↦ absurd (apart l.0) | inr r ↦ q.1 r.1 ])
]

matchhere-Here : (re : List ℕ) → Decides (matchhere re) (Here re)
unfolding matchhere Here
matchhere-Here [] text = ((λ h. tt), (λ h. refl))
matchhere-Here (c ∷ []) text =
    choose c dollar (is_empty text) (step c (λ rest. true) text) (text ≡ [])
      (Begins c (λ rest. Unit) text) (is_empty_iff text)
      (step-Begins c (λ rest. true) (λ rest. Unit) (λ rest. ((λ h. tt), (λ h. refl))) text)
matchhere-Here (c ∷ d ∷ re) text =
    choose d star (matchstar (matchhere re) c text) (step c (matchhere (d ∷ re)) text)
      (Repeats c (Here re) text) (Begins c (Here (d ∷ re)) text)
      (matchstar-Repeats c (matchhere re) (Here re) (matchhere-Here re) text)
      (step-Begins c (matchhere (d ∷ re)) (Here (d ∷ re)) (matchhere-Here (d ∷ re)) text)

match_from-Somewhere : (re : List ℕ) → Decides (match_from re) (Somewhere re)
unfolding match_from
match_from-Somewhere re [] = (
  λ h. ([], [], refl, (matchhere-Here re []).0 h),
  λ s.
      let (before, rest, e, p) = s in
      (matchhere-Here re []).1 (subst (Here re) (sym (nothing_left before rest e)) p),
)
match_from-Somewhere re (x ∷ text) = (
  λ h. elim ((or_iff (matchhere re (x ∷ text)) (match_from re text)).0 h) [
    | inl now ↦ ([], x ∷ text, refl, (matchhere-Here re (x ∷ text)).0 now)
    | inr on ↦
        let (before, rest, e, p) = (match_from-Somewhere re text).0 on in
        (x ∷ before, rest, ap (λ ys. x ∷ ys) e, p)
  ],
  λ s. let (before, rest, e, p) = s in found (match_from-Somewhere re text).1 before rest e p,
)
  where
    found :
        (Somewhere re text → match_from re text ≡ true)
        → (before rest : List ℕ) → x ∷ text ≡ before ++ rest
        → Here re rest
        → match_from re (x ∷ text) ≡ true
    found onward [] rest e p =
        (or_iff (matchhere re (x ∷ text)) (match_from re text)).1
          (inl ((matchhere-Here re (x ∷ text)).1 (subst (Here re) (sym e) p)))
    found onward (y ∷ before) rest e p =
        let same : text ≡ before ++ rest = cc in
        (or_iff (matchhere re (x ∷ text)) (match_from re text)).1
          (inr (onward (before, rest, same, p)))

-- match gives 1 exactly for the texts in which the pattern matches: at the beginning after a
-- caret, otherwise somewhere.
pub match-Matches : (re text : List ℕ) → (match re text ≡ true) ↔ Matches re text
unfolding match
match-Matches [] text = match_from-Somewhere [] text
match-Matches (c ∷ re) text =
    choose c caret (matchhere re text) (match_from (c ∷ re) text) (Here re text)
      (Somewhere (c ∷ re) text) (matchhere-Here re text) (match_from-Somewhere (c ∷ re) text)
