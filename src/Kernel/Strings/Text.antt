-- ===== src/Kernel/Strings/Text.antt =====
-- The text that an array of characters holds, and what string.c makes of it.
use os_lab_project.Prelude.{
  ℕ, zero, suc, ◌+◌, ◌-◌, ◌≤◌, ◌<◌, ◌≡◌, refl, sym, ap, ◌∙◌, true, false, Option, none, some, List,
  [], ◌∷◌, ◌==◌, if◌then◌else◌, get_elem?, write, write_below, length, length-set, Bool-cases,
  Option-cases, inl, inr, Runs, pos, leb_ℤ, arith,
}
use mathlib.Core.Option.{map, some-injective, none-ne-some}
use os_lab_project.Kernel.Strings.{copy_string, safestrcpy, strlen_from, strlen}

-- The characters before the first 0, if there is one.
abbrev pub text : List ℕ → Option (List ℕ)
text [] = none
text (c ∷ s) = let onward = map (λ t. c ∷ t) (text s) in if c == 0 then some [] else onward

abbrev pub take {ℓ} : {A : Type ℓ} → ℕ → List A → List A
take zero xs = []
take (suc n) [] = []
take (suc n) (x ∷ xs) = x ∷ take n xs

pub text-zero : (c : ℕ) (s str : List ℕ) → c == 0 ≡ true → text (c ∷ s) ≡ some str → str ≡ []
text-zero c s str z e = sym (some-injective [] str (rw z at e))

pub text-tail :
    (c : ℕ) (s str : List ℕ)
    → c == 0 ≡ false
    → text (c ∷ s) ≡ some str
    → (u : List ℕ) × (text s ≡ some u) × (str ≡ c ∷ u)
text-tail c s str z e = elim (Option-cases (text s)) [
  | inl none_left ↦ absurd (none-ne-some str (rw (z, none_left) at e))
  | inr (u, at) ↦ (u, at, sym (some-injective (c ∷ u) str (rw (z, at) at e)))
]

Runs-mapped :
    (c k : ℕ) (s u : List ℕ) (o : Option (List ℕ))
    → c == 0 ≡ false
    → Runs o (λ r. (text r ≡ some (take k u)) × (length r ≡ length s))
    → Runs (map (λ r. c ∷ r) o) (λ r. (text r ≡ some (c ∷ take k u)) × (length r ≡ suc (length s)))
Runs-mapped c k s u none z h = h
Runs-mapped c k s u (some r) z h = (rw (z, h.0) refl, ap suc h.1)

write-cons :
    (a v : ℕ) (s : List ℕ) (i : ℕ) → write (a ∷ s) (suc i) v ≡ map (λ t. a ∷ t) (write s i v)
unfolding write
write-cons a v s i = ground arith

copy_string-cons :
    (a c i k : ℕ) (s t : List ℕ)
    → copy_string (suc i) k (a ∷ s) (c ∷ t) ≡ map (λ r. a ∷ r) (copy_string i k s t)
unfolding copy_string
copy_string-cons a c i zero s t = write-cons a 0 s i
copy_string-cons a c i (suc k) s t =
    let up : suc i + 1 ≡ suc (i + 1) = omega arith in
    elim (Option-cases (get_elem? t i)) [
      | inl e ↦ rw e refl
      | inr (d, e) ↦ elim (Option-cases (write s i d)) [
        | inl w ↦ rw (e, write-cons a d s i, w) refl
        | inr (s', w) ↦ elim (Bool-cases (d == 0)) [
          | inl z ↦ rw (e, write-cons a d s i, w, z, up) (write-cons a 0 s' (i + 1))
          | inr z ↦ rw (e, write-cons a d s i, w, z, up) (copy_string-cons a c (i + 1) k s' t)
        ]
      ]
    ]

-- The text is cut to k characters, and the array keeps its length.
copy_string-text :
    (k : ℕ) (s t str : List ℕ)
    → k < length s
    → text t ≡ some str
    → Runs (copy_string 0 k s t) (λ r. (text r ≡ some (take k str)) × (length r ≡ length s))
unfolding copy_string
copy_string-text k [] t str l e = absurd (omega arith)
copy_string-text zero (x ∷ s) t str l e = rw (write_below (x ∷ s) 0 0 (omega arith)) (refl, refl)
copy_string-text (suc k) (x ∷ s) [] str l e = absurd (none-ne-some str e)
copy_string-text (suc k) (x ∷ s) (c ∷ t) str l e = elim (Bool-cases (c == 0)) [
  | inl z ↦
      rw
        (
          write_below (x ∷ s) 0 c (omega arith),
          z,
          write_below (c ∷ s) 1 0 (omega arith),
          text-zero c t str z e,
        )
        (rw z refl, ap suc (length-set s 0 0))
  | inr z ↦
      let (u, at, same) = text-tail c t str z e in
      rw (write_below (x ∷ s) 0 c (omega arith), z, copy_string-cons c c 0 k s t, same)
        (Runs-mapped c k s u (copy_string 0 k s t) z (copy_string-text k s t u (omega arith) at))
]

strlen_from-text :
    (n : ℕ) (s str : List ℕ) → text s ≡ some str → strlen_from n s ≡ some (n + length str)
unfolding strlen_from
strlen_from-text n [] str e = absurd (none-ne-some str e)
strlen_from-text n (c ∷ s) str e = elim (Bool-cases (c == 0)) [
  | inl z ↦ rw (z, text-zero c s str z e) (ap some (omega arith))
  | inr z ↦
      let (u, at, same) = text-tail c s str z e in
      rw (z, same) (strlen_from-text (n + 1) s u at ∙ ap some (omega arith))
]

-- `strlen` of an array that holds a text is the length of it.
pub strlen-text : (s str : List ℕ) → text s ≡ some str → strlen s ≡ some (length str)
unfolding strlen
strlen-text s str e = strlen_from-text 0 s str e ∙ ap some (omega arith)

-- safestrcpy of a terminated string into an array of at least n > 0 characters faults on no
-- access, keeps the array's length and leaves there the first n - 1 characters of the text.
pub safestrcpy-text :
    (s t str : List ℕ) (n : ℕ)
    → 0 < n
    → n ≤ length s
    → text t ≡ some str
    → Runs
        (safestrcpy s t (pos n))
        (λ r. (text r ≡ some (take (n - 1) str)) × (length r ≡ length s))
unfolding safestrcpy
safestrcpy-text s t str zero l le e = absurd (omega arith)
safestrcpy-text s t str (suc k) l le e =
    let same : suc k - 1 ≡ k = omega arith in
    let test : leb_ℤ (pos (suc k)) (pos 0) ≡ false = ground arith in
    rw (test, same) (copy_string-text k s t str (omega arith) e)
