-- ===== src/Kernel/Pipe/Fifo.antt =====
-- The ring of a pipe as a queue of bytes.
use mathlib.Core.Option.{some-injective}
use os_lab_project.Prelude.{
  ℕ, zero, suc, ◌+◌, ◌%◌, ◌<◌, ◌≤◌, ◌≡◌, ◌≢◌, refl, ap, ◌∙◌, inl, inr, true, false, some, List, [],
  ◌∷◌, ◌++◌, arith, ltb, ◌==◌, length, length-set, length-append, get_elem?, get_elem?-set_self,
  get_elem?-set_ne, set,
}
use mathlib.Core.Logic.{◌⊎◌}
use os_lab_project.Prelude.{Runs}
use os_lab_project.Kernel.Pipe.{Pipe, put, is_full}

-- The pipe holds the bytes xs, the oldest first.
pub record Holds (pi : Pipe) (xs : List ℕ) : Type 0 where
  pub whole : length pi.data_bytes ≡ 512
  pub fits : length xs ≤ 512
  pub reader : pi.nread < 4294967296
  pub writer : pi.nwrite ≡ (pi.nread + length xs) % 4294967296
  pub ring :
      (k : ℕ) (x : ℕ)
      → get_elem? xs k ≡ some x
      → get_elem? pi.data_bytes ((pi.nread + k) % 512) ≡ some x

ltb-true : {a b : ℕ} → a < b → ltb a b ≡ true
ltb-true h = ground arith

-- The test of `pipewrite` is exact.
pub full-Holds : (pi : Pipe) (xs : List ℕ) → Holds pi xs → is_full pi ≡ true → length xs ≡ 512
full-Holds pi xs h full = ground (arith, h.fits, h.reader, h.writer)

pub room-Holds : (pi : Pipe) (xs : List ℕ) → Holds pi xs → is_full pi ≡ false → length xs < 512
room-Holds pi xs h room = ground (arith, h.fits, h.reader, h.writer)

pub empty-Holds : (pi : Pipe) (xs : List ℕ) → Holds pi xs → (pi.nread == pi.nwrite) ≡ true → xs ≡ []
empty-Holds pi [] h empty = refl
empty-Holds pi (x ∷ xs) h empty = absurd (ground (arith, h.fits, h.reader, h.writer))

distinct : (r k n : ℕ) → k < n → n < 512 → ((r + n) % 4294967296) % 512 ≢ (r + k) % 512
distinct r k n less room e = omega arith

get_elem?-append :
    (xs : List ℕ) (k b x : ℕ)
    → get_elem? (xs ++ (b ∷ [])) k ≡ some x
    → (get_elem? xs k ≡ some x) ⊎ ((k ≡ length xs) × (b ≡ x))
get_elem?-append [] zero b x at = inr (refl, some-injective b x at)
get_elem?-append [] (suc k) b x at = cc
get_elem?-append (y ∷ xs) zero b x at = inl at
get_elem?-append (y ∷ xs) (suc k) b x at = elim (get_elem?-append xs k b x at) [
  | inl h ↦ inl h
  | inr h ↦ inr (ap suc h.0, h.1)
]

index_below : (xs : List ℕ) (k x : ℕ) → get_elem? xs k ≡ some x → k < length xs
index_below [] k x at = cc
index_below (y ∷ xs) zero x at = omega arith
index_below (y ∷ xs) (suc k) x at = omega (arith, index_below xs k x at)

-- A byte is put at the end of a pipe that is not full.
pub put-Holds :
    (pi : Pipe) (xs : List ℕ) (b : ℕ)
    → Holds pi xs
    → is_full pi ≡ false
    → Runs (put pi b) (λ qi. Holds qi (xs ++ (b ∷ [])) × (qi.readopen ≡ pi.readopen))
unfolding put
put-Holds pi xs b h room =
    let less : length xs < 512 = room-Holds pi xs h room in
    let slot : pi.nwrite % 512 ≡ (pi.nread + length xs) % 512 = omega (arith, h.writer) in
    let data' = set pi.data_bytes (pi.nwrite % 512) b in
    let inside : pi.nwrite % 512 < length pi.data_bytes = omega (arith, h.whole) in
    rw (ltb-true inside) (
      record {
        whole = length-set pi.data_bytes (pi.nwrite % 512) b ∙ h.whole;
        fits = omega (arith, length-append xs (b ∷ []));
        reader = h.reader;
        writer = omega (arith, length-append xs (b ∷ []), h.writer);
        ring = λ k x at. elim (get_elem?-append xs k b x at) [
          | inl old ↦
              get_elem?-set_ne pi.data_bytes b (λ e.
                distinct pi.nread k (length xs) (index_below xs k x old) less
                  (omega (arith, slot, e)))
              ∙ h.ring k x old
          | inr (last, same) ↦
              ap (get_elem? data') (omega (arith, slot, last))
              ∙ get_elem?-set_self pi.data_bytes (pi.nwrite % 512) b inside
              ∙ ap some same
        ];
      },
      refl,
    )

-- The byte at the front of a pipe that is not empty.
pub front-Holds :
    (pi : Pipe) (x : ℕ) (xs : List ℕ)
    → Holds pi (x ∷ xs)
    → (get_elem? pi.data_bytes (pi.nread % 512) ≡ some x)
      × Holds (record pi { nread = (pi.nread + 1) % 4294967296 }) xs
front-Holds pi x xs h = (
  ap (get_elem? pi.data_bytes) (omega arith) ∙ h.ring 0 x refl,
  record {
    whole = h.whole;
    fits = omega (arith, h.fits);
    reader = omega arith;
    writer = omega (arith, h.writer);
    ring = λ k y at. ap (get_elem? pi.data_bytes) (omega arith) ∙ h.ring (suc k) y at;
  },
)

pub not_empty-Holds :
    (pi : Pipe) (xs : List ℕ)
    → Holds pi xs
    → (pi.nread == pi.nwrite) ≡ false
    → (x : ℕ) × (ys : List ℕ) × (xs ≡ x ∷ ys)
not_empty-Holds pi [] h e = absurd (ground (arith, h.reader, h.writer))
not_empty-Holds pi (x ∷ xs) h e = (x, xs, refl)
