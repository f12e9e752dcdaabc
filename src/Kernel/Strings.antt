-- ===== src/Kernel/Strings.antt =====
-- The strings of Group6_Project1/kernel/string.c: arrays of characters, each a number below 256,
-- that end at the first 0; `none` is an access outside an array.
pub mod Text
mod Tests
use os_lab_project.Prelude.{
  ℕ, zero, suc, ◌+◌, ◌-◌, Bool, true, false, Option, none, some, List, [], ◌∷◌, ◌>>=◌, ◌==◌,
  if◌then◌else◌, leb_ℤ, get_elem?, write, ℤ, pos, pos_part, sub_ℕ,
}

-- The loop of `safestrcpy` from index i on, with k characters that may still be copied, and the
-- last write.
unfoldable pub copy_string : ℕ → ℕ → List ℕ → List ℕ → Option (List ℕ)
copy_string i zero s t = write s i 0
copy_string i (suc k) s t = get_elem? t i >>= λ c. write s i c >>= λ s'.
    let onward = copy_string (i + 1) k s' t in if c == 0 then write s' (i + 1) 0 else onward

unfoldable pub safestrcpy : List ℕ → List ℕ → ℤ → Option (List ℕ)
unfolding copy_string
safestrcpy s t n = if leb_ℤ n (pos 0) then some s else copy_string 0 (pos_part n - 1) s t

-- The second loop of `strncpy`: n zeros from index i on.
unfoldable pub pad_zeros : ℕ → ℕ → List ℕ → Option (List ℕ)
pad_zeros i zero s = some s
pad_zeros i (suc n) s = write s i 0 >>= pad_zeros (i + 1) n

-- `strncpy`, from index i on; a negative n counts as 0.
unfoldable pub copy_padded : ℕ → ℕ → List ℕ → List ℕ → Option (List ℕ)
unfolding pad_zeros
copy_padded i zero s t = some s
copy_padded i (suc n) s t = get_elem? t i >>= λ c. write s i c >>= λ s'.
    let onward = copy_padded (i + 1) n s' t in if c == 0 then pad_zeros (i + 1) n s' else onward

unfoldable pub strncpy : List ℕ → List ℕ → ℤ → Option (List ℕ)
unfolding copy_padded
strncpy s t n = copy_padded 0 (pos_part n) s t

-- `strncmp` of what the two pointers point to.
unfoldable pub strncmp : List ℕ → List ℕ → ℕ → Option ℤ
strncmp p q zero = some (pos 0)
strncmp [] q (suc n) = none
strncmp (a ∷ p) [] (suc n) = none
strncmp (a ∷ p) (b ∷ q) (suc n) =
    let onward = strncmp p q n in
    if a == 0 then some (sub_ℕ a b) else if a == b then onward else some (sub_ℕ a b)

-- The loop of `strlen`, n characters into the string.
unfoldable pub strlen_from : ℕ → List ℕ → Option ℕ
strlen_from n [] = none
strlen_from n (c ∷ s) = let onward = strlen_from (n + 1) s in if c == 0 then some n else onward

unfoldable pub strlen : List ℕ → Option ℕ
unfolding strlen_from
strlen s = strlen_from 0 s
