-- ===== src/Kernel/Bytes.antt =====
-- Group6_Project1/kernel/string.c: the functions on blocks of bytes. A pointer is an index into the
-- memory, a list of bytes; an access out of it is `none`.
pub mod Move
pub mod Compare
use os_lab_project.Prelude.{
  write, ℕ, zero, suc, ◌+◌, ◌%◌, Bool, true, false, ◌&&◌, Option, none, some, List, ◌>>=◌, ltb,
  ◌==◌, if◌then◌else◌, get_elem?, ℤ, pos, ◌-ℤ◌,
}

-- `for(i = 0; i < n; i++) cdst[i] = c`, from byte i on.
unfoldable pub fill : ℕ → ℕ → ℕ → ℕ → List ℕ → Option (List ℕ)
fill dst c i zero m = some m
fill dst c i (suc n) m = write m (dst + i) c >>= fill dst c (i + 1) n

-- `c` is cut to a `char`.
unfoldable pub memset : ℕ → ℕ → ℕ → List ℕ → Option (List ℕ)
unfolding fill
memset dst c n m = fill dst (c % 256) 0 n m

-- `while(n-- > 0) *d++ = *s++`
unfoldable pub copy_up : ℕ → ℕ → ℕ → List ℕ → Option (List ℕ)
copy_up zero d s m = some m
copy_up (suc n) d s m = get_elem? m s >>= λ c. write m d c >>= copy_up n (d + 1) (s + 1)

-- `while(n-- > 0) *--d = *--s`, with the pointers at d + n and s + n.
unfoldable pub copy_down : ℕ → ℕ → ℕ → List ℕ → Option (List ℕ)
copy_down zero d s m = some m
copy_down (suc n) d s m = get_elem? m (s + n) >>= λ c. write m (d + n) c >>= copy_down n d s

unfoldable pub memmove : ℕ → ℕ → ℕ → List ℕ → Option (List ℕ)
unfolding copy_up copy_down
memmove dst src n m =
    if n == 0
    then some m
    else if ltb src dst && ltb dst (src + n)
    then copy_down n dst src m
    else copy_up n dst src m

unfoldable pub memcpy : ℕ → ℕ → ℕ → List ℕ → Option (List ℕ)
unfolding memmove
memcpy dst src n m = memmove dst src n m

unfoldable pub memcmp : ℕ → ℕ → ℕ → List ℕ → Option ℤ
memcmp v1 v2 zero m = some (pos 0)
memcmp v1 v2 (suc n) m = get_elem? m v1 >>= λ a. get_elem? m v2 >>= λ b.
    let onward = memcmp (v1 + 1) (v2 + 1) n m in if a == b then onward else some (pos a -ℤ pos b)
