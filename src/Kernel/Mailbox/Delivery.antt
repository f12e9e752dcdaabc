-- ===== src/Kernel/Mailbox/Delivery.antt =====
-- The way of a message through the mailbox of Group6_Project1/kernel/sysproc.c.
mod Tests
use os_lab_project.Prelude.{
  ℕ, zero, suc, ◌+◌, ◌-◌, ◌≤◌, ◌<◌, ◌≡◌, refl, sym, ap, ◌∙◌, Bool, true, false, Option, none, some,
  List, [], ◌∷◌, ◌++◌, ◌>>=◌, ◌==◌, if◌then◌else◌, length, Runs, Runs-bind, Runs-map, ℤ, pos,
  minus_one, Bool-cases, Option-cases, inl, inr, arith,
}
use mathlib.Core.Path.{subst}
use mathlib.Core.Option.{some-injective, none-ne-some}
use os_lab_project.Kernel.Strings.{safestrcpy, strlen}
use os_lab_project.Kernel.Strings.Text.{
  text, take, text-zero, text-tail, safestrcpy-text, strlen-text,
}
use os_lab_project.Kernel.Mailbox.{Mailbox, sendmsg, recvmsg, first_bytes}

-- The text and the 0 after it are the first bytes of the array.
first_bytes-text :
    (s str : List ℕ) → text s ≡ some str → first_bytes (length str + 1) s ≡ some (str ++ 0 ∷ [])
unfolding first_bytes
first_bytes-text [] str e = absurd (none-ne-some str e)
first_bytes-text (c ∷ s) str e = elim (Bool-cases (c == 0)) [
  | inl z ↦
      let zero_char : c ≡ 0 = ground arith in
      rw (text-zero c s str z e) (ap (λ x. some (x ∷ [])) zero_char)
  | inr z ↦
      let (u, at, same) = text-tail c s str z e in
      let up : suc (length u) + 1 ≡ suc (length u + 1) = omega arith in
      rw (same, up, first_bytes-text s u at) refl
]

take-all : (n : ℕ) (xs : List ℕ) → length xs ≤ n → take n xs ≡ xs
take-all zero [] h = refl
take-all zero (x ∷ xs) h = absurd (omega arith)
take-all (suc n) [] h = refl
take-all (suc n) (x ∷ xs) h = ap (λ ys. x ∷ ys) (take-all n xs (omega arith))

-- What the receiver gets, and that the mailbox is empty after it.
abbrev pub Delivered : List ℕ → ℤ × Option (List ℕ) × Mailbox → Type 0
Delivered str r = (r.0 ≡ pos 0) × (r.1 ≡ some (str ++ 0 ∷ [])) × (r.2.has_message ≡ false)

-- After sys_sendmsg of a buffer with a text of fewer than 128 characters, sys_recvmsg hands
-- the text and the 0 after it to the user and empties the mailbox, if copyout takes them.
pub recvmsg-sendmsg :
    (b : Mailbox) (buf str : List ℕ) (copyout : List ℕ → Bool)
    → length b.msg ≡ 128
    → text buf ≡ some str
    → length str < 128
    → copyout (str ++ 0 ∷ []) ≡ true
    → Runs (sendmsg (some buf) b >>= λ r. recvmsg copyout r.1) (Delivered str)
unfolding sendmsg recvmsg
recvmsg-sendmsg b buf str copyout size e short ok =
    let copied = safestrcpy-text b.msg buf str 128 (omega arith) (omega (arith, size)) e in
    elim (Option-cases (safestrcpy b.msg buf (pos 128))) [
      | inl faults ↦ absurd (subst (λ o. Runs o kept) faults copied)
      | inr (msg, stored) ↦
          let (at, len) = subst (λ o. Runs o kept) stored copied in
          let whole = at ∙ ap some (take-all 127 str (omega arith)) in
          rw (stored, strlen-text msg str whole, first_bytes-text msg str whole, ok)
            (refl, refl, refl)
    ]
  where
    kept : List ℕ → Type 0
    kept r = (text r ≡ some (take (128 - 1) str)) × (length r ≡ length b.msg)
