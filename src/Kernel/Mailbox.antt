-- ===== src/Kernel/Mailbox.antt =====
-- The mailbox of Group6_Project1/kernel/sysproc.c: sys_sendmsg and sys_recvmsg. `none` is an access
-- outside an array.
pub mod Delivery
use os_lab_project.Prelude.{
  ℕ, zero, suc, ◌+◌, Bool, true, false, Option, none, some, List, [], ◌∷◌, ◌>>=◌, if◌then◌else◌, ℤ,
  pos, minus_one,
}
use os_lab_project.Kernel.Strings.{safestrcpy, strlen}

-- `mailbox` and `mailbox_init`.
pub record Mailbox : Type 0 where
  pub msg : List ℕ
  pub has_message : Bool
  pub mailbox_init : Bool

-- `sys_sendmsg`, with the buffer that `fetchstr` fills, if it succeeds.
unfoldable pub sendmsg : Option (List ℕ) → Mailbox → Option (ℤ × Mailbox)
sendmsg none b = some (minus_one, b)
sendmsg (some buf) b = safestrcpy b.msg buf (pos 128) >>= λ msg.
    some (pos 0, record { msg = msg; has_message = true; mailbox_init = true })

-- The first n characters of an array.
unfoldable pub first_bytes : ℕ → List ℕ → Option (List ℕ)
first_bytes zero s = some []
first_bytes (suc n) [] = none
first_bytes (suc n) (c ∷ s) = first_bytes n s >>= λ r. some (c ∷ r)

-- `sys_recvmsg`, with what `copyout` says to the bytes: the result, and the bytes that the user
-- gets.
unfoldable pub recvmsg : (List ℕ → Bool) → Mailbox → Option (ℤ × Option (List ℕ) × Mailbox)
unfolding first_bytes
recvmsg copyout b =
    let read = strlen b.msg >>= λ n. first_bytes (n + 1) b.msg >>= λ bytes.
    (if copyout bytes
      then some (pos 0, some bytes, record b { has_message = false })
      else some (minus_one, none, b)) in
    if b.mailbox_init
    then if b.has_message then read else some (minus_one, none, b)
    else some (minus_one, none, b)
