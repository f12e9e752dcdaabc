-- ===== src/Kernel/Mailbox/Delivery/Tests.antt =====
-- The theorem about the mailbox at a concrete input.
use os_lab_project.Prelude.{
  ℕ, Bool, true, false, refl, some, List, [], ◌∷◌, replicate, Runs, ◌>>=◌, arith,
}
use os_lab_project.Kernel.Mailbox.{Mailbox, sendmsg, recvmsg}
use os_lab_project.Kernel.Mailbox.Delivery.{Delivered, recvmsg-sendmsg}

abbrev empty_box : Mailbox
empty_box = record { msg = replicate 128 0; has_message = false; mailbox_init = false }

abbrev accepts : List ℕ → Bool
accepts bytes = true

abbrev hello : List ℕ
hello = 104 ∷ 105 ∷ 0 ∷ []

recvmsg-sendmsg_example :
    Runs (sendmsg (some hello) empty_box >>= λ r. recvmsg accepts r.1) (Delivered (104 ∷ 105 ∷ []))
recvmsg-sendmsg_example =
    recvmsg-sendmsg empty_box hello (104 ∷ 105 ∷ []) accepts refl refl (omega arith) refl
