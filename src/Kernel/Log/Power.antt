-- ===== src/Kernel/Log/Power.antt =====
-- Group6_Project1/kernel/log.c: the writes of the disk that recover_from_log and commit take.
use mathlib.Core.Path.{subst}
use os_lab_project.Prelude.{
  ℕ, zero, suc, ◌+◌, ◌*◌, ◌<◌, ◌≡◌, refl, Option, none, some, get_elem?, ltb, if◌then◌else◌,
  Bool-cases, inl, inr, arith,
}
use os_lab_project.Kernel.Log.{
  Disk, Log, Run, done, crashed, panics, bwrite, copy_block, boot, read_head, recover_from_log,
  install_from, install_trans, write_head, write_log_from, write_log, forget, copy_entries,
  with_power, commit, put_block, ◌then_do◌, or_panic,
}
use os_lab_project.Kernel.Log.Install.{Recoverable, Clean, Erased}
use os_lab_project.Kernel.Log.Header.{Ends}
use os_lab_project.Kernel.Log.Recover.{recover_from_log-Erased}

module _ {B : Type 0} where
  -- The run writes the disk n times with a power of p, or is cut off for want of power.
  abbrev pub Costs : ℕ → ℕ → ℕ → Run B → Type 0
  Costs p n l (done t) = (t.power + n ≡ p) × (t.lh.n ≡ l)
  Costs p n l (crashed d) = p < n
  Costs p n l panics = Unit

  Costs-then_do :
      (p n m k l l' : ℕ) (r : Run B) (f : Log B → Run B)
      → n + m ≡ k
      → Costs p n l r
      → ((s : Log B) → s.lh.n ≡ l → Costs s.power m l' (f s))
      → Costs p k l' (r then_do f)
  Costs-then_do p n m k l l' (done s) f e c next = shift (f s) (next s c.1)
    where
      shift : (r : Run B) → Costs s.power m l' r → Costs p k l' r
      shift (done t) c' = (omega (arith, c.0, c'.0), c'.1)
      shift (crashed d) c' = omega (arith, c.0, c')
      shift panics c' = tt
  Costs-then_do p n m k l l' (crashed d) f e c next = omega (arith, c)
  Costs-then_do p n m k l l' panics f e c next = tt

  Costs-or_panic :
      {A : Type 0} (p n l : ℕ) (o : Option A) (f : A → Run B)
      → ((a : A) → Costs p n l (f a))
      → Costs p n l (or_panic o f)
  Costs-or_panic p n l none f next = tt
  Costs-or_panic p n l (some a) f next = next a

  Costs-with_power : (s : Log B) (d : Disk B) → Costs s.power 1 s.lh.n (with_power s d)
  Costs-with_power s d = split s.power
    where
      split :
          (p : ℕ)
          → Costs p 1 s.lh.n
              (elim p [ zero ↦ crashed s.disk | suc k ↦ done (record s { disk = d; power = k }) ])
      split zero = omega arith
      split (suc k) = (omega arith, refl)

  write_head-Costs : (s : Log B) → Costs s.power 1 s.lh.n (write_head s)
  unfolding write_head
  write_head-Costs s =
      Costs-or_panic s.power 1 s.lh.n (copy_entries 0 s.lh.n s.lh.block s.disk.head.block)
        (λ block. with_power s (record disk { head = record { n = s.lh.n; block = block } }))
        λ block. Costs-with_power s (record disk { head = record { n = s.lh.n; block = block } })
    where
      open s use {disk}

module _ {B : Type 0} (start : ℕ) where
  copied_write-Costs :
      (to from k : ℕ) (s : Log B) (f : Log B → Run B)
      → ((t : Log B) → Costs t.power k t.lh.n (f t))
      → Costs s.power (suc k) s.lh.n (bwrite to (copy_block to from s) then_do f)
  unfolding copy_block bwrite
  copied_write-Costs to from k s f next =
      Costs-then_do s.power 1 k (suc k) s.lh.n s.lh.n (bwrite to t) f (omega arith)
        (Costs-with_power t (record t.disk { blocks = put_block t.disk.blocks to (t.cache to) }))
        λ u e. subst (λ l. Costs u.power k l (f u)) e (next u)
    where
      t : Log B
      t = copy_block to from s

  install_from-Costs : (t k : ℕ) (s : Log B) → Costs s.power k s.lh.n (install_from start t k s)
  unfolding install_from
  install_from-Costs t zero s = (omega arith, refl)
  install_from-Costs t (suc k) s =
      Costs-or_panic s.power (suc k) s.lh.n (get_elem? s.lh.block t)
        (λ dst. bwrite dst (copy_block dst (start + t + 1) s) then_do install_from start (t + 1) k)
        λ dst.
          copied_write-Costs dst (start + t + 1) k s (install_from start (t + 1) k)
            (install_from-Costs (t + 1) k)

  write_log_from-Costs : (t k : ℕ) (s : Log B) → Costs s.power k s.lh.n (write_log_from start t k s)
  unfolding write_log_from
  write_log_from-Costs t zero s = (omega arith, refl)
  write_log_from-Costs t (suc k) s =
      Costs-or_panic s.power (suc k) s.lh.n (get_elem? s.lh.block t)
        (λ src.
          bwrite (start + t + 1) (copy_block (start + t + 1) src s)
          then_do write_log_from start (t + 1) k)
        λ src.
          copied_write-Costs (start + t + 1) src k s (write_log_from start (t + 1) k)
            (write_log_from-Costs (t + 1) k)

  read_head-Costs : (s : Log B) → Costs s.power 0 s.disk.head.n (read_head s)
  unfolding read_head
  read_head-Costs s =
      Costs-or_panic s.power 0 s.disk.head.n
        (copy_entries 0 s.disk.head.n s.disk.head.block s.lh.block)
        (λ block. done (record s { lh = record { n = s.disk.head.n; block = block } }))
        λ block. (omega arith, refl)

  pub recover_from_log-Costs :
      (s : Log B) → Costs s.power (s.disk.head.n + 1) 0 (recover_from_log start s)
  unfolding recover_from_log install_trans
  recover_from_log-Costs s =
      Costs-then_do s.power s.disk.head.n 1 (s.disk.head.n + 1) s.disk.head.n 0
        (read_head s then_do install_trans start) (λ t. write_head (forget t)) refl
        (Costs-then_do s.power 0 s.disk.head.n s.disk.head.n s.disk.head.n s.disk.head.n
          (read_head s) (install_trans start) (omega arith) (read_head-Costs s)
          λ t e.
            subst (λ l. Costs t.power l l (install_trans start t)) e
              (install_from-Costs 0 t.lh.n t))
        λ t e. write_head-Costs (forget t)

  -- Unless it panics, commit of n blocks, n positive, writes the disk 2 n + 2 times and
  -- empties the log, or is cut off because the power lasts for less; of no block it writes
  -- nothing.
  pub commit-Costs :
      (s : Log B) → Costs s.power (if ltb 0 s.lh.n then 2 * s.lh.n + 2 else 0) 0 (commit start s)
  unfolding commit write_log install_trans
  commit-Costs s =
      let n = s.lh.n in
      elim (Bool-cases (ltb 0 s.lh.n)) [
        | inl more ↦ rw more (
            Costs-then_do s.power (n + 1 + n) 1 (2 * n + 2) n 0
              (write_log start s then_do write_head then_do install_trans start)
              (λ t. write_head (forget t)) (omega arith)
              (Costs-then_do s.power (n + 1) n (n + 1 + n) n n
                (write_log start s then_do write_head) (install_trans start) refl
                (Costs-then_do s.power n 1 (n + 1) n n (write_log start s) write_head refl
                  (write_log_from-Costs 0 n s)
                  λ t e. subst (λ l. Costs t.power 1 l (write_head t)) e (write_head-Costs t))
                λ t e.
                  subst (λ l. Costs t.power l l (install_trans start t)) e
                    (install_from-Costs 0 t.lh.n t))
              λ t e. write_head-Costs (forget t))
        | inr empty ↦ rw empty (omega arith, ground arith)
      ]

  -- From a disk whose log holds what is not yet in place, recovery comes to its end once the
  -- power lasts for one write more than the header has entries, and leaves an empty log with
  -- all blocks in place.
  pub recover_from_log-Clean :
      (new : ℕ → B) (d : Disk B) (k : ℕ)
      → Recoverable start new d
      → d.head.n < k
      → (t : Log B) × (recover_from_log start (boot k d) ≡ done t) × Clean start new t.disk
  unfolding boot
  recover_from_log-Clean new d k ok enough =
      ends (recover_from_log start (boot k d)) (recover_from_log-Erased start new d ok k)
        (recover_from_log-Costs (boot k d))
    where
      ends :
          (r : Run B)
          → Ends (Erased start new) (Recoverable start new) r
          → Costs k (d.head.n + 1) 0 r
          → (t : Log B) × (r ≡ done t) × Clean start new t.disk
      ends (done t) e c = (t, refl, e.0)
      ends (crashed c) e less = absurd (omega (arith, less, enough))
      ends panics e c = absurd e
