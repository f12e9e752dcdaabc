-- ===== src/Kernel/Log/Frame.antt =====
-- Group6_Project1/kernel/log.c: the fields that commit leaves alone.
use os_lab_project.Prelude.{
  ℕ, zero, suc, ◌+◌, ◌≡◌, Option, none, some, List, get_elem?, ltb, Bool-cases, inl, inr, ℤ,
}
use os_lab_project.Kernel.Log.{
  Disk, Log, Run, done, crashed, panics, bwrite, copy_block, install_from, install_trans,
  write_head, write_log_from, write_log, forget, copy_entries, with_power, commit, put_block,
  ◌then_do◌, or_panic,
}

module _ {B : Type 0} (o : ℤ) (xs : List ℕ) where
  -- If the run comes to its end, it leaves these two fields.
  abbrev pub Keeps : Run B → Type 0
  Keeps (done t) = (t.outstanding ≡ o) × (t.lh.block ≡ xs)
  Keeps (crashed d) = Unit
  Keeps panics = Unit

  Keeps-then_do :
      (r : Run B) (f : Log B → Run B)
      → Keeps r
      → ((s : Log B) → Keeps (done s) → Keeps (f s))
      → Keeps (r then_do f)
  Keeps-then_do (done s) f k next = next s k
  Keeps-then_do (crashed d) f k next = tt
  Keeps-then_do panics f k next = tt

  Keeps-or_panic :
      {A : Type 0} (a : Option A) (f : A → Run B) → ((x : A) → Keeps (f x)) → Keeps (or_panic a f)
  Keeps-or_panic none f next = tt
  Keeps-or_panic (some x) f next = next x

  Keeps-with_power : (s : Log B) (d : Disk B) → Keeps (done s) → Keeps (with_power s d)
  Keeps-with_power s d k = split s.power
    where
      split :
          (p : ℕ)
          → Keeps
              (elim p [ zero ↦ crashed s.disk | suc k ↦ done (record s { disk = d; power = k }) ])
      split zero = tt
      split (suc q) = k

  Keeps-bwrite : (b : ℕ) (s : Log B) → Keeps (done s) → Keeps (bwrite b s)
  unfolding bwrite
  Keeps-bwrite b s k =
      Keeps-with_power s (record s.disk { blocks = put_block s.disk.blocks b (s.cache b) }) k

  Keeps-write_head : (s : Log B) → Keeps (done s) → Keeps (write_head s)
  unfolding write_head
  Keeps-write_head s k =
      Keeps-or_panic (copy_entries 0 s.lh.n s.lh.block s.disk.head.block)
        (λ block. with_power s (record s.disk { head = record { n = s.lh.n; block = block } }))
        λ block.
          Keeps-with_power s (record s.disk { head = record { n = s.lh.n; block = block } }) k

  module _ (start : ℕ) where
    Keeps-install_from : (t n : ℕ) (s : Log B) → Keeps (done s) → Keeps (install_from start t n s)
    unfolding install_from copy_block
    Keeps-install_from t zero s k = k
    Keeps-install_from t (suc n) s k =
        Keeps-or_panic (get_elem? s.lh.block t)
          (λ dst.
            bwrite dst (copy_block dst (start + t + 1) s) then_do install_from start (t + 1) n)
          λ dst.
            Keeps-then_do (bwrite dst (copy_block dst (start + t + 1) s))
              (install_from start (t + 1) n) (Keeps-bwrite dst (copy_block dst (start + t + 1) s) k)
              (Keeps-install_from (t + 1) n)

    Keeps-write_log_from :
        (t n : ℕ) (s : Log B) → Keeps (done s) → Keeps (write_log_from start t n s)
    unfolding write_log_from copy_block
    Keeps-write_log_from t zero s k = k
    Keeps-write_log_from t (suc n) s k =
        Keeps-or_panic (get_elem? s.lh.block t)
          (λ src.
            bwrite (start + t + 1) (copy_block (start + t + 1) src s)
            then_do write_log_from start (t + 1) n)
          λ src.
            Keeps-then_do (bwrite (start + t + 1) (copy_block (start + t + 1) src s))
              (write_log_from start (t + 1) n)
              (Keeps-bwrite (start + t + 1) (copy_block (start + t + 1) src s) k)
              (Keeps-write_log_from (t + 1) n)

    pub Keeps-commit : (s : Log B) → Keeps (done s) → Keeps (commit start s)
    unfolding commit write_log install_trans
    Keeps-commit s k = elim (Bool-cases (ltb 0 s.lh.n)) [
      | inl more ↦ rw more (
          Keeps-then_do (write_log start s then_do write_head then_do install_trans start)
            (λ t. write_head (forget t))
            (Keeps-then_do (write_log start s then_do write_head) (install_trans start)
              (Keeps-then_do (write_log start s) write_head (Keeps-write_log_from 0 s.lh.n s k)
                Keeps-write_head)
              λ t. Keeps-install_from 0 t.lh.n t)
            λ t. Keeps-write_head (forget t))
      | inr empty ↦ rw empty k
    ]
