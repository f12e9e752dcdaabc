-- ===== src/Kernel/Log/Recover.antt =====
-- Group6_Project1/kernel/log.c: initlog and recover_from_log, when the power is back.
use os_lab_project.Prelude.{ℕ, ◌≡◌, refl, sym, ◌∙◌, inl, inr, List, length, replicate, arith}
use os_lab_project.Kernel.Log.{
  LogHeader, Disk, Log, done, log_blocks, boot, read_head, recover_from_log, install_trans,
  write_head, forget, copy_entries, ◌then_do◌,
}
use os_lab_project.Kernel.Log.Header.{
  Ends, Ends-then_do, Ends-or_panic, Ends-weaken, Agree, copy_entries_lem,
}
use os_lab_project.Kernel.Log.Install.{
  Entry, IsHeader, Placed, Recoverable, Erased, Installing, install_trans-Installing,
  write_head-Erased,
}

module _ {B : Type 0} (start : ℕ) (new : ℕ → B) (d : Disk B) (ok : Recoverable start new d) where
  -- The header that `read_head` leaves in memory.
  abbrev Loaded : List ℕ → Type 0
  Loaded block = (length block ≡ log_blocks) × Agree d.head.n block d.head.block

  loaded : ℕ → List ℕ → Log B
  unfolding boot
  loaded k block = record t { lh = record { n = d.head.n; block = block } }
    where
      t : Log B
      t = boot k d

  loaded-Installing :
      (k : ℕ) (block : List ℕ)
      → Loaded block
      → IsHeader start (record { n = d.head.n; block = block })
        × Installing start (record { n = d.head.n; block = block }) new 0 (loaded k block)
  unfolding boot loaded
  loaded-Installing k block same = (
    (ok.0.0, same.0, λ i b e. ok.0.2 i b (entry i b e)),
    (
      refl,
      (refl, ok.0.1, λ i l. sym (same.1 i l)),
      λ i b l e. ok.1 i b l (entry i b e),
      λ i b l e. ok.1 i b l (entry i b e),
      place,
      place,
    ),
  )
    where
      entry : (i b : ℕ) → Entry (record { n = d.head.n; block = block }) i b → Entry d.head i b
      entry i b e = (e.0, sym (same.1 i e.0) ∙ e.1)

      place : Placed start (record { n = d.head.n; block = block }) new 0 d.blocks
      place b home = elim (ok.2 b home) [
        | inl e ↦ inl e
        | inr (i, l, e) ↦ inr (i, l, (e.0, same.1 i e.0 ∙ e.1))
      ]

  pub recover_from_log-Erased :
      (k : ℕ) → Ends (Erased start new) (Recoverable start new) (recover_from_log start (boot k d))
  unfolding recover_from_log boot read_head loaded
  recover_from_log-Erased k =
      Ends-then_do Ready (Erased start new) (Recoverable start new)
        (read_head (boot k d) then_do install_trans start) (λ t. write_head (forget t))
        (Ends-then_do (λ t. (block : List ℕ) × Loaded block × (t ≡ loaded k block)) Ready
          (Recoverable start new) (read_head (boot k d)) (install_trans start)
          (Ends-or_panic (λ t. (block : List ℕ) × Loaded block × (t ≡ loaded k block))
            (Recoverable start new) Loaded
            (copy_entries 0 d.head.n d.head.block (replicate log_blocks 0))
            (λ block. done (loaded k block))
            (copy_entries_lem d.head.n d.head.block (replicate log_blocks 0)
              (omega (arith, ok.0.0, ok.0.1)) (omega (arith, ok.0.0)))
            λ block same. (block, same, refl))
          λ t (block, same, e).
            let (valid, inv) = loaded-Installing k block same in
            let h : LogHeader = record { n = d.head.n; block = block } in
            rw e (
              Ends-weaken (Installing start h new d.head.n) Ready (Recoverable start new)
                (Recoverable start new) (install_trans start (loaded k block))
                (install_trans-Installing start h new valid (loaded k block) inv)
                (λ s i. (h, valid, i)) λ c r. r))
        λ t (h, valid, inv). write_head-Erased start h new valid t inv
    where
      Ready : Log B → Type 0
      Ready t = (h : LogHeader) × IsHeader start h × Installing start h new h.n t
