-- ===== src/Kernel/Log/Commit.antt =====
-- Group6_Project1/kernel/log.c: write_log and commit, and the restarts after a power cut.
use mathlib.Core.Path.{subst}
use os_lab_project.Prelude.{
  ℕ, zero, suc, ◌+◌, ◌<◌, ◌≡◌, ◌≢◌, refl, sym, ap, ◌∙◌, ◌⊎◌, inl, inr, get_elem?, get_elem?_of_lt,
  length, index_cases, ltb, Bool-cases, arith,
}
use mathlib.Core.Option.{some-injective}
use os_lab_project.Kernel.Log.{
  LogHeader, Disk, Log, done, crashed, put_block, bwrite, copy_block, boot, recover_from_log,
  install_trans, write_head, write_log_from, write_log, forget, copy_entries, with_power, commit,
  ◌then_do◌,
}
use os_lab_project.Kernel.Log.Header.{
  Ends, Ends-then_do, Ends-or_panic, Ends-with_power, Ends-weaken, Agree, copy_entries_lem,
}
use os_lab_project.Kernel.Log.Install.{
  put_block_self, put_block_ne, Home, Entry, IsHeader, Logged, Placed, Recoverable, Clean, Erased,
  Installing, install_trans-Installing, write_head-Erased,
}
use os_lab_project.Kernel.Log.Recover.{recover_from_log-Erased}

module _ {B : Type 0} (start : ℕ) where
  -- A change of the cache that `old` does not show is in the transaction.
  abbrev pub IsTransaction : (ℕ → B) → Log B → Type 0
  IsTransaction old s =
      IsHeader start s.lh × Clean start old s.disk × Placed start s.lh s.cache 0 old

  pub Clean-Recoverable : (old : ℕ → B) (d : Disk B) → Clean start old d → Recoverable start old d
  Clean-Recoverable old d clean = (
    (omega (arith, clean.0), clean.1, λ i b e. absurd (omega (arith, e.0, clean.0))),
    λ i b l e. absurd (omega (arith, l, clean.0)),
    λ b home. inl (clean.2 b home),
  )

module _ {B : Type 0} (start : ℕ) (h : LogHeader) (old new : ℕ → B) (valid : IsHeader start h) where
  -- The loop of `write_log` before entry t.
  abbrev Writing : ℕ → Log B → Type 0
  Writing t s =
      (s.lh ≡ h)
      × Clean start old s.disk
      × Logged start h new t s.cache
      × Logged start h new t s.disk.blocks
      × ((b : ℕ) → Home start b → s.cache b ≡ new b)

  Logged-next :
      (f : ℕ → B) (t c : ℕ) (v : B)
      → Entry h t c
      → v ≡ new c
      → Logged start h new t f
      → Logged start h new (t + 1) (put_block f (start + t + 1) v)
  Logged-next f t c v at e logged i b l entry = elim (index_cases i t) [
    | inl same ↦
        put_block_self f (start + t + 1) (start + i + 1) v (omega (arith, same))
        ∙ e
        ∙ ap new (some-injective c b (sym at.1 ∙ ap (get_elem? h.block) (sym same) ∙ entry.1))
    | inr ne ↦
        put_block_ne f (start + t + 1) (start + i + 1) v (λ eq. ne (omega arith))
        ∙ logged i b (omega arith) entry
  ]

  Home-ne : (t b : ℕ) → t < h.n → Home start b → b ≢ start + t + 1
  Home-ne t b l home eq = elim home [ inl low ↦ omega arith | inr high ↦ omega (arith, valid.0) ]

  write_log_from-Writing :
      (t k : ℕ) (s : Log B)
      → t + k ≡ h.n
      → Writing t s
      → Ends (Writing h.n) (Recoverable start old) (write_log_from start t k s)
  unfolding write_log_from copy_block bwrite
  write_log_from-Writing t zero s e inv = subst (λ u. Writing u s) (omega arith) inv
  write_log_from-Writing t (suc k) s e inv =
      let (c, at) = get_elem?_of_lt h.block t (omega (arith, valid.0, valid.1)) in
      let at' = ap (λ (g : LogHeader). get_elem? g.block t) inv.0 ∙ at in
      let entry : Entry h t c = (omega arith, at) in
      let a = start + t + 1 in
      let v : B = s.cache c in
      let w : B = put_block s.cache a v a in
      let v_new = inv.4 c (valid.2 t c entry) in
      rw at' (
        Ends-then_do (Writing (t + 1)) (Writing h.n) (Recoverable start old)
          (bwrite a (copy_block a c s)) (write_log_from start (t + 1) k)
          (Ends-with_power (Writing (t + 1)) (Recoverable start old) (copy_block a c s)
            (record disk { blocks = put_block disk.blocks a w })
            (Clean-Recoverable start old s.disk inv.1)
            (λ p e'. (
              inv.0,
              (
                inv.1.0,
                inv.1.1,
                λ b home.
                    put_block_ne disk.blocks a b w (Home-ne t b entry.0 home) ∙ inv.1.2 b home,
              ),
              Logged-next s.cache t c v entry v_new inv.2,
              Logged-next disk.blocks t c w entry (put_block_self s.cache a a v refl ∙ v_new) inv.3,
              λ b home. put_block_ne s.cache a b v (Home-ne t b entry.0 home) ∙ inv.4 b home,
            )))
          (λ s' inv'. write_log_from-Writing (t + 1) k s' (omega arith) inv'))
    where
      open s use {disk}

  -- The write of the header turns the old contents into the new.
  write_head-Installing :
      Placed start h new 0 old
      → (s : Log B) → Writing h.n s
      → Ends (Installing start h new 0) (Recoverable start old) (write_head s)
  unfolding write_head
  write_head-Installing placed s inv =
      Ends-or_panic (Installing start h new 0) (Recoverable start old)
        (λ block. (length block ≡ length s.disk.head.block) × Agree s.lh.n block s.lh.block)
        (copy_entries 0 s.lh.n s.lh.block s.disk.head.block)
        (λ block. with_power s (record disk { head = record { n = s.lh.n; block = block } }))
        (copy_entries_lem s.lh.n s.lh.block s.disk.head.block
          (omega (arith, of_n, ap length of_block, valid.0, valid.1))
          (omega (arith, of_n, valid.0, inv.1.1)))
        λ block same.
          Ends-with_power (Installing start h new 0) (Recoverable start old) s
            (record disk { head = record { n = s.lh.n; block = block } })
            (Clean-Recoverable start old s.disk inv.1)
            λ p e. (
              inv.0,
              (
                of_n,
                same.0 ∙ inv.1.1,
                λ i l. same.1 i (omega (arith, of_n)) ∙ ap (λ xs. get_elem? xs i) of_block,
              ),
              inv.2,
              inv.3,
              λ b home. inl (inv.4 b home),
              λ b home. elim (placed b home) [ inl o ↦ inl (inv.1.2 b home ∙ o) | inr q ↦ inr q ],
            )
    where
      open s use {disk}

      of_n : s.lh.n ≡ h.n
      of_n = ap (λ (g : LogHeader). g.n) inv.0

      of_block : s.lh.block ≡ h.block
      of_block = ap (λ (g : LogHeader). g.block) inv.0

  commit_nonempty :
      Placed start h new 0 old
      → (s : Log B) → Writing 0 s
      → Ends
          (Erased start new)
          (λ d. Recoverable start old d ⊎ Recoverable start new d)
          (write_log start s then_do write_head then_do install_trans start then_do λ t.
            write_head (forget t))
  unfolding write_log
  commit_nonempty placed s inv =
      Ends-then_do (Installing start h new h.n) (Erased start new) Either
        (write_log start s then_do write_head then_do install_trans start)
        (λ t. write_head (forget t))
        (Ends-then_do (Installing start h new 0) (Installing start h new h.n) Either
          (write_log start s then_do write_head) (install_trans start)
          (Ends-weaken (Installing start h new 0) (Installing start h new 0) (Recoverable start old)
            Either (write_log start s then_do write_head)
            (Ends-then_do (Writing h.n) (Installing start h new 0) (Recoverable start old)
              (write_log start s) write_head
              (write_log_from-Writing 0 s.lh.n s (omega (arith, ap (λ (g : LogHeader). g.n) inv.0))
                inv)
              (write_head-Installing placed))
            (λ t i. i) (λ d r. inl r))
          λ t i.
            Ends-weaken (Installing start h new h.n) (Installing start h new h.n)
              (Recoverable start new) Either (install_trans start t)
              (install_trans-Installing start h new valid t i) (λ u j. j) (λ d r. inr r))
        λ t i.
          Ends-weaken (Erased start new) (Erased start new) (Recoverable start new) Either
            (write_head (forget t)) (write_head-Erased start h new valid t i) (λ u j. j)
            (λ d r. inr r)
    where
      Either : Disk B → Type 0
      Either d = Recoverable start old d ⊎ Recoverable start new d

module _ {B : Type 0} (start : ℕ) where
  pub commit-Erased :
      (old : ℕ → B) (s : Log B)
      → IsTransaction start old s
      → Ends
          (Erased start s.cache)
          (λ d. Recoverable start old d ⊎ Recoverable start s.cache d)
          (commit start s)
  unfolding commit
  commit-Erased old s (valid, clean, placed) = elim (Bool-cases (ltb 0 s.lh.n)) [
    | inl some_block ↦ rw some_block (
        commit_nonempty start s.lh old s.cache valid placed s (
          refl,
          clean,
          λ i b l e. absurd (omega arith),
          λ i b l e. absurd (omega arith),
          λ b home. refl,
        ))
    | inr empty ↦
        let none_logged : s.lh.n ≡ 0 = ground arith in
        rw empty (
          (clean.0, clean.1, λ b home. clean.2 b home ∙ settled none_logged b home),
          none_logged,
          λ b home. refl,
        )
  ]
    where
      settled : s.lh.n ≡ 0 → (b : ℕ) → Home start b → old b ≡ s.cache b
      settled z b home = elim (placed b home) [
        | inl e ↦ e
        | inr (i, l, e) ↦ absurd (omega (arith, e.0))
      ]

  -- Restarts after a power cut, each perhaps cut off in turn, until one comes to its end.
  pub data Restarts : Disk B → Disk B → Type 0 where
    comes_up :
        (k : ℕ) {d : Disk B} {t : Log B}
        → recover_from_log start (boot k d) ≡ done t
        → Restarts d t.disk
    cut_off :
        (k : ℕ) {d e f : Disk B}
        → recover_from_log start (boot k d) ≡ crashed e
        → Restarts e f
        → Restarts d f

  pub Restarts-Clean :
      (new : ℕ → B) {d f : Disk B} → Recoverable start new d → Restarts d f → Clean start new f
  Restarts-Clean new {d} ok (comes_up k e) =
      (subst (Ends (Erased start new) (Recoverable start new)) e
        (recover_from_log-Erased start new d ok k)).0
  Restarts-Clean new {d} ok (cut_off k e r) =
      Restarts-Clean new
        (subst (Ends (Erased start new) (Recoverable start new)) e
          (recover_from_log-Erased start new d ok k))
        r

  -- If the log on the disk is empty, the header in memory names only blocks outside the log,
  -- every cached block outside the log that differs from the disk is named, and the power
  -- fails in commit, then however often the restarts are cut off in turn, once one comes to
  -- its end all blocks outside the log have the contents of before, or all have those of the
  -- transaction.
  pub commit-Restarts :
      (old : ℕ → B) (s : Log B) (d f : Disk B)
      → IsTransaction start old s
      → commit start s ≡ crashed d
      → Restarts d f
      → Clean start old f ⊎ Clean start s.cache f
  commit-Restarts old s d f transaction cut restarts =
      elim (subst
        (Ends (Erased start s.cache) (λ c. Recoverable start old c ⊎ Recoverable start s.cache c))
        cut (commit-Erased old s transaction)) [
          | inl before ↦ inl (Restarts-Clean old before restarts)
          | inr after ↦ inr (Restarts-Clean s.cache after restarts)
        ]
