-- ===== src/Kernel/Log/Install.antt =====
-- Group6_Project1/kernel/log.c: install_trans, which copies the blocks of the log to their places.
use os_lab_project.Prelude.{
  ℕ, zero, suc, ◌+◌, ◌≤◌, ◌<◌, ◌≡◌, ◌≢◌, refl, sym, ap, ◌∙◌, ◌⊎◌, inl, inr, some, get_elem?, length,
  index_cases, get_elem?_of_lt, arith,
}
use mathlib.Core.Option.{some-injective}
use mathlib.Core.Path.{subst}
use os_lab_project.Kernel.Log.{
  LogHeader, Disk, Log, log_blocks, put_block, bwrite, copy_block, install_from, install_trans,
  write_head, forget, copy_entries,
}
use os_lab_project.Kernel.Log.Header.{Ends, Ends-then_do, Ends-with_power, Agree}

pub put_block_self : {B : Type 0} (f : ℕ → B) (b c : ℕ) (v : B) → c ≡ b → put_block f b v c ≡ v
put_block_self f b c v e = ground arith

pub put_block_ne : {B : Type 0} (f : ℕ → B) (b c : ℕ) (v : B) → c ≢ b → put_block f b v c ≡ f c
put_block_ne f b c v ne = ground arith

-- The blocks outside the log's area.
abbrev pub Home : ℕ → ℕ → Type 0
Home start b = (b < start) ⊎ (start + log_blocks < b)

-- The header's entry i names block b.
abbrev pub Entry : LogHeader → ℕ → ℕ → Type 0
Entry h i b = (i < h.n) × (get_elem? h.block i ≡ some b)

-- The arrays have their size, and each entry names a block outside the log's area.
abbrev pub IsHeader : ℕ → LogHeader → Type 0
IsHeader start h =
    (h.n ≤ log_blocks) × (length h.block ≡ log_blocks) × ((i b : ℕ) → Entry h i b → Home start b)

abbrev pub Same : LogHeader → LogHeader → Type 0
Same g h = (g.n ≡ h.n) × (length g.block ≡ log_blocks) × Agree h.n g.block h.block

-- An entry from index t on names the block.
abbrev pub Pending : ℕ → LogHeader → ℕ → Type 0
Pending t h b = (i : ℕ) × (t ≤ i) × Entry h i b

module _ {B : Type 0} (start : ℕ) (h : LogHeader) (new : ℕ → B) where
  -- The first t blocks of the log are the new contents of the blocks that the header names.
  abbrev pub Logged : ℕ → (ℕ → B) → Type 0
  Logged t f = (i b : ℕ) → i < t → Entry h i b → f (start + i + 1) ≡ new b

  -- A block outside the log has its new contents, or is still to be installed.
  abbrev pub Placed : ℕ → (ℕ → B) → Type 0
  Placed t f = (b : ℕ) → Home start b → (f b ≡ new b) ⊎ Pending t h b

module _ {B : Type 0} (start : ℕ) where
  -- What a power cut may leave: the log holds what is not yet in place.
  abbrev pub Recoverable : (ℕ → B) → Disk B → Type 0
  Recoverable new d =
      IsHeader start d.head
      × Logged start d.head new d.head.n d.blocks
      × Placed start d.head new 0 d.blocks

  -- The log is empty and all is in place.
  abbrev pub Clean : (ℕ → B) → Disk B → Type 0
  Clean new d =
      (d.head.n ≡ 0)
      × (length d.head.block ≡ log_blocks)
      × ((b : ℕ) → Home start b → d.blocks b ≡ new b)

  -- The log is empty on the disk and in memory, and the cached blocks are the new ones too.
  abbrev pub Erased : (ℕ → B) → Log B → Type 0
  Erased new s = Clean new s.disk × (s.lh.n ≡ 0) × ((b : ℕ) → Home start b → s.cache b ≡ new b)

  -- The loop of `install_trans` before entry t.
  abbrev pub Installing : LogHeader → (ℕ → B) → ℕ → Log B → Type 0
  Installing h new t s =
      (s.lh ≡ h)
      × Same s.disk.head h
      × Logged start h new h.n s.cache
      × Logged start h new h.n s.disk.blocks
      × Placed start h new t s.cache
      × Placed start h new t s.disk.blocks

module _ {B : Type 0} (start : ℕ) (h : LogHeader) (new : ℕ → B) where
  pub Placed-end : (f : ℕ → B) → Placed start h new h.n f → (b : ℕ) → Home start b → f b ≡ new b
  Placed-end f placed b home = elim (placed b home) [
    | inl e ↦ e
    | inr (i, l, e) ↦ absurd (omega (arith, e.0))
  ]

  module _ (valid : IsHeader start h) where
    Logged-put_block :
        (f : ℕ → B) (c : ℕ) (v : B)
        → Home start c
        → Logged start h new h.n f
        → Logged start h new h.n (put_block f c v)
    Logged-put_block f c v home logged i b l e =
        put_block_ne f c (start + i + 1) v
          (λ eq. elim home [ inl low ↦ omega arith | inr high ↦ omega (arith, valid.0) ])
        ∙ logged i b l e

    Placed-put_block :
        (f : ℕ → B) (t c : ℕ) (v : B)
        → get_elem? h.block t ≡ some c
        → v ≡ new c
        → Placed start h new t f
        → Placed start h new (t + 1) (put_block f c v)
    Placed-put_block f t c v at e placed b home = elim (index_cases b c) [
      | inl same ↦ inl (put_block_self f c b v same ∙ e ∙ ap new (sym same))
      | inr ne ↦ elim (placed b home) [
        | inl e' ↦ inl (put_block_ne f c b v ne ∙ e')
        | inr (i, l, entry) ↦ elim (index_cases i t) [
          | inl same ↦
              absurd (ne (some-injective b c (sym entry.1 ∙ ap (get_elem? h.block) same ∙ at)))
          | inr other ↦ inr (i, omega arith, entry)
        ]
      ]
    ]

    Installing-Recoverable :
        (t : ℕ) (s : Log B) → Installing start h new t s → Recoverable start new s.disk
    Installing-Recoverable t s (_, same, _, logged, _, placed) = (
      (omega (arith, same.0, valid.0), same.1, λ i b e. valid.2 i b (entry i b e)),
      λ i b l e. logged i b (omega (arith, same.0)) (entry i b e),
      λ b home. elim (placed b home) [
        | inl e ↦ inl e
        | inr (i, l, e) ↦ inr (i, omega arith, (omega (arith, e.0, same.0), same.2 i e.0 ∙ e.1))
      ],
    )
      where
        entry : (i b : ℕ) → Entry s.disk.head i b → Entry h i b
        entry i b e = let l : i < h.n = omega (arith, same.0, e.0) in (l, sym (same.2 i l) ∙ e.1)

    pub install_from-Installing :
        (t k : ℕ) (s : Log B)
        → t + k ≡ h.n
        → Installing start h new t s
        → Ends (Installing start h new h.n) (Recoverable start new) (install_from start t k s)
    unfolding install_from copy_block bwrite
    install_from-Installing t zero s e inv =
        subst (λ u. Installing start h new u s) (omega arith) inv
    install_from-Installing t (suc k) s e inv =
        let (c, at) = get_elem?_of_lt h.block t (omega (arith, valid.0, valid.1)) in
        let at' = ap (λ (g : LogHeader). get_elem? g.block t) inv.0 ∙ at in
        let home = valid.2 t c (omega arith, at) in
        let v : B = s.cache (start + t + 1) in
        let w : B = put_block s.cache c v c in
        let v_new = inv.2 t c (omega arith) (omega arith, at) in
        let w_new = put_block_self s.cache c c v refl ∙ v_new in
        rw at' (
          Ends-then_do (Installing start h new (t + 1)) (Installing start h new h.n)
            (Recoverable start new) (bwrite c (copy_block c (start + t + 1) s))
            (install_from start (t + 1) k)
            (Ends-with_power (Installing start h new (t + 1)) (Recoverable start new)
              (copy_block c (start + t + 1) s) (record disk { blocks = put_block disk.blocks c w })
              (Installing-Recoverable t s inv)
              (λ p e'. (
                inv.0,
                inv.1,
                Logged-put_block s.cache c v home inv.2,
                Logged-put_block s.disk.blocks c w home inv.3,
                Placed-put_block s.cache t c v at v_new inv.4,
                Placed-put_block s.disk.blocks t c w at w_new inv.5,
              )))
            (λ s' inv'. install_from-Installing (t + 1) k s' (omega arith) inv'))
      where
        open s use {disk}

    pub install_trans-Installing :
        (s : Log B)
        → Installing start h new 0 s
        → Ends (Installing start h new h.n) (Recoverable start new) (install_trans start s)
    unfolding install_trans
    install_trans-Installing s inv =
        install_from-Installing 0 s.lh.n s (omega (arith, ap (λ (g : LogHeader). g.n) inv.0)) inv

    pub write_head-Erased :
        (s : Log B)
        → Installing start h new h.n s
        → Ends (Erased start new) (Recoverable start new) (write_head (forget s))
    unfolding write_head copy_entries
    write_head-Erased s inv =
        Ends-with_power (Erased start new) (Recoverable start new) (forget s)
          (record { blocks = s.disk.blocks; head = record { n = 0; block = s.disk.head.block } })
          (Installing-Recoverable h.n s inv)
          λ p e. ((refl, inv.1.1, Placed-end s.disk.blocks inv.5), refl, Placed-end s.cache inv.4)
