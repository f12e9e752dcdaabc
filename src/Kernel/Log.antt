-- ===== src/Kernel/Log.antt =====
-- Group6_Project1/kernel/log.c. `bread` gives the cached contents of a block, `bwrite` writes them to
-- the disk. The power may fail at any write: `power` counts the writes until then, and a run that is
-- cut off leaves the disk alone. The block at `start` is the header; it is read as its struct.
pub mod Header
pub mod Install
pub mod Commit
pub mod Recover
pub mod Power
pub mod Frame
mod Tests
pub mod Space
use os_lab_project.Prelude.{
  ℕ, zero, suc, ◌+◌, ◌*◌, Bool, true, false, not, Option, none, some, List, [], ◌∷◌, ltb, leb, ◌==◌,
  if◌then◌else◌, get_elem?, set, replicate, write, ◌>>=◌, ℤ, pos, pos_part, neg_part, ltb_ℤ, ◌+ℤ◌,
  ◌-ℤ◌, ◌==ℤ◌,
}

abbrev pub max_op_blocks : ℕ
max_op_blocks = 10

abbrev pub log_blocks : ℕ
log_blocks = 30

pub record LogHeader : Type 0 where
  pub n : ℕ
  pub block : List ℕ

pub record Disk (B : Type 0) : Type 0 where
  pub blocks : ℕ → B
  pub head : LogHeader

-- `struct log`, the disk, and what `bread` gives for each block.
pub record Log (B : Type 0) : Type 0 where
  pub disk : Disk B
  pub cache : ℕ → B
  pub lh : LogHeader
  pub outstanding : ℤ
  pub committing : Bool
  pub power : ℕ

pub data Run (B : Type 0) : Type 0 where
  done : Log B → Run B
  crashed : Disk B → Run B
  panics : Run B

infixl 5 ◌then_do◌
abbrev pub ◌then_do◌ : {B : Type 0} → Run B → (Log B → Run B) → Run B
done s then_do f = f s
crashed d then_do f = crashed d
panics then_do f = panics

-- An access out of range.
abbrev pub or_panic : {B : Type 0} {A : Type 0} → Option A → (A → Run B) → Run B
or_panic none f = panics
or_panic (some a) f = f a

-- One block is changed.
abbrev pub put_block : {B : Type 0} → (ℕ → B) → ℕ → B → ℕ → B
put_block d b v c = if c == b then v else d c

-- A write of the disk takes power.
abbrev pub with_power : {B : Type 0} → Log B → Disk B → Run B
with_power s d = elim s.power [
  | zero ↦ crashed s.disk
  | suc k ↦ done (record s { disk = d; power = k })
]

unfoldable pub bwrite : {B : Type 0} → ℕ → Log B → Run B
bwrite b s = with_power s (record disk { blocks = put_block disk.blocks b (s.cache b) })
  where
    open s use {disk}

-- `memmove(to->data, from->data, BSIZE)` on the cached blocks
unfoldable pub copy_block : {B : Type 0} → ℕ → ℕ → Log B → Log B
copy_block to from s = record s { cache = put_block s.cache to (s.cache from) }

-- `to[i] = from[i]`, n times from index i on.
unfoldable pub copy_entries : ℕ → ℕ → List ℕ → List ℕ → Option (List ℕ)
copy_entries i zero from to = some to
copy_entries i (suc n) from to =
    get_elem? from i >>= λ b. write to i b >>= copy_entries (i + 1) n from

unfoldable pub read_head : {B : Type 0} → Log B → Run B
unfolding copy_entries
read_head s =
    or_panic (copy_entries 0 s.disk.head.n s.disk.head.block s.lh.block)
      λ block. done (record s { lh = record { n = s.disk.head.n; block = block } })

unfoldable pub write_head : {B : Type 0} → Log B → Run B
unfolding copy_entries
write_head s =
    or_panic (copy_entries 0 s.lh.n s.lh.block s.disk.head.block)
      λ block. with_power s (record disk { head = record { n = s.lh.n; block = block } })
  where
    open s use {disk}

-- `log.lh.n = 0`
abbrev pub forget : {B : Type 0} → Log B → Log B
forget s = record s { lh = record lh { n = 0 } }
  where
    open s use {lh}

-- `initlog` after the power is back: nothing is cached, the struct is zero.
unfoldable pub boot : {B : Type 0} → ℕ → Disk B → Log B
boot power d = record {
  disk = d;
  cache = d.blocks;
  lh = record { n = 0; block = no_blocks };
  outstanding = pos 0;
  committing = false;
  power = power;
}
  where
    no_blocks : List ℕ
    no_blocks = replicate log_blocks 0

module _ {B : Type 0} (start : ℕ) where
  -- The loop of `install_trans`, n times from `tail` on.
  unfoldable pub install_from : ℕ → ℕ → Log B → Run B
  unfolding copy_block bwrite
  install_from tail zero s = done s
  install_from tail (suc n) s =
      or_panic (get_elem? s.lh.block tail)
        λ dst. bwrite dst (copy_block dst (start + tail + 1) s) then_do install_from (tail + 1) n

  unfoldable pub install_trans : Log B → Run B
  unfolding install_from
  install_trans s = install_from 0 s.lh.n s

  unfoldable pub recover_from_log : Log B → Run B
  unfolding read_head write_head install_trans
  recover_from_log s = read_head s then_do install_trans then_do λ t. write_head (forget t)

  -- The loop of `write_log`.
  unfoldable pub write_log_from : ℕ → ℕ → Log B → Run B
  unfolding copy_block bwrite
  write_log_from tail zero s = done s
  write_log_from tail (suc n) s = or_panic (get_elem? s.lh.block tail) λ src.
      bwrite (start + tail + 1) (copy_block (start + tail + 1) src s)
      then_do write_log_from (tail + 1) n

  unfoldable pub write_log : Log B → Run B
  unfolding write_log_from
  write_log s = write_log_from 0 s.lh.n s

  unfoldable pub commit : Log B → Run B
  unfolding write_log write_head install_trans
  commit s =
      if ltb 0 s.lh.n
      then write_log s then_do write_head then_do install_trans then_do (λ t. write_head (forget t))
      else done s

  -- `end_op`; those that it wakes are not part of the state.
  unfoldable pub end_op : Log B → Run B
  unfolding commit
  end_op s =
      let left = s.outstanding -ℤ pos 1 in
      if s.committing
      then panics
      else if left ==ℤ pos 0
      then (commit (record s { outstanding = left; committing = true }) then_do λ t.
          done (record t { committing = false }))
      else done (record s { outstanding = left })

-- `(outstanding + 1) * MAXOPBLOCKS`
abbrev pub reserved : ℤ → ℤ
reserved a = pos (pos_part a * max_op_blocks) -ℤ pos (neg_part a * max_op_blocks)

-- One pass of the loop of `begin_op`; `none` is a sleep.
unfoldable pub begin_op : {B : Type 0} → Log B → Option (Log B)
begin_op s =
    if s.committing
    then none
    else if ltb_ℤ (pos log_blocks) (pos s.lh.n +ℤ reserved (s.outstanding +ℤ pos 1))
    then none
    else some (record s { outstanding = s.outstanding +ℤ pos 1 })

-- The index of the block in the log, or n: n more entries from i on.
unfoldable pub find_block : ℕ → ℕ → List ℕ → ℕ → Option ℕ
find_block b i block zero = some i
find_block b i block (suc n) = get_elem? block i >>= λ c.
    let onward = find_block b (i + 1) block n in if c == b then some i else onward

-- `log_write` of block b; `bpin` keeps it in the cache.
unfoldable pub log_write : {B : Type 0} → ℕ → Log B → Run B
unfolding find_block
log_write b s =
    if leb log_blocks s.lh.n
    then panics
    else if ltb_ℤ s.outstanding (pos 1)
    then panics
    else or_panic (find_block b 0 s.lh.block s.lh.n) λ i. or_panic (write s.lh.block i b) λ block.
      done (record s {
        lh = record { n = (if i == s.lh.n then s.lh.n + 1 else s.lh.n); block = block };
      })
