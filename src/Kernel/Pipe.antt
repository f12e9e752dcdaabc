-- ===== src/Kernel/Pipe.antt =====
-- Group6_Project1/kernel/pipe.c. A call runs under the pipe's lock until it returns or sleeps; what
-- others do while it sleeps is the next call's pipe. `copyin` and `copyout` of vm.c move one byte
-- of user memory; they are parameters.
pub mod Fifo
pub mod Transfer
use os_lab_project.Prelude.{
  ℕ, zero, suc, ◌+◌, ◌%◌, Bool, true, false, not, ◌&&◌, ◌||◌, Option, none, some, List, ◌>>=◌, ℤ,
  pos, minus_one, pos_part, ltb, ◌==◌, if◌then◌else◌, length, get_elem?, set,
}

abbrev pub pipe_size : ℕ
pipe_size = 512

-- The range of `uint` and that of `uint64`.
abbrev pub uint_range : ℕ
uint_range = 4294967296

abbrev pub address_range : ℕ
address_range = 18446744073709551616

pub record Pipe : Type 0 where
  pub data_bytes : List ℕ
  pub nread : ℕ
  pub nwrite : ℕ
  pub readopen : Bool
  pub writeopen : Bool

-- What `pipealloc` sets; the bytes are those of the page.
unfoldable pub pipealloc : List ℕ → Pipe
pipealloc page = record {
  data_bytes = page;
  nread = 0;
  nwrite = 0;
  readopen = true;
  writeopen = true;
}

-- The pipe after one end is closed, and whether its page is freed.
unfoldable pub pipeclose : Pipe → Bool → Pipe × Bool
pipeclose pi true = (record pi { writeopen = false }, not pi.readopen)
pipeclose pi false = (record pi { readopen = false }, not pi.writeopen)

-- The call is over with a result, or it sleeps after i bytes.
pub data Outcome : Type 0 where
  returns : ℤ → Outcome
  sleeps : ℕ → Outcome

abbrev pub at_user : ℕ → ℕ → ℕ
at_user addr i = (addr + i) % address_range

abbrev pub is_full : Pipe → Bool
is_full pi = pi.nwrite == (pi.nread + pipe_size) % uint_range

-- `pi->data[pi->nwrite++ % PIPESIZE] = ch`
unfoldable pub put : Pipe → ℕ → Option Pipe
put pi ch =
    if ltb (pi.nwrite % pipe_size) (length pi.data_bytes)
    then some (record pi {
      data_bytes = set pi.data_bytes (pi.nwrite % pipe_size) ch;
      nwrite = (pi.nwrite + 1) % uint_range;
    })
    else none

module _ (copyin : ℕ → Option ℕ) (killed : Bool) (addr : ℕ) where
  -- The loop of `pipewrite` from byte i on.
  unfoldable pub write_from : ℕ → ℕ → Pipe → Option (Outcome × Pipe)
  unfolding put
  write_from i zero pi = some (returns (pos i), pi)
  write_from i (suc n) pi =
      if not pi.readopen || killed
      then some (returns minus_one, pi)
      else if is_full pi
      then some (sleeps i, pi)
      else elim (copyin (at_user addr i)) [
        | none ↦ some (returns (pos i), pi)
        | some ch ↦ put pi ch >>= write_from (i + 1) n
      ]

  unfoldable pub pipewrite : ℤ → Pipe → Option (Outcome × Pipe)
  unfolding write_from
  pipewrite n pi = write_from 0 (pos_part n) pi

module _ {U : Type 0} (copyout : U → ℕ → ℕ → Option U) (addr : ℕ) where
  -- The copy loop of `piperead` from byte i on.
  unfoldable pub read_from : ℕ → ℕ → Pipe → U → Option (ℤ × Pipe × U)
  read_from i zero pi u = some (pos i, pi, u)
  read_from i (suc n) pi u =
      if pi.nread == pi.nwrite
      then some (pos i, pi, u)
      else (get_elem? pi.data_bytes (pi.nread % pipe_size) >>= λ ch.
          elim (copyout u (at_user addr i) ch) [
            | none ↦ some (if i == 0 then minus_one else pos i, pi, u)
            | some v ↦ read_from (i + 1) n (record pi { nread = (pi.nread + 1) % uint_range }) v
          ])

  unfoldable pub piperead : Bool → ℤ → Pipe → U → Option (Outcome × Pipe × U)
  unfolding read_from
  piperead killed n pi u =
      if (pi.nread == pi.nwrite) && pi.writeopen
      then some (if killed then returns minus_one else sleeps 0, pi, u)
      else (read_from 0 (pos_part n) pi u >>= λ (r, qi, v). some (returns r, qi, v))
