-- ===== src/Kernel/Pipe/Transfer.antt =====
-- The transfers of `pipewrite` and `piperead` in pipe.c.
use mathlib.Core.Path.{subst}
use mathlib.Core.List.{append-nil, append_assoc}
use os_lab_project.Prelude.{
  Option-cases, ℕ, zero, suc, ◌+◌, ◌%◌, ◌<◌, ◌≡◌, ◌⊎◌, refl, sym, ap, ◌∙◌, inl, inr, Bool, true,
  false, not, ◌&&◌, ◌||◌, Option, none, some, List, [], ◌∷◌, ◌++◌, arith, ◌==◌, if◌then◌else◌,
  length, Bool-cases, ℤ, pos, minus_one, pos_part, Runs, Runs-bind, Runs-map,
}
use os_lab_project.Kernel.Pipe.{
  Pipe, put, is_full, uint_range, at_user, Outcome, returns, sleeps, write_from, pipewrite,
  read_from, piperead,
}
use os_lab_project.Kernel.Pipe.Fifo.{
  Holds, full-Holds, empty-Holds, put-Holds, front-Holds, not_empty-Holds,
}

module _ (copyin : ℕ → Option ℕ) (addr : ℕ) where
  -- The bytes of user memory from byte i of the buffer on.
  abbrev pub Fetched : ℕ → List ℕ → Type 0
  Fetched i [] = Unit
  Fetched i (y ∷ ys) = (copyin (at_user addr i) ≡ some y) × Fetched (i + 1) ys

  -- Why the loop ended at byte i, of n, with the pipe holding the bytes: the reader is gone or the
  -- caller killed; the pipe is full; all is written; or byte i of the buffer cannot be read.
  abbrev pub Ends : Bool → List ℕ → ℕ → ℕ → Outcome → Type 0
  Ends stop held n i (sleeps j) = (j ≡ i) × (i < n) × (stop ≡ false) × (length held ≡ 512)
  Ends stop held n i (returns r) =
      ((r ≡ minus_one) × (stop ≡ true))
      ⊎ ((r ≡ pos i) × ((i ≡ n) ⊎ (copyin (at_user addr i) ≡ none)))

  Ends-same :
      {s s' : Bool} {held held' : List ℕ} {n n' i i' : ℕ} (out : Outcome)
      → s ≡ s'
      → held ≡ held'
      → n ≡ n'
      → i ≡ i'
      → Ends s held n i out
      → Ends s' held' n' i' out
  Ends-same (sleeps j) es eh en ei (at, less, go, full) =
      (at ∙ ei, omega arith, sym es ∙ go, ap length (sym eh) ∙ full)
  Ends-same (returns r) es eh en ei (inl (failed, stop)) = inl (failed, sym es ∙ stop)
  Ends-same (returns r) es eh en ei (inr (at, inl all)) =
      inr (at ∙ ap pos ei, inl (sym ei ∙ all ∙ en))
  Ends-same (returns r) es eh en ei (inr (at, inr gone)) =
      inr (at ∙ ap pos ei, inr (subst (λ k. copyin (at_user addr k) ≡ none) ei gone))

  module _ (killed : Bool) where
    write_from-Fetched :
        (i n : ℕ) (pi : Pipe) (xs : List ℕ)
        → Holds pi xs
        → Runs (write_from copyin killed addr i n pi) (λ (out, qi).
          (ys : List ℕ) × Holds qi (xs ++ ys)
          × Fetched i ys
          × Ends (not pi.readopen || killed) (xs ++ ys) (i + n) (i + length ys) out)
    unfolding write_from
    write_from-Fetched i zero pi xs h = (
      [],
      subst (Holds pi) (sym (append-nil xs)) h,
      tt,
      inr (ap pos (omega arith), inl (omega arith)),
    )
    write_from-Fetched i (suc n) pi xs h = elim (Bool-cases (not pi.readopen || killed)) [
      | inl stop ↦ rw stop ([], subst (Holds pi) (sym (append-nil xs)) h, tt, inl (refl, refl))
      | inr on ↦ rw on (elim (Bool-cases (is_full pi)) [
        | inl full ↦ rw full (
          [],
          subst (Holds pi) (sym (append-nil xs)) h,
          tt,
          (omega arith, omega arith, refl, ap length (append-nil xs) ∙ full-Holds pi xs h full),
        )
        | inr room ↦ rw room (elim (Option-cases (copyin (at_user addr i))) [
          | inl gone ↦ rw gone (
            [],
            subst (Holds pi) (sym (append-nil xs)) h,
            tt,
            inr (
              ap pos (omega arith),
              inr (subst (λ k. copyin (at_user addr k) ≡ none) (omega arith) gone),
            ),
          )
          | inr (b, there) ↦ rw there (
              Runs-bind (put pi b) (write_from copyin killed addr (i + 1) n) _ _
                (put-Holds pi xs b h room)
                λ qi next.
                  Runs-map (write_from copyin killed addr (i + 1) n qi) _ _
                    (write_from-Fetched (i + 1) n qi (xs ++ (b ∷ [])) next.0)
                    λ out (ys, holds, fetched, ends).
                      let same : xs ++ (b ∷ []) ++ ys ≡ xs ++ (b ∷ ys) =
                        append_assoc xs (b ∷ []) ys in
                      (
                        b ∷ ys,
                        subst (Holds out.1) same holds,
                        (there, fetched),
                        Ends-same out.0 (ap (λ r. not r || killed) next.1 ∙ on) same (omega arith)
                            (omega arith) ends,
                      ))
        ])
      ])
    ]

    -- On a pipe that holds xs: the call faults on no slot, and the pipe holds xs and then the next
    -- bytes of user memory in order. It sleeps only when the pipe is full, and returns -1 only if
    -- the read end is closed or the caller killed; else it returns the number of bytes written,
    -- which is n unless the next byte cannot be read.
    pub pipewrite-Fetched :
        (n : ℤ) (pi : Pipe) (xs : List ℕ)
        → Holds pi xs
        → Runs (pipewrite copyin killed addr n pi) (λ (out, qi).
          (ys : List ℕ) × Holds qi (xs ++ ys)
          × Fetched 0 ys
          × Ends (not pi.readopen || killed) (xs ++ ys) (pos_part n) (length ys) out)
    unfolding pipewrite
    pipewrite-Fetched n pi xs h =
        Runs-map (write_from copyin killed addr 0 (pos_part n) pi) _ _
          (write_from-Fetched 0 (pos_part n) pi xs h)
          λ out (ys, holds, fetched, ends).
            (ys, holds, fetched, Ends-same out.0 refl refl (omega arith) (omega arith) ends)

module _ {U : Type 0} (copyout : U → ℕ → ℕ → Option U) (addr : ℕ) where
  -- The user memory v comes from u by the bytes ys, written from byte i of the buffer on.
  abbrev pub Stored : ℕ → List ℕ → U → U → Type 0
  Stored i [] u v = u ≡ v
  Stored i (y ∷ ys) u v = (w : U) × (copyout u (at_user addr i) y ≡ some w) × Stored (i + 1) ys w v

  -- Why the copy ended at byte i of n, with zs left: all that was asked for is read, or nothing is
  -- left, or the next byte cannot be written; the result is -1 if that was the first.
  abbrev pub Stops : List ℕ → ℕ → ℕ → U → ℤ → Type 0
  Stops zs n i v r =
      ((r ≡ pos i) × ((i ≡ n) ⊎ (zs ≡ [])))
      ⊎ ((z : ℕ) × (ws : List ℕ) × (zs ≡ z ∷ ws)
          × (copyout v (at_user addr i) z ≡ none)
          × (r ≡ (if i == 0 then minus_one else pos i)))

  read_from-Stored :
      (i n : ℕ) (pi : Pipe) (xs : List ℕ) (u : U)
      → Holds pi xs
      → Runs (read_from copyout addr i n pi u) (λ (r, qi, v).
        (ys zs : List ℕ) × (xs ≡ ys ++ zs)
        × Holds qi zs
        × Stored i ys u v
        × Stops zs (i + n) (i + length ys) v r)
  unfolding read_from
  read_from-Stored i zero pi xs u h =
      ([], xs, refl, h, refl, inl (ap pos (omega arith), inl (omega arith)))
  read_from-Stored i (suc n) pi xs u h = elim (Bool-cases (pi.nread == pi.nwrite)) [
    | inl empty ↦
        rw empty
          ([], xs, refl, h, refl, inl (ap pos (omega arith), inr (empty-Holds pi xs h empty)))
    | inr more ↦
        let (x, ws, parts) = not_empty-Holds pi xs h more in
        let (there, after) = front-Holds pi x ws (subst (Holds pi) parts h) in
        rw (more, there)
          (elim (Option-cases (copyout u (at_user addr i) x)) [
            | inl fails ↦ rw fails (
              [],
              xs,
              refl,
              h,
              refl,
              inr (
                x,
                ws,
                parts,
                subst (λ k. copyout u (at_user addr k) x ≡ none) (omega arith) fails,
                ap (λ k. if k == 0 then minus_one else pos k) (omega arith),
              ),
            )
            | inr (w, done) ↦ rw done (
                Runs-map
                  (read_from copyout addr (i + 1) n
                    (record pi { nread = (pi.nread + 1) % uint_range }) w)
                  _ _
                  (read_from-Stored (i + 1) n (record pi { nread = (pi.nread + 1) % uint_range }) ws
                    w after)
                  λ (r, qi, v) (ys, zs, split, holds, stored, stops). (
                    x ∷ ys,
                    zs,
                    parts ∙ ap (◌∷◌ x) split,
                    holds,
                    (w, done, stored),
                    subst (λ m. Stops zs m (i + length (x ∷ ys)) v r) (omega arith)
                        (subst (λ m. Stops zs (i + 1 + n) m v r) (omega arith) stops),
                  ))
          ])
  ]

  -- With nothing in the pipe and its write end open the call waits, or gives -1 to a caller who is
  -- killed. Else the front of the pipe is moved to user memory.
  abbrev pub Moved : Bool → ℕ → Pipe → List ℕ → U → Outcome → Pipe → U → Type 0
  Moved killed n pi xs u (sleeps j) qi v =
      (xs ≡ []) × (pi.writeopen ≡ true) × (killed ≡ false) × (qi ≡ pi) × (v ≡ u)
  Moved killed n pi xs u (returns r) qi v =
      ((xs ≡ []) × (pi.writeopen ≡ true) × (killed ≡ true) × (r ≡ minus_one) × (qi ≡ pi) × (v ≡ u))
      ⊎ ((ys zs : List ℕ) × (xs ≡ ys ++ zs)
          × Holds qi zs
          × Stored 0 ys u v
          × Stops zs n (length ys) v r)

  -- On a pipe that holds xs: the call faults on no slot. It sleeps only if the pipe is empty and its
  -- write end open; else the bytes that it writes to user memory are the first of xs, in order, and
  -- the pipe holds those that follow. It returns their number, which is n unless the pipe has no
  -- more or a byte cannot be written, and -1 if the first cannot.
  pub piperead-Moved :
      (killed : Bool) (n : ℤ) (pi : Pipe) (xs : List ℕ) (u : U)
      → Holds pi xs
      → Runs
          (piperead copyout addr killed n pi u)
          (λ (out, qi, v). Moved killed (pos_part n) pi xs u out qi v)
  unfolding piperead
  piperead-Moved killed n pi xs u h = elim (Bool-cases ((pi.nread == pi.nwrite) && pi.writeopen)) [
    | inl waits ↦
        let empty : xs ≡ [] = empty-Holds pi xs h (ground arith) in
        rw waits (elim (Bool-cases killed) [
          | inl dead ↦ rw dead (inl (empty, ground arith, refl, refl, refl, refl))
          | inr alive ↦ rw alive (empty, ground arith, refl, refl, refl)
        ])
    | inr goes ↦ rw goes (
        Runs-bind (read_from copyout addr 0 (pos_part n) pi u) _ _ _
          (read_from-Stored 0 (pos_part n) pi xs u h)
          λ (r, qi, v) (ys, zs, split, holds, stored, stops). inr (
            ys,
            zs,
            split,
            holds,
            stored,
            subst (λ m. Stops zs m (length ys) v r) (omega arith)
                (subst (λ m. Stops zs (0 + pos_part n) m v r) (omega arith) stops),
          ))
  ]
