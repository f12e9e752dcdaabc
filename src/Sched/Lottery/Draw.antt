-- ===== src/Sched/Lottery/Draw.antt =====
-- The draw of lottery.c and the tickets of the ready processes.
use native.Mathlib.Nat.{mod-lt}
use os_lab_project.Prelude.{
  ℕ, ◌+◌, ◌%◌, ◌<◌, ◌≡◌, refl, ap, inl, inr, Bool, true, false, Option, none, some, List, [], ◌∷◌,
  ◌++◌, arith, ℤ, pos, negsuc, pos_part, ltb_ℤ, ◌≤ℤ◌, ◌<ℤ◌, ◌+ℤ◌, int_laws, All, Bool-cases,
  if◌then◌else◌,
}
use os_lab_project.Sched.{Process, Sim}
use os_lab_project.Sched.Table.{Each, Each-map}
use os_lab_project.Sched.Rule.{Runs}
use os_lab_project.Sched.Policy.Laws.{is_ready}
use os_lab_project.Sched.Scan.{
  candidates, fold, scan-fold, is_eligible_lem, candidates-nil, candidates-All,
}
use os_lab_project.Sched.Lottery.{add_tickets, draw_from, choose}

-- The tickets of the candidates, added to a sum.
abbrev pub tickets : List (ℕ × Process) → ℤ → ℤ
tickets = fold add_tickets

pick : ℤ → List (ℕ × Process) → ℤ → Option (ℕ × Process)
pick ticket [] sum = none
pick ticket ((i, p) ∷ cs) sum =
    if ltb_ℤ ticket (add_tickets i p sum) then some (i, p) else pick ticket cs (add_tickets i p sum)

-- The second scan faults on no flag, and picks among the ready processes.
draw_from-pick :
    (P : Process → Bool → Type 0) (time : ℕ) (ticket : ℤ) (ps : List Process) (fs : List Bool)
    (i : ℕ) (sum : ℤ)
    → Each P ps fs
    → draw_from (pos time) ticket ps fs i sum ≡ some (pick ticket (candidates time ps fs i) sum)
unfolding draw_from pick candidates add_tickets
draw_from-pick P time ticket [] fs i sum e = refl
draw_from-pick P time ticket (p ∷ ps) [] i sum e = absurd e
draw_from-pick P time ticket (p ∷ ps) (f ∷ fs) i sum e =
    let sum' = sum +ℤ (p.priority +ℤ pos 1) in
    rw (is_eligible_lem time p f fs) (elim (Bool-cases (is_ready time p f)) [
      | inl ready ↦ rw ready (elim (Bool-cases (ltb_ℤ ticket sum')) [
        | inl wins ↦ rw wins
        | inr loses ↦ rw loses (draw_from-pick P time ticket ps fs (i + 1) sum' e.1)
      ])
      | inr busy ↦ rw busy (draw_from-pick P time ticket ps fs (i + 1) sum e.1)
    ])

-- The ticket is one of those of the process picked: no fewer than all before it hold together,
-- and less than that and its own.
abbrev pub Wins : ℤ → List (ℕ × Process) → ℤ → Option (ℕ × Process) → Type 0
Wins ticket cs sum none = tickets cs sum ≤ℤ ticket
Wins ticket cs sum (some (i, p)) =
    (before after : List (ℕ × Process)) × (cs ≡ before ++ ((i, p) ∷ after))
    × (tickets before sum ≤ℤ ticket)
    × (ticket <ℤ tickets before sum +ℤ (p.priority +ℤ pos 1))

Wins-later :
    (ticket : ℤ) (i : ℕ) (p : Process) (cs : List (ℕ × Process)) (sum : ℤ)
    (o : Option (ℕ × Process))
    → Wins ticket cs (add_tickets i p sum) o
    → Wins ticket ((i, p) ∷ cs) sum o
unfolding fold
Wins-later ticket i p cs sum none h = h
Wins-later ticket i p cs sum (some (j, q)) (before, after, e, low, high) =
    ((i, p) ∷ before, after, ap (◌∷◌ (i, p)) e, low, high)

pick-Wins :
    (ticket : ℤ) (cs : List (ℕ × Process)) (sum : ℤ)
    → sum ≤ℤ ticket
    → Wins ticket cs sum (pick ticket cs sum)
unfolding pick fold
pick-Wins ticket [] sum h = h
pick-Wins ticket ((i, p) ∷ cs) sum h = elim (Bool-cases (ltb_ℤ ticket (add_tickets i p sum))) [
  | inl wins ↦ rw wins ([], cs, refl, h, (unfold add_tickets in ground arith))
  | inr loses ↦ rw loses (
      Wins-later ticket i p cs sum (pick ticket cs (add_tickets i p sum))
        (pick-Wins ticket cs (add_tickets i p sum) (ground arith)))
]

-- Tickets are not negative, and every candidate has one.
abbrev pub HasTicket : Process → Type 0
HasTicket p = pos 0 ≤ℤ p.priority

tickets-grow :
    (cs : List (ℕ × Process)) (sum : ℤ) → All (λ c. HasTicket c.1) cs → sum ≤ℤ tickets cs sum
unfolding fold add_tickets
tickets-grow [] sum h = omega arith
tickets-grow ((i, p) ∷ cs) sum h =
    omega (int_laws, tickets-grow cs (sum +ℤ (p.priority +ℤ pos 1)) h.1)

no_tickets :
    (cs : List (ℕ × Process)) → All (λ c. HasTicket c.1) cs → tickets cs (pos 0) ≤ℤ pos 0 → cs ≡ []
unfolding fold add_tickets
no_tickets [] h e = refl
no_tickets ((i, p) ∷ cs) h e =
    absurd (omega (int_laws, tickets-grow cs (pos 0 +ℤ (p.priority +ℤ pos 1)) h.1))

mod_below : (r : ℕ) (a : ℤ) → ltb_ℤ (pos 0) a ≡ true → pos (r % pos_part a) <ℤ a
mod_below r (pos n) h = let more : 0 < n = ground arith in omega (arith, mod-lt r more)
mod_below r (negsuc n) h = absurd (ground arith)

module _ (rand : ℕ → ℕ) where
  -- All tickets of the ready processes, and the one that the next draw gives.
  abbrev pub total : Sim → ℤ
  total s = tickets (candidates s.time s.processes s.is_running 0) (pos 0)

  abbrev pub winning_ticket : Sim → ℤ
  winning_ticket s = pos (rand s.draws % pos_part (total s))

  -- Nothing is drawn when no process is ready; else the ticket drawn is one of the winner's.
  abbrev pub Drawn : Sim → Option (ℕ × Process) × ℕ → Type 0
  Drawn s (none, draws) =
      Each (λ p f. is_ready s.time p f ≡ false) s.processes s.is_running × (draws ≡ s.draws)
  Drawn s (some c, draws) =
      Wins (winning_ticket s) (candidates s.time s.processes s.is_running 0) (pos 0) (some c)
      × (draws ≡ s.draws + 1)

  drawn :
      (s : Sim) (o : Option (ℕ × Process))
      → winning_ticket s <ℤ total s
      → Wins (winning_ticket s) (candidates s.time s.processes s.is_running 0) (pos 0) o
      → Drawn s (o, s.draws + 1)
  drawn s none below h = absurd (omega arith)
  drawn s (some c) below h = (h, refl)

  -- While no priority is negative: the draw faults on no flag. If no process is ready it draws
  -- nothing and picks none. Else it makes one draw, and picks the process that holds the ticket:
  -- each ready process wins on `priority + 1` of the tickets, whose sum is the total.
  pub choose-Drawn :
      (s : Sim)
      → Each (λ p f. HasTicket p) s.processes s.is_running
      → Runs (choose rand s) (Drawn s)
  unfolding choose
  choose-Drawn s each =
      let cs = candidates s.time s.processes s.is_running 0 in
      let have : All (λ c. HasTicket c.1) cs =
        candidates-All HasTicket s.time s.processes s.is_running 0
          (Each-map (λ p f. HasTicket p) _ (λ q g e r. e) s.processes s.is_running each) in
      rw (scan-fold add_tickets (λ p f. HasTicket p) s.time s.processes s.is_running 0 (pos 0) each)
        (elim (Bool-cases (ltb_ℤ (pos 0) (total s))) [
          | inl some_left ↦
              rw
                (
                  some_left,
                  draw_from-pick (λ p f. HasTicket p) s.time (winning_ticket s) s.processes
                      s.is_running 0 (pos 0) each,
                )
                (drawn s (pick (winning_ticket s) cs (pos 0))
                  (mod_below (rand s.draws) (total s) some_left)
                  (pick-Wins (winning_ticket s) cs (pos 0) (omega arith)))
          | inr none_left ↦ rw none_left (
            candidates-nil s.time (λ p f. HasTicket p) s.processes s.is_running 0 each
                (no_tickets cs have (ground arith)),
            refl,
          )
        ])
