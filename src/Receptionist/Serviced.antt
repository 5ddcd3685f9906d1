-- ===== src/Receptionist/Serviced.antt =====
-- What the desk promises of a request that is served, and the arrival of a group.
use so2023_trabalho.Base.{
  ℕ, ◌+◌, ◌<◌, ◌≡◌, ◌≢◌, refl, ap, ◌∙◌, ◌⊎◌, inl, inr, true, false, none, List, [], ◌∷◌, update,
  pos, arith,
}
use so2023_trabalho.Shared.{FullStat, Request, max_groups, num_tables, assign_table}
use so2023_trabalho.Sync.{mutex, wait_for_table}
use so2023_trabalho.Prog.{World, Outcome, done, run}
use so2023_trabalho.Prog.Runs.{saved, raise}
use so2023_trabalho.Receptionist.{
  Record, with_stat, is_table_occupied, set_table_occupied, decide_table_or_wait, seat_or_queue,
  provide_table_or_waiting_room,
}
use so2023_trabalho.Receptionist.Desk.{to_arrive, Desk, ask, sit, join, Serves, seats, queues}
use so2023_trabalho.Receptionist.Tables.{decide-IsDecision}
use so2023_trabalho.Receptionist.Holds.{Holds, sit-Holds, join-Holds, list_end-lt}
use so2023_trabalho.Receptionist.Service.{
  assign, recount, enqueue, run-provide, run-seat, run-queue,
}

-- The reception between two requests: the record and the shared state hold what the desk says, and
-- nobody waits while a table is free.
pub record Reception (n : ℕ) (d : Desk) (r : Record) (s : FullStat) : Type 0 where
  pub holds : Holds n d r s.assigned_table s.groups_waiting
  pub busy : (d.queue ≡ []) ⊎ ((t : ℕ) → t < num_tables → d.seat t ≢ none)

-- The semaphores are raised in turn.
abbrev pub raise_all : List ℕ → (ℕ → ℕ) → ℕ → ℕ
raise_all [] sem = sem
raise_all (s ∷ ss) sem = raise_all ss (update sem s (sem s + 1))

-- The run ends with a record and a world that hold what the desk promises, once the semaphores of
-- that promise are raised and no other.
abbrev pub Serviced : ℕ → Desk → Request → World → Outcome Record → Type 0
Serviced n d req w o =
    (r : Record) × (v : World) × (signals : List ℕ) × (e : Desk) × (o ≡ done r v)
    × Serves n d req signals e
    × Reception n e r v.full
    × (v.sem ≡ raise_all signals w.sem)

-- A group is sat down where the decision is for a table.
pub run-provide_seat :
    (r : Record) (w : World) (g t : ℕ)
    → w.sem mutex ≢ 0
    → g < max_groups
    → decide_table_or_wait r (pos g) ≡ pos t
    → run (provide_table_or_waiting_room r (pos g)) w
      ≡ done
          (set_table_occupied r t true)
          (raise (wait_for_table g) (assign g (pos t) (saved (with_stat assign_table) w)))
run-provide_seat r w g t free lt e =
    run-provide r w (pos g) free
    ∙ ap (λ x. run (seat_or_queue r (pos g) x) (saved (with_stat assign_table) w)) e
    ∙ run-seat r (saved (with_stat assign_table) w) g t lt

module _ (n : ℕ) (d : Desk) (r : Record) (w : World) (v : Reception n d r w.full)
    (free : w.sem mutex ≢ 0) where
  open v use {holds}

  all_taken :
      is_table_occupied r 0 ≡ true
      → is_table_occupied r 1 ≡ true
      → (t : ℕ) → t < num_tables
      → d.seat t ≢ none
  all_taken a b t lt e =
      ground (arith, holds.occupied 0 (omega arith), holds.occupied 1 (omega arith))

  no_queue : (t : ℕ) → t < 2 → is_table_occupied r t ≡ false → d.queue ≡ []
  no_queue t lt vacant = elim v.busy [
    | inl e ↦ e
    | inr all ↦ absurd (all t lt (ground (arith, holds.occupied t lt)))
  ]

  pub no_free : (h : ℕ) (q : List ℕ) → d.queue ≡ h ∷ q → (t : ℕ) → t < num_tables → d.seat t ≢ none
  no_free h q eq = elim v.busy [ inl e ↦ cc | inr all ↦ all ]

  -- A group that arrives is seated at a free table or waits.
  pub arrival-Serviced :
      (g : ℕ)
      → g < n
      → d.phase g ≡ to_arrive
      → Serviced n d (ask g) w (run (provide_table_or_waiting_room r (pos g)) w)
  arrival-Serviced g lt new = elim (decide-IsDecision r (pos g) holds.tables) [
    | inl (e, a, b) ↦ (
      enqueue (pos g) r,
      recount (λ c. c + 1) (saved (with_stat assign_table) w),
      [],
      join g d,
      run-provide r w (pos g) free
          ∙ ap (λ x. run (seat_or_queue r (pos g) x) (saved (with_stat assign_table) w)) e
          ∙ run-queue r (saved (with_stat assign_table) w) (pos g)
              (omega (arith, list_end-lt holds g lt new)),
      queues g new (all_taken a b),
      record { holds = join-Holds holds g lt new; busy = inr (all_taken a b) },
      refl,
    )
    | inr (t, e, ht, vacant, _) ↦ (
      set_table_occupied r t true,
      raise (wait_for_table g) (assign g (pos t) (saved (with_stat assign_table) w)),
      wait_for_table g ∷ [],
      sit g t d,
      run-provide_seat r w g t free (omega arith) e,
      seats g t new (no_queue t ht vacant) ht (ground (arith, holds.occupied t ht)),
      record {
        holds =
            sit-Holds holds g t lt ht (ground (arith, holds.occupied t ht)) (λ u q. cc)
              (rw (no_queue t ht vacant) tt);
        busy = inl (no_queue t ht vacant);
      },
      refl,
    )
  ]
