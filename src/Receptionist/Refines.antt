-- ===== src/Receptionist/Refines.antt =====
-- The receptionist and the desk, for every request that a group may make.
use so2023_trabalho.Base.{
  ℕ, ◌-◌, ◌<◌, ◌≡◌, ◌≢◌, refl, ap, ◌∙◌, inl, inr, true, false, List, [], ◌∷◌, ◌==◌, Bool-cases,
  length, update, pos, minus_one, arith,
}
use so2023_trabalho.Shared.{Request, max_groups, assign_table, recv_pay}
use so2023_trabalho.Sync.{mutex, wait_for_table, table_done}
use so2023_trabalho.Prog.{World, run}
use so2023_trabalho.Prog.Runs.{saved, raise}
use so2023_trabalho.Receptionist.{
  Record, with_stat, set_table_occupied, decide_table_or_wait, receive_payment, vacate, serve,
}
use so2023_trabalho.Receptionist.Desk.{
  waiting, at_table, Desk, pay, sit, go, leaves, hands_on, Allowed, arrives, pays,
}
use so2023_trabalho.Receptionist.Tables.{decide-IsDecision}
use so2023_trabalho.Receptionist.Waitlist.{NotIn}
use so2023_trabalho.Receptionist.Arrivals.{arrivals-le}
use so2023_trabalho.Receptionist.Holds.{Holds, sit-Holds, go-Holds, call-Holds}
use so2023_trabalho.Receptionist.Service.{
  assign, recount, dequeue, run-receive, run-vacate_empty, run-vacate_call,
}
use so2023_trabalho.Receptionist.Serviced.{
  Reception, Serviced, run-provide_seat, no_free, arrival-Serviced,
}

module _ (n : ℕ) (d : Desk) (r : Record) (w : World) (v : Reception n d r w.full)
    (free : w.sem mutex ≢ 0) where
  open v use {holds}

  run-receive_at :
      (g t : ℕ)
      → g < max_groups
      → d.phase g ≡ at_table t
      → run (receive_payment n r (pos g)) w
        ≡ run (vacate n r g (pos t)) (saved (with_stat recv_pay) w)
  run-receive_at g t lt e =
      run-receive r w n g free lt
      ∙ ap (λ x. run (vacate n r g x) (saved (with_stat recv_pay) w))
          (ground (arith, holds.assigns g))

  -- The only table that is free after group `g` has gone is the one that it left.
  decide_vacant :
      (g t h : ℕ) (q : List ℕ)
      → d.phase g ≡ at_table t
      → d.queue ≡ h ∷ q
      → decide_table_or_wait (dequeue (set_table_occupied r t false)) (pos h) ≡ pos t
  decide_vacant g t h q e eq =
      elim (decide-IsDecision (dequeue (set_table_occupied r t false)) (pos h) after.tables) [
        | inl (_, a, b) ↦
            ground (arith, ht, after.occupied 0 (omega arith), after.occupied 1 (omega arith))
        | inr (u, eu, hu, vacant, _) ↦ elim (Bool-cases (t == u)) [
          | inl same ↦ ground arith
          | inr other ↦
              absurd (no_free n d r w v free h q eq u hu (ground (arith, after.occupied u hu)))
        ]
      ]
    where
      ht : t < 2
      ht = (holds.placed g t (holds.seated g t e)).1

      after :
          Holds n
            (record (go g t d) { queue = q })
            (dequeue (set_table_occupied r t false))
            (update w.full.assigned_table g minus_one)
            (w.full.groups_waiting - 1)
      after = (call-Holds (go-Holds holds g t e) h q eq).0

  -- A group that pays gets up, and the group that waits longest, if any, gets its table.
  leave-Serviced :
      (g t : ℕ)
      → g < n
      → d.phase g ≡ at_table t
      → d.queue ≡ []
      → Serviced n d (pay g) w (run (receive_payment n r (pos g)) w)
  leave-Serviced g t lt e eq = (
    set_table_occupied r t false,
    raise (table_done n t) (assign g minus_one (saved (with_stat recv_pay) w)),
    table_done n t ∷ [],
    go g t d,
    run-receive_at g t (omega (arith, holds.few)) e
        ∙ run-vacate_empty r (saved (with_stat recv_pay) w) n g t
            (holds.placed g t (holds.seated g t e)).1 (omega (arith, holds.counted, ap length eq)),
    leaves g t e eq,
    record { holds = go-Holds holds g t e; busy = inl eq },
    refl,
  )

  hand_on-Serviced :
      (g t h : ℕ) (q : List ℕ)
      → g < n
      → d.phase g ≡ at_table t
      → d.queue ≡ h ∷ q
      → Serviced n d (pay g) w (run (receive_payment n r (pos g)) w)
  hand_on-Serviced g t h q lt e eq = (
    set_table_occupied (dequeue (set_table_occupied r t false)) t true,
    raise (wait_for_table h) (assign h (pos t) (saved (with_stat assign_table) left)),
    table_done n t ∷ wait_for_table h ∷ [],
    sit h t (record (go g t d) { queue = q }),
    run-receive_at g t (omega (arith, holds.few)) e
        ∙ run-vacate_call r (saved (with_stat recv_pay) w) n g t h ht
            (omega (arith, holds.counted, ap length eq))
            (omega (arith, holds.ends, holds.once, arrivals-le n d.phase, holds.few))
            (call-Holds holds h q eq).1 (omega (arith, called.2, holds.few))
        ∙ run-provide_seat (dequeue (set_table_occupied r t false)) left h t (ground arith)
            (omega (arith, called.2, holds.few)) (decide_vacant g t h q e eq),
    hands_on g t h q e eq,
    record {
      holds =
          sit-Holds called.0 h t called.2 ht (ground arith) (λ u p. ground (arith, called.3))
            called.4;
      busy = inr λ u hu p. elim (Bool-cases (t == u)) [
        | inl same ↦ ground arith
        | inr other ↦ no_free n d r w v free h q eq u hu (ground arith)
      ];
    },
    refl,
  )
    where
      ht : t < 2
      ht = (holds.placed g t (holds.seated g t e)).1

      left : World
      left =
          recount (λ c. c - 1)
            (raise (table_done n t) (assign g minus_one (saved (with_stat recv_pay) w)))

      called :
          Holds n
            (record (go g t d) { queue = q })
            (dequeue (set_table_occupied r t false))
            (update w.full.assigned_table g minus_one)
            (w.full.groups_waiting - 1)
          × ((set_table_occupied r t false).waitlist (set_table_occupied r t false).list_begin ≡ h)
          × (h < n)
          × ((go g t d).phase h ≡ waiting)
          × NotIn h q
      called = call-Holds (go-Holds holds g t e) h q eq

  payment-Serviced :
      (q : List ℕ) (g t : ℕ)
      → d.queue ≡ q
      → g < n
      → d.phase g ≡ at_table t
      → Serviced n d (pay g) w (run (receive_payment n r (pos g)) w)
  payment-Serviced [] g t eq lt e = leave-Serviced g t lt e eq
  payment-Serviced (h ∷ q) g t eq lt e = hand_on-Serviced g t h q lt e eq

  serve-Serviced_of : {req : Request} → Allowed n d req → Serviced n d req w (run (serve n r req) w)
  unfolding serve
  serve-Serviced_of (arrives g lt new) = arrival-Serviced n d r w v free g lt new
  serve-Serviced_of (pays g t lt e) = payment-Serviced d.queue g t refl lt e

-- From a reception in order and with the mutex free, serving a request that a group may make comes
-- to an end, and the record, the shared state and the raised semaphores are those that the desk
-- promises: an arrival gets a free table, or joins the queue where both are taken; a payment frees
-- the table of the group, which goes at once to the group that waits longest, if any.
pub serve-Serviced :
    (n : ℕ) (d : Desk) (r : Record) (w : World) (req : Request)
    → Reception n d r w.full
    → w.sem mutex ≢ 0
    → Allowed n d req
    → Serviced n d req w (run (serve n r req) w)
serve-Serviced n d r w req v free ok = serve-Serviced_of n d r w v free ok
