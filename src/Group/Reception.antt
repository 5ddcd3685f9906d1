-- ===== src/Group/Reception.antt =====
-- A group of src/semSharedMemGroup.c at the reception, and the receptionist of
-- src/semSharedMemReceptionist.c who reads what it asks for.
use so2023_trabalho.Base.{
  ℕ, ◌+◌, ◌-◌, ◌<◌, ◌≡◌, ◌≢◌, refl, ◌∙◌, ap, ==_ne, lt→ltb, update, ℤ, pos, arith,
}
use mathlib.Core.Path.{fun_ext}
use so2023_trabalho.Shared
use so2023_trabalho.Shared.{FullStat, Request, max_groups, num_tables}
use so2023_trabalho.Sync.{
  mutex, receptionist_req, receptionist_request_possible, wait_for_table, table_done,
}
use so2023_trabalho.Prog.{
  Prog, ret, ◌>>=◌, ◌>>◌, sem_down, save_under_mutex, at, World, done, blocked, run,
}
use so2023_trabalho.Prog.Runs.{saved, raise, run-save_under_mutex, run-at, run-raised, run-red}
use so2023_trabalho.Slots.{place_at_reception}
use so2023_trabalho.Group.{with_stat, check_in_at_reception, check_out_at_reception}
use so2023_trabalho.Receptionist
use so2023_trabalho.Receptionist.{wait_for_group}
use so2023_trabalho.Receptionist.Desk.{ask, pay}
use so2023_trabalho.Receptionist.Start.{run-wait_for_group}

-- The world after a request is placed at the reception.
abbrev pub asked : Request → World → World
asked q w = raise receptionist_req (record w {
  full = record w.full { receptionist_request = q };
  sem = update w.sem receptionist_request_possible (w.sem receptionist_request_possible - 1);
})

-- The world after the receptionist has read the request: the semaphores are as before it was placed.
abbrev pub heard : Request → World → World
heard q w =
    record (saved (Receptionist.with_stat 0)
      (record w { full = record w.full { receptionist_request = q } })) { sem = w.sem }

run-place :
    {A : Type 0} (q : Request) (k : Prog A) (w : World)
    → w.sem receptionist_request_possible ≢ 0
    → run (place_at_reception q >> k) w ≡ run k (asked q w)
unfolding run
run-place q k w open_place = rw (==_ne (w.sem receptionist_request_possible) 0 open_place, run) refl

slots_restored :
    (sem : ℕ → ℕ) (s : ℕ)
    → sem 3 ≢ 0
    → update
        (update (update (update sem 3 (sem 3 - 1)) 2 (sem 2 + 1)) 2 (sem 2 + 1 - 1))
        3
        (sem 3 - 1 + 1)
        s
      ≡ sem s
slots_restored sem s free = ground arith

run-heard :
    (q : Request) (w : World)
    → w.sem mutex ≢ 0
    → w.sem receptionist_request_possible ≢ 0
    → run wait_for_group (asked q w) ≡ done q (heard q w)
run-heard q w free open_place =
    run-wait_for_group (asked q w) free (omega arith)
    ∙ ap (λ m. done q (record (heard q w) { sem = m }))
        (fun_ext (λ s. slots_restored w.sem s open_place))

other_sem :
    (sem : ℕ → ℕ) (s : ℕ) → 3 < s → update (update sem 3 (sem 3 - 1)) 2 (sem 2 + 1) s ≡ sem s
other_sem sem s h = ground arith

-- With the mutex and the place for a request free, and no signal left from before: a group that checks
-- in saves its state, places its request and waits for its table; the receptionist's next request is
-- exactly this one, and the semaphores are then as before; and once the group is given its table in any
-- world `v`, it goes on.
pub checks_in :
    (g : ℕ) (w v : World)
    → g < max_groups
    → w.sem mutex ≢ 0
    → w.sem receptionist_request_possible ≢ 0
    → w.sem (wait_for_table g) ≡ 0
    → (k : Prog (Unit {0})) × (run (check_in_at_reception g) w
        ≡ blocked (wait_for_table g) k (asked (ask g) (saved (with_stat g Shared.at_reception) w)))
      × (run wait_for_group (asked (ask g) (saved (with_stat g Shared.at_reception) w))
          ≡ done (ask g) (heard (ask g) (saved (with_stat g Shared.at_reception) w)))
      × (run k (raise (wait_for_table g) v) ≡ done tt v)
unfolding check_in_at_reception run
checks_in g w v hg free open_place red = (
  sem_down (wait_for_table g),
  run-at max_groups g (λ h. save_under_mutex (with_stat h Shared.at_reception) >> asks h) w hg
      ∙ run-save_under_mutex (with_stat g Shared.at_reception) (asks g) w free
      ∙ run-place (ask g) (sem_down (wait_for_table g)) (saved (with_stat g Shared.at_reception) w)
          open_place
      ∙ run-red (wait_for_table g) (ret tt)
          (asked (ask g) (saved (with_stat g Shared.at_reception) w))
          (other_sem w.sem (wait_for_table g) (omega arith) ∙ red),
  run-heard (ask g) (saved (with_stat g Shared.at_reception) w) free open_place,
  run-raised (wait_for_table g) (ret tt) v,
)
  where
    asks : ℕ → Prog (Unit {0})
    asks h = place_at_reception (ask g) >> sem_down (wait_for_table h)

-- With the mutex and the place for a request free, and no signal left from before: a group at table `t`
-- that checks out saves its state, places its request and waits at its table; the receptionist's next
-- request is exactly this one, and the semaphores are then as before; and once the table is signalled
-- in any world `v` where the mutex is free, the group saves that it leaves and ends.
pub checks_out :
    (n g t : ℕ) (w v : World)
    → g < max_groups
    → t < num_tables
    → w.full.assigned_table g ≡ pos t
    → w.sem mutex ≢ 0
    → w.sem receptionist_request_possible ≢ 0
    → w.sem (table_done n t) ≡ 0
    → v.sem mutex ≢ 0
    → (k : Prog (Unit {0})) × (run (check_out_at_reception n g) w
        ≡ blocked (table_done n t) k (asked (pay g) (saved (with_stat g Shared.checkout) w)))
      × (run wait_for_group (asked (pay g) (saved (with_stat g Shared.checkout) w))
          ≡ done (pay g) (heard (pay g) (saved (with_stat g Shared.checkout) w)))
      × (run k (raise (table_done n t) v) ≡ done tt (saved (with_stat g Shared.leaving) v))
unfolding check_out_at_reception run
checks_out n g t w v hg ht e free open_place red again = (
  sem_down (table_done n t) >> leaves,
  rw (lt→ltb g max_groups hg) (
      run-save_under_mutex (with_stat g Shared.checkout)
        (place_at_reception (pay g) >> waits (w.full.assigned_table g)) w free
      ∙ run-place (pay g) (waits (w.full.assigned_table g)) (saved (with_stat g Shared.checkout) w)
          open_place
      ∙ ap (λ x. run (waits x) there) e
      ∙ run-at num_tables t (λ u. sem_down (table_done n u) >> leaves) there ht
      ∙ run-red (table_done n t) leaves there
          (other_sem w.sem (table_done n t) (omega arith) ∙ red)),
  run-heard (pay g) (saved (with_stat g Shared.checkout) w) free open_place,
  run-raised (table_done n t) leaves v
      ∙ run-save_under_mutex (with_stat g Shared.leaving) (ret tt) v again,
)
  where
    leaves : Prog (Unit {0})
    leaves = save_under_mutex (with_stat g Shared.leaving)

    waits : ℤ → Prog (Unit {0})
    waits table = at num_tables table >>= λ u. sem_down (table_done n u) >> leaves

    there : World
    there = asked (pay g) (saved (with_stat g Shared.checkout) w)
