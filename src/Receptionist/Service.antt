-- ===== src/Receptionist/Service.antt =====
-- What the operations of the receptionist do to the world when they run.
use so2023_trabalho.Base.{
  ℕ, ◌+◌, ◌-◌, ◌%◌, ◌<◌, ◌≡◌, ◌≢◌, refl, ◌∙◌, true, false, update, ℤ, pos, minus_one, byte_of,
  lt→ltb, arith,
}
use so2023_trabalho.Shared.{max_groups, num_tables, assign_table, recv_pay}
use so2023_trabalho.Sync.{mutex, wait_for_table, table_done}
use so2023_trabalho.Prog.{World, done, run, ◌>>=◌, at, get}
use so2023_trabalho.Prog.Runs.{saved, raise, run-save_under_mutex}
use so2023_trabalho.Receptionist.{
  Record, with_stat, set_table_occupied, decide_table_or_wait, seat_or_queue,
  provide_table_or_waiting_room, vacate, receive_payment, waitlist_length, waitlist_room,
}

abbrev pub assign : ℕ → ℤ → World → World
assign g t w = record w {
  full = record w.full { assigned_table = update w.full.assigned_table g t };
}

abbrev pub recount : (ℕ → ℕ) → World → World
recount f w = record w { full = record w.full { groups_waiting = f w.full.groups_waiting } }

abbrev pub enqueue : ℤ → Record → Record
enqueue n r = record r {
  waitlist = update r.waitlist r.list_end (byte_of n);
  list_end = (r.list_end + 1) % waitlist_length;
}

abbrev pub dequeue : Record → Record
dequeue r = record r { list_begin = (r.list_begin + 1) % waitlist_length }

module _ (r : Record) (w : World) where
  pub run-provide :
      (n : ℤ)
      → w.sem mutex ≢ 0
      → run (provide_table_or_waiting_room r n) w
        ≡ run (seat_or_queue r n (decide_table_or_wait r n)) (saved (with_stat assign_table) w)
  unfolding provide_table_or_waiting_room
  run-provide n free =
      run-save_under_mutex (with_stat assign_table) (seat_or_queue r n (decide_table_or_wait r n)) w
        free

  pub run-seat :
      (g t : ℕ)
      → g < max_groups
      → run (seat_or_queue r (pos g) (pos t)) w
        ≡ done (set_table_occupied r t true) (raise (wait_for_table g) (assign g (pos t) w))
  unfolding seat_or_queue run
  run-seat g t lt = rw (lt→ltb g max_groups lt) refl

  pub run-queue :
      (n : ℤ)
      → r.list_end < waitlist_room
      → run (seat_or_queue r n minus_one) w ≡ done (enqueue n r) (recount (λ c. c + 1) w)
  unfolding seat_or_queue run
  run-queue n lt = rw (lt→ltb r.list_end waitlist_room lt) refl

  pub run-receive :
      (n g : ℕ)
      → w.sem mutex ≢ 0
      → g < max_groups
      → run (receive_payment n r (pos g)) w
        ≡ run (vacate n r g (w.full.assigned_table g)) (saved (with_stat recv_pay) w)
  unfolding receive_payment run
  run-receive n g free lt =
      let rest = at max_groups (pos g) >>= λ i. get (λ s. s.assigned_table i) >>= vacate n r i in
      run-save_under_mutex (with_stat recv_pay) rest w free ∙ rw (lt→ltb g max_groups lt) refl

  -- Nobody waits.
  pub run-vacate_empty :
      (n g t : ℕ)
      → t < num_tables
      → w.full.groups_waiting ≡ 0
      → run (vacate n r g (pos t)) w
        ≡ done (set_table_occupied r t false) (raise (table_done n t) (assign g minus_one w))
  unfolding vacate run
  run-vacate_empty n g t lt none = rw (lt→ltb t num_tables lt) (ground arith)

  -- The group that waits longest is called.
  pub run-vacate_call :
      (n g t h : ℕ)
      → t < num_tables
      → w.full.groups_waiting ≢ 0
      → r.list_begin < waitlist_room
      → r.waitlist r.list_begin ≡ h
      → h < max_groups
      → run (vacate n r g (pos t)) w
        ≡ run
            (provide_table_or_waiting_room (dequeue (set_table_occupied r t false)) (pos h))
            (recount (λ c. c - 1) (raise (table_done n t) (assign g minus_one w)))
  unfolding vacate run
  run-vacate_call n g t h lt some inside e small = rw (lt→ltb t num_tables lt) (ground arith)
