-- ===== src/System/Ends/Servers.antt =====
-- The number of actions of the receptionist and of the waiter, from the numbers of their operations.
use so2023_trabalho.Base.{
  ℕ, zero, suc, ◌+◌, ◌*◌, false, if◌then◌else◌, ◌==◌, ℤ, pos, negsuc, minus_one, is_pos, arith,
}
use so2023_trabalho.Shared
use so2023_trabalho.Shared.{FullStat, Request, max_groups, num_tables}
use so2023_trabalho.Sync
use so2023_trabalho.Prog.{Prog, ret, ◌>>=◌, ◌>>◌, sem_down, sem_up, get, put, at}
use so2023_trabalho.Slots.{take_at_reception}
use so2023_trabalho.Receptionist
use so2023_trabalho.Receptionist.{
  Record, waitlist_room, take_waiting, decide_next_group, wait_for_group, seat_or_queue,
  decide_table_or_wait, provide_table_or_waiting_room, call_next, vacate, receive_payment, serve,
  serve_loop, set_table_occupied,
}
use so2023_trabalho.Waiter
use so2023_trabalho.Waiter.{
  Orders, no_request, note_table, pop_order, push_order, sort_request, enter_wait, receive_request,
  poll_once, unless_found, poll, wait_for_client_or_chef, inform_chef, take_food_to_table, attend,
  waiter_loop,
}
use so2023_trabalho.System.Ends.{Ends, Ends-mono, Ends->>=, Ends-at, Ends-if}
use so2023_trabalho.System.Ends.Programs.{saves_first}

decide_next_group-Ends : (x : Record) → Ends 2 (decide_next_group x)
unfolding decide_next_group take_waiting
decide_next_group-Ends x = (
  omega arith,
  λ s.
      Ends-if (s.groups_waiting == 0) (ret (minus_one, x)) (take_waiting x) 1 tt
        (Ends-at waitlist_room (pos x.list_begin) _ 1 (λ i. omega arith)),
)

wait_for_group-Ends : Ends 7 wait_for_group
unfolding wait_for_group
wait_for_group-Ends =
    saves_first (Receptionist.with_stat 0) take_at_reception 7 3 (omega arith)
      (omega arith, (omega arith, λ s. omega arith))

seat_or_queue-Ends : (x : Record) (n d : ℤ) → Ends 2 (seat_or_queue x n d)
unfolding seat_or_queue
seat_or_queue-Ends x n (pos t) = Ends-at max_groups n _ 2 (λ g. omega arith)
seat_or_queue-Ends x n (negsuc d) = Ends-at waitlist_room (pos x.list_end) _ 2 (λ i. omega arith)

provide-Ends : (x : Record) (n : ℤ) → Ends 6 (provide_table_or_waiting_room x n)
unfolding provide_table_or_waiting_room
provide-Ends x n =
    saves_first (Receptionist.with_stat Shared.assign_table)
      (seat_or_queue x n (decide_table_or_wait x n)) 6 2 (omega arith)
      (seat_or_queue-Ends x n (decide_table_or_wait x n))

call_next-Ends : (next : ℤ × Record) → Ends 6 (call_next next)
unfolding call_next
call_next-Ends (pos g, x) = provide-Ends x (pos g)
call_next-Ends (negsuc g, x) = tt

vacate-Ends : (n : ℕ) (x : Record) (g : ℕ) (table : ℤ) → Ends 10 (vacate n x g table)
unfolding vacate
vacate-Ends n x g (negsuc t) = omega arith
vacate-Ends n x g (pos t) = (
  omega arith,
  Ends-at num_tables (pos t) _ 9 λ u. (
    omega arith,
    Ends->>= (decide_next_group (set_table_occupied x t false)) call_next 8 2 6 (omega arith)
        (decide_next_group-Ends (set_table_occupied x t false)) call_next-Ends,
  ),
)

receive_payment-Ends : (n : ℕ) (x : Record) (group : ℤ) → Ends 15 (receive_payment n x group)
unfolding receive_payment
receive_payment-Ends n x group =
    saves_first (Receptionist.with_stat Shared.recv_pay)
      (at max_groups group >>= λ g. get (λ s. s.assigned_table g) >>= vacate n x g) 15 11
      (omega arith)
      (Ends-at max_groups group (λ g. get (λ s. s.assigned_table g) >>= vacate n x g) 11
        (λ g. (omega arith, λ s. vacate-Ends n x g (s.assigned_table g))))

serve-Ends : (n : ℕ) (x : Record) (q : Request) → Ends 15 (serve n x q)
unfolding serve
serve-Ends n x q =
    Ends-if (is_pos q.req_type Shared.table_req) (provide_table_or_waiting_room x q.req_group)
      (if is_pos q.req_type Shared.bill_req then receive_payment n x q.req_group else ret x) 15
      (Ends-mono (provide_table_or_waiting_room x q.req_group) 6 15 (omega arith)
        (provide-Ends x q.req_group))
      (Ends-if (is_pos q.req_type Shared.bill_req) (receive_payment n x q.req_group) (ret x) 15
        (receive_payment-Ends n x q.req_group) tt)

pub serve_loop-Ends : (n k : ℕ) (x : Record) → Ends (22 * k) (serve_loop n k x)
unfolding serve_loop
serve_loop-Ends n zero x = tt
serve_loop-Ends n (suc k) x =
    Ends->>= wait_for_group (λ q. serve n x q >>= serve_loop n k) (22 * suc k) 7 (15 + 22 * k)
      (omega arith) wait_for_group-Ends
      λ q.
        Ends->>= (serve n x q) (serve_loop n k) (15 + 22 * k) 15 (22 * k) (omega arith)
          (serve-Ends n x q) (serve_loop-Ends n k)

inform_chef-Ends : (n : ℕ) (group : ℤ) → Ends 8 (inform_chef n group)
unfolding inform_chef
inform_chef-Ends n group =
    saves_first
      (λ s.
        Waiter.with_stat Shared.inform_chef_stat (record s { food_group = group; food_order = 1 }))
      (sem_up Sync.wait_order >> (sem_down Sync.order_received >> answers)) 8 4 (omega arith)
      (
        omega arith,
        (
          omega arith,
          Ends-at max_groups group _ 2 λ g.
              (omega arith, λ s. Ends-at num_tables (s.assigned_table g) _ 1 (λ t. omega arith)),
        ),
      )
  where
    answers : Prog (Unit {0})
    answers = at max_groups group >>= λ g. get (λ s. s.assigned_table g) >>= λ table.
        at num_tables table >>= λ t. sem_up (Sync.request_received n t)

note_table-Ends : (group : ℤ) → Ends 5 (note_table group)
note_table-Ends group = (
  omega arith,
  (
    omega arith,
    (
      omega arith,
      Ends-at max_groups group
          (λ g. get (λ s. s.assigned_table g) >>= λ table. sem_up Sync.mutex >> ret table) 2
          (λ g. (omega arith, λ s. omega arith)),
    ),
  ),
)

take_food-Ends : (n : ℕ) (group : ℤ) → Ends 7 (take_food_to_table n group)
unfolding take_food_to_table
take_food-Ends n group =
    Ends->>= (note_table group)
      (λ table.
        put (λ s. record s { food_order = 0 })
        >> (at num_tables table >>= λ t. sem_up (Sync.food_arrived n t)))
      7 5 2 (omega arith) (note_table-Ends group)
      (λ table. (omega arith, Ends-at num_tables table _ 1 (λ t. omega arith)))

pub attend-Ends : (n : ℕ) (q : Request) → Ends 8 (attend n q)
unfolding attend
attend-Ends n q =
    Ends-if (is_pos q.req_type Shared.food_req) (inform_chef n q.req_group)
      (if is_pos q.req_type Shared.food_ready then take_food_to_table n q.req_group else ret tt) 8
      (inform_chef-Ends n q.req_group)
      (Ends-if (is_pos q.req_type Shared.food_ready) (take_food_to_table n q.req_group) (ret tt) 8
        (Ends-mono (take_food_to_table n q.req_group) 7 8 (omega arith)
          (take_food-Ends n q.req_group))
        tt)
