-- ===== src/System/Fuel/Servers.antt =====
-- The receptionist and the waiter ask nothing of the waiter.
use so2023_trabalho.Base.{
  ℕ, zero, suc, true, Bool, false, if◌then◌else◌, not, ◌&&◌, ◌==◌, ℤ, pos, negsuc, minus_one,
  is_minus_one, is_pos, arith,
}
use so2023_trabalho.Shared
use so2023_trabalho.Shared.{FullStat, Request, max_groups, num_tables}
use so2023_trabalho.Sync
use so2023_trabalho.Prog.{
  Prog, ret, hang, ◌>>=◌, ◌>>◌, sem_down, sem_up, get, put, save_under_mutex, at,
}
use so2023_trabalho.Slots.{take_at_reception, take_with_waiter}
use so2023_trabalho.Receptionist
use so2023_trabalho.Receptionist.{
  Record, waitlist_room, take_waiting, decide_next_group, wait_for_group, seat_or_queue,
  decide_table_or_wait, provide_table_or_waiting_room, call_next, vacate, receive_payment, serve,
  serve_loop, set_table_occupied,
}
use so2023_trabalho.Waiter
use so2023_trabalho.Waiter.{
  Orders, no_request, note_table, pop_order, push_order, sort_request, enter_wait, receive_request,
  poll_once, unless_found, poll, wait_for_client_or_chef, inform_chef, take_food_to_table, attend,
  waiter_loop,
}
use so2023_trabalho.System.Fuel.{Asks, Asks->>=, Asks-at, Asks-if, Asks-up}
use so2023_trabalho.System.Fuel.Customers.{saves_first}

decide_next_group-Asks : (x : Record) → Asks 0 (decide_next_group x)
unfolding decide_next_group take_waiting
decide_next_group-Asks x = λ s.
    Asks-if (s.groups_waiting == 0) (ret (minus_one, x)) (take_waiting x) 0 tt
      (Asks-at waitlist_room (pos x.list_begin) _ 0 (λ i. tt))

wait_for_group-Asks : Asks 0 wait_for_group
unfolding wait_for_group
wait_for_group-Asks =
    saves_first (Receptionist.with_stat 0) take_at_reception 0 (λ s. (omega arith, tt))

seat_or_queue-Asks : (x : Record) (n d : ℤ) → Asks 0 (seat_or_queue x n d)
unfolding seat_or_queue
seat_or_queue-Asks x n (pos t) =
    Asks-at max_groups n _ 0
      (λ g. Asks-up (Sync.wait_for_table g) (ret (set_table_occupied x t true)) 0 (omega arith) tt)
seat_or_queue-Asks x n (negsuc d) = Asks-at waitlist_room (pos x.list_end) _ 0 (λ i. tt)

provide-Asks : (x : Record) (n : ℤ) → Asks 0 (provide_table_or_waiting_room x n)
unfolding provide_table_or_waiting_room
provide-Asks x n =
    saves_first (Receptionist.with_stat Shared.assign_table)
      (seat_or_queue x n (decide_table_or_wait x n)) 0
      (seat_or_queue-Asks x n (decide_table_or_wait x n))

call_next-Asks : (next : ℤ × Record) → Asks 0 (call_next next)
unfolding call_next
call_next-Asks (pos g, x) = provide-Asks x (pos g)
call_next-Asks (negsuc g, x) = tt

vacate-Asks : (n : ℕ) (x : Record) (g : ℕ) (table : ℤ) → Asks 0 (vacate n x g table)
unfolding vacate
vacate-Asks n x g (negsuc t) = tt
vacate-Asks n x g (pos t) = Asks-at num_tables (pos t) _ 0 λ u.
    Asks-up (Sync.table_done n u) (decide_next_group (set_table_occupied x t false) >>= call_next) 0
      (omega arith)
      (Asks->>= (decide_next_group (set_table_occupied x t false)) call_next 0 0 0 (omega arith)
        (decide_next_group-Asks (set_table_occupied x t false)) call_next-Asks)

receive_payment-Asks : (n : ℕ) (x : Record) (group : ℤ) → Asks 0 (receive_payment n x group)
unfolding receive_payment
receive_payment-Asks n x group =
    saves_first (Receptionist.with_stat Shared.recv_pay)
      (at max_groups group >>= λ g. get (λ s. s.assigned_table g) >>= vacate n x g) 0
      (Asks-at max_groups group (λ g. get (λ s. s.assigned_table g) >>= vacate n x g) 0
        (λ g s. vacate-Asks n x g (s.assigned_table g)))

serve-Asks : (n : ℕ) (x : Record) (q : Request) → Asks 0 (serve n x q)
unfolding serve
serve-Asks n x q =
    Asks-if (is_pos q.req_type Shared.table_req) (provide_table_or_waiting_room x q.req_group)
      (if is_pos q.req_type Shared.bill_req then receive_payment n x q.req_group else ret x) 0
      (provide-Asks x q.req_group)
      (Asks-if (is_pos q.req_type Shared.bill_req) (receive_payment n x q.req_group) (ret x) 0
        (receive_payment-Asks n x q.req_group) tt)

pub serve_loop-Asks : (n k : ℕ) (x : Record) → Asks 0 (serve_loop n k x)
unfolding serve_loop
serve_loop-Asks n zero x = tt
serve_loop-Asks n (suc k) x =
    Asks->>= wait_for_group (λ q. serve n x q >>= serve_loop n k) 0 0 0 (omega arith)
      wait_for_group-Asks
      λ q.
        Asks->>= (serve n x q) (serve_loop n k) 0 0 0 (omega arith) (serve-Asks n x q)
          (serve_loop-Asks n k)

sort_request-Asks : (q : Orders) (incoming : Request) → Asks 0 (sort_request q incoming)
unfolding sort_request push_order
sort_request-Asks q incoming =
    Asks-if (is_pos incoming.req_type Shared.food_req)
      (push_order q incoming >>= λ q'. ret (no_request, q'))
      (if is_pos incoming.req_type Shared.food_ready then ret (incoming, q) else strange) 0
      (Asks->>= (push_order q incoming) (λ q'. ret (no_request, q')) 0 0 0 (omega arith)
        (Asks-at num_tables (pos q.q_write_next) _ 0 (λ i. tt)) (λ q'. tt))
      (Asks-if (is_pos incoming.req_type Shared.food_ready) (ret (incoming, q)) strange 0 tt tt)
  where
    strange : Prog (Request × Orders)
    strange = sem_down Sync.mutex >> hang

receive_request-Asks : (q : Orders) → Asks 0 (receive_request q)
unfolding receive_request enter_wait
receive_request-Asks q = λ s.
    Asks->>= (enter_wait s.st.waiter_stat) (λ _. take_with_waiter >>= sort_request q) 0 0 0
      (omega arith)
      (Asks-if (s.st.waiter_stat == Shared.wait_for_request) (ret tt)
        (save_under_mutex (Waiter.with_stat Shared.wait_for_request)) 0 tt (omega arith, tt))
      λ _.
        Asks->>= take_with_waiter (sort_request q) 0 0 0 (omega arith) (λ s. (omega arith, tt))
          (sort_request-Asks q)

poll_once-Asks : (busy : Bool) (q : Orders) → Asks 0 (poll_once busy q)
unfolding poll_once pop_order
poll_once-Asks busy q =
    Asks-if (not (q.q_length == 0) && not busy) (pop_order q) (receive_request q) 0
      (Asks-at num_tables (pos q.q_read_next) _ 0 (λ i. tt)) (receive_request-Asks q)

poll-Asks : (f : ℕ) (busy : Bool) (q : Orders) → Asks 0 (poll f busy q)
unfolding poll
poll-Asks zero busy q = tt
poll-Asks (suc f) busy q =
    Asks->>= (poll_once busy q) (unless_found (poll f busy)) 0 0 0 (omega arith)
      (poll_once-Asks busy q)
      λ (x, q').
        Asks-if (is_minus_one x.req_type) (poll f busy q') (ret (x, q')) 0 (poll-Asks f busy q') tt

inform_chef-Asks : (n : ℕ) (group : ℤ) → Asks 0 (inform_chef n group)
unfolding inform_chef
inform_chef-Asks n group =
    saves_first
      (λ s.
        Waiter.with_stat Shared.inform_chef_stat (record s { food_group = group; food_order = 1 }))
      (sem_up Sync.wait_order >> (sem_down Sync.order_received >> answers)) 0
      (
        omega arith,
        Asks-at max_groups group _ 0 (λ g s.
            Asks-at num_tables (s.assigned_table g) _ 0
              (λ t. Asks-up (Sync.request_received n t) (ret tt) 0 (omega arith) tt)),
      )
  where
    answers : Prog (Unit {0})
    answers = at max_groups group >>= λ g. get (λ s. s.assigned_table g) >>= λ table.
        at num_tables table >>= λ t. sem_up (Sync.request_received n t)

take_food-Asks : (n : ℕ) (group : ℤ) → Asks 0 (take_food_to_table n group)
unfolding take_food_to_table
take_food-Asks n group =
    Asks->>= (note_table group)
      (λ table.
        put (λ s. record s { food_order = 0 })
        >> (at num_tables table >>= λ t. sem_up (Sync.food_arrived n t)))
      0 0 0 (omega arith)
      (Asks-at max_groups group
        (λ g. get (λ s. s.assigned_table g) >>= λ table. sem_up Sync.mutex >> ret table) 0
        (λ g s. (omega arith, tt)))
      (λ table.
        Asks-at num_tables table _ 0
          (λ t. Asks-up (Sync.food_arrived n t) (ret tt) 0 (omega arith) tt))

attend-Asks : (n : ℕ) (q : Request) → Asks 0 (attend n q)
unfolding attend
attend-Asks n q =
    Asks-if (is_pos q.req_type Shared.food_req) (inform_chef n q.req_group)
      (if is_pos q.req_type Shared.food_ready then take_food_to_table n q.req_group else ret tt) 0
      (inform_chef-Asks n q.req_group)
      (Asks-if (is_pos q.req_type Shared.food_ready) (take_food_to_table n q.req_group) (ret tt) 0
        (take_food-Asks n q.req_group) tt)

pub waiter_loop-Asks : (fuel n k : ℕ) (q : Orders) → Asks 0 (waiter_loop fuel n k q)
unfolding waiter_loop wait_for_client_or_chef
waiter_loop-Asks fuel n zero q = tt
waiter_loop-Asks fuel n (suc k) q = λ s.
    Asks->>= (poll fuel (not (s.food_order == 0)) q)
      (λ (x, q'). attend n x >> waiter_loop fuel n k q') 0 0 0 (omega arith)
      (poll-Asks fuel (not (s.food_order == 0)) q)
      (λ (x, q').
        Asks->>= (attend n x) (λ _. waiter_loop fuel n k q') 0 0 0 (omega arith) (attend-Asks n x)
          (λ _. waiter_loop-Asks fuel n k q'))
