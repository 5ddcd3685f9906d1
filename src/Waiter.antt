-- ===== src/Waiter.antt =====
-- src/semSharedMemWaiter.c: the waiter, between the groups and the chef. `Orders` is the static
-- queue of `waitForClientOrChef`.
pub mod Queue
pub mod Stock
pub mod Calls
pub mod Returns
use so2023_trabalho.Base.{
  ℕ, zero, suc, ◌+◌, ◌-◌, ◌*◌, ◌%◌, Bool, true, false, not, ◌&&◌, ◌==◌, if◌then◌else◌, update, ℤ,
  pos, negsuc, minus_one, is_minus_one, is_pos,
}
use so2023_trabalho.Shared.{
  FullStat, Request, max_groups, num_tables, food_req, food_ready, wait_for_request,
  inform_chef_stat, take_to_table,
}
use so2023_trabalho.Sync.{mutex, wait_order, order_received, request_received, food_arrived}
use so2023_trabalho.Slots.{take_with_waiter}
use so2023_trabalho.Prog.{
  Prog, ret, hang, tired, ◌>>=◌, ◌>>◌, sem_down, sem_up, get, put, save_log, save_under_mutex, at,
}

pub record Orders : Type 0 where
  pub queue : ℕ → Request
  pub q_length : ℕ
  pub q_read_next : ℕ
  pub q_write_next : ℕ

abbrev pub no_request : Request
no_request = record { req_type = minus_one; req_group = minus_one }

-- Static storage starts as zeros.
unfoldable pub init_orders : Orders
init_orders = record {
  queue = λ _. record { req_type = pos 0; req_group = pos 0 };
  q_length = 0;
  q_read_next = 0;
  q_write_next = 0;
}

abbrev pub with_stat : ℕ → FullStat → FullStat
with_stat x s = record s { st = record s.st { waiter_stat = x } }

unfoldable pub pop_order : Orders → Prog (Request × Orders)
pop_order q = do
  i ← at num_tables (pos q.q_read_next)
  ret (
    q.queue i,
    record q { q_read_next = (q.q_read_next + 1) % num_tables; q_length = q.q_length - 1 },
  )

unfoldable pub push_order : Orders → Request → Prog Orders
push_order q incoming = do
  i ← at num_tables (pos q.q_write_next)
  ret (record q {
    queue = update q.queue i incoming;
    q_write_next = (q.q_write_next + 1) % num_tables;
    q_length = q.q_length + 1;
  })

-- What is done with an incoming request: an order is queued, food that is ready is returned.
unfoldable pub sort_request : Orders → Request → Prog (Request × Orders)
unfolding push_order
sort_request q incoming =
    if is_pos incoming.req_type food_req
    then (do q' ← push_order q incoming; ret (no_request, q'))
    else if is_pos incoming.req_type food_ready
    then ret (incoming, q)
    else (do sem_down mutex; hang)

-- The new state is saved only if it is new.
unfoldable pub enter_wait : ℕ → Prog (Unit {0})
enter_wait stat =
    if stat == wait_for_request then ret tt else save_under_mutex (with_stat wait_for_request)

unfoldable pub receive_request : Orders → Prog (Request × Orders)
unfolding enter_wait sort_request
receive_request q = do
  stat ← get (λ s. s.st.waiter_stat)
  enter_wait stat
  incoming ← take_with_waiter
  sort_request q incoming

-- The body of the `while` loop: `outgoing` and the queue after it.
unfoldable pub poll_once : Bool → Orders → Prog (Request × Orders)
unfolding pop_order receive_request
poll_once chef_is_busy q =
    if not (q.q_length == 0) && not chef_is_busy then pop_order q else receive_request q

-- The condition of the `while` loop: no request to return has been found.
abbrev pub unless_found :
    (Orders → Prog (Request × Orders)) → Request × Orders → Prog (Request × Orders)
unless_found again (outgoing, q) =
    if is_minus_one outgoing.req_type then again q else ret (outgoing, q)

-- The `while` loop. It has no bound in the source; `f` is the number of rounds that are looked at.
unfoldable pub poll : ℕ → Bool → Orders → Prog (Request × Orders)
unfolding poll_once
poll zero chef_is_busy q = tired
poll (suc f) chef_is_busy q = poll_once chef_is_busy q >>= unless_found (poll f chef_is_busy)

unfoldable pub wait_for_client_or_chef : ℕ → Orders → Prog (Request × Orders)
unfolding poll
wait_for_client_or_chef f q = do
  food_order ← get (λ s. s.food_order)
  poll f (not (food_order == 0)) q

-- `n` is the number of groups.
unfoldable pub inform_chef : ℕ → ℤ → Prog (Unit {0})
inform_chef n group = do
  save_under_mutex
      (λ s. with_stat inform_chef_stat (record s { food_group = group; food_order = 1 }))
  sem_up wait_order
  sem_down order_received
  g ← at max_groups group
  table ← get (λ s. s.assigned_table g)
  t ← at num_tables table
  sem_up (request_received n t)

-- The new state is saved and the table of the group read under the mutex.
abbrev pub note_table : ℤ → Prog ℤ
note_table group = do
  sem_down mutex
  put (with_stat take_to_table)
  save_log
  g ← at max_groups group
  table ← get (λ s. s.assigned_table g)
  sem_up mutex
  ret table

unfoldable pub take_food_to_table : ℕ → ℤ → Prog (Unit {0})
take_food_to_table n group = do
  table ← note_table group
  put (λ s. record s { food_order = 0 })
  t ← at num_tables table
  sem_up (food_arrived n t)

-- The `switch` of `main`.
unfoldable pub attend : ℕ → Request → Prog (Unit {0})
unfolding inform_chef take_food_to_table
attend n req =
    if is_pos req.req_type food_req
    then inform_chef n req.req_group
    else if is_pos req.req_type food_ready
    then take_food_to_table n req.req_group
    else ret tt

-- The loop of `main`, with `k` rounds left. `fuel` is what each call of `waitForClientOrChef` gets.
unfoldable pub waiter_loop : ℕ → ℕ → ℕ → Orders → Prog (Unit {0})
unfolding wait_for_client_or_chef attend
waiter_loop fuel n zero q = ret tt
waiter_loop fuel n (suc k) q =
    wait_for_client_or_chef fuel q >>= λ (req, q'). attend n req >> waiter_loop fuel n k q'

-- The life cycle of the waiter: an order and a meal for each of the `n` groups.
unfoldable pub waiter : ℕ → ℕ → Prog (Unit {0})
unfolding waiter_loop init_orders
waiter fuel n = waiter_loop fuel n (n * 2) init_orders
