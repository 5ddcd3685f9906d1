-- ===== src/System/Rules/Floor.antt =====
-- The rules of a resource and the program of the waiter.
use so2023_trabalho.Base.{
  is_minus_one, ℕ, zero, suc, refl, Bool, false, if◌then◌else◌, not, ◌==◌, ◌&&◌, ℤ, pos, is_pos,
  inr, arith,
}
use so2023_trabalho.Shared
use so2023_trabalho.Shared.{FullStat, Request, max_groups, num_tables}
use so2023_trabalho.Sync
use so2023_trabalho.Prog.{
  Prog, ret, hang, ◌>>=◌, ◌>>◌, sem_down, sem_up, get, put, save_under_mutex, at,
}
use so2023_trabalho.Slots.{take_with_waiter}
use so2023_trabalho.Waiter
use so2023_trabalho.Waiter.{
  Orders, no_request, note_table, pop_order, push_order, sort_request, enter_wait, receive_request,
  poll_once, unless_found, poll, wait_for_client_or_chef, inform_chef, take_food_to_table, attend,
  waiter_loop,
}
use so2023_trabalho.System.Resource.{Resource, Sound, Sound->>=, Sound-at, Sound-if}
use so2023_trabalho.System.Rules.{Rules}
use so2023_trabalho.System.Rules.Customers.{Sound->>, raises, waits}

module _ (r : Resource) (rules : Rules r) where
  open rules use {saves, notes, takes_waiter, others, plain}

  pop_order-Sound : (q : Orders) → Sound r false (pop_order q) false
  unfolding pop_order
  pop_order-Sound q = Sound-at r num_tables (pos q.q_read_next) _ false false (λ i. refl)

  push_order-Sound : (q : Orders) (incoming : Request) → Sound r false (push_order q incoming) false
  unfolding push_order
  push_order-Sound q incoming = Sound-at r num_tables (pos q.q_write_next) _ false false (λ i. refl)

  sort_request-Sound :
      (q : Orders) (incoming : Request) → Sound r false (sort_request q incoming) false
  unfolding sort_request
  sort_request-Sound q incoming =
      Sound-if r (is_pos incoming.req_type Shared.food_req) queued
        (if is_pos incoming.req_type Shared.food_ready then ret (incoming, q) else strange) false
        false
        (Sound->>= r (push_order q incoming) (λ q'. ret (no_request, q')) false false false
          (push_order-Sound q incoming) (λ q'. refl))
        (Sound-if r (is_pos incoming.req_type Shared.food_ready) (ret (incoming, q)) strange false
          false refl (refl, tt))
    where
      queued : Prog (Request × Orders)
      queued = push_order q incoming >>= λ q'. ret (no_request, q')

      strange : Prog (Request × Orders)
      strange = sem_down Sync.mutex >> hang

  enter_wait-Sound : (stat : ℕ) → Sound r false (enter_wait stat) false
  unfolding enter_wait
  enter_wait-Sound stat =
      Sound-if r (stat == Shared.wait_for_request) (ret tt)
        (save_under_mutex (Waiter.with_stat Shared.wait_for_request)) false false refl
        (saves (Waiter.with_stat Shared.wait_for_request) (λ s. (refl, refl)))

  receive_request-Sound : (q : Orders) → Sound r false (receive_request q) false
  unfolding receive_request
  receive_request-Sound q s =
      Sound->> r rules (enter_wait s.st.waiter_stat) (take_with_waiter >>= sort_request q)
        (enter_wait-Sound s.st.waiter_stat)
        (Sound->>= r take_with_waiter (sort_request q) false false false takes_waiter
          (sort_request-Sound q))

  poll_once-Sound : (busy : Bool) (q : Orders) → Sound r false (poll_once busy q) false
  unfolding poll_once
  poll_once-Sound busy q =
      Sound-if r (not (q.q_length == 0) && not busy) (pop_order q) (receive_request q) false false
        (pop_order-Sound q) (receive_request-Sound q)

  poll-Sound : (f : ℕ) (busy : Bool) (q : Orders) → Sound r false (poll f busy q) false
  unfolding poll
  poll-Sound zero busy q = tt
  poll-Sound (suc f) busy q =
      Sound->>= r (poll_once busy q) (unless_found (poll f busy)) false false false
        (poll_once-Sound busy q)
        λ (x, q').
          Sound-if r (is_minus_one x.req_type) (poll f busy q') (ret (x, q')) false false
            (poll-Sound f busy q') refl

  inform_chef-Sound : (n : ℕ) (group : ℤ) → Sound r false (inform_chef n group) false
  unfolding inform_chef
  inform_chef-Sound n group =
      Sound->> r rules (save_under_mutex noted) informed (saves noted (λ s. (refl, refl))) (
        raises r rules Sync.wait_order (sem_down Sync.order_received >> confirms) (omega arith) (
          waits r rules Sync.order_received confirms (omega arith) (
            Sound-at r max_groups group (λ g. get (λ s. s.assigned_table g) >>= received) false
              false
              (λ g s.
                Sound-at r num_tables (s.assigned_table g) (λ t. sem_up (Sync.request_received n t))
                  false false
                  (λ t. raises r rules (Sync.request_received n t) (ret tt) (omega arith) refl)))))
    where
      noted : FullStat → FullStat
      noted s =
          Waiter.with_stat Shared.inform_chef_stat (record s { food_group = group; food_order = 1 })

      received : ℤ → Prog (Unit {0})
      received table = at num_tables table >>= λ t. sem_up (Sync.request_received n t)

      confirms : Prog (Unit {0})
      confirms = at max_groups group >>= λ g. get (λ s. s.assigned_table g) >>= received

      informed : Prog (Unit {0})
      informed = sem_up Sync.wait_order >> (sem_down Sync.order_received >> confirms)

  take_food-Sound : (n : ℕ) (group : ℤ) → Sound r false (take_food_to_table n group) false
  unfolding take_food_to_table
  take_food-Sound n group =
      Sound->>= r (note_table group) brought false false false (notes group) λ table. (
        inr (plain _ ((λ s. (refl, refl)), λ s. refl)),
        Sound-at r num_tables table (λ t. sem_up (Sync.food_arrived n t)) false false
            (λ t. raises r rules (Sync.food_arrived n t) (ret tt) (omega arith) refl),
      )
    where
      brought : ℤ → Prog (Unit {0})
      brought table =
          put (λ s. record s { food_order = 0 })
          >> (at num_tables table >>= λ t. sem_up (Sync.food_arrived n t))

  attend-Sound : (n : ℕ) (q : Request) → Sound r false (attend n q) false
  unfolding attend
  attend-Sound n q =
      Sound-if r (is_pos q.req_type Shared.food_req) (inform_chef n q.req_group)
        (if is_pos q.req_type Shared.food_ready then take_food_to_table n q.req_group else ret tt)
        false false (inform_chef-Sound n q.req_group)
        (Sound-if r (is_pos q.req_type Shared.food_ready) (take_food_to_table n q.req_group)
          (ret tt) false false (take_food-Sound n q.req_group) refl)

  pub waiter_loop-Sound : (fuel n k : ℕ) (q : Orders) → Sound r false (waiter_loop fuel n k q) false
  unfolding waiter_loop wait_for_client_or_chef
  waiter_loop-Sound fuel n zero q = refl
  waiter_loop-Sound fuel n (suc k) q = λ s.
      Sound->>= r (poll fuel (not (s.food_order == 0)) q)
        (λ (x, q'). attend n x >> waiter_loop fuel n k q') false false false
        (poll-Sound fuel (not (s.food_order == 0)) q)
        (λ (x, q').
          Sound->> r rules (attend n x) (waiter_loop fuel n k q') (attend-Sound n x)
            (waiter_loop-Sound fuel n k q'))
