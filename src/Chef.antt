-- ===== src/Chef.antt =====
-- src/semSharedMemChef.c: the chef. `lastGroup` is passed from one operation to the next.
use so2023_trabalho.Base.{ℕ, zero, suc, ℤ, pos, negsuc}
use so2023_trabalho.Shared.{FullStat, wait_for_order, cook, rest, food_ready}
use so2023_trabalho.Sync.{wait_order, order_received}
use so2023_trabalho.Slots.{place_with_waiter}
use so2023_trabalho.Prog.{Prog, ret, ◌>>=◌, ◌>>◌, sem_down, sem_up, get, save_under_mutex, usleep}

abbrev pub with_stat : ℕ → FullStat → FullStat
with_stat x s = record s { st = record s.st { chef_stat = x } }

-- The result is `lastGroup`.
unfoldable pub wait_for_food_order : Prog ℤ
wait_for_food_order = do
  save_under_mutex (with_stat wait_for_order)
  sem_down wait_order
  group ← get (λ s. s.food_group)
  sem_up order_received
  ret group

-- A group that is not negative is cooked for; `lastGroup` is then made invalid.
unfoldable pub process_order : ℤ → Prog ℤ
process_order (negsuc g) = ret (negsuc g)
process_order (pos g) = do
  save_under_mutex (with_stat cook)
  usleep
  save_under_mutex (with_stat rest)
  place_with_waiter (record { req_type = pos food_ready; req_group = pos g })
  ret (pos 0xffff)

-- The loop of `main`, with `k` rounds left.
unfoldable pub chef_loop : ℕ → Prog (Unit {0})
unfolding wait_for_food_order process_order
chef_loop zero = ret tt
chef_loop (suc k) = do group ← wait_for_food_order; _ ← process_order group; chef_loop k

-- The life cycle of the chef: an order from each of the `n` groups.
unfoldable pub chef : ℕ → Prog (Unit {0})
unfolding chef_loop
chef n = chef_loop n
