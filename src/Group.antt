-- ===== src/Group.antt =====
-- src/semSharedMemGroup.c: a group of clients. `late` says whether a time of the problem, with the
-- deviation of `normalRand` added, is positive: the random doubles are not modelled.
pub mod Reception
use so2023_trabalho.Base.{ℕ, Bool, if◌then◌else◌, update, ℤ, pos}
use so2023_trabalho.Shared.{
  FullStat, max_groups, num_tables, table_req, bill_req, food_req, at_reception, food_request,
  wait_for_food, eating, checkout, leaving,
}
use so2023_trabalho.Sync.{wait_for_table, food_arrived, request_received, table_done}
use so2023_trabalho.Slots.{place_at_reception, place_with_waiter}
use so2023_trabalho.Prog.{Prog, ret, ◌>>=◌, ◌>>◌, sem_down, get, save_under_mutex, at, usleep}

abbrev pub with_stat : ℕ → ℕ → FullStat → FullStat
with_stat id x s = record s { st = record s.st { group_stat = update s.st.group_stat id x } }

-- The table of group `id`, as `int table = sh->fSt.assignedTable[id]` reads it.
abbrev pub my_table : ℕ → Prog ℤ
my_table id = do g ← at max_groups (pos id); get (λ s. s.assigned_table g)

unfoldable pub go_to_restaurant : (ℤ → Bool) → ℕ → Prog (Unit {0})
go_to_restaurant late id = do
  g ← at max_groups (pos id)
  start ← get (λ s. s.start_time g)
  if late start then usleep else ret tt

unfoldable pub eat : (ℤ → Bool) → ℕ → Prog (Unit {0})
eat late id = do
  g ← at max_groups (pos id)
  time ← get (λ s. s.eat_time g)
  if late time then usleep else ret tt

unfoldable pub check_in_at_reception : ℕ → Prog (Unit {0})
check_in_at_reception id = do
  g ← at max_groups (pos id)
  save_under_mutex (with_stat g at_reception)
  place_at_reception (record { req_type = pos table_req; req_group = pos id })
  sem_down (wait_for_table g)

unfoldable pub order_food : ℕ → ℕ → Prog (Unit {0})
order_food n id = do
  g ← at max_groups (pos id)
  save_under_mutex (with_stat g food_request)
  place_with_waiter (record { req_type = pos food_req; req_group = pos id })
  table ← my_table id
  t ← at num_tables table
  sem_down (request_received n t)

unfoldable pub wait_food : ℕ → ℕ → Prog (Unit {0})
wait_food n id = do
  g ← at max_groups (pos id)
  save_under_mutex (with_stat g wait_for_food)
  table ← my_table id
  t ← at num_tables table
  sem_down (food_arrived n t)
  save_under_mutex (with_stat g eating)

unfoldable pub check_out_at_reception : ℕ → ℕ → Prog (Unit {0})
check_out_at_reception n id = do
  table ← my_table id
  g ← at max_groups (pos id)
  save_under_mutex (with_stat g checkout)
  place_at_reception (record { req_type = pos bill_req; req_group = pos id })
  t ← at num_tables table
  sem_down (table_done n t)
  save_under_mutex (with_stat g leaving)

-- The life cycle of group `id` among `n` groups.
unfoldable pub group : (ℤ → Bool) → ℕ → ℕ → Prog (Unit {0})
unfolding go_to_restaurant check_in_at_reception order_food wait_food eat check_out_at_reception
group late n id = do
  go_to_restaurant late id
  check_in_at_reception id
  order_food n id
  wait_food n id
  eat late id
  check_out_at_reception n id
