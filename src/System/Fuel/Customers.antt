-- ===== src/System/Fuel/Customers.antt =====
-- A group asks the waiter once, and the chef once for each order.
use so2023_trabalho.Base.{ℕ, zero, suc, ◌-◌, Bool, ℤ, pos, negsuc, arith}
use so2023_trabalho.Shared
use so2023_trabalho.Shared.{FullStat, Request, max_groups, num_tables}
use so2023_trabalho.Sync
use so2023_trabalho.Prog.{Prog, ret, down, ◌>>=◌, ◌>>◌, at, save_under_mutex, usleep, sem_down}
use so2023_trabalho.Slots.{place_at_reception, place_with_waiter}
use so2023_trabalho.Group
use so2023_trabalho.Group.{
  group, go_to_restaurant, check_in_at_reception, order_food, wait_food, eat,
  check_out_at_reception, my_table,
}
use so2023_trabalho.Chef.{chef_loop, wait_for_food_order, process_order}
use so2023_trabalho.System.Fuel.{Asks, Asks-mono, Asks->>=, Asks-at, Asks-if}

pub saves_first :
    {A : Type 0} (g : FullStat → FullStat) (p : Prog A) (k : ℕ)
    → Asks k p
    → Asks k (save_under_mutex g >> p)
saves_first g p k h = (omega arith, Asks-mono p k (k - 0) (omega arith) h)

go_to_restaurant-Asks : (late : ℤ → Bool) (id : ℕ) → Asks 0 (go_to_restaurant late id)
unfolding go_to_restaurant
go_to_restaurant-Asks late id =
    Asks-at max_groups (pos id) _ 0 (λ g s. Asks-if (late (s.start_time g)) usleep (ret tt) 0 tt tt)

eat-Asks : (late : ℤ → Bool) (id : ℕ) → Asks 0 (eat late id)
unfolding eat
eat-Asks late id =
    Asks-at max_groups (pos id) _ 0 (λ g s. Asks-if (late (s.eat_time g)) usleep (ret tt) 0 tt tt)

my_table-Asks : (id : ℕ) → Asks 0 (my_table id)
my_table-Asks id = Asks-at max_groups (pos id) _ 0 (λ g s. tt)

check_in-Asks : (id : ℕ) → Asks 0 (check_in_at_reception id)
unfolding check_in_at_reception
check_in-Asks id = Asks-at max_groups (pos id) _ 0 (λ g. (omega arith, (omega arith, tt)))

table_waits :
    (table : ℤ) (f : ℕ → ℕ) (p : Prog (Unit {0})) (k : ℕ)
    → Asks k p
    → Asks k (at num_tables table >>= λ t. down (f t) p)
table_waits table f p k h = Asks-at num_tables table (λ t. down (f t) p) k (λ t. h)

order_food-Asks : (n id : ℕ) → Asks 1 (order_food n id)
unfolding order_food
order_food-Asks n id = Asks-at max_groups (pos id) _ 1 λ g.
    saves_first (Group.with_stat g Shared.food_request)
      (place_with_waiter ask >> (my_table id >>= waits)) 1
      (Asks->>= (place_with_waiter ask) (λ _. my_table id >>= waits) 1 1 0 (omega arith)
        (omega arith, tt)
        (λ _.
          Asks->>= (my_table id) waits 0 0 0 (omega arith) (my_table-Asks id)
            (λ table. table_waits table (Sync.request_received n) (ret tt) 0 tt)))
  where
    ask : Request
    ask = record { req_type = pos Shared.food_req; req_group = pos id }

    waits : ℤ → Prog (Unit {0})
    waits table = at num_tables table >>= λ t. sem_down (Sync.request_received n t)

wait_food-Asks : (n id : ℕ) → Asks 0 (wait_food n id)
unfolding wait_food
wait_food-Asks n id = Asks-at max_groups (pos id) _ 0 λ g.
    saves_first (Group.with_stat g Shared.wait_for_food) (my_table id >>= waits g) 0 (
      Asks->>= (my_table id) (waits g) 0 0 0 (omega arith) (my_table-Asks id) (λ table.
        table_waits table (Sync.food_arrived n) (save_under_mutex (Group.with_stat g Shared.eating))
          0 (omega arith, tt)))
  where
    waits : ℕ → ℤ → Prog (Unit {0})
    waits g table = at num_tables table >>= λ t.
        down (Sync.food_arrived n t) (save_under_mutex (Group.with_stat g Shared.eating))

check_out-Asks : (n id : ℕ) → Asks 0 (check_out_at_reception n id)
unfolding check_out_at_reception
check_out-Asks n id = Asks->>= (my_table id) leaves 0 0 0 (omega arith) (my_table-Asks id) λ table.
    Asks-at max_groups (pos id)
      (λ g. save_under_mutex (Group.with_stat g Shared.checkout) >> pays table g) 0
      λ g. saves_first (Group.with_stat g Shared.checkout) (pays table g) 0 (
        Asks->>= (place_at_reception ask) (λ _. waits table g) 0 0 0 (omega arith) (omega arith, tt)
          (λ _.
            table_waits table (Sync.table_done n)
              (save_under_mutex (Group.with_stat g Shared.leaving)) 0 (omega arith, tt)))
  where
    ask : Request
    ask = record { req_type = pos Shared.bill_req; req_group = pos id }

    waits : ℤ → ℕ → Prog (Unit {0})
    waits table g = at num_tables table >>= λ t.
        down (Sync.table_done n t) (save_under_mutex (Group.with_stat g Shared.leaving))

    pays : ℤ → ℕ → Prog (Unit {0})
    pays table g = place_at_reception ask >> waits table g

    leaves : ℤ → Prog (Unit {0})
    leaves table = at max_groups (pos id) >>= λ g.
        save_under_mutex (Group.with_stat g Shared.checkout) >> pays table g

pub group-Asks : (late : ℤ → Bool) (n id : ℕ) → Asks 1 (group late n id)
unfolding group
group-Asks late n id =
    Asks->>= (go_to_restaurant late id) (λ _. arrived) 1 0 1 (omega arith)
      (go_to_restaurant-Asks late id)
      λ _.
        Asks->>= (check_in_at_reception id) (λ _. seated) 1 0 1 (omega arith) (check_in-Asks id)
          λ _.
            Asks->>= (order_food n id) (λ _. ordered) 1 1 0 (omega arith) (order_food-Asks n id)
              λ _.
                Asks->>= (wait_food n id) (λ _. served) 0 0 0 (omega arith) (wait_food-Asks n id)
                  λ _.
                    Asks->>= (eat late id) (λ _. check_out_at_reception n id) 0 0 0 (omega arith)
                      (eat-Asks late id) (λ _. check_out-Asks n id)
  where
    served : Prog (Unit {0})
    served = eat late id >> check_out_at_reception n id

    ordered : Prog (Unit {0})
    ordered = wait_food n id >> served

    seated : Prog (Unit {0})
    seated = order_food n id >> ordered

    arrived : Prog (Unit {0})
    arrived = check_in_at_reception id >> seated

wait_for_food_order-Asks : Asks 0 wait_for_food_order
unfolding wait_for_food_order
wait_for_food_order-Asks = (omega arith, λ s. (omega arith, tt))

process_order-Asks : (g : ℤ) → Asks 1 (process_order g)
unfolding process_order
process_order-Asks (negsuc g) = tt
process_order-Asks (pos g) = (omega arith, (omega arith, (omega arith, tt)))

pub chef-Asks : (k : ℕ) → Asks k (chef_loop k)
unfolding chef_loop
chef-Asks zero = tt
chef-Asks (suc k) =
    Asks->>= wait_for_food_order (λ g. process_order g >>= λ _. chef_loop k) (suc k) 0 (suc k)
      (omega arith) wait_for_food_order-Asks
      λ g.
        Asks->>= (process_order g) (λ _. chef_loop k) (suc k) 1 k (omega arith)
          (process_order-Asks g) (λ _. chef-Asks k)
