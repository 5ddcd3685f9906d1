-- ===== src/System/Ends/Programs.antt =====
-- The number of actions of a group and of the chef, from the numbers of their operations.
use so2023_trabalho.Base.{ℕ, zero, suc, ◌+◌, ◌-◌, ◌*◌, ◌≤◌, Bool, ℤ, pos, negsuc, arith}
use so2023_trabalho.Shared
use so2023_trabalho.Shared.{FullStat, Request, max_groups, num_tables}
use so2023_trabalho.Sync
use so2023_trabalho.Prog.{
  Prog, ret, down, up, ◌>>=◌, ◌>>◌, sem_down, get, save_under_mutex, at, usleep,
}
use so2023_trabalho.Slots.{
  place_at_reception, take_at_reception, place_with_waiter, take_with_waiter,
}
use so2023_trabalho.Group
use so2023_trabalho.Group.{
  go_to_restaurant, eat, check_in_at_reception, order_food, wait_food, check_out_at_reception,
  my_table, group,
}
use so2023_trabalho.Chef
use so2023_trabalho.Chef.{wait_for_food_order, process_order, chef_loop}
use so2023_trabalho.System.Ends.{Ends, Ends-mono, Ends->>=, Ends-at, Ends-if}

-- A saved state, and then at most `k` actions.
pub saves_first :
    {A : Type 0} (f : FullStat → FullStat) (p : Prog A) (i k : ℕ)
    → 4 + k ≤ i
    → Ends k p
    → Ends i (save_under_mutex f >> p)
saves_first f p i k h e = Ends->>= (save_under_mutex f) (λ _. p) i 4 k h (omega arith) (λ _. e)

pub saves-Ends : (f : FullStat → FullStat) → Ends 4 (save_under_mutex f)
saves-Ends f = omega arith

pub places_desk-Ends : (q : Request) → Ends 3 (place_at_reception q)
places_desk-Ends q = omega arith

pub places_waiter-Ends : (q : Request) → Ends 3 (place_with_waiter q)
places_waiter-Ends q = omega arith

pub takes_desk-Ends : Ends 3 take_at_reception
takes_desk-Ends = (omega arith, (omega arith, λ s. omega arith))

pub takes_waiter-Ends : Ends 3 take_with_waiter
takes_waiter-Ends = (omega arith, (omega arith, λ s. omega arith))

go_to_restaurant-Ends : (late : ℤ → Bool) (id : ℕ) → Ends 2 (go_to_restaurant late id)
unfolding go_to_restaurant
go_to_restaurant-Ends late id =
    Ends-at max_groups (pos id) _ 2
      λ g. (omega arith, λ s. Ends-if (late (s.start_time g)) usleep (ret tt) 1 (omega arith) tt)

eat-Ends : (late : ℤ → Bool) (id : ℕ) → Ends 2 (eat late id)
unfolding eat
eat-Ends late id =
    Ends-at max_groups (pos id) _ 2
      λ g. (omega arith, λ s. Ends-if (late (s.eat_time g)) usleep (ret tt) 1 (omega arith) tt)

my_table-Ends : (id : ℕ) → Ends 1 (my_table id)
my_table-Ends id = Ends-at max_groups (pos id) _ 1 (λ g. (omega arith, λ s. tt))

check_in-Ends : (id : ℕ) → Ends 8 (check_in_at_reception id)
unfolding check_in_at_reception
check_in-Ends id = Ends-at max_groups (pos id) _ 8 λ g. omega arith

-- A table is read and a semaphore of it waited for.
abbrev table_wait : {A : Type 0} → ℕ → (ℕ → ℕ) → Prog A → Prog A
table_wait id f p = my_table id >>= λ table. at num_tables table >>= λ t. down (f t) p

table_wait-Ends :
    {A : Type 0} (id : ℕ) (f : ℕ → ℕ) (p : Prog A) (k : ℕ)
    → Ends k p
    → Ends (k + 2) (table_wait id f p)
table_wait-Ends id f p k e =
    Ends->>= (my_table id) (λ table. at num_tables table >>= λ t. down (f t) p) (k + 2) 1 (k + 1)
      (omega arith) (my_table-Ends id)
      (λ table.
        Ends-at num_tables table (λ t. down (f t) p) (k + 1)
          (λ t. (omega arith, Ends-mono p k (k + 1 - 1) (omega arith) e)))

order_food-Ends : (n id : ℕ) → Ends 9 (order_food n id)
unfolding order_food
order_food-Ends n id = Ends-at max_groups (pos id) _ 9 λ g.
    saves_first (Group.with_stat g Shared.food_request) (place_with_waiter ask >> waits) 9 5
      (omega arith)
      (Ends->>= (place_with_waiter ask) (λ _. waits) 5 3 2 (omega arith) (omega arith)
        (λ _. table_wait-Ends id (Sync.request_received n) (ret tt) 0 tt))
  where
    ask : Request
    ask = record { req_type = pos Shared.food_req; req_group = pos id }

    waits : Prog (Unit {0})
    waits = table_wait id (Sync.request_received n) (ret tt)

wait_food-Ends : (n id : ℕ) → Ends 10 (wait_food n id)
unfolding wait_food
wait_food-Ends n id = Ends-at max_groups (pos id) _ 10 λ g.
    saves_first (Group.with_stat g Shared.wait_for_food)
      (table_wait id (Sync.food_arrived n) (save_under_mutex (Group.with_stat g Shared.eating))) 10
      6 (omega arith)
      (table_wait-Ends id (Sync.food_arrived n) (save_under_mutex (Group.with_stat g Shared.eating))
        4 (omega arith))

check_out-Ends : (n id : ℕ) → Ends 13 (check_out_at_reception n id)
unfolding check_out_at_reception
check_out-Ends n id =
    Ends->>= (my_table id) leaves 13 1 12 (omega arith) (my_table-Ends id) λ table.
      Ends-at max_groups (pos id)
        (λ g. save_under_mutex (Group.with_stat g Shared.checkout) >> pays table g) 12
        λ g. saves_first (Group.with_stat g Shared.checkout) (pays table g) 12 8 (omega arith) (
          Ends->>= (place_at_reception ask) (λ _. waits table g) 8 3 5 (omega arith) (omega arith)
            (λ _. Ends-at num_tables table _ 5 (λ t. omega arith)))
  where
    ask : Request
    ask = record { req_type = pos Shared.bill_req; req_group = pos id }

    waits : ℤ → ℕ → Prog (Unit {0})
    waits table g = at num_tables table >>= λ t.
        sem_down (Sync.table_done n t) >> save_under_mutex (Group.with_stat g Shared.leaving)

    pays : ℤ → ℕ → Prog (Unit {0})
    pays table g = place_at_reception ask >> waits table g

    leaves : ℤ → Prog (Unit {0})
    leaves table = at max_groups (pos id) >>= λ g.
        save_under_mutex (Group.with_stat g Shared.checkout) >> pays table g

pub group-Ends : (late : ℤ → Bool) (n id : ℕ) → Ends 44 (group late n id)
unfolding group
group-Ends late n id =
    Ends->>= (go_to_restaurant late id) (λ _. arrived) 44 2 42 (omega arith)
      (go_to_restaurant-Ends late id)
      λ _.
        Ends->>= (check_in_at_reception id) (λ _. seated) 42 8 34 (omega arith) (check_in-Ends id)
          λ _.
            Ends->>= (order_food n id) (λ _. ordered) 34 9 25 (omega arith) (order_food-Ends n id)
              λ _.
                Ends->>= (wait_food n id) (λ _. served) 25 10 15 (omega arith) (wait_food-Ends n id)
                  λ _.
                    Ends->>= (eat late id) (λ _. check_out_at_reception n id) 15 2 13 (omega arith)
                      (eat-Ends late id) (λ _. check_out-Ends n id)
  where
    served : Prog (Unit {0})
    served = eat late id >> check_out_at_reception n id

    ordered : Prog (Unit {0})
    ordered = wait_food n id >> served

    seated : Prog (Unit {0})
    seated = order_food n id >> ordered

    arrived : Prog (Unit {0})
    arrived = check_in_at_reception id >> seated

wait_for_food_order-Ends : Ends 7 wait_for_food_order
unfolding wait_for_food_order
wait_for_food_order-Ends =
    saves_first (Chef.with_stat Shared.wait_for_order)
      (sem_down Sync.wait_order
        >> (get (λ s. s.food_group) >>= λ g. up Sync.order_received (ret g)))
      7 3 (omega arith) (omega arith, (omega arith, λ s. omega arith))

process_order-Ends : (g : ℤ) → Ends 12 (process_order g)
unfolding process_order
process_order-Ends (negsuc g) = tt
process_order-Ends (pos g) = omega arith

pub chef-Ends : (k : ℕ) → Ends (19 * k) (chef_loop k)
unfolding chef_loop
chef-Ends zero = tt
chef-Ends (suc k) =
    Ends->>= wait_for_food_order (λ g. process_order g >>= λ _. chef_loop k) (19 * suc k) 7
      (12 + 19 * k) (omega arith) wait_for_food_order-Ends
      λ g.
        Ends->>= (process_order g) (λ _. chef_loop k) (12 + 19 * k) 12 (19 * k) (omega arith)
          (process_order-Ends g) (λ _. chef-Ends k)
