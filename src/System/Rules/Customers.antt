-- ===== src/System/Rules/Customers.antt =====
-- The rules of a resource and the program of a group.
use so2023_trabalho.Base.{ℕ, ◌<◌, refl, Bool, false, if◌then◌else◌, ℤ, pos, arith}
use so2023_trabalho.Shared
use so2023_trabalho.Shared.{FullStat, Request, max_groups, num_tables}
use so2023_trabalho.Sync
use so2023_trabalho.Prog.{
  Prog, ret, ◌>>=◌, ◌>>◌, sem_down, get, save_under_mutex, at, usleep, down, up,
}
use so2023_trabalho.Slots.{place_at_reception, place_with_waiter}
use so2023_trabalho.Group
use so2023_trabalho.Group.{
  go_to_restaurant, eat, check_in_at_reception, order_food, wait_food, check_out_at_reception,
  my_table, group,
}
use so2023_trabalho.System.Resource.{
  Resource, Sound, Sound->>=, Sound-at, Sound-if, Sound-down, Sound-up,
}
use so2023_trabalho.System.Rules.{Rules}

module _ (r : Resource) (rules : Rules r) where
  open rules use {saves, places_desk, places_waiter, others}

  -- A piece that holds nothing before and after, and what follows it.
  pub Sound->> :
      (m : Prog (Unit {0})) {A : Type 0} (k : Prog A)
      → Sound r false m false
      → Sound r false k false
      → Sound r false (m >> k) false
  Sound->> m k h g = Sound->>= r m (λ _. k) false false false h (λ _. g)

  pub waits :
      (s : ℕ) {A : Type 0} (k : Prog A)
      → 5 < s
      → Sound r false k false
      → Sound r false (down s k) false
  waits s k lt h = Sound-down r s k false (others s lt) h

  pub raises :
      (s : ℕ) {A : Type 0} (k : Prog A)
      → 5 < s
      → Sound r false k false
      → Sound r false (up s k) false
  raises s k lt h = Sound-up r s k false false (others s lt) h

  -- A wait at the end of a piece, on the semaphore of a table.
  table_wait :
      (table : ℤ) (f : ℕ → ℕ) (k : Prog (Unit {0}))
      → ((t : ℕ) → 5 < f t)
      → Sound r false k false
      → Sound r false (at num_tables table >>= λ t. down (f t) k) false
  table_wait table f k lt h =
      Sound-at r num_tables table (λ t. down (f t) k) false false (λ t. waits (f t) k (lt t) h)

  go_to_restaurant-Sound :
      (late : ℤ → Bool) (id : ℕ) → Sound r false (go_to_restaurant late id) false
  unfolding go_to_restaurant
  go_to_restaurant-Sound late id =
      Sound-at r max_groups (pos id)
        (λ g. get (λ s. s.start_time g) >>= λ t. if late t then usleep else ret tt) false false
        (λ g s. Sound-if r (late (s.start_time g)) usleep (ret tt) false false refl refl)

  eat-Sound : (late : ℤ → Bool) (id : ℕ) → Sound r false (eat late id) false
  unfolding eat
  eat-Sound late id =
      Sound-at r max_groups (pos id)
        (λ g. get (λ s. s.eat_time g) >>= λ t. if late t then usleep else ret tt) false false
        (λ g s. Sound-if r (late (s.eat_time g)) usleep (ret tt) false false refl refl)

  group_saves :
      (g x : ℕ) {A : Type 0} (k : Prog A)
      → Sound r false k false
      → Sound r false (save_under_mutex (Group.with_stat g x) >> k) false
  group_saves g x k h =
      Sound->> (save_under_mutex (Group.with_stat g x)) k
        (saves (Group.with_stat g x) (λ s. (refl, refl))) h

  -- A saved state, and then the end of the piece.
  group_ends : (g x : ℕ) → Sound r false (save_under_mutex (Group.with_stat g x)) false
  group_ends g x = saves (Group.with_stat g x) (λ s. (refl, refl))

  check_in-Sound : (id : ℕ) → Sound r false (check_in_at_reception id) false
  unfolding check_in_at_reception
  check_in-Sound id =
      Sound-at r max_groups (pos id)
        (λ g. save_under_mutex (Group.with_stat g Shared.at_reception) >> asks g) false false
        λ g. group_saves g Shared.at_reception (asks g) (
          Sound->> (place_at_reception ask) (sem_down (Sync.wait_for_table g)) (places_desk ask)
            (waits (Sync.wait_for_table g) (ret tt) (omega arith) refl))
    where
      ask : Request
      ask = record { req_type = pos Shared.table_req; req_group = pos id }

      asks : ℕ → Prog (Unit {0})
      asks g = place_at_reception ask >> sem_down (Sync.wait_for_table g)

  my_table-Sound :
      (id : ℕ) (f : ℤ → Prog (Unit {0}))
      → ((table : ℤ) → Sound r false (f table) false)
      → Sound r false (my_table id >>= f) false
  my_table-Sound id f h =
      Sound->>= r (my_table id) f false false false
        (Sound-at r max_groups (pos id) (λ g. get (λ s. s.assigned_table g)) false false
          (λ g s. refl))
        h

  order_food-Sound : (n id : ℕ) → Sound r false (order_food n id) false
  unfolding order_food
  order_food-Sound n id =
      Sound-at r max_groups (pos id)
        (λ g. save_under_mutex (Group.with_stat g Shared.food_request) >> asks) false false
        λ g. group_saves g Shared.food_request asks (
          Sound->> (place_with_waiter ask) waiting (places_waiter ask) (
            my_table-Sound id received (λ table.
              table_wait table (Sync.request_received n) (ret tt) (λ t. omega arith) refl)))
    where
      ask : Request
      ask = record { req_type = pos Shared.food_req; req_group = pos id }

      received : ℤ → Prog (Unit {0})
      received table = at num_tables table >>= λ t. sem_down (Sync.request_received n t)

      waiting : Prog (Unit {0})
      waiting = my_table id >>= received

      asks : Prog (Unit {0})
      asks = place_with_waiter ask >> waiting

  wait_food-Sound : (n id : ℕ) → Sound r false (wait_food n id) false
  unfolding wait_food
  wait_food-Sound n id =
      Sound-at r max_groups (pos id)
        (λ g. save_under_mutex (Group.with_stat g Shared.wait_for_food) >> waiting g) false false
        λ g. group_saves g Shared.wait_for_food (waiting g) (
          my_table-Sound id (served g) (λ table.
            table_wait table (Sync.food_arrived n) (eats g) (λ t. omega arith)
              (group_ends g Shared.eating)))
    where
      eats : ℕ → Prog (Unit {0})
      eats g = save_under_mutex (Group.with_stat g Shared.eating)

      served : ℕ → ℤ → Prog (Unit {0})
      served g table = at num_tables table >>= λ t. sem_down (Sync.food_arrived n t) >> eats g

      waiting : ℕ → Prog (Unit {0})
      waiting g = my_table id >>= served g

  check_out-Sound : (n id : ℕ) → Sound r false (check_out_at_reception n id) false
  unfolding check_out_at_reception
  check_out-Sound n id = my_table-Sound id leaves λ table.
      Sound-at r max_groups (pos id)
        (λ g. save_under_mutex (Group.with_stat g Shared.checkout) >> pays table g) false false
        λ g. group_saves g Shared.checkout (pays table g) (
          Sound->> (place_at_reception ask) (waiting table g) (places_desk ask) (
            table_wait table (Sync.table_done n) (goes g) (λ t. omega arith)
              (group_ends g Shared.leaving)))
    where
      ask : Request
      ask = record { req_type = pos Shared.bill_req; req_group = pos id }

      goes : ℕ → Prog (Unit {0})
      goes g = save_under_mutex (Group.with_stat g Shared.leaving)

      waiting : ℤ → ℕ → Prog (Unit {0})
      waiting table g = at num_tables table >>= λ t. sem_down (Sync.table_done n t) >> goes g

      pays : ℤ → ℕ → Prog (Unit {0})
      pays table g = place_at_reception ask >> waiting table g

      leaves : ℤ → Prog (Unit {0})
      leaves table = at max_groups (pos id) >>= λ g.
          save_under_mutex (Group.with_stat g Shared.checkout) >> pays table g

  pub group-Sound : (late : ℤ → Bool) (n id : ℕ) → Sound r false (group late n id) false
  unfolding group
  group-Sound late n id =
      Sound->> (go_to_restaurant late id) arrived (go_to_restaurant-Sound late id) (
        Sound->> (check_in_at_reception id) seated (check_in-Sound id) (
          Sound->> (order_food n id) ordered (order_food-Sound n id) (
            Sound->> (wait_food n id) served (wait_food-Sound n id) (
              Sound->> (eat late id) (check_out_at_reception n id) (eat-Sound late id)
                (check_out-Sound n id)))))
    where
      served : Prog (Unit {0})
      served = eat late id >> check_out_at_reception n id

      ordered : Prog (Unit {0})
      ordered = wait_food n id >> served

      seated : Prog (Unit {0})
      seated = order_food n id >> ordered

      arrived : Prog (Unit {0})
      arrived = check_in_at_reception id >> seated
