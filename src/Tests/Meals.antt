-- ===== src/Tests/Meals.antt =====
-- The theorems on the kitchen at concrete inputs.
use so2023_trabalho.Base.{◌≡◌, refl, [], ℤ, pos, ◌==◌, if◌then◌else◌, arith}
use so2023_trabalho.Shared
use so2023_trabalho.Shared.{FullStat, Request}
use so2023_trabalho.Sync.{wait_order, order_received, request_received}
use so2023_trabalho.Prog.{Prog, World, done, blocked, run}
use so2023_trabalho.Prog.Runs.{saved, raise}
use so2023_trabalho.Waiter.{inform_chef, attend, wait_for_client_or_chef, init_orders}
use so2023_trabalho.Waiter.Queue.{init-IsQueue}
use so2023_trabalho.Waiter.Calls.{meal, received}
use so2023_trabalho.Chef
use so2023_trabalho.Chef.{wait_for_food_order, process_order}
use so2023_trabalho.Kitchen.{told, order_passed}
use so2023_trabalho.Kitchen.Meals.{cooked, brought, meal_served}

abbrev blank : Request
blank = record { req_type = pos 0; req_group = pos 0 }

-- Group 3 sits at table 1, and the mutex and the place for a request to the waiter are free.
abbrev dinner : FullStat
dinner = record {
  st = record { receptionist_stat = 0; waiter_stat = 0; chef_stat = 0; group_stat = λ _. 3 };
  n_groups = 5;
  groups_waiting = 0;
  start_time = λ _. pos 10;
  eat_time = λ _. pos 20;
  assigned_table = λ _. pos 1;
  food_order = 1;
  food_group = pos 3;
  receptionist_request = blank;
  waiter_request = blank;
}

abbrev house : World
house = record { full = dinner; sem = λ s. if s == 1 then 1 else if s == 5 then 1 else 0; log = [] }

order_passed_example :
    (chef_on : Prog ℤ) × (waiter_on : Prog (Unit {0})) × (run wait_for_food_order house
      ≡ blocked wait_order chef_on (saved (Chef.with_stat Shared.wait_for_order) house))
    × (run (inform_chef 5 (pos 3)) (saved (Chef.with_stat Shared.wait_for_order) house)
        ≡ blocked order_received waiter_on (raise wait_order (told (pos 3) house)))
    × (run chef_on (raise wait_order (told (pos 3) house))
        ≡ done (pos 3) (raise order_received (told (pos 3) house)))
    × (run waiter_on (raise order_received (told (pos 3) house))
        ≡ done tt (raise (request_received 5 1) (told (pos 3) house)))
order_passed_example =
    order_passed 5 3 1 house (omega arith) (omega arith) refl (omega arith) refl refl

meal_served_example :
    (run (process_order (pos 3)) house ≡ done (pos 0xffff) (cooked 3 house))
    × (run (wait_for_client_or_chef 1 init_orders) (cooked 3 house)
        ≡ done (meal (pos 3), init_orders) (received (cooked 3 house)))
    × (run (attend 5 (meal (pos 3))) (received (cooked 3 house))
        ≡ done tt (brought 5 1 (received (cooked 3 house))))
meal_served_example =
    meal_served 5 3 1 0 init_orders house init-IsQueue (omega arith) (omega arith) refl
      (omega arith) (omega arith) (omega arith)
