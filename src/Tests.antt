-- ===== src/Tests.antt =====
-- The theorems at concrete inputs, and runs of the programs.
mod Interleavings
mod Environment
mod Meals
mod Visits
mod Evenings
mod Starting
mod Reporting
use so2023_trabalho.Base.{
  ◌≡◌, ◌⊎◌, refl, [], ◌∷◌, length, take, map, some, pos, minus_one, codes, arith,
}
use so2023_trabalho.Shared.{FullStat, Request, num_tables}
use so2023_trabalho.Sync
use so2023_trabalho.Sync.Layout.{
  Slot, slot_id, IsSlot, table_done, wait_for_table, slot_id-injective, slot_id-onto,
}
use so2023_trabalho.Sync.Naming.{get_semaphore_name, describe, name-describe}
use so2023_trabalho.Prog.{World, Prog, done, blocked, run}
use so2023_trabalho.Receptionist.{init_record, serve, decide_table_or_wait}
use so2023_trabalho.Receptionist.Desk.{init_desk, ask, arrives}
use so2023_trabalho.Receptionist.Tables.{IsDecision, decide-IsDecision}
use so2023_trabalho.Receptionist.Serviced.{Reception, Serviced}
use so2023_trabalho.Receptionist.Refines.{serve-Serviced}
use so2023_trabalho.Receptionist.Start.{init-IsTables, init-Reception}
use so2023_trabalho.Waiter.{Orders, init_orders, wait_for_client_or_chef}
use so2023_trabalho.Waiter.Queue.{placed, contents, IsQueue, init-IsQueue, pushed, run-push_order}
use so2023_trabalho.Waiter.Calls.{order, meal, received, taken}
use so2023_trabalho.Waiter.Returns.{
  idle_returns_oldest, idle_returns_order, busy_returns_meal, busy_defers_order,
}
use so2023_trabalho.Debug.Events.{Event, empty_buffer, event, get_all_ev_sorted, down_action}
use so2023_trabalho.Debug.Events.Recent.{shown, latest_of, write_all, report-latest}

abbrev nothing : Request
nothing = record { req_type = pos 0; req_group = pos 0 }

-- Two groups, nobody seated, and every semaphore at 1.
abbrev opening : FullStat
opening = record {
  st = record { receptionist_stat = 0; waiter_stat = 0; chef_stat = 0; group_stat = λ _. 1 };
  n_groups = 2;
  groups_waiting = 0;
  start_time = λ _. pos 10;
  eat_time = λ _. pos 20;
  assigned_table = λ _. minus_one;
  food_order = 0;
  food_group = pos 0;
  receptionist_request = nothing;
  waiter_request = nothing;
}

abbrev at_one : FullStat → World
at_one s = record { full = s; sem = λ _. 1; log = [] }

opening-Reception : Reception 2 init_desk init_record opening
opening-Reception = init-Reception 2 opening (omega arith) (λ g. refl) refl

serve-Serviced_example :
    Serviced 2 init_desk
      (ask 1)
      (at_one opening)
      (run (serve 2 init_record (ask 1)) (at_one opening))
serve-Serviced_example =
    serve-Serviced 2 init_desk init_record (at_one opening) (ask 1) opening-Reception (omega arith)
      (arrives 1 (omega arith) refl)

decide-IsDecision_example : IsDecision init_record (decide_table_or_wait init_record (pos 1))
decide-IsDecision_example = decide-IsDecision init_record (pos 1) init-IsTables

abbrev ordered : FullStat
ordered = record opening { waiter_request = order (pos 1) }

abbrev cooking : FullStat
cooking = record ordered { food_order = 1; food_group = pos 0 }

abbrev served : FullStat
served = record cooking { waiter_request = meal (pos 0) }

-- One order is queued.
abbrev one_order : Orders
one_order = pushed (order (pos 0)) init_orders

one_order-IsQueue : IsQueue one_order
unfolding init_orders
one_order-IsQueue =
    (run-push_order init_orders (order (pos 0)) (at_one opening) init-IsQueue (omega arith)).1

idle_returns_oldest_example :
    (p : Orders) × (run (wait_for_client_or_chef 1 one_order) (at_one opening)
      ≡ done (order (pos 0), p) (at_one opening))
    × IsQueue p
    × (contents p ≡ [])
unfolding init_orders
idle_returns_oldest_example =
    idle_returns_oldest 0 one_order (at_one opening) one_order-IsQueue (order (pos 0)) [] refl refl
      (λ e. cc)

busy_defers_order_example :
    (k : Prog (Request × Orders)) × (p : Orders) × (run
        (wait_for_client_or_chef 2 init_orders)
        (at_one cooking)
      ≡ blocked Sync.waiter_request k (received (at_one cooking)))
    × (contents p ≡ order (pos 1) ∷ [])
    × (IsQueue p ⊎ (length (contents init_orders) ≡ num_tables))
    × (run k (at_one served) ≡ done (meal (pos 0), p) (taken (at_one served)))
unfolding init_orders
busy_defers_order_example =
    busy_defers_order 0 init_orders (at_one cooking) init-IsQueue (pos 1) (pos 0) (at_one served)
      (omega arith) (omega arith) refl refl (omega arith) refl

idle_returns_order_example :
    (p : Orders) × (run (wait_for_client_or_chef 2 init_orders) (at_one ordered)
      ≡ done (order (pos 1), p) (received (at_one ordered)))
    × IsQueue p
    × (contents p ≡ [])
unfolding init_orders
idle_returns_order_example =
    idle_returns_order 0 init_orders (at_one ordered) init-IsQueue (pos 1) refl refl (omega arith)
      (omega arith) refl

busy_returns_meal_example :
    run (wait_for_client_or_chef 1 init_orders) (at_one served)
    ≡ done (meal (pos 0), init_orders) (received (at_one served))
busy_returns_meal_example =
    busy_returns_meal 0 init_orders (at_one served) init-IsQueue (pos 0) (omega arith) (omega arith)
      (omega arith) refl

slot_id-injective_example : table_done 1 ≡ table_done 1
slot_id-injective_example =
    slot_id-injective 5 (table_done 1) (table_done 1) (omega arith) (omega arith) refl

slot_id-onto_example : (a : Slot) × IsSlot 5 a × (slot_id 5 a ≡ 18)
slot_id-onto_example = slot_id-onto 5 18 (omega arith) (omega arith)

name-describe_example :
    get_semaphore_name 5 (slot_id 5 (wait_for_table 3)) 100
    ≡ (take 99 (describe (wait_for_table 3)), length (describe (wait_for_table 3)))
name-describe_example = name-describe 5 100 (wait_for_table 3) (omega arith)

abbrev one_event : Event
one_event = event down_action 1 (codes "pre-COOK")

report-latest_example :
    get_all_ev_sorted (write_all (some empty_buffer) (one_event ∷ []))
    ≡ (latest_of (map shown (one_event ∷ [])), length (latest_of (map shown (one_event ∷ []))))
report-latest_example = report-latest (one_event ∷ []) (omega arith)

-- A third order is written over the oldest of the two.
third_order :
    placed (order (pos 3)) (order (pos 1) ∷ order (pos 2) ∷ [])
    ≡ order (pos 3) ∷ order (pos 2) ∷ order (pos 3) ∷ []
third_order = refl
