-- ===== src/Tests/Evenings.antt =====
-- Whole evenings of the simulation, run to their ends.
use so2023_trabalho.Base.{◌*◌, ◌+◌, ℕ, zero, suc, ◌≡◌, refl, false, List, [], ◌∷◌, ◌++◌, pos}
use so2023_trabalho.Shared
use so2023_trabalho.Shared.{Request}
use so2023_trabalho.Sync
use so2023_trabalho.Generator.{init_world, init_sems, init_state}
use so2023_trabalho.Prog.{ret}
use so2023_trabalho.Group.{
  group, go_to_restaurant, eat, check_in_at_reception, order_food, wait_food,
  check_out_at_reception,
}
use so2023_trabalho.Receptionist.{
  receptionist, serve_loop, wait_for_group, serve, provide_table_or_waiting_room, receive_payment,
  vacate, decide_next_group, take_waiting, call_next, seat_or_queue, decide_table_or_wait,
  set_table_occupied, is_table_occupied, scan_tables, init_record,
}
use so2023_trabalho.Waiter.{
  waiter, waiter_loop, wait_for_client_or_chef, poll, poll_once, pop_order, push_order,
  receive_request, enter_wait, sort_request, attend, inform_chef, take_food_to_table, init_orders,
}
use so2023_trabalho.Chef.{chef, chef_loop, wait_for_food_order, process_order}
use so2023_trabalho.System.{System, init_system, program, act}
use so2023_trabalho.System.Schedule.{after, move}

-- The list `k` times.
rounds : ℕ → List ℕ → List ℕ
rounds zero is = []
rounds (suc k) is = is ++ rounds k is

-- `n` groups that arrive at once.
abbrev evening : ℕ → System
evening n = init_system (λ _. false) (n * 2 + 1) [] n (λ _. pos 0) (λ _. pos 0)

abbrev played : ℕ → List ℕ → System
played n is = after n is (evening n)

abbrev Ended : System → ℕ → Type 0
Ended s i = s.proc i ≡ ret tt

-- With one group, and every process in turn, all processes come to their ends.
one_group_ends :
    Ended (played 1 (rounds 100 (0 ∷ 1 ∷ 2 ∷ 3 ∷ []))) 0
    × Ended (played 1 (rounds 100 (0 ∷ 1 ∷ 2 ∷ 3 ∷ []))) 1
    × Ended (played 1 (rounds 100 (0 ∷ 1 ∷ 2 ∷ 3 ∷ []))) 2
    × Ended (played 1 (rounds 100 (0 ∷ 1 ∷ 2 ∷ 3 ∷ []))) 3
unfolding rounds after move act init_system init_world init_sems init_state init_record init_orders
    program group go_to_restaurant eat check_in_at_reception order_food wait_food
    check_out_at_reception receptionist serve_loop wait_for_group serve
    provide_table_or_waiting_room receive_payment vacate decide_next_group take_waiting call_next
    seat_or_queue decide_table_or_wait set_table_occupied is_table_occupied scan_tables chef
    chef_loop wait_for_food_order process_order waiter waiter_loop wait_for_client_or_chef poll
    poll_once pop_order push_order receive_request enter_wait sort_request attend inform_chef
    take_food_to_table
one_group_ends = (refl, refl, refl, refl)

abbrev crowd : List ℕ
crowd = rounds 300 (0 ∷ 1 ∷ 2 ∷ 3 ∷ 4 ∷ 5 ∷ [])

-- The same with three groups, of which one has to wait for a table.
three_groups_end :
    Ended (played 3 crowd) 0
    × Ended (played 3 crowd) 1
    × Ended (played 3 crowd) 2
    × Ended (played 3 crowd) 3
    × Ended (played 3 crowd) 4
    × Ended (played 3 crowd) 5
unfolding rounds after move act init_system init_world init_sems init_state init_record init_orders
    program group go_to_restaurant eat check_in_at_reception order_food wait_food
    check_out_at_reception receptionist serve_loop wait_for_group serve
    provide_table_or_waiting_room receive_payment vacate decide_next_group take_waiting call_next
    seat_or_queue decide_table_or_wait set_table_occupied is_table_occupied scan_tables chef
    chef_loop wait_for_food_order process_order waiter waiter_loop wait_for_client_or_chef poll
    poll_once pop_order push_order receive_request enter_wait sort_request attend inform_chef
    take_food_to_table
three_groups_end = (refl, refl, refl, refl, refl, refl)

-- Group 0 has asked for the bill at table 1 and is then slow; group 2 is called to that table, and has
-- asked for its own bill.
abbrev slow_payer : List ℕ
slow_payer =
    rounds 30 (0 ∷ 4 ∷ [])
    ++ rounds 97 (0 ∷ 1 ∷ 2 ∷ 3 ∷ [])
    ++ rounds 86 (0 ∷ 1 ∷ 2 ∷ 5 ∷ [])
    ++ (5 ∷ 5 ∷ 5 ∷ 5 ∷ [])

-- Group 2 takes the signal of the table that was meant for group 0: it leaves while its own bill has
-- not been read, and group 0 still waits.
leaves_unread :
    ((played 3 slow_payer).world.full.st.group_stat 2 ≡ Shared.leaving)
    × ((played 3 slow_payer).world.full.st.group_stat 0 ≡ Shared.checkout)
    × ((played 3 slow_payer).world.sem Sync.receptionist_req ≡ 1)
    × ((played 3 slow_payer).world.full.receptionist_request
        ≡ record { req_type = pos Shared.bill_req; req_group = pos 2 })
unfolding rounds after move act init_system init_world init_sems init_state init_record init_orders
    program group go_to_restaurant eat check_in_at_reception order_food wait_food
    check_out_at_reception receptionist serve_loop wait_for_group serve
    provide_table_or_waiting_room receive_payment vacate decide_next_group take_waiting call_next
    seat_or_queue decide_table_or_wait set_table_occupied is_table_occupied scan_tables chef
    chef_loop wait_for_food_order process_order waiter waiter_loop wait_for_client_or_chef poll
    poll_once pop_order push_order receive_request enter_wait sort_request attend inform_chef
    take_food_to_table
leaves_unread = (refl, refl, refl, refl)
