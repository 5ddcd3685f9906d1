-- ===== src/Tests/Interleavings.antt =====
-- The theorems on the interleavings at concrete inputs.
use so2023_trabalho.Base.{
  ℕ, ◌+◌, ◌*◌, ◌≤◌, ◌≡◌, ◌≢◌, ◌⊎◌, refl, false, List, [], ◌∷◌, ◌++◌, pos, arith,
}
use so2023_trabalho.Sync.{
  wait_order, mutex, receptionist_req, receptionist_request_possible, waiter_request,
  waiter_request_possible,
}
use so2023_trabalho.Prog.{hang, tired}
use so2023_trabalho.Generator.{init_world, init_sems, init_state}
use so2023_trabalho.Receptionist.{
  receptionist, serve_loop, wait_for_group, serve, provide_table_or_waiting_room, seat_or_queue,
  decide_table_or_wait, set_table_occupied, init_record, scan_tables, is_table_occupied,
}
use so2023_trabalho.Group.{group, go_to_restaurant, check_in_at_reception, order_food}
use so2023_trabalho.System.{System, Reach, here, init_system, program, act}
use so2023_trabalho.System.Schedule.{after, move, after-Reach}
use so2023_trabalho.System.Safety.{
  mutex_exclusive, desk_exclusive, waiter_exclusive, semaphores_bounded, mutex_holder_acts,
  HeldByOne,
}
use so2023_trabalho.System.Messages.{IsDeskRequest, IsFloorRequest, IsGroup}
use so2023_trabalho.System.Messages.Truth.{announced_holds, never_hangs}
use so2023_trabalho.System.Fuel.Enough.{never_tired}
use so2023_trabalho.System.Ends.Budget.{length_of, run_bounded}
use so2023_trabalho.System.Rules.{mutex_resource}

-- One group that arrives at once, and the processes that act in turn.
abbrev one_group : System
one_group = init_system (λ _. false) 3 [] 1 (λ _. pos 0) (λ _. pos 0)

abbrev desk : ℕ
desk = 0

abbrev party : ℕ
party = 3

abbrev played : List ℕ → System
played is = after 1 is one_group

abbrev saving : List ℕ
saving = 0 ∷ 0 ∷ []

abbrev placing : List ℕ
placing = 3 ∷ 3 ∷ 3 ∷ 3 ∷ 3 ∷ 3 ∷ 3 ∷ []

abbrev seating : List ℕ
seating = 3 ∷ 0 ∷ 0 ∷ 0 ∷ 0 ∷ 0 ∷ 0 ∷ 0 ∷ 0 ∷ 0 ∷ 0 ∷ 0 ∷ 0 ∷ 0 ∷ []

abbrev ordering : List ℕ
ordering = placing ++ seating ++ (3 ∷ 3 ∷ 3 ∷ 3 ∷ 3 ∷ 3 ∷ 3 ∷ [])

plays : (is : List ℕ) → Reach 1 one_group (played is)
plays is = after-Reach 1 one_group is one_group here

mutex_exclusive_example : (desk ≡ desk) × ((played saving).world.sem mutex ≡ 0)
unfolding after move act init_system init_world program receptionist serve_loop wait_for_group
mutex_exclusive_example =
    mutex_exclusive (λ _. false) 3 [] 1 (λ _. pos 0) (λ _. pos 0) (played saving) (plays saving)
      desk desk (omega arith) (omega arith) (λ f. f) (λ f. f)

desk_exclusive_example :
    (party ≡ party)
    × ((played placing).world.sem receptionist_req
          + (played placing).world.sem receptionist_request_possible
        ≡ 0)
unfolding after move act init_system init_world program group go_to_restaurant check_in_at_reception
desk_exclusive_example =
    desk_exclusive (λ _. false) 3 [] 1 (λ _. pos 0) (λ _. pos 0) (played placing) (plays placing)
      party party (omega arith) (omega arith) refl refl

waiter_exclusive_example :
    (party ≡ party)
    × ((played ordering).world.sem waiter_request
          + (played ordering).world.sem waiter_request_possible
        ≡ 0)
unfolding after move act init_system init_world init_sems init_state init_record program group
    go_to_restaurant check_in_at_reception order_food receptionist serve_loop wait_for_group serve
    provide_table_or_waiting_room seat_or_queue decide_table_or_wait set_table_occupied
    is_table_occupied scan_tables
waiter_exclusive_example =
    waiter_exclusive (λ _. false) 3 [] 1 (λ _. pos 0) (λ _. pos 0) (played ordering)
      (plays ordering) party party (omega arith) (omega arith) refl refl

semaphores_bounded_example :
    ((played ordering).world.sem mutex ≤ 1)
    × ((played ordering).world.sem receptionist_req
          + (played ordering).world.sem receptionist_request_possible
        ≤ 1)
    × ((played ordering).world.sem waiter_request
          + (played ordering).world.sem waiter_request_possible
        ≤ 1)
semaphores_bounded_example =
    semaphores_bounded (λ _. false) 3 [] 1 (λ _. pos 0) (λ _. pos 0) (played ordering)
      (plays ordering)

mutex_holder_acts_example : HeldByOne 1 (played saving) mutex_resource
unfolding after move act init_system init_world init_sems program receptionist serve_loop
    wait_for_group
mutex_holder_acts_example =
    mutex_holder_acts (λ _. false) 3 [] 1 (λ _. pos 0) (λ _. pos 0) (played saving) (plays saving)
      refl

run_bounded_example : (length_of (plays saving) ≤ 141 * 1 + 6) × ((played saving).proc 1 ≢ tired)
run_bounded_example =
    run_bounded (λ _. false) 3 [] 1 (λ _. pos 0) (λ _. pos 0) (played saving) (plays saving)
      (omega arith)

announced_holds_example :
    (((played ordering).world.sem receptionist_req ≡ 0)
      ⊎ IsDeskRequest 1 (played ordering).world.full.receptionist_request)
    × (((played ordering).world.sem waiter_request ≡ 0)
        ⊎ IsFloorRequest 1 (played ordering).world.full.waiter_request)
    × (((played ordering).world.sem wait_order ≡ 0)
        ⊎ IsGroup 1 (played ordering).world.full.food_group)
announced_holds_example =
    announced_holds (λ _. false) 3 [] 1 (λ _. pos 0) (λ _. pos 0) (played ordering) (plays ordering)

never_hangs_example : (played ordering).proc 1 ≢ hang
never_hangs_example =
    never_hangs (λ _. false) 3 [] 1 (λ _. pos 0) (λ _. pos 0) (played ordering) (plays ordering) 1
      (omega arith) (omega arith)

never_tired_example : (played ordering).proc 1 ≢ tired
never_tired_example =
    never_tired (λ _. false) 3 [] 1 (λ _. pos 0) (λ _. pos 0) (omega arith) (played ordering)
      (plays ordering)
