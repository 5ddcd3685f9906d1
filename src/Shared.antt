-- ===== src/Shared.antt =====
-- src/probConst.h and src/probDataStruct.h: the constants of the problem, the requests and the
-- full state that the processes keep in shared memory.
use so2023_trabalho.Base.{ℕ, ℤ}

-- Generic parameters.
abbrev pub max_groups : ℕ
max_groups = 16

abbrev pub num_tables : ℕ
num_tables = 2

-- The kinds of request.
abbrev pub table_req : ℕ
table_req = 1

abbrev pub bill_req : ℕ
bill_req = 2

abbrev pub food_req : ℕ
food_req = 3

abbrev pub food_ready : ℕ
food_ready = 4

-- The states of a group.
abbrev pub go_to_rest : ℕ
go_to_rest = 1

abbrev pub at_reception : ℕ
at_reception = 2

abbrev pub food_request : ℕ
food_request = 3

abbrev pub wait_for_food : ℕ
wait_for_food = 4

abbrev pub eating : ℕ
eating = 5

abbrev pub checkout : ℕ
checkout = 6

abbrev pub leaving : ℕ
leaving = 7

-- The states of the chef.
abbrev pub wait_for_order : ℕ
wait_for_order = 0

abbrev pub cook : ℕ
cook = 1

abbrev pub rest : ℕ
rest = 2

-- The states of the waiter; the receptionist starts in the first, too.
abbrev pub wait_for_request : ℕ
wait_for_request = 0

abbrev pub inform_chef_stat : ℕ
inform_chef_stat = 1

abbrev pub take_to_table : ℕ
take_to_table = 2

-- The states of the receptionist.
abbrev pub assign_table : ℕ
assign_table = 1

abbrev pub recv_pay : ℕ
recv_pay = 2

-- `request`: both fields are `int`, since the waiter starts from { -1, -1 }.
pub record Request : Type 0 where
  pub req_type : ℤ
  pub req_group : ℤ

-- `STAT`
pub record Stat : Type 0 where
  pub receptionist_stat : ℕ
  pub waiter_stat : ℕ
  pub chef_stat : ℕ
  pub group_stat : ℕ → ℕ

-- `FULL_STAT`. `groupsWaiting` is only counted up, and counted down where it is not 0; the flag
-- `foodOrder` is 0 or 1.
pub record FullStat : Type 0 where
  pub st : Stat
  pub n_groups : ℕ
  pub groups_waiting : ℕ
  pub start_time : ℕ → ℤ
  pub eat_time : ℕ → ℤ
  pub assigned_table : ℕ → ℤ
  pub food_order : ℕ
  pub food_group : ℤ
  pub receptionist_request : Request
  pub waiter_request : Request
