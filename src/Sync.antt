-- ===== src/Sync.antt =====
-- src/sharedDataSync.h, and the part of `main` in src/probSemSharedMemRestaurant.c that stores the
-- ids: where each semaphore of the simulation stands in the set. The ids of the arrays depend on the
-- number of groups `n`.
pub mod Layout
pub mod Naming
use so2023_trabalho.Base.{ℕ, ◌+◌, ◌*◌}
use so2023_trabalho.Shared.{num_tables}

abbrev pub mutex : ℕ
mutex = 1

abbrev pub receptionist_req : ℕ
receptionist_req = 2

abbrev pub receptionist_request_possible : ℕ
receptionist_request_possible = 3

abbrev pub waiter_request : ℕ
waiter_request = 4

abbrev pub waiter_request_possible : ℕ
waiter_request_possible = 5

abbrev pub wait_order : ℕ
wait_order = 6

abbrev pub order_received : ℕ
order_received = 7

-- `WAITFORTABLE+g`
abbrev pub wait_for_table : ℕ → ℕ
wait_for_table g = 8 + g

-- `FOODARRIVED+t`, with `FOODARRIVED` after the groups
abbrev pub food_arrived : ℕ → ℕ → ℕ
food_arrived n t = 8 + n + t

abbrev pub request_received : ℕ → ℕ → ℕ
request_received n t = 8 + n + num_tables + t

abbrev pub table_done : ℕ → ℕ → ℕ
table_done n t = 8 + n + num_tables + num_tables + t

-- `SEM_NU`: the size that `semCreate` is asked for; it adds one for the start signal at index 0.
abbrev pub sem_nu : ℕ → ℕ
sem_nu n = 7 + n + 3 * num_tables
