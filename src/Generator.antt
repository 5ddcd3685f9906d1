-- ===== src/Generator.antt =====
-- src/probSemSharedMemRestaurant.c: the state that `main` sets up before it starts the processes.
pub mod Ending
pub mod Run
use so2023_trabalho.Base.{ℕ, ◌+◌, List, ◌++◌, update, ℤ, pos, minus_one}
use so2023_trabalho.Shared.{FullStat, Request, go_to_rest, wait_for_order, wait_for_request}
use so2023_trabalho.Sync.{mutex, waiter_request_possible, receptionist_request_possible}
use so2023_trabalho.Logging.{save_state}
use so2023_trabalho.Prog.{World}

abbrev blank_request : Request
blank_request = record { req_type = pos 0; req_group = pos 0 }

-- `n`, `start` and `eat` are read from config.txt. What `main` does not store is 0, since a new
-- segment of shared memory is filled with zeros.
unfoldable pub init_state : ℕ → (ℕ → ℤ) → (ℕ → ℤ) → FullStat
init_state n start eat = record {
  st = record {
    receptionist_stat = wait_for_request;
    waiter_stat = wait_for_request;
    chef_stat = wait_for_order;
    group_stat = λ _. go_to_rest;
  };
  n_groups = n;
  groups_waiting = 0;
  start_time = start;
  eat_time = eat;
  assigned_table = λ _. minus_one;
  food_order = 0;
  food_group = pos 0;
  receptionist_request = blank_request;
  waiter_request = blank_request;
}

-- `semUp` on one semaphore.
abbrev raise_sem : ℕ → (ℕ → ℕ) → ℕ → ℕ
raise_sem s sem = update sem s (sem s + 1)

-- All semaphores of the new set are red, and three are raised.
unfoldable pub init_sems : ℕ → ℕ
init_sems =
    raise_sem receptionist_request_possible
      (raise_sem waiter_request_possible (raise_sem mutex (λ _. 0)))

-- `log` is the text that `createLog` has written.
unfoldable pub init_world : List ℕ → ℕ → (ℕ → ℤ) → (ℕ → ℤ) → World
unfolding init_state init_sems
init_world log n start eat = record {
  full = init_state n start eat;
  sem = init_sems;
  log = log ++ save_state (init_state n start eat);
}
