-- ===== src/Tests/Environment.antt =====
-- The theorems on the semaphore set, the shared block, the log and the report at concrete inputs.
use so2023_trabalho.Base.{
  ℕ, ◌+◌, List, inl, inr, Bool-cases, ltb→lt, ◌≡◌, ◌≢◌, refl, true, false, [], ◌∷◌, ◌++◌, map,
  length, ltb, if◌then◌else◌, pos, minus_one, update, arith,
}
use so2023_trabalho.Shared.{FullStat, Request}
use so2023_trabalho.Sync
use so2023_trabalho.Logging.{save_state, print_header}
use so2023_trabalho.Logging.Columns.{IsShortTable, IsShort, state_aligned}
use so2023_trabalho.Prog.{ret, down, up, World}
use so2023_trabalho.System.{act}
use so2023_trabalho.Semaphore.{
  Ipc, result, sleeping, sem_connect, sem_signal, sem_down_raw, sem_up_raw,
}
use so2023_trabalho.Semaphore.SystemV.{perform, call_of_act, raw_calls-act, connect-signal}
use so2023_trabalho.SharedMemory.{ShmIpc, shmem_attach, attach_unnoticed}
use so2023_trabalho.Generator.Ending.{
  wait_loop, waiting, finished, deadlocked, timer-deadlocked, processes-finished, timer-finished,
}

abbrev nobody : Request
nobody = record { req_type = pos 0; req_group = pos 0 }

abbrev pub evening : FullStat
evening = record {
  st = record { receptionist_stat = 1; waiter_stat = 0; chef_stat = 2; group_stat = λ _. 3 };
  n_groups = 5;
  groups_waiting = 12;
  start_time = λ _. pos 10;
  eat_time = λ _. pos 20;
  assigned_table = λ g. if ltb g 2 then pos g else minus_one;
  food_order = 0;
  food_group = pos 0;
  receptionist_request = nobody;
  waiter_request = nobody;
}

short_table : (g : ℕ) → IsShortTable (evening.assigned_table g)
short_table g = elim (Bool-cases (ltb g 2)) [
  | inl e ↦ let h = ltb→lt g 2 e in rw e (omega arith)
  | inr e ↦ rw e refl
]

evening-IsShort : IsShort evening
evening-IsShort = record {
  chef = omega arith;
  waiter = omega arith;
  receptionist = omega arith;
  groups = λ g. omega arith;
  waiting = omega arith;
  tables = short_table;
}

state_aligned_example : length (save_state evening) ≡ length (print_header evening)
state_aligned_example = state_aligned evening evening refl (omega arith) evening-IsShort

-- A system with one set, of the semaphores for five groups, and one block, that cannot be mapped.
abbrev pub kernel : Ipc
kernel = record {
  ipc_creat = 512;
  ipc_excl = 1024;
  semget = λ key number flags. pos 7;
  semop = λ semgid ops sem. perform (Sync.sem_nu 5 + 1) ops sem;
  remove = λ semgid. pos 0;
}

abbrev full_kernel : ShmIpc
full_kernel = record {
  ipc_creat = 512;
  ipc_excl = 1024;
  shmget = λ key size flags. pos 3;
  shmat = λ shmid. minus_one;
  shmdt = λ add. pos 0;
  remove = λ shmid. pos 0;
}

abbrev pub red : ℕ → ℕ
red _ = 0

abbrev pub dark : World
dark = record { full = evening; sem = red; log = [] }

raw_calls-act_example :
    (sem_down_raw kernel (pos 7) 9 red ≡ call_of_act (act (down 9 (ret tt)) dark))
    × (sem_up_raw kernel (pos 7) 9 red ≡ call_of_act (act (up 9 (ret tt)) dark))
raw_calls-act_example =
    raw_calls-act kernel (pos 7) 5 (λ ops sem. refl) 9 (ret tt) dark (omega arith) (omega arith)
      (omega arith) (omega arith)

connect-signal_example :
    (sem_connect kernel (pos 1) red ≡ sleeping)
    × (sem_signal kernel (pos 7) red ≡ result (pos 0) (update red 0 1))
    × (sem_connect kernel (pos 1) (update red 0 1) ≡ result (pos 7) (update red 0 1))
connect-signal_example =
    connect-signal kernel (pos 7) 5 (λ ops sem. refl) (pos 1) 7 red refl refl refl

attach_unnoticed_example : (shmem_attach full_kernel (pos 3) (pos 0)).0 ≢ minus_one
attach_unnoticed_example = attach_unnoticed full_kernel (pos 3) (pos 0)

timer-deadlocked_example :
    wait_loop true 20 2 (map pos (11 ∷ 12 ∷ []) ++ pos 20 ∷ []) 0 ≡ deadlocked
timer-deadlocked_example =
    timer-deadlocked 20 2 (11 ∷ 12 ∷ []) [] (omega arith, (omega arith, tt)) (omega arith)

abbrev four : List ℕ
four = 11 ∷ 12 ∷ 13 ∷ 14 ∷ []

processes-finished_example :
    wait_loop true 20 1 (map pos four) 0 ≡ (if ltb (length four) (3 + 1) then waiting else finished)
processes-finished_example =
    processes-finished true 20 1 four (omega arith, (omega arith, (omega arith, (omega arith, tt))))

timer-finished_example :
    (wait_loop false 20 1 (map pos (11 ∷ 12 ∷ []) ++ pos 20 ∷ pos 13 ∷ []) 0 ≡ finished)
    × (wait_loop false 20 1 (map pos (11 ∷ 12 ∷ []) ++ pos 13 ∷ pos 20 ∷ []) 0 ≡ finished)
timer-finished_example =
    timer-finished 20 1 13 (11 ∷ 12 ∷ []) (omega arith, (omega arith, tt)) (omega arith) refl
