-- ===== src/Tests/Starting.antt =====
-- The theorems on the arguments and on config.txt at concrete inputs.
use so2023_trabalho.Base.{
  some, none, true, if◌then◌else◌, ◌==◌, ℕ, zero, suc, ◌+◌, ◌≡◌, refl, List, [], ◌∷◌, length, ℤ,
  pos, negsuc, update, codes, arith,
}
use so2023_trabalho.Logging.{show_int}
use so2023_trabalho.Semaphore.{call_of, sem_create, sem_up_raw, result, sem_connect}
use so2023_trabalho.Semaphore.SystemV.{perform, perform_one, connect-signal}
use so2023_trabalho.SharedMemory.{shmem_create, shmem_attach, ShmIpc}
use so2023_trabalho.Numerals.{is_space, scan_int, signed, decimal, number, digit_of, skip_space}
use so2023_trabalho.Startup.{
  Joined, start_group, start_chef, start_waiter, start_receptionist, runs, group_args, server_args,
}
use so2023_trabalho.Startup.Arguments.{
  group_starts, negative_starts, servers_start, started_group, IsAllowed, IsJoined,
}
use so2023_trabalho.Config.{read_config, found, overflows}
use so2023_trabalho.Config.RoundTrip.{
  config_text, starts, eats, read_config-config_text, read_config_overflow,
}
use so2023_trabalho.Generator.Run.{
  Answers, succeeds, created_block, created_set, main, set_up, with_block, with_config, raise_all,
  run_timer, run_processes, forks,
}
use so2023_trabalho.Tests.Environment.{kernel, red}

-- A block that can be mapped.
abbrev blocks : ShmIpc
blocks = record {
  ipc_creat = 512;
  ipc_excl = 1024;
  shmget = λ key size flags. pos 3;
  shmat = λ shmid. pos 4096;
  shmdt = λ add. pos 0;
  remove = λ shmid. pos 0;
}

abbrev common_key : ℤ
common_key = pos 1627521121

abbrev log_name : List ℕ
log_name = codes "log"

abbrev errors : List ℕ
errors = codes "error_GR04"

-- The start signal has been given.
abbrev green : ℕ → ℕ
green = update red 0 1

connects : sem_connect kernel common_key green ≡ result (pos 7) green
connects = (connect-signal kernel (pos 7) 5 (λ ops sem. refl) common_key 7 red refl refl refl).2

abbrev all_there : Joined
all_there = record {
  nfic = log_name;
  key = common_key;
  semgid = pos 7;
  shmid = pos 3;
  sh = pos 4096;
}

group_starts_example :
    start_group kernel blocks (group_args 4 log_name common_key errors) green
    ≡ (pos 4, runs all_there green)
group_starts_example =
    group_starts kernel blocks log_name common_key green green 7 3 4096 (omega arith) (omega arith)
      connects refl refl 4 errors (omega arith)

negative_starts_example :
    start_group kernel blocks
      (codes "./group" ∷ show_int (negsuc 0) ∷ log_name ∷ show_int common_key ∷ errors ∷ [])
      green
    ≡ (negsuc 0, runs all_there green)
negative_starts_example =
    negative_starts kernel blocks log_name common_key green green 7 3 4096 (omega arith)
      (omega arith) connects refl refl 0 (codes "./group") errors (omega arith)

servers_start_example :
    (start_chef kernel blocks (server_args (codes "./chef") log_name common_key errors) green
      ≡ runs all_there green)
    × (start_waiter kernel blocks (server_args (codes "./waiter") log_name common_key errors) green
        ≡ runs all_there green)
    × (start_receptionist kernel blocks
          (server_args (codes "./receptionist") log_name common_key errors)
          green
        ≡ runs all_there green)
servers_start_example =
    servers_start kernel blocks log_name common_key green green 7 3 4096 (omega arith) (omega arith)
      connects refl refl (codes "./chef") (codes "./waiter") (codes "./receptionist") errors

started_group_example :
    (length (group_args 4 log_name common_key errors) ≡ 5) × IsAllowed (pos 4) × IsJoined all_there
started_group_example =
    started_group kernel blocks (group_args 4 log_name common_key errors) green green (pos 4)
      all_there
      (group_starts kernel blocks log_name common_key green green 7 3 4096 (omega arith)
        (omega arith) connects refl refl 4 errors (omega arith))

abbrev no_times : ℕ → ℤ
no_times _ = pos 0

abbrev two_groups : List (ℤ × ℤ)
two_groups = (pos 50000, pos 100000) ∷ (pos 10000, pos 600000) ∷ []

-- config.txt says `#ngroups` in its first line and `#startTime timeToEat` in its third.
read_config-config_text_example :
    read_config
      (config_text (codes "#ngroups") b'#' (codes "startTime timeToEat") two_groups)
      no_times
      no_times
    ≡ found (pos 2) (starts 0 two_groups no_times) (eats 0 two_groups no_times)
unfolding is_space
read_config-config_text_example =
    read_config-config_text (codes "#ngroups") b'#' (codes "startTime timeToEat") two_groups
      no_times no_times refl refl refl (omega arith)
      (omega arith, omega arith, (omega arith, omega arith, tt))

abbrev times : ℕ → List (ℤ × ℤ)
times zero = []
times (suc k) = (pos 10000, pos 100000) ∷ times k

read_config_overflow_example :
    read_config (config_text (codes "#n") b'#' (codes "times") (times 17)) no_times no_times
    ≡ overflows
unfolding is_space
read_config_overflow_example =
    read_config_overflow (codes "#n") b'#' (codes "times") (times 17) no_times no_times refl refl
      refl (omega arith) (omega arith)

abbrev one_row : List (ℤ × ℤ)
one_row = (pos 50000, pos 100000) ∷ []

-- One group; the processes have the ids 101 to 105, of which 105 is the timer.
abbrev evening_answers : Answers
evening_answers = record {
  key = common_key;
  config = some (config_text (codes "#ngroups") b'#' (codes "startTime timeToEat") one_row);
  fork = λ i. pos (101 + i);
  exec = λ i. none;
  waits = pos 101 ∷ pos 103 ∷ pos 102 ∷ pos 104 ∷ [];
}

one_row_read :
    read_config
      (config_text (codes "#ngroups") b'#' (codes "startTime timeToEat") one_row)
      no_times
      no_times
    ≡ found (pos 1) (starts 0 one_row no_times) (eats 0 one_row no_times)
unfolding is_space
one_row_read =
    read_config-config_text (codes "#ngroups") b'#' (codes "startTime timeToEat") one_row no_times
      no_times refl refl refl (omega arith) (omega arith, omega arith, tt)

-- The same evening in the process of the timer: it ends with success and leaves the block and the set.
timer_leaves :
    main kernel blocks true 4096
      (record evening_answers { fork = λ i. if i == 4 then pos 0 else pos (101 + i) })
      (codes "./probSemSharedMemRestaurant" ∷ [])
    ≡ (succeeds, created_block ∷ created_set ∷ [])
unfolding main set_up with_block with_config raise_all run_timer run_processes forks sem_create
    sem_up_raw call_of perform perform_one shmem_create shmem_attach
timer_leaves = rw one_row_read refl

-- A number past the end of `int` is stored with its low 32 bits.
scan_wraps : scan_int (codes "2147483648 1") ≡ some (negsuc 2147483647, codes " 1")
unfolding scan_int signed decimal number digit_of skip_space is_space
scan_wraps = refl
