-- ===== src/Generator/Run.antt =====
-- `main` of src/probSemSharedMemRestaurant.c from its first call to its exit: what it creates and removes,
-- and where it gives up. The calls of src/semaphore.c and src/sharedMemory.c are those of their modules.
pub mod Leaves
pub mod Cleanup
use so2023_trabalho.Base.{
  ℕ, zero, suc, ◌+◌, Bool, true, false, ltb, if◌then◌else◌, Option, none, some, List, [], ◌∷◌,
  length, ℤ, pos, negsuc, is_minus_one, is_pos,
}
use so2023_trabalho.Sync.{mutex, waiter_request_possible, receptionist_request_possible, sem_nu}
use so2023_trabalho.Config.{Config, missing, overflows, found, read_config}
use so2023_trabalho.Startup.{name_size}
use so2023_trabalho.Semaphore.{
  Ipc, Call, result, sleeping, hung, aborted, sem_create, sem_up_raw, sem_signal, sem_destroy,
}
use so2023_trabalho.SharedMemory.{ShmIpc, shmem_create, shmem_attach, shmem_dettach, shmem_destroy}
use so2023_trabalho.Generator.Ending.{Ending, waiting, finished, deadlocked, wait_failed, wait_loop}

-- What `main` does to the system's resources.
pub data Effect : Type 0 where
  created_block : Effect
  created_set : Effect
  removed_set : Effect
  detached_block : Effect
  removed_block : Effect

-- How the process that runs `main` ends: with one of the two exit codes, by undefined behaviour or an abort,
-- not yet, as another program after `execl`, or in a way that is not followed here, after a config.txt
-- without its numbers.
pub data Exit : Type 0 where
  succeeds : Exit
  fails : Exit
  crashes : Exit
  waits_on : Exit
  replaced : Exit
  strays : Exit

abbrev pub Run : Type 0
Run = Exit × List Effect

-- What the other calls of `main` return: `ftok`, the text of config.txt where `fopen` finds it, the `fork`s
-- in their order with the `execl` that a child calls after each but the last, and `wait`. An `execl` that
-- succeeds does not return: `none`.
pub record Answers : Type 0 where
  pub key : ℤ
  pub config : Option (List ℕ)
  pub fork : ℕ → ℤ
  pub exec : ℕ → Option ℤ
  pub waits : List ℤ

-- The test for -1 after a call.
abbrev pub check : ℤ → Run → Run
check r next = if is_minus_one r then (fails, []) else next

abbrev pub note : Effect → Run → Run
note e (x, es) = (x, e ∷ es)

abbrev pub check_call : Call → ((ℕ → ℕ) → Run) → Run
check_call (result r sem) next = check r (next sem)
check_call sleeping next = (waits_on, [])
check_call hung next = (waits_on, [])
check_call aborted next = (crashes, [])

-- `fork () < 0`; the child, which gets 0, goes on with `child`, and the parent with `parent`.
abbrev pub check_fork : ℤ → Run → Run → Run
check_fork (pos zero) child parent = child
check_fork (pos (suc pid)) child parent = parent
check_fork (negsuc _) child parent = (fails, [])

-- `execl (...) < 0`
abbrev pub check_exec : Option ℤ → Run → Run
check_exec none next = (replaced, [])
check_exec (some (pos _)) next = next
check_exec (some (negsuc _)) next = (fails, [])

-- `k` processes that become other programs, from the `i`-th on.
unfoldable pub forks : (ℕ → ℤ) → (ℕ → Option ℤ) → ℕ → ℕ → Run → Run
forks fork exec zero i next = next
forks fork exec (suc k) i next =
    let rest = forks fork exec k (i + 1) next in check_fork (fork i) (check_exec (exec i) rest) rest

abbrev pub pid_of : ℤ → ℕ
pid_of (pos pid) = pid
pid_of (negsuc _) = 0

module _ (os : Ipc) (shm : ShmIpc) (debug : Bool) (size : ℕ) (answers : Answers) where
  -- From the `semDestroy` on; `ret` is the exit code.
  unfoldable pub tear_down : Exit → ℤ → ℤ → ℤ → Run
  tear_down ret semgid shmid sh = check (sem_destroy os semgid) (
      note removed_set (
        check (shmem_dettach shm sh)
          (note detached_block (check (shmem_destroy shm shmid) (note removed_block (ret, []))))))

  -- What follows the loop of `wait`.
  unfoldable pub after_loop : Ending → ℤ → ℤ → ℤ → Run
  unfolding tear_down
  after_loop waiting semgid shmid sh = (waits_on, [])
  after_loop finished semgid shmid sh = tear_down succeeds semgid shmid sh
  after_loop deadlocked semgid shmid sh = tear_down fails semgid shmid sh
  after_loop wait_failed semgid shmid sh = (fails, [])

  -- The timer: the child sleeps and exits, the parent gives the start signal and waits in the loop.
  unfoldable pub run_timer : ℕ → ℤ → ℤ → ℤ → (ℕ → ℕ) → Run
  unfolding after_loop
  run_timer n semgid shmid sh sem =
      check_fork (answers.fork (n + 3)) (succeeds, [])
        (check_call (sem_signal os semgid sem) (λ _.
          after_loop (wait_loop debug (pid_of (answers.fork (n + 3))) n answers.waits 0) semgid
            shmid sh))

  -- The processes of the `n` groups, the waiter, the chef, the receptionist and the timer.
  unfoldable pub run_processes : ℕ → ℤ → ℤ → ℤ → (ℕ → ℕ) → Run
  unfolding forks run_timer
  run_processes n semgid shmid sh sem =
      forks answers.fork answers.exec (n + 3) 0 (run_timer n semgid shmid sh sem)

  -- The three semaphores that are raised.
  unfoldable pub raise_all : ℕ → ℤ → ℤ → ℤ → Run
  unfolding run_processes
  raise_all n semgid shmid sh = check_call (sem_up_raw os semgid mutex (λ _. 0)) (λ one.
      check_call (sem_up_raw os semgid waiter_request_possible one) (λ two.
        check_call (sem_up_raw os semgid receptionist_request_possible two)
          (λ three. run_processes n semgid shmid sh three)))

  unfoldable pub with_config : Config → ℤ → ℤ → Run
  unfolding raise_all
  with_config missing shmid sh = (strays, [])
  with_config overflows shmid sh = (crashes, [])
  with_config (found (negsuc _) start eat) shmid sh = (strays, [])
  with_config (found (pos n) start eat) shmid sh =
      let semgid = sem_create os answers.key (sem_nu n) in
      check semgid (note created_set (raise_all n semgid shmid sh))

  -- A block that is not mapped leaves `sh` unset. The segment is filled with zeros.
  unfoldable pub with_block : ℤ → Run
  unfolding with_config
  with_block shmid =
      let mapped = shmem_attach shm shmid (pos 0) in
      check (mapped.0) (
        if is_pos (mapped.1) 0 then (crashes, []) else elim answers.config [
          | none ↦ (fails, [])
          | some text ↦ with_config (read_config text (λ _. pos 0) (λ _. pos 0)) shmid (mapped.1)
        ])

  unfoldable pub set_up : Run
  unfolding with_block
  set_up = check answers.key (
      let shmid = shmem_create shm answers.key size in
      check shmid (note created_block (with_block shmid)))

  -- The arguments of the program; `size` is `sizeof (SHARED_DATA)`.
  unfoldable pub main : List (List ℕ) → Run
  unfolding set_up
  main (program ∷ nfic ∷ []) = if ltb (length nfic) name_size then set_up else (crashes, [])
  main _ = set_up
