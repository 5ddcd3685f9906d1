-- ===== src/Startup.antt =====
-- How the processes start: the arguments that `main` of src/probSemSharedMemRestaurant.c gives them, and
-- what each does with them up to its life cycle, in the `main` of src/semSharedMemGroup.c,
-- src/semSharedMemChef.c, src/semSharedMemWaiter.c and src/semSharedMemReceptionist.c.
pub mod Arguments
use so2023_trabalho.Base.{
  ℕ, suc, zero, ◌+◌, ◌-◌, Bool, true, false, ◌||◌, not, ltb, leb, ◌==◌, if◌then◌else◌, List, [],
  ◌∷◌, ℤ, pos, negsuc, is_minus_one, length, codes,
}
use so2023_trabalho.Shared.{max_groups}
use so2023_trabalho.Logging.{show_int}
use so2023_trabalho.Numerals.{strtol, int_of_long}
use so2023_trabalho.Semaphore.{Ipc, Call, result, sleeping, hung, aborted, sem_connect}
use so2023_trabalho.SharedMemory.{ShmIpc, shmem_connect, shmem_attach}

-- Why a process ends at once with `EXIT_FAILURE`.
pub data Failure : Type 0 where
  wrong_count : Failure
  wrong_id : Failure
  wrong_key : Failure
  no_set : Failure
  no_block : Failure
  not_mapped : Failure

-- What a process has when it starts its life cycle: the name of the log file, the key, the ids of the
-- set and of the block, and the address `sh`.
pub record Joined : Type 0 where
  pub nfic : List ℕ
  pub key : ℤ
  pub semgid : ℤ
  pub shmid : ℤ
  pub sh : ℤ

-- How a start ends, with the values of the semaphores then.
pub data Start : Type 0 where
  fails : Failure → Start
  overflows : Start  -- `strcpy` writes past the end of `nFic`
  asleep : Start  -- `semConnect` waits for the start signal
  runs : Joined → (ℕ → ℕ) → Start

-- `sizeof (nFic)`
abbrev pub name_size : ℕ
name_size = 51

abbrev is_empty : List ℕ → Bool
is_empty [] = true
is_empty (c ∷ s) = false

-- `n >= MAXGROUPS`, as signed numbers.
abbrev pub too_large : ℤ → Bool
too_large (pos m) = leb max_groups m
too_large (negsuc m) = false

module _ (os : Ipc) (shm : ShmIpc) where
  -- The static pointer `sh` is null before.
  map_block : List ℕ → ℤ → ℤ → ℤ → (ℕ → ℕ) → Start
  map_block nfic key semgid shmid sem =
      let mapped = shmem_attach shm shmid (pos 0) in
      if is_minus_one (mapped.0)
      then fails not_mapped
      else runs (record { nfic = nfic; key = key; semgid = semgid; shmid = shmid; sh = mapped.1 })
          sem

  find_block : List ℕ → ℤ → ℤ → (ℕ → ℕ) → Start
  unfolding map_block
  find_block nfic key semgid sem =
      if is_minus_one (shmem_connect shm key)
      then fails no_block
      else map_block nfic key semgid (shmem_connect shm key) sem

  -- `semConnect` neither aborts nor sleeps for another reason.
  join : List ℕ → ℤ → Call → Start
  unfolding find_block
  join nfic key (result semgid sem) =
      if is_minus_one semgid then fails no_set else find_block nfic key semgid sem
  join nfic key sleeping = asleep
  join nfic key hung = asleep
  join nfic key aborted = asleep

  -- From `strcpy (nFic, …)` on.
  with_key : List ℕ → List ℕ → (ℕ → ℕ) → Start
  unfolding join
  with_key nfic key_text sem =
      if ltb (length nfic) name_size
      then if is_empty ((strtol key_text).1)
        then join nfic (int_of_long ((strtol key_text).0))
            (sem_connect os (int_of_long ((strtol key_text).0)) sem)
        else fails wrong_key
      else overflows

  -- The chef's `argv` and the values of the semaphores; the last argument names the error file.
  unfoldable pub start_chef : List (List ℕ) → (ℕ → ℕ) → Start
  unfolding with_key
  start_chef (program ∷ nfic ∷ key_text ∷ err ∷ []) sem = with_key nfic key_text sem
  start_chef _ sem = fails wrong_count

  -- The same code stands in the other two.
  unfoldable pub start_waiter : List (List ℕ) → (ℕ → ℕ) → Start
  unfolding start_chef
  start_waiter argv sem = start_chef argv sem

  unfoldable pub start_receptionist : List (List ℕ) → (ℕ → ℕ) → Start
  unfolding start_chef
  start_receptionist argv sem = start_chef argv sem

  -- The group's id as well; 0 where it does not come so far.
  unfoldable pub start_group : List (List ℕ) → (ℕ → ℕ) → ℤ × Start
  unfolding with_key
  start_group (program ∷ id_text ∷ nfic ∷ key_text ∷ err ∷ []) sem =
      let n = int_of_long ((strtol id_text).0) in
      if not (is_empty ((strtol id_text).1)) || too_large n
      then (n, fails wrong_id)
      else (n, with_key nfic key_text sem)
  start_group _ sem = (pos 0, fails wrong_count)

-- The arguments of `execl` for group `g`, and for one of the other processes.
unfoldable pub group_args : ℕ → List ℕ → ℤ → List ℕ → List (List ℕ)
group_args g nfic key err = codes "./group" ∷ show_int (pos g) ∷ nfic ∷ show_int key ∷ err ∷ []

unfoldable pub server_args : List ℕ → List ℕ → ℤ → List ℕ → List (List ℕ)
server_args program nfic key err = program ∷ nfic ∷ show_int key ∷ err ∷ []
