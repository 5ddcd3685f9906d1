-- ===== src/Semaphore.antt =====
-- src/semaphore.c: the operations on the semaphore set, as calls of the System V interface, which is
-- a parameter: `semget`, `semop` and `semctl` are what the operating system does with the arguments
-- on a set of semaphores.
pub mod SystemV
use so2023_trabalho.Base.{
  ℕ, zero, suc, ◌+◌, ◌-◌, ◌%◌, ◌^◌, ◌≡◌, ◌<◌, refl, bit_or, Bool, true, false, ◌==◌, if◌then◌else◌,
  ltb, ℤ, pos, negsuc, minus_one, update, Option, none, some, List, [], ◌∷◌, arith,
}

-- `struct sembuf`, of which `sem_flg` is always 0 here.
pub record Sembuf : Type 0 where
  pub sem_num : ℕ
  pub sem_op : ℤ

-- What a call of `semop` comes to: it returns with the set after it, it waits, or it fails with -1.
pub data Semop : Type 0 where
  returned : (ℕ → ℕ) → Semop
  waits : Semop
  failed : Semop

-- `MASK`, 0600.
abbrev pub mask : ℕ
mask = 384

-- The numbers of `IPC_CREAT` and `IPC_EXCL` are the system's.
pub record Ipc : Type 0 where
  pub ipc_creat : ℕ
  pub ipc_excl : ℕ
  pub semget : ℤ → ℕ → ℕ → ℤ  -- the key, the number of semaphores and the flags
  pub semop : ℤ → List Sembuf → (ℕ → ℕ) → Semop  -- the set's id and its values
  pub remove : ℤ → ℤ  -- `semctl (semgid, 0, IPC_RMID, NULL)`

-- What a call of an operation comes to: it returns, with the set after it, or it waits, or it does not
-- return.
pub data Call : Type 0 where
  result : ℤ → (ℕ → ℕ) → Call
  sleeping : Call
  hung : Call  -- `sleep(-1)`
  aborted : Call  -- `assert (sindex > 0)`

unfoldable pub call_of : (ℕ → ℕ) → Semop → Call
call_of sem (returned sem') = result (pos 0) sem'
call_of sem waits = sleeping
call_of sem failed = result minus_one sem

-- The two operations of `init` wait for the start signal and leave it for the next process.
abbrev pub init_ops : List Sembuf
init_ops = record { sem_num = 0; sem_op = minus_one } ∷ record { sem_num = 0; sem_op = pos 1 } ∷ []

pub connected : ℤ → (ℕ → ℕ) → Semop → Call
connected semgid sem (returned sem') = result semgid sem'
connected semgid sem waits = sleeping
connected semgid sem failed = result minus_one sem

module _ (os : Ipc) where
  open os use {ipc_creat, ipc_excl, semget, semop, remove}

  -- One more semaphore than is asked for: that of the start, at index 0.
  unfoldable pub sem_create : ℤ → ℕ → ℤ
  sem_create key snum = semget key (snum + 1) (bit_or (bit_or mask ipc_creat) ipc_excl)

  unfoldable pub sem_connect : ℤ → (ℕ → ℕ) → Call
  unfolding connected
  sem_connect key sem = elim (semget key 1 mask) [
    | negsuc zero ↦ result minus_one sem
    | semgid ↦ connected semgid sem (semop semgid init_ops sem)
  ]

  unfoldable pub sem_destroy : ℤ → ℤ
  sem_destroy semgid = remove semgid

  unfoldable pub sem_signal : ℤ → (ℕ → ℕ) → Call
  unfolding call_of
  sem_signal semgid sem =
      call_of sem (semop semgid (record { sem_num = 0; sem_op = pos 1 } ∷ []) sem)

  -- `SEMDOWN`, the call without a record of the event. `sem_num` is an `unsigned short`.
  pub sem_down_raw : ℤ → ℕ → (ℕ → ℕ) → Call
  unfolding call_of
  sem_down_raw semgid sindex sem =
      if sindex == 0
      then hung
      else call_of sem
          (semop semgid (record { sem_num = sindex % 2 ^ 16; sem_op = minus_one } ∷ []) sem)

  -- `SEMUP`
  unfoldable pub sem_up_raw : ℤ → ℕ → (ℕ → ℕ) → Call
  unfolding call_of
  sem_up_raw semgid sindex sem =
      if sindex == 0
      then aborted
      else call_of sem
          (semop semgid (record { sem_num = sindex % 2 ^ 16; sem_op = pos 1 } ∷ []) sem)
