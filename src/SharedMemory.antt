-- ===== src/SharedMemory.antt =====
-- src/sharedMemory.c: the operations on the shared block, as calls of the System V interface, which is
-- a parameter.
use so2023_trabalho.Base.{
  ℕ, ◌≢◌, bit_or, ℤ, pos, minus_one, is_minus_one, if◌then◌else◌, Bool-cases, inl, inr, arith,
}
use so2023_trabalho.Semaphore.{mask}

-- An address is a number, and `(void *) -1` is -1.
pub record ShmIpc : Type 0 where
  pub ipc_creat : ℕ
  pub ipc_excl : ℕ
  pub shmget : ℤ → ℕ → ℕ → ℤ  -- the key, the size and the flags
  pub shmat : ℤ → ℤ
  pub shmdt : ℤ → ℤ
  pub remove : ℤ → ℤ  -- `shmctl (shmid, IPC_RMID, NULL)`

module _ (os : ShmIpc) where
  open os use {ipc_creat, ipc_excl, shmget, shmat, shmdt, remove}

  unfoldable pub shmem_create : ℤ → ℕ → ℤ
  shmem_create key size = shmget key size (bit_or (bit_or mask ipc_creat) ipc_excl)

  unfoldable pub shmem_connect : ℤ → ℤ
  shmem_connect key = shmget key 1 mask

  unfoldable pub shmem_destroy : ℤ → ℤ
  shmem_destroy shmid = remove shmid

  -- The result, and the pointer at `pAttAdd` after the call, where it was `old`.
  unfoldable pub shmem_attach : ℤ → ℤ → ℤ × ℤ
  shmem_attach shmid old =
      let add = shmat shmid in if is_minus_one add then (pos 1, old) else (pos 0, add)

  unfoldable pub shmem_dettach : ℤ → ℤ
  shmem_dettach att_add = shmdt att_add

  -- The result of `shmemAttach` is never -1, whatever `shmat` returns: the tests for -1 of its callers
  -- see no failure.
  pub attach_unnoticed : (shmid old : ℤ) → (shmem_attach shmid old).0 ≢ minus_one
  unfolding shmem_attach
  attach_unnoticed shmid old = elim (Bool-cases (is_minus_one (shmat shmid))) [
    | inl e ↦ rw e (ground arith)
    | inr e ↦ rw e (ground arith)
  ]
