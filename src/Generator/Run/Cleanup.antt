-- ===== src/Generator/Run/Cleanup.antt =====
-- What `main` of src/probSemSharedMemRestaurant.c leaves behind.
use so2023_trabalho.Base.{ℕ, ◌+◌, ◌≡◌, Bool, List, [], ◌∷◌, pos}
use so2023_trabalho.Config.{Config}
use so2023_trabalho.Semaphore.{Ipc}
use so2023_trabalho.SharedMemory.{ShmIpc}
use so2023_trabalho.Generator.Ending.{Ending}
use so2023_trabalho.Generator.Run.{Effect, removed_set, detached_block, removed_block, Answers}
use so2023_trabalho.Generator.Run.Leaves.{Leaves}

abbrev removed : List Effect
removed = removed_set ∷ detached_block ∷ removed_block ∷ []

module _ (os : Ipc) (shm : ShmIpc) (debug : Bool) (size : ℕ) (answers : Answers) where
  -- The last `fork` has returned 0: the process is the timer.
  abbrev pub IsTimer : Type 0
  IsTimer = (n : ℕ) × (answers.fork (n + 3) ≡ pos 0)
