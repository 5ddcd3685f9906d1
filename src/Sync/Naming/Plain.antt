-- ===== src/Sync/Naming/Plain.antt =====
-- The names of the semaphores in src/semDebug_sharedDataSync.h are short, ASCII, and stay in their line.
use so2023_trabalho.Base.{ℕ, ◌+◌, ◌-◌, refl, List, ◌++◌, codes, pos, arith}
use so2023_trabalho.Shared.{num_tables}
use so2023_trabalho.Logging.{show_int}
use so2023_trabalho.Logging.Plain.{IsPlain, append-IsPlain, take-IsPlain, show_int-IsPlain, plain}
use so2023_trabalho.Sync.Naming.{numbered, array_name, semaphore_text, get_semaphore_name}

numbered-IsPlain : (text : List ℕ) (k : ℕ) → IsPlain text → IsPlain (numbered text k)
unfolding numbered
numbered-IsPlain text k h = append-IsPlain text (show_int (pos k) ++ codes ")") h (
    append-IsPlain (show_int (pos k)) (codes ")") (show_int-IsPlain (pos k))
      (plain (codes ")") refl))

array_name-IsPlain : (n index : ℕ) → IsPlain (array_name n index)
unfolding array_name
array_name-IsPlain n index = ground (
  arith,
  numbered-IsPlain (codes "waitForTable (group ") (index - (8))
      (plain (codes "waitForTable (group ") refl),
  numbered-IsPlain (codes "foodArrived (table ") (index - (8 + n))
      (plain (codes "foodArrived (table ") refl),
  numbered-IsPlain (codes "requestReceived (table ") (index - (8 + n + num_tables))
      (plain (codes "requestReceived (table ") refl),
  numbered-IsPlain (codes "tableDone (table ") (index - (8 + n + num_tables + num_tables))
      (plain (codes "tableDone (table ") refl),
  plain (codes "(UNKNOWN SEMAPHORE)") refl,
)

semaphore_text-IsPlain : (n index : ℕ) → IsPlain (semaphore_text n index)
unfolding semaphore_text
semaphore_text-IsPlain n index = ground (
  arith,
  plain (codes "NULL (bug!)") refl,
  plain (codes "mutex") refl,
  plain (codes "receptionistReq") refl,
  plain (codes "receptionistRequestPossible") refl,
  plain (codes "waiterRequest") refl,
  plain (codes "waiterRequestPossible") refl,
  plain (codes "waitOrder") refl,
  plain (codes "orderReceived") refl,
  array_name-IsPlain n index,
)

pub name-IsPlain : (n index size : ℕ) → IsPlain ((get_semaphore_name n index size).0)
unfolding get_semaphore_name
name-IsPlain n index size =
    take-IsPlain (size - 1) (semaphore_text n index) (semaphore_text-IsPlain n index)
