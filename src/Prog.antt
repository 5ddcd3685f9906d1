-- ===== src/Prog.antt =====
-- The programs of the four kinds of process: what each does to the semaphore set, to the full state
-- in shared memory and to the log, an action at a time, and the run of one process alone.
pub mod Runs
use so2023_trabalho.Base.{
  ℕ, ◌-◌, ◌+◌, true, false, List, ◌++◌, ltb, ◌==◌, if◌then◌else◌, update, ℤ, pos, negsuc,
}
use so2023_trabalho.Shared.{FullStat}
use so2023_trabalho.Sync.{mutex}
use so2023_trabalho.Logging.{save_state}

pub data Prog (A : Type 0) : Type 0 where
  ret : A → Prog A
  down : ℕ → Prog A → Prog A  -- `semDownOrExit (index, …)`
  up : ℕ → Prog A → Prog A  -- `semUpOrExit (index, …)`
  fetch : (FullStat → Prog A) → Prog A  -- a read of `sh->fSt`
  store : (FullStat → FullStat) → Prog A → Prog A  -- an assignment to a part of `sh->fSt`
  save : Prog A → Prog A  -- `saveState (nFic, &sh->fSt)`
  nap : Prog A → Prog A  -- `usleep`
  hang : Prog A  -- `sleep(-1)`
  fault : Prog A  -- undefined behaviour: an index out of its array
  tired : Prog A  -- the fuel of a loop is used up

infixl 5 ◌>>=◌ ◌>>◌
abbrev pub ◌>>=◌ : {A B : Type 0} → Prog A → (A → Prog B) → Prog B
ret a >>= f = f a
down s k >>= f = down s (k >>= f)
up s k >>= f = up s (k >>= f)
fetch k >>= f = fetch (λ st. k st >>= f)
store g k >>= f = store g (k >>= f)
save k >>= f = save (k >>= f)
nap k >>= f = nap (k >>= f)
hang >>= f = hang
fault >>= f = fault
tired >>= f = tired

abbrev pub ◌>>◌ : {B : Type 0} → Prog (Unit {0}) → Prog B → Prog B
m >> k = m >>= λ _. k

abbrev pub sem_down : ℕ → Prog (Unit {0})
sem_down s = down s (ret tt)

abbrev pub sem_up : ℕ → Prog (Unit {0})
sem_up s = up s (ret tt)

abbrev pub get : {A : Type 0} → (FullStat → A) → Prog A
get f = fetch (λ st. ret (f st))

abbrev pub put : (FullStat → FullStat) → Prog (Unit {0})
put f = store f (ret tt)

abbrev pub save_log : Prog (Unit {0})
save_log = save (ret tt)

-- The new state of an entity, saved under the mutex: how every operation of the program begins.
abbrev pub save_under_mutex : (FullStat → FullStat) → Prog (Unit {0})
save_under_mutex f = do sem_down mutex; put f; save_log; sem_up mutex

abbrev pub usleep : Prog (Unit {0})
usleep = nap (ret tt)

-- The index of an access to an array of `size` elements.
abbrev pub at : ℕ → ℤ → Prog ℕ
at size (pos i) = if ltb i size then ret i else fault
at size (negsuc _) = fault

-- What the processes share: the full state, the values of the semaphores, and the log file.
pub record World : Type 0 where
  pub full : FullStat
  pub sem : ℕ → ℕ
  pub log : List ℕ

-- How far a process comes alone: to a result, to a semaphore that is 0 (with the program that is left
-- to run once it is raised), to a sleep without end, to undefined behaviour, or to the end of its
-- fuel.
pub data Outcome (A : Type 0) : Type 0 where
  done : A → World → Outcome A
  blocked : ℕ → Prog A → World → Outcome A
  hung : World → Outcome A
  faulted : Outcome A
  unfinished : Outcome A

unfoldable pub run : {A : Type 0} → Prog A → World → Outcome A
run (ret a) w = done a w
run (down s k) w = elim (w.sem s == 0) [
  | true ↦ blocked s (down s k) w
  | false ↦ run k (record w { sem = update w.sem s (w.sem s - 1) })
]
run (up s k) w = run k (record w { sem = update w.sem s (w.sem s + 1) })
run (fetch k) w = run (k w.full) w
run (store f k) w = run k (record w { full = f w.full })
run (save k) w = run k (record w { log = w.log ++ save_state w.full })
run (nap k) w = run k w
run hang w = hung w
run fault w = faulted
run tired w = unfinished
