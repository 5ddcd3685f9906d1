-- ===== src/System.antt =====
-- The processes of the simulation side by side, in any interleaving of their actions: process 0 is
-- the receptionist, 1 the waiter, 2 the chef, and 3 + g is group g.
pub mod Resource
pub mod Guarded
pub mod Owned
pub mod Ends
pub mod Rules
pub mod Safety
pub mod Schedule
pub mod Messages
pub mod Fuel
use so2023_trabalho.Base.{
  ℕ, zero, suc, ◌+◌, ◌-◌, ◌<◌, ◌≡◌, Bool, true, false, Option, none, some, List, ◌++◌, ◌==◌,
  if◌then◌else◌, update, ℤ,
}
use so2023_trabalho.Logging.{save_state}
use so2023_trabalho.Prog.{
  Prog, ret, down, up, fetch, store, save, nap, hang, fault, tired, ◌>>=◌, ◌>>◌, World,
}
use so2023_trabalho.Receptionist.{receptionist}
use so2023_trabalho.Waiter.{waiter}
use so2023_trabalho.Chef.{chef}
use so2023_trabalho.Group.{group}
use so2023_trabalho.Generator.{init_world}

-- One action of a program; `none` where it has ended, is asleep or has to wait.
unfoldable pub act : {A : Type 0} → Prog A → World → Option (Prog A × World)
act (down s k) w =
    if w.sem s == 0 then none else some (k, record w { sem = update w.sem s (w.sem s - 1) })
act (up s k) w = some (k, record w { sem = update w.sem s (w.sem s + 1) })
act (fetch k) w = some (k w.full, w)
act (store f k) w = some (k, record w { full = f w.full })
act (save k) w = some (k, record w { log = w.log ++ save_state w.full })
act (nap k) w = some (k, w)
act _ w = none

pub record System : Type 0 where
  pub world : World
  pub proc : ℕ → Prog (Unit {0})

-- One of the processes makes its next action.
pub data Step (n : ℕ) (s : System) : System → Type 0 where
  pick :
      (i : ℕ) (p : Prog (Unit {0})) (w : World)
      → i < 3 + n
      → act (s.proc i) s.world ≡ some (p, w)
      → Step n s (record { world = w; proc = update s.proc i p })

-- The programs that `main` starts. `fuel` is what the waiter gets for each search for a request.
unfoldable pub program : (ℤ → Bool) → ℕ → ℕ → ℕ → Prog (Unit {0})
program late fuel n zero = receptionist n >>= λ _. ret tt
program late fuel n (suc zero) = waiter fuel n
program late fuel n (suc (suc zero)) = chef n
program late fuel n (suc (suc (suc g))) = group late n g

unfoldable pub init_system : (ℤ → Bool) → ℕ → List ℕ → ℕ → (ℕ → ℤ) → (ℕ → ℤ) → System
unfolding program
init_system late fuel log n start eat = record {
  world = init_world log n start eat;
  proc = program late fuel n;
}

-- The states that the simulation can come to from `s`.
pub data Reach (n : ℕ) (s : System) : System → Type 0 where
  here : Reach n s s
  later : {t u : System} → Reach n s t → Step n t u → Reach n s u
