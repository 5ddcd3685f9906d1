-- ===== src/Prog/Runs.antt =====
-- Runs of the pieces that the operations are made of.
use so2023_trabalho.Base.{
  false, ℕ, ◌-◌, ◌+◌, ◌<◌, ◌≡◌, ◌≢◌, refl, inl, inr, Bool-cases, ◌++◌, lt→ltb, ◌==◌, ==_ne, update,
  pos, arith,
}
use so2023_trabalho.Shared.{FullStat}
use so2023_trabalho.Sync.{mutex}
use so2023_trabalho.Logging.{save_state}
use so2023_trabalho.Prog.{
  Prog, ret, down, up, fetch, store, save, nap, hang, fault, tired, World, done, blocked, run,
  ◌>>=◌, ◌>>◌, save_under_mutex, at,
}
use mathlib.Core.Path.{fun_ext}

-- The world after the new state is saved: the mutex is as it was.
abbrev pub saved : (FullStat → FullStat) → World → World
saved f w = record w { full = f w.full; log = w.log ++ save_state (f w.full) }

abbrev pub raise : ℕ → World → World
raise s w = record w { sem = update w.sem s (w.sem s + 1) }

pub down_up :
    (sem : ℕ → ℕ) (s : ℕ)
    → sem s ≢ 0
    → update (update sem s (sem s - 1)) s (update sem s (sem s - 1) s + 1) ≡ sem
down_up sem s free = fun_ext (λ t. ground arith)

-- With the mutex free, the new state is saved and the mutex given back.
pub run-save_under_mutex :
    {A : Type 0} (f : FullStat → FullStat) (k : Prog A) (w : World)
    → w.sem mutex ≢ 0
    → run (save_under_mutex f >> k) w ≡ run k (saved f w)
unfolding run
run-save_under_mutex f k w free =
    rw (==_ne (w.sem mutex) 0 free, run) (rw (down_up w.sem mutex free) refl)

-- An access in range goes through.
pub run-at :
    {A : Type 0} (size i : ℕ) (k : ℕ → Prog A) (w : World)
    → i < size
    → run (at size (pos i) >>= k) w ≡ run (k i) w
run-at size i k w lt = rw (lt→ltb i size lt)

-- A program that ends is run before what follows it.
pub run->>= :
    {A B : Type 0} (m : Prog A) (f : A → Prog B) (w : World) {a : A} {v : World}
    → run m w ≡ done a v
    → run (m >>= f) w ≡ run (f a) v
unfolding run
run->>= (ret x) f w e = cc
run->>= (down s k) f w {a} {v} e = elim (Bool-cases (w.sem s == 0)) [
  | inl none ↦ (let stuck : blocked s (down s k) w ≡ done a v = rw (none, run) at e in cc)
  | inr more ↦ rw (more, run) (run->>= k f _ (rw (more, run) at e))
]
run->>= (up s k) f w e = run->>= k f _ e
run->>= (fetch k) f w e = run->>= (k w.full) f w e
run->>= (store g k) f w e = run->>= k f _ e
run->>= (save k) f w e = run->>= k f _ e
run->>= (nap k) f w e = run->>= k f w e
run->>= hang f w e = cc
run->>= fault f w e = cc
run->>= tired f w e = cc

-- A semaphore that has just been raised, taken.
up_down :
    (sem : ℕ → ℕ) (s : ℕ)
    → update (update sem s (sem s + 1)) s (update sem s (sem s + 1) s - 1) ≡ sem
up_down sem s = fun_ext (λ t. ground arith)

raised : (sem : ℕ → ℕ) (s : ℕ) → (update sem s (sem s + 1) s == 0) ≡ false
raised sem s = ground arith

pub run-raised :
    {A : Type 0} (s : ℕ) (k : Prog A) (w : World) → run (down s k) (raise s w) ≡ run k w
unfolding run
run-raised s k w = rw (raised w.sem s, run) (rw (up_down w.sem s) refl)

pub run-red :
    {A : Type 0} (s : ℕ) (k : Prog A) (w : World)
    → w.sem s ≡ 0
    → run (down s k) w ≡ blocked s (down s k) w
unfolding run
run-red s k w e = rw (e, run) refl
