-- ===== src/Generator/Ending.antt =====
-- src/probSemSharedMemRestaurant.c: the loop of `main` that waits for the processes, and the timer
-- process that ends after five seconds.
use mathlib.Core.Path.{subst}
use so2023_trabalho.Base.{
  ℕ, ◌+◌, ◌<◌, ◌≡◌, ◌≢◌, refl, inl, inr, Bool, true, false, Bool-cases, ◌&&◌, if◌then◌else◌, ℤ, pos,
  negsuc, zero, is_pos, List, [], ◌∷◌, ◌++◌, map, length, ltb, ==_ne, ==_refl, lt→ltb, ltb→lt,
  arith,
}

-- How far `main` comes with the results of `wait` so far: it waits for another one, it goes on with
-- `EXIT_SUCCESS`, it has reported a deadlock and goes on with `EXIT_FAILURE`, or it exits at once.
pub data Ending : Type 0 where
  waiting : Ending
  finished : Ending
  deadlocked : Ending
  wait_failed : Ending

-- The `do` loop with the counter `m`; `debug` is whether `SEMDEBUG` is defined, and `infos` are the
-- results of the calls of `wait`.
unfoldable pub wait_loop : Bool → ℕ → ℕ → List ℤ → ℕ → Ending
wait_loop debug pid_timer n [] m = waiting
wait_loop debug pid_timer n (negsuc zero ∷ infos) m = wait_failed
wait_loop debug pid_timer n (info ∷ infos) m =
    let rest = wait_loop debug pid_timer n infos (m + 1) in
    if is_pos info pid_timer && debug
    then deadlocked
    else if ltb (m + 1) (3 + n)
    then rest
    else finished

-- No process of the list is the timer.
abbrev pub AllOthers : ℕ → List ℕ → Type 0
AllOthers timer [] = Unit
AllOthers timer (p ∷ ps) = (p ≢ timer) × AllOthers timer ps

module _ (debug : Bool) (timer n : ℕ) where
  wait-others :
      (pids : List ℕ) (more : List ℤ) (m : ℕ)
      → AllOthers timer pids
      → m + length pids < 3 + n
      → wait_loop debug timer n (map pos pids ++ more) m
        ≡ wait_loop debug timer n more (m + length pids)
  unfolding wait_loop
  wait-others [] more m h lt = let same : m + 0 ≡ m = omega arith in rw same
  wait-others (p ∷ ps) more m h lt =
      let step : m + length (p ∷ ps) ≡ m + 1 + length ps = omega arith in
      rw (==_ne p timer h.0, lt→ltb (m + 1) (3 + n) (omega arith), step)
        (wait-others ps more (m + 1) h.1 (omega arith))

  wait-all :
      (pids : List ℕ) (m : ℕ)
      → AllOthers timer pids
      → m < 3 + n
      → wait_loop debug timer n (map pos pids) m
        ≡ (if ltb (m + length pids) (3 + n) then waiting else finished)
  unfolding wait_loop
  wait-all [] m h lt = ground arith
  wait-all (p ∷ ps) m h lt = elim (Bool-cases (ltb (m + 1) (3 + n))) [
    | inl more ↦
        ground (arith, ==_ne p timer h.0, wait-all ps (m + 1) h.1 (ltb→lt (m + 1) (3 + n) more))
    | inr last ↦ ground (arith, ==_ne p timer h.0)
  ]

-- With `SEMDEBUG`, a deadlock is reported if the timer ends when fewer than `3 + n` processes have, none of
-- which is the timer.
pub timer-deadlocked :
    (timer n : ℕ) (pids : List ℕ) (more : List ℤ)
    → AllOthers timer pids
    → length pids < 3 + n
    → wait_loop true timer n (map pos pids ++ pos timer ∷ more) 0 ≡ deadlocked
unfolding wait_loop
timer-deadlocked timer n pids more h lt =
    rw (wait-others true timer n pids (pos timer ∷ more) 0 h (omega arith), ==_refl timer) refl

-- If no process is the timer, the loop of `main` goes on with success as soon as `3 + n` processes have
-- ended, and waits while fewer have, with `SEMDEBUG` or without.
pub processes-finished :
    (debug : Bool) (timer n : ℕ) (pids : List ℕ)
    → AllOthers timer pids
    → wait_loop debug timer n (map pos pids) 0
      ≡ (if ltb (length pids) (3 + n) then waiting else finished)
processes-finished debug timer n pids h =
    let start : 0 + length pids ≡ length pids = omega arith in
    subst
      (λ k.
        wait_loop debug timer n (map pos pids) 0 ≡ (if ltb k (3 + n) then waiting else finished))
      start (wait-all debug timer n pids 0 h (omega arith))

-- Without `SEMDEBUG` the timer counts as a process: once it and `2 + n` of the `3 + n` processes have
-- ended, in this order or with the timer before the last of them, `main` goes on as if all had.
pub timer-finished :
    (timer n p : ℕ) (pids : List ℕ)
    → AllOthers timer pids
    → p ≢ timer
    → length pids ≡ 1 + n
    → (wait_loop false timer n (map pos pids ++ pos timer ∷ pos p ∷ []) 0 ≡ finished)
      × (wait_loop false timer n (map pos pids ++ pos p ∷ pos timer ∷ []) 0 ≡ finished)
unfolding wait_loop
timer-finished timer n p pids h ne e = (
  rw (wait-others false timer n pids (pos timer ∷ pos p ∷ []) 0 h (omega arith), e) (ground arith),
  rw (wait-others false timer n pids (pos p ∷ pos timer ∷ []) 0 h (omega arith), e) (ground arith),
)
