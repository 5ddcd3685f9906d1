-- ===== src/Semaphore/SystemV.antt =====
-- The operations of src/semaphore.c where `semop` does what its manual says: next to the actions of the
-- programs, and the start signal.
use so2023_trabalho.Base.{
  ℕ, suc, ◌+◌, ◌-◌, ◌%◌, ◌^◌, ◌≡◌, ◌<◌, ◌≤◌, refl, ap, sym, true, false, Bool-cases, inl, inr, ◌==◌,
  if◌then◌else◌, ltb, ℤ, pos, negsuc, minus_one, update, Option, none, some, List, [], ◌∷◌, ==_ne,
  lt→ltb, arith,
}
use so2023_trabalho.Shared.{max_groups}
use so2023_trabalho.Sync.{sem_nu}
use so2023_trabalho.Prog.{Prog, down, up, World}
use so2023_trabalho.System.{act}
use so2023_trabalho.Semaphore.{
  Sembuf, Semop, returned, waits, failed, Ipc, Call, result, sleeping, call_of, connected, init_ops,
  sem_connect, sem_signal, sem_down_raw, sem_up_raw, mask,
}

-- The largest value of a semaphore, `SEMVMX`.
abbrev pub semvmx : ℕ
semvmx = 32767

-- One operation on a set of `nsems` semaphores with the values `sem`. An operation 0, which waits for
-- the value 0, does not occur here.
unfoldable pub perform_one : ℕ → ℕ → ℤ → (ℕ → ℕ) → Semop
perform_one nsems i (negsuc k) sem =
    if ltb i nsems
    then if ltb k (sem i) then returned (update sem i (sem i - suc k)) else waits
    else failed
perform_one nsems i (pos k) sem =
    if ltb i nsems
    then if ltb semvmx (sem i + k) then failed else returned (update sem i (sem i + k))
    else failed

-- The manual's list of operations, all or none.
unfoldable pub perform : ℕ → List Sembuf → (ℕ → ℕ) → Semop
unfolding perform_one
perform nsems [] sem = returned sem
perform nsems (o ∷ ops) sem = elim (perform_one nsems o.sem_num o.sem_op sem) [
  | returned sem' ↦ perform nsems ops sem'
  | waits ↦ waits
  | failed ↦ failed
]

-- `semop` on the set `semgid` of `nsems` semaphores does what its manual says.
abbrev pub IsSystemV : Ipc → ℤ → ℕ → Type 0
IsSystemV os semgid nsems =
    (ops : List Sembuf) (sem : ℕ → ℕ) → os.semop semgid ops sem ≡ perform nsems ops sem

-- What an action of a program is as a call on the set.
abbrev pub call_of_act : {A : Type 0} → Option (Prog A × World) → Call
call_of_act none = sleeping
call_of_act (some (p, w)) = result (pos 0) w.sem

module _ (os : Ipc) (semgid : ℤ) (n : ℕ) (ok : IsSystemV os semgid (sem_nu n + 1)) where
  small_index : (s : ℕ) → n ≤ max_groups → s ≤ sem_nu n → s % 2 ^ 16 ≡ s
  small_index s few h = omega arith

  perform-down :
      (s : ℕ) (sem : ℕ → ℕ)
      → s < sem_nu n + 1
      → perform (sem_nu n + 1) (record { sem_num = s; sem_op = minus_one } ∷ []) sem
        ≡ (if sem s == 0 then waits else returned (update sem s (sem s - 1)))
  unfolding perform
  perform-down s sem h = ground (arith)

  perform-up :
      (s : ℕ) (sem : ℕ → ℕ)
      → s < sem_nu n + 1
      → sem s < semvmx
      → perform (sem_nu n + 1) (record { sem_num = s; sem_op = pos 1 } ∷ []) sem
        ≡ returned (update sem s (sem s + 1))
  unfolding perform
  perform-up s sem h small = ground (arith)

  -- With `semop` as its manual describes it, on the set that `main` creates for up to `MAXGROUPS` groups:
  -- for the index of a semaphore from 1 to `SEM_NU`, `SEMDOWN` and `SEMUP` do to the set what the two
  -- actions of a program do, the wait of `SEMDOWN` included, where the value is below `SEMVMX`.
  pub raw_calls-act :
      {A : Type 0} (s : ℕ) (k : Prog A) (w : World)
      → n ≤ max_groups
      → 0 < s
      → s ≤ sem_nu n
      → w.sem s < semvmx
      → (sem_down_raw os semgid s w.sem ≡ call_of_act (act (down s k) w))
        × (sem_up_raw os semgid s w.sem ≡ call_of_act (act (up s k) w))
  unfolding sem_down_raw sem_up_raw call_of act
  raw_calls-act s k w few some_s h small = (
    rw
        (
          ==_ne s 0 (omega arith),
          small_index s few h,
          ok (record { sem_num = s; sem_op = minus_one } ∷ []) w.sem,
          perform-down s w.sem (omega arith),
        )
        (elim (Bool-cases (w.sem s == 0)) [ inl e ↦ rw e refl | inr e ↦ rw e refl ]),
    rw
        (
          ==_ne s 0 (omega arith),
          small_index s few h,
          ok (record { sem_num = s; sem_op = pos 1 } ∷ []) w.sem,
          perform-up s w.sem (omega arith) small,
        )
        refl,
  )

  -- The values after the two operations of `semConnect`, where the signal has been given.
  restored :
      (sem : ℕ → ℕ)
      → 0 < sem 0
      → (i : ℕ) → update (update sem 0 (sem 0 - 1)) 0 (sem 0 - 1 + 1) i ≡ sem i
  restored sem h i = ground arith

  restored_all :
      (sem : ℕ → ℕ) → 0 < sem 0 → update (update sem 0 (sem 0 - 1)) 0 (sem 0 - 1 + 1) ≡ sem
  restored_all sem h = λ j i. restored sem h i j

  perform-init :
      (sem : ℕ → ℕ)
      → sem 0 < semvmx
      → perform (sem_nu n + 1) init_ops sem ≡ (if sem 0 == 0 then waits else returned sem)
  unfolding perform
  perform-init sem small = elim (Bool-cases (sem 0 == 0)) [
    | inl red ↦ ground arith
    | inr more ↦
        let in_set : ltb 0 (sem_nu n + 1) ≡ true = lt→ltb 0 (sem_nu n + 1) (omega arith) in
        let enough : ltb 0 (sem 0) ≡ true = ground arith in
        let fits : ltb semvmx (sem 0 - 1 + 1) ≡ false = ground arith in
        rw (more, perform, perform_one, in_set, enough, fits, in_set)
          (ap returned (restored_all sem (ground arith)))
  ]

  -- With `semop` as its manual describes it, a process that connects to the set waits until `semSignal`
  -- has been called; from then on every process that connects gets the id, and leaves the set as it is.
  pub connect-signal :
      (key : ℤ) (id : ℕ) (sem : ℕ → ℕ)
      → semgid ≡ pos id
      → os.semget key 1 mask ≡ pos id
      → sem 0 ≡ 0
      → (sem_connect os key sem ≡ sleeping)
        × (sem_signal os semgid sem ≡ result (pos 0) (update sem 0 1))
        × (sem_connect os key (update sem 0 1) ≡ result semgid (update sem 0 1))
  unfolding sem_connect sem_signal connected call_of
  connect-signal key id sem e found red = (
    rw (found, sym e, sem_connect, ok init_ops sem, perform-init sem (omega (arith, red)), red)
        refl,
    rw
        (
          ok (record { sem_num = 0; sem_op = pos 1 } ∷ []) sem,
          perform-up 0 sem (omega arith) (omega (arith, red)),
          red,
        )
        refl,
    rw
        (
          found,
          sym e,
          sem_connect,
          ok init_ops (update sem 0 1),
          perform-init (update sem 0 1) (omega arith),
        )
        refl,
  )
