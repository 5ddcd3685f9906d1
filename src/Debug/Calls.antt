-- ===== src/Debug/Calls.antt =====
-- src/semDebug.h: the operations on semaphores as the processes call them, with SEMDEBUG (`true`) or
-- without, on the set of src/semaphore.c.
use so2023_trabalho.Base.{
  ℕ, ◌+◌, ◌≡◌, ◌<◌, ◌≤◌, refl, Bool, if◌then◌else◌, ℤ, is_minus_one, Option, none, some, List, [],
}
use so2023_trabalho.Shared.{max_groups}
use so2023_trabalho.Sync.{sem_nu}
use so2023_trabalho.Prog.{Prog, down, up, World}
use so2023_trabalho.System.{act}
use so2023_trabalho.Semaphore.{Ipc, Call, result, sleeping, hung, aborted, sem_down_raw, sem_up_raw}
use so2023_trabalho.Semaphore.SystemV.{IsSystemV, semvmx, call_of_act, raw_calls-act}
use so2023_trabalho.Debug.Events.{Buffer, down_action, up_action, write_ev_to_buffer}

-- `semdebug_init`, with what `getpid` returns; the buffer is the channel from then on.
unfoldable pub init : Buffer → ℕ → Option Buffer
init ch pid = some (record ch { pid = pid })

-- `semdebug_logEvent`; `none` is the null pointer.
abbrev pub log_event : Option Buffer → ℕ → ℕ → Option (List ℕ) → Option Buffer
log_event ch action index none = write_ev_to_buffer ch action index []
log_event ch action index (some reason) = write_ev_to_buffer ch action index reason

abbrev recorded : Bool → Option Buffer → ℕ → ℕ → Option (List ℕ) → Option Buffer
recorded debug ch action index reason = if debug then log_event ch action index reason else ch

-- `none`: the process ends with `EXIT_FAILURE`.
abbrev or_exit : Call → Option Call
or_exit (result r sem) = if is_minus_one r then none else some (result r sem)
or_exit sleeping = some sleeping
or_exit hung = some hung
or_exit aborted = some aborted

module _ (os : Ipc) (debug : Bool) where
  -- The event is recorded before the call.
  pub sem_down : Option Buffer → ℤ → ℕ → (ℕ → ℕ) → Option Buffer × Call
  sem_down ch semgid index sem =
      (recorded debug ch down_action index none, sem_down_raw os semgid index sem)

  pub sem_up : Option Buffer → ℤ → ℕ → (ℕ → ℕ) → Option Buffer × Call
  sem_up ch semgid index sem =
      (recorded debug ch up_action index none, sem_up_raw os semgid index sem)

  unfoldable pub sem_down_or_exit :
      Option Buffer → ℤ → ℕ → Option (List ℕ) → (ℕ → ℕ) → Option Buffer × Option Call
  sem_down_or_exit ch semgid index reason sem =
      (recorded debug ch down_action index reason, or_exit (sem_down_raw os semgid index sem))

  unfoldable pub sem_up_or_exit :
      Option Buffer → ℤ → ℕ → Option (List ℕ) → (ℕ → ℕ) → Option Buffer × Option Call
  sem_up_or_exit ch semgid index reason sem =
      (recorded debug ch up_action index reason, or_exit (sem_up_raw os semgid index sem))

act_goes_on :
    {A : Type 0} (x : Option (Prog A × World)) → or_exit (call_of_act x) ≡ some (call_of_act x)
act_goes_on none = refl
act_goes_on (some (p, w)) = refl

-- With `semop` as its manual describes it, on the set that `main` creates for up to `MAXGROUPS` groups:
-- for the index of a semaphore from 1 to `SEM_NU` whose value is below `SEMVMX`, `semDownOrExit` and
-- `semUpOrExit` do not end the process, and do to the set what the two actions of a program do, with
-- SEMDEBUG or without.
pub or_exit-act :
    {A : Type 0} (os : Ipc) (debug : Bool) (semgid : ℤ) (n : ℕ)
    (ok : IsSystemV os semgid (sem_nu n + 1)) (ch : Option Buffer) (s : ℕ)
    (reason : Option (List ℕ)) (k : Prog A) (w : World)
    → n ≤ max_groups
    → 0 < s
    → s ≤ sem_nu n
    → w.sem s < semvmx
    → ((sem_down_or_exit os debug ch semgid s reason w.sem).1
        ≡ some (call_of_act (act (down s k) w)))
      × ((sem_up_or_exit os debug ch semgid s reason w.sem).1 ≡ some (call_of_act (act (up s k) w)))
unfolding sem_down_or_exit sem_up_or_exit
or_exit-act os debug semgid n ok ch s reason k w few some_s h small =
    let (d, u) = raw_calls-act os semgid n ok s k w few some_s h small in
    (rw d (act_goes_on (act (down s k) w)), rw u (act_goes_on (act (up s k) w)))
