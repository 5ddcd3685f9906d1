-- ===== src/Debug/Diagnostics.antt =====
-- src/semDebug_sharedDataSync.h: what the deadlock report knows of each process
-- (`semdebug_getProcDiagnostics`). Whether `opendir` finds a directory is a parameter.
pub mod Waits
use so2023_trabalho.Base.{
  ℕ, zero, suc, ◌+◌, ◌-◌, Bool, true, false, not, ltb, ◌==◌, if◌then◌else◌, Option, none, some,
  List, [], ◌∷◌, ◌++◌, pos, codes,
}
use so2023_trabalho.Shared.{FullStat, max_groups}
use so2023_trabalho.Logging.{show_int}
use so2023_trabalho.Debug.Events.{Event, Buffer, get_all_ev_sorted}

-- `struct semdebug`
pub record Channels : Type 0 where
  pub chef : Buffer
  pub waiter : Buffer
  pub receptionist : Buffer
  pub groups : ℕ → Buffer

-- `struct semdebug_diag_proc`; `waiting_on` is never set. The last event is `none` for the null pointer.
pub record Diagnosis : Type 0 where
  pub pid : ℕ
  pub stage : ℕ
  pub exited : Bool
  pub n_events : ℕ
  pub events : List Event
  pub last_event : Option Event

pub record ProcSet : Type 0 where
  pub ch : Diagnosis
  pub wt : Diagnosis
  pub rc : Diagnosis
  pub gr : List Diagnosis

abbrev pub event_at : List Event → ℕ → Option Event
event_at [] i = none
event_at (e ∷ es) zero = some e
event_at (e ∷ es) (suc i) = event_at es i

abbrev path : ℕ → List ℕ
path pid = codes "/proc/" ++ show_int (pos pid)

-- The address of the last event, where there is one.
abbrev pub last_of : List Event × ℕ → Option Event
last_of (es, n) = if n == 0 then none else event_at es (n - 1)

module _ (opendir : List ℕ → Bool) where
  unfoldable pub diagnose : Buffer → ℕ → Diagnosis
  diagnose b stage = record {
    pid = b.pid;
    stage = stage;
    exited = not (opendir (path b.pid));
    n_events = (get_all_ev_sorted (some b)).1;
    events = (get_all_ev_sorted (some b)).0;
    last_event = last_of (get_all_ev_sorted (some b));
  }

  -- The loop over the groups from `i`, with `k` rounds left; `none` is a read past the end of `groups`.
  unfoldable pub diagnose_groups : ℕ → ℕ → Channels → FullStat → Option (List Diagnosis)
  diagnose_groups zero i sd fd = some []
  diagnose_groups (suc k) i sd fd =
      let later = diagnose_groups k (i + 1) sd fd in
      if ltb i max_groups
      then elim later [
        | none ↦ none
        | some ds ↦ some (diagnose (sd.groups i) (fd.st.group_stat i) ∷ ds)
      ]
      else none

  -- The pointers of its caller are not null.
  unfoldable pub get_proc_diagnostics : Channels → FullStat → Option ProcSet
  unfolding diagnose_groups
  get_proc_diagnostics sd fd = elim (diagnose_groups fd.n_groups 0 sd fd) [
    | none ↦ none
    | some groups ↦ some (record {
      ch = diagnose sd.chef fd.st.chef_stat;
      wt = diagnose sd.waiter fd.st.waiter_stat;
      rc = diagnose sd.receptionist fd.st.receptionist_stat;
      gr = groups;
    })
  ]
