-- ===== src/Tests/Reporting.antt =====
-- The theorems on the events and on the deadlock report at concrete inputs.
use so2023_trabalho.Base.{
  ℕ, ◌+◌, ◌≡◌, refl, Bool, true, if◌then◌else◌, ◌==◌, none, some, List, [], ◌∷◌, replicate, pos,
  codes, arith,
}
use so2023_trabalho.Prog.{ret, down, up}
use so2023_trabalho.System.{act}
use so2023_trabalho.Semaphore.SystemV.{call_of_act}
use so2023_trabalho.Logging.Plain.{plain}
use so2023_trabalho.Debug.Events.{Event, Buffer, event, down_action, up_action, empty_buffer}
use so2023_trabalho.Debug.Events.Recent.{write_all}
use so2023_trabalho.Debug.Calls.{init, sem_down_or_exit, sem_up_or_exit, or_exit-act}
use so2023_trabalho.Debug.Diagnostics.{diagnose}
use so2023_trabalho.Debug.Diagnostics.Waits.{IsReported, call-IsReported}
use so2023_trabalho.Debug.Report.{print_deadlock_logs}
use so2023_trabalho.Debug.Report.Columns.{widths}
use so2023_trabalho.Debug.Report.Aligned.{details_aligned}
use so2023_trabalho.Tests.Environment.{kernel, red, dark}

-- All directories are there.
abbrev present : List ℕ → Bool
present _ = true

abbrev taken : Event
taken = event down_action 1 (codes "pre-COOK")

or_exit-act_example :
    ((sem_down_or_exit kernel true none
        (pos 7)
        9
        (some (codes "waiting to sit down at table."))
        red).1
      ≡ some (call_of_act (act (down 9 (ret tt)) dark)))
    × ((sem_up_or_exit kernel true none
          (pos 7)
          9
          (some (codes "waiting to sit down at table."))
          red).1
        ≡ some (call_of_act (act (up 9 (ret tt)) dark)))
or_exit-act_example =
    or_exit-act kernel true (pos 7) 5 (λ ops sem. refl) none 9
      (some (codes "waiting to sit down at table.")) (ret tt) dark (omega arith) (omega arith)
      (omega arith) (omega arith)

call-IsReported_example :
    IsReported present
      ((sem_down_or_exit kernel true
        (write_all (init empty_buffer 4711) (taken ∷ []))
        (pos 7)
        6
        (some (codes "waiting for orders"))
        red).0)
      4711
      0
      (event down_action 6 (codes "waiting for orders"))
      1
    × IsReported present
        ((sem_up_or_exit kernel true
          (write_all (init empty_buffer 4711) (taken ∷ []))
          (pos 7)
          6
          (some (codes "waiting for orders"))
          red).0)
        4711
        0
        (event up_action 6 (codes "waiting for orders"))
        1
call-IsReported_example =
    call-IsReported present 4711 0 (taken ∷ []) (omega arith, tt) kernel (pos 7) 6
      (codes "waiting for orders") red

-- A buffer that holds the same event in every slot.
abbrev busy : Buffer
busy = record { pid = 4712; next_slot = 3; events = λ i. taken }

details_aligned_example :
    widths
      (print_deadlock_logs 5 (diagnose present busy 1).events (diagnose present busy 1).last_event)
    ≡ replicate
        (3
          + (if (diagnose present busy 1).n_events == 0
              then 1
              else (diagnose present busy 1).n_events))
        80
details_aligned_example = details_aligned present busy 1 5 (λ i. plain (codes "pre-COOK") refl)
