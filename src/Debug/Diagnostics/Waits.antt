-- ===== src/Debug/Diagnostics/Waits.antt =====
-- The deadlock report and the calls of the processes: src/semDebug_sharedDataSync.h with src/semDebug.h.
use so2023_trabalho.Base.{
  ℕ, zero, suc, ◌+◌, ◌-◌, ◌≤◌, ◌≡◌, ◌≢◌, refl, ◌∙◌, ap, sym, Bool, true, Option, some, List, [],
  ◌∷◌, ◌++◌, map, length, drop, length-append, length-drop, ltb, if◌then◌else◌, ℤ, arith,
}
use mathlib.Core.List.{map-append}
use so2023_trabalho.Semaphore.{Ipc}
use so2023_trabalho.Debug.Events.{
  Event, Buffer, event, empty_buffer, max_events, down_action, up_action, undefined,
  write_ev_to_buffer,
}
use so2023_trabalho.Debug.Events.Recent.{shown, write_all, AllDefined, latest_of, read_back}
use so2023_trabalho.Debug.Calls.{init, sem_down_or_exit, sem_up_or_exit}
use so2023_trabalho.Debug.Diagnostics.{diagnose, last_of, event_at}

event_at_end : (h : List Event) (e : Event) → event_at (h ++ e ∷ []) (length h) ≡ some e
event_at_end [] e = refl
event_at_end (d ∷ h) e = event_at_end h e

last_of_end : (h : List Event) (e : Event) → last_of (h ++ e ∷ [], length (h ++ e ∷ [])) ≡ some e
last_of_end h e = ground (arith, length-append h (e ∷ []), event_at_end h e)

drop-snoc :
    (k : ℕ) (h : List Event) (e : Event) → k ≤ length h → drop k (h ++ e ∷ []) ≡ drop k h ++ e ∷ []
drop-snoc zero h e le = refl
drop-snoc (suc k) [] e le = absurd (omega arith)
drop-snoc (suc k) (d ∷ h) e le = drop-snoc k h e (omega arith)

last_of-latest :
    (h : List Event) (e : Event)
    → last_of (latest_of (h ++ e ∷ []), length (latest_of (h ++ e ∷ []))) ≡ some e
last_of-latest h e =
    rw (drop-snoc (length (h ++ e ∷ []) - max_events) h e (omega (arith, length-append h (e ∷ []))))
      (last_of_end (drop (length (h ++ e ∷ []) - max_events) h) e)

-- What the report says of the process `pid` in `stage` whose buffer is `ch`, when `e` is its last event and
-- there are `k` before.
abbrev pub IsReported : (List ℕ → Bool) → Option Buffer → ℕ → ℕ → Event → ℕ → Type 0
IsReported opendir ch pid stage e k =
    (b : Buffer) × (ch ≡ some b)
    × ((diagnose opendir b stage).pid ≡ pid)
    × ((diagnose opendir b stage).last_event ≡ some e)
    × ((diagnose opendir b stage).n_events ≡ (if ltb k max_events then k + 1 else max_events))

write_all-snoc :
    (b : Option Buffer) (es : List Event) (e : Event)
    → write_all b (es ++ e ∷ []) ≡ write_ev_to_buffer (write_all b es) e.action e.index e.reason
unfolding write_all
write_all-snoc b [] e = refl
write_all-snoc b (d ∷ es) e = write_all-snoc (write_ev_to_buffer b d.action d.index d.reason) es e

snoc-AllDefined :
    (es : List Event) (e : Event) → AllDefined es → e.action ≢ undefined → AllDefined (es ++ e ∷ [])
snoc-AllDefined [] e all h = (h, tt)
snoc-AllDefined (d ∷ es) e all h = (all.0, snoc-AllDefined es e all.1 h)

length-map-shown : (es : List Event) → length (map shown es) ≡ length es
length-map-shown [] = refl
length-map-shown (d ∷ es) = omega (arith, length-map-shown es)

latest-length :
    (h : List Event) (e : Event)
    → length (latest_of (h ++ e ∷ []))
      ≡ (if ltb (length h) max_events then length h + 1 else max_events)
latest-length h e =
    ground (
      arith,
      length-append h (e ∷ []),
      length-drop (length (h ++ e ∷ []) - max_events) (h ++ e ∷ []),
    )

module _ (opendir : List ℕ → Bool) (pid stage : ℕ) (es : List Event) (all : AllDefined es) where
  written-IsReported :
      (e : Event)
      → e.action ≢ undefined
      → IsReported opendir
          (write_ev_to_buffer (write_all (init empty_buffer pid) es) e.action e.index e.reason)
          pid
          stage
          (shown e)
          (length es)
  unfolding init diagnose
  written-IsReported e h =
      let (c, p, same, read) = read_back pid (es ++ e ∷ []) (snoc-AllDefined es e all h) in
      let latest =
        read ∙ ap (λ l. (latest_of l, length (latest_of l))) (map-append shown es (e ∷ [])) in
      (
        c,
        sym (write_all-snoc (init empty_buffer pid) es e) ∙ p,
        same,
        ap last_of latest ∙ last_of-latest (map shown es) (shown e),
        ap (λ x. x.1) latest
            ∙ latest-length (map shown es) (shown e)
            ∙ ap (λ k. if ltb k max_events then k + 1 else max_events) (length-map-shown es),
      )

  -- Whatever events with an action a process has recorded before, with SEMDEBUG the report names the semaphore of its last call of
  -- `semDownOrExit` or `semUpOrExit` as its last event, with the reason cut to 99 bytes, whether the call has
  -- returned or the process still waits in it. It counts the events up to 20.
  pub call-IsReported :
      (os : Ipc) (semgid : ℤ) (index : ℕ) (reason : List ℕ) (sem : ℕ → ℕ)
      → IsReported opendir
          ((sem_down_or_exit os true
            (write_all (init empty_buffer pid) es)
            semgid
            index
            (some reason)
            sem).0)
          pid
          stage
          (event down_action index reason)
          (length es)
        × IsReported opendir
            ((sem_up_or_exit os true
              (write_all (init empty_buffer pid) es)
              semgid
              index
              (some reason)
              sem).0)
            pid
            stage
            (event up_action index reason)
            (length es)
  unfolding sem_down_or_exit sem_up_or_exit
  call-IsReported os semgid index reason sem = (
    written-IsReported (record { action = down_action; index = index; reason = reason })
        (omega arith),
    written-IsReported (record { action = up_action; index = index; reason = reason })
        (omega arith),
  )
