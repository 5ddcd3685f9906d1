-- ===== src/Debug/Report/Aligned.antt =====
-- The details of a process in the deadlock report of src/semDebug_sharedDataSync.h stay in their box.
use mathlib.Core.List.{append-nil}
use so2023_trabalho.Base.{
  ℕ, zero, suc, ◌+◌, ◌-◌, ◌<◌, ◌≤◌, ◌≡◌, refl, ap, Bool, false, Bool-cases, inl, inr, ltb, ltb→lt,
  ◌==◌, if◌then◌else◌, some, List, [], ◌∷◌, ◌++◌, length, take, replicate, length-append, bytes,
  arith,
}
use so2023_trabalho.Logging.{digits_from, show_nat, pad_left}
use so2023_trabalho.Logging.Plain.{IsPlain, append-IsPlain, take-IsPlain, plain}
use so2023_trabalho.Sync.Naming.{get_semaphore_name}
use so2023_trabalho.Sync.Naming.Plain.{name-IsPlain}
use so2023_trabalho.Debug.Events.{Event, Buffer, get_all_ev_sorted}
use so2023_trabalho.Debug.Events.Bounds.{AllOf, sorted_bounded, sorted_counted, sorted-AllOf}
use so2023_trabalho.Debug.Diagnostics.{diagnose, last_of, event_at}
use so2023_trabalho.Debug.Report.{
  pad_right, strlcat, buffer_size, emoji, shortened, event_text, row, event_row, event_rows,
  divider, print_deadlock_logs,
}
use so2023_trabalho.Debug.Report.Columns.{
  widths, Spans, Spans-append, spans, plain_text, pad_right-Spans, number-Spans, Lines,
  Lines-append, row-Lines, Lines-widths, ended-Lines, nil-Lines, widths_from,
}

pub long_enough : (j k : ℕ) (s : List ℕ) → j ≤ k → j ≤ length s → j ≤ length (take k s)
long_enough zero k s h l = omega arith
long_enough (suc j) zero s h l = absurd (omega arith)
long_enough (suc j) (suc k) [] h l = absurd (omega arith)
long_enough (suc j) (suc k) (c ∷ s) h l =
    omega (arith, long_enough j k s (omega arith) (omega arith))

pub length-take : (k : ℕ) (s : List ℕ) → k ≤ length s → length (take k s) ≡ k
length-take zero s h = refl
length-take (suc k) [] h = absurd (omega arith)
length-take (suc k) (c ∷ s) h = omega (arith, length-take k s (omega arith))

pub take_all : (k : ℕ) (s : List ℕ) → length s ≤ k → take k s ≡ s
take_all zero [] h = refl
take_all zero (c ∷ s) h = absurd (omega arith)
take_all (suc k) [] h = refl
take_all (suc k) (c ∷ s) h = ap (λ l. c ∷ l) (take_all k s (omega arith))

-- A text of `k` bytes and the three bytes of the mark that follows: one character more.
pub cut-Spans :
    (k m : ℕ) (s : List ℕ)
    → IsPlain s
    → length s ≡ k
    → k + 3 ≤ m
    → Spans (k + 1) (pad_right (k + 1) (take m (s ++ bytes "…")))
unfolding pad_right
cut-Spans k m s h e fits =
    let marked : List ℕ = s ++ bytes "…" in
    let size : length marked ≡ k + 3 = omega (arith, length-append s (bytes "…"), e) in
    let full : k + 1 - (k + 3) ≡ 0 = omega arith in
    rw (take_all m marked (omega (arith, size)), size, full, append-nil marked)
      (Spans-append k 1 s (bytes "…") (plain_text k s h e) (spans (bytes "…") refl))

shortened-Spans :
    (x : List ℕ)
    → IsPlain x
    → Spans 66 (pad_right 66 (shortened (take (buffer_size - 1) x, length x)))
shortened-Spans x h = elim (Bool-cases (ltb 65 (length x))) [
  | inl e ↦
      let long = ltb→lt 65 (length x) e in
      let kept : List ℕ = take (buffer_size - 1) x in
      rw e (
        cut-Spans 65 (buffer_size - 1) (take 65 kept)
          (take-IsPlain 65 kept (take-IsPlain (buffer_size - 1) x h))
          (length-take 65 kept (long_enough 65 (buffer_size - 1) x (omega arith) (omega arith)))
          (omega arith))
  | inr e ↦
      let short : length x ≤ 65 = ground arith in
      rw (e, take_all (buffer_size - 1) x (omega arith)) (pad_right-Spans 66 x h (omega arith))
]

event_text-Spans :
    (n : ℕ) (ev : Event) → IsPlain ev.reason → Spans 66 (pad_right 66 (event_text n ev))
unfolding event_text
event_text-Spans n ev h =
    let name : List ℕ = (get_semaphore_name n ev.index buffer_size).0 in
    let titled : List ℕ = (strlcat name (bytes ": ") buffer_size).0 in
    let named =
      append-IsPlain name (bytes ": ") (name-IsPlain n ev.index buffer_size)
        (plain (bytes ": ") refl) in
    let whole =
      append-IsPlain titled ev.reason (take-IsPlain (buffer_size - 1) (name ++ bytes ": ") named)
        h in
    rw (length-append titled ev.reason) at (shortened-Spans (titled ++ ev.reason) whole)

emoji-Spans : (action : ℕ) → Spans 1 (emoji action)
unfolding emoji
emoji-Spans action =
    ground (arith, spans (bytes "▲") refl, spans (bytes "▼") refl, spans (bytes "?") refl)

event_row-Lines :
    (n count : ℕ) (ev : Event)
    → IsPlain ev.reason
    → count < 100
    → Lines (80 ∷ []) (event_row n count ev)
unfolding event_row
event_row-Lines n count ev h few = row-Lines 76 _ (
    Spans-append 4 72 (bytes "┃ ║ ") _ (spans (bytes "┃ ║ ") refl) (
      Spans-append 2 70 (pad_left 2 (show_nat count)) _ (number-Spans 1 count few) (
        Spans-append 2 68 (bytes ": ") _ (spans (bytes ": ") refl) (
          Spans-append 1 67 (emoji ev.action) _ (emoji-Spans ev.action) (
            Spans-append 1 66 (bytes " ") (pad_right 66 (event_text n ev)) (spans (bytes " ") refl)
              (event_text-Spans n ev h))))))

-- The reason is ASCII, and has no end of a line.
abbrev pub IsReadable : Event → Type 0
IsReadable ev = IsPlain ev.reason

event_rows-Lines :
    (n count : ℕ) (evs : List Event)
    → AllOf IsReadable evs
    → count + length evs ≤ 100
    → Lines (replicate (length evs) 80) (event_rows n count evs)
unfolding event_rows
event_rows-Lines n count [] h few = nil-Lines
event_rows-Lines n count (ev ∷ evs) h few =
    Lines-append (80 ∷ []) (replicate (length evs) 80) (event_row n count ev)
      (event_rows n (count + 1) evs) (event_row-Lines n count ev h.0 (omega arith))
      (event_rows-Lines n (count + 1) evs h.1 (omega arith))

divider-Lines : Lines (80 ∷ 80 ∷ 80 ∷ []) divider
unfolding show_nat digits_from pad_left widths widths_from
divider-Lines = ended-Lines divider refl

event_at_last :
    (e : Event) (es : List Event) → (l : Event) × (event_at (e ∷ es) (length es) ≡ some l)
event_at_last e [] = (e, refl)
event_at_last e (d ∷ es) = event_at_last d es

logs-Lines :
    (n : ℕ) (evs : List Event)
    → AllOf IsReadable evs
    → length evs < 100
    → Lines
        (replicate (3 + (if length evs == 0 then 1 else length evs)) 80)
        (print_deadlock_logs n evs (last_of (evs, length evs)))
unfolding print_deadlock_logs widths widths_from
logs-Lines n [] h few =
    let none_row =
      row (bytes "┃ ║ (no events captured)                                                    ") in
    Lines-append (80 ∷ 80 ∷ 80 ∷ []) (80 ∷ []) divider none_row divider-Lines
      (ended-Lines none_row refl)
logs-Lines n (e ∷ es) h few =
    let (l, found) = event_at_last e es in
    let before : length (e ∷ es) - 1 ≡ length es = omega arith in
    let some_events : (length (e ∷ es) == 0) ≡ false = ground arith in
    let count : 3 + suc (length es) ≡ suc (suc (suc (suc (length es)))) = omega arith in
    rw (some_events, before, found, count)
      (Lines-append (80 ∷ 80 ∷ 80 ∷ []) (replicate (suc (length es)) 80) divider
        (event_rows n 1 (e ∷ es)) divider-Lines (event_rows-Lines n 1 (e ∷ es) h (omega arith)))

-- With the diagnosis of any buffer whose reasons are ASCII and in one line, for any number of groups: every
-- line of the details of a process is 80 characters long, of which there are three and one for each
-- event, or four where there are no events.
pub details_aligned :
    (opendir : List ℕ → Bool) (b : Buffer) (stage n : ℕ)
    → ((i : ℕ) → IsReadable (b.events i))
    → let d = diagnose opendir b stage in
      widths (print_deadlock_logs n d.events d.last_event)
      ≡ replicate (3 + (if d.n_events == 0 then 1 else d.n_events)) 80
unfolding print_deadlock_logs diagnose
details_aligned opendir b stage n h =
    let bounded = sorted_bounded b in
    rw (sorted_counted b) (
      Lines-widths _ _
        (logs-Lines n ((get_all_ev_sorted (some b)).0) (sorted-AllOf IsReadable b h) (omega arith)))
