-- ===== src/Debug/Report.antt =====
-- src/semDebug_sharedDataSync.h: what the deadlock report prints of a process's events, in bytes.
pub mod Summary
pub mod Whole
pub mod Columns
pub mod Aligned
pub mod Groups
pub mod Printed
use so2023_trabalho.Base.{
  ℕ, zero, suc, ◌+◌, ◌-◌, List, [], ◌∷◌, ◌++◌, ltb, ◌==◌, if◌then◌else◌, Option, none, some, length,
  take, replicate, bytes,
}
use so2023_trabalho.Logging.{show_nat, pad_left}
use so2023_trabalho.Sync.Naming.{get_semaphore_name}
use so2023_trabalho.Debug.Events.{Event, max_events, up_action, down_action}

-- A text in a field of `w` bytes, to the left, as `%-66s` prints it.
pub pad_right : ℕ → List ℕ → List ℕ
pad_right w s = s ++ replicate (w - length s) b' '

-- `strlcat` for a text that fits into its buffer: the text then, and the length that it returns.
abbrev pub strlcat : List ℕ → List ℕ → ℕ → List ℕ × ℕ
strlcat dst src size = (take (size - 1) (dst ++ src), length dst + length src)

-- `buffer_size`
abbrev buffer_size : ℕ
buffer_size = 200

pub emoji : ℕ → List ℕ
emoji action =
    if action == up_action
    then bytes "▲"
    else if action == down_action
    then bytes "▼"
    else bytes "?"

-- The semaphore and the reason, cut to 65 bytes.
abbrev shortened : List ℕ × ℕ → List ℕ
shortened (whole, n) =
    if ltb 65 n then (strlcat (take 65 whole) (bytes "…") buffer_size).0 else whole

pub event_text : ℕ → Event → List ℕ
event_text n ev =
    let name = (get_semaphore_name n ev.index buffer_size).0 in
    let titled = (strlcat name (bytes ": ") buffer_size).0 in
    shortened (strlcat titled ev.reason buffer_size)

-- The end of every row of the inner boxes.
abbrev pub row : List ℕ → List ℕ
row s = s ++ bytes " ║ ┃\n"

-- The `count`-th event, where there are `n` groups.
pub event_row : ℕ → ℕ → Event → List ℕ
event_row n count ev = row (
    bytes "┃ ║ "
    ++ (pad_left 2 (show_nat count)
        ++ (bytes ": " ++ (emoji ev.action ++ (bytes " " ++ pad_right 66 (event_text n ev))))))

pub event_rows : ℕ → ℕ → List Event → List ℕ
event_rows n count [] = []
event_rows n count (ev ∷ evs) = event_row n count ev ++ event_rows n (count + 1) evs

abbrev blank_row : List ℕ
blank_row =
    row (bytes "┃ ║                                                                         ")

abbrev divider : List ℕ
divider =
    row (
      bytes "┃ ║ ──────────────────── last "
      ++ (pad_left 2 (show_nat max_events) ++ bytes " semaphore operations ──────────────────────"))
    ++ (row (bytes "┃ ║                          (most recent last)                             ")
        ++ blank_row)

-- The events up to the last one; `none` is the null pointer.
pub print_deadlock_logs : ℕ → List Event → Option Event → List ℕ
print_deadlock_logs n evs none =
    divider
    ++ row (bytes "┃ ║ (no events captured)                                                    ")
print_deadlock_logs n evs (some last) = divider ++ event_rows n 1 evs
