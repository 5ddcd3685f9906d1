-- ===== src/Debug/Events.antt =====
-- The ring of events in src/semDebug_sharedDataSync.h.
pub mod Recent
pub mod Bounds
use so2023_trabalho.Base.{
  ℕ, zero, suc, ◌+◌, ◌-◌, ◌%◌, Option, none, some, List, [], ◌∷◌, ◌==◌, if◌then◌else◌, length, take,
  update,
}

abbrev pub max_events : ℕ
max_events = 20

abbrev pub max_reason : ℕ
max_reason = 100

-- `enum SEMDEBUG_ACTION`
abbrev pub undefined : ℕ
undefined = 0

abbrev pub down_action : ℕ
down_action = 1

abbrev pub up_action : ℕ
up_action = 2

pub record Event : Type 0 where
  pub action : ℕ
  pub index : ℕ
  pub reason : List ℕ

pub record Buffer : Type 0 where
  pub pid : ℕ
  pub next_slot : ℕ
  pub events : ℕ → Event

-- Shared memory starts as zeros.
abbrev pub blank : Event
blank = record { action = undefined; index = 0; reason = [] }

pub empty_buffer : Buffer
empty_buffer = record { pid = 0; next_slot = 0; events = λ _. blank }

-- `strlcpy` keeps one byte for the end of the text.
abbrev pub event : ℕ → ℕ → List ℕ → Event
event action index reason = record {
  action = action;
  index = index;
  reason = take (max_reason - 1) reason;
}

-- `none` is the null pointer.
pub write_ev_to_buffer : Option Buffer → ℕ → ℕ → List ℕ → Option Buffer
write_ev_to_buffer none action index reason = none
write_ev_to_buffer (some b) action index reason = some (record b {
  events = update b.events b.next_slot (event action index reason);
  next_slot = (b.next_slot + 1) % max_events;
})

-- The loop of `semdebug_getAllEvSorted` from round `i`, with `k` rounds left.
collect : ℕ → ℕ → Buffer → List Event
collect zero i b = []
collect (suc k) i b =
    let ev = b.events ((b.next_slot + i) % max_events) in
    let more = collect k (i + 1) b in if ev.action == undefined then more else ev ∷ more

-- The events that are written to `out`, and their number; a null pointer gives 0.
pub get_all_ev_sorted : Option Buffer → List Event × ℕ
unfolding collect
get_all_ev_sorted none = ([], 0)
get_all_ev_sorted (some b) = (collect max_events 0 b, length (collect max_events 0 b))
