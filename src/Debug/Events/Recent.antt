-- ===== src/Debug/Events/Recent.antt =====
-- The report shows the latest events of a process, in the order in which they happened.
use mathlib.Core.Path.{ap₂}
use mathlib.Core.List.{map, append-nil, append_assoc}
use native.Mathlib.Nat.{add_assoc, add-zero}
use native.Mathlib.Numerals.{add-one}
use so2023_trabalho.Base.{
  ℕ, zero, suc, ◌+◌, ◌-◌, ◌%◌, ◌<◌, ◌≤◌, ◌≡◌, ◌≢◌, refl, sym, ap, ◌∙◌, Option, some, List, [], ◌∷◌,
  ◌++◌, ◌==◌, if◌then◌else◌, length, length-append, drop, replicate, drop-replicate-append,
  drop-suc-append, update, arith,
}
use so2023_trabalho.Debug.Events.{
  Event, Buffer, blank, undefined, empty_buffer, event, max_events, write_ev_to_buffer, collect,
  get_all_ev_sorted,
}

-- `k` slots from slot `s` on, around the end of the array.
window : (ℕ → Event) → ℕ → ℕ → List Event
window f s zero = []
window f s (suc k) = f (s % max_events) ∷ window f (s + 1) k

shift : (s k : ℕ) → s + 1 + k ≡ s + suc k
shift s k = omega arith

window-snoc :
    (f : ℕ → Event) (s k : ℕ) → window f s (suc k) ≡ window f s k ++ f ((s + k) % max_events) ∷ []
unfolding window
window-snoc f s zero = ground arith
window-snoc f s (suc k) =
    ap (λ l. f (s % max_events) ∷ l) (window-snoc f (s + 1) k ∙ (rw (shift s k) refl))

window-update :
    (f : ℕ → Event) (s t k : ℕ) (e : Event)
    → s < t
    → t + k ≤ s + max_events
    → s < max_events
    → window (update f s e) t k ≡ window f t k
unfolding window
window-update f s t zero e h₁ h₂ h₃ = refl
window-update f s t (suc k) e h₁ h₂ h₃ =
    ground (arith, window-update f s (t + 1) k e (omega arith) (omega arith) h₃)

window-cong :
    (f : ℕ → Event) (s t k : ℕ) → s % max_events ≡ t % max_events → window f s k ≡ window f t k
unfolding window
window-cong f s t zero e = refl
window-cong f s t (suc k) e = rw (e, window-cong f (s + 1) (t + 1) k (omega arith)) refl

-- All slots, the oldest first.
abbrev ring : Buffer → List Event
ring b = window b.events b.next_slot max_events

abbrev written : Buffer → Event → Buffer
written b e = record b {
  events = update b.events b.next_slot e;
  next_slot = (b.next_slot + 1) % max_events;
}

-- A write drops the oldest slot.
ring-written :
    (b : Buffer) (e : Event)
    → b.next_slot < max_events
    → ring (written b e) ≡ window b.events (b.next_slot + 1) 19 ++ e ∷ []
ring-written b e lt =
    window-cong f (s % max_events) s max_events (omega arith)
    ∙ window-snoc f s 19
    ∙ ground (arith, window-update b.events b.next_slot s 19 e (omega arith) (omega arith) lt)
  where
    f : ℕ → Event
    f = update b.events b.next_slot e

    s : ℕ
    s = b.next_slot + 1

-- What the report shows of an event that is written.
abbrev pub shown : Event → Event
shown e = event e.action e.index e.reason

-- The ring holds the latest of the events `h`, oldest first, behind what it held at the start.
record Keeps (b : Buffer) (h : List Event) : Type 0 where
  next_lt : b.next_slot < max_events
  latest : ring b ≡ drop (length h) (replicate max_events blank ++ h)

start-Keeps : (pid : ℕ) → Keeps (record empty_buffer { pid = pid }) []
unfolding empty_buffer window
start-Keeps pid = record { next_lt = omega arith; latest = refl }

written-Keeps :
    (b : Buffer) (h : List Event) (e : Event) → Keeps b h → Keeps (written b e) (h ++ e ∷ [])
unfolding window
written-Keeps b h e v = record {
  next_lt = omega arith;
  latest =
      ring-written b e v.next_lt
      ∙ rw (length-append h (e ∷ [])) (
          rw (add-one (length h)) (
            sym
              (drop-suc-append (length h) (replicate max_events blank ++ h) e _ _ (sym v.latest))));
}

-- The events are written one after the other.
unfoldable pub write_all : Option Buffer → List Event → Option Buffer
write_all b [] = b
write_all b (e ∷ es) = write_all (write_ev_to_buffer b e.action e.index e.reason) es

write_all-Keeps :
    (b : Buffer) (h es : List Event)
    → Keeps b h
    → (c : Buffer) × (write_all (some b) es ≡ some c) × Keeps c (h ++ map shown es)
unfolding write_all write_ev_to_buffer
write_all-Keeps b h [] v = (b, refl, rw (append-nil h) v)
write_all-Keeps b h (e ∷ es) v =
    let (c, p, k) =
      write_all-Keeps (written b (shown e)) (h ++ shown e ∷ []) es
        (written-Keeps b h (shown e) v) in
    (c, p, rw append_assoc at k)

kept_pid :
    (b : Buffer) (es : List Event) (c : Buffer) → write_all (some b) es ≡ some c → c.pid ≡ b.pid
unfolding write_all write_ev_to_buffer
kept_pid b [] c p = ground arith
kept_pid b (e ∷ es) c p = kept_pid (written b (shown e)) es c p

-- The events with an action.
defined : List Event → List Event
defined [] = []
defined (e ∷ es) = let more = defined es in if e.action == undefined then more else e ∷ more

abbrev pub AllDefined : List Event → Type 0
AllDefined [] = Unit
AllDefined (e ∷ es) = (e.action ≢ undefined) × AllDefined es

defined-append : (xs ys : List Event) → defined (xs ++ ys) ≡ defined xs ++ defined ys
unfolding defined
defined-append [] ys = refl
defined-append (x ∷ xs) ys = ground (arith, defined-append xs ys)

defined-blank : (k : ℕ) → defined (replicate k blank) ≡ []
unfolding defined
defined-blank zero = refl
defined-blank (suc k) = defined-blank k

defined-drop : (k : ℕ) (es : List Event) → AllDefined es → defined (drop k es) ≡ drop k es
unfolding defined
defined-drop zero [] h = refl
defined-drop zero (e ∷ es) h = ground (arith, defined-drop zero es h.1)
defined-drop (suc k) [] h = refl
defined-drop (suc k) (e ∷ es) h = defined-drop k es h.1

shown-AllDefined : (es : List Event) → AllDefined es → AllDefined (map shown es)
shown-AllDefined [] h = tt
shown-AllDefined (e ∷ es) h = (h.0, shown-AllDefined es h.1)

collect-defined :
    (k i : ℕ) (b : Buffer) → collect k i b ≡ defined (window b.events (b.next_slot + i) k)
unfolding collect defined window
collect-defined zero i b = refl
collect-defined (suc k) i b = ground (
  arith,
  collect-defined k (i + 1) b,
  ap (λ s. defined (window b.events s k)) (add_assoc b.next_slot i 1),
)

-- The last `max_events` of a list.
abbrev pub latest_of : List Event → List Event
latest_of es = drop (length es - max_events) es

Keeps-latest :
    (b : Buffer) (h : List Event) → AllDefined h → Keeps b h → collect max_events 0 b ≡ latest_of h
Keeps-latest b h all v =
    collect-defined max_events 0 b
    ∙ ap (λ s. defined (window b.events s max_events)) (add-zero b.next_slot)
    ∙ ap defined (v.latest ∙ drop-replicate-append (length h) max_events blank h)
    ∙ defined-append (replicate (max_events - length h) blank) _
    ∙ ap₂ ◌++◌ (defined-blank (max_events - length h)) (defined-drop (length h - max_events) h all)

-- What is read back of the events that are written to the buffer of process `pid`.
pub read_back :
    (pid : ℕ) (es : List Event)
    → AllDefined es
    → (c : Buffer) × (write_all (some (record empty_buffer { pid = pid })) es ≡ some c)
      × (c.pid ≡ pid)
      × (get_all_ev_sorted (some c) ≡ (latest_of (map shown es), length (latest_of (map shown es))))
unfolding get_all_ev_sorted empty_buffer
read_back pid es all =
    let b = record empty_buffer { pid = pid } in
    let (c, p, k) = write_all-Keeps b [] es (start-Keeps pid) in
    (
      c,
      p,
      kept_pid b es c p,
      ap (λ l. (l, length l)) (Keeps-latest c (map shown es) (shown-AllDefined es all) k),
    )

-- However many events are written to the buffer of a process, the report reads back the latest 20 of
-- them, oldest first, each with its reason cut to 99 bytes, and their number.
pub report-latest :
    (es : List Event)
    → AllDefined es
    → get_all_ev_sorted (write_all (some empty_buffer) es)
      ≡ (latest_of (map shown es), length (latest_of (map shown es)))
unfolding empty_buffer
report-latest es all = let (c, p, _, e) = read_back 0 es all in ap get_all_ev_sorted p ∙ e
