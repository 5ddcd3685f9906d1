-- ===== src/Debug/Events/Bounds.antt =====
-- What `semdebug_getAllEvSorted` of src/semDebug_sharedDataSync.h can return: at most 20 events, all of
-- them from the buffer.
use so2023_trabalho.Base.{
  ℕ, zero, suc, ◌+◌, ◌%◌, ◌≤◌, ◌≡◌, refl, List, [], ◌∷◌, ◌==◌, Bool-cases, inl, inr, length, some,
  arith,
}
use so2023_trabalho.Debug.Events.{Event, Buffer, max_events, undefined, collect, get_all_ev_sorted}

abbrev pub AllOf : (Event → Type 0) → List Event → Type 0
AllOf p [] = Unit
AllOf p (e ∷ es) = p e × AllOf p es

collect_bounded : (k i : ℕ) (b : Buffer) → length (collect k i b) ≤ k
unfolding collect
collect_bounded zero i b = omega arith
collect_bounded (suc k) i b = ground (arith, collect_bounded k (i + 1) b)

module _ (p : Event → Type 0) (b : Buffer) (each : (i : ℕ) → p (b.events i)) where
  collect-AllOf : (k i : ℕ) → AllOf p (collect k i b)
  unfolding collect
  collect-AllOf zero i = tt
  collect-AllOf (suc k) i =
      let slot = (b.next_slot + i) % max_events in
      let more = collect-AllOf k (i + 1) in
      elim (Bool-cases ((b.events slot).action == undefined)) [
        | inl e ↦ rw e more
        | inr e ↦ rw e (each slot, more)
      ]

pub sorted_bounded : (b : Buffer) → length ((get_all_ev_sorted (some b)).0) ≤ max_events
unfolding get_all_ev_sorted
sorted_bounded b = collect_bounded max_events 0 b

pub sorted-AllOf :
    (p : Event → Type 0) (b : Buffer)
    → ((i : ℕ) → p (b.events i))
    → AllOf p ((get_all_ev_sorted (some b)).0)
unfolding get_all_ev_sorted
sorted-AllOf p b each = collect-AllOf p b each max_events 0

pub sorted_counted :
    (b : Buffer) → (get_all_ev_sorted (some b)).1 ≡ length ((get_all_ev_sorted (some b)).0)
unfolding get_all_ev_sorted
sorted_counted b = refl
