-- ===== src/Kitchen/Meals.antt =====
-- The chef of src/semSharedMemChef.c and the waiter of src/semSharedMemWaiter.c: how a meal goes from
-- the stove to the table.
use so2023_trabalho.Base.{
  ℕ, suc, ◌-◌, ◌<◌, ◌≡◌, ◌≢◌, refl, sym, ◌∙◌, ap, inl, inr, Bool-cases, ◌==◌, ==_ne, lt→ltb, update,
  ℤ, pos, arith,
}
use so2023_trabalho.Shared
use so2023_trabalho.Shared.{FullStat, Request, max_groups, num_tables}
use so2023_trabalho.Sync.{mutex, waiter_request, waiter_request_possible, food_arrived}
use so2023_trabalho.Prog.{
  Prog, ret, ◌>>=◌, ◌>>◌, sem_up, put, save_under_mutex, usleep, at, World, done, run,
}
use so2023_trabalho.Prog.Runs.{saved, raise, down_up, run-save_under_mutex, run-at}
use so2023_trabalho.Slots.{place_with_waiter}
use so2023_trabalho.Waiter
use so2023_trabalho.Waiter.{Orders, note_table, take_food_to_table, attend, wait_for_client_or_chef}
use so2023_trabalho.Waiter.Queue.{IsQueue}
use so2023_trabalho.Waiter.Calls.{meal, received}
use so2023_trabalho.Waiter.Returns.{busy_returns_meal}
use so2023_trabalho.Chef
use so2023_trabalho.Chef.{process_order}

run-note_table :
    {A : Type 0} (g : ℕ) (f : ℤ → Prog A) (w : World)
    → g < max_groups
    → w.sem mutex ≢ 0
    → run (note_table (pos g) >>= f) w
      ≡ run (f (w.full.assigned_table g)) (saved (Waiter.with_stat Shared.take_to_table) w)
unfolding run
run-note_table g f w hg free =
    rw (==_ne (w.sem mutex) 0 free, run)
      (rw (lt→ltb g max_groups hg) (rw (down_up w.sem mutex free) refl))

-- The world after the chef has cooked for group `g`.
abbrev pub rested : World → World
rested w = saved (Chef.with_stat Shared.rest) (saved (Chef.with_stat Shared.cook) w)

abbrev pub cooked : ℕ → World → World
cooked g w = raise waiter_request (record (rested w) {
  full = record (rested w).full { waiter_request = meal (pos g) };
  sem = update w.sem waiter_request_possible (w.sem waiter_request_possible - 1);
})

-- The world after the waiter has brought the meal to table `t`.
abbrev pub cleared : World → World
cleared w = record w {
  full = record (Waiter.with_stat Shared.take_to_table w.full) { food_order = 0 };
  log = (saved (Waiter.with_stat Shared.take_to_table) w).log;
}

abbrev pub brought : ℕ → ℕ → World → World
brought n t w = raise (food_arrived n t) (cleared w)

run-place :
    {A : Type 0} (q : Request) (k : Prog A) (w : World)
    → w.sem waiter_request_possible ≢ 0
    → run (place_with_waiter q >> k) w
      ≡ run k (
          raise waiter_request (record w {
            full = record w.full { waiter_request = q };
            sem = update w.sem waiter_request_possible (w.sem waiter_request_possible - 1);
          }))
unfolding run
run-place q k w free = rw (==_ne (w.sem waiter_request_possible) 0 free, run) refl

run-process_order :
    (g : ℕ) (w : World)
    → w.sem mutex ≢ 0
    → w.sem waiter_request_possible ≢ 0
    → run (process_order (pos g)) w ≡ done (pos 0xffff) (cooked g w)
unfolding process_order run
run-process_order g w free open_place =
    run-save_under_mutex (Chef.with_stat Shared.cook)
      (usleep >> (save_under_mutex (Chef.with_stat Shared.rest) >> ends)) w free
    ∙ run-save_under_mutex (Chef.with_stat Shared.rest) ends (saved (Chef.with_stat Shared.cook) w)
        free
    ∙ run-place (meal (pos g)) (ret (pos 0xffff)) (rested w) open_place
  where
    ends : Prog ℤ
    ends = place_with_waiter (meal (pos g)) >> ret (pos 0xffff)

run-take_food :
    (n g t : ℕ) (w : World)
    → g < max_groups
    → t < num_tables
    → w.full.assigned_table g ≡ pos t
    → w.sem mutex ≢ 0
    → run (attend n (meal (pos g))) w ≡ done tt (brought n t w)
unfolding attend take_food_to_table run
run-take_food n g t w hg ht e free =
    run-note_table g serves w hg free
    ∙ ap (λ x. run (serves x) (saved (Waiter.with_stat Shared.take_to_table) w)) e
    ∙ run-at num_tables t (λ t'. sem_up (food_arrived n t')) (cleared w) ht
  where
    serves : ℤ → Prog (Unit {0})
    serves table =
        put (λ s. record s { food_order = 0 })
        >> (at num_tables table >>= λ t'. sem_up (food_arrived n t'))

received-table : (g : ℕ) (w : World) → (received w).full.assigned_table g ≡ w.full.assigned_table g
received-table g w = elim (Bool-cases (w.full.st.waiter_stat == Shared.wait_for_request)) [
  | inl e ↦ rw e refl
  | inr e ↦ rw e refl
]

received-mutex : (w : World) → (received w).sem mutex ≡ w.sem mutex
received-mutex w = elim (Bool-cases (w.full.st.waiter_stat == Shared.wait_for_request)) [
  | inl e ↦ rw e refl
  | inr e ↦ rw e refl
]

-- With an order of a seated group under way, the mutex free and the place for a request to the waiter
-- free: the chef cooks and places the meal for this group; the waiter's next call returns this meal and
-- leaves the queue of orders as it is; and the `switch` of the waiter's `main` then takes the meal to
-- the group's table, whose semaphore it raises, and clears the flag of the food order.
pub meal_served :
    (n g t f : ℕ) (q : Orders) (w : World)
    → IsQueue q
    → g < max_groups
    → t < num_tables
    → w.full.assigned_table g ≡ pos t
    → w.full.food_order ≢ 0
    → w.sem mutex ≢ 0
    → w.sem waiter_request_possible ≢ 0
    → (run (process_order (pos g)) w ≡ done (pos 0xffff) (cooked g w))
      × (run (wait_for_client_or_chef (suc f) q) (cooked g w)
          ≡ done (meal (pos g), q) (received (cooked g w)))
      × (run (attend n (meal (pos g))) (received (cooked g w))
          ≡ done tt (brought n t (received (cooked g w))))
meal_served n g t f q w v hg ht e busy free open_place = (
  run-process_order g w free open_place,
  busy_returns_meal f q (cooked g w) v (pos g) busy free (omega arith) refl,
  run-take_food n g t (received (cooked g w)) hg ht (received-table g (cooked g w) ∙ e)
      (λ none. free (sym (received-mutex (cooked g w)) ∙ none)),
)
