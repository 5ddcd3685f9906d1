-- ===== src/Kitchen.antt =====
-- The waiter of src/semSharedMemWaiter.c and the chef of src/semSharedMemChef.c with each other: how an
-- order goes to the chef.
pub mod Meals
use so2023_trabalho.Base.{
  ℕ, ◌+◌, ◌-◌, ◌<◌, ◌≡◌, ◌≢◌, refl, false, ◌∙◌, ap, inl, inr, ◌==◌, ==_ne, lt→ltb, if◌then◌else◌,
  update, ℤ, pos, negsuc, arith,
}
use mathlib.Core.Path.{fun_ext}
use so2023_trabalho.Shared
use so2023_trabalho.Shared.{FullStat, Request, max_groups, num_tables}
use so2023_trabalho.Sync.{
  mutex, wait_order, order_received, request_received, waiter_request, waiter_request_possible,
  food_arrived,
}
use so2023_trabalho.Prog.{
  Prog, ret, down, up, fetch, store, save, nap, ◌>>=◌, ◌>>◌, sem_down, sem_up, get, put,
  save_under_mutex, usleep, at, World, Outcome, done, blocked, run,
}
use so2023_trabalho.Prog.Runs.{
  run-raised, run-red, saved, raise, down_up, run-save_under_mutex, run-at,
}
use so2023_trabalho.Slots.{place_with_waiter}
use so2023_trabalho.Waiter
use so2023_trabalho.Waiter.{inform_chef, take_food_to_table}
use so2023_trabalho.Chef
use so2023_trabalho.Chef.{wait_for_food_order, process_order}

-- What the waiter stores to tell the chef of the order of `group`.
abbrev pub noted : ℤ → FullStat → FullStat
noted group s =
    Waiter.with_stat Shared.inform_chef_stat (record s { food_group = group; food_order = 1 })

-- The chef from his wait on, and the waiter from his.
abbrev pub awaiting : Prog ℤ
awaiting = sem_down wait_order >> (get (λ s. s.food_group) >>= λ g. up order_received (ret g))

abbrev confirm : ℕ → ℤ → Prog (Unit {0})
confirm n table = at num_tables table >>= λ t. sem_up (request_received n t)

abbrev answer : ℕ → ℤ → Prog (Unit {0})
answer n group = at max_groups group >>= λ g. get (λ s. s.assigned_table g) >>= confirm n

abbrev pub confirming : ℕ → ℤ → Prog (Unit {0})
confirming n group = sem_down order_received >> answer n group

-- The world when the order is with the chef, of the world `w` in which the chef began to wait.
abbrev pub told : ℤ → World → World
told group w = saved (noted group) (saved (Chef.with_stat Shared.wait_for_order) w)

module _ (n g t : ℕ) (w : World) where
  chef_waits :
      w.sem mutex ≢ 0
      → w.sem wait_order ≡ 0
      → run wait_for_food_order w
        ≡ blocked wait_order awaiting (saved (Chef.with_stat Shared.wait_for_order) w)
  unfolding wait_for_food_order
  chef_waits free red =
      run-save_under_mutex (Chef.with_stat Shared.wait_for_order) awaiting w free
      ∙ run-red wait_order (get (λ s. s.food_group) >>= λ g. up order_received (ret g))
          (saved (Chef.with_stat Shared.wait_for_order) w) red

  waiter_waits :
      w.sem mutex ≢ 0
      → w.sem order_received ≡ 0
      → run (inform_chef n (pos g)) (saved (Chef.with_stat Shared.wait_for_order) w)
        ≡ blocked order_received (confirming n (pos g)) (raise wait_order (told (pos g) w))
  unfolding inform_chef run
  waiter_waits free red =
      run-save_under_mutex (noted (pos g)) (sem_up wait_order >> confirming n (pos g))
        (saved (Chef.with_stat Shared.wait_for_order) w) free
      ∙ run-red order_received (answer n (pos g)) (raise wait_order (told (pos g) w)) red

  chef_takes :
      run awaiting (raise wait_order (told (pos g) w))
      ≡ done (pos g) (raise order_received (told (pos g) w))
  unfolding run
  chef_takes =
      run-raised wait_order (get (λ s. s.food_group) >>= λ g. up order_received (ret g))
        (told (pos g) w)

  waiter_confirms :
      g < max_groups
      → t < num_tables
      → w.full.assigned_table g ≡ pos t
      → run (confirming n (pos g)) (raise order_received (told (pos g) w))
        ≡ done tt (raise (request_received n t) (told (pos g) w))
  unfolding run
  waiter_confirms hg ht e =
      run-raised order_received (answer n (pos g)) (told (pos g) w)
      ∙ run-at max_groups g (λ g'. get (λ s. s.assigned_table g') >>= confirm n) (told (pos g) w) hg
      ∙ ap (λ x. run (confirm n x) (told (pos g) w)) e
      ∙ run-at num_tables t (λ t'. sem_up (request_received n t')) (told (pos g) w) ht

-- With the mutex free, while the chef waits for an order and no order is under way, an order of a seated
-- group is passed: the chef waits at `waitOrder`; `informChef` raises it and waits at `orderReceived`; the chef then
-- takes exactly this group, and the waiter goes on and confirms the order at the group's table. The two
-- semaphores are as before then, and the flag of a food order is set.
pub order_passed :
    (n g t : ℕ) (w : World)
    → g < max_groups
    → t < num_tables
    → w.full.assigned_table g ≡ pos t
    → w.sem mutex ≢ 0
    → w.sem wait_order ≡ 0
    → w.sem order_received ≡ 0
    → (chef_on : Prog ℤ) × (waiter_on : Prog (Unit {0})) × (run wait_for_food_order w
        ≡ blocked wait_order chef_on (saved (Chef.with_stat Shared.wait_for_order) w))
      × (run (inform_chef n (pos g)) (saved (Chef.with_stat Shared.wait_for_order) w)
          ≡ blocked order_received waiter_on (raise wait_order (told (pos g) w)))
      × (run chef_on (raise wait_order (told (pos g) w))
          ≡ done (pos g) (raise order_received (told (pos g) w)))
      × (run waiter_on (raise order_received (told (pos g) w))
          ≡ done tt (raise (request_received n t) (told (pos g) w)))
order_passed n g t w hg ht e free red_order red_received = (
  awaiting,
  confirming n (pos g),
  chef_waits n g t w free red_order,
  waiter_waits n g t w free red_received,
  chef_takes n g t w,
  waiter_confirms n g t w hg ht e,
)
