-- ===== src/System/Rules/Stove.antt =====
-- The rules of a resource and the program of the chef.
use so2023_trabalho.Base.{ℕ, zero, suc, refl, false, ℤ, pos, negsuc, arith}
use so2023_trabalho.Shared
use so2023_trabalho.Shared.{FullStat, Request, max_groups, num_tables}
use so2023_trabalho.Sync
use so2023_trabalho.Prog.{Prog, ret, ◌>>=◌, ◌>>◌, sem_down, get, save_under_mutex, usleep, up}
use so2023_trabalho.Slots.{place_with_waiter}
use so2023_trabalho.Chef
use so2023_trabalho.Chef.{wait_for_food_order, process_order, chef_loop, chef}
use so2023_trabalho.System.Resource.{Resource, Sound, Sound->>=}
use so2023_trabalho.System.Rules.{Rules}
use so2023_trabalho.System.Rules.Customers.{Sound->>, waits, raises}

module _ (r : Resource) (rules : Rules r) where
  open rules use {saves, places_waiter}

  wait_for_food_order-Sound : Sound r false wait_for_food_order false
  unfolding wait_for_food_order
  wait_for_food_order-Sound =
      Sound->> r rules (save_under_mutex (Chef.with_stat Shared.wait_for_order)) ordered
        (saves (Chef.with_stat Shared.wait_for_order) (λ s. (refl, refl)))
        (waits r rules Sync.wait_order
          (get (λ s. s.food_group) >>= λ g. up Sync.order_received (ret g)) (omega arith)
          (λ s. raises r rules Sync.order_received (ret s.food_group) (omega arith) refl))
    where
      ordered : Prog ℤ
      ordered =
          sem_down Sync.wait_order
          >> (get (λ s. s.food_group) >>= λ g. up Sync.order_received (ret g))

  process_order-Sound : (group : ℤ) → Sound r false (process_order group) false
  unfolding process_order
  process_order-Sound (negsuc g) = refl
  process_order-Sound (pos g) =
      Sound->> r rules (save_under_mutex (Chef.with_stat Shared.cook)) cooked
        (saves (Chef.with_stat Shared.cook) (λ s. (refl, refl)))
        (Sound->> r rules (save_under_mutex (Chef.with_stat Shared.rest)) ready
          (saves (Chef.with_stat Shared.rest) (λ s. (refl, refl)))
          (Sound->> r rules (place_with_waiter ask) (ret (pos 0xffff)) (places_waiter ask) refl))
    where
      ask : Request
      ask = record { req_type = pos Shared.food_ready; req_group = pos g }

      ready : Prog ℤ
      ready = place_with_waiter ask >> ret (pos 0xffff)

      cooked : Prog ℤ
      cooked = usleep >> (save_under_mutex (Chef.with_stat Shared.rest) >> ready)

  pub chef-Sound : (k : ℕ) → Sound r false (chef_loop k) false
  unfolding chef_loop
  chef-Sound zero = refl
  chef-Sound (suc k) =
      Sound->>= r wait_for_food_order (λ g. process_order g >>= λ _. chef_loop k) false false false
        wait_for_food_order-Sound
        (λ g.
          Sound->>= r (process_order g) (λ _. chef_loop k) false false false (process_order-Sound g)
            (λ _. chef-Sound k))
