-- ===== src/System/Messages/Customers.antt =====
-- The groups and the chef announce only messages that are there.
use so2023_trabalho.Base.{
  ℕ, zero, suc, ◌<◌, refl, inl, inr, Bool, false, if◌then◌else◌, ℤ, pos, negsuc, arith,
}
use so2023_trabalho.Shared
use so2023_trabalho.Shared.{FullStat, Request, max_groups, num_tables}
use so2023_trabalho.Sync
use so2023_trabalho.Prog.{
  Prog, ret, down, up, ◌>>=◌, ◌>>◌, at, get, save_under_mutex, usleep, sem_down,
}
use so2023_trabalho.Slots.{place_at_reception, place_with_waiter}
use so2023_trabalho.Group
use so2023_trabalho.Group.{
  group, go_to_restaurant, check_in_at_reception, order_food, wait_food, eat,
  check_out_at_reception, my_table,
}
use so2023_trabalho.Chef
use so2023_trabalho.Chef.{chef_loop, wait_for_food_order, process_order}
use so2023_trabalho.System.Messages.{
  stove, IsGroup, nothing, learn, Mindful, Mindful->>=, Mindful-at,
}
use so2023_trabalho.System.Messages.Programs.{
  IsQuiet, saved, saves, Mindful->>, Mindful-if, awaits, table_waits, places_desk, places_floor,
  mute, big-IsMute,
}

module _ (n : ℕ) where
  -- A piece of a process that may not sleep for ever.
  abbrev Piece : Prog (Unit {0}) → Type 0
  Piece m = Mindful n false nothing m (λ _. Unit {0})

  go_to_restaurant-Mindful : (late : ℤ → Bool) (id : ℕ) → Piece (go_to_restaurant late id)
  unfolding go_to_restaurant
  go_to_restaurant-Mindful late id =
      Mindful-at n false max_groups (pos id)
        (λ g. get (λ s. s.start_time g) >>= λ t. if late t then usleep else ret tt) nothing
        (λ _. Unit {0})
        (λ g _ _ s _.
          Mindful-if n false (late (s.start_time g)) usleep (ret tt) (λ _. Unit {0}) tt tt)

  eat-Mindful : (late : ℤ → Bool) (id : ℕ) → Piece (eat late id)
  unfolding eat
  eat-Mindful late id =
      Mindful-at n false max_groups (pos id)
        (λ g. get (λ s. s.eat_time g) >>= λ t. if late t then usleep else ret tt) nothing
        (λ _. Unit {0})
        (λ g _ _ s _.
          Mindful-if n false (late (s.eat_time g)) usleep (ret tt) (λ _. Unit {0}) tt tt)

  with_stat-IsQuiet : (g x : ℕ) → IsQuiet n false (Group.with_stat g x)
  with_stat-IsQuiet g x = λ f. (refl, refl, refl)

  my_table-Mindful :
      (id : ℕ) (f : ℤ → Prog (Unit {0}))
      → ((table : ℤ) → Piece (f table))
      → Piece (my_table id >>= f)
  my_table-Mindful id f h =
      Mindful->>= n false (my_table id) f nothing (λ _. Unit {0}) (λ _. Unit {0})
        (Mindful-at n false max_groups (pos id) (λ g. get (λ s. s.assigned_table g)) nothing
          (λ _. Unit {0}) (λ g _ _ s _. tt))
        (λ table _. h table)

  check_in-Mindful : (id : ℕ) → id < n → Piece (check_in_at_reception id)
  unfolding check_in_at_reception
  check_in-Mindful id lt =
      Mindful-at n false max_groups (pos id)
        (λ g. save_under_mutex (Group.with_stat g Shared.at_reception) >> asks g) nothing
        (λ _. Unit {0})
        λ g _ _.
          saved n false (Group.with_stat g Shared.at_reception) (asks g) (λ _. Unit {0})
            (with_stat-IsQuiet g Shared.at_reception)
            (Mindful->> n false (place_at_reception ask) (sem_down (Sync.wait_for_table g))
              (λ _. Unit {0}) (places_desk n false ask (inl refl, (id, refl, lt)))
              (awaits n false (Sync.wait_for_table g) (ret tt) (λ _. Unit {0}) tt))
    where
      ask : Request
      ask = record { req_type = pos Shared.table_req; req_group = pos id }

      asks : ℕ → Prog (Unit {0})
      asks g = place_at_reception ask >> sem_down (Sync.wait_for_table g)

  order_food-Mindful : (id : ℕ) → id < n → Piece (order_food n id)
  unfolding order_food
  order_food-Mindful id lt =
      Mindful-at n false max_groups (pos id)
        (λ g. save_under_mutex (Group.with_stat g Shared.food_request) >> asks) nothing
        (λ _. Unit {0})
        λ g _ _.
          saved n false (Group.with_stat g Shared.food_request) asks (λ _. Unit {0})
            (with_stat-IsQuiet g Shared.food_request)
            (Mindful->> n false (place_with_waiter ask) (my_table id >>= waits) (λ _. Unit {0})
              (places_floor n false ask (inl refl, (id, refl, lt)))
              (my_table-Mindful id waits (λ table.
                table_waits n false table (Sync.request_received n) (ret tt) (λ _. Unit {0}) tt)))
    where
      ask : Request
      ask = record { req_type = pos Shared.food_req; req_group = pos id }

      waits : ℤ → Prog (Unit {0})
      waits table = at num_tables table >>= λ t. sem_down (Sync.request_received n t)

      asks : Prog (Unit {0})
      asks = place_with_waiter ask >> (my_table id >>= waits)

  wait_food-Mindful : (id : ℕ) → Piece (wait_food n id)
  unfolding wait_food
  wait_food-Mindful id =
      Mindful-at n false max_groups (pos id)
        (λ g.
          save_under_mutex (Group.with_stat g Shared.wait_for_food) >> (my_table id >>= waits g))
        nothing (λ _. Unit {0})
        λ g _ _.
          saved n false (Group.with_stat g Shared.wait_for_food) (my_table id >>= waits g)
            (λ _. Unit {0}) (with_stat-IsQuiet g Shared.wait_for_food)
            (my_table-Mindful id (waits g) (λ table.
              table_waits n false table (Sync.food_arrived n)
                (save_under_mutex (Group.with_stat g Shared.eating)) (λ _. Unit {0})
                (saves n false (Group.with_stat g Shared.eating)
                  (with_stat-IsQuiet g Shared.eating))))
    where
      waits : ℕ → ℤ → Prog (Unit {0})
      waits g table = at num_tables table >>= λ t.
          down (Sync.food_arrived n t) (save_under_mutex (Group.with_stat g Shared.eating))

  check_out-Mindful : (id : ℕ) → id < n → Piece (check_out_at_reception n id)
  unfolding check_out_at_reception
  check_out-Mindful id lt = my_table-Mindful id leaves λ table.
      Mindful-at n false max_groups (pos id)
        (λ g. save_under_mutex (Group.with_stat g Shared.checkout) >> pays table g) nothing
        (λ _. Unit {0})
        λ g _ _.
          saved n false (Group.with_stat g Shared.checkout) (pays table g) (λ _. Unit {0})
            (with_stat-IsQuiet g Shared.checkout)
            (Mindful->> n false (place_at_reception ask) (waits table g) (λ _. Unit {0})
              (places_desk n false ask (inr refl, (id, refl, lt)))
              (table_waits n false table (Sync.table_done n)
                (save_under_mutex (Group.with_stat g Shared.leaving)) (λ _. Unit {0})
                (saves n false (Group.with_stat g Shared.leaving)
                  (with_stat-IsQuiet g Shared.leaving))))
    where
      ask : Request
      ask = record { req_type = pos Shared.bill_req; req_group = pos id }

      waits : ℤ → ℕ → Prog (Unit {0})
      waits table g = at num_tables table >>= λ t.
          down (Sync.table_done n t) (save_under_mutex (Group.with_stat g Shared.leaving))

      pays : ℤ → ℕ → Prog (Unit {0})
      pays table g = place_at_reception ask >> waits table g

      leaves : ℤ → Prog (Unit {0})
      leaves table = at max_groups (pos id) >>= λ g.
          save_under_mutex (Group.with_stat g Shared.checkout) >> pays table g

  pub group-Mindful : (late : ℤ → Bool) (id : ℕ) → id < n → Piece (group late n id)
  unfolding group
  group-Mindful late id lt =
      Mindful->> n false (go_to_restaurant late id) arrived (λ _. Unit {0})
        (go_to_restaurant-Mindful late id)
        (Mindful->> n false (check_in_at_reception id) seated (λ _. Unit {0})
          (check_in-Mindful id lt)
          (Mindful->> n false (order_food n id) ordered (λ _. Unit {0}) (order_food-Mindful id lt)
            (Mindful->> n false (wait_food n id) served (λ _. Unit {0}) (wait_food-Mindful id)
              (Mindful->> n false (eat late id) (check_out_at_reception n id) (λ _. Unit {0})
                (eat-Mindful late id) (check_out-Mindful id lt)))))
    where
      served : Prog (Unit {0})
      served = eat late id >> check_out_at_reception n id

      ordered : Prog (Unit {0})
      ordered = wait_food n id >> served

      seated : Prog (Unit {0})
      seated = order_food n id >> ordered

      arrived : Prog (Unit {0})
      arrived = check_in_at_reception id >> seated

  wait_for_food_order-Mindful : Mindful n false nothing wait_for_food_order (IsGroup n)
  unfolding wait_for_food_order
  wait_for_food_order-Mindful =
      saved n false (Chef.with_stat Shared.wait_for_order)
        (sem_down Sync.wait_order
          >> (get (λ s. s.food_group) >>= λ g. up Sync.order_received (ret g)))
        (IsGroup n) (λ f. (refl, refl, refl))
        (λ f t. (
          mute Sync.order_received (big-IsMute Sync.order_received (omega arith))
              (learn nothing Sync.wait_order),
          t stove,
        ))

  process_order-Mindful :
      (x : ℤ) → IsGroup n x → Mindful n false nothing (process_order x) (λ _. Unit {0})
  unfolding process_order
  process_order-Mindful (negsuc g) h = tt
  process_order-Mindful (pos g) h =
      saved n false (Chef.with_stat Shared.cook) (usleep >> cooked) (λ _. Unit {0})
        (λ f. (refl, refl, refl))
        (saved n false (Chef.with_stat Shared.rest) (place_with_waiter meal >> ret (pos 0xffff))
          (λ _. Unit {0}) (λ f. (refl, refl, refl))
          (Mindful->> n false (place_with_waiter meal) (ret (pos 0xffff)) (λ _. Unit {0})
            (places_floor n false meal (inr refl, h)) tt))
    where
      meal : Request
      meal = record { req_type = pos Shared.food_ready; req_group = pos g }

      cooked : Prog ℤ
      cooked =
          save_under_mutex (Chef.with_stat Shared.rest)
          >> (place_with_waiter meal >> ret (pos 0xffff))

  pub chef-Mindful : (k : ℕ) → Piece (chef_loop k)
  unfolding chef_loop
  chef-Mindful zero = tt
  chef-Mindful (suc k) =
      Mindful->>= n false wait_for_food_order (λ g. process_order g >>= λ _. chef_loop k) nothing
        (IsGroup n) (λ _. Unit {0}) wait_for_food_order-Mindful
        (λ g h.
          Mindful->>= n false (process_order g) (λ _. chef_loop k) nothing (λ _. Unit {0})
            (λ _. Unit {0}) (process_order-Mindful g h) (λ _ _. chef-Mindful k))
