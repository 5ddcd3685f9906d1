-- ===== src/System/Messages/Floor.antt =====
-- The waiter announces only orders of a group, and gets no request that it does not know.
use so2023_trabalho.Base.{
  ℕ, zero, suc, ◌≡◌, ◌≢◌, refl, ◌⊎◌, inl, inr, Bool, true, false, Bool-cases, not, if◌then◌else◌,
  ◌==◌, lt→ltb, is_pos, is_minus_one, ℤ, arith,
}
use so2023_trabalho.Shared
use so2023_trabalho.Shared.{FullStat, Request, max_groups, num_tables}
use so2023_trabalho.Sync
use so2023_trabalho.Prog.{Prog, ret, ◌>>=◌, ◌>>◌, at, get, save_under_mutex, sem_up}
use so2023_trabalho.Slots.{take_with_waiter}
use so2023_trabalho.Waiter
use so2023_trabalho.Waiter.{
  Orders, no_request, init_orders, note_table, pop_order, push_order, sort_request, enter_wait,
  receive_request, poll_once, unless_found, poll, wait_for_client_or_chef, inform_chef,
  take_food_to_table, attend, waiter_loop,
}
use so2023_trabalho.Waiter.Stock.{IsStocked, oldest_held, popped-IsStocked, pushed-IsStocked}
use so2023_trabalho.System.Messages.{
  desk, floor, stove, nothing, learn, IsGroup, IsFloorRequest, Respects, Mindful, Mindful->>=,
  Mindful-at, more,
}
use so2023_trabalho.System.Messages.Programs.{
  quiet, saves, Mindful-if, Mindful->>, takes_floor, mute, mutex-IsMute, big-IsMute, only,
  stove_announced,
}

module _ (n : ℕ) where
  abbrev Finds : Request × Orders → Type 0
  Finds (x, q) =
      ((is_minus_one x.req_type ≡ true) ⊎ IsFloorRequest n x) × IsStocked (IsFloorRequest n) q

  abbrev Found : Request × Orders → Type 0
  Found (x, q) = IsFloorRequest n x × IsStocked (IsFloorRequest n) q

  floor_known : (x : Request) → IsFloorRequest n x → is_minus_one x.req_type ≡ false
  floor_known x (inl e, g) = rw e refl
  floor_known x (inr e, g) = rw e refl

  pop-Mindful :
      (q : Orders)
      → IsStocked (IsFloorRequest n) q
      → q.q_length ≢ 0
      → Mindful n false nothing (pop_order q) Finds
  unfolding pop_order
  pop-Mindful q v some =
      rw (lt→ltb q.q_read_next num_tables v.read_lt) (
        inr (oldest_held (IsFloorRequest n) q v some),
        popped-IsStocked (IsFloorRequest n) q v some,
      )

  push-Mindful :
      (q : Orders) (x : Request)
      → IsStocked (IsFloorRequest n) q
      → IsFloorRequest n x
      → Mindful n false nothing (push_order q x) (IsStocked (IsFloorRequest n))
  unfolding push_order
  push-Mindful q x v h =
      rw (lt→ltb q.q_write_next num_tables (omega (arith, v.write_at)))
        (pushed-IsStocked (IsFloorRequest n) q v x h)

  sort-Mindful :
      (q : Orders) (x : Request)
      → IsStocked (IsFloorRequest n) q
      → IsFloorRequest n x
      → Mindful n false nothing (sort_request q x) Finds
  unfolding sort_request
  sort-Mindful q x v (inl e, g) =
      let order : is_pos x.req_type Shared.food_req ≡ true = rw e refl in
      rw order (
        Mindful->>= n false (push_order q x) (λ q'. ret (no_request, q')) nothing
          (IsStocked (IsFloorRequest n)) Finds (push-Mindful q x v (inl e, g))
          (λ q' v'. (inl refl, v')))
  sort-Mindful q x v (inr e, g) =
      let meal : is_pos x.req_type Shared.food_ready ≡ true = rw e refl in
      let no_order : is_pos x.req_type Shared.food_req ≡ false = rw e refl in
      rw (no_order, meal) (inr (inr e, g), v)

  receive-Mindful :
      (q : Orders)
      → IsStocked (IsFloorRequest n) q
      → Mindful n false nothing (receive_request q) Finds
  unfolding receive_request enter_wait
  receive-Mindful q v = λ s _.
      Mindful->> n false (enter_wait s.st.waiter_stat) (take_with_waiter >>= sort_request q) Finds
        (Mindful-if n false (s.st.waiter_stat == Shared.wait_for_request) (ret tt)
          (save_under_mutex (Waiter.with_stat Shared.wait_for_request)) (λ _. Unit {0}) tt
          (saves n false (Waiter.with_stat Shared.wait_for_request) (λ f. (refl, refl, refl))))
        (Mindful->>= n false take_with_waiter (sort_request q) nothing (IsFloorRequest n) Finds
          (takes_floor n false) (λ x h. sort-Mindful q x v h))

  once-Mindful :
      (busy : Bool) (q : Orders)
      → IsStocked (IsFloorRequest n) q
      → Mindful n false nothing (poll_once busy q) Finds
  unfolding poll_once
  once-Mindful busy q v = elim (Bool-cases (q.q_length == 0)) [
    | inl e ↦ rw e (receive-Mindful q v)
    | inr e ↦ rw e (
        Mindful-if n false (not busy) (pop_order q) (receive_request q) Finds
          (pop-Mindful q v (ground arith)) (receive-Mindful q v))
  ]

  poll-Mindful :
      (f : ℕ) (busy : Bool) (q : Orders)
      → IsStocked (IsFloorRequest n) q
      → Mindful n false nothing (poll f busy q) Found
  unfolding poll
  poll-Mindful zero busy q v = tt
  poll-Mindful (suc f) busy q v =
      Mindful->>= n false (poll_once busy q) (unless_found (poll f busy)) nothing Finds Found
        (once-Mindful busy q v)
        λ (x, q') h. elim h.0 [
          | inl e ↦ rw e (poll-Mindful f busy q' h.1)
          | inr g ↦ rw (floor_known x g) (g, h.1)
        ]

  new_stove :
      (group : ℤ)
      → IsGroup n group
      → Respects n false (learn nothing Sync.mutex) (only stove) (λ s.
        Waiter.with_stat Shared.inform_chef_stat (record s { food_group = group; food_order = 1 }))
  new_stove group h f t desk = (tt, λ c. c)
  new_stove group h f t floor = (tt, λ c. c)
  new_stove group h f t stove = (h, λ _. h)

  inform-Mindful :
      (group : ℤ) → IsGroup n group → Mindful n false nothing (inform_chef n group) (λ _. Unit {0})
  unfolding inform_chef
  inform-Mindful group h = (
    only stove,
    new_stove group h,
    (
      mute Sync.mutex mutex-IsMute (only stove),
      (
        stove_announced,
        more n false answers nothing (learn (only stove) Sync.order_received) (λ _. Unit {0})
            (λ x e. ground arith)
            (Mindful-at n false max_groups group (λ g. get (λ s. s.assigned_table g) >>= confirms)
              nothing (λ _. Unit {0})
              (λ g _ _ s _.
                Mindful-at n false num_tables (s.assigned_table g)
                  (λ t. sem_up (Sync.request_received n t)) nothing (λ _. Unit {0})
                  (λ t _ _. (
                    mute (Sync.request_received n t)
                        (big-IsMute (Sync.request_received n t) (omega arith)) nothing,
                    tt,
                  )))),
      ),
    ),
  )
    where
      confirms : ℤ → Prog (Unit {0})
      confirms table = at num_tables table >>= λ t. sem_up (Sync.request_received n t)

      answers : Prog (Unit {0})
      answers = at max_groups group >>= λ g. get (λ s. s.assigned_table g) >>= confirms

  note-Mindful : (group : ℤ) → Mindful n false nothing (note_table group) (λ _. Unit {0})
  note-Mindful group = (
    nothing,
    quiet n false (learn nothing Sync.mutex) (Waiter.with_stat Shared.take_to_table)
        (λ f. (refl, refl, refl)),
    Mindful-at n false max_groups group
        (λ g. get (λ s. s.assigned_table g) >>= λ table. sem_up Sync.mutex >> ret table) nothing
        (λ _. Unit {0}) (λ g _ _ s _. (mute Sync.mutex mutex-IsMute nothing, tt)),
  )

  take_food-Mindful :
      (group : ℤ) → Mindful n false nothing (take_food_to_table n group) (λ _. Unit {0})
  unfolding take_food_to_table
  take_food-Mindful group =
      Mindful->>= n false (note_table group) _ nothing (λ _. Unit {0}) (λ _. Unit {0})
        (note-Mindful group)
        λ table _. (
          nothing,
          quiet n false nothing _ (λ f. (refl, refl, refl)),
          Mindful-at n false num_tables table (λ t. sem_up (Sync.food_arrived n t)) nothing
              (λ _. Unit {0})
              (λ t _ _. (
                mute (Sync.food_arrived n t) (big-IsMute (Sync.food_arrived n t) (omega arith))
                    nothing,
                tt,
              )),
        )

  attend-Mindful :
      (x : Request) → IsFloorRequest n x → Mindful n false nothing (attend n x) (λ _. Unit {0})
  unfolding attend
  attend-Mindful x (kind, g) =
      Mindful-if n false (is_pos x.req_type Shared.food_req) (inform_chef n x.req_group)
        (if is_pos x.req_type Shared.food_ready then take_food_to_table n x.req_group else ret tt)
        (λ _. Unit {0}) (inform-Mindful x.req_group g)
        (Mindful-if n false (is_pos x.req_type Shared.food_ready) (take_food_to_table n x.req_group)
          (ret tt) (λ _. Unit {0}) (take_food-Mindful x.req_group) tt)

  pub waiter_loop-Mindful :
      (fuel k : ℕ) (q : Orders)
      → IsStocked (IsFloorRequest n) q
      → Mindful n false nothing (waiter_loop fuel n k q) (λ _. Unit {0})
  unfolding waiter_loop wait_for_client_or_chef
  waiter_loop-Mindful fuel zero q v = tt
  waiter_loop-Mindful fuel (suc k) q v = λ s _.
      Mindful->>= n false (poll fuel (not (s.food_order == 0)) q)
        (λ (x, q'). attend n x >> waiter_loop fuel n k q') nothing Found (λ _. Unit {0})
        (poll-Mindful fuel (not (s.food_order == 0)) q v)
        (λ (x, q') h.
          Mindful->> n false (attend n x) (waiter_loop fuel n k q') (λ _. Unit {0})
            (attend-Mindful x h.0) (waiter_loop-Mindful fuel k q' h.1))
