-- ===== src/System/Fuel/Rounds.antt =====
-- The waiter's inner loop takes a request in each of its rounds but the last, so it is not out of fuel
-- before there are more requests than rounds.
use so2023_trabalho.Base.{
  ℕ, zero, suc, ◌+◌, ◌*◌, ◌≤◌, ◌<◌, ◌≡◌, ◌≢◌, refl, inl, inr, Bool, true, false, Bool-cases, not,
  if◌then◌else◌, ◌==◌, lt→ltb, is_pos, is_minus_one, ℤ, pos, negsuc, arith,
}
use so2023_trabalho.Shared
use so2023_trabalho.Shared.{FullStat, Request, max_groups, num_tables}
use so2023_trabalho.Sync
use so2023_trabalho.Prog.{
  Prog, ret, hang, ◌>>=◌, ◌>>◌, at, get, put, save_under_mutex, sem_down, sem_up,
}
use so2023_trabalho.Slots.{take_with_waiter}
use so2023_trabalho.Waiter
use so2023_trabalho.Waiter.{
  Orders, no_request, note_table, pop_order, push_order, sort_request, enter_wait, receive_request,
  poll_once, unless_found, poll, wait_for_client_or_chef, inform_chef, take_food_to_table, attend,
  waiter_loop,
}
use so2023_trabalho.Waiter.Stock.{IsStocked, oldest_held, popped-IsStocked, pushed-IsStocked}
use so2023_trabalho.System.Fuel.{Copes, Copes->>=, Copes-at, Copes-if}

-- What is put into the ring.
abbrev pub IsOrder : Request → Type 0
IsOrder x = is_pos x.req_type Shared.food_req ≡ true

kind_known : (t : ℤ) → is_pos t Shared.food_req ≡ true → is_minus_one t ≡ false
kind_known (pos t) h = refl
kind_known (negsuc t) h = absurd (ground arith)

order_known : (x : Request) → IsOrder x → is_minus_one x.req_type ≡ false
order_known x h = kind_known x.req_type h

-- A round that returns nothing has taken one of the `m` requests.
abbrev Finds : ℕ → Request × Orders → ℕ → Type 0
Finds m (x, q) j = (j + (if is_minus_one x.req_type then 1 else 0) ≤ m) × IsStocked IsOrder q

abbrev Kept : ℕ → Request × Orders → ℕ → Type 0
Kept m (x, q) j = (j ≤ m) × IsStocked IsOrder q

saved :
    {A : Type 0} (g : FullStat → FullStat) (c : Prog A) (m : ℕ) (p : A → ℕ → Type 0)
    → Copes m c p
    → Copes m (save_under_mutex g >> c) p
saved g c m p h = λ j e. let same : j ≡ m = omega (arith, e) in rw same h

pop-Copes :
    (m : ℕ) (q : Orders) → IsStocked IsOrder q → q.q_length ≢ 0 → Copes m (pop_order q) (Finds m)
unfolding pop_order
pop-Copes m q v some =
    rw
      (
        lt→ltb q.q_read_next num_tables v.read_lt,
        order_known (q.queue q.q_read_next) (oldest_held IsOrder q v some),
      )
      (omega arith, popped-IsStocked IsOrder q v some)

sort-Copes :
    (m : ℕ) (q : Orders) (x : Request)
    → IsStocked IsOrder q
    → Copes m (sort_request q x) (Finds (m + 1))
unfolding sort_request push_order
sort-Copes m q x v = elim (Bool-cases (is_pos x.req_type Shared.food_req)) [
  | inl e ↦
      rw (e, lt→ltb q.q_write_next num_tables (omega (arith, v.write_at)))
        (omega arith, pushed-IsStocked IsOrder q v x e)
  | inr e ↦ rw e (
      Copes-if (is_pos x.req_type Shared.food_ready) (ret (x, q)) (sem_down Sync.mutex >> hang) m
        (Finds (m + 1)) (ground arith, v) (λ j e. tt))
]

receive-Copes : (m : ℕ) (q : Orders) → IsStocked IsOrder q → Copes m (receive_request q) (Finds m)
unfolding receive_request enter_wait
receive-Copes m q v = λ s.
    Copes->>= (enter_wait s.st.waiter_stat) (λ _. take_with_waiter >>= sort_request q) m
      (λ _ j. j ≡ m) (Finds m)
      (Copes-if (s.st.waiter_stat == Shared.wait_for_request) (ret tt)
        (save_under_mutex (Waiter.with_stat Shared.wait_for_request)) m (λ _ j. j ≡ m) refl
        (λ j e. omega (arith, e)))
      (λ _ j same.
        Copes->>= take_with_waiter (sort_request q) j (λ _ i. i + 1 ≡ m) (Finds m)
          (λ i e f. omega (arith, e, same)) (λ x i e. rw e at (sort-Copes i q x v)))

once-Copes :
    (m : ℕ) (busy : Bool) (q : Orders) → IsStocked IsOrder q → Copes m (poll_once busy q) (Finds m)
unfolding poll_once
once-Copes m busy q v = elim (Bool-cases (q.q_length == 0)) [
  | inl e ↦ rw e (receive-Copes m q v)
  | inr e ↦ rw e (
      Copes-if (not busy) (pop_order q) (receive_request q) m (Finds m)
        (pop-Copes m q v (ground arith)) (receive-Copes m q v))
]

poll-Copes :
    (most f m : ℕ) (busy : Bool) (q : Orders)
    → m ≤ most
    → m < f
    → IsStocked IsOrder q
    → Copes m (poll f busy q) (Kept most)
unfolding poll
poll-Copes most zero m busy q le lt v = absurd (omega arith)
poll-Copes most (suc f) m busy q le lt v =
    Copes->>= (poll_once busy q) (unless_found (poll f busy)) m (Finds m) (Kept most)
      (once-Copes m busy q v)
      λ (x, q') j h. elim (Bool-cases (is_minus_one x.req_type)) [
        | inl e ↦
            let taken : j + 1 ≤ m = rw e at h.0 in
            rw e (
              poll-Copes most f j busy q' (omega (arith, taken, le)) (omega (arith, taken, lt)) h.1)
        | inr e ↦ let taken : j + 0 ≤ m = rw e at h.0 in rw e (omega (arith, taken, le), h.1)
      ]

-- No piece of `attend` waits for a request.
inform-Copes :
    (most m n : ℕ) (group : ℤ) → m ≤ most → Copes m (inform_chef n group) (λ _ j. j ≤ most)
unfolding inform_chef
inform-Copes most m n group le = λ j e i d.
    Copes-at max_groups group _ i (λ _ j. j ≤ most)
      (λ g s.
        Copes-at num_tables (s.assigned_table g) (λ t. sem_up (Sync.request_received n t)) i
          (λ _ j. j ≤ most) (λ t. omega (arith, e, d)))

take_food-Copes :
    (most m n : ℕ) (group : ℤ) → m ≤ most → Copes m (take_food_to_table n group) (λ _ j. j ≤ most)
unfolding take_food_to_table
take_food-Copes most m n group le =
    Copes->>= (note_table group)
      (λ table.
        put (λ s. record s { food_order = 0 })
        >> (at num_tables table >>= λ t. sem_up (Sync.food_arrived n t)))
      m (λ _ j. j ≤ most) (λ _ j. j ≤ most)
      (λ j e.
        Copes-at max_groups group
          (λ g. get (λ s. s.assigned_table g) >>= λ table. sem_up Sync.mutex >> ret table) j
          (λ _ j. j ≤ most) (λ g s. omega (arith, e)))
      (λ table j h.
        Copes-at num_tables table (λ t. sem_up (Sync.food_arrived n t)) j (λ _ j. j ≤ most)
          (λ t. h))

attend-Copes : (most m n : ℕ) (x : Request) → m ≤ most → Copes m (attend n x) (λ _ j. j ≤ most)
unfolding attend
attend-Copes most m n x le =
    Copes-if (is_pos x.req_type Shared.food_req) (inform_chef n x.req_group)
      (if is_pos x.req_type Shared.food_ready then take_food_to_table n x.req_group else ret tt) m
      (λ _ j. j ≤ most) (inform-Copes most m n x.req_group le)
      (Copes-if (is_pos x.req_type Shared.food_ready) (take_food_to_table n x.req_group) (ret tt) m
        (λ _ j. j ≤ most) (take_food-Copes most m n x.req_group le) le)

pub waiter_loop-Copes :
    (fuel n k m : ℕ) (q : Orders)
    → n * 2 < fuel
    → m ≤ n * 2
    → IsStocked IsOrder q
    → Copes m (waiter_loop fuel n k q) (λ _ _. Unit {0})
unfolding waiter_loop wait_for_client_or_chef
waiter_loop-Copes fuel n zero m q enough le v = tt
waiter_loop-Copes fuel n (suc k) m q enough le v = λ s.
    Copes->>= (poll fuel (not (s.food_order == 0)) q)
      (λ (x, q'). attend n x >> waiter_loop fuel n k q') m (Kept (n * 2)) (λ _ _. Unit {0})
      (poll-Copes (n * 2) fuel m (not (s.food_order == 0)) q le (omega arith) v)
      (λ (x, q') j h.
        Copes->>= (attend n x) (λ _. waiter_loop fuel n k q') j (λ _ i. i ≤ n * 2) (λ _ _. Unit {0})
          (attend-Copes (n * 2) j n x h.0)
          (λ _ i le'. waiter_loop-Copes fuel n k i q' enough le' h.1))
