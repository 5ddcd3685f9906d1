-- ===== src/Waiter/Queue.antt =====
-- The static queue of `waitForClientOrChef` in src/semSharedMemWaiter.c, read as a list of orders.
use so2023_trabalho.Base.{
  ℕ, zero, suc, ◌+◌, ◌-◌, ◌%◌, ◌<◌, ◌≤◌, ◌≡◌, ◌≢◌, refl, ap, ◌∙◌, ◌⊎◌, inl, inr, Bool-cases, ltb,
  ltb→lt, if◌then◌else◌, List, [], ◌∷◌, ◌++◌, length, update, lt→ltb, arith,
}
use so2023_trabalho.Shared.{Request, num_tables}
use so2023_trabalho.Prog.{World, done, run}
use so2023_trabalho.Waiter.{Orders, init_orders, pop_order, push_order}

-- The `k` entries from index `i` on, around the end of the array.
abbrev entries : (ℕ → Request) → ℕ → ℕ → List Request
entries f i zero = []
entries f i (suc k) = f i ∷ entries f ((i + 1) % num_tables) k

-- Oldest first.
abbrev pub contents : Orders → List Request
contents q = entries q.queue q.q_read_next q.q_length

pub record IsQueue (q : Orders) : Type 0 where
  pub read_lt : q.q_read_next < num_tables
  pub write_at : q.q_write_next ≡ (q.q_read_next + q.q_length) % num_tables
  pub fits : q.q_length ≤ num_tables

pub init-IsQueue : IsQueue init_orders
unfolding init_orders
init-IsQueue = record { read_lt = omega arith; write_at = refl; fits = omega arith }

abbrev pub popped : Orders → Orders
popped q = record q { q_read_next = (q.q_read_next + 1) % num_tables; q_length = q.q_length - 1 }

abbrev pub pushed : Request → Orders → Orders
pushed r q = record q {
  queue = update q.queue q.q_write_next r;
  q_write_next = (q.q_write_next + 1) % num_tables;
  q_length = q.q_length + 1;
}

popped-IsQueue : (q : Orders) → IsQueue q → 0 < q.q_length → IsQueue (popped q)
popped-IsQueue q v some = record {
  read_lt = omega arith;
  write_at = omega (arith, v.write_at, v.read_lt);
  fits = omega (arith, v.fits);
}

pushed-IsQueue :
    (q : Orders) (r : Request) → IsQueue q → q.q_length < num_tables → IsQueue (pushed r q)
pushed-IsQueue q r v room = record {
  read_lt = v.read_lt;
  write_at = omega (arith, v.write_at, v.read_lt);
  fits = omega arith;
}

entries-length : (f : ℕ → Request) (i k : ℕ) → length (entries f i k) ≡ k
entries-length f i zero = refl
entries-length f i (suc k) = omega (arith, entries-length f ((i + 1) % num_tables) k)

suc-sub-one : (k : ℕ) → suc k - 1 ≡ k
suc-sub-one k = omega arith

entries-cons :
    (f : ℕ → Request) (i k : ℕ) {r : Request} {rs : List Request}
    → entries f i k ≡ r ∷ rs
    → (0 < k) × (f i ≡ r) × (entries f ((i + 1) % num_tables) (k - 1) ≡ rs)
entries-cons f i zero e = cc
entries-cons f i (suc k) e = (omega arith, ground arith, rw (suc-sub-one k) (ground arith))

-- Taking an order out: the oldest is returned, and the others stay in order.
pub run-pop_order :
    (q : Orders) (r : Request) (rs : List Request) (w : World)
    → IsQueue q
    → contents q ≡ r ∷ rs
    → (run (pop_order q) w ≡ done (r, popped q) w) × IsQueue (popped q) × (contents (popped q) ≡ rs)
unfolding run pop_order
run-pop_order q r rs w v e =
    let (some, head, tail) = entries-cons q.queue q.q_read_next q.q_length e in
    (
      rw (lt→ltb q.q_read_next num_tables v.read_lt) (ap (λ x. done (x, popped q) w) head),
      popped-IsQueue q v some,
      tail,
    )

-- An order comes to the end. Where the ring is full it is also written over the oldest order.
abbrev pub placed : Request → List Request → List Request
placed r [] = r ∷ []
placed r (x ∷ xs) = (if ltb (length xs + 1) num_tables then x ∷ xs else r ∷ xs) ++ r ∷ []

pub placed-room :
    (r : Request) (xs : List Request) → length xs < num_tables → placed r xs ≡ xs ++ r ∷ []
placed-room r [] h = refl
placed-room r (x ∷ xs) h = rw (lt→ltb (length xs + 1) num_tables (omega (arith, h))) refl

entries-placed :
    (f : ℕ → Request) (i j k : ℕ) (r : Request)
    → i < num_tables
    → k ≤ num_tables
    → j ≡ (i + k) % num_tables
    → entries (update f j r) i (suc k) ≡ placed r (entries f i k)
entries-placed f i j zero r lt fits e = ground arith
entries-placed f i j (suc zero) r lt fits e = ground arith
entries-placed f i j (suc (suc zero)) r lt fits e = ground arith
entries-placed f i j (suc (suc (suc k))) r lt fits e = absurd (omega arith)

pub run-push_any :
    (q : Orders) (r : Request) (w : World)
    → IsQueue q
    → (run (push_order q r) w ≡ done (pushed r q) w)
      × (contents (pushed r q) ≡ placed r (contents q))
unfolding run push_order
run-push_any q r w v =
    let write_lt : q.q_write_next < num_tables = omega (arith, v.write_at) in
    let suc_lem : q.q_length + 1 ≡ suc q.q_length = omega arith in
    (
      rw (lt→ltb q.q_write_next num_tables write_lt) refl,
      rw suc_lem (
          entries-placed q.queue q.q_read_next q.q_write_next q.q_length r v.read_lt v.fits
            v.write_at),
    )

-- Putting an order in where there is room: it goes to the end.
pub run-push_order :
    (q : Orders) (r : Request) (w : World)
    → IsQueue q
    → length (contents q) < num_tables
    → (run (push_order q r) w ≡ done (pushed r q) w)
      × IsQueue (pushed r q)
      × (contents (pushed r q) ≡ contents q ++ r ∷ [])
run-push_order q r w v room =
    let (runs, holds) = run-push_any q r w v in
    (
      runs,
      pushed-IsQueue q r v (omega (arith, room, entries-length q.queue q.q_read_next q.q_length)),
      holds ∙ placed-room r (contents q) room,
    )

-- The ring stays in order, unless it was full.
pub pushed-kept :
    (q : Orders) (r : Request)
    → IsQueue q
    → IsQueue (pushed r q) ⊎ (length (contents q) ≡ num_tables)
pushed-kept q r v = elim (Bool-cases (ltb q.q_length num_tables)) [
  | inl room ↦ inl (pushed-IsQueue q r v (ltb→lt q.q_length num_tables room))
  | inr full ↦ inr (ground (arith, v.fits, entries-length q.queue q.q_read_next q.q_length))
]

pub contents-nil : (q : Orders) → contents q ≡ [] → q.q_length ≡ 0
contents-nil q e = omega (arith, ap length e, entries-length q.queue q.q_read_next q.q_length)

pub contents-cons :
    (q : Orders) (r : Request) (rs : List Request) → contents q ≡ r ∷ rs → q.q_length ≢ 0
contents-cons q r rs e = omega (arith, ap length e, entries-length q.queue q.q_read_next q.q_length)
