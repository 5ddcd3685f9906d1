-- ===== src/Waiter/Returns.antt =====
-- The calls of `waitForClientOrChef` as a client sees them.
use so2023_trabalho.Base.{
  ℕ, suc, ◌<◌, ◌≡◌, ◌≢◌, refl, ap, ◌⊎◌, ◌∙◌, inl, inr, Bool, true, false, not, List, [], ◌∷◌, ◌++◌,
  length, ◌==◌, ℤ, minus_one, arith,
}
use so2023_trabalho.Shared.{Request, num_tables, wait_for_request}
use so2023_trabalho.Sync.{mutex, waiter_request}
use so2023_trabalho.Prog.{Prog, World, done, blocked, run, ◌>>=◌}
use so2023_trabalho.Waiter.{Orders, poll, unless_found, wait_for_client_or_chef}
use so2023_trabalho.Waiter.Queue.{
  contents, IsQueue, popped, pushed, run-pop_order, run-push_order, placed, run-push_any,
  pushed-kept,
}
use so2023_trabalho.Waiter.Calls.{
  received, taken, take_request, run-resume, order, meal, poll-oldest, poll-meal, poll-order,
  poll-blocked,
}

run-wait :
    (f : ℕ) (q : Orders) (w : World) {b : Bool}
    → not (w.full.food_order == 0) ≡ b
    → run (wait_for_client_or_chef f q) w ≡ run (poll f b q) w
unfolding wait_for_client_or_chef run
run-wait f q w e = ap (λ b. run (poll f b q) w) e

received-waits : (w : World) → (received w).full.st.waiter_stat ≡ wait_for_request
received-waits w = ground arith

module _ (f : ℕ) (q : Orders) (w : World) (v : IsQueue q) where
  -- While the chef is free and orders are queued, a call returns the order that was queued first, at
  -- once and with nothing done to the world, and the other orders stay queued in their order.
  pub idle_returns_oldest :
      (r : Request) (rs : List Request)
      → w.full.food_order ≡ 0
      → contents q ≡ r ∷ rs
      → r.req_type ≢ minus_one
      → (p : Orders) × (run (wait_for_client_or_chef (suc f) q) w ≡ done (r, p) w)
        × IsQueue p
        × (contents p ≡ rs)
  idle_returns_oldest r rs idle e real = (
    popped q,
    run-wait (suc f) q w (ground arith) ∙ poll-oldest f q r rs w v e (ground arith),
    (run-pop_order q r rs w v e).1,
    (run-pop_order q r rs w v e).2,
  )

  -- While the chef is free and nothing is queued, and with the mutex free, a call returns the order that a group has placed;
  -- the way is opened for the next request, and nothing is queued afterwards.
  pub idle_returns_order :
      (g : ℤ)
      → w.full.food_order ≡ 0
      → contents q ≡ []
      → w.sem mutex ≢ 0
      → w.sem waiter_request ≢ 0
      → w.full.waiter_request ≡ order g
      → (p : Orders) × (run (wait_for_client_or_chef (suc (suc f)) q) w
          ≡ done (order g, p) (received w))
        × IsQueue p
        × (contents p ≡ [])
  idle_returns_order g idle e free placed posted =
      let room : length (contents q) < num_tables = omega (arith, ap length e) in
      let (_, v', e') = run-push_order q (order g) w v room in
      let one : contents (pushed (order g) q) ≡ order g ∷ [] = e' ∙ ap (λ l. l ++ order g ∷ []) e in
      let (_, v'', e'') = run-pop_order (pushed (order g) q) (order g) [] w v' one in
      (
        popped (pushed (order g) q),
        run-wait (suc (suc f)) q w (ground arith)
            ∙ poll-order (suc f) false q g w (inr e) free placed posted v
            ∙ poll-oldest f (pushed (order g) q) (order g) [] (received w) v' one refl,
        v'',
        e'',
      )

  -- While the chef is busy, and with the mutex free, a call that is sent food which is ready returns it, and the queue stays
  -- as it is.
  pub busy_returns_meal :
      (g : ℤ)
      → w.full.food_order ≢ 0
      → w.sem mutex ≢ 0
      → w.sem waiter_request ≢ 0
      → w.full.waiter_request ≡ meal g
      → run (wait_for_client_or_chef (suc f) q) w ≡ done (meal g, q) (received w)
  busy_returns_meal g busy free placed posted =
      run-wait (suc f) q w (ground arith) ∙ poll-meal f true q g w (inl refl) free placed posted

  -- With the ring of orders in order, the mutex free and one request announced: while the chef is busy, an
  -- order is put at the end of the queue, and where the ring of two orders is full it is also written over
  -- the oldest one; the ring is in order afterwards unless it was full. The way is opened for the next
  -- request, for which the call then waits; resumed in any world `u` where food is ready, it returns the
  -- food and keeps the queue.
  pub busy_defers_order :
      (g m : ℤ) (u : World)
      → w.full.food_order ≢ 0
      → w.sem mutex ≢ 0
      → w.sem waiter_request ≡ 1
      → w.full.waiter_request ≡ order g
      → u.sem waiter_request ≢ 0
      → u.full.waiter_request ≡ meal m
      → (k : Prog (Request × Orders)) × (p : Orders) × (run
            (wait_for_client_or_chef (suc (suc f)) q)
            w
          ≡ blocked waiter_request k (received w))
        × (contents p ≡ placed (order g) (contents q))
        × (IsQueue p ⊎ (length (contents q) ≡ num_tables))
        × (run k u ≡ done (meal m, p) (taken u))
  busy_defers_order g m u busy free one posted placed_at ready = (
    take_request (pushed (order g) q) >>= unless_found (poll f true),
    pushed (order g) q,
    run-wait (suc (suc f)) q w (ground arith)
        ∙ poll-order (suc f) true q g w (inl refl) free (omega arith) posted v
        ∙ poll-blocked f true (pushed (order g) q) (received w) (inl refl) (received-waits w)
            (ground arith),
    (run-push_any q (order g) w v).1,
    pushed-kept q (order g) v,
    run-resume (poll f true) (pushed (order g) q) m u placed_at ready,
  )
