-- ===== src/Waiter/Calls.antt =====
-- What a call of `waitForClientOrChef` returns, by what is queued, whether the chef is busy, and the
-- request that is placed.
use so2023_trabalho.Base.{
  is_minus_one, ℕ, suc, ◌+◌, ◌-◌, ◌≡◌, ◌≢◌, refl, ap, ◌∙◌, ◌⊎◌, Bool, true, false, not, ◌&&◌, List,
  [], ◌∷◌, update, ◌==◌, ==_ne, if◌then◌else◌, ℤ, pos, arith,
}
use so2023_trabalho.Shared.{Request, food_req, food_ready, wait_for_request}
use so2023_trabalho.Sync.{mutex, waiter_request, waiter_request_possible}
use so2023_trabalho.Prog.{
  Prog, World, done, blocked, run, ret, ◌>>=◌, ◌>>◌, sem_down, sem_up, get, save_under_mutex,
}
use so2023_trabalho.Prog.Runs.{saved, run-save_under_mutex, run->>=}
use so2023_trabalho.Waiter.{
  Orders, no_request, with_stat, pop_order, push_order, sort_request, enter_wait, receive_request,
  poll_once, poll, unless_found,
}
use so2023_trabalho.Waiter.Queue.{
  contents, IsQueue, popped, pushed, run-pop_order, run-push_any, contents-nil, contents-cons,
}

-- The world after the waiter has announced that it waits, where it has not done so before.
abbrev pub announced : World → World
announced w =
    if w.full.st.waiter_stat == wait_for_request then w else saved (with_stat wait_for_request) w

-- The world after it has taken the request and opened the way for the next one.
abbrev pub taken : World → World
taken w = record w {
  sem =
      update (update w.sem waiter_request (w.sem waiter_request - 1)) waiter_request_possible
        (w.sem waiter_request_possible + 1);
}

abbrev pub received : World → World
received w = taken (announced w)

abbrev pub take_request : Orders → Prog (Request × Orders)
take_request q =
    sem_down waiter_request
    >> (get (λ s. s.waiter_request) >>= λ incoming.
        sem_up waiter_request_possible >> sort_request q incoming)

run-take_request :
    (q : Orders) (w : World)
    → w.sem waiter_request ≢ 0
    → run (take_request q) w ≡ run (sort_request q w.full.waiter_request) (taken w)
unfolding run
run-take_request q w placed = rw (==_ne (w.sem waiter_request) 0 placed, run) refl

-- `b` says whether the waiter waits already.
run-receive_at :
    (b : Bool) (q : Orders) (w : World)
    → w.sem mutex ≢ 0
    → w.sem waiter_request ≢ 0
    → run
        ((if b then ret tt else save_under_mutex (with_stat wait_for_request)) >> take_request q)
        w
      ≡ run
          (sort_request q w.full.waiter_request)
          (taken (if b then w else saved (with_stat wait_for_request) w))
run-receive_at true q w free placed = run-take_request q w placed
run-receive_at false q w free placed =
    run-save_under_mutex (with_stat wait_for_request) (take_request q) w free
    ∙ run-take_request q (saved (with_stat wait_for_request) w) placed

run-receive_request :
    (q : Orders) (w : World)
    → w.sem mutex ≢ 0
    → w.sem waiter_request ≢ 0
    → run (receive_request q) w ≡ run (sort_request q w.full.waiter_request) (received w)
unfolding receive_request run
run-receive_request q w free placed =
    run-receive_at (w.full.st.waiter_stat == wait_for_request) q w free placed

-- The requests that a group and the chef place.
abbrev pub order : ℤ → Request
order g = record { req_type = pos food_req; req_group = g }

abbrev pub meal : ℤ → Request
meal g = record { req_type = pos food_ready; req_group = g }

run-sort_order :
    (q : Orders) (g : ℤ) (w : World)
    → IsQueue q
    → run (sort_request q (order g)) w ≡ done (no_request, pushed (order g) q) w
unfolding sort_request run
run-sort_order q g w v =
    run->>= (push_order q (order g)) (λ p. ret (no_request, p)) w (run-push_any q (order g) w v).0

run-receive_order :
    (q : Orders) (g : ℤ) (w : World)
    → w.sem mutex ≢ 0
    → w.sem waiter_request ≢ 0
    → w.full.waiter_request ≡ order g
    → IsQueue q
    → run (receive_request q) w ≡ done (no_request, pushed (order g) q) (received w)
run-receive_order q g w free placed e v =
    run-receive_request q w free placed
    ∙ ap (λ r. run (sort_request q r) (received w)) e
    ∙ run-sort_order q g (received w) v

run-receive_meal :
    (q : Orders) (g : ℤ) (w : World)
    → w.sem mutex ≢ 0
    → w.sem waiter_request ≢ 0
    → w.full.waiter_request ≡ meal g
    → run (receive_request q) w ≡ done (meal g, q) (received w)
unfolding sort_request run
run-receive_meal q g w free placed e =
    run-receive_request q w free placed ∙ ap (λ r. run (sort_request q r) (received w)) e

-- The waiter looks at a new request where the chef is busy or nothing is queued.
abbrev pub Listens : Bool → Orders → Type 0
Listens busy q = (busy ≡ true) ⊎ (contents q ≡ [])

poll_once-receives :
    (busy : Bool) (q : Orders) → Listens busy q → poll_once busy q ≡ receive_request q
unfolding poll_once
poll_once-receives busy q h =
    let test : (not (q.q_length == 0) && not busy) ≡ false = ground (arith, contents-nil q) in
    rw test refl

poll_once-serves :
    (q : Orders) (r : Request) (rs : List Request)
    → contents q ≡ r ∷ rs
    → poll_once false q ≡ pop_order q
unfolding poll_once
poll_once-serves q r rs h =
    let test : (not (q.q_length == 0) && true) ≡ true = ground (arith, contents-cons q r rs h) in
    rw test refl

-- The chef is free: the order that was queued first is returned, with no wait.
pub poll-oldest :
    (f : ℕ) (q : Orders) (r : Request) (rs : List Request) (w : World)
    → IsQueue q
    → contents q ≡ r ∷ rs
    → is_minus_one r.req_type ≡ false
    → run (poll (suc f) false q) w ≡ done (r, popped q) w
unfolding poll run
poll-oldest f q r rs w v e real =
    run->>= (poll_once false q) (unless_found (poll f false)) w
      (ap (λ m. run m w) (poll_once-serves q r rs e) ∙ (run-pop_order q r rs w v e).0)
    ∙ (rw real refl)

-- Food that is ready is returned, whatever is queued.
pub poll-meal :
    (f : ℕ) (busy : Bool) (q : Orders) (g : ℤ) (w : World)
    → Listens busy q
    → w.sem mutex ≢ 0
    → w.sem waiter_request ≢ 0
    → w.full.waiter_request ≡ meal g
    → run (poll (suc f) busy q) w ≡ done (meal g, q) (received w)
unfolding poll run
poll-meal f busy q g w h free placed e =
    run->>= (poll_once busy q) (unless_found (poll f busy)) w
      (ap (λ m. run m w) (poll_once-receives busy q h) ∙ run-receive_meal q g w free placed e)

-- An order is queued, and the waiter goes on.
pub poll-order :
    (f : ℕ) (busy : Bool) (q : Orders) (g : ℤ) (w : World)
    → Listens busy q
    → w.sem mutex ≢ 0
    → w.sem waiter_request ≢ 0
    → w.full.waiter_request ≡ order g
    → IsQueue q
    → run (poll (suc f) busy q) w ≡ run (poll f busy (pushed (order g) q)) (received w)
unfolding poll
poll-order f busy q g w h free placed e v =
    run->>= (poll_once busy q) (unless_found (poll f busy)) w
      (ap (λ m. run m w) (poll_once-receives busy q h) ∙ run-receive_order q g w free placed e v)

-- With no request placed, the waiter that waits already is blocked.
pub poll-blocked :
    (f : ℕ) (busy : Bool) (q : Orders) (w : World)
    → Listens busy q
    → w.full.st.waiter_stat ≡ wait_for_request
    → w.sem waiter_request ≡ 0
    → run (poll (suc f) busy q) w
      ≡ blocked waiter_request (take_request q >>= unless_found (poll f busy)) w
unfolding poll run receive_request
poll-blocked f busy q w h waits none =
    ap (λ m. run (m >>= unless_found (poll f busy)) w) (poll_once-receives busy q h)
    ∙ ap (λ s. run ((enter_wait s >> take_request q) >>= unless_found (poll f busy)) w) waits
    ∙ (rw (none, run) refl)

-- Once food is ready, the call that waits returns it.
pub run-resume :
    (again : Orders → Prog (Request × Orders)) (q : Orders) (g : ℤ) (w : World)
    → w.sem waiter_request ≢ 0
    → w.full.waiter_request ≡ meal g
    → run (take_request q >>= unless_found again) w ≡ done (meal g, q) (taken w)
unfolding run sort_request
run-resume again q g w placed e =
    run->>= (take_request q) (unless_found again) w
      (run-take_request q w placed ∙ ap (λ r. run (sort_request q r) (taken w)) e)
