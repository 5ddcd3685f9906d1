-- ===== src/System/Ends/Earned.antt =====
-- The actions of the waiter, whose inner loop has no bound of its own: each request that it takes pays for
-- the next round of the loop, whatever the fuel.
use so2023_trabalho.Base.{
  ℕ, zero, suc, ◌+◌, ◌-◌, ◌*◌, ◌≤◌, inl, inr, Bool, true, false, if◌then◌else◌, ℤ, pos, negsuc, ltb,
  Bool-cases, not, ◌&&◌, ◌==◌, is_pos, is_minus_one, arith,
}
use so2023_trabalho.Shared
use so2023_trabalho.Shared.{FullStat, Request, num_tables}
use so2023_trabalho.Sync
use so2023_trabalho.Sync.{waiter_request}
use so2023_trabalho.Prog.{
  Prog, ret, down, up, fetch, store, save, nap, hang, fault, tired, ◌>>=◌, ◌>>◌, at, sem_down,
  save_under_mutex,
}
use so2023_trabalho.Slots.{take_with_waiter}
use so2023_trabalho.Waiter
use so2023_trabalho.Waiter.{
  Orders, no_request, pop_order, push_order, sort_request, enter_wait, receive_request, poll_once,
  unless_found, poll, wait_for_client_or_chef, attend, waiter_loop,
}
use so2023_trabalho.System.Ends.{Ends}
use so2023_trabalho.System.Ends.Servers.{attend-Ends}
use so2023_trabalho.System.Fuel.{one_if}

-- With `k` actions to spend, and 8 more for each request to the waiter that is taken, at least `l` are left.
abbrev pub Earns : {A : Type 0} → ℕ → ℕ → Prog A → Type 0
Earns k l (ret a) = l ≤ k
Earns k l (down s p) = (1 ≤ k) × Earns (k - 1 + 8 * one_if (s == waiter_request)) l p
Earns k l (up s p) = (1 ≤ k) × Earns (k - 1) l p
Earns k l (fetch p) = (1 ≤ k) × ((s : FullStat) → Earns (k - 1) l (p s))
Earns k l (store f p) = (1 ≤ k) × Earns (k - 1) l p
Earns k l (save p) = (1 ≤ k) × Earns (k - 1) l p
Earns k l (nap p) = (1 ≤ k) × Earns (k - 1) l p
Earns k l hang = Unit
Earns k l fault = Unit
Earns k l tired = Unit

Ends-Earns : {A : Type 0} (p : Prog A) (k l i : ℕ) → k + l ≤ i → Ends k p → Earns i l p
Ends-Earns (ret a) k l i h e = omega arith
Ends-Earns (down s p) k l i h e = (
  omega (arith, e.0),
  Ends-Earns p (k - 1) l (i - 1 + 8 * one_if (s == waiter_request)) (omega (arith, e.0)) e.1,
)
Ends-Earns (up s p) k l i h e =
    (omega (arith, e.0), Ends-Earns p (k - 1) l (i - 1) (omega (arith, e.0)) e.1)
Ends-Earns (fetch p) k l i h e =
    (omega (arith, e.0), λ s. Ends-Earns (p s) (k - 1) l (i - 1) (omega (arith, e.0)) (e.1 s))
Ends-Earns (store f p) k l i h e =
    (omega (arith, e.0), Ends-Earns p (k - 1) l (i - 1) (omega (arith, e.0)) e.1)
Ends-Earns (save p) k l i h e =
    (omega (arith, e.0), Ends-Earns p (k - 1) l (i - 1) (omega (arith, e.0)) e.1)
Ends-Earns (nap p) k l i h e =
    (omega (arith, e.0), Ends-Earns p (k - 1) l (i - 1) (omega (arith, e.0)) e.1)
Ends-Earns hang k l i h e = tt
Ends-Earns fault k l i h e = tt
Ends-Earns tired k l i h e = tt

-- `d` more to begin with, and `d` more are left.
Earns-more :
    {A : Type 0} (p : Prog A) (k l d i j : ℕ) → k + d ≤ i → j ≤ l + d → Earns k l p → Earns i j p
Earns-more (ret a) k l d i j h g e = omega (arith, e)
Earns-more (down s p) k l d i j h g e =
    let c = 8 * one_if (s == waiter_request) in
    (omega (arith, e.0), Earns-more p (k - 1 + c) l d (i - 1 + c) j (omega (arith, e.0)) g e.1)
Earns-more (up s p) k l d i j h g e =
    (omega (arith, e.0), Earns-more p (k - 1) l d (i - 1) j (omega (arith, e.0)) g e.1)
Earns-more (fetch p) k l d i j h g e =
    (omega (arith, e.0), λ s. Earns-more (p s) (k - 1) l d (i - 1) j (omega (arith, e.0)) g (e.1 s))
Earns-more (store f p) k l d i j h g e =
    (omega (arith, e.0), Earns-more p (k - 1) l d (i - 1) j (omega (arith, e.0)) g e.1)
Earns-more (save p) k l d i j h g e =
    (omega (arith, e.0), Earns-more p (k - 1) l d (i - 1) j (omega (arith, e.0)) g e.1)
Earns-more (nap p) k l d i j h g e =
    (omega (arith, e.0), Earns-more p (k - 1) l d (i - 1) j (omega (arith, e.0)) g e.1)
Earns-more hang k l d i j h g e = tt
Earns-more fault k l d i j h g e = tt
Earns-more tired k l d i j h g e = tt

Earns->>= :
    {A B : Type 0} (m : Prog A) (f : A → Prog B) (i j k : ℕ)
    → Earns i j m
    → ((a : A) → Earns j k (f a))
    → Earns i k (m >>= f)
Earns->>= (ret a) f i j k e g = Earns-more (f a) j k 0 i k (omega (arith, e)) (omega arith) (g a)
Earns->>= (down s p) f i j k e g =
    (e.0, Earns->>= p f (i - 1 + 8 * one_if (s == waiter_request)) j k e.1 g)
Earns->>= (up s p) f i j k e g = (e.0, Earns->>= p f (i - 1) j k e.1 g)
Earns->>= (fetch p) f i j k e g = (e.0, λ s. Earns->>= (p s) f (i - 1) j k (e.1 s) g)
Earns->>= (store u p) f i j k e g = (e.0, Earns->>= p f (i - 1) j k e.1 g)
Earns->>= (save p) f i j k e g = (e.0, Earns->>= p f (i - 1) j k e.1 g)
Earns->>= (nap p) f i j k e g = (e.0, Earns->>= p f (i - 1) j k e.1 g)
Earns->>= hang f i j k e g = tt
Earns->>= fault f i j k e g = tt
Earns->>= tired f i j k e g = tt

Earns-at :
    {A : Type 0} (size : ℕ) (i : ℤ) (f : ℕ → Prog A) (k l : ℕ)
    → ((j : ℕ) → Earns k l (f j))
    → Earns k l (at size i >>= f)
Earns-at size (negsuc i) f k l h = tt
Earns-at size (pos i) f k l h = elim (Bool-cases (ltb i size)) [
  | inl e ↦ rw e (h i)
  | inr e ↦ rw e tt
]

Earns-if :
    {A : Type 0} (t : Bool) (p q : Prog A) (k l : ℕ)
    → Earns k l p
    → Earns k l q
    → Earns k l (if t then p else q)
Earns-if true p q k l h g = h
Earns-if false p q k l h g = g

sort-Earns : (q : Orders) (x : Request) → Earns 6 6 (sort_request q x)
unfolding sort_request push_order
sort-Earns q x =
    Earns-if (is_pos x.req_type Shared.food_req) (push_order q x >>= λ q'. ret (no_request, q'))
      (if is_pos x.req_type Shared.food_ready then ret (x, q) else (sem_down Sync.mutex >> hang)) 6
      6
      (Earns->>= (push_order q x) (λ q'. ret (no_request, q')) 6 6 6
        (Earns-at num_tables (pos q.q_write_next) _ 6 6 (λ i. omega arith)) (λ q'. omega arith))
      (Earns-if (is_pos x.req_type Shared.food_ready) (ret (x, q)) (sem_down Sync.mutex >> hang) 6 6
        (omega arith) (omega arith, tt))

-- A request that is received costs 8 actions.
receive-Earns : (q : Orders) → Earns 6 6 (receive_request q)
unfolding receive_request enter_wait
receive-Earns q = (
  omega arith,
  λ s.
      Earns->>= (enter_wait s.st.waiter_stat) (λ _. take_with_waiter >>= sort_request q) 5 1 6
        (Earns-if (s.st.waiter_stat == Shared.wait_for_request) (ret tt)
          (save_under_mutex (Waiter.with_stat Shared.wait_for_request)) 5 1 (omega arith)
          (omega arith))
        (λ _. Earns->>= take_with_waiter (sort_request q) 1 6 6 (omega arith) (sort-Earns q)),
)

poll_once-Earns : (busy : Bool) (q : Orders) → Earns 6 6 (poll_once busy q)
unfolding poll_once pop_order
poll_once-Earns busy q =
    Earns-if (not (q.q_length == 0) && not busy) (pop_order q) (receive_request q) 6 6
      (Earns-at num_tables (pos q.q_read_next) _ 6 6 (λ i. omega arith)) (receive-Earns q)

-- However many rounds the loop makes.
poll-Earns : (f : ℕ) (busy : Bool) (q : Orders) → Earns 6 6 (poll f busy q)
unfolding poll
poll-Earns zero busy q = tt
poll-Earns (suc f) busy q =
    Earns->>= (poll_once busy q) (unless_found (poll f busy)) 6 6 6 (poll_once-Earns busy q)
      λ (x, q').
        Earns-if (is_minus_one x.req_type) (poll f busy q') (ret (x, q')) 6 6 (poll-Earns f busy q')
          (omega arith)

wait-Earns : (f k : ℕ) (q : Orders) → Earns (7 + k) (6 + k) (wait_for_client_or_chef f q)
unfolding wait_for_client_or_chef
wait-Earns f k q = (
  omega arith,
  λ s.
      let busy = not (s.food_order == 0) in
      Earns-more (poll f busy q) 6 6 k (7 + k - 1) (6 + k) (omega arith) (omega arith)
        (poll-Earns f busy q),
)

-- A round of the waiter: 1 for the flag, 8 to attend.
pub waiter_loop-Earns : (fuel n k : ℕ) (q : Orders) → Earns (9 * k + 6) 0 (waiter_loop fuel n k q)
unfolding waiter_loop
waiter_loop-Earns fuel n zero q = omega arith
waiter_loop-Earns fuel n (suc k) q =
    Earns->>= (wait_for_client_or_chef fuel q) (λ (x, q'). attend n x >> waiter_loop fuel n k q')
      (9 * suc k + 6) (9 * k + 14) 0
      (Earns-more (wait_for_client_or_chef fuel q) (7 + (9 * k + 8)) (6 + (9 * k + 8)) 0
        (9 * suc k + 6) (9 * k + 14) (omega arith) (omega arith) (wait-Earns fuel (9 * k + 8) q))
      (λ (x, q').
        Earns->>= (attend n x) (λ _. waiter_loop fuel n k q') (9 * k + 14) (9 * k + 6) 0
          (Ends-Earns (attend n x) 8 (9 * k + 6) (9 * k + 14) (omega arith) (attend-Ends n x))
          (λ _. waiter_loop-Earns fuel n k q'))
