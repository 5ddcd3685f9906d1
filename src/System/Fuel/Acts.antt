-- ===== src/System/Fuel/Acts.antt =====
-- One action, counted: the requests to the waiter that it announces and that it takes.
use so2023_trabalho.Base.{
  ℕ, ◌+◌, ◌-◌, ◌≤◌, ◌≡◌, ◌≢◌, inl, inr, Bool-cases, ◌==◌, ==_iff, ap, some, ◌++◌, update, arith,
}
use mathlib.Core.Path.{subst}
use mathlib.Core.Option.{some-injective}
use so2023_trabalho.Sync.{waiter_request}
use so2023_trabalho.Logging.{save_state}
use so2023_trabalho.Prog.{Prog, ret, down, up, fetch, store, save, nap, hang, fault, tired, World}
use so2023_trabalho.System.{act}
use so2023_trabalho.System.Fuel.{one_if, Asks, Asks-mono, Copes}

-- What an action of a process that asks for at most `k` comes to.
abbrev pub Counts : {A : Type 0} → World → ℕ → Prog A × World → Type 0
Counts w k (q, v) = (j : ℕ) × Asks j q × (v.sem waiter_request + j ≤ w.sem waiter_request + k)

Counts-some :
    {A : Type 0} (w : World) (k : ℕ) (x y : Prog A × World)
    → Counts w k x
    → some x ≡ some y
    → Counts w k y
Counts-some w k x y h e = subst (Counts w k) (some-injective x y e) h

fewer : (sem : ℕ → ℕ) (s : ℕ) → update sem s (sem s - 1) waiter_request ≤ sem waiter_request
fewer sem s = ground arith

pub one_more :
    (sem : ℕ → ℕ) (s : ℕ)
    → update sem s (sem s + 1) waiter_request ≡ sem waiter_request + one_if (s == waiter_request)
one_more sem s = ground arith

pub act-Counts :
    {A : Type 0} (p : Prog A) (w : World) (k : ℕ) (y : Prog A × World)
    → Asks k p
    → act p w ≡ some y
    → Counts w k y
unfolding act
act-Counts (down s p) w k y h e = elim (Bool-cases (w.sem s == 0)) [
  | inl red ↦ ground arith
  | inr more ↦
      Counts-some w k (p, record w { sem = update w.sem s (w.sem s - 1) }) y
        (k, h, omega (arith, fewer w.sem s)) (rw (more, act) at e)
]
act-Counts (up s p) w k y h e =
    Counts-some w k (p, record w { sem = update w.sem s (w.sem s + 1) }) y
      (k - one_if (s == waiter_request), h.1, omega (arith, one_more w.sem s, h.0)) e
act-Counts (fetch p) w k y h e = Counts-some w k (p w.full, w) y (k, h w.full, omega arith) e
act-Counts (store f p) w k y h e =
    Counts-some w k (p, record w { full = f w.full }) y (k, h, omega arith) e
act-Counts (save p) w k y h e =
    Counts-some w k (p, record w { log = w.log ++ save_state w.full }) y (k, h, omega arith) e
act-Counts (nap p) w k y h e = Counts-some w k (p, w) y (k, h, omega arith) e
act-Counts (ret a) w k y h e = cc
act-Counts hang w k y h e = cc
act-Counts fault w k y h e = cc
act-Counts tired w k y h e = cc

-- What an action of the waiter comes to, which asks for nothing: a request that it takes is one less to come.
abbrev pub Takes : {A : Type 0} → World → ℕ → (A → ℕ → Type 0) → Prog A × World → Type 0
Takes w m p (q, v) =
    (j : ℕ) × Copes j q p × Asks 0 q × (v.sem waiter_request + m ≤ w.sem waiter_request + j)

Takes-some :
    {A : Type 0} (w : World) (m : ℕ) (p : A → ℕ → Type 0) (x y : Prog A × World)
    → Takes w m p x
    → some x ≡ some y
    → Takes w m p y
Takes-some w m p x y h e = subst (Takes w m p) (some-injective x y e) h

pub one_less :
    (sem : ℕ → ℕ) (s : ℕ)
    → sem s ≢ 0
    → update sem s (sem s - 1) waiter_request + one_if (s == waiter_request) ≡ sem waiter_request
one_less sem s h = ground arith

left_over :
    (sem : ℕ → ℕ) (s m : ℕ)
    → sem s ≢ 0
    → sem waiter_request ≤ m
    → m - one_if (s == waiter_request) + one_if (s == waiter_request) ≡ m
left_over sem s m h few = elim (Bool-cases (s == waiter_request)) [
  | inl e ↦
      let same : sem s ≡ sem waiter_request = ap sem ((==_iff s waiter_request).0 e) in
      rw e (omega (arith, same))
  | inr e ↦ rw e (omega arith)
]

pub act-Takes :
    {A : Type 0} (c : Prog A) (w : World) (m : ℕ) (p : A → ℕ → Type 0) (y : Prog A × World)
    → Copes m c p
    → Asks 0 c
    → w.sem waiter_request ≤ m
    → act c w ≡ some y
    → Takes w m p y
unfolding act
act-Takes (down s c) w m p y h a few e = elim (Bool-cases (w.sem s == 0)) [
  | inl red ↦ ground arith
  | inr more ↦
      let some_left : w.sem s ≢ 0 = ground arith in
      let rest : m - one_if (s == waiter_request) + one_if (s == waiter_request) ≡ m =
        left_over w.sem s m some_left few in
      Takes-some w m p (c, record w { sem = update w.sem s (w.sem s - 1) }) y
        (
          m - one_if (s == waiter_request),
          h (m - one_if (s == waiter_request)) rest,
          a,
          omega (arith, one_less w.sem s some_left, rest),
        )
        (rw (more, act) at e)
]
act-Takes (up s c) w m p y h a few e =
    Takes-some w m p (c, record w { sem = update w.sem s (w.sem s + 1) }) y
      (
        m,
        h,
        Asks-mono c (0 - one_if (s == waiter_request)) 0 (omega arith) a.1,
        omega (arith, one_more w.sem s, a.0),
      )
      e
act-Takes (fetch c) w m p y h a few e =
    Takes-some w m p (c w.full, w) y (m, h w.full, a w.full, omega arith) e
act-Takes (store f c) w m p y h a few e =
    Takes-some w m p (c, record w { full = f w.full }) y (m, h, a, omega arith) e
act-Takes (save c) w m p y h a few e =
    Takes-some w m p (c, record w { log = w.log ++ save_state w.full }) y (m, h, a, omega arith) e
act-Takes (nap c) w m p y h a few e = Takes-some w m p (c, w) y (m, h, a, omega arith) e
act-Takes (ret r) w m p y h a few e = cc
act-Takes hang w m p y h a few e = cc
act-Takes fault w m p y h a few e = cc
act-Takes tired w m p y h a few e = cc
