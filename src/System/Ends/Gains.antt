-- ===== src/System/Ends/Gains.antt =====
-- One action of the waiter: what it spends, and what a request that it takes brings in.
use so2023_trabalho.Base.{
  ℕ, ◌+◌, ◌-◌, ◌*◌, ◌≤◌, ◌≡◌, inl, inr, Bool-cases, ◌==◌, some, ◌++◌, update, arith,
}
use mathlib.Core.Path.{subst}
use mathlib.Core.Option.{some-injective}
use so2023_trabalho.Sync.{waiter_request}
use so2023_trabalho.Logging.{save_state}
use so2023_trabalho.Prog.{Prog, ret, down, up, fetch, store, save, nap, hang, fault, tired, World}
use so2023_trabalho.System.{act}
use so2023_trabalho.System.Fuel.{one_if, Asks, Asks-mono}
use so2023_trabalho.System.Fuel.Acts.{one_less, one_more}
use so2023_trabalho.System.Ends.Earned.{Earns}

-- What an action of the waiter comes to, which raises no request itself.
abbrev pub Gains : {A : Type 0} → World → ℕ → Prog A × World → Type 0
Gains w k (q, v) =
    (j : ℕ) × Earns j 0 q
    × Asks 0 q
    × (j + 1 + 8 * v.sem waiter_request ≤ k + 8 * w.sem waiter_request)

Gains-some :
    {A : Type 0} (w : World) (k : ℕ) (x y : Prog A × World)
    → Gains w k x
    → some x ≡ some y
    → Gains w k y
Gains-some w k x y h e = subst (Gains w k) (some-injective x y e) h

pub act-Gains :
    {A : Type 0} (c : Prog A) (w : World) (k : ℕ) (y : Prog A × World)
    → Earns k 0 c
    → Asks 0 c
    → act c w ≡ some y
    → Gains w k y
unfolding act
act-Gains (down s c) w k y h a e = elim (Bool-cases (w.sem s == 0)) [
  | inl red ↦ ground arith
  | inr more ↦
      Gains-some w k (c, record w { sem = update w.sem s (w.sem s - 1) }) y
        (
          k - 1 + 8 * one_if (s == waiter_request),
          h.1,
          a,
          omega (arith, h.0, one_less w.sem s (ground arith)),
        )
        (rw (more, act) at e)
]
act-Gains (up s c) w k y h a e =
    Gains-some w k (c, record w { sem = update w.sem s (w.sem s + 1) }) y
      (
        k - 1,
        h.1,
        Asks-mono c (0 - one_if (s == waiter_request)) 0 (omega arith) a.1,
        omega (arith, h.0, one_more w.sem s, a.0),
      )
      e
act-Gains (fetch c) w k y h a e =
    Gains-some w k (c w.full, w) y (k - 1, h.1 w.full, a w.full, omega (arith, h.0)) e
act-Gains (store f c) w k y h a e =
    Gains-some w k (c, record w { full = f w.full }) y (k - 1, h.1, a, omega (arith, h.0)) e
act-Gains (save c) w k y h a e =
    Gains-some w k (c, record w { log = w.log ++ save_state w.full }) y
      (k - 1, h.1, a, omega (arith, h.0)) e
act-Gains (nap c) w k y h a e = Gains-some w k (c, w) y (k - 1, h.1, a, omega (arith, h.0)) e
act-Gains (ret r) w k y h a e = cc
act-Gains hang w k y h a e = cc
act-Gains fault w k y h a e = cc
act-Gains tired w k y h a e = cc
