-- ===== src/System/Ends.antt =====
-- How many actions a program can make at most, whatever it reads from the shared state.
pub mod Programs
pub mod Servers
pub mod Sums
pub mod Earned
pub mod Gains
pub mod Budget
use so2023_trabalho.Base.{
  ℕ, zero, suc, ◌+◌, ◌-◌, ◌≤◌, ◌≡◌, inl, inr, Bool, true, false, if◌then◌else◌, ℤ, pos, negsuc, ltb,
  Bool-cases, ◌==◌, some, ◌++◌, update, arith,
}
use mathlib.Core.Path.{subst}
use mathlib.Core.Option.{some-injective}
use so2023_trabalho.Shared.{FullStat}
use so2023_trabalho.Logging.{save_state}
use so2023_trabalho.Prog.{
  Prog, ret, down, up, fetch, store, save, nap, hang, fault, tired, ◌>>=◌, at, World,
}
use so2023_trabalho.System.{act}

-- At most `k` actions.
abbrev pub Ends : {A : Type 0} → ℕ → Prog A → Type 0
Ends k (ret a) = Unit
Ends k (down s p) = (1 ≤ k) × Ends (k - 1) p
Ends k (up s p) = (1 ≤ k) × Ends (k - 1) p
Ends k (fetch p) = (1 ≤ k) × ((s : FullStat) → Ends (k - 1) (p s))
Ends k (store f p) = (1 ≤ k) × Ends (k - 1) p
Ends k (save p) = (1 ≤ k) × Ends (k - 1) p
Ends k (nap p) = (1 ≤ k) × Ends (k - 1) p
Ends k hang = Unit
Ends k fault = Unit
Ends k tired = Unit

pub Ends-mono : {A : Type 0} (p : Prog A) (j k : ℕ) → j ≤ k → Ends j p → Ends k p
Ends-mono (ret a) j k h e = tt
Ends-mono (down s p) j k h e = (omega (arith, e.0), Ends-mono p (j - 1) (k - 1) (omega arith) e.1)
Ends-mono (up s p) j k h e = (omega (arith, e.0), Ends-mono p (j - 1) (k - 1) (omega arith) e.1)
Ends-mono (fetch p) j k h e =
    (omega (arith, e.0), λ s. Ends-mono (p s) (j - 1) (k - 1) (omega arith) (e.1 s))
Ends-mono (store f p) j k h e = (omega (arith, e.0), Ends-mono p (j - 1) (k - 1) (omega arith) e.1)
Ends-mono (save p) j k h e = (omega (arith, e.0), Ends-mono p (j - 1) (k - 1) (omega arith) e.1)
Ends-mono (nap p) j k h e = (omega (arith, e.0), Ends-mono p (j - 1) (k - 1) (omega arith) e.1)
Ends-mono hang j k h e = tt
Ends-mono fault j k h e = tt
Ends-mono tired j k h e = tt

-- A piece of at most `j` actions, and then one of at most `k`.
pub Ends->>= :
    {A B : Type 0} (m : Prog A) (f : A → Prog B) (i j k : ℕ)
    → j + k ≤ i
    → Ends j m
    → ((a : A) → Ends k (f a))
    → Ends i (m >>= f)
Ends->>= (ret a) f i j k h e g = Ends-mono (f a) k i (omega arith) (g a)
Ends->>= (down s p) f i j k h e g =
    (omega (arith, e.0), Ends->>= p f (i - 1) (j - 1) k (omega (arith, e.0)) e.1 g)
Ends->>= (up s p) f i j k h e g =
    (omega (arith, e.0), Ends->>= p f (i - 1) (j - 1) k (omega (arith, e.0)) e.1 g)
Ends->>= (fetch p) f i j k h e g =
    (omega (arith, e.0), λ s. Ends->>= (p s) f (i - 1) (j - 1) k (omega (arith, e.0)) (e.1 s) g)
Ends->>= (store u p) f i j k h e g =
    (omega (arith, e.0), Ends->>= p f (i - 1) (j - 1) k (omega (arith, e.0)) e.1 g)
Ends->>= (save p) f i j k h e g =
    (omega (arith, e.0), Ends->>= p f (i - 1) (j - 1) k (omega (arith, e.0)) e.1 g)
Ends->>= (nap p) f i j k h e g =
    (omega (arith, e.0), Ends->>= p f (i - 1) (j - 1) k (omega (arith, e.0)) e.1 g)
Ends->>= hang f i j k h e g = tt
Ends->>= fault f i j k h e g = tt
Ends->>= tired f i j k h e g = tt

pub Ends-at :
    {A : Type 0} (size : ℕ) (i : ℤ) (f : ℕ → Prog A) (k : ℕ)
    → ((j : ℕ) → Ends k (f j))
    → Ends k (at size i >>= f)
Ends-at size (negsuc i) f k h = tt
Ends-at size (pos i) f k h = elim (Bool-cases (ltb i size)) [ inl e ↦ rw e (h i) | inr e ↦ rw e tt ]

pub Ends-if :
    {A : Type 0} (t : Bool) (p q : Prog A) (k : ℕ)
    → Ends k p
    → Ends k q
    → Ends k (if t then p else q)
Ends-if true p q k h g = h
Ends-if false p q k h g = g

-- An action uses up one of them.
abbrev pub Spends : {A : Type 0} → ℕ → Prog A × World → Type 0
Spends k (q, v) = (1 ≤ k) × Ends (k - 1) q

Spends-some :
    {A : Type 0} (k : ℕ) (x y : Prog A × World) → Spends k x → some x ≡ some y → Spends k y
Spends-some k x y h e = subst (Spends k) (some-injective x y e) h

pub act-Spends :
    {A : Type 0} (p : Prog A) (w : World) (k : ℕ) (y : Prog A × World)
    → Ends k p
    → act p w ≡ some y
    → Spends k y
unfolding act
act-Spends (down s p) w k y h e = elim (Bool-cases (w.sem s == 0)) [
  | inl red ↦ ground arith
  | inr more ↦
      Spends-some k (p, record w { sem = update w.sem s (w.sem s - 1) }) y h (rw (more, act) at e)
]
act-Spends (up s p) w k y h e =
    Spends-some k (p, record w { sem = update w.sem s (w.sem s + 1) }) y h e
act-Spends (fetch p) w k y h e = Spends-some k (p w.full, w) y (h.0, h.1 w.full) e
act-Spends (store f p) w k y h e = Spends-some k (p, record w { full = f w.full }) y h e
act-Spends (save p) w k y h e =
    Spends-some k (p, record w { log = w.log ++ save_state w.full }) y h e
act-Spends (nap p) w k y h e = Spends-some k (p, w) y h e
act-Spends (ret a) w k y h e = cc
act-Spends hang w k y h e = cc
act-Spends fault w k y h e = cc
act-Spends tired w k y h e = cc
