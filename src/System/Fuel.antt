-- ===== src/System/Fuel.antt =====
-- The requests to the waiter, counted: how many a process still makes, and how many the waiter can still
-- take before the fuel of its inner loop is used up.
pub mod Customers
pub mod Servers
pub mod Rounds
pub mod Acts
pub mod Enough
use so2023_trabalho.Base.{
  ℕ, zero, suc, ◌+◌, ◌-◌, ◌≤◌, ◌<◌, ◌≡◌, ◌≢◌, refl, inl, inr, Bool, true, false, if◌then◌else◌, ℤ,
  pos, negsuc, ltb, Bool-cases, ◌==◌, ==_ne, ==_iff, ap, some, ◌++◌, update, arith,
}
use mathlib.Core.Path.{subst}
use mathlib.Core.Option.{some-injective}
use so2023_trabalho.Shared.{FullStat}
use so2023_trabalho.Sync.{waiter_request}
use so2023_trabalho.Logging.{save_state}
use so2023_trabalho.Prog.{
  Prog, ret, down, up, fetch, store, save, nap, hang, fault, tired, ◌>>=◌, at, World,
}
use so2023_trabalho.System.{act}

abbrev pub one_if : Bool → ℕ
one_if b = if b then 1 else 0

-- At most `k` requests to the waiter are announced.
abbrev pub Asks : {A : Type 0} → ℕ → Prog A → Type 0
Asks k (ret a) = Unit
Asks k (down s p) = Asks k p
Asks k (up s p) = (one_if (s == waiter_request) ≤ k) × Asks (k - one_if (s == waiter_request)) p
Asks k (fetch p) = (s : FullStat) → Asks k (p s)
Asks k (store f p) = Asks k p
Asks k (save p) = Asks k p
Asks k (nap p) = Asks k p
Asks k hang = Unit
Asks k fault = Unit
Asks k tired = Unit

pub Asks-mono : {A : Type 0} (p : Prog A) (j k : ℕ) → j ≤ k → Asks j p → Asks k p
Asks-mono (ret a) j k h e = tt
Asks-mono (down s p) j k h e = Asks-mono p j k h e
Asks-mono (up s p) j k h e =
    let c = one_if (s == waiter_request) in
    (omega (arith, e.0), Asks-mono p (j - c) (k - c) (omega arith) e.1)
Asks-mono (fetch p) j k h e = λ s. Asks-mono (p s) j k h (e s)
Asks-mono (store f p) j k h e = Asks-mono p j k h e
Asks-mono (save p) j k h e = Asks-mono p j k h e
Asks-mono (nap p) j k h e = Asks-mono p j k h e
Asks-mono hang j k h e = tt
Asks-mono fault j k h e = tt
Asks-mono tired j k h e = tt

pub Asks->>= :
    {A B : Type 0} (m : Prog A) (f : A → Prog B) (i j k : ℕ)
    → j + k ≤ i
    → Asks j m
    → ((a : A) → Asks k (f a))
    → Asks i (m >>= f)
Asks->>= (ret a) f i j k h e g = Asks-mono (f a) k i (omega arith) (g a)
Asks->>= (down s p) f i j k h e g = Asks->>= p f i j k h e g
Asks->>= (up s p) f i j k h e g =
    let c = one_if (s == waiter_request) in
    (omega (arith, e.0), Asks->>= p f (i - c) (j - c) k (omega (arith, e.0)) e.1 g)
Asks->>= (fetch p) f i j k h e g = λ s. Asks->>= (p s) f i j k h (e s) g
Asks->>= (store u p) f i j k h e g = Asks->>= p f i j k h e g
Asks->>= (save p) f i j k h e g = Asks->>= p f i j k h e g
Asks->>= (nap p) f i j k h e g = Asks->>= p f i j k h e g
Asks->>= hang f i j k h e g = tt
Asks->>= fault f i j k h e g = tt
Asks->>= tired f i j k h e g = tt

pub Asks-at :
    {A : Type 0} (size : ℕ) (i : ℤ) (f : ℕ → Prog A) (k : ℕ)
    → ((j : ℕ) → Asks k (f j))
    → Asks k (at size i >>= f)
Asks-at size (negsuc i) f k h = tt
Asks-at size (pos i) f k h = elim (Bool-cases (ltb i size)) [ inl e ↦ rw e (h i) | inr e ↦ rw e tt ]

pub Asks-if :
    {A : Type 0} (t : Bool) (p q : Prog A) (k : ℕ)
    → Asks k p
    → Asks k q
    → Asks k (if t then p else q)
Asks-if true p q k h g = h
Asks-if false p q k h g = g

-- A signal that is no request to the waiter.
pub Asks-up : {A : Type 0} (s : ℕ) (p : Prog A) (k : ℕ) → 6 < s → Asks k p → Asks k (up s p)
Asks-up s p k lt h =
    let same : k - 0 ≡ k = omega arith in
    rw (==_ne s waiter_request (omega arith), same) (omega arith, h)

-- With `m` requests still to be taken, the program is not out of fuel, and `p` holds of its result and of
-- the number of requests that are left.
abbrev pub Copes : {A : Type 0} → ℕ → Prog A → (A → ℕ → Type 0) → Type 0
Copes m (ret a) p = p a m
Copes m (down s k) p = (j : ℕ) → j + one_if (s == waiter_request) ≡ m → Copes j k p
Copes m (up s k) p = Copes m k p
Copes m (fetch k) p = (s : FullStat) → Copes m (k s) p
Copes m (store f k) p = Copes m k p
Copes m (save k) p = Copes m k p
Copes m (nap k) p = Copes m k p
Copes m hang p = Unit
Copes m fault p = Unit
Copes m tired p = true ≡ false

pub Copes->>= :
    {A B : Type 0} (c : Prog A) (f : A → Prog B) (m : ℕ) (p : A → ℕ → Type 0) (q : B → ℕ → Type 0)
    → Copes m c p
    → ((a : A) (j : ℕ) → p a j → Copes j (f a) q)
    → Copes m (c >>= f) q
Copes->>= (ret a) f m p q h g = g a m h
Copes->>= (down s k) f m p q h g = λ j e. Copes->>= k f j p q (h j e) g
Copes->>= (up s k) f m p q h g = Copes->>= k f m p q h g
Copes->>= (fetch k) f m p q h g = λ s. Copes->>= (k s) f m p q (h s) g
Copes->>= (store u k) f m p q h g = Copes->>= k f m p q h g
Copes->>= (save k) f m p q h g = Copes->>= k f m p q h g
Copes->>= (nap k) f m p q h g = Copes->>= k f m p q h g
Copes->>= hang f m p q h g = tt
Copes->>= fault f m p q h g = tt
Copes->>= tired f m p q h g = h

pub Copes-at :
    {A : Type 0} (size : ℕ) (i : ℤ) (f : ℕ → Prog A) (m : ℕ) (p : A → ℕ → Type 0)
    → ((j : ℕ) → Copes m (f j) p)
    → Copes m (at size i >>= f) p
Copes-at size (negsuc i) f m p h = tt
Copes-at size (pos i) f m p h = elim (Bool-cases (ltb i size)) [
  | inl e ↦ rw e (h i)
  | inr e ↦ rw e tt
]

pub Copes-if :
    {A : Type 0} (t : Bool) (c d : Prog A) (m : ℕ) (p : A → ℕ → Type 0)
    → Copes m c p
    → Copes m d p
    → Copes m (if t then c else d) p
Copes-if true c d m p h g = h
Copes-if false c d m p h g = g
