-- ===== src/Base/Count.antt =====
-- How many of the first `n` flags are set.
use Prim.Native.Nat.{ℕ, zero, suc, ◌+◌, ◌≤◌, ◌<◌}
use mathlib.Core.Path.{◌≡◌, refl}
use mathlib.Core.Logic.{inl, inr}
use mathlib.Core.Bool.{Bool, true, false}
use native.Mathlib.Omega.{arith}
use so2023_trabalho.Base.Tests.{◌==◌, if◌then◌else◌, Bool-cases}
use so2023_trabalho.Base.Arrays.{update}

pub count_true : ℕ → (ℕ → Bool) → ℕ
count_true zero f = 0
count_true (suc n) f = (if f n then 1 else 0) + count_true n f

count-update_ge :
    (n i : ℕ) (f : ℕ → Bool) (b : Bool) → n ≤ i → count_true n (update f i b) ≡ count_true n f
unfolding count_true
count-update_ge zero i f b h = refl
count-update_ge (suc n) i f b h = ground (arith, count-update_ge n i f b)

pub count-update :
    (n i : ℕ) (f : ℕ → Bool) (b : Bool)
    → i < n
    → count_true n (update f i b) + (if f i then 1 else 0) ≡ count_true n f + (if b then 1 else 0)
unfolding count_true
count-update zero i f b h = absurd (omega arith)
count-update (suc n) i f b h = elim (Bool-cases (i == n)) [
  | inl last ↦ ground (arith, count-update_ge n i f b)
  | inr below ↦ ground (arith, count-update n i f b (ground arith))
]

pub count-all_false : (n : ℕ) (f : ℕ → Bool) → ((i : ℕ) → f i ≡ false) → count_true n f ≡ 0
unfolding count_true
count-all_false zero f h = refl
count-all_false (suc n) f h = ground (arith, h n, count-all_false n f h)

pub count-pos : (n i : ℕ) (f : ℕ → Bool) → i < n → f i ≡ true → 0 < count_true n f
unfolding count_true
count-pos zero i f h e = absurd (omega arith)
count-pos (suc n) i f h e = elim (Bool-cases (i == n)) [
  | inl last ↦ ground arith
  | inr below ↦ ground (arith, count-pos n i f (ground arith) e)
]

-- With one flag set at most, two set flags are one.
pub count_unique :
    (n i j : ℕ) (f : ℕ → Bool)
    → count_true n f ≤ 1
    → i < n
    → j < n
    → f i ≡ true
    → f j ≡ true
    → i ≡ j
unfolding count_true
count_unique zero i j f c hi hj ei ej = absurd (omega arith)
count_unique (suc n) i j f c hi hj ei ej = elim (Bool-cases (i == n)) [
  | inl last ↦ elim (Bool-cases (j == n)) [
    | inl both ↦ ground arith
    | inr below ↦ ground (arith, count-pos n j f (ground arith) ej)
  ]
  | inr below ↦ elim (Bool-cases (j == n)) [
    | inl other ↦ ground (arith, count-pos n i f (ground arith) ei)
    | inr both ↦ count_unique n i j f (ground arith) (ground arith) (ground arith) ei ej
  ]
]

-- Where a flag is set, one of them.
pub count-find : (n : ℕ) (f : ℕ → Bool) → 0 < count_true n f → (i : ℕ) × (i < n) × (f i ≡ true)
unfolding count_true
count-find zero f h = absurd (omega arith)
count-find (suc n) f h = elim (Bool-cases (f n)) [
  | inl e ↦ (n, omega arith, e)
  | inr e ↦ let (i, lt, s) = count-find n f (ground arith) in (i, omega arith, s)
]
