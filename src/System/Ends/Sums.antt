-- ===== src/System/Ends/Sums.antt =====
-- Sums over the processes.
use so2023_trabalho.Base.{
  ℕ, zero, suc, ◌+◌, ◌≤◌, ◌<◌, ◌≡◌, refl, inl, inr, Bool-cases, ◌==◌, update, arith,
}

-- `f 0 + … + f (n - 1)`
unfoldable pub sum_below : ℕ → (ℕ → ℕ) → ℕ
sum_below zero f = 0
sum_below (suc n) f = f n + sum_below n f

sum-update_ge : (n i : ℕ) (f : ℕ → ℕ) (k : ℕ) → n ≤ i → sum_below n (update f i k) ≡ sum_below n f
unfolding sum_below
sum-update_ge zero i f k h = refl
sum-update_ge (suc n) i f k h = ground (arith, sum-update_ge n i f k)

pub sum-update :
    (n i : ℕ) (f : ℕ → ℕ) (k : ℕ) → i < n → sum_below n (update f i k) + f i ≡ sum_below n f + k
unfolding sum_below
sum-update zero i f k h = absurd (omega arith)
sum-update (suc n) i f k h = elim (Bool-cases (i == n)) [
  | inl last ↦ ground (arith, sum-update_ge n i f k)
  | inr below ↦ ground (arith, sum-update n i f k (ground arith))
]
