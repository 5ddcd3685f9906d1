-- ===== src/Receptionist/Arrivals.antt =====
-- How many groups have asked for a table: each does so once, which bounds the waiting list.
use native.Mathlib.Decide.{dec_lt}
use so2023_trabalho.Base.{
  ℕ, zero, suc, ◌≤◌, ◌<◌, ◌≡◌, ◌≢◌, Bool, true, false, arith, update, if◌then◌else◌,
}
use so2023_trabalho.Receptionist.Desk.{Phase, to_arrive}

abbrev has_arrived : Phase → Bool
has_arrived to_arrive = false
has_arrived _ = true

pub arrivals : ℕ → (ℕ → Phase) → ℕ
arrivals zero phase = 0
arrivals (suc n) phase =
    let before = arrivals n phase in if has_arrived (phase n) then suc before else before

pub arrivals-le : (n : ℕ) (phase : ℕ → Phase) → arrivals n phase ≤ n
unfolding arrivals
arrivals-le zero phase = omega arith
arrivals-le (suc n) phase = ground (arith, arrivals-le n phase)

module _ (phase : ℕ → Phase) (g : ℕ) (p : Phase) (here : p ≢ to_arrive) where
  pub arrivals-le-update : (n : ℕ) → arrivals n phase ≤ arrivals n (update phase g p)
  unfolding arrivals
  arrivals-le-update zero = omega arith
  arrivals-le-update (suc n) = ground (arith, arrivals-le-update n)

  -- A group that had not arrived counts from now on.
  pub arrivals-lt-update :
      (n : ℕ) → phase g ≡ to_arrive → g < n → arrivals n phase < arrivals n (update phase g p)
  unfolding arrivals
  arrivals-lt-update zero new lt = absurd (omega arith)
  arrivals-lt-update (suc n) new lt = elim (dec_lt g n) [
    | yes below ↦ ground (arith, arrivals-lt-update n new below)
    | no last ↦ ground (arith, arrivals-le-update n)
  ]
