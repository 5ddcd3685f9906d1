-- ===== src/Receptionist/Waitlist.antt =====
-- The waiting list in `waitlist`, and the groups on it.
use so2023_trabalho.Base.{ℕ, ◌+◌, ◌<◌, ◌≡◌, ◌≢◌, List, [], ◌∷◌, ◌++◌, arith, length, update}
use so2023_trabalho.Receptionist.Desk.{Phase, waiting}

-- `waitlist` holds the list from index `i` on.
abbrev pub Stored : (ℕ → ℕ) → ℕ → List ℕ → Type 0
Stored w i [] = Unit
Stored w i (x ∷ q) = (w i ≡ x) × Stored w (i + 1) q

abbrev pub NotIn : ℕ → List ℕ → Type 0
NotIn g [] = Unit
NotIn g (x ∷ q) = (g ≢ x) × NotIn g q

-- The groups of the queue are groups that wait, each listed once.
abbrev pub Queued : ℕ → (ℕ → Phase) → List ℕ → Type 0
Queued n phase [] = Unit
Queued n phase (x ∷ q) = (x < n) × (phase x ≡ waiting) × NotIn x q × Queued n phase q

Stored-update_ge :
    (w : ℕ → ℕ) (i j x : ℕ) (q : List ℕ)
    → i + length q ≡ j
    → Stored w i q
    → Stored (update w j x) i q
Stored-update_ge w i j x [] e h = tt
Stored-update_ge w i j x (y ∷ q) e h =
    (ground arith, Stored-update_ge w (i + 1) j x q (omega arith) h.1)

pub Stored-append :
    (w : ℕ → ℕ) (i j x : ℕ) (q : List ℕ)
    → i + length q ≡ j
    → Stored w i q
    → Stored (update w j x) i (q ++ x ∷ [])
Stored-append w i j x [] e h = (ground arith, tt)
Stored-append w i j x (y ∷ q) e h = (ground arith, Stored-append w (i + 1) j x q (omega arith) h.1)

pub NotIn-append : (g x : ℕ) (q : List ℕ) → g ≢ x → NotIn g q → NotIn g (q ++ x ∷ [])
NotIn-append g x [] ne h = (ne, tt)
NotIn-append g x (y ∷ q) ne h = (h.0, NotIn-append g x q ne h.1)

module _ (n : ℕ) (phase : ℕ → Phase) where
  pub NotIn-of_phase : (g : ℕ) (q : List ℕ) → phase g ≢ waiting → Queued n phase q → NotIn g q
  NotIn-of_phase g [] ne h = tt
  NotIn-of_phase g (x ∷ q) ne h = (ground arith, NotIn-of_phase g q ne h.3)

  pub Queued-update :
      (g : ℕ) (p : Phase) (q : List ℕ)
      → NotIn g q
      → Queued n phase q
      → Queued n (update phase g p) q
  Queued-update g p [] out h = tt
  Queued-update g p (x ∷ q) out h = (h.0, ground arith, h.2, Queued-update g p q out.1 h.3)

  pub Queued-append :
      (g : ℕ) (q : List ℕ)
      → NotIn g q
      → Queued n phase q
      → g < n
      → Queued n (update phase g waiting) (q ++ g ∷ [])
  Queued-append g [] out h lt = (lt, ground arith, tt, tt)
  Queued-append g (x ∷ q) out h lt =
      (h.0, ground arith, NotIn-append x g q (ground arith) h.2, Queued-append g q out.1 h.3 lt)
