-- ===== src/System/Schedule.antt =====
-- Interleavings given as the list of the processes that act, one after the other.
use so2023_trabalho.Base.{
  ℕ, ◌+◌, ◌<◌, ◌≡◌, inl, inr, true, false, Bool-cases, Option, none, some, List, [], ◌∷◌, update,
  ltb, arith, refl,
}
use so2023_trabalho.Prog.{Prog, World}
use so2023_trabalho.System.{System, pick, Reach, later, act}

moved : System → ℕ → Option (Prog (Unit {0}) × World) → System
moved s i none = s
moved s i (some (p, w)) = record { world = w; proc = update s.proc i p }

-- The action of process `i`; nothing where it has none.
unfoldable pub move : ℕ → ℕ → System → System
unfolding moved
move n i s = elim (ltb i (3 + n)) [ true ↦ moved s i (act (s.proc i) s.world) | false ↦ s ]

unfoldable pub after : ℕ → List ℕ → System → System
unfolding move
after n [] s = s
after n (i ∷ is) s = after n is (move n i s)

module _ (n : ℕ) (s : System) where
  moved-Reach :
      (t : System) (i : ℕ) (o : Option (Prog (Unit {0}) × World))
      → i < 3 + n
      → act (t.proc i) t.world ≡ o
      → Reach n s t
      → Reach n s (moved t i o)
  unfolding moved
  moved-Reach t i none lt e p = p
  moved-Reach t i (some (q, w)) lt e p = later p (pick i q w lt e)

  move-Reach : (t : System) (i : ℕ) → Reach n s t → Reach n s (move n i t)
  unfolding move
  move-Reach t i p = elim (Bool-cases (ltb i (3 + n))) [
    | inl e ↦ rw (e, move) (moved-Reach t i (act (t.proc i) t.world) (ground arith) refl p)
    | inr e ↦ rw (e, move) p
  ]

  pub after-Reach : (is : List ℕ) (t : System) → Reach n s t → Reach n s (after n is t)
  unfolding after
  after-Reach [] t p = p
  after-Reach (i ∷ is) t p = after-Reach is (move n i t) (move-Reach t i p)
