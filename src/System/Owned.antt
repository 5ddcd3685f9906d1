-- ===== src/System/Owned.antt =====
-- A resource and the process that holds it, from one state of the simulation to the next.
use so2023_trabalho.Base.{
  ℕ, ◌+◌, ◌<◌, ◌≡◌, inl, inr, Bool, false, Bool-cases, ◌==◌, update, count_true, count-update,
  arith,
}
use so2023_trabalho.Prog.{Prog, World}
use so2023_trabalho.System.{System, Step, pick, Reach, here, later}
use so2023_trabalho.System.Resource.{Resource, Sound, Keeps, act-Keeps}

-- Each of the `3 + n` processes keeps to the rules of the resource from here on, and the resource is
-- on one of its semaphores or with one process.
pub record Owned (r : Resource) (n : ℕ) (s : System) : Type 0 where
  pub holder : ℕ → Bool
  pub sound : (i : ℕ) → Sound r (holder i) (s.proc i) false
  pub one : r.load s.world.sem + count_true (3 + n) holder ≡ 1

module _ (r : Resource) (n : ℕ) where
  Step-Owned_at :
      (s : System) (i : ℕ) (p : Prog (Unit {0})) (w : World) (h : Owned r n s)
      → i < 3 + n
      → Keeps r s.world (h.holder i) false (p, w)
      → Owned r n (record { world = w; proc = update s.proc i p })
  Step-Owned_at s i p w h lt (d, sound, e) = record {
    holder = update h.holder i d;
    sound = λ j. elim (Bool-cases (i == j)) [
      | inl same ↦ rw same sound
      | inr other ↦ rw other (h.sound j)
    ];
    one = omega (arith, e, h.one, count-update (3 + n) i h.holder d lt);
  }

  pub Step-Owned : {s t : System} → Step n s t → Owned r n s → Owned r n t
  Step-Owned {s} (pick i p w lt e) h =
      Step-Owned_at s i p w h lt
        (act-Keeps r (s.proc i) s.world (h.holder i) false (p, w) (h.sound i) e)

  pub Reach-Owned : {s t : System} → Owned r n s → Reach n s t → Owned r n t
  Reach-Owned h here = h
  Reach-Owned h (later q st) = Step-Owned st (Reach-Owned h q)
