-- ===== src/System/Messages/Truth.antt =====
-- What the processes tell each other, in every state that the simulation comes to.
use so2023_trabalho.Base.{
  ℕ, zero, suc, ◌+◌, ◌*◌, ◌<◌, ◌≡◌, ◌≢◌, refl, ◌⊎◌, inl, inr, Bool, true, false, Bool-cases, ◌==◌,
  ==_iff, update, List, ℤ, arith,
}
use mathlib.Core.Path.{subst}
use so2023_trabalho.Sync.{receptionist_req, waiter_request, wait_order}
use so2023_trabalho.Prog.{Prog, ret, hang, World}
use so2023_trabalho.Receptionist.{receptionist, init_record}
use so2023_trabalho.Waiter.{waiter, init_orders}
use so2023_trabalho.Waiter.Stock.{init-IsStocked}
use so2023_trabalho.Chef.{chef}
use so2023_trabalho.Generator.{init_world, init_sems}
use so2023_trabalho.System.{System, Step, pick, Reach, here, later, program, init_system}
use so2023_trabalho.System.Messages.{
  Message, desk, floor, stove, announces, Known, nothing, IsGroup, IsDeskRequest, IsFloorRequest,
  Says, Told, Mindful, Mindful->>=, Announced, Goes, act-Mindful,
}
use so2023_trabalho.System.Messages.Customers.{group-Mindful, chef-Mindful}
use so2023_trabalho.System.Messages.Desk.{serve_loop-Mindful}
use so2023_trabalho.System.Messages.Floor.{waiter_loop-Mindful}

-- Only the receptionist may sleep without end.
abbrev may_hang : ℕ → Bool
may_hang zero = true
may_hang (suc i) = false

program-Mindful :
    (late : ℤ → Bool) (fuel n i : ℕ)
    → i < 3 + n
    → Mindful n (may_hang i) nothing (program late fuel n i) (λ _. Unit {0})
unfolding program receptionist waiter chef
program-Mindful late fuel n zero lt =
    Mindful->>= n true (receptionist n) (λ _. ret tt) nothing (λ _. Unit {0}) (λ _. Unit {0})
      (serve_loop-Mindful n (n * 2) init_record) (λ _ _. tt)
program-Mindful late fuel n (suc zero) lt =
    waiter_loop-Mindful n fuel (n * 2) init_orders (init-IsStocked (IsFloorRequest n))
program-Mindful late fuel n (suc (suc zero)) lt = chef-Mindful n n
program-Mindful late fuel n (suc (suc (suc g))) lt = group-Mindful n late g (omega arith)

record Truthful (n : ℕ) (s : System) : Type 0 where
  known : ℕ → Known
  mindful : (i : ℕ) → i < 3 + n → Mindful n (may_hang i) (known i) (s.proc i) (λ _. Unit {0})
  told : (i : ℕ) (x : Message) → Told n true (known i x) x s.world.full
  announced : Announced n true s.world

kept_told :
    (n : ℕ) (b : Bool) (x : Message) (v w : World)
    → (Says n x v.full → Says n x w.full)
    → Told n true b x v.full
    → Told n true b x w.full
kept_told n true x v w h t = h t
kept_told n false x v w h t = tt

Step-Truthful_at :
    (n : ℕ) (s : System) (i : ℕ) (p : Prog (Unit {0})) (w : World)
    → Truthful n s
    → i < 3 + n
    → Goes n (may_hang i) s.world (λ _. Unit {0}) (p, w)
    → Truthful n (record { world = w; proc = update s.proc i p })
Step-Truthful_at n s i p w h lt (k, m, t, mono, a) = record {
  known = update h.known i k;
  mindful = λ j l. elim (Bool-cases (i == j)) [
    | inl same ↦
        let same_process : i ≡ j = (==_iff i j).0 same in
        rw same (subst (λ v. Mindful n (may_hang v) k p (λ _. Unit {0})) same_process m)
    | inr other ↦ rw other (h.mindful j l)
  ];
  told = λ j x. elim (Bool-cases (i == j)) [
    | inl same ↦ rw same (t x)
    | inr other ↦ rw other (kept_told n (h.known j x) x s.world w (mono x) (h.told j x))
  ];
  announced = a;
}

Step-Truthful : (n : ℕ) {s t : System} → Step n s t → Truthful n s → Truthful n t
Step-Truthful n {s} (pick i p w lt e) h = Step-Truthful_at n s i p w h lt (
    act-Mindful n (may_hang i) (s.proc i) s.world (h.known i) (λ _. Unit {0}) (p, w)
      (h.mindful i lt) (h.told i) h.announced e)

Reach-Truthful : (n : ℕ) {s t : System} → Truthful n s → Reach n s t → Truthful n t
Reach-Truthful n h here = h
Reach-Truthful n h (later q st) = Step-Truthful n st (Reach-Truthful n h q)

init_red : (s : ℕ) (x : Message) → announces s x ≡ true → init_sems s ≡ 0
unfolding init_sems
init_red s desk e = rw ((==_iff s receptionist_req).0 e) refl
init_red s floor e = rw ((==_iff s waiter_request).0 e) refl
init_red s stove e = rw ((==_iff s wait_order).0 e) refl

module _ (late : ℤ → Bool) (fuel : ℕ) (log : List ℕ) (n : ℕ) (start eat : ℕ → ℤ) (s : System)
    (p : Reach n (init_system late fuel log n start eat) s) where
  nothing_announced : Announced n true (init_world log n start eat)
  unfolding init_world init_sems
  nothing_announced = λ s x e. inl (init_red s x e)

  reached-Truthful : Truthful n s
  unfolding init_system
  reached-Truthful =
      Reach-Truthful n
        (record {
          known = λ _. nothing;
          mindful = λ i lt. program-Mindful late fuel n i lt;
          told = λ i x. tt;
          announced = nothing_announced;
        })
        p

  -- In every state that the simulation comes to: while a request to the receptionist is announced, it is a
  -- request for a table or for the bill by one of the `n` groups; while a request to the waiter is
  -- announced, it is an order or a meal of one of the groups; and while an order is announced to the chef,
  -- the group to cook for is one of them.
  pub announced_holds :
      ((s.world.sem receptionist_req ≡ 0) ⊎ IsDeskRequest n s.world.full.receptionist_request)
      × ((s.world.sem waiter_request ≡ 0) ⊎ IsFloorRequest n s.world.full.waiter_request)
      × ((s.world.sem wait_order ≡ 0) ⊎ IsGroup n s.world.full.food_group)
  announced_holds = (
    reached-Truthful.announced receptionist_req desk refl,
    reached-Truthful.announced waiter_request floor refl,
    reached-Truthful.announced wait_order stove refl,
  )

  no_hang :
      (i : ℕ)
      → Mindful n false (reached-Truthful.known i) (s.proc i) (λ _. Unit {0})
      → s.proc i ≢ hang
  no_hang i h e =
      let allowed : false ≡ true =
        subst (λ m. Mindful n false (reached-Truthful.known i) m (λ _. Unit {0})) e h in
      absurd (ground arith)

  -- In every state that the simulation comes to, neither the waiter nor the chef nor a group is at a sleep
  -- without end: the waiter never gets a request that it does not know.
  pub never_hangs : (i : ℕ) → 0 < i → i < 3 + n → s.proc i ≢ hang
  never_hangs zero some lt = absurd (omega arith)
  never_hangs (suc i) some lt = no_hang (suc i) (reached-Truthful.mindful (suc i) lt)
