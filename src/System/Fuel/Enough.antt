-- ===== src/System/Fuel/Enough.antt =====
-- The fuel of the waiter's inner loop in every interleaving: the groups and the chef make 2n requests in
-- all, and each round of the loop that finds nothing takes one of them.
use so2023_trabalho.Base.{
  ℕ, zero, suc, ◌+◌, ◌*◌, ◌≤◌, ◌<◌, ◌≡◌, ◌≢◌, refl, inl, inr, Bool, true, false, Bool-cases, ◌==◌,
  ==_iff, update, List, ℤ, arith,
}
use mathlib.Core.Path.{subst}
use so2023_trabalho.Sync.{waiter_request}
use so2023_trabalho.Prog.{Prog, ret, tired, World}
use so2023_trabalho.Receptionist.{receptionist, init_record}
use so2023_trabalho.Waiter.{waiter, init_orders}
use so2023_trabalho.Waiter.Stock.{init-IsStocked}
use so2023_trabalho.Chef.{chef}
use so2023_trabalho.Generator.{init_world, init_sems}
use so2023_trabalho.System.{System, Step, pick, Reach, here, later, program, init_system}
use so2023_trabalho.System.Ends.Sums.{sum_below, sum-update}
use so2023_trabalho.System.Fuel.{Asks, Asks->>=, Copes}
use so2023_trabalho.System.Fuel.Acts.{Counts, act-Counts, Takes, act-Takes}
use so2023_trabalho.System.Fuel.Customers.{group-Asks, chef-Asks}
use so2023_trabalho.System.Fuel.Servers.{serve_loop-Asks, waiter_loop-Asks}
use so2023_trabalho.System.Fuel.Rounds.{IsOrder, waiter_loop-Copes}

-- How many requests each process still makes, and how many the waiter can still take.
record Fair (n : ℕ) (s : System) : Type 0 where
  asks : ℕ → ℕ
  fair : (i : ℕ) → Asks (asks i) (s.proc i)
  room : ℕ
  copes : Copes room (s.proc 1) (λ _ _. Unit {0})
  serves : asks 1 ≡ 0
  within : s.world.sem waiter_request + sum_below (3 + n) asks ≤ room

module _ (n : ℕ) (s : System) (h : Fair n s) (p : Prog (Unit {0})) (w : World) where
  other-Fair :
      (i : ℕ)
      → i < 3 + n
      → (i == 1) ≡ false
      → Counts s.world (h.asks i) (p, w)
      → Fair n (record { world = w; proc = update s.proc i p })
  other-Fair i lt other (j, a, le) = record {
    asks = update h.asks i j;
    fair = λ k. elim (Bool-cases (i == k)) [ inl e ↦ rw e a | inr e ↦ rw e (h.fair k) ];
    room = h.room;
    copes = rw other h.copes;
    serves = rw other h.serves;
    within = omega (arith, h.within, le, sum-update (3 + n) i h.asks j lt);
  }

  waiter-Fair :
      Takes s.world h.room (λ _ _. Unit {0}) (p, w)
      → Fair n (record { world = w; proc = update s.proc 1 p })
  waiter-Fair (j, c, a, le) = record {
    asks = h.asks;
    fair = λ k. elim (Bool-cases (1 == k)) [
      | inl e ↦
          let same : 1 ≡ k = (==_iff 1 k).0 e in
          rw e (subst (λ v. Asks (h.asks v) p) same (rw h.serves a))
      | inr e ↦ rw e (h.fair k)
    ];
    room = j;
    copes = c;
    serves = h.serves;
    within = omega (arith, h.within, le);
  }

Step-Fair : (n : ℕ) {s t : System} → Step n s t → Fair n s → Fair n t
Step-Fair n {s} (pick i p w lt e) h = elim (Bool-cases (i == 1)) [
  | inl same ↦
      let waits : i ≡ 1 = (==_iff i 1).0 same in
      let acts : Takes s.world h.room (λ _ _. Unit {0}) (p, w) =
        act-Takes (s.proc 1) s.world h.room (λ _ _. Unit {0}) (p, w) h.copes
          (rw h.serves at (h.fair 1)) (omega (arith, h.within)) (rw waits at e) in
      rw waits (waiter-Fair n s h p w acts)
  | inr other ↦
      other-Fair n s h p w i lt other (act-Counts (s.proc i) s.world (h.asks i) (p, w) (h.fair i) e)
]

Reach-Fair : (n : ℕ) {s t : System} → Fair n s → Reach n s t → Fair n t
Reach-Fair n h here = h
Reach-Fair n h (later q st) = Step-Fair n st (Reach-Fair n h q)

-- The requests of `n` groups and of the chef, who cooks for each of them.
pub requests : ℕ → ℕ → ℕ
requests n zero = 0
requests n (suc zero) = 0
requests n (suc (suc zero)) = n
requests n (suc (suc (suc g))) = 1

pub program-Asks : (late : ℤ → Bool) (fuel n i : ℕ) → Asks (requests n i) (program late fuel n i)
unfolding program requests receptionist waiter chef init_orders
program-Asks late fuel n zero =
    Asks->>= (receptionist n) (λ _. ret tt) 0 0 0 (omega arith)
      (serve_loop-Asks n (n * 2) init_record) (λ _. tt)
program-Asks late fuel n (suc zero) = waiter_loop-Asks fuel n (n * 2) init_orders
program-Asks late fuel n (suc (suc zero)) = chef-Asks n
program-Asks late fuel n (suc (suc (suc g))) = group-Asks late n g

requests-group : (n k : ℕ) → requests n (3 + k) ≡ 1
unfolding requests
requests-group n k = let group : 3 + k ≡ suc (suc (suc k)) = omega arith in rw group refl

sum-groups : (n k : ℕ) → sum_below (3 + k) (requests n) ≡ n + k
unfolding sum_below requests
sum-groups n zero = omega arith
sum-groups n (suc k) =
    let next : 3 + suc k ≡ suc (3 + k) = omega arith in
    rw next (omega (arith, requests-group n k, sum-groups n k))

pub requests-of : (n k : ℕ) → (requests n 1 ≡ 0) × (sum_below (3 + k) (requests n) ≡ n + k)
unfolding requests
requests-of n k = (refl, sum-groups n k)

module _ (late : ℤ → Bool) (fuel : ℕ) (log : List ℕ) (n : ℕ) (start eat : ℕ → ℤ)
    (enough : n * 2 < fuel) where
  waiter_begins : Copes (n * 2) (program late fuel n 1) (λ _ _. Unit {0})
  unfolding program waiter
  waiter_begins =
      waiter_loop-Copes fuel n (n * 2) (n * 2) init_orders enough (omega arith)
        (init-IsStocked IsOrder)

  init-Fair : Fair n (init_system late fuel log n start eat)
  unfolding init_system init_world init_sems requests
  init-Fair = record {
    asks = requests n;
    fair = program-Asks late fuel n;
    room = n * 2;
    copes = waiter_begins;
    serves = refl;
    within = omega (arith, sum-groups n n);
  }

  -- In every state that the simulation comes to, the waiter has not used up the fuel of its inner loop: the
  -- `2 * n + 1` rounds or more that each search for a request gets are enough however the processes take
  -- turns.
  pub never_tired :
      (s : System) → Reach n (init_system late fuel log n start eat) s → s.proc 1 ≢ tired
  never_tired s r e =
      let h : Fair n s = Reach-Fair n init-Fair r in
      let out : true ≡ false = subst (λ c. Copes h.room c (λ _ _. Unit {0})) e h.copes in
      absurd (ground arith)
