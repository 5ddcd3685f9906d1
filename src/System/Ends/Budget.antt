-- ===== src/System/Ends/Budget.antt =====
-- The number of actions of a whole run, over all processes.
use so2023_trabalho.Base.{
  ℕ, zero, suc, ◌+◌, ◌-◌, ◌*◌, ◌≤◌, ◌<◌, ◌≡◌, ◌≢◌, refl, inl, inr, Bool, false, Bool-cases, ◌==◌,
  ==_iff, update, List, ℤ, arith,
}
use mathlib.Core.Path.{subst}
use so2023_trabalho.Sync.{waiter_request}
use so2023_trabalho.Prog.{Prog, ret, tired, World}
use so2023_trabalho.Receptionist.{receptionist, init_record}
use so2023_trabalho.Waiter.{waiter, init_orders}
use so2023_trabalho.Chef.{chef}
use so2023_trabalho.Generator.{init_world, init_sems}
use so2023_trabalho.System.{System, Step, pick, Reach, here, later, program, init_system}
use so2023_trabalho.System.Ends.{Ends, Ends->>=, Spends, act-Spends}
use so2023_trabalho.System.Ends.Programs.{group-Ends, chef-Ends}
use so2023_trabalho.System.Ends.Servers.{serve_loop-Ends}
use so2023_trabalho.System.Ends.Earned.{Earns, waiter_loop-Earns}
use so2023_trabalho.System.Ends.Gains.{Gains, act-Gains}
use so2023_trabalho.System.Ends.Sums.{sum_below, sum-update}
use so2023_trabalho.System.Fuel.{Asks}
use so2023_trabalho.System.Fuel.Acts.{Counts, act-Counts}
use so2023_trabalho.System.Fuel.Enough.{requests, requests-of, program-Asks, never_tired}

-- The number of actions of a run.
pub length_of : {n : ℕ} {s t : System} → Reach n s t → ℕ
length_of here = 0
length_of (later r st) = length_of r + 1

-- What each process may still do and ask for, and what all of them may do and have done together. Each
-- request that is still to be taken pays for 8 actions of the waiter.
record Budget (n total made : ℕ) (s : System) : Type 0 where
  left : ℕ → ℕ
  asks : ℕ → ℕ
  ends : (i : ℕ) → (i == 1) ≡ false → Ends (left i) (s.proc i)
  earns : Earns (left 1) 0 (s.proc 1)
  fair : (i : ℕ) → Asks (asks i) (s.proc i)
  serves : asks 1 ≡ 0
  within :
      sum_below (3 + n) left + made + 8 * (s.world.sem waiter_request + sum_below (3 + n) asks)
      ≤ total

module _ (n total made : ℕ) (s : System) (b : Budget n total made s) (p : Prog (Unit {0}))
    (w : World) where
  other-Budget :
      (i : ℕ)
      → i < 3 + n
      → (i == 1) ≡ false
      → Spends (b.left i) (p, w)
      → Counts s.world (b.asks i) (p, w)
      → Budget n total (made + 1) (record { world = w; proc = update s.proc i p })
  other-Budget i lt other (some_left, rest) (j, a, le) = record {
    left = update b.left i (b.left i - 1);
    asks = update b.asks i j;
    ends = λ k h. elim (Bool-cases (i == k)) [
      | inl same ↦ rw same rest
      | inr next ↦ rw next (b.ends k h)
    ];
    earns = rw other b.earns;
    fair = λ k. elim (Bool-cases (i == k)) [ inl same ↦ rw same a | inr next ↦ rw next (b.fair k) ];
    serves = rw other b.serves;
    within = omega (
      arith,
      b.within,
      some_left,
      le,
      sum-update (3 + n) i b.left (b.left i - 1) lt,
      sum-update (3 + n) i b.asks j lt,
    );
  }

  waiter-Budget :
      Gains s.world (b.left 1) (p, w)
      → Budget n total (made + 1) (record { world = w; proc = update s.proc 1 p })
  waiter-Budget (j, c, a, le) = record {
    left = update b.left 1 j;
    asks = b.asks;
    ends = λ k h. elim (Bool-cases (1 == k)) [
      | inl same ↦ absurd (ground (arith, (==_iff 1 k).0 same))
      | inr next ↦ rw next (b.ends k h)
    ];
    earns = c;
    fair = λ k. elim (Bool-cases (1 == k)) [
      | inl same ↦
          let waiter_is : 1 ≡ k = (==_iff 1 k).0 same in
          rw same (subst (λ v. Asks (b.asks v) p) waiter_is (rw b.serves a))
      | inr next ↦ rw next (b.fair k)
    ];
    serves = b.serves;
    within = omega (arith, b.within, le, sum-update (3 + n) 1 b.left j (omega arith));
  }

Step-Budget :
    {n total made : ℕ} {s t : System}
    → Step n s t
    → Budget n total made s
    → Budget n total (made + 1) t
Step-Budget {n} {total} {made} {s} (pick i p w lt e) b = elim (Bool-cases (i == 1)) [
  | inl same ↦
      let waiter_is : i ≡ 1 = (==_iff i 1).0 same in
      let acts : Gains s.world (b.left 1) (p, w) =
        act-Gains (s.proc 1) s.world (b.left 1) (p, w) b.earns (rw b.serves at (b.fair 1))
          (rw waiter_is at e) in
      rw waiter_is (waiter-Budget n total made s b p w acts)
  | inr other ↦
      other-Budget n total made s b p w i lt other
        (act-Spends (s.proc i) s.world (b.left i) (p, w) (b.ends i other) e)
        (act-Counts (s.proc i) s.world (b.asks i) (p, w) (b.fair i) e)
]

Reach-Budget :
    {n total : ℕ} {s t : System}
    → Budget n total 0 s
    → (r : Reach n s t) → Budget n total (length_of r) t
unfolding length_of
Reach-Budget b here = b
Reach-Budget b (later r st) = Step-Budget st (Reach-Budget b r)

-- The programs of `n` groups.
share : ℕ → ℕ → ℕ
share n zero = 44 * n
share n (suc zero) = 18 * n + 6
share n (suc (suc zero)) = 19 * n
share n (suc (suc (suc g))) = 44

program-Ends :
    (late : ℤ → Bool) (fuel n i : ℕ) → (i == 1) ≡ false → Ends (share n i) (program late fuel n i)
unfolding program share receptionist chef
program-Ends late fuel n zero h =
    Ends->>= (receptionist n) (λ _. ret tt) (44 * n) (22 * (n * 2)) 0 (omega arith)
      (serve_loop-Ends n (n * 2) init_record) (λ _. tt)
program-Ends late fuel n (suc zero) h = absurd (ground arith)
program-Ends late fuel n (suc (suc zero)) h = chef-Ends n
program-Ends late fuel n (suc (suc (suc g))) h = group-Ends late n g

share-group : (n k : ℕ) → share n (3 + k) ≡ 44
unfolding share
share-group n k = let group : 3 + k ≡ suc (suc (suc k)) = omega arith in rw group refl

sum-groups : (n k : ℕ) → sum_below (3 + k) (share n) ≡ 81 * n + 6 + 44 * k
unfolding sum_below share
sum-groups n zero = omega arith
sum-groups n (suc k) =
    let next : 3 + suc k ≡ suc (3 + k) = omega arith in
    rw next (omega (arith, share-group n k, sum-groups n k))

module _ (late : ℤ → Bool) (fuel : ℕ) (log : List ℕ) (n : ℕ) (start eat : ℕ → ℤ) where
  waiter-Earns : Earns (18 * n + 6) 0 (program late fuel n 1)
  unfolding program waiter
  waiter-Earns =
      let rounds : 9 * (n * 2) + 6 ≡ 18 * n + 6 = omega arith in
      rw (← rounds) (waiter_loop-Earns fuel n (n * 2) init_orders)

  init-Budget : Budget n (141 * n + 6) 0 (init_system late fuel log n start eat)
  unfolding init_system init_world init_sems share
  init-Budget = record {
    left = share n;
    asks = requests n;
    ends = program-Ends late fuel n;
    earns = waiter-Earns;
    fair = program-Asks late fuel n;
    serves = (requests-of n n).0;
    within = omega (arith, sum-groups n n, (requests-of n n).1);
  }

  -- However the processes take turns, and whatever the fuel of the waiter's inner loop above 2 n rounds, a run
  -- with `n` groups makes at most 141 n + 6 actions, and the waiter has not used up that fuel at the end of
  -- it.
  pub run_bounded :
      (s : System) (r : Reach n (init_system late fuel log n start eat) s)
      → n * 2 < fuel
      → (length_of r ≤ 141 * n + 6) × (s.proc 1 ≢ tired)
  run_bounded s r enough = (
    omega (arith, (Reach-Budget init-Budget r).within),
    never_tired late fuel log n start eat enough s r,
  )
