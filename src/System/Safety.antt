-- ===== src/System/Safety.antt =====
-- The simulation as `main` starts it: who may touch what the semaphores guard, in every state that
-- it comes to.
use so2023_trabalho.Base.{
  ℕ, zero, suc, ◌+◌, ◌*◌, ◌≤◌, ◌<◌, ◌≡◌, ◌≢◌, refl, inl, inr, Bool-cases, ◌⊎◌, Bool, true, false,
  List, some, ℤ, count-all_false, count_unique, count-find, count-pos, arith,
}
use mathlib.Core.Path.{subst}
use so2023_trabalho.Sync.{
  mutex, receptionist_req, receptionist_request_possible, waiter_request, waiter_request_possible,
}
use so2023_trabalho.Prog.{Prog, ret, World}
use so2023_trabalho.Receptionist.{receptionist, init_record}
use so2023_trabalho.Waiter.{waiter, init_orders}
use so2023_trabalho.Chef.{chef}
use so2023_trabalho.Generator.{init_world, init_sems}
use so2023_trabalho.System.{System, Reach, program, init_system, act}
use so2023_trabalho.System.Resource.{Resource, Sound, Sound->>=}
use so2023_trabalho.System.Guarded.{Guarded, IsStuck, Guarded-held, holder_acts}
use so2023_trabalho.System.Owned.{Owned, Reach-Owned}
use so2023_trabalho.System.Rules.{
  Rules, mutex_resource, desk_slot, waiter_slot, mutex-Rules, desk-Rules, waiter-Rules,
}
use so2023_trabalho.System.Rules.Customers.{group-Sound}
use so2023_trabalho.System.Rules.Stove.{chef-Sound}
use so2023_trabalho.System.Rules.Desk.{serve_loop-Sound}
use so2023_trabalho.System.Rules.Floor.{waiter_loop-Sound}

program-Sound :
    (r : Resource) (rules : Rules r) (late : ℤ → Bool) (fuel n i : ℕ)
    → Sound r false (program late fuel n i) false
unfolding program receptionist waiter chef init_orders
program-Sound r rules late fuel n zero =
    Sound->>= r (receptionist n) (λ _. ret tt) false false false
      (serve_loop-Sound r rules n (n * 2) init_record) (λ _. refl)
program-Sound r rules late fuel n (suc zero) = waiter_loop-Sound r rules fuel n (n * 2) init_orders
program-Sound r rules late fuel n (suc (suc zero)) = chef-Sound r rules n
program-Sound r rules late fuel n (suc (suc (suc g))) = group-Sound r rules late n g

-- One process has the resource, by what its program still does with the semaphores, and no other one has
-- it. The one that has it can make an action, or can make none whatever the others do.
abbrev pub HeldByOne : ℕ → System → Resource → Type 0
HeldByOne n s r =
    (i : ℕ) × (i < 3 + n)
    × Sound r true (s.proc i) false
    × ((j : ℕ) → j < 3 + n → j ≢ i → Sound r false (s.proc j) false × (¬ Guarded r (s.proc j)))
    × (((y : Prog (Unit {0}) × World) × (act (s.proc i) s.world ≡ some y)) ⊎ IsStuck r (s.proc i))

module _ (late : ℤ → Bool) (fuel : ℕ) (log : List ℕ) (n : ℕ) (start eat : ℕ → ℤ) (s : System)
    (p : Reach n (init_system late fuel log n start eat) s) where
  init-Owned : (r : Resource) → Rules r → r.load init_sems ≡ 1 → Owned r n s
  unfolding init_system init_world
  init-Owned r rules e =
      Reach-Owned r n
        (record {
          holder = λ _. false;
          sound = λ i. program-Sound r rules late fuel n i;
          one = omega (arith, e, count-all_false (3 + n) (λ _. false) (λ _. refl));
        })
        p

  mutex-Owned : Owned mutex_resource n s
  unfolding init_sems
  mutex-Owned = init-Owned mutex_resource mutex-Rules refl

  desk-Owned : Owned desk_slot n s
  unfolding init_sems
  desk-Owned = init-Owned desk_slot desk-Rules refl

  waiter-Owned : Owned waiter_slot n s
  unfolding init_sems
  waiter-Owned = init-Owned waiter_slot waiter-Rules refl

  held_once :
      (r : Resource) (h : Owned r n s) (i j : ℕ)
      → i < 3 + n
      → j < 3 + n
      → Guarded r (s.proc i)
      → Guarded r (s.proc j)
      → (i ≡ j) × (r.load s.world.sem ≡ 0)
  held_once r h i j hi hj gi gj = (
    count_unique (3 + n) i j h.holder (omega (arith, h.one)) hi hj held_i held_j,
    omega (arith, h.one, count-pos (3 + n) i h.holder hi held_i),
  )
    where
      held_i : h.holder i ≡ true
      held_i = Guarded-held r (s.proc i) (h.holder i) false (h.sound i) gi

      held_j : h.holder j ≡ true
      held_j = Guarded-held r (s.proc j) (h.holder j) false (h.sound j) gj

  others_without :
      (r : Resource) (h : Owned r n s) (i : ℕ)
      → i < 3 + n
      → h.holder i ≡ true
      → (j : ℕ) → j < 3 + n
      → j ≢ i
      → Sound r false (s.proc j) false × (¬ Guarded r (s.proc j))
  others_without r h i lt e j lt' other = elim (Bool-cases (h.holder j)) [
    | inl held ↦
        absurd (other (count_unique (3 + n) j i h.holder (omega (arith, h.one)) lt' lt held e))
    | inr free ↦
        let without : Sound r false (s.proc j) false =
          subst (λ b. Sound r b (s.proc j) false) free (h.sound j) in
        (without, λ g. absurd (ground (arith, Guarded-held r (s.proc j) false false without g)))
  ]

  -- Where the resource is not on its semaphores, the process that has it is not waiting.
  holder_found : (r : Resource) (h : Owned r n s) → r.load s.world.sem ≡ 0 → HeldByOne n s r
  holder_found r h red =
      let (i, lt, e) = count-find (3 + n) h.holder (omega (arith, h.one, red)) in
      let holds : Sound r true (s.proc i) false =
        subst (λ b. Sound r b (s.proc i) false) e (h.sound i) in
      (i, lt, holds, others_without r h i lt e, holder_acts r (s.proc i) s.world holds)

  -- In every state that the simulation comes to, two processes of which each is about to change the
  -- state of an entity, to save the state in the log, or to raise the mutex, are the same process, and
  -- the mutex is red then.
  pub mutex_exclusive :
      (i j : ℕ)
      → i < 3 + n
      → j < 3 + n
      → Guarded mutex_resource (s.proc i)
      → Guarded mutex_resource (s.proc j)
      → (i ≡ j) × (s.world.sem mutex ≡ 0)
  mutex_exclusive = held_once mutex_resource mutex-Owned

  -- In every state that the simulation comes to, two processes of which each is about to write the
  -- request to the receptionist, to announce it, or to release its place, are the same process, and no
  -- request is announced and the place is not free then: no request is overwritten before it is read.
  pub desk_exclusive :
      (i j : ℕ)
      → i < 3 + n
      → j < 3 + n
      → Guarded desk_slot (s.proc i)
      → Guarded desk_slot (s.proc j)
      → (i ≡ j) × (s.world.sem receptionist_req + s.world.sem receptionist_request_possible ≡ 0)
  desk_exclusive = held_once desk_slot desk-Owned

  -- The same of the request to the waiter: in every state that the simulation comes to, two processes
  -- of which each is about to write it, to announce it, or to release its place, are the same process,
  -- and no request is announced and the place is not free then.
  pub waiter_exclusive :
      (i j : ℕ)
      → i < 3 + n
      → j < 3 + n
      → Guarded waiter_slot (s.proc i)
      → Guarded waiter_slot (s.proc j)
      → (i ≡ j) × (s.world.sem waiter_request + s.world.sem waiter_request_possible ≡ 0)
  waiter_exclusive = held_once waiter_slot waiter-Owned

  -- In every state that the simulation comes to, the mutex is at most 1, and of the two semaphores of
  -- each place for a request at most one is raised, once.
  pub semaphores_bounded :
      (s.world.sem mutex ≤ 1)
      × (s.world.sem receptionist_req + s.world.sem receptionist_request_possible ≤ 1)
      × (s.world.sem waiter_request + s.world.sem waiter_request_possible ≤ 1)
  semaphores_bounded = (
    omega (arith, mutex-Owned.one),
    omega (arith, desk-Owned.one),
    omega (arith, waiter-Owned.one),
  )

  -- In every state that the simulation comes to and in which the mutex is red, there is one process that
  -- has it: on every path of its program on which it ends, it raises the mutex before it ends and before
  -- it waits for any semaphore. It can make an action, or is at a sleep without end, at an access out of
  -- an array, or out of fuel. The other processes do not have it, and none of them is about to do what is
  -- guarded by the mutex.
  pub mutex_holder_acts : s.world.sem mutex ≡ 0 → HeldByOne n s mutex_resource
  mutex_holder_acts = holder_found mutex_resource mutex-Owned
