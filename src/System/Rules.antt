-- ===== src/System/Rules.antt =====
-- What a resource asks of the pieces that the programs are made of, and the three resources: the
-- mutex, and the two places for a request.
pub mod Customers
pub mod Stove
pub mod Desk
pub mod Floor
use so2023_trabalho.Base.{
  ℕ, ◌+◌, ◌-◌, ◌<◌, ◌≡◌, ◌≢◌, refl, inl, inr, Bool, true, false, ◌||◌, ◌==◌, if◌then◌else◌, update,
  ℤ, arith,
}
use so2023_trabalho.Shared.{FullStat, Request, max_groups}
use so2023_trabalho.Sync.{mutex}
use so2023_trabalho.Prog.{Prog, ret, up, fetch, ◌>>=◌, ◌>>◌, save_under_mutex, get, sem_up}
use so2023_trabalho.Slots.{
  place_at_reception, take_at_reception, place_with_waiter, take_with_waiter,
}
use so2023_trabalho.Waiter.{note_table}
use so2023_trabalho.System.Resource.{Resource, Sound, Sound-at}

-- An assignment that leaves both requests as they are.
abbrev pub KeepsRequests : (FullStat → FullStat) → Type 0
KeepsRequests f =
    (s : FullStat)
    → ((f s).receptionist_request ≡ s.receptionist_request)
      × ((f s).waiter_request ≡ s.waiter_request)

-- One that leaves the states of the entities as they are, too.
abbrev pub IsPlain : (FullStat → FullStat) → Type 0
IsPlain f = KeepsRequests f × ((s : FullStat) → (f s).st ≡ s.st)

pub record Rules (r : Resource) : Type 0 where
  pub saves : (f : FullStat → FullStat) → KeepsRequests f → Sound r false (save_under_mutex f) false
  pub notes : (group : ℤ) → Sound r false (note_table group) false
  pub places_desk : (q : Request) → Sound r false (place_at_reception q) false
  pub takes_desk : Sound r false take_at_reception false
  pub places_waiter : (q : Request) → Sound r false (place_with_waiter q) false
  pub takes_waiter : Sound r false take_with_waiter false
  pub others : (s : ℕ) → 5 < s → r.inside s ≡ false
  pub plain : (f : FullStat → FullStat) → IsPlain f → r.Free f

pub one-down :
    (t : ℕ) (sem : ℕ → ℕ) (s : ℕ)
    → sem s ≢ 0
    → sem t ≡ update sem s (sem s - 1) t + (if s == t then 1 else 0)
one-down t sem s more = ground arith

pub one-up :
    (t : ℕ) (sem : ℕ → ℕ) (s : ℕ) → update sem s (sem s + 1) t ≡ sem t + (if s == t then 1 else 0)
one-up t sem s = ground arith

pub pair-down :
    (t u : ℕ) (sem : ℕ → ℕ) (s : ℕ)
    → t ≢ u
    → sem s ≢ 0
    → sem t + sem u
      ≡ update sem s (sem s - 1) t
        + update sem s (sem s - 1) u
        + (if s == t || s == u then 1 else 0)
pair-down t u sem s ne more = ground arith

pub pair-up :
    (t u : ℕ) (sem : ℕ → ℕ) (s : ℕ)
    → t ≢ u
    → update sem s (sem s + 1) t + update sem s (sem s + 1) u
      ≡ sem t + sem u + (if s == t || s == u then 1 else 0)
pair-up t u sem s ne = ground arith

-- The mutex guards the states of the entities and the log.
abbrev pub mutex_resource : Resource
mutex_resource = record {
  inside = λ s. s == 1;
  load = λ sem. sem 1;
  Free = λ f. (s : FullStat) → (f s).st ≡ s.st;
  FreeSave = ⊥;
  load-down = one-down 1;
  load-up = one-up 1;
}

-- A place for a request is guarded by its two semaphores.
abbrev pub desk_slot : Resource
desk_slot = record {
  inside = λ s. s == 2 || s == 3;
  load = λ sem. sem 2 + sem 3;
  Free = λ f. (s : FullStat) → (f s).receptionist_request ≡ s.receptionist_request;
  FreeSave = Unit;
  load-down = λ sem s. pair-down 2 3 sem s (omega arith);
  load-up = λ sem s. pair-up 2 3 sem s (omega arith);
}

abbrev pub waiter_slot : Resource
waiter_slot = record {
  inside = λ s. s == 4 || s == 5;
  load = λ sem. sem 4 + sem 5;
  Free = λ f. (s : FullStat) → (f s).waiter_request ≡ s.waiter_request;
  FreeSave = Unit;
  load-down = λ sem s. pair-down 4 5 sem s (omega arith);
  load-up = λ sem s. pair-up 4 5 sem s (omega arith);
}

-- The rest of `note_table` once the state is saved.
abbrev read_table : ℕ → Prog ℤ
read_table g = get (λ s. s.assigned_table g) >>= λ table. sem_up mutex >> ret table

mutex-note_table : (group : ℤ) → Sound mutex_resource false (note_table group) false
mutex-note_table group = (
  refl,
  (
    inl refl,
    (
      inl refl,
      Sound-at mutex_resource max_groups group read_table true false (λ g s. (refl, refl)),
    ),
  ),
)

pub mutex-Rules : Rules mutex_resource
mutex-Rules = record {
  saves = λ f k. (refl, (inl refl, (inl refl, (refl, refl))));
  notes = mutex-note_table;
  places_desk = λ q. (refl, (inr (λ s. refl), (tt, refl)));
  takes_desk = (refl, λ s. (tt, refl));
  places_waiter = λ q. (refl, (inr (λ s. refl), (tt, refl)));
  takes_waiter = (refl, λ s. (tt, refl));
  others = λ s h. ground arith;
  plain = λ f h. h.1;
}

desk-note_table : (group : ℤ) → Sound desk_slot false (note_table group) false
desk-note_table group = (
  refl,
  (
    inr (λ s. refl),
    (inr tt, Sound-at desk_slot max_groups group read_table false false (λ g s. (tt, refl))),
  ),
)

pub desk-Rules : Rules desk_slot
desk-Rules = record {
  saves = λ f k. (refl, (inr (λ s. (k s).0), (inr tt, (tt, refl))));
  notes = desk-note_table;
  places_desk = λ q. (refl, (inl refl, (refl, refl)));
  takes_desk = (refl, λ s. (refl, refl));
  places_waiter = λ q. (refl, (inr (λ s. refl), (tt, refl)));
  takes_waiter = (refl, λ s. (tt, refl));
  others = λ s h. ground arith;
  plain = λ f h s. (h.0 s).0;
}

waiter-note_table : (group : ℤ) → Sound waiter_slot false (note_table group) false
waiter-note_table group = (
  refl,
  (
    inr (λ s. refl),
    (inr tt, Sound-at waiter_slot max_groups group read_table false false (λ g s. (tt, refl))),
  ),
)

pub waiter-Rules : Rules waiter_slot
waiter-Rules = record {
  saves = λ f k. (refl, (inr (λ s. (k s).1), (inr tt, (tt, refl))));
  notes = waiter-note_table;
  places_desk = λ q. (refl, (inr (λ s. refl), (tt, refl)));
  takes_desk = (refl, λ s. (tt, refl));
  places_waiter = λ q. (refl, (inl refl, (refl, refl)));
  takes_waiter = (refl, λ s. (refl, refl));
  others = λ s h. ground arith;
  plain = λ f h s. (h.0 s).1;
}
