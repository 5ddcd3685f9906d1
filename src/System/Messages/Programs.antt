-- ===== src/System/Messages/Programs.antt =====
-- The groups, the chef and the receptionist announce only messages that are there.
use so2023_trabalho.Base.{ℕ, ◌<◌, ◌≡◌, refl, Bool, true, false, ==_ne, if◌then◌else◌, ℤ, arith}
use so2023_trabalho.Shared.{FullStat, Request, num_tables}
use so2023_trabalho.Sync.{
  mutex, receptionist_req, receptionist_request_possible, waiter_request, waiter_request_possible,
  wait_order,
}
use so2023_trabalho.Prog.{Prog, ret, down, ◌>>=◌, ◌>>◌, at, save_under_mutex}
use so2023_trabalho.Slots.{
  place_at_reception, take_at_reception, place_with_waiter, take_with_waiter,
}
use so2023_trabalho.System.Messages.{
  Message, desk, floor, stove, announces, IsDeskRequest, IsFloorRequest, Says, Known, nothing,
  learn, Respects, Mindful, Mindful->>=, Mindful-at, more,
}

-- A semaphore that announces nothing.
abbrev pub IsMute : ℕ → Type 0
IsMute s = (x : Message) → announces s x ≡ false

pub mute : (s : ℕ) → IsMute s → (k : Known) (x : Message) → announces s x ≡ true → k x ≡ true
mute s m k x e = absurd (ground (arith, m x))

pub mutex-IsMute : IsMute mutex
mutex-IsMute desk = refl
mutex-IsMute floor = refl
mutex-IsMute stove = refl

place-IsMute : IsMute receptionist_request_possible
place-IsMute desk = refl
place-IsMute floor = refl
place-IsMute stove = refl

floor_place-IsMute : IsMute waiter_request_possible
floor_place-IsMute desk = refl
floor_place-IsMute floor = refl
floor_place-IsMute stove = refl

pub big-IsMute : (s : ℕ) → 6 < s → IsMute s
big-IsMute s h desk = ==_ne s receptionist_req (omega arith)
big-IsMute s h floor = ==_ne s waiter_request (omega arith)
big-IsMute s h stove = ==_ne s wait_order (omega arith)

abbrev pub only : Message → Known
only desk desk = true
only floor floor = true
only stove stove = true
only _ _ = false

pub stove_announced : (x : Message) → announces wait_order x ≡ true → only stove x ≡ true
stove_announced desk e = ground arith
stove_announced floor e = ground arith
stove_announced stove e = refl

only_announced : (x : Message) → announces receptionist_req x ≡ true → only desk x ≡ true
only_announced desk e = refl
only_announced floor e = ground arith
only_announced stove e = ground arith

floor_announced : (x : Message) → announces waiter_request x ≡ true → only floor x ≡ true
floor_announced desk e = ground arith
floor_announced floor e = refl
floor_announced stove e = ground arith

module _ (n : ℕ) (may : Bool) where
  -- An assignment to other parts of the state.
  abbrev pub IsQuiet : (FullStat → FullStat) → Type 0
  IsQuiet g =
      (f : FullStat)
      → ((g f).receptionist_request ≡ f.receptionist_request)
        × ((g f).waiter_request ≡ f.waiter_request)
        × ((g f).food_group ≡ f.food_group)

  quiet-Says :
      (g : FullStat → FullStat)
      → IsQuiet g
      → (f : FullStat) (x : Message) → Says n x f
      → Says n x (g f)
  quiet-Says g q f desk h = rw (q f).0 h
  quiet-Says g q f floor h = rw (q f).1 h
  quiet-Says g q f stove h = rw (q f).2 h

  pub quiet : (k : Known) (g : FullStat → FullStat) → IsQuiet g → Respects n may k nothing g
  quiet k g q = λ f t x. (tt, quiet-Says g q f x)

  pub saved :
      {A : Type 0} (g : FullStat → FullStat) (m : Prog A) (p : A → Type 0)
      → IsQuiet g
      → Mindful n may nothing m p
      → Mindful n may nothing (save_under_mutex g >> m) p
  saved g m p q h = (nothing, quiet (learn nothing mutex) g q, (mute mutex mutex-IsMute nothing, h))

  new_desk :
      (r : Request)
      → IsDeskRequest n r
      → Respects n may
          (learn nothing receptionist_request_possible)
          (only desk)
          (λ s. record s { receptionist_request = r })
  new_desk r h f t desk = (h, λ _. h)
  new_desk r h f t floor = (tt, λ c. c)
  new_desk r h f t stove = (tt, λ c. c)

  new_floor :
      (r : Request)
      → IsFloorRequest n r
      → Respects n may
          (learn nothing waiter_request_possible)
          (only floor)
          (λ s. record s { waiter_request = r })
  new_floor r h f t desk = (tt, λ c. c)
  new_floor r h f t floor = (h, λ _. h)
  new_floor r h f t stove = (tt, λ c. c)

  pub places_desk :
      (r : Request) → IsDeskRequest n r → Mindful n may nothing (place_at_reception r) (λ _. Unit)
  places_desk r h = (only desk, new_desk r h, (only_announced, tt))

  pub places_floor :
      (r : Request) → IsFloorRequest n r → Mindful n may nothing (place_with_waiter r) (λ _. Unit)
  places_floor r h = (only floor, new_floor r h, (floor_announced, tt))

  pub takes_desk : Mindful n may nothing take_at_reception (IsDeskRequest n)
  takes_desk = λ f t.
      (mute receptionist_request_possible place-IsMute (learn nothing receptionist_req), t desk)

  pub takes_floor : Mindful n may nothing take_with_waiter (IsFloorRequest n)
  takes_floor = λ f t.
      (mute waiter_request_possible floor_place-IsMute (learn nothing waiter_request), t floor)

  pub Mindful->> :
      {A : Type 0} (m : Prog (Unit {0})) (f : Prog A) (q : A → Type 0)
      → Mindful n may nothing m (λ _. Unit {0})
      → Mindful n may nothing f q
      → Mindful n may nothing (m >> f) q
  Mindful->> m f q h c = Mindful->>= n may m (λ _. f) nothing (λ _. Unit {0}) q h (λ _ _. c)

  pub Mindful-if :
      {A : Type 0} (b : Bool) (m f : Prog A) (q : A → Type 0)
      → Mindful n may nothing m q
      → Mindful n may nothing f q
      → Mindful n may nothing (if b then m else f) q
  Mindful-if true m f q h c = h
  Mindful-if false m f q h c = c

  pub saves :
      (g : FullStat → FullStat)
      → IsQuiet g
      → Mindful n may nothing (save_under_mutex g) (λ _. Unit {0})
  saves g q = saved g (ret tt) (λ _. Unit {0}) q tt

  -- A wait for a semaphore that announces nothing.
  pub awaits :
      {A : Type 0} (s : ℕ) (m : Prog A) (q : A → Type 0)
      → Mindful n may nothing m q
      → Mindful n may nothing (down s m) q
  awaits s m q h = more n may m nothing (learn nothing s) q (λ x e. ground arith) h

  pub table_waits :
      {A : Type 0} (table : ℤ) (f : ℕ → ℕ) (m : Prog A) (q : A → Type 0)
      → Mindful n may nothing m q
      → Mindful n may nothing (at num_tables table >>= λ t. down (f t) m) q
  table_waits table f m q h =
      Mindful-at n may num_tables table (λ t. down (f t) m) nothing q (λ t _ _. awaits (f t) m q h)
