-- ===== src/System/Messages.antt =====
-- What the processes tell each other through `FULL_STAT`: the request to the receptionist, the request to
-- the waiter, and the group whose order is passed to the chef. Each is announced by a semaphore.
pub mod Programs
pub mod Customers
pub mod Desk
pub mod Floor
pub mod Truth
use so2023_trabalho.Base.{
  ℕ, ◌+◌, ◌-◌, ◌<◌, ◌≡◌, ◌≢◌, refl, sym, ==_iff, ◌⊎◌, inl, inr, Bool, true, false, Bool-cases, ◌||◌,
  ◌==◌, if◌then◌else◌, ltb, ltb→lt, update, ℤ, pos, negsuc, some, ◌++◌, arith,
}
use mathlib.Core.Path.{subst}
use mathlib.Core.Option.{some-injective}
use so2023_trabalho.Shared.{FullStat, Request, table_req, bill_req, food_req, food_ready}
use so2023_trabalho.Sync.{receptionist_req, waiter_request, wait_order}
use so2023_trabalho.Logging.{save_state}
use so2023_trabalho.Prog.{
  Prog, ret, down, up, fetch, store, save, nap, hang, fault, tired, ◌>>=◌, at, World,
}
use so2023_trabalho.System.{act}

pub data Message : Type 0 where
  desk : Message
  floor : Message
  stove : Message

abbrev pub announces : ℕ → Message → Bool
announces s desk = s == receptionist_req
announces s floor = s == waiter_request
announces s stove = s == wait_order

-- One of the `n` groups.
abbrev pub IsGroup : ℕ → ℤ → Type 0
IsGroup n x = (g : ℕ) × (x ≡ pos g) × (g < n)

abbrev pub IsDeskRequest : ℕ → Request → Type 0
IsDeskRequest n r =
    ((r.req_type ≡ pos table_req) ⊎ (r.req_type ≡ pos bill_req)) × IsGroup n r.req_group

abbrev pub IsFloorRequest : ℕ → Request → Type 0
IsFloorRequest n r =
    ((r.req_type ≡ pos food_req) ⊎ (r.req_type ≡ pos food_ready)) × IsGroup n r.req_group

abbrev pub Says : ℕ → Message → FullStat → Type 0
Says n desk f = IsDeskRequest n f.receptionist_request
Says n floor f = IsFloorRequest n f.waiter_request
Says n stove f = IsGroup n f.food_group

-- Which messages a process knows to be there.
abbrev pub Known : Type 0
Known = Message → Bool

abbrev pub nothing : Known
nothing x = false

abbrev pub learn : Known → ℕ → Known
learn k s x = k x || announces s x

module _ (n : ℕ) (may : Bool) where
  abbrev pub Told : Bool → Message → FullStat → Type 0
  Told b x f = if b then Says n x f else Unit

  -- A message that is there stays one, and what is known afterwards holds.
  abbrev pub Respects : Known → Known → (FullStat → FullStat) → Type 0
  Respects k j g =
      (f : FullStat)
      → ((x : Message) → Told (k x) x f)
      → (x : Message) → Told (j x) x (g f) × (Says n x f → Says n x (g f))

  -- A program that knows the messages `k`, announces only what it knows, and ends with a result of which
  -- `p` holds. It sleeps without end only where `may` allows it.
  abbrev pub Mindful : {A : Type 0} → Known → Prog A → (A → Type 0) → Type 0
  Mindful k (ret a) p = p a
  Mindful k (down s m) p = Mindful (learn k s) m p
  Mindful k (up s m) p = ((x : Message) → announces s x ≡ true → k x ≡ true) × Mindful k m p
  Mindful k (fetch m) p = (f : FullStat) → ((x : Message) → Told (k x) x f) → Mindful k (m f) p
  Mindful k (store g m) p = (j : Known) × Respects k j g × Mindful j m p
  Mindful k (save m) p = Mindful k m p
  Mindful k (nap m) p = Mindful k m p
  Mindful k hang p = may ≡ true
  Mindful k fault p = Unit
  Mindful k tired p = Unit

  abbrev Within : Known → Known → Type 0
  Within j k = (x : Message) → j x ≡ true → k x ≡ true

  told_less :
      (j k : Known) (f : FullStat)
      → Within j k
      → ((x : Message) → Told (k x) x f)
      → (x : Message) → Told (j x) x f
  told_less j k f h t x = elim (Bool-cases (j x)) [
    | inl e ↦ rw e (rw (h x e) at (t x))
    | inr e ↦ rw e tt
  ]

  pub more :
      {A : Type 0} (m : Prog A) (j k : Known) (p : A → Type 0)
      → Within j k
      → Mindful j m p
      → Mindful k m p
  more (ret a) j k p h v = v
  more (down s m) j k p h v = more m (learn j s) (learn k s) p (λ x e. ground (arith, h x)) v
  more (up s m) j k p h v = ((λ x e. h x (v.0 x e)), more m j k p h v.1)
  more (fetch m) j k p h v = λ f t. more (m f) j k p h (v f (told_less j k f h t))
  more (store g m) j k p h v = (v.0, (λ f t x. v.1 f (told_less j k f h t) x), v.2)
  more (save m) j k p h v = more m j k p h v
  more (nap m) j k p h v = more m j k p h v
  more hang j k p h v = v
  more fault j k p h v = tt
  more tired j k p h v = tt

  pub Mindful->>= :
      {A B : Type 0} (m : Prog A) (f : A → Prog B) (k : Known) (p : A → Type 0) (q : B → Type 0)
      → Mindful k m p
      → ((a : A) → p a → Mindful nothing (f a) q)
      → Mindful k (m >>= f) q
  Mindful->>= (ret a) f k p q h c = more (f a) nothing k q (λ x e. ground arith) (c a h)
  Mindful->>= (down s m) f k p q h c = Mindful->>= m f (learn k s) p q h c
  Mindful->>= (up s m) f k p q h c = (h.0, Mindful->>= m f k p q h.1 c)
  Mindful->>= (fetch m) f k p q h c = λ st t. Mindful->>= (m st) f k p q (h st t) c
  Mindful->>= (store g m) f k p q h c = (h.0, h.1, Mindful->>= m f h.0 p q h.2 c)
  Mindful->>= (save m) f k p q h c = Mindful->>= m f k p q h c
  Mindful->>= (nap m) f k p q h c = Mindful->>= m f k p q h c
  Mindful->>= hang f k p q h c = h
  Mindful->>= fault f k p q h c = tt
  Mindful->>= tired f k p q h c = tt

  pub Mindful-at :
      {A : Type 0} (size : ℕ) (i : ℤ) (f : ℕ → Prog A) (k : Known) (q : A → Type 0)
      → ((j : ℕ) → i ≡ pos j → j < size → Mindful k (f j) q)
      → Mindful k (at size i >>= f) q
  Mindful-at size (negsuc i) f k q h = tt
  Mindful-at size (pos i) f k q h = elim (Bool-cases (ltb i size)) [
    | inl e ↦ rw e (h i refl (ltb→lt i size e))
    | inr e ↦ rw e tt
  ]

  -- A message that is announced is there.
  abbrev pub Announced : World → Type 0
  Announced w = (s : ℕ) (x : Message) → announces s x ≡ true → (w.sem s ≡ 0) ⊎ Says n x w.full

  -- After an action: what is left of the program is mindful of what it then knows, and no message is lost.
  abbrev pub Goes : {A : Type 0} → World → (A → Type 0) → Prog A × World → Type 0
  Goes w p (m, v) =
      (k : Known) × Mindful k m p
      × ((x : Message) → Told (k x) x v.full)
      × ((x : Message) → Says n x w.full → Says n x v.full)
      × Announced v

  some-Goes :
      {A : Type 0} (w : World) (p : A → Type 0) (x y : Prog A × World)
      → Goes w p x
      → some x ≡ some y
      → Goes w p y
  some-Goes w p x y h e = subst (Goes w p) (some-injective x y e) h

  learned :
      (k : Known) (s : ℕ) (w : World)
      → Announced w
      → w.sem s ≢ 0
      → ((x : Message) → Told (k x) x w.full)
      → (x : Message) → Told (learn k s x) x w.full
  learned k s w a more t x = elim (Bool-cases (k x)) [
    | inl e ↦ rw e (rw e at (t x))
    | inr e ↦ rw e (elim (Bool-cases (announces s x)) [
      | inl g ↦ rw g (elim (a s x g) [ inl z ↦ absurd (more z) | inr m ↦ m ])
      | inr g ↦ rw g tt
    ])
  ]

  down-Announced :
      (w : World) (s : ℕ)
      → Announced w
      → Announced (record w { sem = update w.sem s (w.sem s - 1) })
  down-Announced w s a = λ t x g. elim (a t x g) [ inl z ↦ inl (ground arith) | inr m ↦ inr m ]

  up-Announced :
      (k : Known) (w : World) (s : ℕ)
      → Announced w
      → ((x : Message) → announces s x ≡ true → k x ≡ true)
      → ((x : Message) → Told (k x) x w.full)
      → Announced (record w { sem = update w.sem s (w.sem s + 1) })
  up-Announced k w s a h told = λ t x g. elim (Bool-cases (s == t)) [
    | inl same ↦
        let same_sem : s ≡ t = (==_iff s t).0 same in
        let known = h x (subst (λ u. announces u x ≡ true) (sym same_sem) g) in
        inr (rw known at (told x))
    | inr other ↦ rw other (a t x g)
  ]

  pub act-Mindful :
      {A : Type 0} (m : Prog A) (w : World) (k : Known) (p : A → Type 0) (y : Prog A × World)
      → Mindful k m p
      → ((x : Message) → Told (k x) x w.full)
      → Announced w
      → act m w ≡ some y
      → Goes w p y
  unfolding act
  act-Mindful (down s m) w k p y h t a e = elim (Bool-cases (w.sem s == 0)) [
    | inl none ↦ ground arith
    | inr more ↦
        let some_left : w.sem s ≢ 0 = ground arith in
        some-Goes w p (m, record w { sem = update w.sem s (w.sem s - 1) }) y
          (learn k s, h, learned k s w a some_left t, (λ x c. c), down-Announced w s a)
          (rw (more, act) at e)
  ]
  act-Mindful (up s m) w k p y h t a e =
      some-Goes w p (m, record w { sem = update w.sem s (w.sem s + 1) }) y
        (k, h.1, t, (λ x c. c), up-Announced k w s a h.0 t) e
  act-Mindful (fetch m) w k p y h t a e =
      some-Goes w p (m w.full, w) y (k, h w.full t, t, (λ x c. c), a) e
  act-Mindful (store g m) w k p y h t a e =
      some-Goes w p (m, record w { full = g w.full }) y
        (
          h.0,
          h.2,
          (λ x. (h.1 w.full t x).0),
          (λ x. (h.1 w.full t x).1),
          (λ s x c. elim (a s x c) [ inl z ↦ inl z | inr v ↦ inr ((h.1 w.full t x).1 v) ]),
        )
        e
  act-Mindful (save m) w k p y h t a e =
      some-Goes w p (m, record w { log = w.log ++ save_state w.full }) y (k, h, t, (λ x c. c), a) e
  act-Mindful (nap m) w k p y h t a e = some-Goes w p (m, w) y (k, h, t, (λ x c. c), a) e
  act-Mindful (ret r) w k p y h t a e = ground arith
  act-Mindful hang w k p y h t a e = ground arith
  act-Mindful fault w k p y h t a e = ground arith
  act-Mindful tired w k p y h t a e = ground arith
