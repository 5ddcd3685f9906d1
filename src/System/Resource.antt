-- ===== src/System/Resource.antt =====
-- A resource that one process at a time can hold, by the actions of the programs on its semaphores.
use so2023_trabalho.Base.{
  ℕ, ◌+◌, ◌-◌, ◌≡◌, ◌≢◌, refl, ◌⊎◌, inl, inr, Bool, true, false, if◌then◌else◌, update, ℤ, pos,
  negsuc, ltb, Bool-cases, ◌==◌, ◌++◌, some, arith,
}
use so2023_trabalho.Shared.{FullStat}
use mathlib.Core.Path.{subst}
use mathlib.Core.Option.{some-injective}
use so2023_trabalho.Logging.{save_state}
use so2023_trabalho.System.{act}
use so2023_trabalho.Prog.{
  Prog, ret, down, up, fetch, store, save, nap, hang, fault, tired, ◌>>=◌, at, World,
}

-- `inside` marks its semaphores: a `down` on one takes the resource, an `up` on one gives it back.
-- `load` adds up their values. `Free` holds of the assignments, and `FreeSave` of saving, where they
-- may be made without the resource.
pub record Resource : Type 1 where
  pub inside : ℕ → Bool
  pub load : (ℕ → ℕ) → ℕ
  pub Free : (FullStat → FullStat) → Type 0
  pub FreeSave : Type 0
  pub load-down :
      (sem : ℕ → ℕ) (s : ℕ)
      → sem s ≢ 0
      → load sem ≡ load (update sem s (sem s - 1)) + (if inside s then 1 else 0)
  pub load-up :
      (sem : ℕ → ℕ) (s : ℕ)
      → load (update sem s (sem s + 1)) ≡ load sem + (if inside s then 1 else 0)

module _ (r : Resource) where
  open r use {inside, Free, FreeSave}

  -- A program that begins with (`true`) or without the resource and ends as `c` says. It takes the
  -- resource only without it, gives it back only with it, makes no guarded assignment without it, and
  -- waits on no semaphore with it.
  abbrev pub Sound : {A : Type 0} → Bool → Prog A → Bool → Type 0
  Sound b (ret a) c = b ≡ c
  Sound b (down s k) c = (b ≡ false) × Sound (inside s) k c
  Sound b (up s k) c =
      (if inside s then b ≡ true else Unit) × Sound (if inside s then false else b) k c
  Sound b (fetch k) c = (s : FullStat) → Sound b (k s) c
  Sound b (store f k) c = ((b ≡ true) ⊎ Free f) × Sound b k c
  Sound b (save k) c = ((b ≡ true) ⊎ FreeSave) × Sound b k c
  Sound b (nap k) c = Sound b k c
  Sound b hang c = Unit
  Sound b fault c = Unit
  Sound b tired c = Unit

  pub Sound->>= :
      {A B : Type 0} (m : Prog A) (f : A → Prog B) (b c d : Bool)
      → Sound b m c
      → ((a : A) → Sound c (f a) d)
      → Sound b (m >>= f) d
  Sound->>= (ret a) f b c d h k = rw h (k a)
  Sound->>= (down s m) f b c d h k = (h.0, Sound->>= m f (inside s) c d h.1 k)
  Sound->>= (up s m) f b c d h k = (h.0, Sound->>= m f (if inside s then false else b) c d h.1 k)
  Sound->>= (fetch m) f b c d h k = λ s. Sound->>= (m s) f b c d (h s) k
  Sound->>= (store g m) f b c d h k = (h.0, Sound->>= m f b c d h.1 k)
  Sound->>= (save m) f b c d h k = (h.0, Sound->>= m f b c d h.1 k)
  Sound->>= (nap m) f b c d h k = Sound->>= m f b c d h k
  Sound->>= hang f b c d h k = tt
  Sound->>= fault f b c d h k = tt
  Sound->>= tired f b c d h k = tt

  -- An access to an array neither takes the resource nor gives it back.
  pub Sound-at :
      {A : Type 0} (size : ℕ) (i : ℤ) (f : ℕ → Prog A) (b c : Bool)
      → ((j : ℕ) → Sound b (f j) c)
      → Sound b (at size i >>= f) c
  Sound-at size (negsuc i) f b c h = tt
  Sound-at size (pos i) f b c h = elim (Bool-cases (ltb i size)) [
    | inl e ↦ rw e (h i)
    | inr e ↦ rw e tt
  ]

  pub Sound-if :
      {A : Type 0} (t : Bool) (p q : Prog A) (b c : Bool)
      → Sound b p c
      → Sound b q c
      → Sound b (if t then p else q) c
  Sound-if true p q b c h k = h
  Sound-if false p q b c h k = k

  -- A semaphore of another resource.
  pub Sound-down :
      {A : Type 0} (s : ℕ) (k : Prog A) (c : Bool)
      → inside s ≡ false
      → Sound false k c
      → Sound false (down s k) c
  Sound-down s k c e h = (refl, rw e h)

  pub Sound-up :
      {A : Type 0} (s : ℕ) (k : Prog A) (b c : Bool)
      → inside s ≡ false
      → Sound b k c
      → Sound b (up s k) c
  Sound-up s k b c e h = (rw e tt, rw e h)

  -- What one action does to the resource: the process keeps it, takes it where its load was not 0, or
  -- gives it back.
  abbrev pub weight : Bool → ℕ
  weight b = if b then 1 else 0

  abbrev pub Keeps : {A : Type 0} → World → Bool → Bool → Prog A × World → Type 0
  Keeps w b c (q, v) =
      (d : Bool) × Sound d q c × (r.load v.sem + weight d ≡ r.load w.sem + weight b)

  some-Keeps :
      {A : Type 0} (w : World) (b c : Bool) (x y : Prog A × World)
      → Keeps w b c x
      → some x ≡ some y
      → Keeps w b c y
  some-Keeps w b c x y h e = subst (Keeps w b c) (some-injective x y e) h

  weight_up :
      (t b : Bool)
      → (if t then b ≡ true else Unit)
      → weight (if t then false else b) + weight t ≡ weight b
  weight_up true b h = rw h refl
  weight_up false b h = omega arith

  down-load :
      (w : World) (s : ℕ) (b : Bool)
      → b ≡ false
      → w.sem s ≢ 0
      → r.load (update w.sem s (w.sem s - 1)) + weight (inside s) ≡ r.load w.sem + weight b
  down-load w s b e more = rw e (omega (arith, r.load-down w.sem s more))

  pub act-Keeps :
      {A : Type 0} (p : Prog A) (w : World) (b c : Bool) (y : Prog A × World)
      → Sound b p c
      → act p w ≡ some y
      → Keeps w b c y
  unfolding act
  act-Keeps (down s k) w b c y h e = elim (Bool-cases (w.sem s == 0)) [
    | inl none ↦ ground arith
    | inr more ↦
        some-Keeps w b c (k, record w { sem = update w.sem s (w.sem s - 1) }) y
          (inside s, h.1, down-load w s b h.0 (ground arith)) (rw (more, act) at e)
  ]
  act-Keeps (up s k) w b c y h e =
      some-Keeps w b c (k, record w { sem = update w.sem s (w.sem s + 1) }) y
        (
          (if inside s then false else b),
          h.1,
          omega (arith, r.load-up w.sem s, weight_up (inside s) b h.0),
        )
        e
  act-Keeps (fetch k) w b c y h e = some-Keeps w b c (k w.full, w) y (b, h w.full, refl) e
  act-Keeps (store f k) w b c y h e =
      some-Keeps w b c (k, record w { full = f w.full }) y (b, h.1, refl) e
  act-Keeps (save k) w b c y h e =
      some-Keeps w b c (k, record w { log = w.log ++ save_state w.full }) y (b, h.1, refl) e
  act-Keeps (nap k) w b c y h e = some-Keeps w b c (k, w) y (b, h, refl) e
  act-Keeps (ret a) w b c y h e = cc
  act-Keeps hang w b c y h e = cc
  act-Keeps fault w b c y h e = cc
  act-Keeps tired w b c y h e = cc
