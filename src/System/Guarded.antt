-- ===== src/System/Guarded.antt =====
-- What only the holder of a resource does, and what the holder of a resource can always do.
use so2023_trabalho.Base.{◌≡◌, refl, ◌⊎◌, inl, inr, Bool, true, false, some, arith}
use so2023_trabalho.Prog.{Prog, ret, down, up, fetch, store, save, nap, hang, fault, tired, World}
use so2023_trabalho.System.{act}
use so2023_trabalho.System.Resource.{Resource, Sound}

module _ (r : Resource) where
  -- The next action is one that asks for the resource: it gives it back, or makes what is guarded.
  abbrev pub Guarded : {A : Type 0} → Prog A → Type 0
  Guarded (up s k) = r.inside s ≡ true
  Guarded (store f k) = ¬ r.Free f
  Guarded (save k) = ¬ r.FreeSave
  Guarded _ = ⊥

  -- The program can make no further action whatever the others do: it sleeps for ever, is at an access
  -- out of an array, or has no fuel left.
  abbrev pub IsStuck : {A : Type 0} → Prog A → Type 0
  IsStuck hang = Unit
  IsStuck fault = Unit
  IsStuck tired = Unit
  IsStuck _ = ⊥

  pub Guarded-held : {A : Type 0} (p : Prog A) (b c : Bool) → Sound r b p c → Guarded p → b ≡ true
  Guarded-held (up s k) b c h g = rw g at h.0
  Guarded-held (store f k) b c (inl e, h) g = e
  Guarded-held (store f k) b c (inr free, h) g = absurd (g free)
  Guarded-held (save k) b c (inl e, h) g = e
  Guarded-held (save k) b c (inr free, h) g = absurd (g free)
  Guarded-held (ret _) b c h g = elim g [ ]
  Guarded-held (down _ _) b c h g = elim g [ ]
  Guarded-held (fetch _) b c h g = elim g [ ]
  Guarded-held (nap _) b c h g = elim g [ ]
  Guarded-held hang b c h g = elim g [ ]
  Guarded-held fault b c h g = elim g [ ]
  Guarded-held tired b c h g = elim g [ ]

  -- With the resource, a program never waits.
  pub holder_acts :
      {A : Type 0} (p : Prog A) (w : World)
      → Sound r true p false
      → ((y : Prog A × World) × (act p w ≡ some y)) ⊎ IsStuck p
  unfolding act
  holder_acts (ret a) w h = absurd (ground arith)
  holder_acts (down s k) w h = let (e, _) = h in absurd (ground arith)
  holder_acts (up s k) w h = inl (_, refl)
  holder_acts (fetch k) w h = inl (_, refl)
  holder_acts (store f k) w h = inl (_, refl)
  holder_acts (save k) w h = inl (_, refl)
  holder_acts (nap k) w h = inl (_, refl)
  holder_acts hang w h = inr tt
  holder_acts fault w h = inr tt
  holder_acts tired w h = inr tt
