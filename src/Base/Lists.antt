-- ===== src/Base/Lists.antt =====
-- Lists measured by native numbers, under the library's names.
use Prim.Native.Nat.{ℕ, zero, suc, ◌+◌, ◌-◌}
use mathlib.Core.Path.{◌≡◌, refl}
use mathlib.Core.List.{List, [], ◌∷◌, ◌++◌}
use native.Mathlib.Omega.{arith}

sub_suc : (k m : ℕ) → suc k - suc m ≡ k - m
sub_suc k m = omega arith

module _ {ℓ} {A : Type ℓ} where
  abbrev pub length : List A → ℕ
  length [] = 0
  length (x ∷ xs) = suc (length xs)

  pub length-append : (xs ys : List A) → length (xs ++ ys) ≡ length xs + length ys
  length-append [] ys = omega arith
  length-append (x ∷ xs) ys = omega (arith, length-append xs ys)

  abbrev pub take : ℕ → List A → List A
  take zero xs = []
  take (suc n) [] = []
  take (suc n) (x ∷ xs) = x ∷ take n xs

  abbrev pub drop : ℕ → List A → List A
  drop zero xs = xs
  drop (suc n) [] = []
  drop (suc n) (x ∷ xs) = drop n xs

  pub length-drop : (n : ℕ) (xs : List A) → length (drop n xs) ≡ length xs - n
  length-drop zero xs = omega arith
  length-drop (suc n) [] = omega arith
  length-drop (suc n) (x ∷ xs) = omega (arith, length-drop n xs)

  abbrev pub replicate : ℕ → A → List A
  replicate zero a = []
  replicate (suc n) a = a ∷ replicate n a

  pub drop-replicate-append :
      (k m : ℕ) (a : A) (xs : List A)
      → drop k (replicate m a ++ xs) ≡ replicate (m - k) a ++ drop (k - m) xs
  drop-replicate-append zero zero a xs = refl
  drop-replicate-append zero (suc m) a xs =
      let none : 0 - suc m ≡ 0 = omega arith in
      let all : suc m - 0 ≡ suc m = omega arith in rw (none, all)
  drop-replicate-append (suc k) zero a xs =
      let none : 0 - suc k ≡ 0 = omega arith in
      let all : suc k - 0 ≡ suc k = omega arith in rw (none, all)
  drop-replicate-append (suc k) (suc m) a xs =
      rw (sub_suc k m, sub_suc m k) (drop-replicate-append k m a xs)

  -- Dropping one more, of a list that has one more at its end.
  pub drop-suc-append :
      (k : ℕ) (xs : List A) (a x : A) (ys : List A)
      → drop k xs ≡ x ∷ ys
      → drop (suc k) (xs ++ a ∷ []) ≡ ys ++ a ∷ []
  drop-suc-append zero [] a x ys e = cc
  drop-suc-append zero (z ∷ xs) a x ys e = ground arith
  drop-suc-append (suc k) [] a x ys e = cc
  drop-suc-append (suc k) (z ∷ xs) a x ys e = drop-suc-append k xs a x ys e
