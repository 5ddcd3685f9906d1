-- ===== src/Numerals/Reads.antt =====
-- What is printed by `%d` is read back.
use so2023_trabalho.Base.{
  ℕ, suc, zero, ◌+◌, ◌*◌, ◌/◌, ◌%◌, ◌^◌, ◌≤◌, ◌<◌, ◌≡◌, refl, ◌∙◌, ap, sym, false, Bool-cases, inl,
  inr, ltb, ltb→lt, lt→ltb, ◌==◌, Option, some, List, [], ◌∷◌, ◌++◌, ℤ, pos, negsuc, arith,
}
use mathlib.Core.List.{append-nil}
use so2023_trabalho.Logging.{digits_from, show_nat, show_int}
use so2023_trabalho.Numerals.{
  is_space, skip_space, digit_of, number, magnitude, decimal, signed, clamp_long, strtol,
  int_of_long, stored_int, scan_int,
}

-- The text ends, or goes on with something that is not a decimal digit.
abbrev pub Stops : List ℕ → Type 0
Stops [] = Unit
Stops (c ∷ s) = 10 ≤ digit_of c

digit-value : (d : ℕ) → d < 10 → digit_of (b'0' + d) ≡ d
unfolding digit_of
digit-value d h = ground arith

-- One digit more.
number_last :
    (acc d : ℕ) (s : List ℕ) → d < 10 → number 10 acc ((b'0' + d) ∷ s) ≡ number 10 (acc * 10 + d) s
unfolding number
number_last acc d s h = rw (digit-value d h, lt→ltb d 10 h) refl

number-digits : (f n : ℕ) (s : List ℕ) → n < f → number 10 0 (digits_from f n s) ≡ number 10 n s
unfolding digits_from
number-digits zero n s h = absurd (omega arith)
number-digits (suc f) n s h = elim (Bool-cases (ltb n 10)) [
  | inl e ↦ rw e (
      number_last 0 (n % 10) s (omega arith)
      ∙ ap (λ k. number 10 k s) (omega (arith, ltb→lt n 10 e)))
  | inr e ↦ rw e (
      number-digits f (n / 10) ((b'0' + n % 10) ∷ s) (ground arith)
      ∙ number_last (n / 10) (n % 10) s (omega arith)
      ∙ ap (λ k. number 10 k s) (omega arith))
]

number-Stops : (n : ℕ) (s : List ℕ) → Stops s → number 10 n s ≡ (n, s)
unfolding number
number-Stops n [] h = refl
number-Stops n (c ∷ s) h = ground arith

digits-append : (f n : ℕ) (s r : List ℕ) → digits_from f n (s ++ r) ≡ digits_from f n s ++ r
unfolding digits_from
digits-append zero n s r = refl
digits-append (suc f) n s r = elim (Bool-cases (ltb n 10)) [
  | inl e ↦ rw e refl
  | inr e ↦ rw e (digits-append f (n / 10) ((b'0' + n % 10) ∷ s) r)
]

pub number-show_nat : (n : ℕ) (r : List ℕ) → Stops r → number 10 0 (show_nat n ++ r) ≡ (n, r)
unfolding show_nat
number-show_nat n r h =
    ap (number 10 0) (sym (digits-append (suc n) n [] r))
    ∙ number-digits (suc n) n r (omega arith)
    ∙ number-Stops n r h

-- The first digit of a number that is not 0.
first_digit :
    (f n : ℕ) (s : List ℕ)
    → n < f
    → 0 < n
    → (d : ℕ) × (t : List ℕ) × (1 ≤ d) × (d < 10) × (digits_from f n s ≡ (b'0' + d) ∷ t)
unfolding digits_from
first_digit zero n s h some_n = absurd (omega arith)
first_digit (suc f) n s h some_n = elim (Bool-cases (ltb n 10)) [
  | inl e ↦ (n % 10, s, ground arith, omega arith, rw e refl)
  | inr e ↦ rw e (first_digit f (n / 10) ((b'0' + n % 10) ∷ s) (ground arith) (ground arith))
]

first_of_nat :
    (n : ℕ) → 0 < n → (d : ℕ) × (t : List ℕ) × (1 ≤ d) × (d < 10) × (show_nat n ≡ (b'0' + d) ∷ t)
unfolding show_nat
first_of_nat n h = first_digit (suc n) n [] (omega arith) h

-- A digit is no space and no sign.
plain_digit :
    (d : ℕ)
    → d < 10
    → (is_space (b'0' + d) ≡ false) × ((b'0' + d == b'-') ≡ false) × ((b'0' + d == b'+') ≡ false)
unfolding is_space
plain_digit d h = (ground arith, ground arith, ground arith)

decimal_digit :
    (d : ℕ) (t : List ℕ) → d < 10 → decimal ((b'0' + d) ∷ t) ≡ some (number 10 0 ((b'0' + d) ∷ t))
unfolding decimal
decimal_digit d t h = rw (digit-value d h, lt→ltb d 10 h) refl

magnitude_digit :
    (d : ℕ) (t : List ℕ)
    → 1 ≤ d
    → d < 10
    → magnitude ((b'0' + d) ∷ t) ≡ some (number 10 0 ((b'0' + d) ∷ t))
unfolding magnitude
magnitude_digit d t low h =
    let not_zero : (b'0' + d == b'0') ≡ false = ground arith in
    rw (not_zero, digit-value d h, lt→ltb d 10 h) refl

-- The two readers of digits, at a number that is printed.
pub decimal-show_nat : (n : ℕ) (r : List ℕ) → Stops r → decimal (show_nat n ++ r) ≡ some (n, r)
unfolding show_nat
decimal-show_nat zero r h = decimal_digit 0 r (omega arith) ∙ ap some (number-show_nat 0 r h)
decimal-show_nat (suc n) r h =
    let (d, t, low, high, e) = first_of_nat (suc n) (omega arith) in
    let e' : show_nat (suc n) ++ r ≡ (b'0' + d) ∷ (t ++ r) = ap (λ x. x ++ r) e in
    ap decimal e'
    ∙ decimal_digit d (t ++ r) high
    ∙ ap some (ap (number 10 0) (sym e') ∙ number-show_nat (suc n) r h)

magnitude_zero : magnitude (b'0' ∷ []) ≡ some (0, [])
unfolding magnitude
magnitude_zero = refl

pub magnitude-show_nat : (n : ℕ) → magnitude (show_nat n) ≡ some (n, [])
unfolding show_nat
magnitude-show_nat zero = magnitude_zero
magnitude-show_nat (suc n) =
    let (d, t, low, high, e) = first_of_nat (suc n) (omega arith) in
    ap magnitude e
    ∙ magnitude_digit d t low high
    ∙ ap some (
        ap (number 10 0) (sym e)
        ∙ ap (number 10 0) (sym (append-nil (show_nat (suc n))))
        ∙ number-show_nat (suc n) [] tt)

nat_shape : (n : ℕ) → (d : ℕ) × (t : List ℕ) × (d < 10) × (show_nat n ≡ (b'0' + d) ∷ t)
unfolding show_nat
nat_shape zero = (0, [], omega arith, refl)
nat_shape (suc n) = let (d, t, low, high, e) = first_of_nat (suc n) (omega arith) in (d, t, high, e)

module _ (digits : List ℕ → Option (ℕ × List ℕ)) (r : List ℕ) where
  -- A text that begins with a digit has no sign and no space before it.
  signed_digit :
      (d : ℕ) (t : List ℕ) (n : ℕ)
      → d < 10
      → digits ((b'0' + d) ∷ t) ≡ some (n, r)
      → (signed digits ((b'0' + d) ∷ t) ≡ some (pos n, r))
        × (skip_space ((b'0' + d) ∷ t) ≡ (b'0' + d) ∷ t)
  unfolding signed skip_space
  signed_digit d t n h e =
      let (blank, minus, plus) = plain_digit d h in (rw (minus, plus, e) refl, rw blank refl)

  signed_minus :
      (t : List ℕ) (n : ℕ)
      → digits t ≡ some (suc n, r)
      → (signed digits (b'-' ∷ t) ≡ some (negsuc n, r)) × (skip_space (b'-' ∷ t) ≡ b'-' ∷ t)
  unfolding signed skip_space
  signed_minus t n e = (rw e refl, refl)

  -- A printed number is read back by a reader that reads back what is printed of naturals.
  signed-show_int :
      (x : ℤ)
      → ((n : ℕ) → digits (show_nat n ++ r) ≡ some (n, r))
      → (signed digits (show_int x ++ r) ≡ some (x, r))
        × (skip_space (show_int x ++ r) ≡ show_int x ++ r)
  unfolding show_int
  signed-show_int (pos n) reads =
      let (d, t, h, e) = nat_shape n in
      let e' : show_nat n ++ r ≡ (b'0' + d) ∷ (t ++ r) = ap (λ x. x ++ r) e in
      let (a, b) = signed_digit d (t ++ r) n h (ap digits (sym e') ∙ reads n) in
      (ap (signed digits) e' ∙ a, ap skip_space e' ∙ b ∙ sym e')
  signed-show_int (negsuc n) reads =
      let next : n + 1 ≡ suc n = omega arith in
      signed_minus (show_nat (n + 1) ++ r) n (reads (n + 1) ∙ ap (λ k. some (k, r)) next)

-- A printed number is read by `%d` of `fscanf`, up to what follows.
pub scan_int-show_int :
    (x : ℤ) (r : List ℕ) → Stops r → scan_int (show_int x ++ r) ≡ some (stored_int x, r)
unfolding scan_int
scan_int-show_int x r h =
    let (a, b) = signed-show_int decimal r x (λ n. decimal-show_nat n r h) in
    let read : signed decimal (skip_space (show_int x ++ r)) ≡ some (x, r) =
      ap (signed decimal) b ∙ a in
    rw (scan_int, read) refl

-- An `int` of 32 bits.
abbrev pub IsInt : ℤ → Type 0
IsInt (pos m) = m < 2 ^ 31
IsInt (negsuc m) = m < 2 ^ 31

clamp_int : (x : ℤ) → IsInt x → clamp_long x ≡ x
clamp_int (pos m) h = ground arith
clamp_int (negsuc m) h = ground arith

pub int_of_int : (x : ℤ) → IsInt x → int_of_long x ≡ x
int_of_int (pos m) h = ground arith
int_of_int (negsuc m) h = ground arith

pub stored-int : (x : ℤ) → IsInt x → stored_int x ≡ x
stored-int x h = ap int_of_long (clamp_int x h) ∙ int_of_int x h

pub strtol-show_int : (x : ℤ) → IsInt x → strtol (show_int x) ≡ (x, [])
unfolding strtol
strtol-show_int x h =
    let (a, b) =
      signed-show_int magnitude [] x
        (λ n. ap magnitude (append-nil (show_nat n)) ∙ magnitude-show_nat n) in
    let read : signed magnitude (skip_space (show_int x)) ≡ some (x, []) =
      ap (λ t. signed magnitude (skip_space t)) (sym (append-nil (show_int x)))
      ∙ ap (signed magnitude) b
      ∙ a in
    rw (read, strtol) (ap (λ v. (v, [])) (clamp_int x h))
