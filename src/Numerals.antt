-- ===== src/Numerals.antt =====
-- The C library's readers of numbers, as src/semSharedMemGroup.c and its like call `strtol` with base 0,
-- and as src/probSemSharedMemRestaurant.c reads `%d`. A text is its bytes, without the end mark.
pub mod Reads
use so2023_trabalho.Base.{
  ℕ, suc, zero, ◌+◌, ◌-◌, ◌*◌, ◌%◌, ◌^◌, Bool, true, false, ◌&&◌, ◌||◌, ltb, leb, ◌==◌,
  if◌then◌else◌, Option, none, some, List, [], ◌∷◌, ℤ, pos, negsuc,
}

unfoldable pub is_space : ℕ → Bool
is_space c = c == b' ' || (leb 9 c && leb c 13)

unfoldable pub skip_space : List ℕ → List ℕ
unfolding is_space
skip_space [] = []
skip_space (c ∷ s) = if is_space c then skip_space s else c ∷ s

-- The value of a digit or letter; 99 for another character.
unfoldable pub digit_of : ℕ → ℕ
digit_of c =
    if leb b'0' c && leb c b'9'
    then c - b'0'
    else if leb b'a' c && leb c b'z'
    then c - b'a' + 10
    else if leb b'A' c && leb c b'Z'
    then c - b'A' + 10
    else 99

-- The digits below `base` at the front, read after the value `acc`.
unfoldable pub number : ℕ → ℕ → List ℕ → ℕ × List ℕ
unfolding digit_of
number base acc [] = (acc, [])
number base acc (c ∷ s) =
    if ltb (digit_of c) base then number base (acc * base + digit_of c) s else (acc, c ∷ s)

-- What follows a digit 0: `0x` starts a hexadecimal number, another 0 an octal one.
unfoldable pub after_zero : List ℕ → ℕ × List ℕ
unfolding number
after_zero (x ∷ h ∷ s) =
    if (x == b'x' || x == b'X') && ltb (digit_of h) 16
    then number 16 0 (h ∷ s)
    else number 8 0 (x ∷ h ∷ s)
after_zero s = number 8 0 s

-- The digits of a number in base 0; `none` where there are none.
unfoldable pub magnitude : List ℕ → Option (ℕ × List ℕ)
unfolding after_zero
magnitude [] = none
magnitude (c ∷ s) =
    if c == b'0'
    then some (after_zero s)
    else if ltb (digit_of c) 10
    then some (number 10 0 (c ∷ s))
    else none

-- The same in base 10.
unfoldable pub decimal : List ℕ → Option (ℕ × List ℕ)
unfolding number
decimal [] = none
decimal (c ∷ s) = if ltb (digit_of c) 10 then some (number 10 0 (c ∷ s)) else none

abbrev with_sign : Bool → Option (ℕ × List ℕ) → Option (ℤ × List ℕ)
with_sign minus none = none
with_sign true (some (zero, r)) = some (pos 0, r)
with_sign true (some (suc m, r)) = some (negsuc m, r)
with_sign false (some (m, r)) = some (pos m, r)

-- A sign, and then the digits.
unfoldable pub signed : (List ℕ → Option (ℕ × List ℕ)) → List ℕ → Option (ℤ × List ℕ)
signed digits [] = none
signed digits (c ∷ s) =
    if c == b'-'
    then with_sign true (digits s)
    else if c == b'+'
    then with_sign false (digits s)
    else with_sign false (digits (c ∷ s))

-- A `long` of 64 bits: `strtol` stops at its ends.
abbrev pub clamp_long : ℤ → ℤ
clamp_long (pos m) = pos (if ltb m (2 ^ 63) then m else 2 ^ 63 - 1)
clamp_long (negsuc m) = negsuc (if ltb m (2 ^ 63) then m else 2 ^ 63 - 1)

-- `strtol (text, &rest, 0)`: the value and the rest.
unfoldable pub strtol : List ℕ → ℤ × List ℕ
unfolding signed magnitude skip_space
strtol text = elim (signed magnitude (skip_space text)) [
  | none ↦ (pos 0, text)
  | some (v, r) ↦ (clamp_long v, r)
]

-- `(unsigned int)` of a `long`, stored in an `int`.
abbrev pub int_of_bits : ℕ → ℤ
int_of_bits u = if ltb u (2 ^ 31) then pos u else negsuc (2 ^ 32 - 1 - u)

abbrev pub int_of_long : ℤ → ℤ
int_of_long (pos m) = int_of_bits (m % 2 ^ 32)
int_of_long (negsuc m) = int_of_bits (2 ^ 32 - 1 - m % 2 ^ 32)

-- What an `int` keeps of a number that `%d` finds. The C standard leaves a number outside the range of `int`
-- undefined; the GNU library converts it as `strtol` does and stores the low 32 bits.
abbrev pub stored_int : ℤ → ℤ
stored_int v = int_of_long (clamp_long v)

-- `%d` of `fscanf`: `none` where it reads nothing.
unfoldable pub scan_int : List ℕ → Option (ℤ × List ℕ)
unfolding signed decimal skip_space
scan_int text = elim (signed decimal (skip_space text)) [
  | none ↦ none
  | some (v, r) ↦ some (stored_int v, r)
]
