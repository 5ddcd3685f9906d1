-- ===== src/Logging/Plain.antt =====
-- The numbers that src/logging.c prints are ASCII, and stay in their line.
use so2023_trabalho.Base.{
  ℕ, zero, suc, ◌+◌, ◌/◌, ◌%◌, ◌<◌, ◌≢◌, Bool, true, not, ◌&&◌, ◌==◌, ◌≡◌, Bool-cases, inl, inr,
  ltb, List, [], ◌∷◌, ◌++◌, take, replicate, ℤ, pos, negsuc, arith,
}
use so2023_trabalho.Logging.{digits_from, show_nat, show_int}

abbrev pub newline : ℕ
newline = b'\n'

-- ASCII, without the end of a line.
abbrev pub IsPlain : List ℕ → Type 0
IsPlain [] = Unit
IsPlain (c ∷ s) = (c < 128) × (c ≢ newline) × IsPlain s

-- The test for a text that is at hand.
abbrev pub is_plain : List ℕ → Bool
is_plain [] = true
is_plain (c ∷ s) = ltb c 128 && not (c == newline) && is_plain s

pub plain : (s : List ℕ) → is_plain s ≡ true → IsPlain s
plain [] h = tt
plain (c ∷ s) h = (ground arith, ground arith, plain s (ground arith))

pub append-IsPlain : (s t : List ℕ) → IsPlain s → IsPlain t → IsPlain (s ++ t)
append-IsPlain [] t a b = b
append-IsPlain (c ∷ s) t a b = (a.0, a.1, append-IsPlain s t a.2 b)

pub take-IsPlain : (k : ℕ) (s : List ℕ) → IsPlain s → IsPlain (take k s)
take-IsPlain zero s h = tt
take-IsPlain (suc k) [] h = tt
take-IsPlain (suc k) (c ∷ s) h = (h.0, h.1, take-IsPlain k s h.2)

pub replicate-IsPlain : (k c : ℕ) → c < 128 → c ≢ newline → IsPlain (replicate k c)
replicate-IsPlain zero c a b = tt
replicate-IsPlain (suc k) c a b = (a, b, replicate-IsPlain k c a b)

digits-IsPlain : (f n : ℕ) (acc : List ℕ) → IsPlain acc → IsPlain (digits_from f n acc)
unfolding digits_from
digits-IsPlain zero n acc h = h
digits-IsPlain (suc f) n acc h =
    let fits : b'0' + n % 10 < 128 = omega arith in
    let one_line : b'0' + n % 10 ≢ newline = omega arith in
    let rest = digits-IsPlain f (n / 10) ((b'0' + n % 10) ∷ acc) (fits, one_line, h) in
    elim (Bool-cases (ltb n 10)) [ inl e ↦ rw e (fits, one_line, h) | inr e ↦ rw e rest ]

pub show_nat-IsPlain : (n : ℕ) → IsPlain (show_nat n)
unfolding show_nat
show_nat-IsPlain n = digits-IsPlain (suc n) n [] tt

pub show_int-IsPlain : (x : ℤ) → IsPlain (show_int x)
unfolding show_int
show_int-IsPlain (pos n) = show_nat-IsPlain n
show_int-IsPlain (negsuc n) = (omega arith, omega arith, show_nat-IsPlain (n + 1))
