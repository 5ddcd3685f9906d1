-- ===== src/Receptionist/Tables.antt =====
-- The tables in `status`, `n_occupied` and `next_table`: what the two helpers and
-- `decideTableOrWait` do to them and read from them.
use so2023_trabalho.Base.{
  ℕ, ◌+◌, ◌-◌, ◌%◌, ◌^◌, ◌<◌, bit_and, bit_or, ◌≡◌, ◌≢◌, refl, ◌⊎◌, inl, inr, Bool, true, false,
  not, ◌==◌, if◌then◌else◌, ℤ, pos, minus_one, arith, all_below, all_below_sound, bool_eq,
  bool_eq_sound, Bool-cases, ltb, ltb→lt,
}
use so2023_trabalho.Receptionist.{
  Record, is_table_occupied, set_table_occupied, decide_table_or_wait,
}

-- The bit of table `t` in a status word.
abbrev bit : ℕ → ℕ → Bool
bit s t = not (bit_and s (2 ^ t) == 0)

abbrev count : Bool → ℕ
count true = 1
count false = 0

-- Over the 4 status words and the 2 tables, every law is checked by evaluation.
check₃ : (ℕ → ℕ → ℕ → Bool) → Bool
unfolding all_below
check₃ p = all_below 4 (λ s. all_below 2 (λ t. all_below 2 (p s t)))

check₃_sound :
    (p : ℕ → ℕ → ℕ → Bool) → check₃ p ≡ true → (s t j : ℕ) → s < 4 → t < 2 → j < 2 → p s t j ≡ true
unfolding check₃
check₃_sound p h s t j hs ht hj =
    let at_s = all_below_sound 4 (λ s. all_below 2 (λ t. all_below 2 (p s t))) h s hs in
    let at_t = all_below_sound 2 (λ t. all_below 2 (p s t)) at_s t ht in
    all_below_sound 2 (p s t) at_t j hj

bit-set :
    (s t j : ℕ)
    → s < 4
    → t < 2
    → j < 2
    → bit (bit_or s (2 ^ t)) j ≡ (if t == j then true else bit s j)
unfolding check₃ bool_eq
bit-set s t j hs ht hj = bool_eq_sound _ _ (
    check₃_sound (λ s t j. bool_eq (bit (bit_or s (2 ^ t)) j) (if t == j then true else bit s j))
      refl s t j hs ht hj)

bit-clear :
    (s t j : ℕ)
    → s < 4
    → t < 2
    → j < 2
    → bit (bit_and s (2 ^ 32 - 1 - 2 ^ t)) j ≡ (if t == j then false else bit s j)
unfolding check₃ bool_eq
bit-clear s t j hs ht hj = bool_eq_sound _ _ (
    check₃_sound
      (λ s t j.
        bool_eq (bit (bit_and s (2 ^ 32 - 1 - 2 ^ t)) j) (if t == j then false else bit s j))
      refl s t j hs ht hj)

words_lt : (s t : ℕ) → s < 4 → t < 2 → (bit_or s (2 ^ t) < 4) × (bit_and s (2 ^ 32 - 1 - 2 ^ t) < 4)
unfolding check₃
words_lt s t hs ht = (
  ltb→lt _ 4 (check₃_sound (λ s t j. ltb (bit_or s (2 ^ t)) 4) refl s t 0 hs ht (omega arith)),
  ltb→lt _ 4 (
      check₃_sound (λ s t j. ltb (bit_and s (2 ^ 32 - 1 - 2 ^ t)) 4) refl s t 0 hs ht
        (omega arith)),
)

-- `n_occupied` counts the bits of `status`, and `next_table` is a table.
pub record IsTables (r : Record) : Type 0 where
  pub small : r.status < 4
  pub counted : r.n_occupied ≡ count (is_table_occupied r 0) + count (is_table_occupied r 1)
  pub next_lt : r.next_table < 2

module _ {r : Record} (v : IsTables r) (t : ℕ) (lt : t < 2) where
  pub occupied-set :
      (j : ℕ)
      → j < 2
      → is_table_occupied (set_table_occupied r t true) j
        ≡ (if t == j then true else is_table_occupied r j)
  unfolding is_table_occupied set_table_occupied
  occupied-set j h = bit-set r.status t j v.small lt h

  pub occupied-clear :
      (j : ℕ)
      → j < 2
      → is_table_occupied (set_table_occupied r t false) j
        ≡ (if t == j then false else is_table_occupied r j)
  unfolding is_table_occupied set_table_occupied
  occupied-clear j h = bit-clear r.status t j v.small lt h

  set-counted :
      is_table_occupied r t ≡ false
      → (r.n_occupied + 1) % 256
        ≡ count (is_table_occupied (set_table_occupied r t true) 0)
          + count (is_table_occupied (set_table_occupied r t true) 1)
  set-counted free =
      rw (occupied-set 0 (omega arith), occupied-set 1 (omega arith)) (ground (arith, v.counted))

  -- A free table that is taken is counted, and the one after it is looked at first.
  pub set-IsTables : is_table_occupied r t ≡ false → IsTables (set_table_occupied r t true)
  unfolding set_table_occupied
  set-IsTables free = record {
    small = (words_lt r.status t v.small lt).0;
    counted = set-counted free;
    next_lt = omega arith;
  }

  clear-counted :
      is_table_occupied r t ≡ true
      → (r.n_occupied + 255) % 256
        ≡ count (is_table_occupied (set_table_occupied r t false) 0)
          + count (is_table_occupied (set_table_occupied r t false) 1)
  clear-counted taken =
      rw (occupied-clear 0 (omega arith), occupied-clear 1 (omega arith))
        (ground (arith, v.counted))

  -- So is a table that is given back.
  pub clear-IsTables : is_table_occupied r t ≡ true → IsTables (set_table_occupied r t false)
  unfolding set_table_occupied
  clear-IsTables taken = record {
    small = (words_lt r.status t v.small lt).1;
    counted = clear-counted taken;
    next_lt = v.next_lt;
  }

-- A decision that is right for the tables: -1 where all of them are taken, and otherwise the first
-- free table from `next_table` on.
abbrev pub IsDecision : Record → ℤ → Type 0
IsDecision r d =
    ((d ≡ minus_one) × (is_table_occupied r 0 ≡ true) × (is_table_occupied r 1 ≡ true))
    ⊎ ((t : ℕ) × (d ≡ pos t)
        × (t < 2)
        × (is_table_occupied r t ≡ false)
        × (t ≢ r.next_table → is_table_occupied r r.next_table ≡ true))

scan-IsDecision :
    (r : Record) (n : ℤ) (a b : ℕ)
    → r.next_table ≡ a
    → b ≡ 1 - a
    → a < 2
    → r.n_occupied ≡ count (is_table_occupied r a) + count (is_table_occupied r b)
    → IsDecision r (decide_table_or_wait r n)
unfolding decide_table_or_wait
scan-IsDecision r n a b e eb lt c = elim (Bool-cases (is_table_occupied r a)) [
  | inl x ↦ elim (Bool-cases (is_table_occupied r b)) [
    | inl y ↦ inl (ground arith, ground arith, ground arith)
    | inr y ↦ inr (b, ground arith, ground arith, ground arith, ground arith)
  ]
  | inr x ↦ inr (a, ground arith, ground arith, ground arith, ground arith)
]

-- The decision of the receptionist is right.
pub decide-IsDecision : (r : Record) (n : ℤ) → IsTables r → IsDecision r (decide_table_or_wait r n)
decide-IsDecision r n v = elim (Bool-cases (r.next_table == 0)) [
  | inl e ↦ scan-IsDecision r n 0 1 (ground arith) (omega arith) (omega arith) v.counted
  | inr e ↦
      scan-IsDecision r n 1 0 (ground (arith, v.next_lt)) (omega arith) (omega arith)
        (omega (arith, v.counted))
]
