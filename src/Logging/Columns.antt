-- ===== src/Logging/Columns.antt =====
-- src/logging.c: the columns of the log, and how long its lines are.
use so2023_trabalho.Base.{
  ℕ, zero, suc, ◌+◌, ◌-◌, ◌*◌, ◌/◌, ◌%◌, ◌≤◌, ◌<◌, ◌≡◌, refl, inl, inr, Bool-cases, ltb, lt→ltb, ℤ,
  pos, negsuc, List, [], ◌∷◌, ◌++◌, length, length-append, replicate, codes, arith,
}
use so2023_trabalho.Shared.{FullStat}
use so2023_trabalho.Logging.{
  digits_from, show_nat, show_int, pad_left, print_int, save_groups, save_table, save_tables,
  save_state, pad_zero, heads, print_header,
}

-- 10 to the power `k`.
abbrev pub tens : ℕ → ℕ
tens zero = 1
tens (suc k) = 10 * tens k

digits-length :
    (f k n : ℕ) (acc : List ℕ)
    → n < tens (suc k)
    → length (digits_from f n acc) ≤ length acc + suc k
unfolding digits_from
digits-length zero k n acc h = omega arith
digits-length (suc f) zero n acc h = let e = lt→ltb n 10 h in rw e (omega arith)
digits-length (suc f) (suc k) n acc h = elim (Bool-cases (ltb n 10)) [
  | inl e ↦ rw e (omega arith)
  | inr e ↦ rw e (omega (arith, digits-length f k (n / 10) ((48 + n % 10) ∷ acc) (omega arith)))
]

pub show_nat-length : (k n : ℕ) → n < tens (suc k) → length (show_nat n) ≤ suc k
unfolding show_nat
show_nat-length k n h = omega (arith, digits-length (suc n) k n [] h)

length-replicate : (k a : ℕ) → length (replicate k a) ≡ k
length-replicate zero a = refl
length-replicate (suc k) a = omega (arith, length-replicate k a)

pad_left-length : (w : ℕ) (xs : List ℕ) → length xs ≤ w → length (pad_left w xs) ≡ w
unfolding pad_left
pad_left-length w xs h = omega (
  arith,
  length-append (replicate (w - length xs) b' ') xs,
  length-replicate (w - length xs) b' ',
)

print-length : (k n : ℕ) → n < tens (suc k) → length (print_int (suc k) (pos n)) ≡ suc k
unfolding show_int
print-length k n h = pad_left-length (suc k) (show_nat n) (show_nat-length k n h)

groups-length :
    (k g : ℕ) (s : FullStat)
    → ((i : ℕ) → s.st.group_stat i < 10000)
    → length (save_groups k g s) ≡ 4 * k
unfolding save_groups
groups-length zero g s h = refl
groups-length (suc k) g s h = omega (
  arith,
  length-append (print_int 4 (pos (s.st.group_stat g))) (save_groups k (g + 1) s),
  print-length 3 (s.st.group_stat g) (h g),
  groups-length k (g + 1) s h,
)

-- No table, or one with at most four digits.
abbrev pub IsShortTable : ℤ → Type 0
IsShortTable (pos t) = t < 10000
IsShortTable (negsuc k) = k ≡ 0

table-length : (t : ℤ) → IsShortTable t → length (save_table t) ≡ 4
unfolding save_table
table-length (pos t) h = print-length 3 t h
table-length (negsuc zero) h = pad_left-length 4 (b'.' ∷ []) (omega arith)
table-length (negsuc (suc k)) h = absurd (omega arith)

tables-length :
    (k g : ℕ) (s : FullStat)
    → ((i : ℕ) → IsShortTable (s.assigned_table i))
    → length (save_tables k g s) ≡ 4 * k
unfolding save_tables
tables-length zero g s h = refl
tables-length (suc k) g s h = omega (
  arith,
  length-append (save_table (s.assigned_table g)) (save_tables k (g + 1) s),
  table-length (s.assigned_table g) (h g),
  tables-length k (g + 1) s h,
)

pad_zero-length : (n : ℕ) → n < 100 → length (pad_zero n) ≡ 2
unfolding pad_zero
pad_zero-length n h = omega (
  arith,
  length-append (replicate (2 - length (show_nat n)) b'0') (show_nat n),
  length-replicate (2 - length (show_nat n)) b'0',
  show_nat-length 1 n h,
)

heads-length : (letter k g : ℕ) → k + g ≤ 100 → length (heads letter k g) ≡ 4 * k
unfolding heads
heads-length letter zero g h = refl
heads-length letter (suc k) g h = omega (
  arith,
  length-append (pad_zero g) (heads letter k (g + 1)),
  pad_zero-length g (omega arith),
  heads-length letter k (g + 1) (omega arith),
)

-- The numbers of a state that are printed in three, four or five characters fit into them.
pub record IsShort (s : FullStat) : Type 0 where
  pub chef : s.st.chef_stat < 1000
  pub waiter : s.st.waiter_stat < 1000
  pub receptionist : s.st.receptionist_stat < 1000
  pub groups : (g : ℕ) → s.st.group_stat g < 10000
  pub waiting : s.groups_waiting < 100000
  pub tables : (g : ℕ) → IsShortTable (s.assigned_table g)

header-length : (s : FullStat) → s.n_groups ≤ 100 → length (print_header s) ≡ 16 + 8 * s.n_groups
unfolding print_header pad_left
header-length s h = omega (
  arith,
  length-append (heads b'G' s.n_groups 0)
      (pad_left 5 (codes "gWT") ++ (heads b'T' s.n_groups 0 ++ b'\n' ∷ [])),
  length-append (heads b'T' s.n_groups 0) (b'\n' ∷ []),
  heads-length b'G' s.n_groups 0 (omega arith),
  heads-length b'T' s.n_groups 0 (omega arith),
)

-- A line of seven parts, with one character after the third and one at the end.
line-length :
    (c w r g q t : List ℕ) (x y : ℕ)
    → length (c ++ (w ++ (r ++ (x ∷ (g ++ (q ++ (t ++ y ∷ [])))))))
      ≡ length c + length w + length r + 1 + length g + length q + length t + 1
line-length c w r g q t x y = omega (
  arith,
  length-append c (w ++ (r ++ (x ∷ (g ++ (q ++ (t ++ y ∷ [])))))),
  length-append w (r ++ (x ∷ (g ++ (q ++ (t ++ y ∷ []))))),
  length-append r (x ∷ (g ++ (q ++ (t ++ y ∷ [])))),
  length-append g (q ++ (t ++ y ∷ [])),
  length-append q (t ++ y ∷ []),
  length-append t (y ∷ []),
)

state-length : (s : FullStat) → IsShort s → length (save_state s) ≡ 16 + 8 * s.n_groups
unfolding save_state
state-length s h = omega (
  arith,
  line-length (print_int 3 (pos s.st.chef_stat)) (print_int 3 (pos s.st.waiter_stat))
      (print_int 3 (pos s.st.receptionist_stat)) (save_groups s.n_groups 0 s)
      (print_int 5 (pos s.groups_waiting)) (save_tables s.n_groups 0 s) b' ' b'\n',
  print-length 2 s.st.chef_stat h.chef,
  print-length 2 s.st.waiter_stat h.waiter,
  print-length 2 s.st.receptionist_stat h.receptionist,
  groups-length s.n_groups 0 s h.groups,
  print-length 4 s.groups_waiting h.waiting,
  tables-length s.n_groups 0 s h.tables,
)

-- For up to 100 groups, and where the printed numbers fit into their columns, the line of a saved state
-- is exactly as long as the line of the heads that `createLog` wrote.
pub state_aligned :
    (s t : FullStat)
    → t.n_groups ≡ s.n_groups
    → t.n_groups ≤ 100
    → IsShort t
    → length (save_state t) ≡ length (print_header s)
state_aligned s t same few h = omega (arith, state-length t h, header-length s (omega arith), same)
