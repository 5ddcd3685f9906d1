-- ===== src/Logging.antt =====
-- src/logging.c: the text of the log file, a line for each saved state.
pub mod Columns
pub mod Plain
use so2023_trabalho.Base.{
  codes, ℕ, zero, suc, ◌+◌, ◌-◌, ◌/◌, ◌%◌, ℤ, pos, negsuc, List, [], ◌∷◌, ◌++◌, ltb, if◌then◌else◌,
  length, replicate,
}
use so2023_trabalho.Shared.{Stat, FullStat}

-- The decimal digits of `n` before `acc`. As much fuel as `n + 1` is enough.
unfoldable pub digits_from : ℕ → ℕ → List ℕ → List ℕ
digits_from zero n acc = acc
digits_from (suc f) n acc =
    let d = (b'0' + n % 10) ∷ acc in
    let more = digits_from f (n / 10) d in if ltb n 10 then d else more

unfoldable pub show_nat : ℕ → List ℕ
unfolding digits_from
show_nat n = digits_from (suc n) n []

-- The text of `%d`.
unfoldable pub show_int : ℤ → List ℕ
unfolding show_nat
show_int (pos n) = show_nat n
show_int (negsuc n) = b'-' ∷ show_nat (n + 1)

-- A text in a field of `w` characters, to the right, as `%3d` and `%4s` print it.
unfoldable pub pad_left : ℕ → List ℕ → List ℕ
pad_left w s = replicate (w - length s) b' ' ++ s

abbrev print_int : ℕ → ℤ → List ℕ
print_int w n = pad_left w (show_int n)

-- The loop of `saveState` over the states of the groups `g, …, g + k - 1`.
save_groups : ℕ → ℕ → FullStat → List ℕ
save_groups zero g s = []
save_groups (suc k) g s = print_int 4 (pos (s.st.group_stat g)) ++ save_groups k (g + 1) s

save_table : ℤ → List ℕ
save_table (negsuc zero) = pad_left 4 (b'.' ∷ [])
save_table t = print_int 4 t

-- The loop of `saveState` over the tables of the groups.
save_tables : ℕ → ℕ → FullStat → List ℕ
unfolding save_table
save_tables zero g s = []
save_tables (suc k) g s = save_table (s.assigned_table g) ++ save_tables k (g + 1) s

-- `saveState`: the line that is written at the end of the file.
pub save_state : FullStat → List ℕ
unfolding save_groups save_tables pad_left show_int
save_state s =
    print_int 3 (pos s.st.chef_stat)
    ++ (print_int 3 (pos s.st.waiter_stat)
        ++ (print_int 3 (pos s.st.receptionist_stat)
            ++ (b' '
                ∷ (save_groups s.n_groups 0 s
                    ++ (print_int 5 (pos s.groups_waiting)
                        ++ (save_tables s.n_groups 0 s ++ b'\n' ∷ []))))))

-- The text of `%02d` for a number that is not negative.
pub pad_zero : ℕ → List ℕ
unfolding show_nat
pad_zero n = replicate (2 - length (show_nat n)) b'0' ++ show_nat n

-- A loop of `printHeader`: the heads of `k` columns from `g` on, with a letter before the number.
heads : ℕ → ℕ → ℕ → List ℕ
unfolding pad_zero
heads letter zero g = []
heads letter (suc k) g = b' ' ∷ letter ∷ pad_zero g ++ heads letter k (g + 1)

pub print_header : FullStat → List ℕ
unfolding pad_left heads
print_header s =
    pad_left 3 (codes "CH")
    ++ (pad_left 3 (codes "WT")
        ++ (pad_left 3 (codes "RC")
            ++ (b' '
                ∷ (heads b'G' s.n_groups 0
                    ++ (pad_left 5 (codes "gWT") ++ (heads b'T' s.n_groups 0 ++ b'\n' ∷ []))))))

-- `createLog`: the text that the file holds afterwards.
pub create_log : FullStat → List ℕ
unfolding print_header
create_log s =
    replicate 31 b' '
    ++ (codes "Restaurant - Description of the internal state" ++ (b'\n' ∷ b'\n' ∷ print_header s))
