-- ===== src/Config/RoundTrip.antt =====
-- config.txt as it is written by hand, and what `main` of src/probSemSharedMemRestaurant.c reads of it.
use so2023_trabalho.Base.{
  ℕ, suc, ◌+◌, ◌≤◌, ◌<◌, ◌≡◌, refl, ◌∙◌, Bool, false, Bool-cases, inl, inr, ltb, lt→ltb, ltb→lt,
  ◌==◌, ◌||◌, ◌^◌, List, [], ◌∷◌, ◌++◌, length, ℤ, pos, update, arith,
}
use so2023_trabalho.Shared.{max_groups}
use so2023_trabalho.Logging.{show_int}
use so2023_trabalho.Numerals.{stored_int, scan_int, skip_space, is_space, digit_of}
use so2023_trabalho.Numerals.Reads.{Stops, IsInt, stored-int, scan_int-show_int}
use so2023_trabalho.Config.{overflows, found, skip_line, read_rows, read_config}

abbrev newline : ℕ
newline = b'\n'

abbrev pub rows_text : List (ℤ × ℤ) → List ℕ
rows_text [] = []
rows_text ((a, b) ∷ rows) = show_int a ++ b' ' ∷ (show_int b ++ newline ∷ rows_text rows)

-- Two heading lines, the number of groups after the first and a line for each group after the second.
abbrev pub config_text : List ℕ → ℕ → List ℕ → List (ℤ × ℤ) → List ℕ
config_text first c second rows =
    first
    ++ newline
      ∷ (show_int (pos (length rows)) ++ newline ∷ (c ∷ (second ++ newline ∷ rows_text rows)))

-- The two arrays with the rows from `g` on.
abbrev pub starts : ℕ → List (ℤ × ℤ) → (ℕ → ℤ) → ℕ → ℤ
starts g [] f = f
starts g ((a, b) ∷ rows) f = starts (g + 1) rows (update f g a)

abbrev pub eats : ℕ → List (ℤ × ℤ) → (ℕ → ℤ) → ℕ → ℤ
eats g [] f = f
eats g ((a, b) ∷ rows) f = eats (g + 1) rows (update f g b)

abbrev has_newline : List ℕ → Bool
has_newline [] = false
has_newline (c ∷ s) = c == newline || has_newline s

abbrev pub IsLine : List ℕ → Type 0
IsLine s = has_newline s ≡ false

stops : (s : List ℕ) → Stops (b' ' ∷ s) × Stops (newline ∷ s)
unfolding digit_of
stops s = (omega arith, omega arith)

scan_int_space :
    (s : List ℕ) → (scan_int (b' ' ∷ s) ≡ scan_int s) × (scan_int (newline ∷ s) ≡ scan_int s)
unfolding scan_int is_space
scan_int_space s = (refl, refl)

skip_line_end : (l s : List ℕ) → IsLine l → skip_line (l ++ newline ∷ s) ≡ newline ∷ s
unfolding skip_line
skip_line_end [] s h = refl
skip_line_end (c ∷ l) s h = ground (arith, skip_line_end l s)

skip_heading : (c : ℕ) (s : List ℕ) → is_space c ≡ false → skip_space (newline ∷ (c ∷ s)) ≡ c ∷ s
unfolding skip_space is_space
skip_heading c s h = ground arith

-- The times are `int`s.
abbrev pub AreInts : List (ℤ × ℤ) → Type 0
AreInts [] = Unit
AreInts ((a, b) ∷ rows) = IsInt a × IsInt b × AreInts rows

-- One row is read from the end of the line before it.
row_read :
    (n : ℤ) (k : ℕ) (a b : ℤ) (rows : List (ℤ × ℤ)) (g : ℕ) (start eat : ℕ → ℤ)
    → g < max_groups
    → read_rows n (suc k) g (newline ∷ rows_text ((a, b) ∷ rows)) start eat
      ≡ read_rows n k
          (g + 1)
          (newline ∷ rows_text rows)
          (update start g (stored_int a))
          (update eat g (stored_int b))
unfolding read_rows
row_read n k a b rows g start eat h =
    let rest = show_int b ++ newline ∷ rows_text rows in
    rw
      (
        read_rows,
        lt→ltb g max_groups h,
        (scan_int_space (show_int a ++ b' ' ∷ rest)).1,
        scan_int-show_int a (b' ' ∷ rest) (stops rest).0,
        (scan_int_space rest).0,
        scan_int-show_int b (newline ∷ rows_text rows) (stops (rows_text rows)).1,
      )
      refl

rows_read :
    (n : ℤ) (rows : List (ℤ × ℤ)) (g : ℕ) (start eat : ℕ → ℤ)
    → g + length rows ≤ max_groups
    → AreInts rows
    → read_rows n (length rows) g (newline ∷ rows_text rows) start eat
      ≡ found n (starts g rows start) (eats g rows eat)
unfolding read_rows
rows_read n [] g start eat h int = refl
rows_read n ((a, b) ∷ rows) g start eat h (int_a, int_b, int) =
    row_read n (length rows) a b rows g start eat (omega arith)
    ∙ rw (stored-int a int_a, stored-int b int_b)
        (rows_read n rows (g + 1) (update start g a) (update eat g b) (omega arith) int)

rows_overflow :
    (n : ℤ) (rows : List (ℤ × ℤ)) (g : ℕ) (start eat : ℕ → ℤ)
    → g ≤ max_groups
    → max_groups < g + length rows
    → read_rows n (length rows) g (newline ∷ rows_text rows) start eat ≡ overflows
unfolding read_rows
rows_overflow n [] g start eat h l = absurd (omega arith)
rows_overflow n ((a, b) ∷ rows) g start eat h l = elim (Bool-cases (ltb g max_groups)) [
  | inl e ↦
      let less = ltb→lt g max_groups e in
      row_read n (length rows) a b rows g start eat less
      ∙ rows_overflow n rows (g + 1) (update start g (stored_int a)) (update eat g (stored_int b))
          (omega arith) (omega arith)
  | inr e ↦ rw (read_rows, e) refl
]

-- What `main` reads of the file up to the first row.
heading_read :
    (first : List ℕ) (c : ℕ) (second : List ℕ) (rows : List (ℤ × ℤ)) (start eat : ℕ → ℤ)
    → IsLine first
    → IsLine (c ∷ second)
    → is_space c ≡ false
    → length rows < 2 ^ 31
    → read_config (config_text first c second rows) start eat
      ≡ read_rows (pos (length rows)) (length rows) 0 (newline ∷ rows_text rows) start eat
unfolding read_config
heading_read first c second rows start eat f s v few =
    let below = c ∷ (second ++ newline ∷ rows_text rows) in
    let count = show_int (pos (length rows)) ++ newline ∷ below in
    rw
      (
        read_config,
        skip_line_end first count f,
        (scan_int_space count).1,
        scan_int-show_int (pos (length rows)) (newline ∷ below) (stops below).1,
        stored-int (pos (length rows)) few,
        skip_heading c (second ++ newline ∷ rows_text rows) v,
        skip_line_end (c ∷ second) (rows_text rows) s,
      )
      refl

-- A config.txt of two heading lines, with the number of rows between them and at most 16 rows of numbers in
-- the range of `int` below, is read as it is meant: `nGroups` is the number of rows, and the two times of
-- each row are stored under its group. The second heading does not start with a space, which `"%d "`
-- would skip.
pub read_config-config_text :
    (first : List ℕ) (c : ℕ) (second : List ℕ) (rows : List (ℤ × ℤ)) (start eat : ℕ → ℤ)
    → IsLine first
    → IsLine (c ∷ second)
    → is_space c ≡ false
    → length rows ≤ max_groups
    → AreInts rows
    → read_config (config_text first c second rows) start eat
      ≡ found (pos (length rows)) (starts 0 rows start) (eats 0 rows eat)
read_config-config_text first c second rows start eat f s v h int =
    heading_read first c second rows start eat f s v (omega arith)
    ∙ rows_read (pos (length rows)) rows 0 start eat (omega arith) int

-- A config.txt of the same form with more than 16 rows, and fewer than 2³¹, makes `main` write past the end
-- of the two arrays of times, whatever the numbers in the rows: the number of groups is not compared with
-- MAXGROUPS.
pub read_config_overflow :
    (first : List ℕ) (c : ℕ) (second : List ℕ) (rows : List (ℤ × ℤ)) (start eat : ℕ → ℤ)
    → IsLine first
    → IsLine (c ∷ second)
    → is_space c ≡ false
    → max_groups < length rows
    → length rows < 2 ^ 31
    → read_config (config_text first c second rows) start eat ≡ overflows
read_config_overflow first c second rows start eat f s v h few =
    heading_read first c second rows start eat f s v few
    ∙ rows_overflow (pos (length rows)) rows 0 start eat (omega arith) (omega arith)
