-- ===== src/Config.antt =====
-- src/probSemSharedMemRestaurant.c: how `main` reads config.txt. A reading that finds no number stores
-- nothing and is not noticed by the program; it is `missing` here.
pub mod RoundTrip
use so2023_trabalho.Base.{
  ℕ, suc, zero, ◌+◌, Bool, true, false, ltb, ◌==◌, if◌then◌else◌, Option, none, some, List, [], ◌∷◌,
  ℤ, pos, negsuc, update,
}
use so2023_trabalho.Shared.{max_groups}
use so2023_trabalho.Numerals.{scan_int, skip_space}

pub data Config : Type 0 where
  missing : Config
  overflows : Config  -- a write past the end of `startTime` and `eatTime`
  found : ℤ → (ℕ → ℤ) → (ℕ → ℤ) → Config  -- `nGroups`, `startTime`, `eatTime`

-- `%*[^\n]`: what is left of the line is skipped.
unfoldable pub skip_line : List ℕ → List ℕ
skip_line [] = []
skip_line (c ∷ s) = if c == b'\n' then c ∷ s else skip_line s

-- The loop over the groups from `g`, with `k` rounds left.
unfoldable pub read_rows : ℤ → ℕ → ℕ → List ℕ → (ℕ → ℤ) → (ℕ → ℤ) → Config
read_rows n zero g text start eat = found n start eat
read_rows n (suc k) g text start eat = elim (ltb g max_groups) [
  | false ↦ overflows
  | true ↦ elim (scan_int text) [
    | none ↦ missing
    | some (a, r) ↦ elim (scan_int r) [
      | none ↦ missing
      | some (b, r') ↦ read_rows n k (g + 1) r' (update start g a) (update eat g b)
    ]
  ]
]

abbrev rounds : ℤ → ℕ
rounds (pos n) = n
rounds (negsuc n) = 0

-- The text of the file, and the two arrays before.
unfoldable pub read_config : List ℕ → (ℕ → ℤ) → (ℕ → ℤ) → Config
unfolding read_rows skip_line
read_config text start eat = elim (scan_int (skip_line text)) [
  | none ↦ missing
  | some (n, r) ↦ read_rows n (rounds n) 0 (skip_line (skip_space r)) start eat
]
