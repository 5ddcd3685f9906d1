-- ===== src/Debug/Report/Columns.antt =====
-- The columns of the deadlock report of src/semDebug_sharedDataSync.h.
use so2023_trabalho.Base.{
  ℕ, zero, suc, ◌+◌, ◌-◌, ◌<◌, ◌≤◌, ◌≡◌, refl, ap, sym, ◌∙◌, Bool, true, false, Bool-cases, inl,
  inr, ltb, leb, ◌==◌, ==_ne, ◌&&◌, ◌||◌, if◌then◌else◌, List, [], ◌∷◌, ◌++◌, length, replicate,
  length-append, bytes, arith,
}
use mathlib.Core.List.{append-nil, append_assoc}
use native.Mathlib.Nat.{add_assoc, add-zero}
use so2023_trabalho.Logging.Plain.{IsPlain, append-IsPlain, replicate-IsPlain, show_nat-IsPlain}
use so2023_trabalho.Logging.{show_nat, pad_left}
use so2023_trabalho.Logging.Columns.{tens, show_nat-length}
use so2023_trabalho.Debug.Report.{pad_right, row}

-- A byte that begins a character of UTF-8.
abbrev begins : ℕ → ℕ
begins c = if leb 128 c && ltb c 192 then 0 else 1

abbrev newline : ℕ
newline = b'\n'

-- The number of characters of each line of a text, where `acc` of the first line stand before it.
unfoldable pub widths_from : ℕ → List ℕ → List ℕ
widths_from acc [] = []
widths_from acc (c ∷ s) =
    if c == newline then acc ∷ widths_from 0 s else widths_from (acc + begins c) s

unfoldable pub widths : List ℕ → List ℕ
unfolding widths_from
widths s = widths_from 0 s

-- `s` is a part of a line, of `k` characters.
pub Spans : ℕ → List ℕ → Type 0
Spans k s = (acc : ℕ) (t : List ℕ) → widths_from acc (s ++ t) ≡ widths_from (acc + k) t

pub Spans-append : (j k : ℕ) (s t : List ℕ) → Spans j s → Spans k t → Spans (j + k) (s ++ t)
unfolding Spans
Spans-append j k s t a b = λ acc r.
    ap (widths_from acc) (append_assoc s t r)
    ∙ a acc (t ++ r)
    ∙ b (acc + j) r
    ∙ ap (λ w. widths_from w r) (add_assoc acc j k)

step :
    (c acc : ℕ) (s t : List ℕ) (k : ℕ)
    → (c == newline) ≡ false
    → Spans k s
    → widths_from acc ((c ∷ s) ++ t) ≡ widths_from (acc + (begins c + k)) t
unfolding Spans widths_from
step c acc s t k e h =
    rw e (h (acc + begins c) t ∙ ap (λ w. widths_from w t) (add_assoc acc (begins c) k))

-- The same for a text that is at hand.
abbrev pub spread : List ℕ → ℕ
spread [] = 0
spread (c ∷ s) = begins c + spread s

abbrev pub broken : List ℕ → Bool
broken [] = false
broken (c ∷ s) = c == newline || broken s

pub spans : (s : List ℕ) → broken s ≡ false → Spans (spread s) s
unfolding Spans widths_from
spans [] h = λ acc t. ap (λ w. widths_from w t) (sym (add-zero acc))
spans (c ∷ s) h = λ acc t. step c acc s t (spread s) (ground arith) (spans s (ground arith))

plain-Spans : (s : List ℕ) → IsPlain s → Spans (length s) s
unfolding Spans widths_from
plain-Spans [] h = λ acc t. ap (λ w. widths_from w t) (sym (add-zero acc))
plain-Spans (c ∷ s) h = λ acc t.
    step c acc s t (length s) (==_ne c newline h.1) (plain-Spans s h.2)
    ∙ ap (λ w. widths_from w t) (ground (arith, h.0))

pub plain_text : (k : ℕ) (s : List ℕ) → IsPlain s → length s ≡ k → Spans k s
plain_text k s h e = rw e at (plain-Spans s h)

length-replicate : (k c : ℕ) → length (replicate k c) ≡ k
length-replicate zero c = refl
length-replicate (suc k) c = omega (arith, length-replicate k c)

pub pad_right-Spans : (w : ℕ) (s : List ℕ) → IsPlain s → length s ≤ w → Spans w (pad_right w s)
unfolding pad_right
pad_right-Spans w s h le =
    let spaces : List ℕ = replicate (w - length s) b' ' in
    plain_text w (s ++ spaces)
      (append-IsPlain s spaces h
        (replicate-IsPlain (w - length s) b' ' (omega arith) (omega arith)))
      (omega (arith, length-append s spaces, length-replicate (w - length s) b' '))

pub pad_left-Spans : (w : ℕ) (s : List ℕ) → IsPlain s → length s ≤ w → Spans w (pad_left w s)
unfolding pad_left
pad_left-Spans w s h le =
    let spaces : List ℕ = replicate (w - length s) b' ' in
    plain_text w (spaces ++ s)
      (append-IsPlain spaces s (replicate-IsPlain (w - length s) b' ' (omega arith) (omega arith))
        h)
      (omega (arith, length-append spaces s, length-replicate (w - length s) b' '))

pub number-Spans : (k n : ℕ) → n < tens (suc k) → Spans (suc k) (pad_left (suc k) (show_nat n))
number-Spans k n h =
    pad_left-Spans (suc k) (show_nat n) (show_nat-IsPlain n) (show_nat-length k n h)

-- Lines with `ws` characters.
pub Lines : List ℕ → List ℕ → Type 0
Lines ws s = (t : List ℕ) → widths_from 0 (s ++ t) ≡ ws ++ widths_from 0 t

-- A row of the inner boxes.
pub row-Lines : (k : ℕ) (s : List ℕ) → Spans k s → Lines ((k + 4) ∷ []) (row s)
unfolding Lines Spans widths_from
row-Lines k s h = λ t.
    ap (widths_from 0) (append_assoc s (bytes " ║ ┃\n") t)
    ∙ h 0 (bytes " ║ ┃\n" ++ t)
    ∙ ap (λ w. w ∷ widths_from 0 t) (omega arith)

pub Lines-append : (us vs s t : List ℕ) → Lines us s → Lines vs t → Lines (us ++ vs) (s ++ t)
unfolding Lines
Lines-append us vs s t a b = λ r.
    ap (widths_from 0) (append_assoc s t r)
    ∙ a (t ++ r)
    ∙ ap (λ l. us ++ l) (b r)
    ∙ sym (append_assoc us vs (widths_from 0 r))

pub Lines-widths : (ws s : List ℕ) → Lines ws s → widths s ≡ ws
unfolding Lines widths widths_from
Lines-widths ws s h = ap (widths_from 0) (sym (append-nil s)) ∙ h [] ∙ append-nil ws

-- A text that ends with the end of a line.
abbrev pub ended : List ℕ → Bool
ended [] = false
ended (c ∷ []) = c == newline
ended (c ∷ d ∷ s) = ended (d ∷ s)

ended_rest :
    (s t : List ℕ) (acc : ℕ)
    → ended s ≡ true
    → widths_from acc (s ++ t) ≡ widths_from acc s ++ widths_from 0 t
unfolding widths_from
ended_rest [] t acc h = absurd (ground arith)
ended_rest (c ∷ []) t acc h = rw h refl
ended_rest (c ∷ d ∷ s) t acc h = elim (Bool-cases (c == newline)) [
  | inl e ↦ rw e (ap (λ l. acc ∷ l) (ended_rest (d ∷ s) t 0 h))
  | inr e ↦ rw e (ended_rest (d ∷ s) t (acc + begins c) h)
]

pub ended-Lines : (s : List ℕ) → ended s ≡ true → Lines (widths s) s
unfolding Lines widths
ended-Lines s h = λ t. ended_rest s t 0 h

pub nil-Lines : Lines [] []
unfolding Lines
nil-Lines = λ t. refl
