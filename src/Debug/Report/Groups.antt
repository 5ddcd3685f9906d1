-- ===== src/Debug/Report/Groups.antt =====
-- The table of the groups in the deadlock report of src/semDebug_sharedDataSync.h stays in its box.
use so2023_trabalho.Base.{
  ℕ, ◌+◌, ◌-◌, ◌<◌, ◌≤◌, ◌≡◌, refl, Bool, true, false, Bool-cases, inl, inr, ltb, ltb→lt, lt→ltb,
  Option, none, some, List, [], ◌∷◌, length, take, replicate, bytes, codes, ℤ, pos, negsuc, arith,
}
use so2023_trabalho.Shared.{FullStat}
use so2023_trabalho.Logging.{digits_from, show_nat, show_int, pad_left}
use so2023_trabalho.Logging.Columns.{show_nat-length}
use so2023_trabalho.Logging.Plain.{
  IsPlain, take-IsPlain, show_nat-IsPlain, show_int-IsPlain, is_plain, plain,
}
use so2023_trabalho.Debug.Events.{Event}
use so2023_trabalho.Debug.Labels.{get_group_stage_label}
use so2023_trabalho.Debug.Diagnostics.{Diagnosis}
use so2023_trabalho.Debug.Report.{pad_right}
use so2023_trabalho.Debug.Report.Summary.{
  mark_of, last_action, last_index, trimmed_last, group_row, group_rows,
}
use so2023_trabalho.Debug.Report.Columns.{
  widths, Spans, Spans-append, spans, plain_text, pad_left-Spans, pad_right-Spans, number-Spans,
  Lines, Lines-append, row-Lines, nil-Lines, Lines-widths,
}
use so2023_trabalho.Debug.Report.Aligned.{cut-Spans, take_all, length-take, long_enough}

mark_of-Spans : (b : Bool) → Spans 1 (mark_of b)
mark_of-Spans true = spans (bytes " ") refl
mark_of-Spans false = spans (bytes "*") refl

digit-Spans : (n : ℕ) → n < 10 → Spans 1 (show_nat n)
unfolding show_nat digits_from
digit-Spans n h = plain_text 1 (show_nat n) (show_nat-IsPlain n) (rw (lt→ltb n 10 h) refl)

field : (s : List ℕ) → is_plain s ≡ true → length s ≤ 13 → Spans 13 (pad_right 13 s)
field s h le = pad_right-Spans 13 s (plain s h) le

label-Spans : (n : ℕ) → Spans 13 (pad_right 13 (get_group_stage_label (pos n)))
unfolding get_group_stage_label
label-Spans n = ground (
  arith,
  field (codes "GOTOREST") refl (omega arith),
  field (codes "ATRECEPTION") refl (omega arith),
  field (codes "FOOD_REQUEST") refl (omega arith),
  field (codes "WAIT_FOR_FOOD") refl (omega arith),
  field (codes "EAT") refl (omega arith),
  field (codes "CHECKOUT") refl (omega arith),
  field (codes "LEAVING") refl (omega arith),
  field [] refl (omega arith),
)

action-Spans : (e : Option Event) → Spans 4 (pad_left 4 (last_action e))
action-Spans none = pad_left-Spans 4 (bytes "?") (plain (bytes "?") refl) (omega arith)
action-Spans (some e) = ground (
  arith,
  pad_left-Spans 4 (bytes "down") (plain (bytes "down") refl) (omega arith),
  pad_left-Spans 4 (bytes "up") (plain (bytes "up") refl) (omega arith),
)

-- The reason of the last event is ASCII, and has no end of a line.
abbrev pub IsPlainLast : Option Event → Type 0
IsPlainLast none = Unit
IsPlainLast (some e) = IsPlain e.reason

reason-Spans : (e : Option Event) → IsPlainLast e → Spans 29 (pad_right 29 (trimmed_last e))
reason-Spans none h = pad_right-Spans 29 (bytes "?") (plain (bytes "?") refl) (omega arith)
reason-Spans (some e) h = elim (Bool-cases (ltb 28 (length e.reason))) [
  | inl c ↦
      let long = ltb→lt 28 (length e.reason) c in
      let kept : List ℕ = take (40 - 1) e.reason in
      rw c (
        cut-Spans 28 (40 - 1) (take 28 kept)
          (take-IsPlain 28 kept (take-IsPlain (40 - 1) e.reason h))
          (length-take 28 kept (long_enough 28 (40 - 1) e.reason (omega arith) (omega arith)))
          (omega arith))
  | inr c ↦
      let short : length e.reason ≤ 28 = ground arith in
      rw (c, take_all (40 - 1) e.reason (omega arith)) (pad_right-Spans 29 e.reason h (omega arith))
]

-- No table, or one of at most two digits.
abbrev pub IsNarrowTable : ℤ → Type 0
IsNarrowTable (pos t) = t < 100
IsNarrowTable (negsuc k) = k ≡ 0

table-Spans : (t : ℤ) → IsNarrowTable t → Spans 3 (pad_left 3 (show_int t))
unfolding show_int
table-Spans (pos t) h =
    pad_left-Spans 3 (show_nat t) (show_nat-IsPlain t) (omega (arith, show_nat-length 1 t h))
table-Spans (negsuc k) h =
    pad_left-Spans 3 (b'-' ∷ show_nat (k + 1)) (show_int-IsPlain (negsuc k))
      (omega (arith, show_nat-length 0 (k + 1) (omega (arith, h))))

-- What the columns have room for.
pub record IsNarrow (d : Diagnosis) : Type 0 where
  pub stage : d.stage < 10
  pub index : last_index d.last_event < 100
  pub reason : IsPlainLast d.last_event

group_row-Lines :
    (i : ℕ) (assigned : ℤ) (d : Diagnosis)
    → i < 100
    → IsNarrowTable assigned
    → IsNarrow d
    → Lines (80 ∷ []) (group_row i assigned d)
unfolding group_row
group_row-Lines i assigned d few table h = row-Lines 76 _ (
    Spans-append 4 72 (bytes "┃ ║ ") _ (spans (bytes "┃ ║ ") refl) (
      Spans-append 1 71 (mark_of d.exited) _ (mark_of-Spans d.exited) (
        Spans-append 2 69 (pad_left 2 (show_nat i)) _ (number-Spans 1 i few) (
          Spans-append 3 66 (bytes " ┃ ") _ (spans (bytes " ┃ ") refl) (
            Spans-append 1 65 (show_nat d.stage) _ (digit-Spans d.stage h.stage) (
              Spans-append 1 64 (bytes " ") _ (spans (bytes " ") refl) (
                Spans-append 13 51 (pad_right 13 (get_group_stage_label (pos d.stage))) _
                  (label-Spans d.stage)
                  (Spans-append 3 48 (bytes " │ ") _ (spans (bytes " │ ") refl) (
                    Spans-append 4 44 (pad_left 4 (last_action d.last_event)) _
                      (action-Spans d.last_event)
                      (Spans-append 1 43 (bytes " ") _ (spans (bytes " ") refl) (
                        Spans-append 2 41 (pad_left 2 (show_nat (last_index d.last_event))) _
                          (number-Spans 1 (last_index d.last_event) h.index)
                          (Spans-append 3 38 (bytes " │ ") _ (spans (bytes " │ ") refl) (
                            Spans-append 29 9 (pad_right 29 (trimmed_last d.last_event)) _
                              (reason-Spans d.last_event h.reason)
                              (Spans-append 3 6 (bytes " │ ") _ (spans (bytes " │ ") refl) (
                                Spans-append 3 3 (pad_left 3 (show_int assigned)) _
                                  (table-Spans assigned table)
                                  (spans (bytes "   ") refl))))))))))))))))

abbrev pub AreNarrow : List Diagnosis → Type 0
AreNarrow [] = Unit
AreNarrow (d ∷ ds) = IsNarrow d × AreNarrow ds

group_rows-Lines :
    (i : ℕ) (fd : FullStat) (ds : List Diagnosis)
    → i + length ds ≤ 100
    → ((g : ℕ) → IsNarrowTable (fd.assigned_table g))
    → AreNarrow ds
    → Lines (replicate (length ds) 80) (group_rows i fd ds)
unfolding group_rows
group_rows-Lines i fd [] few tables h = nil-Lines
group_rows-Lines i fd (d ∷ ds) few tables h =
    Lines-append (80 ∷ []) (replicate (length ds) 80) (group_row i (fd.assigned_table i) d)
      (group_rows (i + 1) fd ds)
      (group_row-Lines i (fd.assigned_table i) d (omega arith) (tables i) h.0)
      (group_rows-Lines (i + 1) fd ds (omega arith) tables h.1)

-- For up to 100 groups, with stages of one digit, tables and semaphores of at most two, and reasons that are
-- ASCII and in one line, however long: each group has one row in the table of the report, of 80 characters.
pub groups_aligned :
    (fd : FullStat) (ds : List Diagnosis)
    → length ds ≤ 100
    → ((g : ℕ) → IsNarrowTable (fd.assigned_table g))
    → AreNarrow ds
    → widths (group_rows 0 fd ds) ≡ replicate (length ds) 80
groups_aligned fd ds few tables h =
    Lines-widths (replicate (length ds) 80) (group_rows 0 fd ds)
      (group_rows-Lines 0 fd ds (omega arith) tables h)
