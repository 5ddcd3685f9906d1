-- ===== src/Debug/Report/Printed.antt =====
-- When the deadlock report of src/semDebug_sharedDataSync.h is printed.
use so2023_trabalho.Base.{
  ℕ, zero, suc, ◌+◌, ◌≤◌, ◌<◌, ◌≡◌, refl, Bool, true, Bool-cases, inl, inr, ltb, leb, if◌then◌else◌,
  none, some, List, [], ◌∷◌, arith,
}
use so2023_trabalho.Shared.{FullStat, max_groups}
use so2023_trabalho.Debug.Diagnostics.{
  Channels, Diagnosis, ProcSet, diagnose, diagnose_groups, get_proc_diagnostics,
}
use so2023_trabalho.Debug.Report.Whole.{print_deadlock, report}

-- The diagnoses of the groups from `i` on.
abbrev all_diagnoses : (List ℕ → Bool) → ℕ → ℕ → Channels → FullStat → List Diagnosis
all_diagnoses opendir zero i sd fd = []
all_diagnoses opendir (suc k) i sd fd =
    diagnose opendir (sd.groups i) (fd.st.group_stat i) ∷ all_diagnoses opendir k (i + 1) sd fd

module _ (opendir : List ℕ → Bool) (sd : Channels) (fd : FullStat) where
  groups_diagnosed :
      (k i : ℕ)
      → i + k ≤ max_groups
      → diagnose_groups opendir k i sd fd ≡ some (all_diagnoses opendir k i sd fd)
  unfolding diagnose_groups
  groups_diagnosed zero i h = refl
  groups_diagnosed (suc k) i h =
      let inside : ltb i max_groups ≡ true = ground arith in
      rw (inside, groups_diagnosed k (i + 1) (omega arith)) refl

  groups_outside :
      (k i : ℕ) → i ≤ max_groups → max_groups < i + k → diagnose_groups opendir k i sd fd ≡ none
  unfolding diagnose_groups
  groups_outside zero i h l = absurd (omega arith)
  groups_outside (suc k) i h l = elim (Bool-cases (ltb i max_groups)) [
    | inl e ↦
        let inside : i < max_groups = ground arith in
        rw (e, groups_outside k (i + 1) (omega arith) (omega arith)) refl
    | inr e ↦ rw e refl
  ]

  -- What is known of the processes, where there are at most `MAXGROUPS` groups.
  abbrev pub all_processes : ProcSet
  all_processes = record {
    ch = diagnose opendir sd.chef fd.st.chef_stat;
    wt = diagnose opendir sd.waiter fd.st.waiter_stat;
    rc = diagnose opendir sd.receptionist fd.st.receptionist_stat;
    gr = all_diagnoses opendir fd.n_groups 0 sd fd;
  }

  -- A report is printed of the diagnoses of the chef, of the waiter, of the receptionist and of each group,
  -- where there are at most `MAXGROUPS` groups; with more, the diagnostics read past the end of `groups`.
  pub print_deadlock_groups :
      print_deadlock opendir sd fd
      ≡ (if leb fd.n_groups max_groups then some (report fd all_processes) else none)
  unfolding print_deadlock get_proc_diagnostics
  print_deadlock_groups = elim (Bool-cases (leb fd.n_groups max_groups)) [
    | inl e ↦
        let few : fd.n_groups ≤ max_groups = ground arith in
        rw (e, print_deadlock, get_proc_diagnostics, groups_diagnosed fd.n_groups 0 (omega arith))
          refl
    | inr e ↦
        let many : max_groups < fd.n_groups = ground arith in
        rw
          (
            e,
            print_deadlock,
            get_proc_diagnostics,
            groups_outside fd.n_groups 0 (omega arith) (omega arith),
          )
          refl
  ]
