-- ===== src/Debug/Report/Whole.antt =====
-- src/semDebug_sharedDataSync.h: the whole deadlock report, in bytes.
use so2023_trabalho.Base.{
  ℕ, ◌+◌, Bool, List, [], ◌∷◌, ◌++◌, if◌then◌else◌, ℤ, pos, Option, none, some, bytes,
}
use so2023_trabalho.Shared.{FullStat, Request}
use so2023_trabalho.Logging.{show_int, show_nat, pad_left, pad_zero}
use so2023_trabalho.Debug.Labels.{
  get_group_stage_label, get_chef_stage_label, get_waiter_stage_label, get_receptionist_stage_label,
  get_request_label,
}
use so2023_trabalho.Debug.Diagnostics.{Channels, Diagnosis, ProcSet, get_proc_diagnostics}
use so2023_trabalho.Debug.Report.{pad_right, row, print_deadlock_logs}
use so2023_trabalho.Debug.Report.Summary.{
  line, server_row, group_rows, header_summary, header_3summary, footer_3summary, toplevel_spacer,
  header_grsummary, extra_info,
}

abbrev status_of : Bool → List ℕ
status_of exited = if exited then bytes "quit" else bytes "present"

abbrev blank_line : List ℕ
blank_line =
    row (bytes "┃ ║                                                                         ")

-- The line on the stage in the details of each process.
pub stage_row : List ℕ → Diagnosis → List ℕ
stage_row label d = row (
    bytes "┃ ║ stage: "
    ++ (show_nat d.stage
        ++ (bytes " "
            ++ (pad_right 17 label
                ++ (bytes "    PID: "
                    ++ (pad_right 9 (show_nat d.pid)
                        ++ (bytes "    process status: "
                            ++ (pad_right 8 (status_of d.exited)))))))))

abbrev chef_head : Diagnosis → List ℕ
chef_head d =
    line (bytes "┃ ╔═══ Chef ═════════════════════════════════════════════════════════════════╗ ┃")
    ++ (stage_row (get_chef_stage_label (pos d.stage)) d ++ (blank_line))

abbrev waiter_head : Request → Diagnosis → List ℕ
waiter_head w d =
    line (bytes "┃ ╔═══ Waiter ═══════════════════════════════════════════════════════════════╗ ┃")
    ++ (stage_row (get_waiter_stage_label (pos d.stage)) d
        ++ (row (
              bytes "┃ ║ reqtype: "
              ++ (show_int w.req_type
                  ++ (bytes " "
                      ++ (pad_right 11 (get_request_label w.req_type)
                          ++ (bytes "        reqGroup: "
                              ++ (show_int w.req_group
                                  ++ (bytes "                               ")))))))
            ++ (blank_line)))

abbrev receptionist_head : Diagnosis → List ℕ
receptionist_head d =
    line (bytes "┃ ╔═══ Receptionist ═════════════════════════════════════════════════════════╗ ┃")
    ++ (stage_row (get_receptionist_stage_label (pos d.stage)) d ++ (blank_line))

abbrev group_head : ℕ → ℤ → Diagnosis → List ℕ
group_head i assigned d =
    line (
      bytes "┃ ╔═══ Group "
      ++ (pad_zero i
          ++ (bytes " ═════════════════════════════════════════════════════════════╗ ┃")))
    ++ (stage_row (get_group_stage_label (pos d.stage)) d
        ++ (row (
            bytes "┃ ║ table: "
            ++ (pad_left 2 (show_int assigned)
                ++ (bytes "                                                               ")))))

-- The details of one process, under its heading, where there are `n` groups.
abbrev details : ℕ → List ℕ → Diagnosis → List ℕ
details n head d = head ++ (print_deadlock_logs n d.events d.last_event ++ footer_3summary)

-- The loop over the groups from `i`.
pub group_details : ℕ → FullStat → List Diagnosis → List ℕ
group_details i fd [] = []
group_details i fd (d ∷ ds) =
    details fd.n_groups (group_head i (fd.assigned_table i) d) d ++ group_details (i + 1) fd ds

abbrev toplevel_footer : List ℕ
toplevel_footer =
    line (bytes "┗━━━━━━━━━━━━━━━━━━━━━━━━━━━━━━━━━━━━━━━━━━━━━━━━━━━━━━━━━━━━━━━━━━━━━━━━━━━━━━┛")

abbrev summary : FullStat → ProcSet → List ℕ
summary fd p =
    header_summary
    ++ (header_3summary
        ++ (server_row (bytes "CH") (get_chef_stage_label (pos p.ch.stage)) p.ch
            ++ (server_row (bytes "WT") (get_waiter_stage_label (pos p.wt.stage)) p.wt
                ++ (server_row (bytes "RC") (get_receptionist_stage_label (pos p.rc.stage)) p.rc
                    ++ (footer_3summary
                        ++ (toplevel_spacer
                            ++ (header_grsummary
                                ++ (group_rows 0 fd p.gr
                                    ++ (footer_3summary
                                        ++ (toplevel_spacer
                                            ++ (extra_info fd
                                                ++ (toplevel_footer ++ bytes "\n\n"))))))))))))

abbrev detailed_log : FullStat → ProcSet → List ℕ
detailed_log fd p =
    line (bytes "┏━━━━━━━━━━━━━━━━━━━━━━━━━━━━━━[ Detailed log ]━━━━━━━━━━━━━━━━━━━━━━━━━━━━━━━━┓")
    ++ (line
          (bytes "┃                                                                              ┃")
        ++ (details fd.n_groups (chef_head p.ch) p.ch
            ++ (details fd.n_groups (waiter_head fd.waiter_request p.wt) p.wt
                ++ (details fd.n_groups (receptionist_head p.rc) p.rc
                    ++ (group_details 0 fd p.gr ++ toplevel_footer)))))

-- What is printed of the diagnoses, up to the wait for a key.
pub report : FullStat → ProcSet → List ℕ
report fd p =
    bytes "============================== DEADLOCK DETECTED! =============================\n\n"
    ++ (summary fd p ++ (detailed_log fd p ++ bytes "Press ENTER to exit.\n"))

-- `none` where the diagnostics read past the end of `groups`.
unfoldable pub print_deadlock : (List ℕ → Bool) → Channels → FullStat → Option (List ℕ)
print_deadlock opendir sd fd = elim (get_proc_diagnostics opendir sd fd) [
  | none ↦ none
  | some p ↦ some (report fd p)
]
