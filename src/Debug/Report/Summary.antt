-- ===== src/Debug/Report/Summary.antt =====
-- src/semDebug_sharedDataSync.h: the summary of the deadlock report, in bytes.
use so2023_trabalho.Base.{
  ℕ, ◌+◌, ◌-◌, Bool, List, [], ◌∷◌, ◌++◌, ltb, ◌==◌, if◌then◌else◌, ℤ, pos, is_pos, Option, none,
  some, length, take, bytes,
}
use so2023_trabalho.Shared.{FullStat, table_req}
use so2023_trabalho.Logging.{show_int, show_nat, pad_left}
use so2023_trabalho.Debug.Events.{Event, down_action}
use so2023_trabalho.Debug.Labels.{get_group_stage_label, get_request_label}
use so2023_trabalho.Debug.Diagnostics.{Diagnosis}
use so2023_trabalho.Debug.Report.{pad_right, strlcat, row}

abbrev pub line : List ℕ → List ℕ
line s = s ++ bytes "\n"

-- The asterisk marks a process that is still there.
abbrev pub mark_of : Bool → List ℕ
mark_of exited = if exited then bytes " " else bytes "*"

abbrev pub action_label : ℕ → List ℕ
action_label action = if action == down_action then bytes "down" else bytes "up"

-- Of the last event; `none` where there are no events.
abbrev pub last_action : Option Event → List ℕ
last_action none = bytes "?"
last_action (some e) = action_label e.action

abbrev pub last_index : Option Event → ℕ
last_index none = 0
last_index (some e) = e.index

abbrev pub last_reason : Option Event → List ℕ
last_reason none = bytes "?"
last_reason (some e) = e.reason

-- `trimmed_reason` of 40 bytes
abbrev pub trimmed : List ℕ → List ℕ
trimmed reason =
    if ltb 28 (length reason)
    then (strlcat (take 28 (take (40 - 1) reason)) (bytes "…") 40).0
    else take (40 - 1) reason

abbrev pub trimmed_last : Option Event → List ℕ
trimmed_last none = bytes "?"
trimmed_last (some e) = trimmed e.reason

-- `format_3summary`: the name of the process and the name of its stage.
pub server_row : List ℕ → List ℕ → Diagnosis → List ℕ
server_row name label d = row (
    bytes "┃ ║ "
    ++ (mark_of d.exited
        ++ (pad_left 2 name
            ++ (bytes " ┃ "
                ++ (show_nat d.stage
                    ++ (bytes " "
                        ++ (pad_right 14 label
                            ++ (bytes " │ "
                                ++ (pad_left 4 (last_action d.last_event)
                                    ++ (bytes " "
                                        ++ (pad_left 2 (show_nat (last_index d.last_event))
                                            ++ (bytes " │ "
                                                ++ (pad_right 37
                                                    (last_reason d.last_event))))))))))))))

-- `format_grsummary`: group `i` at the table `assigned`.
unfoldable pub group_row : ℕ → ℤ → Diagnosis → List ℕ
group_row i assigned d = row (
    bytes "┃ ║ "
    ++ (mark_of d.exited
        ++ (pad_left 2 (show_nat i)
            ++ (bytes " ┃ "
                ++ (show_nat d.stage
                    ++ (bytes " "
                        ++ (pad_right 13 (get_group_stage_label (pos d.stage))
                            ++ (bytes " │ "
                                ++ (pad_left 4 (last_action d.last_event)
                                    ++ (bytes " "
                                        ++ (pad_left 2 (show_nat (last_index d.last_event))
                                            ++ (bytes " │ "
                                                ++ (pad_right 29 (trimmed_last d.last_event)
                                                    ++ (bytes " │ "
                                                        ++ (pad_left 3 (show_int assigned)
                                                            ++ (bytes "   "))))))))))))))))

-- The loop over the groups from `i`.
unfoldable pub group_rows : ℕ → FullStat → List Diagnosis → List ℕ
group_rows i fd [] = []
group_rows i fd (d ∷ ds) = group_row i (fd.assigned_table i) d ++ group_rows (i + 1) fd ds

abbrev pub header_summary : List ℕ
header_summary =
    line (bytes "┏━━━━━━━━━━━━━━━━━━━━━━━━━━━━━━━━━[ Summary ]━━━━━━━━━━━━━━━━━━━━━━━━━━━━━━━━━━┓")
    ++ (line
          (bytes "┃                                                                              ┃")
        ++ (line (
              bytes
                "┃  TIP: Asterisk (*) marks processes that are still open.                      ┃")
            ++ (line (
                  bytes
                    "┃       Check if any open process is waiting for one that's already finished.  ┃")
                ++ (line (
                    bytes
                      "┃                                                                              ┃")))))

abbrev pub header_3summary : List ℕ
header_3summary =
    line (bytes "┃ ╔═══ Chef / Waiter / Receptionist ═════════════════════════════════════════╗ ┃")
    ++ (line
          (bytes "┃ ║     │ Stage            │ LastSem │ Last reason                           ║ ┃")
        ++ (line (
            bytes
              "┃ ║     ╆━━━━━━━━━━━━━━━━━━┿━━━━━━━━━┿━━━━━━━━━━━━━━━━━━━━━━━━━━━━━━━━━━━━━━━║ ┃")))

abbrev pub footer_3summary : List ℕ
footer_3summary =
    line (bytes "┃ ╚══════════════════════════════════════════════════════════════════════════╝ ┃")

abbrev pub toplevel_spacer : List ℕ
toplevel_spacer =
    line (bytes "┃                                                                              ┃")

pub header_grsummary : List ℕ
header_grsummary =
    line (bytes "┃ ╔═══ Groups ═══════════════════════════════════════════════════════════════╗ ┃")
    ++ (line
          (bytes "┃ ║     │ Stage           │ LastSem │ Last reason                   │ Table  ║ ┃")
        ++ (line (
            bytes
              "┃ ║     ╆━━━━━━━━━━━━━━━━━┿━━━━━━━━━┿━━━━━━━━━━━━━━━━━━━━━━━━━━━━━━━┿━━━━━━━ ║ ┃")))

-- `format_summary_extrainfo`
pub extra_info : FullStat → List ℕ
extra_info fd =
    let w = fd.waiter_request in
    let r = fd.receptionist_request in
    let asked = if is_pos r.req_type table_req then bytes "group" else bytes "table" in
    line (bytes "┃   ╔═══ Waiter request ═══╗  ╔═══ Other info ═══════╗                         ┃")
    ++ (line (
          bytes "┃   ║  type: "
          ++ (pad_right 9 (get_request_label w.req_type)
              ++ (bytes " ("
                  ++ (show_int w.req_type
                      ++ (bytes ") ║  ║        nGroups: "
                          ++ (show_nat fd.n_groups
                              ++ (bytes "    ║                         ┃")))))))
        ++ (line (
              bytes "┃   ║ group: "
              ++ (show_int w.req_group
                  ++ (bytes "             ║  ║  groupsWaiting: "
                      ++ (show_nat fd.groups_waiting
                          ++ (bytes "    ║                         ┃")))))
            ++ (line (
                  bytes "┃   ╚══════════════════════╝  ║      foodOrder: "
                  ++ (show_nat fd.food_order ++ (bytes "    ║                         ┃")))
                ++ (line (
                      bytes "┃   ╔═══ Recep. request ═══╗  ║      foodGroup: "
                      ++ (show_int fd.food_group ++ (bytes "    ║                         ┃")))
                    ++ (line (
                          bytes "┃   ║  type: "
                          ++ (pad_right 9 (get_request_label r.req_type)
                              ++ (bytes " ("
                                  ++ (show_int r.req_type
                                      ++ (bytes
                                          ") ║  ╚══════════════════════╝                         ┃")))))
                        ++ (line (
                              bytes "┃   ║ "
                              ++ (asked
                                  ++ (bytes ": "
                                      ++ (show_int r.req_group
                                          ++ (bytes
                                              "             ║                                                   ┃")))))
                            ++ (line (
                                bytes
                                  "┃   ╚══════════════════════╝                                                   ┃"))))))))
