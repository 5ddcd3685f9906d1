-- ===== src/Tests/Visits.antt =====
-- The theorems on a group at the reception at concrete inputs.
use so2023_trabalho.Base.{◌≡◌, refl, [], pos, ◌==◌, if◌then◌else◌, arith}
use so2023_trabalho.Shared
use so2023_trabalho.Shared.{FullStat, Request}
use so2023_trabalho.Sync.{wait_for_table, table_done}
use so2023_trabalho.Prog.{Prog, World, done, blocked, run}
use so2023_trabalho.Prog.Runs.{saved, raise}
use so2023_trabalho.Group.{with_stat, check_in_at_reception, check_out_at_reception}
use so2023_trabalho.Group.Reception.{asked, heard, checks_in, checks_out}
use so2023_trabalho.Receptionist.{wait_for_group}
use so2023_trabalho.Receptionist.Desk.{ask, pay}

abbrev unasked : Request
unasked = record { req_type = pos 0; req_group = pos 0 }

-- Every group at table 1; the mutex and the place for a request to the receptionist are free.
abbrev hall : World
hall = record {
  full = record {
    st = record { receptionist_stat = 0; waiter_stat = 0; chef_stat = 0; group_stat = λ _. 1 };
    n_groups = 5;
    groups_waiting = 0;
    start_time = λ _. pos 10;
    eat_time = λ _. pos 20;
    assigned_table = λ _. pos 1;
    food_order = 0;
    food_group = pos 0;
    receptionist_request = unasked;
    waiter_request = unasked;
  };
  sem = λ s. if s == 1 then 1 else if s == 3 then 1 else 0;
  log = [];
}

checks_in_example :
    (k : Prog (Unit {0})) × (run (check_in_at_reception 4) hall
      ≡ blocked (wait_for_table 4) k (asked (ask 4) (saved (with_stat 4 Shared.at_reception) hall)))
    × (run wait_for_group (asked (ask 4) (saved (with_stat 4 Shared.at_reception) hall))
        ≡ done (ask 4) (heard (ask 4) (saved (with_stat 4 Shared.at_reception) hall)))
    × (run k (raise (wait_for_table 4) hall) ≡ done tt hall)
checks_in_example = checks_in 4 hall hall (omega arith) (omega arith) (omega arith) refl

checks_out_example :
    (k : Prog (Unit {0})) × (run (check_out_at_reception 5 4) hall
      ≡ blocked (table_done 5 1) k (asked (pay 4) (saved (with_stat 4 Shared.checkout) hall)))
    × (run wait_for_group (asked (pay 4) (saved (with_stat 4 Shared.checkout) hall))
        ≡ done (pay 4) (heard (pay 4) (saved (with_stat 4 Shared.checkout) hall)))
    × (run k (raise (table_done 5 1) hall) ≡ done tt (saved (with_stat 4 Shared.leaving) hall))
checks_out_example =
    checks_out 5 4 1 hall hall (omega arith) (omega arith) refl (omega arith) (omega arith) refl
      (omega arith)
