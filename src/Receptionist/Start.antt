-- ===== src/Receptionist/Start.antt =====
-- The reception as `main` of src/probSemSharedMemRestaurant.c and of
-- src/semSharedMemReceptionist.c set it up, and the request that the receptionist reads.
use so2023_trabalho.Base.{
  ℕ, zero, suc, ◌+◌, ◌-◌, ◌≤◌, ◌≡◌, ◌≢◌, refl, inl, false, arith, update, minus_one, ==_ne, ◌∙◌,
}
use so2023_trabalho.Shared.{FullStat, max_groups}
use so2023_trabalho.Sync.{mutex, receptionist_req, receptionist_request_possible}
use so2023_trabalho.Prog.{World, done, run, get, sem_down, sem_up, ret, ◌>>=◌, ◌>>◌}
use so2023_trabalho.Prog.Runs.{saved, run-save_under_mutex}
use so2023_trabalho.Receptionist.{init_record, is_table_occupied, with_stat, wait_for_group}
use so2023_trabalho.Receptionist.Desk.{init_desk}
use so2023_trabalho.Receptionist.Tables.{IsTables}
use so2023_trabalho.Receptionist.Serviced.{Reception}

init-free : (t : ℕ) → t ≤ 1 → is_table_occupied init_record t ≡ false
unfolding is_table_occupied init_record
init-free zero h = refl
init-free (suc zero) h = refl
init-free (suc (suc t)) h = absurd (omega arith)

pub init-IsTables : IsTables init_record
unfolding init_record is_table_occupied
init-IsTables = record { small = omega arith; counted = refl; next_lt = omega arith }

-- The empty reception is in order for up to `MAXGROUPS` groups, when no group has a table and none
-- waits in the shared state.
pub init-Reception :
    (n : ℕ) (s : FullStat)
    → n ≤ max_groups
    → ((g : ℕ) → s.assigned_table g ≡ minus_one)
    → s.groups_waiting ≡ 0
    → Reception n init_desk init_record s
unfolding init_record
init-Reception n s few none_seated none_waits = record {
  holds = record {
    few = few;
    tables = init-IsTables;
    occupied = λ t lt. init-free t (omega arith);
    placed = λ g t e. cc;
    seated = λ g t e. cc;
    assigns = none_seated;
    stored = tt;
    queued = tt;
    ends = omega arith;
    counted = none_waits;
    once = omega arith;
  };
  busy = inl refl;
}

-- The receptionist announces that it waits, takes the request that a group has placed, and opens
-- the way for the next one.
pub run-wait_for_group :
    (w : World)
    → w.sem mutex ≢ 0
    → w.sem receptionist_req ≢ 0
    → run wait_for_group w
      ≡ done w.full.receptionist_request (record (saved (with_stat 0) w) {
        sem =
            update
              (update w.sem receptionist_req (w.sem receptionist_req - 1))
              receptionist_request_possible
              (w.sem receptionist_request_possible + 1);
      })
unfolding wait_for_group run
run-wait_for_group w free placed =
    let rest =
      sem_down receptionist_req
      >> (get (λ s. s.receptionist_request) >>= λ req.
          sem_up receptionist_request_possible >> ret req) in
    run-save_under_mutex (with_stat 0) rest w free
    ∙ (rw (==_ne (w.sem receptionist_req) 0 placed, run) refl)
