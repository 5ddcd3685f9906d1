-- ===== src/Receptionist.antt =====
-- src/semSharedMemReceptionist.c: the receptionist, who gives out the tables. `Record` is the
-- `struct record` that the file lays over `groupRecord`, with each `char` as its byte.
pub mod Tables
pub mod Desk
pub mod Waitlist
pub mod Arrivals
pub mod Holds
pub mod Service
pub mod Serviced
pub mod Refines
pub mod Start
use so2023_trabalho.Base.{
  ℕ, zero, suc, ◌+◌, ◌-◌, ◌*◌, ◌%◌, ◌^◌, bit_and, bit_or, Bool, true, false, not, ◌==◌,
  if◌then◌else◌, update, ℤ, pos, negsuc, minus_one, is_pos, byte_of, int_of_char,
}
use so2023_trabalho.Shared.{
  FullStat, Stat, Request, max_groups, num_tables, table_req, bill_req, assign_table, recv_pay,
}
use so2023_trabalho.Sync.{mutex, wait_for_table, table_done}
use so2023_trabalho.Slots.{take_at_reception}
use so2023_trabalho.Prog.{
  Prog, ret, hang, ◌>>=◌, ◌>>◌, sem_down, sem_up, get, put, save_under_mutex, at,
}

pub record Record : Type 0 where
  pub status : ℕ
  pub n_occupied : ℕ
  pub next_table : ℕ
  pub list_begin : ℕ
  pub list_end : ℕ
  pub waitlist : ℕ → ℕ

-- `WAITLIST_LENGTH`: the `(MAXGROUPS-2) * sizeof(int)` elements that `waitlist` is declared with.
abbrev pub waitlist_length : ℕ
waitlist_length = (max_groups - 2) * 4

-- The elements of `waitlist` that lie in `groupRecord`: its 16 `int`s of 4 bytes, less the 16 bytes
-- before `waitlist` (`status`, the two `char`s and their padding, `list_begin` and `list_end`).
abbrev pub waitlist_room : ℕ
waitlist_room = max_groups * 4 - 16

-- `groupRecord` is a static array, so it starts as zeros (and `main` stores zeros again).
unfoldable pub init_record : Record
init_record = record {
  status = 0;
  n_occupied = 0;
  next_table = 0;
  list_begin = 0;
  list_end = 0;
  waitlist = λ _. 0;
}

-- `status & (1 << t)`
unfoldable pub is_table_occupied : Record → ℕ → Bool
is_table_occupied r t = not (bit_and r.status (2 ^ t) == 0)

-- `status` is an `unsigned int`: `~(1 << t)` is taken in 32 bits.
unfoldable pub set_table_occupied : Record → ℕ → Bool → Record
set_table_occupied r t true = record r {
  status = bit_or r.status (2 ^ t);
  n_occupied = (r.n_occupied + 1) % 256;
  next_table = (t + 1) % num_tables;
}
set_table_occupied r t false = record r {
  status = bit_and r.status (2 ^ 32 - 1 - 2 ^ t);
  n_occupied = (r.n_occupied + 255) % 256;
}

-- The loop of `decideTableOrWait` from `i`, with `k` rounds left.
unfoldable pub scan_tables : ℕ → ℕ → Record → ℤ
scan_tables zero i r = minus_one
scan_tables (suc k) i r =
    let index = (i + r.next_table) % num_tables in
    if is_table_occupied r index then scan_tables k (i + 1) r else pos index

-- The group `n` is not looked at.
unfoldable pub decide_table_or_wait : Record → ℤ → ℤ
unfolding scan_tables
decide_table_or_wait r n =
    if r.n_occupied == num_tables then minus_one else scan_tables num_tables 0 r

-- The group at the head of the waiting list, and the record without it.
unfoldable pub take_waiting : Record → Prog (ℤ × Record)
take_waiting r = do
  i ← at waitlist_room (pos r.list_begin)
  put (λ s. record s { groups_waiting = s.groups_waiting - 1 })
  ret (int_of_char (r.waitlist i), record r { list_begin = (r.list_begin + 1) % waitlist_length })

unfoldable pub decide_next_group : Record → Prog (ℤ × Record)
unfolding take_waiting
decide_next_group r = do
  waiting ← get (λ s. s.groups_waiting)
  if waiting == 0 then ret (minus_one, r) else take_waiting r

abbrev pub with_stat : ℕ → FullStat → FullStat
with_stat x s = record s { st = record s.st { receptionist_stat = x } }

unfoldable pub wait_for_group : Prog Request
wait_for_group = do save_under_mutex (with_stat 0); take_at_reception

-- The two branches of `provideTableOrWaitingRoom`.
unfoldable pub seat_or_queue : Record → ℤ → ℤ → Prog Record
unfolding set_table_occupied
seat_or_queue r n (pos table) = do
  g ← at max_groups n
  put (λ s. record s { assigned_table = update s.assigned_table g (pos table) })
  sem_up (wait_for_table g)
  ret (set_table_occupied r table true)
seat_or_queue r n (negsuc _) = do
  i ← at waitlist_room (pos r.list_end)
  put (λ s. record s { groups_waiting = s.groups_waiting + 1 })
  ret (record r {
    waitlist = update r.waitlist i (byte_of n);
    list_end = (r.list_end + 1) % waitlist_length;
  })

unfoldable pub provide_table_or_waiting_room : Record → ℤ → Prog Record
unfolding seat_or_queue decide_table_or_wait
provide_table_or_waiting_room r n = do
  save_under_mutex (with_stat assign_table)
  seat_or_queue r n (decide_table_or_wait r n)

-- The next group gets the vacant table, if a group waits.
unfoldable pub call_next : ℤ × Record → Prog Record
unfolding provide_table_or_waiting_room
call_next (pos g, r) = provide_table_or_waiting_room r (pos g)
call_next (negsuc _, r) = ret r

-- The end of `receivePayment`, once the table of group `g` is read; `n` is the number of groups.
unfoldable pub vacate : ℕ → Record → ℕ → ℤ → Prog Record
unfolding set_table_occupied decide_next_group call_next
vacate n r g (negsuc _) = do sem_down mutex; hang
vacate n r g (pos table) = do
  put (λ s. record s { assigned_table = update s.assigned_table g minus_one })
  let r' = set_table_occupied r table false
  t ← at num_tables (pos table)
  sem_up (table_done n t)
  next ← decide_next_group r'
  call_next next

unfoldable pub receive_payment : ℕ → Record → ℤ → Prog Record
unfolding vacate
receive_payment n r group = do
  save_under_mutex (with_stat recv_pay)
  g ← at max_groups group
  table ← get (λ s. s.assigned_table g)
  vacate n r g table

-- The `switch` of `main`; a request of another kind is dropped.
unfoldable pub serve : ℕ → Record → Request → Prog Record
unfolding provide_table_or_waiting_room receive_payment
serve n r req =
    if is_pos req.req_type table_req
    then provide_table_or_waiting_room r req.req_group
    else if is_pos req.req_type bill_req
    then receive_payment n r req.req_group
    else ret r

-- The loop of `main`, with `k` rounds left.
unfoldable pub serve_loop : ℕ → ℕ → Record → Prog Record
unfolding serve wait_for_group
serve_loop n zero r = ret r
serve_loop n (suc k) r = do req ← wait_for_group; r' ← serve n r req; serve_loop n k r'

-- The life cycle of the receptionist: two requests from each group.
unfoldable pub receptionist : ℕ → Prog Record
unfolding serve_loop init_record
receptionist n = serve_loop n (n * 2) init_record
