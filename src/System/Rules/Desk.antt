-- ===== src/System/Rules/Desk.antt =====
-- The rules of a resource and the program of the receptionist.
use so2023_trabalho.Base.{
  ℕ, zero, suc, ◌-◌, refl, true, false, if◌then◌else◌, ◌==◌, ℤ, pos, negsuc, minus_one, is_pos, inr,
  arith,
}
use so2023_trabalho.Shared
use so2023_trabalho.Shared.{FullStat, Request, max_groups, num_tables}
use so2023_trabalho.Sync
use so2023_trabalho.Prog.{Prog, ret, ◌>>=◌, get, save_under_mutex, at, store}
use so2023_trabalho.Slots.{take_at_reception}
use so2023_trabalho.Receptionist
use so2023_trabalho.Receptionist.{
  Record, waitlist_room, take_waiting, decide_next_group, wait_for_group, seat_or_queue,
  decide_table_or_wait, provide_table_or_waiting_room, call_next, vacate, receive_payment, serve,
  serve_loop, set_table_occupied,
}
use so2023_trabalho.System.Resource.{Resource, Sound, Sound->>=, Sound-at, Sound-if}
use so2023_trabalho.System.Rules.{Rules, IsPlain}
use so2023_trabalho.System.Rules.Customers.{Sound->>, raises}

module _ (r : Resource) (rules : Rules r) where
  open rules use {saves, notes, takes_desk, takes_waiter, others, plain}

  stores :
      (f : FullStat → FullStat) {A : Type 0} (k : Prog A)
      → IsPlain f
      → Sound r false k false
      → Sound r false (store f k) false
  stores f k p h = (inr (plain f p), h)

  take_waiting-Sound : (x : Record) → Sound r false (take_waiting x) false
  unfolding take_waiting
  take_waiting-Sound x = Sound-at r waitlist_room (pos x.list_begin) _ false false λ i. (
    inr (
        plain (λ s. record s { groups_waiting = s.groups_waiting - 1 })
          ((λ s. (refl, refl)), λ s. refl)),
    refl,
  )

  decide_next_group-Sound : (x : Record) → Sound r false (decide_next_group x) false
  unfolding decide_next_group
  decide_next_group-Sound x s =
      Sound-if r (s.groups_waiting == 0) (ret (minus_one, x)) (take_waiting x) false false refl
        (take_waiting-Sound x)

  wait_for_group-Sound : Sound r false wait_for_group false
  unfolding wait_for_group
  wait_for_group-Sound =
      Sound->> r rules (save_under_mutex (Receptionist.with_stat 0)) take_at_reception
        (saves (Receptionist.with_stat 0) (λ s. (refl, refl))) takes_desk

  seat_or_queue-Sound : (x : Record) (n d : ℤ) → Sound r false (seat_or_queue x n d) false
  unfolding seat_or_queue
  seat_or_queue-Sound x n (pos t) = Sound-at r max_groups n _ false false λ g. (
    inr (plain _ ((λ s. (refl, refl)), λ s. refl)),
    raises r rules (Sync.wait_for_table g) (ret (set_table_occupied x t true)) (omega arith) refl,
  )
  seat_or_queue-Sound x n (negsuc d) =
      Sound-at r waitlist_room (pos x.list_end) _ false false
        λ i. (inr (plain _ ((λ s. (refl, refl)), λ s. refl)), refl)

  provide-Sound : (x : Record) (n : ℤ) → Sound r false (provide_table_or_waiting_room x n) false
  unfolding provide_table_or_waiting_room
  provide-Sound x n =
      Sound->> r rules (save_under_mutex (Receptionist.with_stat Shared.assign_table))
        (seat_or_queue x n (decide_table_or_wait x n))
        (saves (Receptionist.with_stat Shared.assign_table) (λ s. (refl, refl)))
        (seat_or_queue-Sound x n (decide_table_or_wait x n))

  call_next-Sound : (next : ℤ × Record) → Sound r false (call_next next) false
  unfolding call_next
  call_next-Sound (pos g, x) = provide-Sound x (pos g)
  call_next-Sound (negsuc g, x) = refl

  vacate-Sound : (n : ℕ) (x : Record) (g : ℕ) (table : ℤ) → Sound r false (vacate n x g table) false
  unfolding vacate
  vacate-Sound n x g (negsuc t) = (refl, tt)
  vacate-Sound n x g (pos t) = (
    inr (plain _ ((λ s. (refl, refl)), λ s. refl)),
    Sound-at r num_tables (pos t) _ false false λ u.
        raises r rules (Sync.table_done n u)
          (decide_next_group (set_table_occupied x t false) >>= call_next) (omega arith)
          (Sound->>= r (decide_next_group (set_table_occupied x t false)) call_next false false
            false (decide_next_group-Sound (set_table_occupied x t false)) call_next-Sound),
  )

  receive_payment-Sound :
      (n : ℕ) (x : Record) (group : ℤ) → Sound r false (receive_payment n x group) false
  unfolding receive_payment
  receive_payment-Sound n x group =
      Sound->> r rules (save_under_mutex (Receptionist.with_stat Shared.recv_pay))
        (at max_groups group >>= λ g. get (λ s. s.assigned_table g) >>= vacate n x g)
        (saves (Receptionist.with_stat Shared.recv_pay) (λ s. (refl, refl)))
        (Sound-at r max_groups group (λ g. get (λ s. s.assigned_table g) >>= vacate n x g) false
          false (λ g s. vacate-Sound n x g (s.assigned_table g)))

  serve-Sound : (n : ℕ) (x : Record) (q : Request) → Sound r false (serve n x q) false
  unfolding serve
  serve-Sound n x q =
      Sound-if r (is_pos q.req_type Shared.table_req) (provide_table_or_waiting_room x q.req_group)
        (if is_pos q.req_type Shared.bill_req then receive_payment n x q.req_group else ret x) false
        false (provide-Sound x q.req_group)
        (Sound-if r (is_pos q.req_type Shared.bill_req) (receive_payment n x q.req_group) (ret x)
          false false (receive_payment-Sound n x q.req_group) refl)

  pub serve_loop-Sound : (n k : ℕ) (x : Record) → Sound r false (serve_loop n k x) false
  unfolding serve_loop
  serve_loop-Sound n zero x = refl
  serve_loop-Sound n (suc k) x =
      Sound->>= r wait_for_group (λ q. serve n x q >>= serve_loop n k) false false false
        wait_for_group-Sound
        (λ q.
          Sound->>= r (serve n x q) (serve_loop n k) false false false (serve-Sound n x q)
            (serve_loop-Sound n k))
