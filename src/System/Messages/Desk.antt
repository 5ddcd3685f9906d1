-- ===== src/System/Messages/Desk.antt =====
-- The receptionist announces nothing of its own, whatever it is asked for.
use so2023_trabalho.Base.{
  ℕ, zero, suc, ◌+◌, ◌-◌, ◌<◌, refl, update, true, false, if◌then◌else◌, ◌==◌, is_pos, ℤ, pos,
  negsuc, minus_one, arith,
}
use so2023_trabalho.Shared
use so2023_trabalho.Shared.{FullStat, Request, max_groups, num_tables}
use so2023_trabalho.Sync
use so2023_trabalho.Prog.{Prog, ret, up, ◌>>=◌, at, get}
use so2023_trabalho.Slots.{take_at_reception}
use so2023_trabalho.Receptionist
use so2023_trabalho.Receptionist.{
  Record, waitlist_room, take_waiting, decide_next_group, wait_for_group, seat_or_queue,
  decide_table_or_wait, provide_table_or_waiting_room, call_next, vacate, receive_payment, serve,
  serve_loop, set_table_occupied,
}
use so2023_trabalho.System.Messages.{nothing, IsDeskRequest, Mindful, Mindful->>=, Mindful-at}
use so2023_trabalho.System.Messages.Programs.{
  quiet, saved, Mindful-if, takes_desk, mute, big-IsMute,
}

module _ (n : ℕ) where
  -- A piece of the receptionist, who may sleep for ever.
  abbrev Calm : {A : Type 0} → Prog A → Type 0
  Calm m = Mindful n true nothing m (λ _. Unit {0})

  -- A signal that announces nothing.
  signals : {A : Type 0} (s : ℕ) (m : Prog A) → 6 < s → Calm m → Calm (up s m)
  signals s m lt h = (mute s (big-IsMute s lt) nothing, h)

  decide_next_group-Mindful : (x : Record) → Calm (decide_next_group x)
  unfolding decide_next_group take_waiting
  decide_next_group-Mindful x = λ s _.
      Mindful-if n true (s.groups_waiting == 0) (ret (minus_one, x)) (take_waiting x)
        (λ _. Unit {0}) tt
        (Mindful-at n true waitlist_room (pos x.list_begin) _ nothing (λ _. Unit {0})
          (λ i _ _. (
            nothing,
            quiet n true nothing (λ s. record s { groups_waiting = s.groups_waiting - 1 })
                (λ f. (refl, refl, refl)),
            tt,
          )))

  seat_or_queue-Mindful : (x : Record) (g d : ℤ) → Calm (seat_or_queue x g d)
  unfolding seat_or_queue
  seat_or_queue-Mindful x g (pos t) =
      Mindful-at n true max_groups g _ nothing (λ _. Unit {0})
        λ i _ _. (
          nothing,
          quiet n true nothing
              (λ s. record s { assigned_table = update s.assigned_table i (pos t) })
              (λ f. (refl, refl, refl)),
          signals (Sync.wait_for_table i) (ret (set_table_occupied x t true)) (omega arith) tt,
        )
  seat_or_queue-Mindful x g (negsuc d) =
      Mindful-at n true waitlist_room (pos x.list_end) _ nothing (λ _. Unit {0})
        (λ i _ _. (
          nothing,
          quiet n true nothing (λ s. record s { groups_waiting = s.groups_waiting + 1 })
              (λ f. (refl, refl, refl)),
          tt,
        ))

  provide-Mindful : (x : Record) (g : ℤ) → Calm (provide_table_or_waiting_room x g)
  unfolding provide_table_or_waiting_room
  provide-Mindful x g =
      saved n true (Receptionist.with_stat Shared.assign_table)
        (seat_or_queue x g (decide_table_or_wait x g)) (λ _. Unit {0}) (λ f. (refl, refl, refl))
        (seat_or_queue-Mindful x g (decide_table_or_wait x g))

  call_next-Mindful : (next : ℤ × Record) → Calm (call_next next)
  unfolding call_next
  call_next-Mindful (pos g, x) = provide-Mindful x (pos g)
  call_next-Mindful (negsuc g, x) = tt

  vacate-Mindful : (x : Record) (g : ℕ) (table : ℤ) → Calm (vacate n x g table)
  unfolding vacate
  vacate-Mindful x g (negsuc t) = refl
  vacate-Mindful x g (pos t) = (
    nothing,
    quiet n true nothing (λ s. record s { assigned_table = update s.assigned_table g minus_one })
        (λ f. (refl, refl, refl)),
    Mindful-at n true num_tables (pos t) _ nothing (λ _. Unit {0})
        (λ u _ _.
          signals (Sync.table_done n u)
            (decide_next_group (set_table_occupied x t false) >>= call_next) (omega arith)
            (Mindful->>= n true (decide_next_group (set_table_occupied x t false)) call_next nothing
              (λ _. Unit {0}) (λ _. Unit {0})
              (decide_next_group-Mindful (set_table_occupied x t false))
              (λ next _. call_next-Mindful next))),
  )

  receive_payment-Mindful : (x : Record) (group : ℤ) → Calm (receive_payment n x group)
  unfolding receive_payment
  receive_payment-Mindful x group =
      saved n true (Receptionist.with_stat Shared.recv_pay)
        (at max_groups group >>= λ g. get (λ s. s.assigned_table g) >>= vacate n x g)
        (λ _. Unit {0}) (λ f. (refl, refl, refl))
        (Mindful-at n true max_groups group (λ g. get (λ s. s.assigned_table g) >>= vacate n x g)
          nothing (λ _. Unit {0}) (λ g _ _ s _. vacate-Mindful x g (s.assigned_table g)))

  serve-Mindful : (x : Record) (q : Request) → Calm (serve n x q)
  unfolding serve
  serve-Mindful x q =
      Mindful-if n true (is_pos q.req_type Shared.table_req)
        (provide_table_or_waiting_room x q.req_group)
        (if is_pos q.req_type Shared.bill_req then receive_payment n x q.req_group else ret x)
        (λ _. Unit {0}) (provide-Mindful x q.req_group)
        (Mindful-if n true (is_pos q.req_type Shared.bill_req) (receive_payment n x q.req_group)
          (ret x) (λ _. Unit {0}) (receive_payment-Mindful x q.req_group) tt)

  wait_for_group-Mindful : Mindful n true nothing wait_for_group (IsDeskRequest n)
  unfolding wait_for_group
  wait_for_group-Mindful =
      saved n true (Receptionist.with_stat 0) take_at_reception (IsDeskRequest n)
        (λ f. (refl, refl, refl)) (takes_desk n true)

  pub serve_loop-Mindful : (k : ℕ) (x : Record) → Calm (serve_loop n k x)
  unfolding serve_loop
  serve_loop-Mindful zero x = tt
  serve_loop-Mindful (suc k) x =
      Mindful->>= n true wait_for_group (λ q. serve n x q >>= serve_loop n k) nothing
        (IsDeskRequest n) (λ _. Unit {0}) wait_for_group-Mindful
        (λ q _.
          Mindful->>= n true (serve n x q) (serve_loop n k) nothing (λ _. Unit {0}) (λ _. Unit {0})
            (serve-Mindful x q) (λ y _. serve_loop-Mindful k y))
