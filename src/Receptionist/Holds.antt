-- ===== src/Receptionist/Holds.antt =====
-- When the receptionist's record and the shared state hold what the desk says, and how the parts of
-- an operation keep that up.
use so2023_trabalho.Base.{
  ℕ, ◌+◌, ◌-◌, ◌%◌, ◌≤◌, ◌<◌, ◌≡◌, ◌≢◌, ap, Bool, true, false, Option, none, some, List, [], ◌∷◌,
  arith, length, length-append, update, ℤ, pos, minus_one, byte_of,
}
use so2023_trabalho.Shared.{max_groups}
use so2023_trabalho.Receptionist.{Record, is_table_occupied, set_table_occupied, waitlist_length}
use so2023_trabalho.Receptionist.Desk.{
  Phase, to_arrive, waiting, at_table, gone, Desk, sit, go, join,
}
use so2023_trabalho.Receptionist.Tables.{
  IsTables, set-IsTables, clear-IsTables, occupied-set, occupied-clear,
}
use so2023_trabalho.Receptionist.Waitlist.{
  Stored, NotIn, Queued, Stored-append, NotIn-of_phase, Queued-update, Queued-append,
}
use so2023_trabalho.Receptionist.Arrivals.{
  arrivals, arrivals-le, arrivals-le-update, arrivals-lt-update,
}

abbrev pub is_some : Option ℕ → Bool
is_some none = false
is_some (some _) = true

-- The entry of `assignedTable` for a group.
abbrev pub table_of : Phase → ℤ
table_of (at_table t) = pos t
table_of _ = minus_one

-- `assigned` is `assignedTable` and `count` is `groupsWaiting`.
pub record Holds (n : ℕ) (d : Desk) (r : Record) (assigned : ℕ → ℤ) (count : ℕ) : Type 0 where
  pub few : n ≤ max_groups
  pub tables : IsTables r
  pub occupied : (t : ℕ) → t < 2 → is_table_occupied r t ≡ is_some (d.seat t)
  pub placed : (g t : ℕ) → d.seat t ≡ some g → (g < n) × (t < 2) × (d.phase g ≡ at_table t)
  pub seated : (g t : ℕ) → d.phase g ≡ at_table t → d.seat t ≡ some g
  pub assigns : (g : ℕ) → assigned g ≡ table_of (d.phase g)
  pub stored : Stored r.waitlist r.list_begin d.queue
  pub queued : Queued n d.phase d.queue
  pub ends : r.list_begin + length d.queue ≡ r.list_end
  pub counted : count ≡ length d.queue
  pub once : r.list_end ≤ arrivals n d.phase

module _ {n : ℕ} {d : Desk} {r : Record} {assigned : ℕ → ℤ} {count : ℕ}
    (h : Holds n d r assigned count) where
  open h use {few, tables, occupied, placed, seated, assigns, stored, queued, ends, counted, once}

  -- A group that is not at a table sits down at a free one.
  pub sit-Holds :
      (g t : ℕ)
      → g < n
      → t < 2
      → d.seat t ≡ none
      → ((u : ℕ) → d.phase g ≢ at_table u)
      → NotIn g d.queue
      → Holds n (sit g t d) (set_table_occupied r t true) (update assigned g (pos t)) count
  unfolding set_table_occupied
  sit-Holds g t lt ht free away out = record {
    few = few;
    tables = set-IsTables tables t ht (ground (arith, occupied t ht));
    occupied = λ u hu. ground (arith, occupied u hu, occupied-set tables t ht u hu);
    placed = λ f u e. ground (arith, placed f u, placed g u, away u);
    seated = λ f u e. ground (arith, seated f u, away u);
    assigns = λ f. ground (arith, assigns f);
    stored = stored;
    queued = Queued-update n d.phase g (at_table t) d.queue out queued;
    ends = ends;
    counted = counted;
    once = omega (arith, arrivals-le-update d.phase g (at_table t) (λ e. cc) n);
  }

  -- A group at a table goes, and its table is free.
  pub go-Holds :
      (g t : ℕ)
      → d.phase g ≡ at_table t
      → Holds n (go g t d) (set_table_occupied r t false) (update assigned g minus_one) count
  unfolding set_table_occupied
  go-Holds g t e = record {
    few = few;
    tables = clear-IsTables tables t ht (ground (arith, occupied t ht, seated g t));
    occupied = λ u hu. ground (arith, occupied u hu, occupied-clear tables t ht u hu);
    placed = λ f u q. ground (arith, placed f u, seated g t);
    seated = λ f u q. ground (arith, seated f u, seated g t);
    assigns = λ f. ground (arith, assigns f);
    stored = stored;
    queued =
        Queued-update n d.phase g gone d.queue
          (NotIn-of_phase n d.phase g d.queue (ground arith) queued) queued;
    ends = ends;
    counted = counted;
    once = omega (arith, arrivals-le-update d.phase g gone (λ q. cc) n);
  }
    where
      ht : t < 2
      ht = (placed g t (seated g t e)).1

  -- The waiting list does not come to its last index.
  pub list_end-lt : (g : ℕ) → g < n → d.phase g ≡ to_arrive → r.list_end < max_groups
  list_end-lt g lt new = omega (
    arith,
    arrivals-lt-update d.phase g waiting (λ q. cc) n new lt,
    arrivals-le n (update d.phase g waiting),
  )

  small_byte : (g : ℕ) → g < n → byte_of (pos g) ≡ g
  small_byte g lt = omega arith

  -- A new group joins the queue.
  pub join-Holds :
      (g : ℕ)
      → g < n
      → d.phase g ≡ to_arrive
      → Holds n
          (join g d)
          (record r {
            waitlist = update r.waitlist r.list_end (byte_of (pos g));
            list_end = (r.list_end + 1) % waitlist_length;
          })
          assigned
          (count + 1)
  unfolding is_table_occupied
  join-Holds g lt new = record {
    few = few;
    tables = record { small = tables.small; counted = tables.counted; next_lt = tables.next_lt };
    occupied = occupied;
    placed = λ f u q. ground (arith, placed f u);
    seated = λ f u q. ground (arith, seated f u);
    assigns = λ f. ground (arith, assigns f);
    stored =
        rw (small_byte g lt)
          (Stored-append r.waitlist r.list_begin r.list_end g d.queue ends stored);
    queued =
        Queued-append n d.phase g d.queue (NotIn-of_phase n d.phase g d.queue (ground arith) queued)
          queued lt;
    ends = omega (arith, length-append d.queue (g ∷ []), list_end-lt g lt new);
    counted = omega (arith, length-append d.queue (g ∷ []));
    once =
        omega
          (arith, arrivals-lt-update d.phase g waiting (λ q. cc) n new lt, list_end-lt g lt new);
  }

  -- The group at the head of the queue is called.
  pub call-Holds :
      (g : ℕ) (q : List ℕ)
      → d.queue ≡ g ∷ q
      → Holds n
          (record d { queue = q })
          (record r { list_begin = (r.list_begin + 1) % waitlist_length })
          assigned
          (count - 1)
        × (r.waitlist r.list_begin ≡ g)
        × (g < n)
        × (d.phase g ≡ waiting)
        × NotIn g q
  unfolding is_table_occupied
  call-Holds g q e =
      let s : Stored r.waitlist r.list_begin (g ∷ q) = rw e at stored in
      let w : Queued n d.phase (g ∷ q) = rw e at queued in
      let no_wrap : (r.list_begin + 1) % waitlist_length ≡ r.list_begin + 1 =
        omega (arith, ap length e, arrivals-le n d.phase) in
      (
        record {
          few = few;
          tables = record {
            small = tables.small;
            counted = tables.counted;
            next_lt = tables.next_lt;
          };
          occupied = occupied;
          placed = placed;
          seated = seated;
          assigns = assigns;
          stored = rw no_wrap s.1;
          queued = w.3;
          ends = omega (arith, ap length e, arrivals-le n d.phase);
          counted = omega (arith, ap length e);
          once = once;
        },
        s.0,
        w.0,
        w.1,
        w.2,
      )
