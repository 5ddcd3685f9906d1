-- ===== src/Receptionist/Desk.antt =====
-- What the reception promises, with no word of bits, bytes or indices: who is where, who sits at
-- which table, and who waits, in the order of arrival.
use so2023_trabalho.Base.{ℕ, ◌<◌, ◌≡◌, ◌≢◌, Option, none, some, List, [], ◌∷◌, ◌++◌, pos, update}
use so2023_trabalho.Shared.{Request, table_req, bill_req, num_tables}
use so2023_trabalho.Sync.{wait_for_table, table_done}

-- `TOARRIVE`, `WAIT`, `ATTABLE` and `DONE`
pub data Phase : Type 0 where
  to_arrive : Phase
  waiting : Phase
  at_table : ℕ → Phase
  gone : Phase

pub record Desk : Type 0 where
  pub phase : ℕ → Phase
  pub seat : ℕ → Option ℕ
  pub queue : List ℕ

abbrev pub init_desk : Desk
init_desk = record { phase = λ _. to_arrive; seat = λ _. none; queue = [] }

abbrev pub ask : ℕ → Request
ask g = record { req_type = pos table_req; req_group = pos g }

abbrev pub pay : ℕ → Request
pay g = record { req_type = pos bill_req; req_group = pos g }

-- Group `g` sits down at table `t`; it gets up and goes; it joins the end of the queue.
abbrev pub sit : ℕ → ℕ → Desk → Desk
sit g t d = record d { phase = update d.phase g (at_table t); seat = update d.seat t (some g) }

abbrev pub go : ℕ → ℕ → Desk → Desk
go g t d = record d { phase = update d.phase g gone; seat = update d.seat t none }

abbrev pub join : ℕ → Desk → Desk
join g d = record d { phase = update d.phase g waiting; queue = d.queue ++ g ∷ [] }

-- One request served, with the semaphores that are raised, among `n` groups.
pub data Serves (n : ℕ) (d : Desk) : Request → List ℕ → Desk → Type 0 where
  seats :
      (g t : ℕ)
      → d.phase g ≡ to_arrive
      → d.queue ≡ []
      → t < num_tables
      → d.seat t ≡ none
      → Serves n d (ask g) (wait_for_table g ∷ []) (sit g t d)
  queues :
      (g : ℕ)
      → d.phase g ≡ to_arrive
      → ((t : ℕ) → t < num_tables → d.seat t ≢ none)
      → Serves n d (ask g) [] (join g d)
  leaves :
      (g t : ℕ)
      → d.phase g ≡ at_table t
      → d.queue ≡ []
      → Serves n d (pay g) (table_done n t ∷ []) (go g t d)
  hands_on :
      (g t h : ℕ) (q : List ℕ)
      → d.phase g ≡ at_table t
      → d.queue ≡ h ∷ q
      → Serves n d
          (pay g)
          (table_done n t ∷ wait_for_table h ∷ [])
          (sit h t (record (go g t d) { queue = q }))

-- The requests that a group may make, by the order of its life cycle.
pub data Allowed (n : ℕ) (d : Desk) : Request → Type 0 where
  arrives : (g : ℕ) → g < n → d.phase g ≡ to_arrive → Allowed n d (ask g)
  pays : (g t : ℕ) → g < n → d.phase g ≡ at_table t → Allowed n d (pay g)
