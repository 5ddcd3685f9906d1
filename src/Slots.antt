-- ===== src/Slots.antt =====
-- The two places for a request in shared memory, each with the pair of semaphores that guards it: how
-- the groups and the chef place a request, and how the receptionist and the waiter take it.
use so2023_trabalho.Shared.{Request}
use so2023_trabalho.Sync.{
  receptionist_req, receptionist_request_possible, waiter_request, waiter_request_possible,
}
use so2023_trabalho.Prog.{Prog, ret, ◌>>=◌, ◌>>◌, sem_down, sem_up, get, put}

abbrev pub place_at_reception : Request → Prog (Unit {0})
place_at_reception req = do
  sem_down receptionist_request_possible
  put (λ s. record s { receptionist_request = req })
  sem_up receptionist_req

abbrev pub take_at_reception : Prog Request
take_at_reception = do
  sem_down receptionist_req
  req ← get (λ s. s.receptionist_request)
  sem_up receptionist_request_possible
  ret req

abbrev pub place_with_waiter : Request → Prog (Unit {0})
place_with_waiter req = do
  sem_down waiter_request_possible
  put (λ s. record s { waiter_request = req })
  sem_up waiter_request

abbrev pub take_with_waiter : Prog Request
take_with_waiter = do
  sem_down waiter_request
  req ← get (λ s. s.waiter_request)
  sem_up waiter_request_possible
  ret req
