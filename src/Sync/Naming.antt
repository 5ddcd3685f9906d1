-- ===== src/Sync/Naming.antt =====
-- `get_semaphore_name` of src/semDebug_sharedDataSync.h: the name of a semaphore in the reports.
pub mod Plain
use so2023_trabalho.Base.{
  ℕ, ◌+◌, ◌-◌, ◌≤◌, ◌≡◌, refl, ap, ◌∙◌, List, ◌++◌, ◌&&◌, ltb, leb, ◌==◌, if◌then◌else◌, codes,
  length, take, pos, arith,
}
use so2023_trabalho.Shared.{num_tables}
use so2023_trabalho.Logging.{show_int}
use so2023_trabalho.Sync.Layout.{
  Slot, slot_id, IsSlot, mutex, receptionist_req, receptionist_request_possible, waiter_request,
  waiter_request_possible, wait_order, order_received, wait_for_table, food_arrived,
  request_received, table_done,
}

-- The format `text%d)`.
numbered : List ℕ → ℕ → List ℕ
numbered text k = text ++ (show_int (pos k) ++ codes ")")

-- The `default` case of the `switch`, for an index of an array.
array_name : ℕ → ℕ → List ℕ
array_name n index =
    let first_food = 8 + n in
    let first_received = first_food + num_tables in
    let first_done = first_received + num_tables in
    if leb 8 index && ltb index first_food
    then numbered (codes "waitForTable (group ") (index - 8)
    else if leb first_food index && ltb index first_received
    then numbered (codes "foodArrived (table ") (index - first_food)
    else if leb first_received index && ltb index first_done
    then numbered (codes "requestReceived (table ") (index - first_received)
    else if leb first_done index && ltb index (first_done + num_tables)
    then numbered (codes "tableDone (table ") (index - first_done)
    else codes "(UNKNOWN SEMAPHORE)"

-- The text that is written, before it is cut to the size of the buffer.
semaphore_text : ℕ → ℕ → List ℕ
semaphore_text n index =
    if index == 0
    then codes "NULL (bug!)"
    else if index == 1
    then codes "mutex"
    else if index == 2
    then codes "receptionistReq"
    else if index == 3
    then codes "receptionistRequestPossible"
    else if index == 4
    then codes "waiterRequest"
    else if index == 5
    then codes "waiterRequestPossible"
    else if index == 6
    then codes "waitOrder"
    else if index == 7
    then codes "orderReceived"
    else array_name n index

-- The name in a buffer of `size` bytes, and the length of the whole name.
pub get_semaphore_name : ℕ → ℕ → ℕ → List ℕ × ℕ
unfolding semaphore_text array_name numbered
get_semaphore_name n index size =
    (take (size - 1) (semaphore_text n index), length (semaphore_text n index))

-- The names by the semaphore and not by its id.
pub describe : Slot → List ℕ
unfolding numbered
describe mutex = codes "mutex"
describe receptionist_req = codes "receptionistReq"
describe receptionist_request_possible = codes "receptionistRequestPossible"
describe waiter_request = codes "waiterRequest"
describe waiter_request_possible = codes "waiterRequestPossible"
describe wait_order = codes "waitOrder"
describe order_received = codes "orderReceived"
describe (wait_for_table g) = numbered (codes "waitForTable (group ") g
describe (food_arrived t) = numbered (codes "foodArrived (table ") t
describe (request_received t) = numbered (codes "requestReceived (table ") t
describe (table_done t) = numbered (codes "tableDone (table ") t

array-describe :
    (n : ℕ) (a : Slot) → IsSlot n a → 8 ≤ slot_id n a → array_name n (slot_id n a) ≡ describe a
unfolding array_name describe slot_id
array-describe n mutex h le = absurd (omega arith)
array-describe n (wait_for_table g) h le = ground arith
array-describe n (food_arrived t) h le = ground arith
array-describe n (request_received t) h le = ground arith
array-describe n (table_done t) h le = ground arith
array-describe n _ h le = absurd (omega arith)

text-array : (n k : ℕ) → 8 ≤ k → semaphore_text n k ≡ array_name n k
unfolding semaphore_text
text-array n k h = ground arith

text-describe : (n : ℕ) (a : Slot) → IsSlot n a → semaphore_text n (slot_id n a) ≡ describe a
unfolding describe slot_id semaphore_text
text-describe n mutex h = refl
text-describe n receptionist_req h = refl
text-describe n receptionist_request_possible h = refl
text-describe n waiter_request h = refl
text-describe n waiter_request_possible h = refl
text-describe n wait_order h = refl
text-describe n order_received h = refl
text-describe n (wait_for_table k) h =
    text-array n (slot_id n (wait_for_table k)) (omega arith)
    ∙ array-describe n (wait_for_table k) h (omega arith)
text-describe n (food_arrived k) h =
    text-array n (slot_id n (food_arrived k)) (omega arith)
    ∙ array-describe n (food_arrived k) h (omega arith)
text-describe n (request_received k) h =
    text-array n (slot_id n (request_received k)) (omega arith)
    ∙ array-describe n (request_received k) h (omega arith)
text-describe n (table_done k) h =
    text-array n (slot_id n (table_done k)) (omega arith)
    ∙ array-describe n (table_done k) h (omega arith)

-- The report names each semaphore after what it is for, as far as the buffer goes.
pub name-describe :
    (n size : ℕ) (a : Slot)
    → IsSlot n a
    → get_semaphore_name n (slot_id n a) size ≡ (take (size - 1) (describe a), length (describe a))
unfolding get_semaphore_name
name-describe n size a h = ap (λ s. (take (size - 1) s, length s)) (text-describe n a h)
