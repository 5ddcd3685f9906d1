-- ===== src/Sync/Layout.antt =====
-- The ids of the semaphores of src/sharedDataSync.h among each other, and the size of the set.
use native.Mathlib.Decide.{dec_lt}
use so2023_trabalho.Base.{ℕ, zero, suc, ◌+◌, ◌-◌, ◌*◌, ◌<◌, ◌≤◌, ◌≡◌, refl, ◌∙◌, arith}
use so2023_trabalho.Shared.{num_tables}
use so2023_trabalho.Sync

-- The semaphores by name, with the group or the table that one of an array belongs to.
pub data Slot : Type 0 where
  mutex receptionist_req receptionist_request_possible : Slot
  waiter_request waiter_request_possible wait_order order_received : Slot
  wait_for_table : ℕ → Slot
  food_arrived : ℕ → Slot
  request_received : ℕ → Slot
  table_done : ℕ → Slot

-- The id that `main` stores for it, among `n` groups.
unfoldable pub slot_id : ℕ → Slot → ℕ
slot_id n mutex = Sync.mutex
slot_id n receptionist_req = Sync.receptionist_req
slot_id n receptionist_request_possible = Sync.receptionist_request_possible
slot_id n waiter_request = Sync.waiter_request
slot_id n waiter_request_possible = Sync.waiter_request_possible
slot_id n wait_order = Sync.wait_order
slot_id n order_received = Sync.order_received
slot_id n (wait_for_table g) = Sync.wait_for_table g
slot_id n (food_arrived t) = Sync.food_arrived n t
slot_id n (request_received t) = Sync.request_received n t
slot_id n (table_done t) = Sync.table_done n t

-- The semaphores that there are.
abbrev pub IsSlot : ℕ → Slot → Type 0
IsSlot n (wait_for_table g) = g < n
IsSlot n (food_arrived t) = t < num_tables
IsSlot n (request_received t) = t < num_tables
IsSlot n (table_done t) = t < num_tables
IsSlot n _ = Unit

-- No two semaphores share an id.
pub slot_id-injective :
    (n : ℕ) (a b : Slot) → IsSlot n a → IsSlot n b → slot_id n a ≡ slot_id n b → a ≡ b
unfolding slot_id
slot_id-injective n a b ha hb e = ground arith

-- Every id lies in the set that `main` creates, and index 0 is left to the start signal.
pub slot_id_range :
    (n : ℕ) (a : Slot) → IsSlot n a → (0 < slot_id n a) × (slot_id n a ≤ Sync.sem_nu n)
unfolding slot_id
slot_id_range n a h = ground arith

array-onto : (n k : ℕ) → k < n + 3 * num_tables → (a : Slot) × IsSlot n a × (slot_id n a ≡ 8 + k)
unfolding slot_id
array-onto n k hi = elim (dec_lt k n) [
  | yes g ↦ (wait_for_table k, g, refl)
  | no a ↦ elim (dec_lt k (n + num_tables)) [
    | yes t ↦ (food_arrived (k - n), omega arith, omega arith)
    | no b ↦ elim (dec_lt k (n + 2 * num_tables)) [
      | yes t ↦ (request_received (k - n - num_tables), omega arith, omega arith)
      | no c ↦ (table_done (k - n - 2 * num_tables), omega arith, omega arith)
    ]
  ]
]

-- No index of the set is left over.
pub slot_id-onto :
    (n i : ℕ) → 0 < i → i ≤ Sync.sem_nu n → (a : Slot) × IsSlot n a × (slot_id n a ≡ i)
unfolding slot_id
slot_id-onto n zero lo hi = absurd (omega arith)
slot_id-onto n (suc zero) lo hi = (mutex, tt, refl)
slot_id-onto n (suc (suc zero)) lo hi = (receptionist_req, tt, refl)
slot_id-onto n (suc (suc (suc zero))) lo hi = (receptionist_request_possible, tt, refl)
slot_id-onto n (suc (suc (suc (suc zero)))) lo hi = (waiter_request, tt, refl)
slot_id-onto n (suc (suc (suc (suc (suc zero))))) lo hi = (waiter_request_possible, tt, refl)
slot_id-onto n (suc (suc (suc (suc (suc (suc zero)))))) lo hi = (wait_order, tt, refl)
slot_id-onto n (suc (suc (suc (suc (suc (suc (suc zero))))))) lo hi = (order_received, tt, refl)
slot_id-onto n (suc (suc (suc (suc (suc (suc (suc (suc k)))))))) lo hi =
    let (a, ok, e) = array-onto n k (omega arith) in (a, ok, e ∙ omega arith)
