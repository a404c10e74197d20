-- ===== src/Order/Bounds.antt =====
-- The depth of the queue of src/app/order/order_manager.cpp, and the status of the current order.
use iot_dev_sys.Common.{
  ◌≤◌, ◌≡◌, Bool, List, [], ◌∷◌, Option, none, some, arith, ◌≢◌, length, length-append,
  length-erase_if-le, length-update_if,
}
use iot_dev_sys.Status.{ok}
use iot_dev_sys.Types.Order.{Order, brewing, paid}
use iot_dev_sys.Order.{OrderManager, order_max_queue_depth, has_id, new_manager, seed_mock_data}
use iot_dev_sys.Order.Run.{
  Call, create, cancel, confirm, start, complete, fail, stop, load, call, run,
}

abbrev pub Brews : Option Order → Type 0
Brews none = Unit
Brews (some o) = o.status ≡ brewing

pub record IsBounded (s : OrderManager) : Type 0 where
  pub depth : length s.order_queue ≤ order_max_queue_depth
  pub current_brews : Brews s.current_order

pub call-IsBounded : (c : Call) (s : OrderManager) → IsBounded s → IsBounded (call c s).state
unfolding call
call-IsBounded (create o) s v = ground (arith, length-append s.order_queue (o ∷ []))
call-IsBounded (cancel i) s v = ground (arith, length-erase_if-le (has_id i) s.order_queue)
call-IsBounded (confirm i) s v =
    ground (arith, length-update_if (has_id i) (λ p. record p { status = paid }) s.order_queue)
call-IsBounded (start i) s v = ground (arith, length-erase_if-le (has_id i) s.order_queue)
call-IsBounded (complete i) s v = ground arith
call-IsBounded (fail i reason) s v = ground arith
call-IsBounded stop s v = ground arith
call-IsBounded (load stored) s v = ground arith

-- After any creations, cancellations, payments, starts, completions, failures, emergency stops and loads
-- from the database the queue holds at most ten orders, and the current order, if there is one, is
-- brewing, given that this held before them.
pub run-IsBounded : (cs : List Call) (s : OrderManager) → IsBounded s → IsBounded (run cs s)
unfolding run
run-IsBounded [] s v = v
run-IsBounded (c ∷ cs) s v = run-IsBounded cs (call c s).state (call-IsBounded c s v)

pub seed_mock_data-IsBounded : (db : Bool) → IsBounded (seed_mock_data (new_manager db))
unfolding seed_mock_data new_manager
seed_mock_data-IsBounded db = record { depth = omega arith; current_brews = tt }

-- A call that does not answer OK leaves the manager as it was, and writes nothing to the database.
call_refused :
    (c : Call) (s : OrderManager)
    → (call c s).status ≢ ok
    → ((call c s).state ≡ s) × ((call c s).persisted ≡ [])
unfolding call
call_refused (create o) s h = ground arith
call_refused (cancel i) s h = ground arith
call_refused (confirm i) s h = ground arith
call_refused (start i) s h = ground arith
call_refused (complete i) s h = ground arith
call_refused (fail i reason) s h = ground arith
call_refused stop s h = ground arith
call_refused (load stored) s h = ground arith
