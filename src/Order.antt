-- ===== src/Order.antt =====
-- src/app/order/order_manager.{h,cpp}: the queue of orders, the order being brewed and the history. An
-- operation returns the new state and the status code. `db` says whether `set_database` was called;
-- the only write, `insert_order` in `create_order`, is listed in `persisted`. `sync_status_to_cloud`
-- has no effect and its result is ignored where it is called.
mod Seeds
pub mod Run
pub mod Bounds
pub mod Ledger
pub mod Lifecycle
use Seeds.{
  pending_americano, paid_latte, pending_water, completed_americano, failed_mocha,
  cancelled_cappuccino,
}
use iot_dev_sys.Common.{
  ℕ, ◌+◌, String, Bool, true, false, not, ◌||◌, List, [], ◌∷◌, ◌++◌, Option, none, some, length,
  leb, ◌==◌, if◌then◌else◌, find_if, erase_if, update_if,
}
use iot_dev_sys.Status.{
  StatusCode, ok, order_not_found, order_queue_full, order_invalid_state, storage_read_error,
}
use iot_dev_sys.Types.Order.{Order, paid, brewing, completed, cancelled, failed}

pub record OrderManager : Type 0 where
  pub order_queue : List Order
  pub current_order : Option Order
  pub history_orders : List Order
  pub db : Bool

pub record Outcome : Type 0 where
  pub state : OrderManager
  pub status : StatusCode
  pub persisted : List Order

-- `set_database` is called before the service starts, so `db` is given at construction.
unfoldable pub new_manager : Bool → OrderManager
new_manager db = record { order_queue = []; current_order = none; history_orders = []; db = db }

abbrev pub order_max_queue_depth : ℕ
order_max_queue_depth = 10

abbrev pub has_id : String → Order → Bool
has_id order_id o = o.order_id == order_id

-- `current_order && current_order->order_id == order_id`
abbrev pub is_current : Option Order → String → Bool
is_current none order_id = false
is_current (some o) order_id = has_id order_id o

abbrev pub refuse : OrderManager → StatusCode → Outcome
refuse s c = record { state = s; status = c; persisted = [] }

abbrev pub accept : OrderManager → Outcome
accept s = refuse s ok

unfoldable pub sync_status_to_cloud : String → StatusCode
sync_status_to_cloud order_id = ok

unfoldable pub create_order : Order → OrderManager → Outcome
create_order o s =
    if leb order_max_queue_depth (length s.order_queue) then refuse s order_queue_full else record {
      state = record s { order_queue = s.order_queue ++ o ∷ [] };
      status = ok;
      persisted = if s.db then o ∷ [] else [];
    }

unfoldable pub cancel_order : String → OrderManager → Outcome
cancel_order order_id s =
    if is_current s.current_order order_id
    then refuse s order_invalid_state
    else elim (find_if (has_id order_id) s.order_queue) [
      | none ↦ refuse s order_not_found
      | some o ↦ accept (record s {
        history_orders = s.history_orders ++ record o { status = cancelled } ∷ [];
        order_queue = erase_if (has_id order_id) s.order_queue;
      })
    ]

unfoldable pub confirm_payment : String → OrderManager → Outcome
confirm_payment order_id s = elim (find_if (has_id order_id) s.order_queue) [
  | none ↦ refuse s order_not_found
  | some o ↦ accept (record s {
    order_queue = update_if (has_id order_id) (λ p. record p { status = paid }) s.order_queue;
  })
]

unfoldable pub run_pre_brew_check : Order → StatusCode
run_pre_brew_check o = ok

-- The two ends of `start_brewing`: what follows a failed and a passed check.
abbrev pub after_check : String → OrderManager → Order → StatusCode → Outcome
after_check order_id s o ok = accept (record s {
  current_order = some (record o { status = brewing });
  order_queue = erase_if (has_id order_id) s.order_queue;
})
after_check order_id s o check =
    refuse (record s { order_queue = erase_if (has_id order_id) s.order_queue }) check

unfoldable pub start_brewing : String → OrderManager → Outcome
unfolding run_pre_brew_check
start_brewing order_id s = elim s.current_order [
  | some busy ↦ refuse s order_invalid_state
  | none ↦ elim (find_if (has_id order_id) s.order_queue) [
    | none ↦ refuse s order_not_found
    | some o ↦ after_check order_id s o (run_pre_brew_check o)
  ]
]

-- `complete_brewing` and `fail_brewing` move the current order to the history.
abbrev pub finish : String → (Order → Order) → OrderManager → Outcome
finish order_id mark s = elim s.current_order [
  | none ↦ refuse s order_not_found
  | some o ↦
      if not (has_id order_id o)
      then refuse s order_not_found
      else accept
          (record s { history_orders = s.history_orders ++ mark o ∷ []; current_order = none })
]

unfoldable pub complete_brewing : String → OrderManager → Outcome
complete_brewing order_id s = finish order_id (λ o. record o { status = completed }) s

unfoldable pub fail_brewing : String → String → OrderManager → Outcome
fail_brewing order_id reason s =
    finish order_id (λ o. record o { status = failed; failure_reason = reason }) s

-- The marked order is reset without being put anywhere.
unfoldable pub emergency_stop : OrderManager → Outcome
emergency_stop s = elim s.current_order [
  | none ↦ accept s
  | some o ↦ accept (record s { current_order = none })
]

unfoldable pub get_order : String → OrderManager → Option Order
get_order order_id s =
    if is_current s.current_order order_id
    then s.current_order
    else find_if (has_id order_id) s.order_queue

unfoldable pub pending_orders : OrderManager → List Order
pending_orders s = s.order_queue

unfoldable pub queue_depth : OrderManager → ℕ
queue_depth s = length s.order_queue

abbrev pub to_list : Option Order → List Order
to_list none = []
to_list (some o) = o ∷ []

unfoldable pub list_all_orders : OrderManager → List Order
list_all_orders s = to_list s.current_order ++ s.order_queue ++ s.history_orders

unfoldable pub total_count : OrderManager → ℕ
total_count s =
    let count = length s.order_queue + length s.history_orders in
    elim s.current_order [ none ↦ count | some o ↦ count + 1 ]

unfoldable pub seed_mock_data : OrderManager → OrderManager
seed_mock_data s = record s {
  order_queue = s.order_queue ++ pending_americano ∷ paid_latte ∷ pending_water ∷ [];
  history_orders =
      s.history_orders ++ completed_americano ∷ failed_mocha ∷ cancelled_cappuccino ∷ [];
}

-- `stored` is what `list_all_orders` of the database answers.
unfoldable pub load_from_database : List Order → OrderManager → Outcome
load_from_database stored s =
    if not s.db
    then refuse s storage_read_error
    else accept (record s { history_orders = s.history_orders ++ stored })
