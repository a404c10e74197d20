-- ===== src/Order/Lifecycle.antt =====
-- The life of one order in src/app/order/order_manager.cpp, from `create_order` to the history.
use iot_dev_sys.Common.{
  ◌<◌, ◌≡◌, ap, ◌∙◌, String, Bool, true, List, [], ◌∷◌, ◌++◌, Option, none, some, arith, ◌↔◌,
  is_some, text_self, length, length-append, find_if, update_if, find_if-concat, update_if-concat,
  erase_if-concat,
}
use iot_dev_sys.Status.{ok}
use iot_dev_sys.Types.Order.{Order, brewing, paid, completed}
use iot_dev_sys.Order.{
  OrderManager, order_max_queue_depth, has_id, create_order, confirm_payment, start_brewing,
  complete_brewing, list_all_orders, total_count, to_list,
}

abbrev manager : List Order → Option Order → List Order → Bool → OrderManager
manager q c h db = record { order_queue = q; current_order = c; history_orders = h; db = db }

-- The four calls of an order's normal life.
unfoldable pub serve : Order → OrderManager → OrderManager
serve o s =
    let created = (create_order o s).state in
    let confirmed = (confirm_payment o.order_id created).state in
    let started = (start_brewing o.order_id confirmed).state in
    (complete_brewing o.order_id started).state

module _ (o : Order) (q h : List Order) (db : Bool)
    (fresh : find_if (has_id o.order_id) q ≡ none) where
  created :
      length q < order_max_queue_depth
      → (create_order o (manager q none h db)).state ≡ manager (q ++ o ∷ []) none h db
  unfolding create_order
  created room = ground arith

  confirmed :
      (confirm_payment o.order_id (manager (q ++ o ∷ []) none h db)).state
      ≡ manager (q ++ record o { status = paid } ∷ []) none h db
  unfolding confirm_payment find_if update_if
  confirmed =
      rw (find_if-concat (has_id o.order_id) q o fresh (text_self o.order_id), confirm_payment)
        (rw (update_if-concat (has_id o.order_id) _ q o fresh (text_self o.order_id)))

  started :
      (start_brewing o.order_id (manager (q ++ record o { status = paid } ∷ []) none h db)).state
      ≡ manager q (some (record o { status = brewing })) h db
  unfolding start_brewing
  started =
      rw
        (
          find_if-concat (has_id o.order_id) q (record o { status = paid }) fresh
              (text_self o.order_id),
          start_brewing,
        )
        (rw (
          erase_if-concat (has_id o.order_id) q (record o { status = paid }) fresh
            (text_self o.order_id)))

  finished :
      (complete_brewing o.order_id (manager q (some (record o { status = brewing })) h db)).state
      ≡ manager q none (h ++ record o { status = completed } ∷ []) db
  unfolding complete_brewing
  finished = ground (arith, text_self o.order_id)

-- An order with an id that is not yet in the queue of an idle manager with room, taken through
-- creation, payment, start and completion, ends in the history as completed; the queue and the rest
-- of the history are as before, and no order is being brewed.
pub serve_lem :
    (o : Order) (q h : List Order) (db : Bool)
    → length q < order_max_queue_depth
    → find_if (has_id o.order_id) q ≡ none
    → serve o (record { order_queue = q; current_order = none; history_orders = h; db = db })
      ≡ record {
        order_queue = q;
        current_order = none;
        history_orders = h ++ record o { status = completed } ∷ [];
        db = db;
      }
unfolding serve
serve_lem o q h db room fresh =
    ap
      (λ t.
        (complete_brewing o.order_id
          (start_brewing o.order_id (confirm_payment o.order_id t).state).state).state)
      (created o q h db fresh room)
    ∙ ap (λ t. (complete_brewing o.order_id (start_brewing o.order_id t).state).state)
        (confirmed o q h db fresh)
    ∙ ap (λ t. (complete_brewing o.order_id t).state) (started o q h db fresh)
    ∙ finished o q h db fresh

-- `start_brewing` answers OK exactly when no order is being brewed and the queue has the id.
start_brewing-ok_iff :
    (i : String) (s : OrderManager)
    → ((start_brewing i s).status ≡ ok)
      ↔ ((s.current_order ≡ none) × (is_some (find_if (has_id i) s.order_queue) ≡ true))
unfolding start_brewing
start_brewing-ok_iff i s = ground arith

-- When no order is being brewed, `start_brewing` makes the first order of the queue with the id the
-- current one, marked as brewing.
pub start_brewing-current :
    (i : String) (s : OrderManager) (o : Order)
    → s.current_order ≡ none
    → find_if (has_id i) s.order_queue ≡ some o
    → (start_brewing i s).state.current_order ≡ some (record o { status = brewing })
unfolding start_brewing
start_brewing-current i s o idle found = ground arith

-- `total_count` is the length of `list_all_orders`.
total_count-length : (s : OrderManager) → total_count s ≡ length (list_all_orders s)
unfolding total_count list_all_orders
total_count-length s = ground (
  arith,
  length-append (to_list s.current_order ++ s.order_queue) s.history_orders,
  length-append (to_list s.current_order) s.order_queue,
)
