-- ===== src/Examples/Order.antt =====
-- Orders of src/app/order/order_manager.cpp: a morning of calls.
use mathlib.Core.List.{Perm}
use iot_dev_sys.Common.{
  ◌≡◌, ◌++◌, refl, ◌==◌, true, false, List, [], ◌∷◌, none, arith, find_if, erase_if, update_if,
}
use iot_dev_sys.Types.Order.{Order, new_order, completed}
use iot_dev_sys.Order.{new_manager, seed_mock_data}
use iot_dev_sys.Order.Run.{Call, create, cancel, confirm, start, complete, stop, call, run}
use iot_dev_sys.Order.Bounds.{IsBounded, run-IsBounded, seed_mock_data-IsBounded}
use iot_dev_sys.Order.Ledger.{run-ledger, ledger, gains, losses}
use iot_dev_sys.Order.Lifecycle.{serve, serve_lem}

abbrev espresso : Order
espresso = record new_order { order_id = "A1"; recipe_id = "REC-ESPRESSO" }

abbrev latte : Order
latte = record new_order { order_id = "B2"; recipe_id = "REC-LATTE" }

abbrev morning : List Call
morning =
    create espresso
    ∷ create latte
    ∷ confirm "A1"
    ∷ start "A1"
    ∷ complete "A1"
    ∷ start "B2"
    ∷ stop
    ∷ cancel "B2"
    ∷ []

-- The first order ends in the history; the second is lost at the stop.
morning_end :
    run morning (new_manager true)
    ≡ record (new_manager true) { history_orders = record espresso { status = completed } ∷ [] }
unfolding run call new_manager find_if erase_if update_if ◌==◌ new_order
morning_end = refl

run-ledger_example :
    Perm
      (losses morning (new_manager true) ++ ledger (run morning (new_manager true)))
      (gains morning (new_manager true) ++ ledger (new_manager true))
run-ledger_example = run-ledger morning (new_manager true)

run-IsBounded_example : IsBounded (run morning (seed_mock_data (new_manager false)))
run-IsBounded_example =
    run-IsBounded morning (seed_mock_data (new_manager false)) (seed_mock_data-IsBounded false)

serve_lem_example :
    serve latte
      (record { order_queue = espresso ∷ []; current_order = none; history_orders = []; db = true })
    ≡ record {
      order_queue = espresso ∷ [];
      current_order = none;
      history_orders = record latte { status = completed } ∷ [];
      db = true;
    }
unfolding find_if ◌==◌ new_order
serve_lem_example = serve_lem latte (espresso ∷ []) [] true (omega arith) refl
