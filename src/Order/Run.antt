-- ===== src/Order/Run.antt =====
-- Histories of calls of the order manager of src/app/order/order_manager.cpp.
use iot_dev_sys.Common.{String, List, [], ◌∷◌}
use iot_dev_sys.Types.Order.{Order}
use iot_dev_sys.Order.{
  OrderManager, Outcome, create_order, cancel_order, confirm_payment, start_brewing,
  complete_brewing, fail_brewing, emergency_stop, load_from_database,
}

pub data Call : Type 0 where
  create : Order → Call
  cancel confirm start complete : String → Call
  fail : String → String → Call
  stop : Call
  load : List Order → Call

unfoldable pub call : Call → OrderManager → Outcome
unfolding create_order cancel_order confirm_payment start_brewing complete_brewing fail_brewing
    emergency_stop load_from_database
call (create o) s = create_order o s
call (cancel i) s = cancel_order i s
call (confirm i) s = confirm_payment i s
call (start i) s = start_brewing i s
call (complete i) s = complete_brewing i s
call (fail i reason) s = fail_brewing i reason s
call stop s = emergency_stop s
call (load stored) s = load_from_database stored s

unfoldable pub run : List Call → OrderManager → OrderManager
run [] s = s
run (c ∷ cs) s = run cs (call c s).state
