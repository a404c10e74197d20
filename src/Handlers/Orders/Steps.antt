-- ===== src/Handlers/Orders/Steps.antt =====
-- Each handler of /api/v1/orders in src/main.cpp makes at most one call of the order manager.
use iot_dev_sys.Handlers.{rest_of}
use iot_dev_sys.Handlers.Via.{Via, only_answered, made, Via-or_thrown, Via-option, Via-if}
use iot_dev_sys.Api.{HttpRequest}
use iot_dev_sys.Common.Int.{pos}
use iot_dev_sys.Json.{get_string, get_int}
use iot_dev_sys.Order.Run
use iot_dev_sys.Order.{OrderManager, get_order}
use iot_dev_sys.Handlers.Orders.{
  order_by_id, post_order, put_order, delete_order, act, posted, with_tenant,
}

abbrev pub next_order : Run.Call → OrderManager → OrderManager
next_order c s = (Run.call c s).state

module _ (req : HttpRequest) (s : OrderManager) where
  pub order_by_id-Via : Via next_order s (order_by_id req s)
  unfolding order_by_id
  order_by_id-Via =
      Via-or_thrown next_order s (rest_of "/api/v1/orders/" req) _
        (λ i. Via-option next_order s (get_order i s) _ _ (only_answered _) (λ o. only_answered _))

  pub post_order-Via : Via next_order s (post_order req s)
  unfolding post_order Run.call
  post_order-Via = Via-or_thrown next_order s (get_int req.body "quantity" (pos 1)) _ (λ q.
      Via-or_thrown next_order s (get_int req.body "total_amount" (pos 0)) _ (λ a.
        Via-if next_order s _ _ _ (only_answered _)
          (made _ (Run.create (with_tenant (posted req q a))))))

  pub put_order-Via : Via next_order s (put_order req s)
  unfolding put_order
  put_order-Via = Via-or_thrown next_order s (rest_of "/api/v1/orders/" req) _ (λ i.
      Via-option next_order s (act (get_string req.body "action") i req) _ _ (only_answered _)
        (λ c. made _ c))

  pub delete_order-Via : Via next_order s (delete_order req s)
  unfolding delete_order Run.call
  delete_order-Via =
      Via-or_thrown next_order s (rest_of "/api/v1/orders/" req) _ (λ i. made _ (Run.cancel i))
