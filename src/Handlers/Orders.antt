-- ===== src/Handlers/Orders.antt =====
-- The handlers of /api/v1/orders in src/main.cpp, over the order manager. `now` is the seconds of the
-- clock.
pub mod Steps
use iot_dev_sys.Common.{
  ℕ, ◌||◌, String, Bool, true, false, List, [], ◌∷◌, ◌++◌, map, Option, none, some, ◌==◌, is_empty,
  length, if◌then◌else◌,
}
use iot_dev_sys.Common.Int.{ℤ, pos}
use iot_dev_sys.Common.Text.{append}
use iot_dev_sys.Json.{get_string, get_int}
use iot_dev_sys.Types.Order.{
  Order, OrderStatus, new_order, pending, paid, brewing, completed, cancelled, failed,
}
use iot_dev_sys.Order.{
  OrderManager, Outcome, create_order, cancel_order, confirm_payment, start_brewing,
  complete_brewing, fail_brewing, get_order, list_all_orders,
}
use iot_dev_sys.Order.Run.{Call, confirm, start, complete, fail, cancel, call}
use iot_dev_sys.Recipe.{RecipeManager, find_by_id}
use iot_dev_sys.Api.{HttpRequest, HttpResponse, json_response, error_response}
use iot_dev_sys.Handlers.{
  Reply, thrown, answered, rest_of, or_thrown, by_status, text_field, int_field, raw_field, object,
  array, success,
}

abbrev pub status_number : OrderStatus → ℕ
status_number pending = 0
status_number paid = 1
status_number brewing = 2
status_number completed = 3
status_number cancelled = 4
status_number failed = 5

abbrev pub reason_field : Order → List String
reason_field o =
    if is_empty o.failure_reason then [] else text_field "failure_reason" o.failure_reason ∷ []

-- An order in the list, with the name of its recipe and a time, and an order alone.
unfoldable pub listed_order : String → String → Order → String
listed_order recipe_name ts o = object (
    (text_field "order_id" o.order_id
      ∷ text_field "tenant_id" o.tenant_id
      ∷ text_field "device_id" o.device_id
      ∷ text_field "recipe_id" o.recipe_id
      ∷ text_field "recipe_name" recipe_name
      ∷ text_field "cup_size" o.cup_size
      ∷ int_field "quantity" o.quantity
      ∷ int_field "total_amount" o.total_amount
      ∷ text_field "payment_method" o.payment_method
      ∷ int_field "status" (pos (status_number o.status))
      ∷ raw_field "created_at" ts
      ∷ [])
    ++ reason_field o)

unfoldable pub single_order : Order → String
single_order o = object (
    (text_field "order_id" o.order_id
      ∷ text_field "tenant_id" o.tenant_id
      ∷ text_field "device_id" o.device_id
      ∷ text_field "recipe_id" o.recipe_id
      ∷ text_field "cup_size" o.cup_size
      ∷ int_field "quantity" o.quantity
      ∷ int_field "total_amount" o.total_amount
      ∷ text_field "payment_method" o.payment_method
      ∷ int_field "status" (pos (status_number o.status))
      ∷ raw_field "created_at" (if is_empty o.created_at then "0" else o.created_at)
      ∷ [])
    ++ reason_field o)

module _ {Double : Type 0} where
  abbrev pub recipe_name_of : RecipeManager Double → Order → String
  recipe_name_of recipes o = elim (find_by_id o.recipe_id recipes) [
    | none ↦ ""
    | some r ↦ r.recipe_name
  ]

  unfoldable pub list_orders :
      String → RecipeManager Double → OrderManager → HttpRequest → HttpResponse
  unfolding listed_order list_all_orders
  list_orders now recipes s req =
      let orders = list_all_orders s in
      json_response (pos 200) (
        success (
          object (
            int_field "total" (pos (length orders))
            ∷ raw_field "orders" (
                array (
                  map
                    (λ (o : Order).
                      listed_order (recipe_name_of recipes o)
                        (if is_empty o.created_at || o.created_at == "0" then now else o.created_at)
                        o)
                    orders))
            ∷ [])))

unfoldable pub order_by_id : HttpRequest → OrderManager → Reply OrderManager
unfolding rest_of get_order single_order
order_by_id req s = or_thrown (rest_of "/api/v1/orders/" req) (λ order_id.
    elim (get_order order_id s) [
      | none ↦
          answered (error_response (pos 404) (pos 1002) (append "Order not found: " order_id)) s
      | some o ↦ answered (json_response (pos 200) (success (single_order o))) s
    ])

-- The answer to a call of the manager.
abbrev pub reply : Outcome → HttpResponse → Reply OrderManager
reply out response = answered (by_status out.status response) out.state

abbrev pub posted : HttpRequest → ℤ → ℤ → Order
posted req quantity total_amount = record new_order {
  order_id = get_string req.body "order_id";
  tenant_id = get_string req.body "tenant_id";
  device_id = get_string req.body "device_id";
  recipe_id = get_string req.body "recipe_id";
  cup_size = get_string req.body "cup_size";
  quantity = quantity;
  total_amount = total_amount;
  payment_method = get_string req.body "payment_method";
}

abbrev pub with_tenant : Order → Order
with_tenant o = if is_empty o.tenant_id then record o { tenant_id = "default" } else o

abbrev pub admit_order : Order → OrderManager → Reply OrderManager
admit_order o s =
    if is_empty o.order_id || is_empty o.device_id
    then answered (error_response (pos 400) (pos 1001) "order_id and device_id are required") s
    else reply (create_order (with_tenant o) s)
        (json_response (pos 201) (success (object (text_field "order_id" o.order_id ∷ []))))

unfoldable pub post_order : HttpRequest → OrderManager → Reply OrderManager
unfolding get_int get_string create_order new_order
post_order req s = or_thrown (get_int req.body "quantity" (pos 1)) (λ quantity.
    or_thrown (get_int req.body "total_amount" (pos 0))
      (λ total_amount. admit_order (posted req quantity total_amount) s))

-- The call that an action asks for.
abbrev pub act : String → String → HttpRequest → Option Call
act action order_id req =
    if action == "confirm_payment"
    then some (confirm order_id)
    else if action == "start_brewing"
    then some (start order_id)
    else if action == "complete"
    then some (complete order_id)
    else if action == "fail"
    then some (fail order_id (get_string req.body "reason"))
    else if action == "cancel"
    then some (cancel order_id)
    else none

unfoldable pub put_order : HttpRequest → OrderManager → Reply OrderManager
unfolding rest_of get_string call
put_order req s = or_thrown (rest_of "/api/v1/orders/" req) (λ order_id.
    let action = get_string req.body "action" in
    elim (act action order_id req) [
      | none ↦
          answered
            (error_response (pos 400) (pos 1001)
              "Invalid action. Valid: confirm_payment, start_brewing, complete, fail, cancel")
            s
      | some c ↦ reply (call c s) (
          json_response (pos 200)
            (success (object (text_field "order_id" order_id ∷ text_field "action" action ∷ []))))
    ])

unfoldable pub delete_order : HttpRequest → OrderManager → Reply OrderManager
unfolding rest_of cancel_order
delete_order req s = or_thrown (rest_of "/api/v1/orders/" req) (λ order_id.
    reply (cancel_order order_id s) (
      json_response (pos 200)
        (success (object (text_field "order_id" order_id ∷ raw_field "cancelled" "true" ∷ [])))))
