-- ===== src/Router.antt =====
-- src/app/message_router.{h,cpp}: every MQTT message is taken apart by its topic and handed to the
-- managers that are set; a pointer that is null is none. The recipe manager is set but never used.
-- The answer none stands for an exception of `std::stoi`, and for the undefined behaviour of
-- `process_ota_progress` on a device without a record. What the managers hand to the database and to
-- callbacks is part of their own outcomes.
pub mod Safety
pub mod Uplink
pub mod Reports
pub mod Answers
use iot_dev_sys.Common.{
  String, Bool, true, false, ◌||◌, List, [], ◌∷◌, Option, none, some, ◌==◌, is_empty, if◌then◌else◌,
}
use iot_dev_sys.Common.Int.{ℤ, pos}
use iot_dev_sys.Types.Device.{NetworkStatus, online, offline, idle}
use iot_dev_sys.Types.Order.{Order, new_order, completed}
use iot_dev_sys.Json.{get_string, get_int}
use iot_dev_sys.Json.Numbers.{to_string}
use iot_dev_sys.Topic.{ParsedTopic, parse, build_downlink}
use iot_dev_sys.Order.{OrderManager, create_order}
use iot_dev_sys.Device.{
  DeviceManager, find_device_by_id, process_heartbeat, process_property, update_device_status,
}
use iot_dev_sys.Fault.{FaultManager, read_fault, to_fault_code, add_fault, resolve_fault}
use iot_dev_sys.Ota.{OtaManager, process_ota_progress}

pub record Router : Type 0 where
  pub devices : Option DeviceManager
  pub orders : Option OrderManager
  pub ota : Option OtaManager
  pub faults : Option FaultManager

unfoldable pub subscription_topics : List String
subscription_topics =
    "+/v1/heartbeat" ∷ "+/v1/event/post" ∷ "+/v1/event/post_reply" ∷ "+/v1/property/post"
    ∷ "+/v1/property/set_reply" ∷ "+/v1/ota/progress" ∷ "+/v1/status" ∷ []

unfoldable pub resolve_tenant : Option DeviceManager → String → String
resolve_tenant none did = "default"
resolve_tenant (some mgr) did = elim (find_device_by_id did mgr) [
  | none ↦ "default"
  | some d ↦ d.tenant_id
]

unfoldable pub resolve_product : Option DeviceManager → String → String
resolve_product none did = ""
resolve_product (some mgr) did = elim (find_device_by_id did mgr) [
  | none ↦ ""
  | some d ↦ d.product_id
]

unfoldable pub handle_heartbeat : ℤ → ParsedTopic → String → Router → Router
unfolding resolve_tenant resolve_product
handle_heartbeat now pt payload r = elim r.devices [
  | none ↦ r
  | some mgr ↦ record r {
    devices = some (
        process_heartbeat (resolve_tenant (some mgr) pt.device_id) pt.device_id
          (resolve_product (some mgr) pt.device_id) now mgr);
  }
]

unfoldable pub handle_property : ParsedTopic → String → Router → Router
unfolding resolve_tenant resolve_product
handle_property pt payload r = elim r.devices [
  | none ↦ r
  | some mgr ↦ record r {
    devices = some (
        process_property (resolve_tenant (some mgr) pt.device_id) pt.device_id
          (resolve_product (some mgr) pt.device_id) payload mgr);
  }
]

-- The order that a report of completion makes.
unfoldable pub read_order : String → ParsedTopic → String → Option Order
unfolding new_order
read_order tenant_id pt payload = elim (get_int payload "ts" (pos 0)) [
  | none ↦ none
  | some ts ↦ some (record new_order {
    order_id = get_string payload "order_id";
    device_id = pt.device_id;
    tenant_id = tenant_id;
    recipe_id = get_string payload "recipe_id";
    recipe_name = get_string payload "recipe_name";
    cup_size = get_string payload "cup_size";
    status = completed;
    created_at = to_string ts;
  })
]

unfoldable pub order_completed : ParsedTopic → String → Router → Option Router
unfolding resolve_tenant read_order
order_completed pt payload r = elim r.orders [
  | none ↦ some r
  | some mgr ↦ elim (read_order (resolve_tenant r.devices pt.device_id) pt payload) [
    | none ↦ none
    | some o ↦ some (record r { orders = some (create_order o mgr).state })
  ]
]

unfoldable pub fault_alert : ParsedTopic → String → Router → Option Router
unfolding resolve_tenant
fault_alert pt payload r = elim r.faults [
  | none ↦ some r
  | some mgr ↦ elim (read_fault (resolve_tenant r.devices pt.device_id) pt.device_id payload) [
    | none ↦ none
    | some f ↦ some (record r { faults = some (add_fault f mgr).state })
  ]
]

unfoldable pub fault_resolved : ParsedTopic → String → Router → Option Router
unfolding resolve_tenant
fault_resolved pt payload r = elim r.faults [
  | none ↦ some r
  | some mgr ↦ elim (get_int payload "fault_code" (pos 0)) [
    | none ↦ none
    | some c ↦ some (record r {
      faults =
          some
            (resolve_fault (resolve_tenant r.devices pt.device_id) pt.device_id (to_fault_code c)
              mgr).0;
    })
  ]
]

unfoldable pub handle_event : ParsedTopic → String → Router → Option Router
unfolding order_completed fault_alert fault_resolved handle_property
handle_event pt payload r =
    let event_type = get_string payload "event_type" in
    if event_type == "order_completed"
    then order_completed pt payload r
    else if event_type == "fault_alert"
    then fault_alert pt payload r
    else if event_type == "fault_resolved"
    then fault_resolved pt payload r
    else if event_type == "device_status"
    then some (handle_property pt payload r)
    else some r

-- The network status, under either of its two names.
abbrev pub reported_status : String → String
reported_status payload =
    let st = get_string payload "network_status" in
    if is_empty st then get_string payload "status" else st

unfoldable pub handle_status : ParsedTopic → String → Router → Router
unfolding resolve_tenant
handle_status pt payload r = elim r.devices [
  | none ↦ r
  | some mgr ↦
      let st = reported_status payload in
      let net_st = if st == "offline" || st == "1" then offline else online in
      record r {
        devices =
            some
              (update_device_status (resolve_tenant (some mgr) pt.device_id) pt.device_id net_st
                idle mgr).state;
      }
]

unfoldable pub handle_ota_progress : ParsedTopic → String → Router → Option Router
unfolding resolve_tenant
handle_ota_progress pt payload r = elim r.ota [
  | none ↦ some r
  | some mgr ↦
      elim (process_ota_progress (resolve_tenant r.devices pt.device_id) pt.device_id payload mgr) [
        | none ↦ none
        | some m ↦ some (record r { ota = some m })
      ]
]

unfoldable pub dispatch : ℤ → ParsedTopic → String → Router → Option Router
unfolding handle_heartbeat handle_event handle_property handle_ota_progress handle_status
dispatch now pt payload r =
    if pt.message_type == "heartbeat"
    then some (handle_heartbeat now pt payload r)
    else if pt.message_type == "event"
    then handle_event pt payload r
    else if pt.message_type == "property"
    then some (handle_property pt payload r)
    else if pt.message_type == "ota"
    then handle_ota_progress pt payload r
    else if pt.message_type == "status"
    then some (handle_status pt payload r)
    else some r

unfoldable pub on_message : ℤ → String → String → Router → Option Router
unfolding dispatch
on_message now topic payload r =
    let pt = parse topic in if pt.valid then dispatch now pt payload r else some r

unfoldable pub send_command : String → String → String → String → String → String
send_command tenant_id product_id device_id command payload =
    build_downlink tenant_id product_id device_id "command" command

unfoldable pub send_ota_notify : String → String → String → String → String
send_ota_notify tenant_id product_id device_id payload =
    build_downlink tenant_id product_id device_id "ota" "notify"

unfoldable pub send_property_set : String → String → String → String → String
send_property_set tenant_id product_id device_id payload =
    build_downlink tenant_id product_id device_id "property" "set"
