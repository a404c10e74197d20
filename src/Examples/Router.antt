-- ===== src/Examples/Router.antt =====
-- Messages of src/app/message_router.cpp: topics, payloads and what the machines report.
use iot_dev_sys.Common.{
  is_some, ◌&&◌, ◌≡◌, ◌==◌, if◌then◌else◌, refl, String, true, false, [], ◌∷◌, none, some, List,
  All, arith,
}
use iot_dev_sys.Common.Int.{pos}
use iot_dev_sys.Common.Text.{append, lacks}
use iot_dev_sys.Common.Dict.{lookup as find}
use iot_dev_sys.Types.Device.{online, offline, idle}
use iot_dev_sys.Types.Order.{Order, new_order, completed}
use iot_dev_sys.Json.{get_string, get_int, get_bool}
use iot_dev_sys.Json.Numbers.{to_string}
use iot_dev_sys.Topic.{ParsedTopic, parse, build_downlink}
use iot_dev_sys.Topic.Downlink.{parse-build_downlink}
use iot_dev_sys.Topic.Uplink.{uplink, parse-uplink}
use iot_dev_sys.Status.{order_queue_full}
use iot_dev_sys.Order.{OrderManager, create_order, new_manager, seed_mock_data}
use iot_dev_sys.Order.Bounds.{seed_mock_data-IsBounded}
use iot_dev_sys.Device.{DeviceManager, Home, find_home, find_device_by_id, get_device}
use iot_dev_sys.Device.View.{at, set_status}
use iot_dev_sys.Ota.{OtaManager, process_ota_progress, build_ota_notify_payload}
use iot_dev_sys.Ota.Payload.{build_ota_notify_payload-fields}
use iot_dev_sys.Router.{Router, on_message, read_order, resolve_tenant}
use iot_dev_sys.Router.Safety.{IsSafe, Holds, on_message-IsSafe}
use iot_dev_sys.Router.Uplink.{on_message-heartbeat, on_message-status, is_offline_report}
use iot_dev_sys.Router.Reports.{AreRead, reports, with_orders, filled, reports-create_order}
use iot_dev_sys.Router.Answers.{HasNumbers, knows, on_message-answers}
use iot_dev_sys.Examples.Device.{fleet, fleet-IsConsistent, grinder}

parse-uplink_example : parse (append "m1" (append "/v1/" "heartbeat")) ≡ uplink "m1" "heartbeat"
unfolding lacks
parse-uplink_example = parse-uplink "m1" "heartbeat" refl refl (λ e. cc) (λ e. cc)

parse-build_downlink_example :
    parse (build_downlink "" "coffee_v1" "m1" "command" "start") ≡ record {
      raw_topic = build_downlink "" "coffee_v1" "m1" "command" "start";
      tenant_id = "default";
      product_id = "";
      device_id = "m1";
      message_type = "command";
      command = "start";
      valid = true;
    }
unfolding lacks ◌==◌
parse-build_downlink_example =
    parse-build_downlink "" "coffee_v1" "m1" "command" "start" refl refl refl refl (λ e. cc)
      (λ e. cc)

build_ota_notify_payload-fields_example :
    let json : String = build_ota_notify_payload "2.1.0" "http://ota/f.bin" "download_url" true in
    (get_string json "version" ≡ "2.1.0")
    × (get_string json "download_url" ≡ "http://ota/f.bin")
    × (get_string json "checksum" ≡ "download_url")
    × (get_bool json "force_upgrade" false ≡ true)
unfolding lacks
build_ota_notify_payload-fields_example =
    build_ota_notify_payload-fields "2.1.0" "http://ota/f.bin" "download_url" true false refl refl
      refl

abbrev orders : OrderManager
orders = seed_mock_data (new_manager false)

abbrev cloud : Router
cloud = record { devices = some fleet; orders = some orders; ota = none; faults = none }

cloud-IsSafe : IsSafe cloud
unfolding Holds
cloud-IsSafe = record { consistent = fleet-IsConsistent; bounded = seed_mock_data-IsBounded false }

abbrev report : String
report = "{\"event_type\":\"order_completed\",\"order_id\":\"o77\",\"ts\":1700}"

on_message-IsSafe_example : Holds IsSafe (on_message (pos 1700) "m1/v1/event/post" report cloud)
on_message-IsSafe_example =
    on_message-IsSafe (pos 1700) "m1/v1/event/post" report cloud cloud-IsSafe

abbrev north : Home
north = record { tenant_id = "north"; devices = ("m1", grinder) ∷ []; device = grinder }

in_north : find_home "m1" fleet.tenants ≡ some north
unfolding find_home find ◌==◌
in_north = refl

on_message-heartbeat_example :
    (t : DeviceManager) × (on_message (pos 1700) (append "m1" "/v1/heartbeat") "{}" cloud
      ≡ some (record { devices = some t; orders = some orders; ota = none; faults = none }))
    × (get_device "north" "m1" t ≡ (
        if at "north" "m1" "north" "m1"
        then some (record grinder { last_heartbeat_at = pos 1700; network_status = online })
        else get_device "north" "m1" fleet))
unfolding lacks
on_message-heartbeat_example =
    on_message-heartbeat (pos 1700) "m1" "{}" north fleet (some orders) none none "north" "m1"
      fleet-IsConsistent in_north refl (λ e. cc)

abbrev offline_report : String
offline_report = "{\"status\":\"offline\"}"

on_message-status_example :
    (t : DeviceManager) × (on_message (pos 1700) (append "m1" "/v1/status") offline_report cloud
      ≡ some (record { devices = some t; orders = some orders; ota = none; faults = none }))
    × (get_device "north" "m1" t ≡ (
        if at "north" "m1" "north" "m1"
        then some
            (set_status (if is_offline_report offline_report then offline else online) idle grinder)
        else get_device "north" "m1" fleet))
unfolding lacks
on_message-status_example =
    on_message-status (pos 1700) "m1" offline_report north fleet (some orders) none none "north"
      "m1" fleet-IsConsistent in_north refl (λ e. cc)

-- The report says so, and the machine was brewing.
reported_offline : is_offline_report offline_report ≡ true
unfolding get_string ◌==◌
reported_offline = refl

abbrev reported_order : Order
reported_order = record new_order {
  order_id = "o77";
  tenant_id = "north";
  device_id = "m1";
  status = completed;
  created_at = "1700";
}

was_read : read_order "north" (uplink "m1" "event") report ≡ some reported_order
unfolding read_order get_string get_int to_string ◌==◌
was_read = refl

abbrev event : ParsedTopic × String
event = (uplink "m1" "event", report)

abbrev ten_events : List (ParsedTopic × String)
ten_events = event ∷ event ∷ event ∷ event ∷ event ∷ event ∷ event ∷ event ∷ event ∷ event ∷ []

abbrev ten_orders : List Order
ten_orders =
    reported_order ∷ reported_order ∷ reported_order ∷ reported_order ∷ reported_order
    ∷ reported_order ∷ reported_order ∷ reported_order ∷ reported_order ∷ reported_order ∷ []

ten_read : AreRead (some fleet) ten_events ten_orders
unfolding resolve_tenant find_device_by_id find_home find ◌==◌
ten_read = (
  was_read,
  (
    was_read,
    (
      was_read,
      (was_read, (was_read, (was_read, (was_read, (was_read, (was_read, (was_read, tt))))))),
    ),
  ),
)

reports-create_order_example :
    let t : OrderManager = record orders { order_queue = filled orders.order_queue ten_orders } in
    (reports ten_events (with_orders (some fleet) none none orders)
      ≡ some (with_orders (some fleet) none none t))
    × All (λ o. o.status ≡ completed) ten_orders
    × ((o : Order) → (create_order o t).status ≡ order_queue_full)
reports-create_order_example =
    reports-create_order (some fleet) none none ten_events ten_orders orders ten_read (omega arith)

abbrev upgrades : OtaManager
upgrades = record { ota_records = []; firmware_versions = []; db = false }

numbers : HasNumbers "{}"
unfolding get_int
numbers = (refl, refl)

on_message-answers_example :
    is_some (on_message (pos 1700) "m1/v1/ota/progress" "{}" (record cloud { ota = some upgrades }))
    ≡ (if (parse "m1/v1/ota/progress").valid && ((parse "m1/v1/ota/progress").message_type == "ota")
        then knows (parse "m1/v1/ota/progress").device_id (some upgrades)
        else true)
on_message-answers_example =
    on_message-answers (pos 1700) "m1/v1/ota/progress" "{}" (record cloud { ota = some upgrades })
      numbers

-- The first report of a device without a record is the case that is not handled.
first_report :
    on_message (pos 1700) "m1/v1/ota/progress" "{}" (record cloud { ota = some upgrades }) ≡ none
unfolding on_message parse find process_ota_progress ◌==◌
first_report = refl
