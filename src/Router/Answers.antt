-- ===== src/Router/Answers.antt =====
-- When src/app/message_router.cpp handles a message without an exception or undefined behaviour.
use iot_dev_sys.Common.{
  ◌≡◌, refl, sym, subst, String, Bool, true, false, ◌&&◌, Option, none, some, arith, is_some,
  if◌then◌else◌, text_iff, ◌==◌,
}
use iot_dev_sys.Common.Int.{ℤ, pos}
use iot_dev_sys.Common.Dict.{lookup}
use iot_dev_sys.Json.{get_int}
use iot_dev_sys.Topic.{ParsedTopic, parse}
use iot_dev_sys.Fault.{read_fault}
use iot_dev_sys.Ota.{OtaManager, process_ota_progress}
use iot_dev_sys.Router.{
  handle_heartbeat, handle_property, handle_status, Router, order_completed, fault_alert,
  fault_resolved, handle_event, handle_ota_progress, dispatch, on_message,
}

-- The OTA manager, if it is set, has a record of the device.
abbrev pub knows : String → Option OtaManager → Bool
knows d none = true
knows d (some m) = is_some (lookup d m.ota_records)

abbrev pub HasNumbers : String → Type 0
HasNumbers payload =
    (is_some (get_int payload "ts" (pos 0)) ≡ true)
    × (is_some (get_int payload "fault_code" (pos 0)) ≡ true)

order_completed-answers :
    (pt : ParsedTopic) (payload : String) (r : Router)
    → HasNumbers payload
    → is_some (order_completed pt payload r) ≡ true
unfolding order_completed
order_completed-answers pt payload r h = ground arith

fault_alert-answers :
    (pt : ParsedTopic) (payload : String) (r : Router)
    → HasNumbers payload
    → is_some (fault_alert pt payload r) ≡ true
unfolding fault_alert read_fault
fault_alert-answers pt payload r h = ground arith

fault_resolved-answers :
    (pt : ParsedTopic) (payload : String) (r : Router)
    → HasNumbers payload
    → is_some (fault_resolved pt payload r) ≡ true
unfolding fault_resolved
fault_resolved-answers pt payload r h = ground arith

handle_event-answers :
    (pt : ParsedTopic) (payload : String) (r : Router)
    → HasNumbers payload
    → is_some (handle_event pt payload r) ≡ true
unfolding handle_event
handle_event-answers pt payload r h = ground (
  arith,
  order_completed-answers pt payload r h,
  fault_alert-answers pt payload r h,
  fault_resolved-answers pt payload r h,
)

handle_ota_progress-answers :
    (pt : ParsedTopic) (payload : String) (r : Router)
    → is_some (handle_ota_progress pt payload r) ≡ knows pt.device_id r.ota
unfolding handle_ota_progress process_ota_progress
handle_ota_progress-answers pt payload r = ground arith

-- The choice by the type of the message, where at most one of the first four tests holds.
chosen :
    (heartbeat event property ota status : Bool) (a b c r : Router) (e o : Option Router) (k : Bool)
    → (ota ≡ true → (heartbeat ≡ false) × (event ≡ false) × (property ≡ false))
    → is_some e ≡ true
    → is_some o ≡ k
    → is_some (
        if heartbeat
        then some a
        else if event
        then e
        else if property
        then some b
        else if ota
        then o
        else if status
        then some c
        else some r)
      ≡ (if ota then k else true)
chosen heartbeat event property ota status a b c r e o k one he ho = ground arith

types_differ :
    (t : String)
    → (t == "ota") ≡ true
    → ((t == "heartbeat") ≡ false) × ((t == "event") ≡ false) × ((t == "property") ≡ false)
unfolding ◌==◌
types_differ t h =
    subst
      (λ x. ((x == "heartbeat") ≡ false) × ((x == "event") ≡ false) × ((x == "property") ≡ false))
      (sym ((text_iff t "ota").0 h)) (refl, refl, refl)

dispatch-answers :
    (now : ℤ) (pt : ParsedTopic) (payload : String) (r : Router)
    → HasNumbers payload
    → is_some (dispatch now pt payload r)
      ≡ (if pt.message_type == "ota" then knows pt.device_id r.ota else true)
unfolding dispatch
dispatch-answers now pt payload r h =
    chosen (pt.message_type == "heartbeat") (pt.message_type == "event")
      (pt.message_type == "property") (pt.message_type == "ota") (pt.message_type == "status")
      (handle_heartbeat now pt payload r) (handle_property pt payload r)
      (handle_status pt payload r) r (handle_event pt payload r) (handle_ota_progress pt payload r)
      (knows pt.device_id r.ota) (types_differ pt.message_type)
      (handle_event-answers pt payload r h) (handle_ota_progress-answers pt payload r)

-- A message whose numbers are missing or can be read is handled, with one exception: the progress of
-- an upgrade that is reported by a device without a record, when the OTA manager is set.
pub on_message-answers :
    (now : ℤ) (topic payload : String) (r : Router)
    → HasNumbers payload
    → is_some (on_message now topic payload r) ≡ (
        if (parse topic).valid && ((parse topic).message_type == "ota")
        then knows (parse topic).device_id r.ota
        else true)
unfolding on_message
on_message-answers now topic payload r h =
    ground (arith, dispatch-answers now (parse topic) payload r h)
