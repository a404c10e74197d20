-- ===== src/Router/Safety.antt =====
-- The invariants of the managers behind src/app/message_router.cpp, under messages with any topic and
-- payload.
use iot_dev_sys.Common.{String, Option, none, some, if_both}
use iot_dev_sys.Common.Int.{ℤ}
use iot_dev_sys.Topic.{ParsedTopic, parse}
use iot_dev_sys.Order.{OrderManager, create_order}
use iot_dev_sys.Order.Run.{create, call}
use iot_dev_sys.Order.Bounds.{IsBounded, call-IsBounded}
use iot_dev_sys.Device.{DeviceManager}
use iot_dev_sys.Device.Consistent.{
  IsConsistent, process_heartbeat-IsConsistent, update_device_status-IsConsistent,
}
use iot_dev_sys.Device.{process_property}
use iot_dev_sys.Fault.{FaultManager, add_fault, resolve_fault, to_fault_code}
use iot_dev_sys.Ota.{OtaManager}
use iot_dev_sys.Router.{
  Router, handle_heartbeat, handle_property, order_completed, fault_alert, fault_resolved,
  handle_event, handle_status, handle_ota_progress, dispatch, on_message, resolve_tenant,
}

-- A property of a value that may be missing.
unfoldable pub Holds {ℓ} : {A : Type ℓ} → (A → Type 0) → Option A → Type 0
Holds P none = Unit
Holds P (some a) = P a

Holds-elim {ℓ κ} :
    {A : Type ℓ} {B : Type κ} (P : B → Type 0) (f : A → B) (o : Option A)
    → ((a : A) → P (f a))
    → Holds P (elim o [ none ↦ none | some a ↦ some (f a) ])
unfolding Holds
Holds-elim P f none h = tt
Holds-elim P f (some a) h = h a

Holds-some {ℓ} : {A : Type ℓ} (P : A → Type 0) (a : A) → P a → Holds P (some a)
unfolding Holds
Holds-some P a h = h

pub record IsSafe (r : Router) : Type 0 where
  pub consistent : Holds IsConsistent r.devices
  pub bounded : Holds IsBounded r.orders

abbrev router :
    Option DeviceManager → Option OrderManager → Option OtaManager → Option FaultManager → Router
router ds os ot fs = record { devices = ds; orders = os; ota = ot; faults = fs }

handle_heartbeat-IsSafe :
    (now : ℤ) (pt : ParsedTopic) (payload : String) (ds : Option DeviceManager)
    (os : Option OrderManager) (ot : Option OtaManager) (fs : Option FaultManager)
    → IsSafe (router ds os ot fs)
    → IsSafe (handle_heartbeat now pt payload (router ds os ot fs))
unfolding handle_heartbeat Holds
handle_heartbeat-IsSafe now pt payload none os ot fs v = v
handle_heartbeat-IsSafe now pt payload (some mgr) os ot fs v = record {
  consistent = process_heartbeat-IsConsistent _ pt.device_id _ now mgr v.consistent;
  bounded = v.bounded;
}

handle_property-IsSafe :
    (pt : ParsedTopic) (payload : String) (ds : Option DeviceManager) (os : Option OrderManager)
    (ot : Option OtaManager) (fs : Option FaultManager)
    → IsSafe (router ds os ot fs)
    → IsSafe (handle_property pt payload (router ds os ot fs))
unfolding handle_property process_property Holds
handle_property-IsSafe pt payload none os ot fs v = v
handle_property-IsSafe pt payload (some mgr) os ot fs v = v

handle_status-IsSafe :
    (pt : ParsedTopic) (payload : String) (ds : Option DeviceManager) (os : Option OrderManager)
    (ot : Option OtaManager) (fs : Option FaultManager)
    → IsSafe (router ds os ot fs)
    → IsSafe (handle_status pt payload (router ds os ot fs))
unfolding handle_status Holds
handle_status-IsSafe pt payload none os ot fs v = v
handle_status-IsSafe pt payload (some mgr) os ot fs v = record {
  consistent = update_device_status-IsConsistent _ pt.device_id _ _ mgr v.consistent;
  bounded = v.bounded;
}

handle_ota_progress-IsSafe :
    (pt : ParsedTopic) (payload : String) (ds : Option DeviceManager) (os : Option OrderManager)
    (ot : Option OtaManager) (fs : Option FaultManager)
    → IsSafe (router ds os ot fs)
    → Holds IsSafe (handle_ota_progress pt payload (router ds os ot fs))
unfolding handle_ota_progress Holds
handle_ota_progress-IsSafe pt payload ds os none fs v = v
handle_ota_progress-IsSafe pt payload ds os (some mgr) fs v =
    Holds-elim IsSafe (λ m. router ds os (some m) fs) _
      (λ m. record { consistent = v.consistent; bounded = v.bounded })

order_completed-IsSafe :
    (pt : ParsedTopic) (payload : String) (ds : Option DeviceManager) (os : Option OrderManager)
    (ot : Option OtaManager) (fs : Option FaultManager)
    → IsSafe (router ds os ot fs)
    → Holds IsSafe (order_completed pt payload (router ds os ot fs))
unfolding order_completed call Holds
order_completed-IsSafe pt payload ds none ot fs v = v
order_completed-IsSafe pt payload ds (some mgr) ot fs v =
    Holds-elim IsSafe (λ o. router ds (some (create_order o mgr).state) ot fs) _
      (λ o. record { consistent = v.consistent; bounded = call-IsBounded (create o) mgr v.bounded })

fault_alert-IsSafe :
    (pt : ParsedTopic) (payload : String) (ds : Option DeviceManager) (os : Option OrderManager)
    (ot : Option OtaManager) (fs : Option FaultManager)
    → IsSafe (router ds os ot fs)
    → Holds IsSafe (fault_alert pt payload (router ds os ot fs))
unfolding fault_alert Holds
fault_alert-IsSafe pt payload ds os ot none v = v
fault_alert-IsSafe pt payload ds os ot (some mgr) v =
    Holds-elim IsSafe (λ f. router ds os ot (some (add_fault f mgr).state)) _
      (λ f. record { consistent = v.consistent; bounded = v.bounded })

fault_resolved-IsSafe :
    (pt : ParsedTopic) (payload : String) (ds : Option DeviceManager) (os : Option OrderManager)
    (ot : Option OtaManager) (fs : Option FaultManager)
    → IsSafe (router ds os ot fs)
    → Holds IsSafe (fault_resolved pt payload (router ds os ot fs))
unfolding fault_resolved Holds
fault_resolved-IsSafe pt payload ds os ot none v = v
fault_resolved-IsSafe pt payload ds os ot (some mgr) v =
    Holds-elim IsSafe
      (λ c. router ds os ot (
        some (resolve_fault (resolve_tenant ds pt.device_id) pt.device_id (to_fault_code c) mgr).0))
      _ (λ c. record { consistent = v.consistent; bounded = v.bounded })

handle_event-IsSafe :
    (pt : ParsedTopic) (payload : String) (r : Router)
    → IsSafe r
    → Holds IsSafe (handle_event pt payload r)
unfolding handle_event
handle_event-IsSafe pt payload r v =
    if_both (Holds IsSafe) _ _ _
      (order_completed-IsSafe pt payload r.devices r.orders r.ota r.faults v)
      (if_both (Holds IsSafe) _ _ _
        (fault_alert-IsSafe pt payload r.devices r.orders r.ota r.faults v)
        (if_both (Holds IsSafe) _ _ _
          (fault_resolved-IsSafe pt payload r.devices r.orders r.ota r.faults v)
          (if_both (Holds IsSafe) _ _ _
            (Holds-some IsSafe _
              (handle_property-IsSafe pt payload r.devices r.orders r.ota r.faults v))
            (Holds-some IsSafe r v))))

dispatch-IsSafe :
    (now : ℤ) (pt : ParsedTopic) (payload : String) (r : Router)
    → IsSafe r
    → Holds IsSafe (dispatch now pt payload r)
unfolding dispatch
dispatch-IsSafe now pt payload r v =
    if_both (Holds IsSafe) _ _ _
      (Holds-some IsSafe _
        (handle_heartbeat-IsSafe now pt payload r.devices r.orders r.ota r.faults v))
      (if_both (Holds IsSafe) _ _ _ (handle_event-IsSafe pt payload r v) (
        if_both (Holds IsSafe) _ _ _
          (Holds-some IsSafe _
            (handle_property-IsSafe pt payload r.devices r.orders r.ota r.faults v))
          (if_both (Holds IsSafe) _ _ _
            (handle_ota_progress-IsSafe pt payload r.devices r.orders r.ota r.faults v)
            (if_both (Holds IsSafe) _ _ _
              (Holds-some IsSafe _
                (handle_status-IsSafe pt payload r.devices r.orders r.ota r.faults v))
              (Holds-some IsSafe r v)))))

-- Whatever message arrives, the routing of it fails, or the device manager is consistent and the
-- order queue within its depth afterwards, if they were before.
pub on_message-IsSafe :
    (now : ℤ) (topic payload : String) (r : Router)
    → IsSafe r
    → Holds IsSafe (on_message now topic payload r)
unfolding on_message
on_message-IsSafe now topic payload r v =
    if_both (Holds IsSafe) (parse topic).valid _ _ (dispatch-IsSafe now (parse topic) payload r v)
      (Holds-some IsSafe r v)
