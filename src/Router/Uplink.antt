-- ===== src/Router/Uplink.antt =====
-- Messages of known devices through src/app/message_router.cpp into the managers.
use iot_dev_sys.Common.{
  ◌≡◌, ◌≢◌, refl, ◌∙◌, ap, String, true, Bool, Option, some, ◌==◌, ◌||◌, if◌then◌else◌,
}
use iot_dev_sys.Common.Int.{ℤ}
use iot_dev_sys.Common.Text.{append, lacks}
use mathlib.Core.Option
use iot_dev_sys.Types.Device.{Device, online, offline, idle}
use iot_dev_sys.Topic.{ParsedTopic, parse}
use iot_dev_sys.Topic.Downlink.{slash}
use iot_dev_sys.Topic.Uplink.{uplink, parse-uplink}
use iot_dev_sys.Order.{OrderManager}
use iot_dev_sys.Device.{
  DeviceManager, Home, find_home, get_device, find_device_by_id, process_heartbeat, beat,
  update_device_status,
}
use iot_dev_sys.Device.View.{
  at, set_status, process_heartbeat-get, update_device_status-get, find_home-found, home-get,
}
use iot_dev_sys.Device.Consistent.{IsConsistent}
use iot_dev_sys.Fault.{FaultManager}
use iot_dev_sys.Ota.{OtaManager}
use iot_dev_sys.Router.{
  Router, resolve_tenant, resolve_product, handle_heartbeat, handle_status, reported_status,
  dispatch, on_message,
}

abbrev pub is_offline_report : String → Bool
is_offline_report payload = reported_status payload == "offline" || reported_status payload == "1"

on_valid :
    (now : ℤ) (topic payload : String) (r : Router) (pt : ParsedTopic)
    → parse topic ≡ pt
    → on_message now topic payload r ≡ (if pt.valid then dispatch now pt payload r else some r)
unfolding on_message
on_valid now topic payload r pt e = rw e refl

home-known :
    (d : String) (h : Home) (s : DeviceManager)
    → IsConsistent s
    → find_home d s.tenants ≡ some h
    → (get_device h.tenant_id d s ≡ some h.device) × (h.device.tenant_id ≡ h.tenant_id)
home-known d h s v found = (
  home-get d h s (find_home-found d s.tenants h v.distinct.0 found),
  (v.keyed h.tenant_id d h.device
      (home-get d h s (find_home-found d s.tenants h v.distinct.0 found))).0,
)

found_by_id :
    (d : String) (h : Home) (s : DeviceManager)
    → find_home d s.tenants ≡ some h
    → find_device_by_id d s ≡ some h.device
unfolding find_device_by_id
found_by_id d h s found = rw (found, find_device_by_id) refl

resolved :
    (d : String) (h : Home) (s : DeviceManager)
    → IsConsistent s
    → find_home d s.tenants ≡ some h
    → (resolve_tenant (some s) d ≡ h.tenant_id) × (resolve_product (some s) d ≡ h.device.product_id)
unfolding resolve_tenant resolve_product
resolved d h s v found = (
  rw (found_by_id d h s found, resolve_tenant) (home-known d h s v found).1,
  rw (found_by_id d h s found, resolve_product) refl,
)

types_lack : (lacks slash "heartbeat" ≡ true) × (lacks slash "status" ≡ true)
unfolding lacks
types_lack = (refl, refl)

dispatch-heartbeat :
    (now : ℤ) (d payload : String) (r : Router)
    → dispatch now (uplink d "heartbeat") payload r
      ≡ some (handle_heartbeat now (uplink d "heartbeat") payload r)
unfolding dispatch ◌==◌
dispatch-heartbeat now d payload r = refl

dispatch-status :
    (now : ℤ) (d payload : String) (r : Router)
    → dispatch now (uplink d "status") payload r
      ≡ some (handle_status (uplink d "status") payload r)
unfolding dispatch ◌==◌
dispatch-status now d payload r = refl

abbrev router :
    DeviceManager → Option OrderManager → Option OtaManager → Option FaultManager → Router
router s os ot fs = record { devices = some s; orders = os; ota = ot; faults = fs }

handle_heartbeat_lem :
    (now : ℤ) (d payload : String) (h : Home) (s : DeviceManager) (os : Option OrderManager)
    (ot : Option OtaManager) (fs : Option FaultManager)
    → IsConsistent s
    → find_home d s.tenants ≡ some h
    → handle_heartbeat now (uplink d "heartbeat") payload (router s os ot fs)
      ≡ router (process_heartbeat h.tenant_id d h.device.product_id now s) os ot fs
unfolding handle_heartbeat
handle_heartbeat_lem now d payload h s os ot fs v found =
    cc ((resolved d h s v found).0, (resolved d h s v found).1)

handle_status_lem :
    (d payload : String) (h : Home) (s : DeviceManager) (os : Option OrderManager)
    (ot : Option OtaManager) (fs : Option FaultManager)
    → IsConsistent s
    → find_home d s.tenants ≡ some h
    → handle_status (uplink d "status") payload (router s os ot fs)
      ≡ router
          (update_device_status h.tenant_id d
            (if is_offline_report payload then offline else online)
            idle
            s).state
          os
          ot
          fs
unfolding handle_status
handle_status_lem d payload h s os ot fs v found = cc ((resolved d h s v found).0)

beat_known :
    (t d p : String) (now : ℤ) (dev : Device) (o : Option Device)
    → o ≡ some dev
    → beat t d p now o ≡ record dev { last_heartbeat_at = now; network_status = online }
unfolding beat
beat_known t d p now dev o e = rw (e, beat) refl

-- A heartbeat of a device that is known under some tenant, in a consistent manager, makes that device
-- online with the time of the message, and changes nothing else of it, no other device and no other
-- manager.
pub on_message-heartbeat :
    (now : ℤ) (d payload : String) (h : Home) (s : DeviceManager) (os : Option OrderManager)
    (ot : Option OtaManager) (fs : Option FaultManager) (u e : String)
    → IsConsistent s
    → find_home d s.tenants ≡ some h
    → lacks slash d ≡ true
    → d ≢ ""
    → (t : DeviceManager) × (on_message now
          (append d "/v1/heartbeat")
          payload
          (record { devices = some s; orders = os; ota = ot; faults = fs })
        ≡ some (record { devices = some t; orders = os; ota = ot; faults = fs }))
      × (get_device u e t ≡ (
          if at h.tenant_id d u e
          then some (record h.device { last_heartbeat_at = now; network_status = online })
          else get_device u e s))
unfolding append
on_message-heartbeat now d payload h s os ot fs u e v found hd nd = (
  process_heartbeat h.tenant_id d h.device.product_id now s,
  on_valid now _ payload (router s os ot fs) (uplink d "heartbeat")
        (parse-uplink d "heartbeat" hd types_lack.0 nd (λ x. cc))
      ∙ dispatch-heartbeat now d payload (router s os ot fs)
      ∙ ap (λ x. some x) (handle_heartbeat_lem now d payload h s os ot fs v found),
  process_heartbeat-get h.tenant_id d h.device.product_id now u e s
      ∙ ap (λ x. if at h.tenant_id d u e then some x else get_device u e s)
          (beat_known h.tenant_id d h.device.product_id now h.device _
            (home-known d h s v found).0),
)

-- A status report of a device that is known under some tenant, in a consistent manager, sets its
-- network status and also makes it idle, whatever it was doing; it changes nothing else of the device,
-- no other device and no other manager.
pub on_message-status :
    (now : ℤ) (d payload : String) (h : Home) (s : DeviceManager) (os : Option OrderManager)
    (ot : Option OtaManager) (fs : Option FaultManager) (u e : String)
    → IsConsistent s
    → find_home d s.tenants ≡ some h
    → lacks slash d ≡ true
    → d ≢ ""
    → (t : DeviceManager) × (on_message now
          (append d "/v1/status")
          payload
          (record { devices = some s; orders = os; ota = ot; faults = fs })
        ≡ some (record { devices = some t; orders = os; ota = ot; faults = fs }))
      × (get_device u e t ≡ (
          if at h.tenant_id d u e
          then some
              (set_status (if is_offline_report payload then offline else online) idle h.device)
          else get_device u e s))
unfolding append
on_message-status now d payload h s os ot fs u e v found hd nd = (
  (update_device_status h.tenant_id d (if is_offline_report payload then offline else online) idle
      s).state,
  on_valid now _ payload (router s os ot fs) (uplink d "status")
        (parse-uplink d "status" hd types_lack.1 nd (λ x. cc))
      ∙ dispatch-status now d payload (router s os ot fs)
      ∙ ap (λ x. some x) (handle_status_lem d payload h s os ot fs v found),
  update_device_status-get h.tenant_id d _ idle u e s
      ∙ ap (λ x. if at h.tenant_id d u e then x else get_device u e s)
          (ap (Option.map (set_status (if is_offline_report payload then offline else online) idle))
            (home-known d h s v found).0),
)
