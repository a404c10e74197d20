-- ===== src/Device/View.antt =====
-- What each operation of src/app/device/device_manager.cpp does to the device that `get_device` returns
-- for a tenant and a device id. This is the manager as one map from pairs of ids to devices.
use mathlib.Core.Option
use iot_dev_sys.Common.{
  ◌≡◌, refl, String, Bool, [], ◌∷◌, ◌&&◌, none, some, arith, ◌==◌, text_iff, text_self,
  if◌then◌else◌, inl, inr, Option-cases,
}
use iot_dev_sys.Common.Dict.{Dict, lookup, put, without, lookup-put, lookup-without, Distinct}
use iot_dev_sys.Common.Int.{ℤ}
use iot_dev_sys.Status.{StatusCode, ok}
use iot_dev_sys.Types.Device.{Device, NetworkStatus, WorkStatus}
use iot_dev_sys.Device.{
  DeviceManager, Home, devices_of, set_devices, or_empty, get_device, beat, process_heartbeat,
  register_device, remove_device, store_rest, update_device_status, find_home, migrate_device, move,
}

-- A device is addressed by its tenant and its id.
abbrev pub at : String → String → String → String → Bool
at t d u e = t == u && d == e

pub get_device-devices_of :
    (u e : String) (s : DeviceManager) → get_device u e s ≡ lookup e (devices_of u s)
unfolding get_device lookup
get_device-devices_of u e s = ground arith

pub get_device-set_devices :
    (t u e : String) (td : Dict Device) (s : DeviceManager)
    → get_device u e (set_devices t td s) ≡ (if t == u then lookup e td else get_device u e s)
unfolding get_device
get_device-set_devices t u e td s = ground (arith, lookup-put t u td s.tenants)

-- Writing one device of a tenant.
pub get_device-write :
    (t d u e : String) (dev : Device) (s : DeviceManager)
    → get_device u e (set_devices t (put d dev (devices_of t s)) s)
      ≡ (if at t d u e then some dev else get_device u e s)
get_device-write t d u e dev s = ground (
  arith,
  get_device-set_devices t u e (put d dev (devices_of t s)) s,
  lookup-put d e dev (devices_of t s),
  get_device-devices_of u e s,
  text_iff t u,
)

-- A heartbeat writes the device of that tenant and id, creating it if it is new, and no other.
pub process_heartbeat-get :
    (t d p : String) (now : ℤ) (u e : String) (s : DeviceManager)
    → get_device u e (process_heartbeat t d p now s)
      ≡ (if at t d u e then some (beat t d p now (get_device t d s)) else get_device u e s)
unfolding process_heartbeat
process_heartbeat-get t d p now u e s =
    rw (get_device-devices_of t d s) (get_device-write t d u e _ s)

-- Registration stores the device under its own tenant and id, whatever was there and whatever the
-- database answers, and changes no other.
register_device-get :
    (upsert : Device → StatusCode) (dev : Device) (u e : String) (s : DeviceManager)
    → get_device u e (register_device upsert dev s).state
      ≡ (if at dev.tenant_id dev.device_id u e then some dev else get_device u e s)
unfolding register_device
register_device-get upsert dev u e s =
    ground (arith, get_device-write dev.tenant_id dev.device_id u e dev s)

store_rest-get :
    (t u e : String) (td : Dict Device) (s : DeviceManager)
    → get_device u e (record s { tenants = store_rest t td s.tenants })
      ≡ (if t == u then lookup e td else get_device u e s)
unfolding store_rest get_device lookup
store_rest-get t u e [] s = ground (arith, lookup-without t u s.tenants)
store_rest-get t u e (x ∷ td) s = ground (arith, lookup-put t u (x ∷ td) s.tenants)

-- Removal takes out the device of that tenant and id, and no other.
pub remove_device-get :
    (t d u e : String) (s : DeviceManager)
    → get_device u e (remove_device t d s).state ≡ (if at t d u e then none else get_device u e s)
unfolding remove_device get_device
remove_device-get t d u e s = elim (Option-cases (lookup t s.tenants)) [
  | inl no_tenant ↦ ground (arith, text_iff t u)
  | inr (td, found) ↦ ground (
    arith,
    text_iff t u,
    text_iff d e,
    store_rest-get t u e (without d td) s,
    lookup-without d e td,
  )
]

abbrev pub set_status : NetworkStatus → WorkStatus → Device → Device
set_status n w dev = record dev { network_status = n; work_status = w }

-- A status update writes the two statuses of that device, if it is there.
pub update_device_status-get :
    (t d : String) (n : NetworkStatus) (w : WorkStatus) (u e : String) (s : DeviceManager)
    → get_device u e (update_device_status t d n w s).state
      ≡ (if at t d u e then Option.map (set_status n w) (get_device t d s) else get_device u e s)
unfolding update_device_status get_device
update_device_status-get t d n w u e s = elim (Option-cases (lookup t s.tenants)) [
  | inl no_tenant ↦ ground (arith, text_iff t u)
  | inr (td, found) ↦ elim (Option-cases (lookup d td)) [
    | inl no_device ↦ ground (arith, text_iff t u, text_iff d e)
    | inr (dev, here) ↦ ground (
      arith,
      text_iff t u,
      text_iff d e,
      lookup-put t u (put d (set_status n w dev) td) s.tenants,
      lookup-put d e (set_status n w dev) td,
    )
  ]
]

-- The home that the loop finds is where the device is.
pub find_home-found :
    (d : String) (m : Dict (Dict Device)) (h : Home)
    → Distinct m
    → find_home d m ≡ some h
    → (lookup h.tenant_id m ≡ some h.devices) × (lookup d h.devices ≡ some h.device)
unfolding find_home lookup
find_home-found d [] h dist e = cc
find_home-found d ((tid, td) ∷ m) h dist e = elim (Option-cases (lookup d td)) [
  | inl miss ↦ ground (arith, find_home-found d m h dist.1, text_iff tid h.tenant_id)
  | inr (dev, hit) ↦ ground (arith, text_self tid)
]

-- A device that is found in no tenant is in none.
pub find_home-miss :
    (d : String) (m : Dict (Dict Device)) (u : String)
    → find_home d m ≡ none
    → lookup d (or_empty (lookup u m)) ≡ none
unfolding find_home lookup
find_home-miss d [] u e = refl
find_home-miss d ((tid, td) ∷ m) u e = ground (arith, find_home-miss d m u)

-- Taking a device out of the map that a tenant has.
pub taken-get :
    (t d u e : String) (td : Dict Device) (s : DeviceManager)
    → lookup t s.tenants ≡ some td
    → get_device u e (set_devices t (without d td) s)
      ≡ (if at t d u e then none else get_device u e s)
unfolding get_device
taken-get t d u e td s found = ground (
  arith,
  text_iff t u,
  text_iff d e,
  lookup-put t u (without d td) s.tenants,
  lookup-without d e td,
)

pub home-get :
    (d : String) (h : Home) (s : DeviceManager)
    → (lookup h.tenant_id s.tenants ≡ some h.devices) × (lookup d h.devices ≡ some h.device)
    → get_device h.tenant_id d s ≡ some h.device
unfolding get_device
home-get d h s f = ground arith

move-get :
    (d new : String) (h : Home) (u e : String) (s : DeviceManager)
    → lookup h.tenant_id s.tenants ≡ some h.devices
    → get_device u e (move d new h s) ≡ (
        if at new d u e
        then some (record h.device { tenant_id = new })
        else if at h.tenant_id d u e
        then none
        else get_device u e s)
unfolding move
move-get d new h u e s found = rw (← taken-get h.tenant_id d u e h.devices s found) (
    get_device-write new d u e (record h.device { tenant_id = new })
      (set_devices h.tenant_id (without d h.devices) s))

-- Migration gives the device to the new tenant, with that tenant's id and nothing else changed,
-- takes it from the tenant where the search found it, and changes no other device.
migrate_device-get :
    (d new : String) (h : Home) (u e : String) (s : DeviceManager)
    → Distinct s.tenants
    → find_home d s.tenants ≡ some h
    → ((migrate_device d new s).status ≡ ok)
      × (get_device h.tenant_id d s ≡ some h.device)
      × (get_device u e (migrate_device d new s).state ≡ (
          if at new d u e
          then some (record h.device { tenant_id = new })
          else if at h.tenant_id d u e
          then none
          else get_device u e s))
unfolding migrate_device
migrate_device-get d new h u e s dist found =
    let f = find_home-found d s.tenants h dist found in
    rw (found, migrate_device) (refl, home-get d h s f, move-get d new h u e s f.0)
