-- ===== src/Device.antt =====
-- src/app/device/device_manager.{h,cpp}: the devices of all tenants, a map of maps. `now` is the clock in
-- seconds where a method reads it. Whether `set_database` was called is `db`, and whether there is an
-- offline callback `offline_cb`; calls of the callback and of `upsert_device` are listed in the
-- outcome, and the answer of `upsert_device` is an argument. Each method holds the lock to its end,
-- but `check_offline_devices` takes it once for each step: here no other call comes between.
pub mod View
pub mod Consistent
pub mod Calls
pub mod Offline
pub mod Counts
use iot_dev_sys.Common.{
  ℕ, ◌+◌, String, Bool, true, false, not, List, [], ◌∷◌, ◌++◌, Option, none, some, map, length,
  select, if◌then◌else◌,
}
use iot_dev_sys.Common.Dict.{Dict, lookup, put, without, values}
use iot_dev_sys.Common.Int.{ℤ, pos, ◌-ℤ◌, ltb_ℤ}
use iot_dev_sys.Status.{StatusCode, ok, dev_not_activated, storage_read_error}
use iot_dev_sys.Types.Device.{
  Device, Tenant, NetworkStatus, WorkStatus, online, offline, idle, new_device,
}

pub record DeviceManager : Type 0 where
  pub tenants : Dict (Dict Device)
  pub offline_cb : Bool
  pub db : Bool

pub record Outcome : Type 0 where
  pub state : DeviceManager
  pub status : StatusCode
  pub upserted : List Device

abbrev pub answer : DeviceManager → StatusCode → Outcome
answer s c = record { state = s; status = c; upserted = [] }

-- `m[k]` on the left of a use: a missing key gets an empty map.
abbrev pub or_empty : Option (Dict Device) → Dict Device
or_empty none = []
or_empty (some td) = td

abbrev pub devices_of : String → DeviceManager → Dict Device
devices_of tenant_id s = or_empty (lookup tenant_id s.tenants)

abbrev pub set_devices : String → Dict Device → DeviceManager → DeviceManager
set_devices tenant_id td s = record s { tenants = put tenant_id td s.tenants }

-- A new device, or the known one with a new heartbeat.
unfoldable pub beat : String → String → String → ℤ → Option Device → Device
unfolding new_device
beat tenant_id device_id product_id now none = record new_device {
  tenant_id = tenant_id;
  device_id = device_id;
  product_id = product_id;
  network_status = online;
  work_status = idle;
  last_heartbeat_at = now;
  activated = true;
}
beat tenant_id device_id product_id now (some dev) = record dev {
  last_heartbeat_at = now;
  network_status = online;
}

-- The payload is not read.
unfoldable pub process_heartbeat : String → String → String → ℤ → DeviceManager → DeviceManager
process_heartbeat tenant_id device_id product_id now s =
    let td = devices_of tenant_id s in
    let dev = beat tenant_id device_id product_id now (lookup device_id td) in
    set_devices tenant_id (put device_id dev td) s

unfoldable pub process_property : String → String → String → String → DeviceManager → DeviceManager
process_property tenant_id device_id product_id payload s = s

unfoldable pub register_device : (Device → StatusCode) → Device → DeviceManager → Outcome
register_device upsert_device dev s =
    let t = set_devices dev.tenant_id (put dev.device_id dev (devices_of dev.tenant_id s)) s in
    if s.db
    then record { state = t; status = upsert_device dev; upserted = dev ∷ [] }
    else answer t ok

-- What `remove_device` leaves of a tenant: an empty map is taken out with its key.
unfoldable pub store_rest : String → Dict Device → Dict (Dict Device) → Dict (Dict Device)
store_rest tenant_id [] m = without tenant_id m
store_rest tenant_id (e ∷ td) m = put tenant_id (e ∷ td) m

unfoldable pub remove_device : String → String → DeviceManager → Outcome
unfolding store_rest
remove_device tenant_id device_id s = elim (lookup tenant_id s.tenants) [
  | none ↦ answer s dev_not_activated
  | some td ↦ elim (lookup device_id td) [
    | none ↦ answer s dev_not_activated
    | some dev ↦
        answer (record s { tenants = store_rest tenant_id (without device_id td) s.tenants }) ok
  ]
]

unfoldable pub update_device_status :
    String → String → NetworkStatus → WorkStatus → DeviceManager → Outcome
update_device_status tenant_id device_id net_st work_st s = elim (lookup tenant_id s.tenants) [
  | none ↦ answer s dev_not_activated
  | some td ↦ elim (lookup device_id td) [
    | none ↦ answer s dev_not_activated
    | some dev ↦
        answer
          (set_devices tenant_id
            (put device_id (record dev { network_status = net_st; work_status = work_st }) td) s)
          ok
  ]
]

-- The first tenant, in the order of the loop, that has the device.
pub record Home : Type 0 where
  pub tenant_id : String
  pub devices : Dict Device
  pub device : Device

unfoldable pub find_home : String → Dict (Dict Device) → Option Home
find_home device_id [] = none
find_home device_id ((tid, td) ∷ m) = elim (lookup device_id td) [
  | some dev ↦ some (record { tenant_id = tid; devices = td; device = dev })
  | none ↦ find_home device_id m
]

-- The device leaves its tenant's map before the new tenant's map is looked up.
unfoldable pub move : String → String → Home → DeviceManager → DeviceManager
move device_id new_tenant h s =
    let t = set_devices h.tenant_id (without device_id h.devices) s in
    set_devices new_tenant
      (put device_id (record h.device { tenant_id = new_tenant }) (devices_of new_tenant t)) t

unfoldable pub migrate_device : String → String → DeviceManager → Outcome
unfolding move
migrate_device device_id new_tenant s = elim (find_home device_id s.tenants) [
  | none ↦ answer s dev_not_activated
  | some h ↦ answer (move device_id new_tenant h s) ok
]

unfoldable pub find_device_by_id : String → DeviceManager → Option Device
find_device_by_id device_id s = elim (find_home device_id s.tenants) [
  | none ↦ none
  | some h ↦ some h.device
]

unfoldable pub get_device : String → String → DeviceManager → Option Device
get_device tenant_id device_id s = elim (lookup tenant_id s.tenants) [
  | none ↦ none
  | some td ↦ lookup device_id td
]

unfoldable pub list_devices : String → DeviceManager → List Device
list_devices tenant_id s = elim (lookup tenant_id s.tenants) [ none ↦ [] | some td ↦ values td ]

unfoldable pub all_values : Dict (Dict Device) → List Device
all_values [] = []
all_values ((tid, td) ∷ m) = values td ++ all_values m

unfoldable pub list_all_devices : DeviceManager → List Device
unfolding all_values
list_all_devices s = all_values s.tenants

-- `now - dev.last_heartbeat_at > timeout_sec`
abbrev pub is_stale : ℤ → ℤ → Device → Bool
is_stale now timeout_sec dev = ltb_ℤ timeout_sec (now -ℤ dev.last_heartbeat_at)

unfoldable pub list_offline_devices : ℤ → ℤ → DeviceManager → List Device
list_offline_devices now timeout_sec s = select (is_stale now timeout_sec) (list_all_devices s)

abbrev pub default_timeout : ℤ
default_timeout = pos 180

unfoldable pub mark_offline : List Device → DeviceManager → DeviceManager
mark_offline [] s = s
mark_offline (dev ∷ devs) s =
    mark_offline devs
      (update_device_status dev.tenant_id dev.device_id offline dev.work_status s).state

-- The new state, and the arguments of the callback in the order of its calls.
unfoldable pub check_offline_devices : ℤ → DeviceManager → DeviceManager × List (String × String)
unfolding mark_offline
check_offline_devices now s =
    let devs = list_offline_devices now default_timeout s in
    (mark_offline devs s, if s.offline_cb then map (λ d. (d.tenant_id, d.device_id)) devs else [])

unfoldable pub list_tenants : DeviceManager → List Tenant
list_tenants s = map (λ e. record { tenant_id = e.0; name = e.0; active = true }) s.tenants

unfoldable pub device_count : String → DeviceManager → ℕ
device_count tenant_id s = length (devices_of tenant_id s)

unfoldable pub count_all : Dict (Dict Device) → ℕ
count_all [] = 0
count_all ((tid, td) ∷ m) = length td + count_all m

unfoldable pub total_device_count : DeviceManager → ℕ
unfolding count_all
total_device_count s = count_all s.tenants

unfoldable pub load_devices : List Device → DeviceManager → DeviceManager
load_devices [] s = s
load_devices (dev ∷ devs) s = load_devices devs (
    if dev.activated
    then set_devices dev.tenant_id (put dev.device_id dev (devices_of dev.tenant_id s)) s
    else s)

-- `stored` is what `list_all_devices` of the database answers.
unfoldable pub load_from_database : List Device → DeviceManager → Outcome
unfolding load_devices
load_from_database stored s =
    if not s.db then answer s storage_read_error else answer (load_devices stored s) ok

unfoldable pub sync_to_database : (Device → StatusCode) → Device → DeviceManager → Outcome
sync_to_database upsert_device dev s =
    if not s.db
    then answer s storage_read_error
    else record { state = s; status = upsert_device dev; upserted = dev ∷ [] }
