-- ===== src/Examples/Device.antt =====
-- Devices of src/app/device/device_manager.cpp: two tenants and their machines.
use mathlib.Core.Option
use iot_dev_sys.Common.{
  String, ◌≡◌, ◌≢◌, refl, ◌==◌, select, true, false, List, [], ◌∷◌, none, arith, text_iff,
}
use iot_dev_sys.Common.Dict.{lookup, put, values}
use iot_dev_sys.Common.Int.{pos, ◌-ℤ◌}
use iot_dev_sys.Status.{ok}
use iot_dev_sys.Types.Device.{Device, new_device, offline, brewing}
use iot_dev_sys.Device.{
  DeviceManager, get_device, update_device_status, check_offline_devices, list_all_devices,
  register_device, list_offline_devices, load_from_database,
}
use iot_dev_sys.Device.Consistent.{IsConsistent}
use iot_dev_sys.Device.Calls.{Call, register, load, call, run, run-IsConsistent, empty-IsConsistent}
use iot_dev_sys.Device.Offline.{age, check_offline_devices-get}

abbrev no_devices : DeviceManager
no_devices = record { tenants = []; offline_cb = true; db = false }

abbrev pub grinder : Device
grinder = record new_device {
  tenant_id = "north";
  device_id = "m1";
  product_id = "coffee_v1";
  work_status = brewing;
  last_heartbeat_at = pos 1000;
  activated = true;
}

abbrev pub boiler : Device
boiler = record new_device { tenant_id = "south"; device_id = "m2"; last_heartbeat_at = pos 1500 }

abbrev arrivals : List Call
arrivals = load (grinder ∷ []) ∷ register (λ d. ok) grinder ∷ register (λ d. ok) boiler ∷ []

run-IsConsistent_example : IsConsistent (run arrivals no_devices)
run-IsConsistent_example = run-IsConsistent arrivals no_devices (empty-IsConsistent true false)

abbrev pub fleet : DeviceManager
fleet = record {
  tenants = ("north", ("m1", grinder) ∷ []) ∷ ("south", ("m2", boiler) ∷ []) ∷ [];
  offline_cb = true;
  db = false;
}

arrived : run arrivals no_devices ≡ fleet
unfolding run call register_device load_from_database put lookup ◌==◌ new_device
arrived = refl

pub fleet-IsConsistent : IsConsistent fleet
unfolding run call register_device load_from_database put lookup ◌==◌ new_device
fleet-IsConsistent = run-IsConsistent arrivals no_devices (empty-IsConsistent true false)

check_offline_devices-get_example :
    get_device "north" "m1" (check_offline_devices (pos 1600) fleet).0
    ≡ Option.map (age (pos 1600)) (get_device "north" "m1" fleet)
check_offline_devices-get_example =
    check_offline_devices-get (pos 1600) fleet "north" "m1" fleet-IsConsistent

-- The grinder was last heard of 600 seconds ago, the boiler 100.
checked : check_offline_devices (pos 1600) fleet ≡ (
  record fleet {
    tenants =
        ("north", ("m1", record grinder { network_status = offline }) ∷ [])
        ∷ ("south", ("m2", boiler) ∷ [])
        ∷ [];
  },
  ("north", "m1") ∷ [],
)
unfolding check_offline_devices list_offline_devices list_all_devices select values
    update_device_status put lookup ◌==◌ new_device ◌-ℤ◌
checked = refl

not_there : get_device "south" "m1" fleet ≡ none
unfolding get_device lookup ◌==◌ new_device
not_there = refl

south_not_north : ◌≢◌ {A = String} "south" "north"
unfolding ◌==◌
south_not_north = ground (arith, text_iff "south" "north")
