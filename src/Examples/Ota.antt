-- ===== src/Examples/Ota.antt =====
-- Upgrades of src/app/ota/ota_manager.cpp: the seeded registry and three machines.
use iot_dev_sys.Common.{
  String, ◌≡◌, refl, ℕ, ◌==◌, true, false, List, [], ◌∷◌, Option, some, arith, find_if, select, any,
  if◌then◌else◌,
}
use iot_dev_sys.Common.Dict.{lookup, put, values}
use iot_dev_sys.Common.Int.{pos}
use iot_dev_sys.Status.{ok}
use iot_dev_sys.Types.Device.{Device, new_device, online}
use iot_dev_sys.Types.Ota.{FirmwareVersion, new_firmware}
use iot_dev_sys.Ota.{
  OtaManager, has_version, is_using, pending_record, push_to_device, push_grayscale, push_all,
  candidates, delete_firmware,
}
use iot_dev_sys.Ota.Push.{is_pending, is_pending_for}
use iot_dev_sys.Ota.Grayscale.{pushed, pushed_tenant, push_grayscale-lookup, push_all-covers}
use iot_dev_sys.Ota.Registry.{delete_firmware-pending}

abbrev v3 : FirmwareVersion
v3 = record new_firmware { version = "v3"; product_id = "coffee_v1"; force_upgrade = true }

abbrev registry : OtaManager
registry = record { ota_records = []; firmware_versions = v3 ∷ []; db = false }

v3_registered : find_if (has_version "v3") registry.firmware_versions ≡ some v3
unfolding find_if ◌==◌ new_firmware
v3_registered = refl

abbrev machine : String → String → Device
machine tenant_id device_id = record new_device {
  tenant_id = tenant_id;
  device_id = device_id;
  product_id = "coffee_v1";
  network_status = online;
  activated = true;
}

abbrev machines : Option (List Device)
machines = some (machine "north" "m1" ∷ machine "south" "m22" ∷ [])

-- A hash for the examples: 30 for "m1", 60 for any other id.
abbrev hash : String → ℕ
hash i = if i == "m1" then 30 else 60

push_grayscale-lookup_example :
    ((push_grayscale hash machines "coffee_v1" "v3" (pos 50) registry).1 ≡ ok)
    × (lookup "m1" (push_grayscale hash machines "coffee_v1" "v3" (pos 50) registry).0.ota_records
        ≡ pushed "v3" "m1" v3
            (pushed_tenant hash (pos 50) "m1" (candidates machines "coffee_v1" "v3" registry))
            (lookup "m1" registry.ota_records))
push_grayscale-lookup_example =
    push_grayscale-lookup hash machines "coffee_v1" "v3" "m1" (pos 50) v3 registry
      (omega arith, omega arith) v3_registered

m1_at_50 :
    is_pending_for "v3" "m1" (push_grayscale hash machines "coffee_v1" "v3" (pos 50) registry).0
    ≡ true
unfolding is_pending_for is_pending push_grayscale find_if candidates select push_to_device lookup
    put pending_record ◌==◌ new_firmware new_device
m1_at_50 = refl

m22_candidate :
    any (λ dev. dev.device_id == "m22") (candidates machines "coffee_v1" "v3" registry) ≡ true
unfolding any candidates select ◌==◌ new_device
m22_candidate = refl

push_all-covers_example :
    is_pending_for "v3" "m22" (push_all hash machines "coffee_v1" "v3" registry).0 ≡ true
push_all-covers_example =
    push_all-covers hash machines "coffee_v1" "v3" "m22" v3 registry v3_registered m22_candidate

unused : any (is_using "v3") (values registry.ota_records) ≡ false
unfolding any values
unused = refl

delete_firmware-pending_example :
    let q = (push_to_device "north" "coffee_v1" "m1" "v3" registry).0 in
    ((delete_firmware "v3" q).1 ≡ ok) × (is_pending_for "v3" "m1" (delete_firmware "v3" q).0 ≡ true)
delete_firmware-pending_example =
    delete_firmware-pending "north" "coffee_v1" "m1" "v3" v3 registry v3_registered unused
