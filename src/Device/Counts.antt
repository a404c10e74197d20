-- ===== src/Device/Counts.antt =====
-- Counts and tenants in src/app/device/device_manager.cpp.
use iot_dev_sys.Common.{
  ◌≡◌, refl, ◌+◌, String, [], ◌∷◌, none, some, arith, text_iff, inl, inr, Option-cases, length,
  length-append, ◌≢◌,
}
use iot_dev_sys.Common.Dict.{
  Dict, lookup, put, without, values, Distinct, Each, length-values, length-without, length-put_new,
  Each-lookup, lookup-put,
}
use iot_dev_sys.Types.Device.{Device}
use iot_dev_sys.Device.{
  DeviceManager, Home, or_empty, list_all_devices, all_values, count_all, total_device_count,
  device_count, list_devices, find_home, migrate_device, move, get_device,
}
use iot_dev_sys.Device.View.{find_home-found, get_device-devices_of}

count_all-length : (m : Dict (Dict Device)) → count_all m ≡ length (all_values m)
unfolding count_all all_values
count_all-length [] = refl
count_all-length ((t, td) ∷ m) =
    omega (arith, count_all-length m, length-append (values td) (all_values m), length-values td)

tenant_count : (t : String) (s : DeviceManager) → device_count t s ≡ length (list_devices t s)
unfolding device_count list_devices
tenant_count t s = elim (Option-cases (lookup t s.tenants)) [
  | inl miss ↦ ground arith
  | inr (td, hit) ↦ ground (arith, length-values td)
]

-- The total count is the number of devices listed for all tenants, and a tenant's count the number
-- of those listed for it.
device_counts :
    (s : DeviceManager) (t : String)
    → (total_device_count s ≡ length (list_all_devices s))
      × (device_count t s ≡ length (list_devices t s))
unfolding total_device_count list_all_devices
device_counts s t = (count_all-length s.tenants, tenant_count t s)

-- Writing the map of a tenant changes the total by the difference to what was there.
count_all-put :
    (t : String) (td : Dict Device) (m : Dict (Dict Device))
    → count_all (put t td m) + length (or_empty (lookup t m)) ≡ count_all m + length td
unfolding count_all put lookup
count_all-put t td [] = omega arith
count_all-put t td ((j, jd) ∷ m) = ground (arith, count_all-put t td m)

move-total :
    (d new : String) (h : Home) (s : DeviceManager)
    → lookup h.tenant_id s.tenants ≡ some h.devices
    → lookup d h.devices ≡ some h.device
    → Distinct h.devices
    → new ≢ h.tenant_id
    → get_device new d s ≡ none
    → total_device_count (move d new h s) ≡ total_device_count s
unfolding move total_device_count
move-total d new h s at_home there inner other absent =
    let dev : Device = record h.device { tenant_id = new } in
    let left : Dict (Dict Device) = put h.tenant_id (without d h.devices) s.tenants in
    ground (
      arith,
      count_all-put h.tenant_id (without d h.devices) s.tenants,
      count_all-put new (put d dev (or_empty (lookup new left))) left,
      length-without d h.device h.devices inner there,
      length-put_new d dev (or_empty (lookup new left)),
      lookup-put h.tenant_id new (without d h.devices) s.tenants,
      text_iff h.tenant_id new,
      get_device-devices_of new d s,
      other,
    )

-- Migration to another tenant that does not yet have the device keeps the total count.
migrate_device-total :
    (d new : String) (h : Home) (s : DeviceManager)
    → Distinct s.tenants
    → Each Distinct s.tenants
    → find_home d s.tenants ≡ some h
    → new ≢ h.tenant_id
    → get_device new d s ≡ none
    → total_device_count (migrate_device d new s).state ≡ total_device_count s
unfolding migrate_device
migrate_device-total d new h s dist each found other absent =
    rw (found, migrate_device) (move-total d new h s f.0 f.1 inner other absent)
  where
    f : (lookup h.tenant_id s.tenants ≡ some h.devices) × (lookup d h.devices ≡ some h.device)
    f = find_home-found d s.tenants h dist found

    inner : Distinct h.devices
    inner = Each-lookup Distinct h.tenant_id h.devices s.tenants each f.0
