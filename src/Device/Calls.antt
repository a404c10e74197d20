-- ===== src/Device/Calls.antt =====
-- Histories of the calls of src/app/device/device_manager.cpp that change its state, and the consistency
-- of its maps along them.
use iot_dev_sys.Common.{
  ◌≡◌, refl, subst, String, Bool, List, [], ◌∷◌, none, some, inl, inr, Option-cases, some_inj,
}
use iot_dev_sys.Common.Dict.{lookup, without, Distinct, without-Distinct, Each-lookup}
use iot_dev_sys.Common.Int.{ℤ}
use iot_dev_sys.Status.{StatusCode}
use iot_dev_sys.Types.Device.{Device, NetworkStatus, WorkStatus}
use iot_dev_sys.Device.{
  DeviceManager, Home, set_devices, get_device, process_heartbeat, register_device, remove_device,
  update_device_status, find_home, migrate_device, move, check_offline_devices,
  list_offline_devices, default_timeout, load_from_database,
}
use iot_dev_sys.Device.View.{get_device-write, find_home-found, taken-get, home-get}
use iot_dev_sys.Device.Consistent.{
  IsConsistent, IsKeyed-write, put-IsDistinct, write-IsDistinct, process_heartbeat-IsConsistent,
  register_device-IsConsistent, remove_device-IsConsistent, update_device_status-IsConsistent,
  mark_offline-IsConsistent, load_from_database-IsConsistent,
}

taken-IsConsistent :
    (d : String) (h : Home) (s : DeviceManager)
    → lookup h.tenant_id s.tenants ≡ some h.devices
    → IsConsistent s
    → IsConsistent (set_devices h.tenant_id (without d h.devices) s)
taken-IsConsistent d h s found v = record {
  distinct =
      put-IsDistinct h.tenant_id (without d h.devices) s.tenants
        (without-Distinct d h.devices
          (Each-lookup Distinct h.tenant_id h.devices s.tenants v.distinct.1 found))
        v.distinct;
  keyed =
      IsKeyed-write h.tenant_id d none s _ (λ x e. cc)
        (λ u e. taken-get h.tenant_id d u e h.devices s found) v.keyed;
}

move-IsConsistent :
    (d new : String) (h : Home) (s : DeviceManager)
    → find_home d s.tenants ≡ some h
    → IsConsistent s
    → IsConsistent (move d new h s)
unfolding move
move-IsConsistent d new h s found v = record {
  distinct = write-IsDistinct new d moved left t.distinct;
  keyed =
      IsKeyed-write new d (some moved) left _
        (λ x e.
          subst (λ y. (y.tenant_id ≡ new) × (y.device_id ≡ d)) (some_inj e)
            (refl, (v.keyed h.tenant_id d h.device (home-get d h s at_home)).1))
        (λ u e. get_device-write new d u e moved left) t.keyed;
}
  where
    moved : Device
    moved = record h.device { tenant_id = new }

    at_home : (lookup h.tenant_id s.tenants ≡ some h.devices) × (lookup d h.devices ≡ some h.device)
    at_home = find_home-found d s.tenants h v.distinct.0 found

    left : DeviceManager
    left = set_devices h.tenant_id (without d h.devices) s

    t : IsConsistent left
    t = taken-IsConsistent d h s at_home.0 v

migrate_device-IsConsistent :
    (d new : String) (s : DeviceManager)
    → IsConsistent s
    → IsConsistent (migrate_device d new s).state
unfolding migrate_device
migrate_device-IsConsistent d new s v = elim (Option-cases (find_home d s.tenants)) [
  | inl miss ↦ rw (miss, migrate_device) v
  | inr (h, found) ↦ rw (found, migrate_device) (move-IsConsistent d new h s found v)
]

-- The calls that change the state, with what they read from outside.
pub data Call : Type 0 where
  heartbeat : String → String → String → ℤ → Call
  register : (Device → StatusCode) → Device → Call
  remove : String → String → Call
  update : String → String → NetworkStatus → WorkStatus → Call
  migrate : String → String → Call
  check : ℤ → Call
  load : List Device → Call

unfoldable pub call : Call → DeviceManager → DeviceManager
call (heartbeat t d p now) s = process_heartbeat t d p now s
call (register upsert dev) s = (register_device upsert dev s).state
call (remove t d) s = (remove_device t d s).state
call (update t d n w) s = (update_device_status t d n w s).state
call (migrate d new) s = (migrate_device d new s).state
call (check now) s = (check_offline_devices now s).0
call (load stored) s = (load_from_database stored s).state

unfoldable pub run : List Call → DeviceManager → DeviceManager
run [] s = s
run (c ∷ cs) s = run cs (call c s)

pub call-IsConsistent : (c : Call) (s : DeviceManager) → IsConsistent s → IsConsistent (call c s)
unfolding call
call-IsConsistent (heartbeat t d p now) s v = process_heartbeat-IsConsistent t d p now s v
call-IsConsistent (register upsert dev) s v = register_device-IsConsistent upsert dev s v
call-IsConsistent (remove t d) s v = remove_device-IsConsistent t d s v
call-IsConsistent (update t d n w) s v = update_device_status-IsConsistent t d n w s v
call-IsConsistent (migrate d new) s v = migrate_device-IsConsistent d new s v
call-IsConsistent (check now) s v =
    unfold check_offline_devices in
    mark_offline-IsConsistent (list_offline_devices now default_timeout s) s v
call-IsConsistent (load stored) s v = load_from_database-IsConsistent stored s v

-- After any calls each tenant stands once in the map, each device id once in its tenant's map, and a
-- device found under a tenant and an id carries these two ids, given that this held before them.
pub run-IsConsistent :
    (cs : List Call) (s : DeviceManager) → IsConsistent s → IsConsistent (run cs s)
unfolding run
run-IsConsistent [] s v = v
run-IsConsistent (c ∷ cs) s v = run-IsConsistent cs (call c s) (call-IsConsistent c s v)

pub empty-IsConsistent :
    (cb db : Bool) → IsConsistent (record { tenants = []; offline_cb = cb; db = db })
unfolding get_device lookup
empty-IsConsistent cb db = record { distinct = (tt, tt); keyed = λ u e dev found. cc }
