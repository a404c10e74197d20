-- ===== src/Device/Consistent.antt =====
-- The consistency of the maps of src/app/device/device_manager.cpp: their keys, and the ids that the
-- devices carry.
use mathlib.Core.Option
use iot_dev_sys.Common.{
  ◌≡◌, refl, subst, String, List, [], ◌∷◌, Option, none, some, arith, text_iff, if◌then◌else◌, inl,
  inr, Option-cases, some_inj, if_both, not,
}
use iot_dev_sys.Common.Dict.{
  Dict, lookup, put, without, Distinct, Each, put-Distinct, without-Distinct, Each-put,
  Each-without, Each-lookup,
}
use iot_dev_sys.Common.Int.{ℤ}
use iot_dev_sys.Status.{StatusCode}
use iot_dev_sys.Types.Device.{Device, NetworkStatus, WorkStatus, offline}
use iot_dev_sys.Device.{
  DeviceManager, Outcome, devices_of, set_devices, get_device, beat, process_heartbeat,
  register_device, remove_device, store_rest, update_device_status, mark_offline, load_devices,
  load_from_database,
}
use iot_dev_sys.Device.View.{
  at, set_status, get_device-write, process_heartbeat-get, remove_device-get,
  update_device_status-get,
}

abbrev pub IsKeyed : DeviceManager → Type 0
IsKeyed s =
    (u e : String) (dev : Device)
    → get_device u e s ≡ some dev
    → (dev.tenant_id ≡ u) × (dev.device_id ≡ e)

abbrev pub IsDistinct : Dict (Dict Device) → Type 0
IsDistinct m = Distinct m × Each Distinct m

pub record IsConsistent (s : DeviceManager) : Type 0 where
  pub distinct : IsDistinct s.tenants
  pub keyed : IsKeyed s

-- The keys under one write, `x` being what the written address holds afterwards.
pub IsKeyed-write :
    (t d : String) (x : Option Device) (s s' : DeviceManager)
    → ((dev : Device) → x ≡ some dev → (dev.tenant_id ≡ t) × (dev.device_id ≡ d))
    → ((u e : String) → get_device u e s' ≡ (if at t d u e then x else get_device u e s))
    → IsKeyed s
    → IsKeyed s'
IsKeyed-write t d x s s' new law old u e dev found =
    ground (arith, law u e, old u e dev, new dev, text_iff t u, text_iff d e)

devices_of-Distinct :
    (t : String) (s : DeviceManager) → IsDistinct s.tenants → Distinct (devices_of t s)
devices_of-Distinct t s h = elim (Option-cases (lookup t s.tenants)) [
  | inl miss ↦ rw miss tt
  | inr (td, hit) ↦ rw hit (Each-lookup Distinct t td s.tenants h.1 hit)
]

pub put-IsDistinct :
    (t : String) (td : Dict Device) (m : Dict (Dict Device))
    → Distinct td
    → IsDistinct m
    → IsDistinct (put t td m)
put-IsDistinct t td m d h = (put-Distinct t td m h.0, Each-put Distinct t td m d h.1)

without-IsDistinct : (t : String) (m : Dict (Dict Device)) → IsDistinct m → IsDistinct (without t m)
without-IsDistinct t m h = (without-Distinct t m h.0, Each-without Distinct t m h.1)

pub write-IsDistinct :
    (t d : String) (dev : Device) (s : DeviceManager)
    → IsDistinct s.tenants
    → IsDistinct (set_devices t (put d dev (devices_of t s)) s).tenants
write-IsDistinct t d dev s h =
    put-IsDistinct t _ s.tenants (put-Distinct d dev (devices_of t s) (devices_of-Distinct t s h)) h

store_rest-IsDistinct :
    (t : String) (td : Dict Device) (m : Dict (Dict Device))
    → Distinct td
    → IsDistinct m
    → IsDistinct (store_rest t td m)
unfolding store_rest
store_rest-IsDistinct t [] m d h = without-IsDistinct t m h
store_rest-IsDistinct t (e ∷ td) m d h = put-IsDistinct t (e ∷ td) m d h

beat-keyed :
    (t d p : String) (now : ℤ) (o : Option Device)
    → ((dev : Device) → o ≡ some dev → (dev.tenant_id ≡ t) × (dev.device_id ≡ d))
    → ((beat t d p now o).tenant_id ≡ t) × ((beat t d p now o).device_id ≡ d)
unfolding beat
beat-keyed t d p now none h = (refl, refl)
beat-keyed t d p now (some dev) h = h dev refl

pub process_heartbeat-IsConsistent :
    (t d p : String) (now : ℤ) (s : DeviceManager)
    → IsConsistent s
    → IsConsistent (process_heartbeat t d p now s)
process_heartbeat-IsConsistent t d p now s v = record {
  distinct = unfold process_heartbeat in write-IsDistinct t d _ s v.distinct;
  keyed =
      IsKeyed-write t d (some (beat t d p now (get_device t d s))) s _
        (λ dev e.
          subst (λ x. (x.tenant_id ≡ t) × (x.device_id ≡ d)) (some_inj e)
            (beat-keyed t d p now (get_device t d s) (v.keyed t d)))
        (λ u e. process_heartbeat-get t d p now u e s) v.keyed;
}

register_device_state :
    (upsert : Device → StatusCode) (dev : Device) (s : DeviceManager)
    → (register_device upsert dev s).state
      ≡ set_devices dev.tenant_id (put dev.device_id dev (devices_of dev.tenant_id s)) s
unfolding register_device
register_device_state upsert dev s = ground arith

-- A write of a device under its own ids.
own_write-IsConsistent :
    (dev : Device) (s : DeviceManager)
    → IsConsistent s
    → IsConsistent
        (set_devices dev.tenant_id (put dev.device_id dev (devices_of dev.tenant_id s)) s)
own_write-IsConsistent dev s v = record {
  distinct = write-IsDistinct dev.tenant_id dev.device_id dev s v.distinct;
  keyed =
      IsKeyed-write dev.tenant_id dev.device_id (some dev) s _
        (λ x e.
          subst (λ x. (x.tenant_id ≡ dev.tenant_id) × (x.device_id ≡ dev.device_id)) (some_inj e)
            (refl, refl))
        (λ u e. get_device-write dev.tenant_id dev.device_id u e dev s) v.keyed;
}

pub register_device-IsConsistent :
    (upsert : Device → StatusCode) (dev : Device) (s : DeviceManager)
    → IsConsistent s
    → IsConsistent (register_device upsert dev s).state
register_device-IsConsistent upsert dev s v =
    rw (register_device_state upsert dev s) (own_write-IsConsistent dev s v)

remove_device-IsDistinct :
    (t d : String) (s : DeviceManager)
    → IsDistinct s.tenants
    → IsDistinct (remove_device t d s).state.tenants
unfolding remove_device
remove_device-IsDistinct t d s h = elim (Option-cases (lookup t s.tenants)) [
  | inl miss ↦ rw (miss, remove_device) h
  | inr (td, hit) ↦ elim (Option-cases (lookup d td)) [
    | inl miss ↦ rw (hit, remove_device) (rw miss h)
    | inr (dev, found) ↦
        rw (hit, remove_device)
          (rw found (
            store_rest-IsDistinct t (without d td) s.tenants
              (without-Distinct d td (Each-lookup Distinct t td s.tenants h.1 hit)) h))
  ]
]

pub remove_device-IsConsistent :
    (t d : String) (s : DeviceManager) → IsConsistent s → IsConsistent (remove_device t d s).state
remove_device-IsConsistent t d s v = record {
  distinct = remove_device-IsDistinct t d s v.distinct;
  keyed = IsKeyed-write t d none s _ (λ x e. cc) (λ u e. remove_device-get t d u e s) v.keyed;
}

update_device_status-IsDistinct :
    (t d : String) (n : NetworkStatus) (w : WorkStatus) (s : DeviceManager)
    → IsDistinct s.tenants
    → IsDistinct (update_device_status t d n w s).state.tenants
unfolding update_device_status
update_device_status-IsDistinct t d n w s h = elim (Option-cases (lookup t s.tenants)) [
  | inl miss ↦ rw (miss, update_device_status) h
  | inr (td, hit) ↦ elim (Option-cases (lookup d td)) [
    | inl miss ↦ rw (hit, update_device_status) (rw miss h)
    | inr (dev, found) ↦
        rw (hit, update_device_status)
          (rw found (
            put-IsDistinct t (put d (set_status n w dev) td) s.tenants
              (put-Distinct d (set_status n w dev) td (Each-lookup Distinct t td s.tenants h.1 hit))
              h))
  ]
]

set_status-keyed :
    (n : NetworkStatus) (w : WorkStatus) (t d : String) (o : Option Device) (dev : Device)
    → ((x : Device) → o ≡ some x → (x.tenant_id ≡ t) × (x.device_id ≡ d))
    → Option.map (set_status n w) o ≡ some dev
    → (dev.tenant_id ≡ t) × (dev.device_id ≡ d)
set_status-keyed n w t d none dev h e = cc
set_status-keyed n w t d (some x) dev h e = ground (arith, h x refl)

pub update_device_status-IsConsistent :
    (t d : String) (n : NetworkStatus) (w : WorkStatus) (s : DeviceManager)
    → IsConsistent s
    → IsConsistent (update_device_status t d n w s).state
update_device_status-IsConsistent t d n w s v = record {
  distinct = update_device_status-IsDistinct t d n w s v.distinct;
  keyed =
      IsKeyed-write t d (Option.map (set_status n w) (get_device t d s)) s _
        (λ dev e. set_status-keyed n w t d (get_device t d s) dev (v.keyed t d) e)
        (λ u e. update_device_status-get t d n w u e s) v.keyed;
}

pub mark_offline-IsConsistent :
    (devs : List Device) (s : DeviceManager) → IsConsistent s → IsConsistent (mark_offline devs s)
unfolding mark_offline
mark_offline-IsConsistent [] s v = v
mark_offline-IsConsistent (dev ∷ devs) s v =
    mark_offline-IsConsistent devs _
      (update_device_status-IsConsistent dev.tenant_id dev.device_id offline dev.work_status s v)

load_devices-IsConsistent :
    (devs : List Device) (s : DeviceManager) → IsConsistent s → IsConsistent (load_devices devs s)
unfolding load_devices
load_devices-IsConsistent [] s v = v
load_devices-IsConsistent (dev ∷ devs) s v =
    load_devices-IsConsistent devs _
      (if_both IsConsistent dev.activated _ s (own_write-IsConsistent dev s v) v)

pub load_from_database-IsConsistent :
    (stored : List Device) (s : DeviceManager)
    → IsConsistent s
    → IsConsistent (load_from_database stored s).state
unfolding load_from_database
load_from_database-IsConsistent stored s v =
    if_both (λ (o : Outcome). IsConsistent o.state) (not s.db) _ _ v
      (load_devices-IsConsistent stored s v)
