-- ===== src/Device/Offline.antt =====
-- The offline check of src/app/device/device_manager.cpp.
use mathlib.Core.Option
use iot_dev_sys.Common.{
  ◌≡◌, sym, ap, ◌∙◌, subst, String, Bool, true, List, [], ◌∷◌, none, some, arith, text_iff,
  text_self, if◌then◌else◌, inl, inr, Bool-cases, Option-cases, All, All-append, All-select, any,
  any-append, any-select,
}
use iot_dev_sys.Common.Dict.{Dict, lookup, values, Distinct, Each, All-values, any-values}
use iot_dev_sys.Common.Int.{ℤ}
use iot_dev_sys.Types.Device.{Device, offline}
use iot_dev_sys.Device.{
  DeviceManager, get_device, update_device_status, mark_offline, list_all_devices, all_values,
  is_stale, check_offline_devices, list_offline_devices, default_timeout,
}
use iot_dev_sys.Device.View.{at, update_device_status-get}
use iot_dev_sys.Device.Consistent.{IsConsistent}

abbrev matches : String → String → Device → Bool
matches u e l = at l.tenant_id l.device_id u e

abbrev gone : Device → Device
gone dev = record dev { network_status = offline }

-- The snapshot of `list_all_devices` holds the devices under their own ids.
All-all_values {κ} :
    (P : Device → Type κ) (m : Dict (Dict Device))
    → Distinct m
    → Each Distinct m
    → ((t d : String) (td : Dict Device) (v : Device)
        → lookup t m ≡ some td
        → lookup d td ≡ some v
        → P v)
    → All P (all_values m)
unfolding all_values lookup
All-all_values P [] d ds h = tt
All-all_values P ((t, td) ∷ m) d ds h =
    All-append P (values td) (all_values m)
      (All-values P td ds.0 (λ k v e. h t k td v (rw (text_self t)) e))
      (All-all_values P m d.1 ds.1 (λ u k ud v e e'. h u k ud v (ground (arith, text_iff t u)) e'))

get_device-found :
    (t d : String) (td : Dict Device) (l : Device) (s : DeviceManager)
    → lookup t s.tenants ≡ some td
    → lookup d td ≡ some l
    → get_device t d s ≡ some l
unfolding get_device
get_device-found t d td l s e e' = ground arith

-- A device that is found under some ids is found under its own.
own_ids :
    (t d : String) (l : Device) (s : DeviceManager)
    → IsConsistent s
    → get_device t d s ≡ some l
    → get_device l.tenant_id l.device_id s ≡ some l
own_ids t d l s v g =
    let k = v.keyed t d l g in
    subst (λ x. get_device x l.device_id s ≡ some l) (sym k.0)
      (subst (λ y. get_device t y s ≡ some l) (sym k.1) g)

snapshot :
    (s : DeviceManager)
    → IsConsistent s
    → All (λ l. get_device l.tenant_id l.device_id s ≡ some l) (list_all_devices s)
unfolding list_all_devices
snapshot s v =
    All-all_values _ s.tenants v.distinct.0 v.distinct.1
      (λ t d td l e e'. own_ids t d l s v (get_device-found t d td l s e e'))

any-all_values :
    (p : Device → Bool) (t d : String) (td : Dict Device) (v : Device) (m : Dict (Dict Device))
    → lookup t m ≡ some td
    → lookup d td ≡ some v
    → p v ≡ true
    → any p (all_values m) ≡ true
unfolding all_values lookup
any-all_values p t d td v [] e e' h = cc
any-all_values p t d td v ((j, jd) ∷ m) e e' h = ground (
  arith,
  any-append p (values jd) (all_values m),
  any-values p d v jd,
  any-all_values p t d td v m,
)

any-list_all_devices :
    (p : Device → Bool) (u e : String) (dev : Device) (s : DeviceManager)
    → get_device u e s ≡ some dev
    → p dev ≡ true
    → any p (list_all_devices s) ≡ true
unfolding list_all_devices get_device
any-list_all_devices p u e dev s g h = elim (Option-cases (lookup u s.tenants)) [
  | inl miss ↦ ground arith
  | inr (td, hit) ↦ any-all_values p u e td dev s.tenants hit (ground arith) h
]

-- What stands in the snapshot under the ids of a device is that device.
All-weaken {ℓ κ μ} :
    {A : Type ℓ} (P : A → Type κ) (Q : A → Type μ) (xs : List A)
    → ((x : A) → P x → Q x)
    → All P xs
    → All Q xs
All-weaken P Q [] f h = tt
All-weaken P Q (x ∷ xs) f h = (f x h.0, All-weaken P Q xs f h.1)

same_device :
    (u e : String) (dev l : Device) (s : DeviceManager)
    → get_device u e s ≡ some dev
    → get_device l.tenant_id l.device_id s ≡ some l
    → matches u e l ≡ true
    → l ≡ dev
same_device u e dev l s g own m = ground (arith, text_iff l.tenant_id u, text_iff l.device_id e)

snapshot_unique :
    (u e : String) (dev : Device) (s : DeviceManager)
    → IsConsistent s
    → get_device u e s ≡ some dev
    → All (λ l. matches u e l ≡ true → l ≡ dev) (list_all_devices s)
snapshot_unique u e dev s v g =
    All-weaken (λ l. get_device l.tenant_id l.device_id s ≡ some l) _ (list_all_devices s)
      (λ l own m. same_device u e dev l s g own m) (snapshot s v)

-- One update of the check.
abbrev once : Device → DeviceManager → DeviceManager
once l s = (update_device_status l.tenant_id l.device_id offline l.work_status s).state

once-get :
    (l : Device) (s : DeviceManager) (u e : String) (dev : Device)
    → get_device u e s ≡ some dev
    → (matches u e l ≡ true → l.work_status ≡ dev.work_status)
    → get_device u e (once l s) ≡ some (if matches u e l then gone dev else dev)
once-get l s u e dev g h = ground (
  arith,
  update_device_status-get l.tenant_id l.device_id offline l.work_status u e s,
  text_iff l.tenant_id u,
  text_iff l.device_id e,
)

once-get_none :
    (l : Device) (s : DeviceManager) (u e : String)
    → get_device u e s ≡ none
    → get_device u e (once l s) ≡ none
once-get_none l s u e g = ground (
  arith,
  update_device_status-get l.tenant_id l.device_id offline l.work_status u e s,
  text_iff l.tenant_id u,
  text_iff l.device_id e,
)

-- Marking a list of devices writes the network status of each that is in it.
mark_offline-get :
    (L : List Device) (s : DeviceManager) (u e : String) (dev : Device)
    → get_device u e s ≡ some dev
    → All (λ l. matches u e l ≡ true → l.work_status ≡ dev.work_status) L
    → get_device u e (mark_offline L s) ≡ some (if any (matches u e) L then gone dev else dev)
unfolding mark_offline any
mark_offline-get [] s u e dev g h = g
mark_offline-get (l ∷ L) s u e dev g h = elim (Bool-cases (matches u e l)) [
  | inl hit ↦ ground (
    arith,
    once-get l s u e dev g h.0,
    mark_offline-get L (once l s) u e (gone dev) (ground (arith, once-get l s u e dev g h.0)) h.1,
  )
  | inr miss ↦ ground (
    arith,
    mark_offline-get L (once l s) u e dev (ground (arith, once-get l s u e dev g h.0)) h.1,
  )
]

mark_offline-get_none :
    (L : List Device) (s : DeviceManager) (u e : String)
    → get_device u e s ≡ none
    → get_device u e (mark_offline L s) ≡ none
unfolding mark_offline
mark_offline-get_none [] s u e g = g
mark_offline-get_none (l ∷ L) s u e g =
    mark_offline-get_none L (once l s) u e (once-get_none l s u e g)

-- What the check does to a device.
unfoldable pub age : ℤ → Device → Device
age now dev =
    if is_stale now default_timeout dev then record dev { network_status = offline } else dev

own-matches :
    (u e : String) (dev : Device) (s : DeviceManager)
    → IsConsistent s
    → get_device u e s ≡ some dev
    → matches u e dev ≡ true
own-matches u e dev s v g =
    ground (arith, v.keyed u e dev g, text_iff dev.tenant_id u, text_iff dev.device_id e)

none-check :
    (now : ℤ) (s : DeviceManager) (u e : String)
    → get_device u e s ≡ none
    → get_device u e (check_offline_devices now s).0 ≡ none
unfolding check_offline_devices
none-check now s u e g = mark_offline-get_none (list_offline_devices now default_timeout s) s u e g

some-check :
    (now : ℤ) (s : DeviceManager) (u e : String) (dev : Device)
    → IsConsistent s
    → get_device u e s ≡ some dev
    → get_device u e (check_offline_devices now s).0 ≡ some (age now dev)
unfolding check_offline_devices list_offline_devices age
some-check now s u e dev v g =
    let unique = snapshot_unique u e dev s v g in
    mark_offline-get (list_offline_devices now default_timeout s) s u e dev g (
      All-select _ (is_stale now default_timeout) (list_all_devices s)
        (All-weaken _ _ (list_all_devices s) (λ l f m. ap (λ x. x.work_status) (f m)) unique))
    ∙ rw (any-select (matches u e) (is_stale now default_timeout) dev (list_all_devices s) unique)
        (rw (any-list_all_devices (matches u e) u e dev s g (own-matches u e dev s v g)))

-- In a consistent manager the offline check sets the network status of exactly those devices whose
-- last heartbeat is more than 180 seconds old to offline, and changes nothing else of any device.
pub check_offline_devices-get :
    (now : ℤ) (s : DeviceManager) (u e : String)
    → IsConsistent s
    → get_device u e (check_offline_devices now s).0 ≡ Option.map (age now) (get_device u e s)
check_offline_devices-get now s u e v = elim (Option-cases (get_device u e s)) [
  | inl miss ↦ rw miss (none-check now s u e miss)
  | inr (dev, g) ↦ rw g (some-check now s u e dev v g)
]
