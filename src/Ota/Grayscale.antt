-- ===== src/Ota/Grayscale.antt =====
-- The grayscale push of src/app/ota/ota_manager.cpp: which devices get the upgrade.
use mathlib.Core.Bool.{false≢true}
use iot_dev_sys.Common.{
  ◌↔◌, ◌≢◌, ℕ, ◌≡◌, refl, ◌∙◌, ap, String, Bool, true, false, ◌&&◌, List, [], ◌∷◌, Option, none,
  some, arith, ◌==◌, text_iff, if◌then◌else◌, find_if, is_some, any,
}
use iot_dev_sys.Common.Dict.{lookup}
use iot_dev_sys.Common.Int.{ℤ, pos, ◌≤ℤ◌}
use iot_dev_sys.Status.{ok}
use iot_dev_sys.Types.Device.{Device}
use iot_dev_sys.Types.Ota.{OtaRecord, FirmwareVersion}
use iot_dev_sys.Ota.{
  OtaManager, has_version, pending_record, push_to_device, push_each, in_group, candidates,
  push_grayscale, push_all,
}
use iot_dev_sys.Ota.Push.{is_pending, is_pending_for, push_to_device_lem, pending_record-pending}

abbrev or_else : Option String → Option String → Option String
or_else none o = o
or_else (some t) o = some t

-- The tenant under which a device id is pushed: that of the last of the devices with the id whose
-- bucket is in the group.
unfoldable pub pushed_tenant : (String → ℕ) → ℤ → String → List Device → Option String
pushed_tenant hash percent i [] = none
pushed_tenant hash percent i (dev ∷ devs) =
    or_else (pushed_tenant hash percent i devs)
      (if dev.device_id == i && in_group hash percent dev then some dev.tenant_id else none)

-- The record of a device id after pushing to a list of devices.
unfoldable pub pushed :
    String → String → FirmwareVersion → Option String → Option OtaRecord → Option OtaRecord
pushed v i fw none old = old
pushed v i fw (some t) old = some (pending_record t i v fw)

pushed-step :
    (v i : String) (fw : FirmwareVersion) (m : Option String) (b : Bool) (t : String)
    (old : Option OtaRecord)
    → pushed v i fw m (if b then some (pending_record t i v fw) else old)
      ≡ pushed v i fw (or_else m (if b then some t else none)) old
unfolding pushed
pushed-step v i fw none true t old = refl
pushed-step v i fw none false t old = refl
pushed-step v i fw (some u) b t old = refl

push_one :
    (hash : String → ℕ) (percent : ℤ) (p v : String) (dev : Device) (s : OtaManager) → OtaManager
push_one hash percent p v dev s =
    if in_group hash percent dev then (push_to_device dev.tenant_id p dev.device_id v s).0 else s

push_one_lem :
    (hash : String → ℕ) (percent : ℤ) (p v i : String) (fw : FirmwareVersion) (dev : Device)
    (s : OtaManager)
    → find_if (has_version v) s.firmware_versions ≡ some fw
    → ((push_one hash percent p v dev s).firmware_versions ≡ s.firmware_versions)
      × (lookup i (push_one hash percent p v dev s).ota_records ≡ (
          if dev.device_id == i && in_group hash percent dev
          then some (pending_record dev.tenant_id i v fw)
          else lookup i s.ota_records))
unfolding push_one
push_one_lem hash percent p v i fw dev s found = ground (
  arith,
  push_to_device_lem dev.tenant_id p dev.device_id v i fw s found,
  text_iff dev.device_id i,
)

push_each-lookup :
    (hash : String → ℕ) (percent : ℤ) (p v i : String) (fw : FirmwareVersion) (devs : List Device)
    (s : OtaManager)
    → find_if (has_version v) s.firmware_versions ≡ some fw
    → lookup i (push_each hash percent p v devs s).ota_records
      ≡ pushed v i fw (pushed_tenant hash percent i devs) (lookup i s.ota_records)
unfolding push_each pushed_tenant pushed push_one
push_each-lookup hash percent p v i fw [] s found = refl
push_each-lookup hash percent p v i fw (dev ∷ devs) s found =
    let f = push_one_lem hash percent p v i fw dev s found in
    push_each-lookup hash percent p v i fw devs (push_one hash percent p v dev s)
      (ap (find_if (has_version v)) f.0 ∙ found)
    ∙ ap (pushed v i fw (pushed_tenant hash percent i devs)) f.1
    ∙ pushed-step v i fw (pushed_tenant hash percent i devs)
        (dev.device_id == i && in_group hash percent dev) dev.tenant_id (lookup i s.ota_records)

-- A percentage that `push_grayscale` accepts.
abbrev pub IsPercent : ℤ → Type 0
IsPercent percent = (pos 1 ≤ℤ percent) × (percent ≤ℤ pos 100)

-- A push of a registered version at an accepted percentage answers OK. It gives a device id a new
-- pending record exactly if some candidate with that id is in the group, and then under the tenant
-- of the last such candidate; every other record is as before.
pub push_grayscale-lookup :
    (hash : String → ℕ) (devices : Option (List Device)) (p v i : String) (percent : ℤ)
    (fw : FirmwareVersion) (s : OtaManager)
    → IsPercent percent
    → find_if (has_version v) s.firmware_versions ≡ some fw
    → ((push_grayscale hash devices p v percent s).1 ≡ ok)
      × (lookup i (push_grayscale hash devices p v percent s).0.ota_records
          ≡ pushed v i fw
              (pushed_tenant hash percent i (candidates devices p v s))
              (lookup i s.ota_records))
unfolding push_grayscale
push_grayscale-lookup hash devices p v i percent fw s range found =
    ground (arith, push_each-lookup hash percent p v i fw (candidates devices p v s) s found)

-- A grayscale push answers OK exactly when the percentage is from 1 to 100 and the version is
-- registered; with any other answer nothing is recorded.
push_grayscale-ok_iff :
    (hash : String → ℕ) (devices : Option (List Device)) (p v : String) (percent : ℤ)
    (s : OtaManager)
    → (((push_grayscale hash devices p v percent s).1 ≡ ok)
        ↔ (IsPercent percent × (is_some (find_if (has_version v) s.firmware_versions) ≡ true)))
      × ((push_grayscale hash devices p v percent s).1 ≢ ok
          → (push_grayscale hash devices p v percent s).0 ≡ s)
unfolding push_grayscale
push_grayscale-ok_iff hash devices p v percent s = (ground arith, λ h. ground arith)

in_group_mono :
    (hash : String → ℕ) (a b : ℤ) (dev : Device)
    → a ≤ℤ b
    → in_group hash a dev ≡ true
    → in_group hash b dev ≡ true
in_group_mono hash a b dev le h = ground arith

pushed_tenant_mono :
    (hash : String → ℕ) (a b : ℤ) (i : String) (devs : List Device)
    → a ≤ℤ b
    → is_some (pushed_tenant hash a i devs) ≡ true
    → is_some (pushed_tenant hash b i devs) ≡ true
unfolding pushed_tenant
pushed_tenant_mono hash a b i [] le h = h
pushed_tenant_mono hash a b i (dev ∷ devs) le h =
    ground (arith, pushed_tenant_mono hash a b i devs le, in_group_mono hash a b dev le)

pending_mono :
    (v i : String) (fw : FirmwareVersion) (m n : Option String) (old : Option OtaRecord)
    → (is_some m ≡ true → is_some n ≡ true)
    → is_pending v (pushed v i fw m old) ≡ true
    → is_pending v (pushed v i fw n old) ≡ true
unfolding pushed
pending_mono v i fw none none old f h = h
pending_mono v i fw (some t) none old f h = absurd (false≢true (f refl))
pending_mono v i fw m (some u) old f h = pending_record-pending u i v fw

pending-pushed :
    (v i : String) (fw : FirmwareVersion) (m : Option String) (old : Option OtaRecord)
    → is_some m ≡ true
    → is_pending v (pushed v i fw m old) ≡ true
unfolding pushed
pending-pushed v i fw none old e = cc
pending-pushed v i fw (some t) old e = pending_record-pending t i v fw

-- Raising the percentage keeps every device that the lower one would give the upgrade.
push_grayscale_mono :
    (hash : String → ℕ) (devices : Option (List Device)) (p v i : String) (a b : ℤ)
    (fw : FirmwareVersion) (s : OtaManager)
    → IsPercent a
    → IsPercent b
    → a ≤ℤ b
    → find_if (has_version v) s.firmware_versions ≡ some fw
    → is_pending_for v i (push_grayscale hash devices p v a s).0 ≡ true
    → is_pending_for v i (push_grayscale hash devices p v b s).0 ≡ true
unfolding is_pending_for
push_grayscale_mono hash devices p v i a b fw s ra rb le found h =
    rw ((push_grayscale-lookup hash devices p v i b fw s rb found).1) (
      pending_mono v i fw (pushed_tenant hash a i devs) (pushed_tenant hash b i devs)
        (lookup i s.ota_records) (pushed_tenant_mono hash a b i devs le)
        (rw ((push_grayscale-lookup hash devices p v i a fw s ra found).1) at h))
  where
    devs : List Device
    devs = candidates devices p v s

pushed_tenant_all :
    (hash : String → ℕ) (i : String) (devs : List Device)
    → any (λ dev. dev.device_id == i) devs ≡ true
    → is_some (pushed_tenant hash (pos 100) i devs) ≡ true
unfolding pushed_tenant any
pushed_tenant_all hash i [] h = cc
pushed_tenant_all hash i (dev ∷ devs) h = ground (arith, pushed_tenant_all hash i devs)

-- `push_all` of a registered version gives the upgrade to every candidate.
pub push_all-covers :
    (hash : String → ℕ) (devices : Option (List Device)) (p v i : String) (fw : FirmwareVersion)
    (s : OtaManager)
    → find_if (has_version v) s.firmware_versions ≡ some fw
    → any (λ dev. dev.device_id == i) (candidates devices p v s) ≡ true
    → is_pending_for v i (push_all hash devices p v s).0 ≡ true
unfolding push_all is_pending_for
push_all-covers hash devices p v i fw s found h =
    rw ((push_grayscale-lookup hash devices p v i (pos 100) fw s (omega arith) found).1) (
      pending-pushed v i fw (pushed_tenant hash (pos 100) i (candidates devices p v s)) _
        (pushed_tenant_all hash i (candidates devices p v s) h))
