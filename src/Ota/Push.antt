-- ===== src/Ota/Push.antt =====
-- Pushing an upgrade to one device in src/app/ota/ota_manager.cpp.
use iot_dev_sys.Common.{
  ◌≡◌, String, Bool, true, false, ◌&&◌, Option, none, some, arith, ◌==◌, text_self, if◌then◌else◌,
  find_if,
}
use iot_dev_sys.Common.Dict.{lookup, lookup-put}
use iot_dev_sys.Status.{ok}
use iot_dev_sys.Types.Ota.{OtaRecord, FirmwareVersion}
use iot_dev_sys.Ota.{OtaManager, has_version, pending_record, push_to_device}

unfoldable pub is_pending : String → Option OtaRecord → Bool
is_pending version none = false
is_pending version (some r) = r.target_version == version && r.stage == "pending"

-- The device has an upgrade to the version that was pushed and has not begun.
unfoldable pub is_pending_for : String → String → OtaManager → Bool
is_pending_for version device_id s = is_pending version (lookup device_id s.ota_records)

-- A push of a registered version answers OK and gives the device, and no other, a pending record
-- with the url, checksum and force flag of the first firmware of that version; the registry is
-- unchanged.
pub push_to_device_lem :
    (t p d v i : String) (fw : FirmwareVersion) (s : OtaManager)
    → find_if (has_version v) s.firmware_versions ≡ some fw
    → ((push_to_device t p d v s).1 ≡ ok)
      × ((push_to_device t p d v s).0.firmware_versions ≡ s.firmware_versions)
      × (lookup i (push_to_device t p d v s).0.ota_records
          ≡ (if d == i then some (pending_record t d v fw) else lookup i s.ota_records))
unfolding push_to_device
push_to_device_lem t p d v i fw s found =
    ground (arith, lookup-put d i (pending_record t d v fw) s.ota_records)

pub pending_record-pending :
    (t i v : String) (fw : FirmwareVersion) → is_pending v (some (pending_record t i v fw)) ≡ true
unfolding pending_record is_pending
pending_record-pending t i v fw = ground (arith, text_self v, text_self "pending")
