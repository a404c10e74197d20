-- ===== src/Ota.antt =====
-- src/app/ota/ota_manager.{h,cpp}: the firmware registry, the upgrade records and the grayscale push.
-- `hash` is `std::hash` of the standard library, `devices` what `list_all_devices` of the device
-- manager returns (`none` if there is none), and `db` says whether `set_database` was called.
mod Seeds
pub mod Push
pub mod Payload
pub mod Grayscale
pub mod Registry
use Seeds.{
  coffee_2_1_0, coffee_2_2_0, coffee_2_2_1, water_1_5_0, coffee_001_record, coffee_002_record,
  coffee_003_record, water_001_record,
}
use iot_dev_sys.Common.{
  ℕ, ◌+◌, ◌%◌, String, Bool, true, false, not, ◌&&◌, ◌||◌, List, [], ◌∷◌, ◌++◌, Option, none, some,
  ◌==◌, if◌then◌else◌, select, any, find_if, erase_if,
}
use iot_dev_sys.Common.Dict.{Dict, lookup, put, values}
use iot_dev_sys.Common.Int.{ℤ, pos, ltb_ℤ}
use iot_dev_sys.Common.Text.{concat}
use iot_dev_sys.Status.{StatusCode, ok, error, order_invalid_state, storage_read_error}
use iot_dev_sys.Types.Device.{Device, NetworkStatus, WorkStatus, online, offline, fault, new_device}
use iot_dev_sys.Types.Ota.{OtaRecord, FirmwareVersion, new_ota_record}

pub record OtaManager : Type 0 where
  pub ota_records : Dict OtaRecord
  pub firmware_versions : List FirmwareVersion
  pub db : Bool

-- The log line reads through the iterator of the search, which is the end iterator where there was
-- no record: `none` stands for that undefined behaviour. The payload is not read.
unfoldable pub process_ota_progress : String → String → String → OtaManager → Option OtaManager
process_ota_progress tenant_id device_id payload s = elim (lookup device_id s.ota_records) [
  | none ↦ none
  | some r ↦ some s
]

unfoldable pub register_firmware : FirmwareVersion → OtaManager → OtaManager × StatusCode
register_firmware fw s = (record s { firmware_versions = s.firmware_versions ++ fw ∷ [] }, ok)

abbrev pub has_version : String → FirmwareVersion → Bool
has_version version fw = fw.version == version

unfoldable pub pending_record : String → String → String → FirmwareVersion → OtaRecord
unfolding new_ota_record
pending_record tenant_id device_id target_version fw = record new_ota_record {
  tenant_id = tenant_id;
  device_id = device_id;
  current_version = "";
  target_version = target_version;
  download_url = fw.download_url;
  checksum = fw.checksum_sha256;
  stage = "pending";
  progress = pos 0;
  force_upgrade = fw.force_upgrade;
}

unfoldable pub push_to_device :
    String → String → String → String → OtaManager → OtaManager × StatusCode
push_to_device tenant_id product_id device_id target_version s =
    elim (find_if (has_version target_version) s.firmware_versions) [
      | none ↦ (s, error)
      | some fw ↦ (
        record s {
          ota_records =
              put device_id (pending_record tenant_id device_id target_version fw) s.ota_records;
        },
        ok,
      )
    ]

abbrev pub is_offline : NetworkStatus → Bool
is_offline online = false
is_offline offline = true

abbrev pub is_fault : WorkStatus → Bool
is_fault fault = true
is_fault _ = false

abbrev pub is_candidate : String → String → Device → Bool
is_candidate product_id target_version dev =
    dev.product_id == product_id
    && dev.activated
    && not (is_offline dev.network_status)
    && not (is_fault dev.work_status)
    && not (dev.firmware_version == target_version)

-- Without a device manager: the devices whose recorded upgrade to another version is done.
unfoldable pub known_devices : String → String → Dict OtaRecord → List Device
unfolding new_device
known_devices product_id target_version [] = []
known_devices product_id target_version ((device_id, rec) ∷ m) =
    if not (rec.target_version == target_version) && rec.stage == "done"
    then record new_device {
      device_id = device_id;
      product_id = product_id;
      tenant_id = rec.tenant_id;
    }
      ∷ known_devices product_id target_version m
    else known_devices product_id target_version m

unfoldable pub candidates : Option (List Device) → String → String → OtaManager → List Device
candidates none product_id target_version s = known_devices product_id target_version s.ota_records
candidates (some devices) product_id target_version s =
    select (is_candidate product_id target_version) devices

-- The bucket is below the percentage.
abbrev pub in_group : (String → ℕ) → ℤ → Device → Bool
in_group hash percent dev = ltb_ℤ (pos (hash dev.device_id % 100)) percent

unfoldable pub push_each :
    (String → ℕ) → ℤ → String → String → List Device → OtaManager → OtaManager
push_each hash percent product_id target_version [] s = s
push_each hash percent product_id target_version (dev ∷ devs) s =
    push_each hash percent product_id target_version devs (
      if in_group hash percent dev
      then (push_to_device dev.tenant_id product_id dev.device_id target_version s).0
      else s)

unfoldable pub push_grayscale :
    (String → ℕ) → Option (List Device) → String → String → ℤ → OtaManager → OtaManager × StatusCode
unfolding push_each
push_grayscale hash devices product_id target_version percent s =
    if ltb_ℤ percent (pos 1) || ltb_ℤ (pos 100) percent
    then (s, error)
    else elim (find_if (has_version target_version) s.firmware_versions) [
      | none ↦ (s, error)
      | some fw ↦ (
        push_each hash percent product_id target_version
            (candidates devices product_id target_version s) s,
        ok,
      )
    ]

unfoldable pub push_all :
    (String → ℕ) → Option (List Device) → String → String → OtaManager → OtaManager × StatusCode
push_all hash devices product_id target_version s =
    push_grayscale hash devices product_id target_version (pos 100) s

unfoldable pub active_upgrades : OtaManager → List OtaRecord
active_upgrades s =
    select (λ r. not (r.stage == "done") && not (r.stage == "failed")) (values s.ota_records)

unfoldable pub get_device_ota_status : String → OtaManager → OtaRecord
get_device_ota_status device_id s = elim (lookup device_id s.ota_records) [
  | none ↦ new_ota_record
  | some r ↦ r
]

pub record RolloutStats : Type 0 where
  pub total_targeted : ℕ
  pub downloading : ℕ
  pub installing : ℕ
  pub completed : ℕ
  pub failed : ℕ
  pub rolled_back : ℕ

unfoldable pub count_stage : String → RolloutStats → RolloutStats
count_stage stage t =
    if stage == "downloading"
    then record t { downloading = t.downloading + 1 }
    else if stage == "installing"
    then record t { installing = t.installing + 1 }
    else if stage == "done"
    then record t { completed = t.completed + 1 }
    else if stage == "failed"
    then record t { failed = t.failed + 1 }
    else if stage == "rolled_back"
    then record t { rolled_back = t.rolled_back + 1 }
    else t

unfoldable pub count_records : String → List OtaRecord → RolloutStats → RolloutStats
count_records version [] t = t
count_records version (r ∷ rs) t = count_records version rs (
    if r.target_version == version
    then count_stage r.stage (record t { total_targeted = t.total_targeted + 1 })
    else t)

abbrev pub no_stats : RolloutStats
no_stats = record {
  total_targeted = 0;
  downloading = 0;
  installing = 0;
  completed = 0;
  failed = 0;
  rolled_back = 0;
}

unfoldable pub get_rollout_stats : String → OtaManager → RolloutStats
unfolding count_records count_stage
get_rollout_stats version s = count_records version (values s.ota_records) no_stats

unfoldable pub build_ota_notify_payload : String → String → String → Bool → String
build_ota_notify_payload target_version download_url checksum force = concat (
    "{"
    ∷ "\"version\":\""
    ∷ target_version
    ∷ "\","
    ∷ "\"download_url\":\""
    ∷ download_url
    ∷ "\","
    ∷ "\"checksum\":\""
    ∷ checksum
    ∷ "\","
    ∷ "\"force_upgrade\":"
    ∷ (if force then "true" else "false")
    ∷ "}"
    ∷ [])

unfoldable pub list_firmwares : OtaManager → List FirmwareVersion
list_firmwares s = s.firmware_versions

unfoldable pub get_firmware : String → OtaManager → Option FirmwareVersion
get_firmware version s = find_if (has_version version) s.firmware_versions

abbrev pub is_using : String → OtaRecord → Bool
is_using version r =
    r.target_version == version && (r.stage == "downloading" || r.stage == "installing")

unfoldable pub delete_firmware : String → OtaManager → OtaManager × StatusCode
delete_firmware version s = elim (find_if (has_version version) s.firmware_versions) [
  | none ↦ (s, error)
  | some fw ↦
      if any (is_using version) (values s.ota_records)
      then (s, order_invalid_state)
      else (record s { firmware_versions = erase_if (has_version version) s.firmware_versions }, ok)
]

unfoldable pub seed_mock_data : OtaManager → OtaManager
seed_mock_data s = elim s.firmware_versions [
  | fw ∷ fws ↦ s
  | [] ↦ record s {
    firmware_versions = coffee_2_1_0 ∷ coffee_2_2_0 ∷ coffee_2_2_1 ∷ water_1_5_0 ∷ [];
    ota_records = put "dev-water-001" water_001_record (
        put "dev-coffee-003" coffee_003_record (
          put "dev-coffee-002" coffee_002_record
            (put "dev-coffee-001" coffee_001_record s.ota_records)));
  }
]

-- `stored` is what `list_all_firmwares` of the database answers.
unfoldable pub load_from_database : List FirmwareVersion → OtaManager → OtaManager × StatusCode
load_from_database stored s =
    if not s.db then (s, storage_read_error) else (record s { firmware_versions = stored }, ok)
