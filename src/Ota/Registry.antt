-- ===== src/Ota/Registry.antt =====
-- The firmware registry and the rollout statistics of src/app/ota/ota_manager.cpp.
use iot_dev_sys.Common.{
  ℕ, ◌+◌, ◌≡◌, ◌↔◌, refl, String, Bool, true, false, ◌&&◌, ◌||◌, List, [], ◌∷◌, some, arith, ◌==◌,
  text_self, if◌then◌else◌, find_if, is_some, any, select, length,
}
use iot_dev_sys.Common.Dict.{Dict, put, values, lookup-put}
use iot_dev_sys.Status.{ok}
use iot_dev_sys.Types.Ota.{OtaRecord, FirmwareVersion}
use iot_dev_sys.Ota.{
  OtaManager, RolloutStats, has_version, is_using, pending_record, push_to_device, delete_firmware,
  get_rollout_stats, count_records, count_stage, no_stats,
}
use iot_dev_sys.Ota.Push.{is_pending_for, pending_record-pending}

-- A deletion answers OK exactly when the version is registered and no record is downloading or
-- installing it. Whatever it answers, the upgrade records are unchanged.
delete_firmware-ok_iff :
    (v : String) (s : OtaManager)
    → (((delete_firmware v s).1 ≡ ok) ↔ (
        (is_some (find_if (has_version v) s.firmware_versions) ≡ true)
        × (any (is_using v) (values s.ota_records) ≡ false)))
      × ((delete_firmware v s).0.ota_records ≡ s.ota_records)
unfolding delete_firmware
delete_firmware-ok_iff v s = (ground arith, ground arith)

using-put :
    (v d : String) (r : OtaRecord) (m : Dict OtaRecord)
    → is_using v r ≡ false
    → any (is_using v) (values m) ≡ false
    → any (is_using v) (values (put d r m)) ≡ false
unfolding values put any
using-put v d r [] n h = ground arith
using-put v d r ((j, x) ∷ m) n h = ground (arith, using-put v d r m n)

pending_differs : ((("pending" == "downloading") ≡ false) × (("pending" == "installing") ≡ false))
unfolding ◌==◌
pending_differs = (refl, refl)

pending_record-unused :
    (t d v : String) (fw : FirmwareVersion) → is_using v (pending_record t d v fw) ≡ false
unfolding pending_record
pending_record-unused t d v fw = ground (arith, pending_differs)

-- A firmware with no upgrade in progress can be deleted right after it was pushed to a device,
-- which keeps its pending upgrade to that version.
pub delete_firmware-pending :
    (t p d v : String) (fw : FirmwareVersion) (s : OtaManager)
    → find_if (has_version v) s.firmware_versions ≡ some fw
    → any (is_using v) (values s.ota_records) ≡ false
    → let q = (push_to_device t p d v s).0 in
      ((delete_firmware v q).1 ≡ ok) × (is_pending_for v d (delete_firmware v q).0 ≡ true)
unfolding delete_firmware push_to_device is_pending_for
delete_firmware-pending t p d v fw s found unused = ground (
  arith,
  using-put v d (pending_record t d v fw) s.ota_records (pending_record-unused t d v fw) unused,
  lookup-put d d (pending_record t d v fw) s.ota_records,
  text_self d,
  pending_record-pending t d v fw,
)

-- The stages that the statistics count apart.
abbrev pub is_counted : String → Bool
is_counted st =
    st == "downloading"
    || st == "installing"
    || st == "done"
    || st == "failed"
    || st == "rolled_back"

abbrev pub counted : RolloutStats → ℕ
counted t = t.downloading + t.installing + t.completed + t.failed + t.rolled_back

count_stage_lem :
    (st : String) (t : RolloutStats)
    → ((count_stage st t).total_targeted ≡ t.total_targeted)
      × (counted (count_stage st t) ≡ counted t + (if is_counted st then 1 else 0))
unfolding count_stage
count_stage_lem st t = ground arith

count_records-total :
    (v : String) (rs : List OtaRecord) (t : RolloutStats)
    → ((count_records v rs t).total_targeted
        ≡ t.total_targeted + length (select (λ r. r.target_version == v) rs))
      × (counted (count_records v rs t)
          ≡ counted t + length (select (λ r. r.target_version == v && is_counted r.stage) rs))
unfolding count_records select
count_records-total v [] t = (omega arith, omega arith)
count_records-total v (r ∷ rs) t =
    let one : RolloutStats = record t { total_targeted = t.total_targeted + 1 } in
    let next : RolloutStats = if r.target_version == v then count_stage r.stage one else t in
    ground (arith, count_records-total v rs next, count_stage_lem r.stage one)

-- The statistics of a version target exactly the records with that version. The five classes
-- together count those of them whose stage is one of the five that are told apart, each once.
get_rollout_stats-total :
    (v : String) (s : OtaManager)
    → ((get_rollout_stats v s).total_targeted
        ≡ length (select (λ r. r.target_version == v) (values s.ota_records)))
      × (counted (get_rollout_stats v s)
          ≡ length
              (select (λ r. r.target_version == v && is_counted r.stage) (values s.ota_records)))
unfolding get_rollout_stats
get_rollout_stats-total v s =
    let c = count_records-total v (values s.ota_records) no_stats in
    (omega (arith, c.0), omega (arith, c.1))
