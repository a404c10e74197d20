-- ===== src/Types/Ota.antt =====
-- include/dev_sys/common/types.h: per-device upgrade records and the firmware registry.
use iot_dev_sys.Common.{String, Bool, false}
use iot_dev_sys.Common.Int.{ℤ, pos}

pub record OtaRecord : Type 0 where
  pub tenant_id : String
  pub device_id : String
  pub current_version : String
  pub target_version : String
  pub download_url : String
  pub checksum : String
  pub progress : ℤ
  pub stage : String
  pub force_upgrade : Bool

unfoldable pub new_ota_record : OtaRecord
new_ota_record = record {
  tenant_id = "";
  device_id = "";
  current_version = "";
  target_version = "";
  download_url = "";
  checksum = "";
  progress = pos 0;
  stage = "";
  force_upgrade = false;
}

pub record FirmwareVersion : Type 0 where
  pub version : String
  pub product_id : String
  pub download_url : String
  pub file_name : String
  pub file_size : ℤ
  pub checksum_sha256 : String
  pub changelog : String
  pub force_upgrade : Bool
  pub created_at : ℤ

unfoldable pub new_firmware : FirmwareVersion
new_firmware = record {
  version = "";
  product_id = "";
  download_url = "";
  file_name = "";
  file_size = pos 0;
  checksum_sha256 = "";
  changelog = "";
  force_upgrade = false;
  created_at = pos 0;
}
