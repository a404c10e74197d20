-- ===== src/Ota/Seeds.antt =====
-- src/app/ota/ota_manager.cpp, `seed_mock_data`: the firmwares and records that the source writes out.
use iot_dev_sys.Common.{true, false}
use iot_dev_sys.Common.Int.{pos}
use iot_dev_sys.Types.Ota.{FirmwareVersion, OtaRecord, new_firmware, new_ota_record}

abbrev pub coffee_2_1_0 : FirmwareVersion
coffee_2_1_0 = record new_firmware {
  version = "v2.1.0";
  product_id = "coffee_machine";
  download_url = "https://cdn.example.com/firmware/coffee-v2.1.0.bin";
  checksum_sha256 = "a1b2c3d4e5f6a7b8c9d0e1f2a3b4c5d6e7f8a9b0c1d2e3f4a5b6c7d8e9f0a1b2";
  changelog = "修复加热器PID参数异常；优化待机功耗；新增MQTT v5支持";
  force_upgrade = false;
  created_at = pos 1719792000;
}

abbrev pub coffee_2_2_0 : FirmwareVersion
coffee_2_2_0 = record new_firmware {
  version = "v2.2.0";
  product_id = "coffee_machine";
  download_url = "https://cdn.example.com/firmware/coffee-v2.2.0.bin";
  checksum_sha256 = "b2c3d4e5f6a7b8c9d0e1f2a3b4c5d6e7f8a9b0c1d2e3f4a5b6c7d8e9f0a1b2c3";
  changelog = "新增冰咖啡配方支持；优化研磨电机控制精度；修复蓝牙配网异常";
  force_upgrade = false;
  created_at = pos 1722470400;
}

abbrev pub coffee_2_2_1 : FirmwareVersion
coffee_2_2_1 = record new_firmware {
  version = "v2.2.1";
  product_id = "coffee_machine";
  download_url = "https://cdn.example.com/firmware/coffee-v2.2.1-hotfix.bin";
  checksum_sha256 = "c3d4e5f6a7b8c9d0e1f2a3b4c5d6e7f8a9b0c1d2e3f4a5b6c7d8e9f0a1b2c3d4";
  changelog = "紧急修复：TLS证书过期导致的MQTT断连问题（安全漏洞 CVE-2026-1234）";
  force_upgrade = true;
  created_at = pos 1723075200;
}

abbrev pub water_1_5_0 : FirmwareVersion
water_1_5_0 = record new_firmware {
  version = "v1.5.0";
  product_id = "water_dispenser";
  download_url = "https://cdn.example.com/firmware/water-v1.5.0.bin";
  checksum_sha256 = "d4e5f6a7b8c9d0e1f2a3b4c5d6e7f8a9b0c1d2e3f4a5b6c7d8e9f0a1b2c3d4e5";
  changelog = "饮水机初始版本：支持热水/冰水/常温水三温控制";
  force_upgrade = false;
  created_at = pos 1714521600;
}

abbrev pub coffee_001_record : OtaRecord
coffee_001_record = record new_ota_record {
  tenant_id = "tenant_demo";
  device_id = "dev-coffee-001";
  current_version = "v2.0.5";
  target_version = "v2.1.0";
  download_url = coffee_2_1_0.download_url;
  checksum = coffee_2_1_0.checksum_sha256;
  progress = pos 45;
  stage = "done";
  force_upgrade = false;
}

abbrev pub coffee_002_record : OtaRecord
coffee_002_record = record new_ota_record {
  tenant_id = "tenant_demo";
  device_id = "dev-coffee-002";
  current_version = "v2.1.0";
  target_version = "v2.1.0";
  download_url = coffee_2_1_0.download_url;
  checksum = coffee_2_1_0.checksum_sha256;
  progress = pos 100;
  stage = "done";
  force_upgrade = false;
}

abbrev pub coffee_003_record : OtaRecord
coffee_003_record = record new_ota_record {
  tenant_id = "tenant_demo";
  device_id = "dev-coffee-003";
  current_version = "v2.1.0";
  target_version = "v2.2.0";
  download_url = coffee_2_2_0.download_url;
  checksum = coffee_2_2_0.checksum_sha256;
  progress = pos 0;
  stage = "failed";
  force_upgrade = false;
}

abbrev pub water_001_record : OtaRecord
water_001_record = record new_ota_record {
  tenant_id = "tenant_demo";
  device_id = "dev-water-001";
  current_version = "v1.4.0";
  target_version = "v1.5.0";
  download_url = water_1_5_0.download_url;
  checksum = water_1_5_0.checksum_sha256;
  progress = pos 100;
  stage = "done";
  force_upgrade = false;
}
