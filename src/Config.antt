-- ===== src/Config.antt =====
-- src/app/config/config_manager.cpp: the configuration of a device and its defaults. What the source
-- does not write yet, the storage and the report to the cloud, has no effect.
use iot_dev_sys.Common.{Bool, false}
use iot_dev_sys.Common.Int.{ℤ, pos}
use iot_dev_sys.Status.{StatusCode, ok}

pub record DeviceConfig : Type 0 where
  pub heartbeat_interval : ℤ
  pub auto_clean_interval : ℤ
  pub idle_clean_delay : ℤ
  pub screen_brightness : ℤ
  pub volume_level : ℤ
  pub energy_save_mode : Bool
  pub order_expire_minutes : ℤ
  pub max_queue_depth : ℤ

unfoldable pub new_config : DeviceConfig
new_config = record {
  heartbeat_interval = pos 60;
  auto_clean_interval = pos 20;
  idle_clean_delay = pos 30;
  screen_brightness = pos 80;
  volume_level = pos 70;
  energy_save_mode = false;
  order_expire_minutes = pos 15;
  max_queue_depth = pos 10;
}

pub record ConfigManager : Type 0 where
  pub config : DeviceConfig

unfoldable pub load : ConfigManager → ConfigManager × StatusCode
load s = (record { config = new_config }, ok)

unfoldable pub save_to_storage : DeviceConfig → StatusCode
save_to_storage config = ok

unfoldable pub apply_cloud_config : DeviceConfig → ConfigManager → ConfigManager × StatusCode
apply_cloud_config config s = (record { config = config }, save_to_storage config)

unfoldable pub report_to_cloud : ConfigManager → StatusCode
report_to_cloud s = ok

unfoldable pub current : ConfigManager → DeviceConfig
current s = s.config

unfoldable pub get_heartbeat_interval : ConfigManager → ℤ
get_heartbeat_interval s = s.config.heartbeat_interval

unfoldable pub get_order_expire_minutes : ConfigManager → ℤ
get_order_expire_minutes s = s.config.order_expire_minutes

unfoldable pub get_max_queue_depth : ConfigManager → ℤ
get_max_queue_depth s = s.config.max_queue_depth
