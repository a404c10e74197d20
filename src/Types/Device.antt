-- ===== src/Types/Device.antt =====
-- include/dev_sys/common/types.h: device types, statuses, tenants and the device record.
-- The field `type` of `Device` is `device_type` here.
use iot_dev_sys.Common.{String, Bool, false}
use iot_dev_sys.Common.Int.{ℤ, pos}

pub data DeviceType : Type 0 where
  coffee_machine instant_machine water_dispenser other : DeviceType

pub data NetworkStatus : Type 0 where
  online offline : NetworkStatus

pub data WorkStatus : Type 0 where
  idle brewing fault upgrading maintenance : WorkStatus

pub record Tenant : Type 0 where
  pub tenant_id : String
  pub name : String
  pub active : Bool

pub record Device : Type 0 where
  pub tenant_id : String
  pub device_id : String
  pub product_id : String
  pub device_type : DeviceType
  pub network_status : NetworkStatus
  pub work_status : WorkStatus
  pub firmware_version : String
  pub mac_address : String
  pub model : String
  pub hardware_uid : String
  pub last_heartbeat_at : ℤ
  pub activated_at : ℤ
  pub activated : Bool

unfoldable pub new_device : Device
new_device = record {
  tenant_id = "";
  device_id = "";
  product_id = "";
  device_type = other;
  network_status = offline;
  work_status = idle;
  firmware_version = "";
  mac_address = "";
  model = "";
  hardware_uid = "";
  last_heartbeat_at = pos 0;
  activated_at = pos 0;
  activated = false;
}
