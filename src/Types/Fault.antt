-- ===== src/Types/Fault.antt =====
-- include/dev_sys/common/types.h: fault codes, levels and records. A `FaultCode` is a `uint8_t` that a
-- cast may give any value, so it is kept as its number below 256, with names for the enumerators.
use iot_dev_sys.Common.{ℕ, String}

abbrev pub FaultCode : Type 0
FaultCode = ℕ

abbrev pub no_fault : FaultCode
no_fault = 0

abbrev pub e001_heater_overtemp : FaultCode
e001_heater_overtemp = 1

abbrev pub e002_heater_not_heating : FaultCode
e002_heater_not_heating = 2

abbrev pub e003_pump_failure : FaultCode
e003_pump_failure = 3

abbrev pub e004_motor_stall : FaultCode
e004_motor_stall = 4

abbrev pub e005_water_leak : FaultCode
e005_water_leak = 5

abbrev pub w001_sensor_offline : FaultCode
w001_sensor_offline = 6

abbrev pub w002_comm_fail : FaultCode
w002_comm_fail = 7

abbrev pub w003_material_low : FaultCode
w003_material_low = 8

pub data FaultLevel : Type 0 where
  warning error : FaultLevel

pub record FaultInfo : Type 0 where
  pub tenant_id : String
  pub device_id : String
  pub code : FaultCode
  pub level : FaultLevel
  pub description : String
  pub timestamp : String
  pub sensor_snapshot : String

unfoldable pub new_fault : FaultInfo
new_fault = record {
  tenant_id = "";
  device_id = "";
  code = no_fault;
  level = warning;
  description = "";
  timestamp = "";
  sensor_snapshot = "";
}
