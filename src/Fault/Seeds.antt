-- ===== src/Fault/Seeds.antt =====
-- src/app/fault/fault_detector.cpp, `seed_mock_data`: the faults that the source writes out.
use iot_dev_sys.Types.Fault.{
  FaultInfo, new_fault, warning, error, e003_pump_failure, e005_water_leak, w002_comm_fail,
  w003_material_low,
}

abbrev pub pump_flow : FaultInfo
pump_flow = record new_fault {
  tenant_id = "tenant_demo";
  device_id = "dev-coffee-002";
  code = e003_pump_failure;
  level = error;
  description = "水泵流量异常：期望流量 8ml/s，实际 3ml/s";
  timestamp = "1782660900";
  sensor_snapshot = "{\"flow_rate_ml_s\":3.0,\"target_flow\":8.0,\"pump_current_a\":0.3}";
}

abbrev pub beans_low : FaultInfo
beans_low = record new_fault {
  tenant_id = "tenant_demo";
  device_id = "dev-coffee-001";
  code = w003_material_low;
  level = warning;
  description = "咖啡豆余量不足：当前 120g，阈值 150g";
  timestamp = "1782663600";
  sensor_snapshot = "{\"bean_remaining_g\":120,\"threshold_g\":150}";
}

abbrev pub heartbeats_missed : FaultInfo
heartbeats_missed = record new_fault {
  tenant_id = "tenant_demo";
  device_id = "dev-water-001";
  code = w002_comm_fail;
  level = warning;
  description = "通信模块连续3次心跳超时，设备可能离线";
  timestamp = "1782665400";
  sensor_snapshot = "{\"missed_heartbeats\":3,\"last_seen\":\"2026-06-26T09:27:00Z\"}";
}

abbrev pub tray_leak : FaultInfo
tray_leak = record new_fault {
  tenant_id = "tenant_demo";
  device_id = "dev-coffee-003";
  code = e005_water_leak;
  level = error;
  description = "机箱底部漏水传感器触发，已自动锁定";
  timestamp = "1782662700";
  sensor_snapshot = "{\"leak_sensor\":true,\"zone\":\"bottom_tray\",\"auto_lockdown\":true}";
}
