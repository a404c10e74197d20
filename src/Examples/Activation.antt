-- ===== src/Examples/Activation.antt =====
-- Activations of src/app/device/device_activation.cpp, over a database that keeps a list of devices.
use iot_dev_sys.Common.{
  String, Bool, true, List, ◌∷◌, none, some, ◌==◌, is_some, find_if, if◌then◌else◌,
}
use iot_dev_sys.Common.Int.{pos}
use iot_dev_sys.Status.{ok}
use iot_dev_sys.Types.Device.{Device, idle}
use iot_dev_sys.Types.Activation.{DeviceTypeInfo, DeviceModelInfo, ActivationRequest}
use iot_dev_sys.Activation.{Database}

abbrev espresso_machine : DeviceTypeInfo
espresso_machine = record {
  id = pos 1;
  type_code = "espresso";
  display_name = "Espresso";
  description = "";
  internal_type = pos 1;
  icon_url = "";
  sort_order = pos 0;
  is_active = true;
  created_at = "";
  updated_at = "";
}

abbrev acm : DeviceModelInfo
acm = record {
  id = pos 1;
  model_code = "ACM-200";
  model_key = "K1";
  type_code = "espresso";
  display_name = "ACM-200";
  description = "";
  specs_json = "";
  firmware_base = "1.0.0";
  is_active = true;
  sort_order = pos 0;
  created_at = "";
  updated_at = "";
}

abbrev has_uid : String → Device → Bool
has_uid u d = d.hardware_uid == u

-- A row does not keep the work status.
abbrev as_stored : Device → Device
as_stored d = record d { work_status = idle }

abbrev shelf : Database (List Device)
shelf = record {
  get_device_model_by_key = λ k s. if k == "K1" then some acm else none;
  get_device_type = λ c s. if c == "espresso" then some espresso_machine else none;
  device_exists = λ u s. is_some (find_if (has_uid u) s);
  get_device_by_hwuid = λ u s. find_if (has_uid u) s;
  get_device = λ i s. find_if (λ d. d.device_id == i) s;
  load_tenant_config = λ f s. "";
  add_tenant = λ t s. s;
  insert_device = λ d s. (as_stored d ∷ s, ok);
  store_activation_token = λ i t a b s. s;
  log_activation = λ i u a b m s. s;
  revoke = λ i s. s;
}

abbrev request : ActivationRequest
request = record { uid = "CHIP-0001"; model_key = "K1" }

abbrev make : ActivationRequest → String
make r = r.uid
