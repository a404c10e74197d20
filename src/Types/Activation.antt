-- ===== src/Types/Activation.antt =====
-- include/dev_sys/common/types.h: the stored types and models of devices, and the request and the answer
-- of an activation.
use iot_dev_sys.Common.{String, Bool, false}
use iot_dev_sys.Common.Int.{ℤ, pos}

pub record DeviceTypeInfo : Type 0 where
  pub id : ℤ
  pub type_code : String
  pub display_name : String
  pub description : String
  pub internal_type : ℤ
  pub icon_url : String
  pub sort_order : ℤ
  pub is_active : Bool
  pub created_at : String
  pub updated_at : String

pub record DeviceModelInfo : Type 0 where
  pub id : ℤ
  pub model_code : String
  pub model_key : String
  pub type_code : String
  pub display_name : String
  pub description : String
  pub specs_json : String
  pub firmware_base : String
  pub is_active : Bool
  pub sort_order : ℤ
  pub created_at : String
  pub updated_at : String

pub record ActivationRequest : Type 0 where
  pub uid : String
  pub model_key : String

pub record ActivationResponse : Type 0 where
  pub success : Bool
  pub device_id : String
  pub model_key : String
  pub model_code : String
  pub tenant_id : String
  pub product_id : String
  pub device_type : String
  pub firmware_version : String
  pub activation_token : String
  pub mqtt_broker_uri : String
  pub ttl_seconds : ℤ
  pub error_message : String
  pub error_code : ℤ

unfoldable pub new_activation : ActivationResponse
new_activation = record {
  success = false;
  device_id = "";
  model_key = "";
  model_code = "";
  tenant_id = "";
  product_id = "";
  device_type = "";
  firmware_version = "";
  activation_token = "";
  mqtt_broker_uri = "";
  ttl_seconds = pos 0;
  error_message = "";
  error_code = pos 0;
}
