-- ===== src/Activation.antt =====
-- src/app/device/device_activation.{h,cpp}: the activation of devices over the database, whose operations
-- run SQL on an external engine: they are the record `Database` over the states `S` of the engine.
-- `size` gives the bytes of a text, `device_id_of` the hash that `generate_device_id` makes with OpenSSL or
-- `std::hash`, `token` the random text of `generate_activation_token`, and `now` the seconds of the clock.
pub mod Store
pub mod Again
use iot_dev_sys.Common.{
  ℕ, ◌%◌, ◌-◌, String, Bool, true, false, not, ◌||◌, Option, none, some, ◌==◌, is_empty,
  if◌then◌else◌, ltb, nat_eq,
}
use iot_dev_sys.Common.Int.{ℤ, pos, negsuc, neg, ◌+ℤ◌}
use iot_dev_sys.Common.Text.{append}
use iot_dev_sys.Status.{StatusCode, ok, dev_auth_failed, dev_not_activated, code, status_message}
use iot_dev_sys.Types.Device.{
  Device, DeviceType, coffee_machine, instant_machine, water_dispenser, other, offline, idle,
  new_device,
}
use iot_dev_sys.Types.Activation.{
  DeviceTypeInfo, DeviceModelInfo, ActivationRequest, ActivationResponse, new_activation,
}

-- The operations of src/middleware/storage/database.h that an activation uses. `add_tenant` is the
-- `INSERT INTO tenants` statement and `revoke` the `UPDATE activation_tokens` statement.
pub record Database (S : Type 0) : Type 0 where
  pub get_device_model_by_key : String → S → Option DeviceModelInfo
  pub get_device_type : String → S → Option DeviceTypeInfo
  pub device_exists : String → S → Bool
  pub get_device_by_hwuid : String → S → Option Device
  pub get_device : String → S → Option Device
  pub load_tenant_config : String → S → String
  pub add_tenant : String → S → S
  pub insert_device : Device → S → S × StatusCode
  pub store_activation_token : String → String → ℤ → ℤ → S → S
  pub log_activation : String → String → String → Bool → String → S → S
  pub revoke : String → S → S

-- `c == StatusCode::OK`
abbrev pub is_ok : StatusCode → Bool
is_ok ok = true
is_ok c = false

unfoldable pub validate_request : (String → ℕ) → ActivationRequest → StatusCode
validate_request size request =
    if is_empty request.uid
    then dev_auth_failed
    else if is_empty request.model_key
    then dev_auth_failed
    else if ltb (size request.uid) 4 || ltb 128 (size request.uid)
    then dev_auth_failed
    else if ltb 64 (size request.model_key)
    then dev_auth_failed
    else ok

-- `static_cast<DeviceType>` keeps the last eight bits; a number without an enumerator is `other` here, as
-- which `generate_product_id` treats it.
abbrev pub last_byte : ℤ → ℕ
last_byte (pos n) = n % 256
last_byte (negsuc n) = 255 - n % 256

abbrev pub to_device_type : ℤ → DeviceType
to_device_type n =
    if nat_eq (last_byte n) 1
    then coffee_machine
    else if nat_eq (last_byte n) 2
    then instant_machine
    else if nat_eq (last_byte n) 3
    then water_dispenser
    else other

abbrev pub generate_product_id : DeviceType → String
generate_product_id coffee_machine = "coffee_v1"
generate_product_id instant_machine = "instant_v1"
generate_product_id water_dispenser = "water_v1"
generate_product_id other = "other_v1"

abbrev pub ttl : ℤ
ttl = pos 31536000

abbrev pub failed : ℤ → String → ActivationResponse
failed error_code message = record new_activation {
  error_code = error_code;
  error_message = message;
}

abbrev pub model_code_of : Option DeviceModelInfo → Device → String
model_code_of none existing = existing.model
model_code_of (some m) existing = m.model_code

abbrev pub type_code_of : Option DeviceModelInfo → String
type_code_of none = "other"
type_code_of (some m) = m.type_code

abbrev pub shown_type : Option DeviceTypeInfo → String
shown_type none = "other"
shown_type (some t) = t.type_code

abbrev pub tenant_or_default : String → String
tenant_or_default tenant = if is_empty tenant then "default" else tenant

module _ {S : Type 0} (db : Database S) where
  -- The answer for a device that is there already.
  unfoldable pub existing_response :
      String → String → ActivationRequest → Device → S → ActivationResponse
  existing_response token broker_uri request existing s = record new_activation {
    success = true;
    device_id = existing.device_id;
    model_key = request.model_key;
    model_code = model_code_of (db.get_device_model_by_key request.model_key s) existing;
    tenant_id = existing.tenant_id;
    product_id = existing.product_id;
    device_type =
        shown_type
          (db.get_device_type (type_code_of (db.get_device_model_by_key request.model_key s)) s);
    firmware_version = existing.firmware_version;
    activation_token = token;
    mqtt_broker_uri = broker_uri;
    ttl_seconds = ttl;
  }

  abbrev pub tenant_of : S → String
  tenant_of s = tenant_or_default (db.load_tenant_config "tenant_name" s)

  abbrev pub built_device :
      (ActivationRequest → String)
      → ℤ
      → ActivationRequest
      → DeviceModelInfo
      → DeviceTypeInfo
      → S
      → Device
  built_device device_id_of now request model dtype s = record new_device {
    device_id = device_id_of request;
    tenant_id = tenant_of s;
    product_id = generate_product_id (to_device_type dtype.internal_type);
    device_type = to_device_type dtype.internal_type;
    model = model.model_code;
    hardware_uid = request.uid;
    firmware_version = model.firmware_base;
    network_status = offline;
    work_status = idle;
    activated = true;
    last_heartbeat_at = pos 0;
    activated_at = now;
  }

  abbrev pub new_response :
      String
      → String
      → ActivationRequest
      → DeviceModelInfo
      → DeviceTypeInfo
      → Device
      → ActivationResponse
  new_response token broker_uri request model dtype dev = record new_activation {
    success = true;
    device_id = dev.device_id;
    model_key = request.model_key;
    model_code = model.model_code;
    tenant_id = dev.tenant_id;
    product_id = dev.product_id;
    device_type = dtype.type_code;
    firmware_version = model.firmware_base;
    activation_token = token;
    mqtt_broker_uri = broker_uri;
    ttl_seconds = ttl;
  }

  -- The token and the log after an insertion.
  abbrev pub recorded : String → ℤ → String → ActivationRequest → Device → S → S
  recorded token now remote_ip request dev s =
      db.log_activation dev.device_id request.uid remote_ip true
        (append "activated via " request.model_key)
        (db.store_activation_token dev.device_id token now (now +ℤ ttl) s)

  -- A device that is not there: the tenant, the device, the token and the log are written.
  unfoldable pub activate_new :
      (ActivationRequest → String)
      → String
      → ℤ
      → String
      → String
      → ActivationRequest
      → DeviceModelInfo
      → DeviceTypeInfo
      → S
      → S × ActivationResponse
  activate_new device_id_of token now broker_uri remote_ip request model dtype s =
      let dev : Device = built_device device_id_of now request model dtype s in
      let inserted : S × StatusCode = db.insert_device dev (db.add_tenant (tenant_of s) s) in
      if is_ok inserted.1
      then (
        recorded token now remote_ip request dev inserted.0,
        new_response token broker_uri request model dtype dev,
      )
      else (inserted.0, failed (code inserted.1) "Database insert failed")

  unfoldable pub find_existing : String → S → Option Device
  find_existing uid s = if db.device_exists uid s then db.get_device_by_hwuid uid s else none

  unfoldable pub process_activation :
      (String → ℕ)
      → (ActivationRequest → String)
      → String
      → ℤ
      → String
      → String
      → ActivationRequest
      → S
      → S × ActivationResponse
  process_activation size device_id_of token now broker_uri remote_ip request s =
      let valid : StatusCode = validate_request size request in
      if not (is_ok valid)
      then (s, failed (code valid) (status_message valid))
      else elim (db.get_device_model_by_key request.model_key s) [
        | none ↦ (s, failed (neg 404) (append "model_key not found: " request.model_key))
        | some model ↦ elim (db.get_device_type model.type_code s) [
          | none ↦ (s, failed (neg 404) (append "device_type not found: " model.type_code))
          | some dtype ↦ elim (find_existing request.uid s) [
            | some existing ↦ (s, existing_response token broker_uri request existing s)
            | none ↦ activate_new device_id_of token now broker_uri remote_ip request model dtype s
          ]
        ]
      ]

  unfoldable pub revoke_token : String → S → S × StatusCode
  revoke_token device_id s = (db.revoke device_id s, ok)

  -- The response that was given by reference is the second part.
  unfoldable pub renew_token :
      String → ℤ → String → ActivationResponse → S → S × ActivationResponse × StatusCode
  renew_token token now device_id resp s = elim (db.get_device device_id s) [
    | none ↦ (s, resp, dev_not_activated)
    | some dev ↦ (
      db.store_activation_token device_id token now (now +ℤ ttl) s,
      record resp {
        success = true;
        device_id = device_id;
        activation_token = token;
        ttl_seconds = ttl;
      },
      ok,
    )
  ]

  unfoldable pub is_device_activated : String → S → Bool
  is_device_activated hwuid s = db.device_exists hwuid s

  unfoldable pub reactivate_device : S → ActivationResponse
  reactivate_device s = failed (neg 500) "Reactivation not yet implemented"
