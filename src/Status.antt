-- ===== src/Status.antt =====
-- include/dev_sys/common/status_codes.h: the status codes, their numbers and their messages.
pub mod Numbers
use iot_dev_sys.Common.{String}
use iot_dev_sys.Common.Int.{ℤ, pos, neg}

pub data StatusCode : Type 0 where
  ok error dev_not_activated dev_already_active dev_cert_invalid dev_auth_failed comm_timeout :
      StatusCode
  comm_disconnected comm_tls_failed comm_msg_too_large order_not_found order_expired : StatusCode
  order_queue_full order_invalid_state recipe_not_found recipe_inactive recipe_incompatible :
      StatusCode
  ota_download_failed ota_checksum_error ota_signature_error ota_install_failed ota_rollback_ok :
      StatusCode
  fault_detected fault_lockdown storage_full storage_read_error storage_write_error : StatusCode
  org_not_found org_has_children org_has_devices org_has_accounts org_duplicate_tenant : StatusCode
  account_not_found account_locked account_bad_password account_duplicate auth_token_expired :
      StatusCode
  auth_token_invalid auth_forbidden hal_sensor_error hal_actuator_error hal_timeout : StatusCode

-- The enumerator's value.
unfoldable pub code : StatusCode → ℤ
code ok = pos 0
code error = neg 1
code dev_not_activated = neg 100
code dev_already_active = neg 101
code dev_cert_invalid = neg 102
code dev_auth_failed = neg 103
code comm_timeout = neg 200
code comm_disconnected = neg 201
code comm_tls_failed = neg 202
code comm_msg_too_large = neg 203
code order_not_found = neg 300
code order_expired = neg 301
code order_queue_full = neg 302
code order_invalid_state = neg 303
code recipe_not_found = neg 400
code recipe_inactive = neg 401
code recipe_incompatible = neg 402
code ota_download_failed = neg 500
code ota_checksum_error = neg 501
code ota_signature_error = neg 502
code ota_install_failed = neg 503
code ota_rollback_ok = neg 504
code fault_detected = neg 600
code fault_lockdown = neg 601
code storage_full = neg 700
code storage_read_error = neg 701
code storage_write_error = neg 702
code org_not_found = neg 900
code org_has_children = neg 901
code org_has_devices = neg 902
code org_has_accounts = neg 903
code org_duplicate_tenant = neg 904
code account_not_found = neg 910
code account_locked = neg 911
code account_bad_password = neg 912
code account_duplicate = neg 913
code auth_token_expired = neg 920
code auth_token_invalid = neg 921
code auth_forbidden = neg 922
code hal_sensor_error = neg 800
code hal_actuator_error = neg 801
code hal_timeout = neg 802

-- Every enumerator has a case of its own, so the source's `default` is not reached.
unfoldable pub status_message : StatusCode → String
status_message ok = "OK"
status_message error = "General error"
status_message dev_not_activated = "Device not activated"
status_message dev_already_active = "Device already active"
status_message dev_cert_invalid = "Device certificate invalid"
status_message dev_auth_failed = "Device authentication failed"
status_message comm_timeout = "Communication timeout"
status_message comm_disconnected = "Communication disconnected"
status_message comm_tls_failed = "TLS handshake failed"
status_message comm_msg_too_large = "Message too large"
status_message order_not_found = "Order not found"
status_message order_expired = "Order expired"
status_message order_queue_full = "Order queue full"
status_message order_invalid_state = "Invalid order state transition"
status_message recipe_not_found = "Recipe not found"
status_message recipe_inactive = "Recipe inactive"
status_message recipe_incompatible = "Recipe incompatible with device type"
status_message ota_download_failed = "OTA download failed"
status_message ota_checksum_error = "OTA checksum error"
status_message ota_signature_error = "OTA signature verification failed"
status_message ota_install_failed = "OTA install failed"
status_message ota_rollback_ok = "OTA rolled back successfully"
status_message fault_detected = "Fault detected"
status_message fault_lockdown = "Device in fault lockdown"
status_message storage_full = "Storage full"
status_message storage_read_error = "Storage read error"
status_message storage_write_error = "Storage write error"
status_message org_not_found = "Organization not found"
status_message org_has_children = "Organization has child departments"
status_message org_has_devices = "Organization has associated devices"
status_message org_has_accounts = "Organization has associated accounts"
status_message org_duplicate_tenant = "Tenant ID already exists"
status_message account_not_found = "Account not found"
status_message account_locked = "Account locked (too many failed attempts)"
status_message account_bad_password = "Invalid password"
status_message account_duplicate = "Username already exists"
status_message auth_token_expired = "Token expired"
status_message auth_token_invalid = "Token invalid"
status_message auth_forbidden = "Insufficient permissions"
status_message hal_sensor_error = "Sensor error"
status_message hal_actuator_error = "Actuator error"
status_message hal_timeout = "Hardware timeout"
