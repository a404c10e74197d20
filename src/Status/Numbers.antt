-- ===== src/Status/Numbers.antt =====
-- The numbers of the codes of include/dev_sys/common/status_codes.h.
use iot_dev_sys.Common.{◌≡◌, refl, sym, ap, ◌∙◌, List, [], ◌∷◌, Option, some, some_inj, find_if}
use iot_dev_sys.Common.Int.{ℤ, int_eq}
use iot_dev_sys.Status.{
  StatusCode, code, ok, error, dev_not_activated, dev_already_active, dev_cert_invalid,
  dev_auth_failed, comm_timeout, comm_disconnected, comm_tls_failed, comm_msg_too_large,
  order_not_found, order_expired, order_queue_full, order_invalid_state, recipe_not_found,
  recipe_inactive, recipe_incompatible, ota_download_failed, ota_checksum_error,
  ota_signature_error, ota_install_failed, ota_rollback_ok, fault_detected, fault_lockdown,
  storage_full, storage_read_error, storage_write_error, org_not_found, org_has_children,
  org_has_devices, org_has_accounts, org_duplicate_tenant, account_not_found, account_locked,
  account_bad_password, account_duplicate, auth_token_expired, auth_token_invalid, auth_forbidden,
  hal_sensor_error, hal_actuator_error, hal_timeout,
}

abbrev all_codes : List StatusCode
all_codes =
    ok ∷ error ∷ dev_not_activated ∷ dev_already_active ∷ dev_cert_invalid ∷ dev_auth_failed
    ∷ comm_timeout ∷ comm_disconnected ∷ comm_tls_failed ∷ comm_msg_too_large ∷ order_not_found
    ∷ order_expired ∷ order_queue_full ∷ order_invalid_state ∷ recipe_not_found ∷ recipe_inactive
    ∷ recipe_incompatible ∷ ota_download_failed ∷ ota_checksum_error ∷ ota_signature_error
    ∷ ota_install_failed ∷ ota_rollback_ok ∷ fault_detected ∷ fault_lockdown ∷ storage_full
    ∷ storage_read_error ∷ storage_write_error ∷ org_not_found ∷ org_has_children ∷ org_has_devices
    ∷ org_has_accounts ∷ org_duplicate_tenant ∷ account_not_found ∷ account_locked
    ∷ account_bad_password ∷ account_duplicate ∷ auth_token_expired ∷ auth_token_invalid
    ∷ auth_forbidden ∷ hal_sensor_error ∷ hal_actuator_error ∷ hal_timeout ∷ []

-- The code that has a given number, if there is one.
of_number : ℤ → Option StatusCode
unfolding find_if code
of_number n = find_if (λ c. int_eq (code c) n) all_codes

of_number-code : (c : StatusCode) → of_number (code c) ≡ some c
unfolding of_number
of_number-code ok = refl
of_number-code _ = refl

-- Two status codes with the same number are the same code.
code_inj : (a b : StatusCode) → code a ≡ code b → a ≡ b
code_inj a b e = some_inj (sym (of_number-code a) ∙ ap of_number e ∙ of_number-code b)
