-- ===== src/Activation/Again.antt =====
-- An activation that is asked for again, in src/app/device/device_activation.cpp.
use iot_dev_sys.Common.{ℕ, ◌≤◌, ◌≡◌, ◌↔◌, String, true, false, arith, is_empty}
use iot_dev_sys.Common.Int.{ℤ}
use iot_dev_sys.Status.{StatusCode, ok}
use iot_dev_sys.Types.Device.{Device}
use iot_dev_sys.Types.Activation.{
  DeviceTypeInfo, DeviceModelInfo, ActivationRequest, ActivationResponse,
}
use iot_dev_sys.Activation.{
  Database, validate_request, process_activation, built_device, recorded, tenant_of,
}

-- A request is valid exactly if both texts are there, the hardware id has 4 to 128 bytes and the model key
-- at most 64.
validate_request-ok_iff :
    (size : String → ℕ) (request : ActivationRequest)
    → (validate_request size request ≡ ok) ↔ (
        (is_empty request.uid ≡ false)
        × (is_empty request.model_key ≡ false)
        × (4 ≤ size request.uid)
        × (size request.uid ≤ 128)
        × (size request.model_key ≤ 64))
unfolding validate_request
validate_request-ok_iff size request = ground arith

module _ {S : Type 0} (db : Database S) where
  -- What an activation and a later one of the same request have in common.
  abbrev pub IsRepeated : S × ActivationResponse → S × ActivationResponse → Type 0
  IsRepeated first again =
      (again.0 ≡ first.0)
      × (again.1.success ≡ true)
      × (again.1.device_id ≡ first.1.device_id)
      × (again.1.tenant_id ≡ first.1.tenant_id)
      × (again.1.product_id ≡ first.1.product_id)
      × (again.1.firmware_version ≡ first.1.firmware_version)

  module _ (size : String → ℕ) (make : ActivationRequest → String) (token : String) (now : ℤ)
      (uri ip : String) (request : ActivationRequest) (s : S) where
    first : S × ActivationResponse
    first = process_activation db size make token now uri ip request s

    dev : DeviceModelInfo → DeviceTypeInfo → Device
    dev model dtype = built_device db make now request model dtype s

    inserted : DeviceModelInfo → DeviceTypeInfo → S × StatusCode
    unfolding dev
    inserted model dtype = db.insert_device (dev model dtype) (db.add_tenant (tenant_of db s) s)

    new_state : DeviceModelInfo → DeviceTypeInfo → S
    unfolding dev inserted
    new_state model dtype =
        recorded db token now ip request (dev model dtype) (inserted model dtype).0
