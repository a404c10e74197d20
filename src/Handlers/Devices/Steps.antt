-- ===== src/Handlers/Devices/Steps.antt =====
-- Each handler of /api/v1/devices in src/main.cpp makes at most one call of the device
-- manager.
use iot_dev_sys.Handlers.{rest_of}
use iot_dev_sys.Handlers.Via.{Via, only_answered, made, Via-or_thrown, Via-option, Via-if}
use iot_dev_sys.Api.{HttpRequest}
use iot_dev_sys.Common.{String}
use iot_dev_sys.Common.Int.{ℤ}
use iot_dev_sys.Json.{get_string}
use iot_dev_sys.Device.Calls
use iot_dev_sys.Status.{StatusCode}
use iot_dev_sys.Activation.{is_ok}
use iot_dev_sys.Org.{OrgManager}
use iot_dev_sys.Account.{AccountManager}
use iot_dev_sys.Device.{DeviceManager, migrate_device}
use iot_dev_sys.Handlers.Devices.{
  get_devices, shown_devices, before_last, migrated, put_tenant, delete_device,
}
use iot_dev_sys.Common.{not, is_empty}

module _ (update_db : String → String → StatusCode) (orgs : OrgManager) (accounts : AccountManager)
    (epoch : ℤ) (req : HttpRequest) (s : DeviceManager) where
  pub get_devices-Via : Via Calls.call s (get_devices orgs accounts epoch req s)
  unfolding get_devices
  get_devices-Via =
      Via-or_thrown Calls.call s (shown_devices orgs accounts epoch req s) _ (λ d. only_answered _)

  migrated-Via :
      (updated : StatusCode) (d new : String)
      → Via Calls.call s (migrated updated d new (migrate_device d new s))
  unfolding Calls.call
  migrated-Via updated d new =
      Via-if Calls.call s (not (is_ok (migrate_device d new s).status)) _ _
        (made _ (Calls.migrate d new))
        (Via-if Calls.call s (not (is_ok updated)) _ _ (made _ (Calls.migrate d new))
          (made _ (Calls.migrate d new)))

  pub put_tenant-Via : Via Calls.call s (put_tenant update_db req s)
  unfolding put_tenant
  put_tenant-Via =
      let new = get_string req.body "tenant_id" in
      Via-or_thrown Calls.call s (rest_of "/api/v1/devices/" req) _ (λ r.
        Via-option Calls.call s (before_last "/tenant" r) _ _ (only_answered _) (λ d.
          Via-if Calls.call s (is_empty new) _ _ (only_answered _)
            (migrated-Via (update_db d new) d new)))

  pub delete_device-Via : Via Calls.call s (delete_device req s)
  unfolding delete_device Calls.call
  delete_device-Via =
      Via-or_thrown Calls.call s (rest_of "/api/v1/devices/" req) _
        (λ d. Via-if Calls.call s _ _ _ (only_answered _) (made _ (Calls.remove _ d)))
