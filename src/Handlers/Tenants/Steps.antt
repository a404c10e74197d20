-- ===== src/Handlers/Tenants/Steps.antt =====
-- Each handler of /api/v1/tenants in src/main.cpp makes at most one call of the device manager.
use iot_dev_sys.Handlers.{rest_of}
use iot_dev_sys.Handlers.Via.{Via, only_answered, Via-or_thrown, Via-option, Via-if}
use iot_dev_sys.Api.{HttpRequest}
use iot_dev_sys.Common.Int.{ℤ, neg}
use iot_dev_sys.Device.Calls
use iot_dev_sys.Org.{OrgManager, list_orgs}
use iot_dev_sys.Account.{AccountManager}
use iot_dev_sys.Device.{DeviceManager}
use iot_dev_sys.Handlers.Auth.{extract_auth}
use iot_dev_sys.Handlers.Accounts.{without_end, between}
use iot_dev_sys.Handlers.Tenants.{shown_to, get_tenants, get_tenant, get_tenant_devices}
use iot_dev_sys.Common.{true}

module _ (orgs : OrgManager) (accounts : AccountManager) (epoch : ℤ) (req : HttpRequest)
    (s : DeviceManager) where
  pub get_tenants-Via : Via Calls.call s (get_tenants orgs accounts epoch req s)
  unfolding get_tenants
  get_tenants-Via =
      Via-or_thrown Calls.call s
        (shown_to (list_orgs (neg 1) "" true orgs) (extract_auth orgs epoch req accounts)) _
        (λ os. only_answered _)

  pub get_tenant-Via : Via Calls.call s (get_tenant orgs epoch req s)
  unfolding get_tenant
  get_tenant-Via =
      Via-or_thrown Calls.call s (rest_of "/api/v1/tenants/" req) _
        (λ t. Via-if Calls.call s _ _ _ (only_answered _) (only_answered _))

  pub get_tenant_devices-Via : Via Calls.call s (get_tenant_devices req s)
  unfolding get_tenant_devices
  get_tenant_devices-Via =
      Via-option Calls.call s (without_end "/devices" req.path) _ _ (only_answered _) (λ f.
        Via-or_thrown Calls.call s (between "/api/v1/tenants/" "/devices" req) _
          (λ t. only_answered _))
