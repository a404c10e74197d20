-- ===== src/Handlers/Tenants.antt =====
-- The handlers of /api/v1/tenants in src/main.cpp; `now` is the seconds of the clock.
pub mod Steps
use Prim.Native.Char.{Char}
use iot_dev_sys.Common.{
  ℕ, String, Bool, true, false, not, List, [], ◌∷◌, ◌++◌, map, Option, none, some, ◌==◌, is_empty,
  is_some, length, if◌then◌else◌, find_if, select, any,
}
use iot_dev_sys.Common.Int.{ℤ, pos, neg, int_eq, sub_ℕ, pos_part}
use iot_dev_sys.Common.Text.{append}
use iot_dev_sys.Json.{get_string, strip, has_char}
use iot_dev_sys.Json.Numbers.{to_string}
use iot_dev_sys.Status.{StatusCode}
use iot_dev_sys.Types.Device.{
  Device, DeviceType, NetworkStatus, WorkStatus, coffee_machine, instant_machine, water_dispenser,
  other, online, offline, idle, brewing, fault, upgrading, maintenance,
}
use iot_dev_sys.Types.Org.{OrgInfo}
use iot_dev_sys.Types.Account.{TokenPayload}
use iot_dev_sys.Device.{
  DeviceManager, Outcome, list_all_devices, list_devices, list_offline_devices, default_timeout,
  device_count, migrate_device, remove_device,
}
use iot_dev_sys.Org.{OrgManager, get_org, get_org_by_tenant, list_orgs}
use iot_dev_sys.Account.{AccountManager, Verdict, refused, granted}
use iot_dev_sys.Activation.{is_ok}
use iot_dev_sys.Api.{HttpRequest, HttpResponse, json_response, error_response}
use iot_dev_sys.Handlers.{
  Reply, thrown, answered, rest_of, or_thrown, text_field, int_field, raw_field, bool_field, object,
  array, success,
}
use iot_dev_sys.Handlers.Auth.{extract_auth}
use iot_dev_sys.Handlers.Accounts.{without_end, between, not_found}
use iot_dev_sys.Handlers.Devices.{type_number, network_number, work_number}

-- The organizations that a token shows.
abbrev pub in_scope : List ℤ → OrgInfo → Bool
in_scope scope o = any (λ (i : ℤ). int_eq i o.org_id) scope

abbrev pub shown_to : List OrgInfo → Verdict → Option (List OrgInfo)
shown_to os Verdict.thrown = none
shown_to os refused = some os
shown_to os (granted tp) =
    some (if not (tp.role_code == "super_admin") then select (in_scope tp.org_scope) os else os)

unfoldable pub listed_tenant : DeviceManager → OrgInfo → String
unfolding device_count
listed_tenant devices o = object (
    int_field "org_id" o.org_id
    ∷ text_field "tenant_id" o.tenant_id
    ∷ text_field "org_name" o.org_name
    ∷ text_field "org_type" o.org_type
    ∷ int_field "parent_id" o.parent_id
    ∷ int_field "level" o.level
    ∷ text_field "path" o.path
    ∷ bool_field "active" o.is_active
    ∷ int_field "device_count" (pos (device_count o.tenant_id devices))
    ∷ [])

unfoldable pub get_tenants :
    OrgManager → AccountManager → ℤ → HttpRequest → DeviceManager → Reply DeviceManager
unfolding list_orgs extract_auth listed_tenant
get_tenants orgs accounts now req s =
    or_thrown (shown_to (list_orgs (neg 1) "" true orgs) (extract_auth orgs now req accounts))
      (λ os.
        answered
          (json_response (pos 200) (
            success (
              object (
                int_field "total" (pos (length os))
                ∷ raw_field "tenants" (array (map (listed_tenant s) os))
                ∷ []))))
          s)

abbrev pub slash : Char
slash = "/"

abbrev pub org_fields : Option OrgInfo → List String
org_fields none =
    int_field "org_id" (pos 0)
    ∷ text_field "org_name" ""
    ∷ text_field "org_type" ""
    ∷ bool_field "is_active" true
    ∷ []
org_fields (some o) =
    int_field "org_id" o.org_id
    ∷ text_field "org_name" o.org_name
    ∷ text_field "org_type" o.org_type
    ∷ int_field "parent_id" o.parent_id
    ∷ int_field "level" o.level
    ∷ text_field "path" o.path
    ∷ text_field "contact_name" o.contact_name
    ∷ text_field "contact_phone" o.contact_phone
    ∷ text_field "contact_email" o.contact_email
    ∷ text_field "address" o.address
    ∷ bool_field "is_active" o.is_active
    ∷ []

-- The devices of the tenant less the offline devices of all tenants.
unfoldable pub online_count : ℤ → String → DeviceManager → ℕ
unfolding list_devices list_offline_devices
online_count now tenant_id s = pos_part (
    sub_ℕ (length (list_devices tenant_id s)) (length (list_offline_devices now default_timeout s)))

unfoldable pub get_tenant : OrgManager → ℤ → HttpRequest → DeviceManager → Reply DeviceManager
unfolding rest_of has_char get_org_by_tenant device_count online_count
get_tenant orgs now req s = or_thrown (rest_of "/api/v1/tenants/" req) (λ tenant_id.
    if has_char slash tenant_id
    then answered (not_found req) s
    else answered
        (json_response (pos 200) (
          success (
            object (
              (text_field "tenant_id" tenant_id ∷ org_fields (get_org_by_tenant tenant_id orgs))
              ++ int_field "device_count" (pos (device_count tenant_id s))
                ∷ int_field "online_count" (pos (online_count now tenant_id s))
                ∷ []))))
        s)

unfoldable pub brief_device : Device → String
brief_device d = object (
    text_field "device_id" d.device_id
    ∷ text_field "product_id" d.product_id
    ∷ int_field "type" (pos (type_number d.device_type))
    ∷ int_field "network_status" (pos (network_number d.network_status))
    ∷ int_field "work_status" (pos (work_number d.work_status))
    ∷ text_field "firmware_version" d.firmware_version
    ∷ text_field "model" d.model
    ∷ int_field "ts" d.last_heartbeat_at
    ∷ [])

unfoldable pub get_tenant_devices : HttpRequest → DeviceManager → Reply DeviceManager
unfolding rest_of without_end list_devices brief_device
get_tenant_devices req s = elim (without_end "/devices" req.path) [
  | none ↦ answered (not_found req) s
  | some front ↦ or_thrown (between "/api/v1/tenants/" "/devices" req) (λ tenant_id.
      let devices = list_devices tenant_id s in
      answered
        (json_response (pos 200) (
          success (
            object (
              int_field "total" (pos (length devices))
              ∷ raw_field "devices" (array (map brief_device devices))
              ∷ []))))
        s)
]
