-- ===== src/Handlers/Devices.antt =====
-- The handlers of /api/v1/devices in src/main.cpp. What the database answers to the
-- statement that updates a device is a parameter; `now` is the seconds of the clock.
pub mod Steps
pub mod Scope
use Prim.Native.Char.{Char}
use iot_dev_sys.Common.{
  ℕ, String, Bool, true, false, not, List, [], ◌∷◌, ◌++◌, map, Option, none, some, ◌==◌, is_empty,
  is_some, length, if◌then◌else◌, find_if, select, any,
}
use iot_dev_sys.Common.Int.{ℤ, pos, neg, int_eq, sub_ℕ, pos_part}
use iot_dev_sys.Common.Text.{append}
use iot_dev_sys.Json.{get_string, strip, has_char}
use iot_dev_sys.Json.Numbers.{to_string}
use iot_dev_sys.Status.{StatusCode}
use iot_dev_sys.Types.Device.{
  Device, DeviceType, NetworkStatus, WorkStatus, coffee_machine, instant_machine, water_dispenser,
  other, online, offline, idle, brewing, fault, upgrading, maintenance,
}
use iot_dev_sys.Types.Org.{OrgInfo}
use iot_dev_sys.Types.Account.{TokenPayload}
use iot_dev_sys.Device.{
  DeviceManager, Outcome, list_all_devices, list_devices, list_offline_devices, default_timeout,
  device_count, migrate_device, remove_device,
}
use iot_dev_sys.Org.{OrgManager, get_org, get_org_by_tenant, list_orgs}
use iot_dev_sys.Account.{AccountManager, Verdict, refused, granted}
use iot_dev_sys.Activation.{is_ok}
use iot_dev_sys.Api.{HttpRequest, HttpResponse, json_response, error_response}
use iot_dev_sys.Handlers.{
  Reply, thrown, answered, rest_of, or_thrown, text_field, int_field, raw_field, bool_field, object,
  array, success,
}
use iot_dev_sys.Handlers.Auth.{extract_auth}
use iot_dev_sys.Handlers.Accounts.{without_end, between, not_found}

abbrev pub type_number : DeviceType → ℕ
type_number coffee_machine = 1
type_number instant_machine = 2
type_number water_dispenser = 3
type_number other = 4

abbrev pub network_number : NetworkStatus → ℕ
network_number online = 0
network_number offline = 1

abbrev pub work_number : WorkStatus → ℕ
work_number idle = 0
work_number brewing = 1
work_number fault = 2
work_number upgrading = 3
work_number maintenance = 4

unfoldable pub listed_device : Device → String
listed_device d = object (
    text_field "device_id" d.device_id
    ∷ text_field "tenant_id" d.tenant_id
    ∷ text_field "product_id" d.product_id
    ∷ text_field "model" d.model
    ∷ text_field "hardware_uid" d.hardware_uid
    ∷ text_field "firmware_version" d.firmware_version
    ∷ int_field "type" (pos (type_number d.device_type))
    ∷ int_field "network_status" (pos (network_number d.network_status))
    ∷ int_field "work_status" (pos (work_number d.work_status))
    ∷ bool_field "activated" d.activated
    ∷ int_field "ts" d.last_heartbeat_at
    ∷ int_field "activated_at" d.activated_at
    ∷ [])

-- The tenants of the organizations of a scope.
unfoldable pub tenants_of : OrgManager → List ℤ → List String
unfolding get_org
tenants_of orgs [] = []
tenants_of orgs (oid ∷ oids) =
    let rest = tenants_of orgs oids in
    elim (get_org oid orgs) [ none ↦ rest | some o ↦ o.tenant_id ∷ rest ]

abbrev pub has_tenant : List String → Device → Bool
has_tenant vt d = any (λ (t : String). t == d.tenant_id) vt

-- What is left of the devices after the filter: without a valid token, or with one of a super admin, all.
abbrev pub visible_to : OrgManager → TokenPayload → List Device → List Device
visible_to orgs tp devices =
    if not (tp.role_code == "super_admin")
    then select (has_tenant (tenants_of orgs tp.org_scope)) devices
    else devices

abbrev pub visible : OrgManager → List Device → Verdict → Option (List Device)
visible orgs devices Verdict.thrown = none
visible orgs devices refused = some devices
visible orgs devices (granted tp) = some (visible_to orgs tp devices)

unfoldable pub shown_devices :
    OrgManager → AccountManager → ℤ → HttpRequest → DeviceManager → Option (List Device)
unfolding list_all_devices extract_auth tenants_of
shown_devices orgs accounts now req s =
    visible orgs (list_all_devices s) (extract_auth orgs now req accounts)

abbrev pub device_list : List Device → HttpResponse
device_list devices = json_response (pos 200) (
    success (
      object (
        int_field "total" (pos (length devices))
        ∷ raw_field "devices" (array (map listed_device devices))
        ∷ [])))

unfoldable pub get_devices :
    OrgManager → AccountManager → ℤ → HttpRequest → DeviceManager → Reply DeviceManager
unfolding shown_devices listed_device
get_devices orgs accounts now req s =
    or_thrown (shown_devices orgs accounts now req s) (λ devices. answered (device_list devices) s)

-- The text in front of the last occurrence.
unfoldable pub before_last : String → String → Option String
unfolding strip
before_last p String.[] = if is_some (strip p "") then some "" else none
before_last p (String.◌∷◌ c s) = elim (before_last p s) [
  | some t ↦ some (String.◌∷◌ c t)
  | none ↦ if is_some (strip p (String.◌∷◌ c s)) then some "" else none
]

abbrev pub no_device : String → HttpResponse
no_device device_id = error_response (pos 404) (pos 1002) (append "Device not found: " device_id)

abbrev pub migrated : StatusCode → String → String → Outcome → Reply DeviceManager
migrated updated device_id new_tenant out =
    if not (is_ok out.status)
    then answered (no_device device_id) out.state
    else if not (is_ok updated)
    then answered (error_response (pos 500) (pos 2000) "Database update failed") out.state
    else answered
        (json_response (pos 200) (
          success
            (object (text_field "device_id" device_id ∷ text_field "tenant_id" new_tenant ∷ []))))
        out.state

unfoldable pub put_tenant :
    (String → String → StatusCode) → HttpRequest → DeviceManager → Reply DeviceManager
unfolding rest_of before_last get_string migrate_device
put_tenant update_db req s = or_thrown (rest_of "/api/v1/devices/" req) (λ rest.
    elim (before_last "/tenant" rest) [
      | none ↦ answered (error_response (pos 404) (pos 1002) "Not found") s
      | some device_id ↦
          let new_tenant = get_string req.body "tenant_id" in
          if is_empty new_tenant
          then answered (error_response (pos 400) (pos 1001) "tenant_id is required") s
          else migrated (update_db device_id new_tenant) device_id new_tenant
              (migrate_device device_id new_tenant s)
    ])

abbrev pub tenant_of : Option Device → String
tenant_of none = ""
tenant_of (some d) = d.tenant_id

abbrev pub removed : String → String → DeviceManager → Reply DeviceManager
removed did tid s =
    if is_empty tid
    then answered (no_device did) s
    else answered
        (json_response (pos 200)
          (success (object (text_field "device_id" did ∷ raw_field "deleted" "true" ∷ []))))
        (remove_device tid did s).state

unfoldable pub delete_device : HttpRequest → DeviceManager → Reply DeviceManager
unfolding rest_of list_all_devices remove_device
delete_device req s = or_thrown (rest_of "/api/v1/devices/" req) (λ did.
    removed did (tenant_of (find_if (λ (d : Device). d.device_id == did) (list_all_devices s))) s)
