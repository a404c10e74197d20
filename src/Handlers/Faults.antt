-- ===== src/Handlers/Faults.antt =====
-- The handlers of /api/v1/faults in src/main.cpp, over the fault manager.
use Prim.Native.Char.{code}
use iot_dev_sys.Common.{
  ℕ, String, Bool, true, false, not, ◌&&◌, ◌||◌, List, [], ◌∷◌, ◌++◌, map, none, some, ◌==◌,
  is_empty, length, nat_eq, if◌then◌else◌,
}
use iot_dev_sys.Common.Int.{pos, int_eq}
use iot_dev_sys.Json.{get_string, get_int, after, is_digit}
use iot_dev_sys.Types.Fault.{FaultInfo, FaultLevel, warning, error}
use iot_dev_sys.Fault.{
  FaultManager, all_faults, active, faults_by_device, resolve_fault, to_fault_code,
}
use iot_dev_sys.Status.{StatusCode}
use iot_dev_sys.Api.{HttpRequest, HttpResponse, json_response, error_response}
use iot_dev_sys.Handlers.{
  Reply, answered, rest_of, or_thrown, by_status, text_field, int_field, raw_field, object, array,
  success,
}
use iot_dev_sys.Handlers.Orgs.{up_to_amp}

abbrev pub level_number : FaultLevel → ℕ
level_number warning = 0
level_number error = 1

-- There is no character but digits.
unfoldable pub all_digits : String → Bool
all_digits String.[] = true
all_digits (String.◌∷◌ c s) = is_digit c && all_digits s

-- The time, or 0 if it is no number.
abbrev pub time_or_zero : FaultInfo → String
time_or_zero f = if is_empty f.timestamp || not (all_digits f.timestamp) then "0" else f.timestamp

-- In the lists of the active faults and of a device the text `f` is tested as well.
abbrev pub time_or_zero_f : FaultInfo → String
time_or_zero_f f =
    if is_empty f.timestamp || f.timestamp == "f" || not (all_digits f.timestamp)
    then "0"
    else f.timestamp

abbrev pub is_json : String → Bool
is_json String.[] = false
is_json (String.◌∷◌ c s) = nat_eq (code c) b'{' || nat_eq (code c) b'['

abbrev pub kind_fields : FaultInfo → List String
kind_fields f =
    int_field "code" (pos f.code)
    ∷ int_field "level" (pos (level_number f.level))
    ∷ text_field "description" f.description
    ∷ []

unfoldable pub full_fault : FaultInfo → String
unfolding all_digits
full_fault f = object (
    (text_field "tenant_id" f.tenant_id ∷ text_field "device_id" f.device_id ∷ kind_fields f)
    ++ raw_field "ts" (time_or_zero f)
      ∷ raw_field "sensor_snapshot"
          (if is_json f.sensor_snapshot then f.sensor_snapshot else "null")
      ∷ [])

unfoldable pub active_fault : FaultInfo → String
unfolding all_digits
active_fault f = object (
    (text_field "tenant_id" f.tenant_id ∷ text_field "device_id" f.device_id ∷ kind_fields f)
    ++ raw_field "ts" (time_or_zero_f f) ∷ [])

unfoldable pub brief_fault : FaultInfo → String
unfolding all_digits
brief_fault f = object (kind_fields f ++ raw_field "ts" (time_or_zero_f f) ∷ [])

abbrev pub fault_list : (FaultInfo → String) → List FaultInfo → HttpResponse
fault_list show faults = json_response (pos 200) (
    success (
      object (
        int_field "total" (pos (length faults))
        ∷ raw_field "faults" (array (map show faults))
        ∷ [])))

unfoldable pub get_faults : HttpRequest → FaultManager → HttpResponse
unfolding all_faults full_fault
get_faults req s = fault_list full_fault (all_faults s)

unfoldable pub get_active_faults : HttpRequest → FaultManager → HttpResponse
unfolding active active_fault
get_active_faults req s = fault_list active_fault (active s)

-- The tenant in the query, or the default one.
abbrev pub queried_tenant : HttpRequest → String
queried_tenant req = elim (after "tenant_id=" req.query) [ none ↦ "default" | some t ↦ up_to_amp t ]

unfoldable pub get_device_faults : HttpRequest → FaultManager → Reply FaultManager
unfolding rest_of after faults_by_device brief_fault
get_device_faults req s = or_thrown (rest_of "/api/v1/faults/" req) (λ device_id.
    answered (fault_list brief_fault (faults_by_device (queried_tenant req) device_id s)) s)

abbrev pub default_tenant : String → String
default_tenant t = if is_empty t then "default" else t

abbrev pub resolved : FaultManager × StatusCode → Reply FaultManager
resolved (t, sc) =
    answered
      (by_status sc (json_response (pos 200) (success (object (raw_field "resolved" "true" ∷ [])))))
      t

unfoldable pub put_resolve : HttpRequest → FaultManager → Reply FaultManager
unfolding get_string get_int resolve_fault to_fault_code
put_resolve req s = or_thrown (get_int req.body "code" (pos 0)) (λ code_int.
    let device_id = get_string req.body "device_id" in
    if is_empty device_id || int_eq code_int (pos 0)
    then answered
        (error_response (pos 400) (pos 1001) "tenant_id, device_id, and code are required") s
    else resolved (
        resolve_fault (default_tenant (get_string req.body "tenant_id")) device_id
          (to_fault_code code_int) s))
