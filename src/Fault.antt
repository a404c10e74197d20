-- ===== src/Fault.antt =====
-- src/app/fault/fault_detector.{h,cpp}: the faults that are not resolved. `alert_cb` says whether an alert
-- callback is set, `db` whether `set_database` was called; calls of the callback and of
-- `insert_fault` are listed in the outcome of `add_fault`.
mod Seeds
pub mod Resolve
use Seeds.{pump_flow, beans_low, heartbeats_missed, tray_leak}
use iot_dev_sys.Common.Int.{ℤ, pos, negsuc}
use iot_dev_sys.Common.{
  ℕ, ◌-◌, ◌%◌, String, Bool, true, false, not, ◌&&◌, List, [], ◌∷◌, ◌++◌, Option, none, some, ◌==◌,
  nat_eq, if◌then◌else◌, any, select, find_if, erase_if,
}
use iot_dev_sys.Status.{StatusCode, ok, order_not_found, storage_read_error}
use iot_dev_sys.Types.Fault.{FaultInfo, FaultCode, FaultLevel, warning, error, new_fault}
use iot_dev_sys.Json.{get_int, get_string}
use iot_dev_sys.Json.Numbers.{to_string}

pub record FaultManager : Type 0 where
  pub active_faults : List FaultInfo
  pub alert_cb : Bool
  pub db : Bool

pub record Added : Type 0 where
  pub state : FaultManager
  pub alerted : List FaultInfo
  pub inserted : List FaultInfo

abbrev pub is_error : FaultLevel → Bool
is_error warning = false
is_error error = true

unfoldable pub add_fault : FaultInfo → FaultManager → Added
add_fault f s = record {
  state = record s { active_faults = s.active_faults ++ f ∷ [] };
  alerted = if is_error f.level && s.alert_cb then f ∷ [] else [];
  inserted = if s.db then f ∷ [] else [];
}

-- The numeric value of the cast of an `int` to the `uint8_t` of `FaultCode`.
unfoldable pub to_fault_code : ℤ → FaultCode
to_fault_code (pos n) = n % 256
to_fault_code (negsuc n) = 255 - n % 256

-- The fault that a payload reports; an exception of `std::stoi` is none.
unfoldable pub read_fault : String → String → String → Option FaultInfo
unfolding to_fault_code new_fault
read_fault tenant_id device_id payload = elim (get_int payload "fault_code" (pos 0)) [
  | none ↦ none
  | some fault_code ↦ elim (get_int payload "ts" (pos 0)) [
    | none ↦ none
    | some ts ↦ some (record new_fault {
      tenant_id = tenant_id;
      device_id = device_id;
      code = to_fault_code fault_code;
      level = if get_string payload "level" == "error" then error else warning;
      description = get_string payload "description";
      timestamp = to_string ts;
    })
  ]
]

unfoldable pub on_fault_event : String → String → String → FaultManager → Option Added
on_fault_event tenant_id device_id payload s = elim (read_fault tenant_id device_id payload) [
  | none ↦ none
  | some f ↦ some (add_fault f s)
]

unfoldable pub active : FaultManager → List FaultInfo
active s = s.active_faults

unfoldable pub all_faults : FaultManager → List FaultInfo
all_faults s = s.active_faults

abbrev pub of_device : String → String → FaultInfo → Bool
of_device tenant_id device_id f = f.tenant_id == tenant_id && f.device_id == device_id

unfoldable pub faults_by_device : String → String → FaultManager → List FaultInfo
faults_by_device tenant_id device_id s = select (of_device tenant_id device_id) s.active_faults

abbrev pub is_fault : String → String → FaultCode → FaultInfo → Bool
is_fault tenant_id device_id code f = of_device tenant_id device_id f && nat_eq f.code code

unfoldable pub resolve_fault :
    String → String → FaultCode → FaultManager → FaultManager × StatusCode
resolve_fault tenant_id device_id code s =
    elim (find_if (is_fault tenant_id device_id code) s.active_faults) [
      | none ↦ (s, order_not_found)
      | some f ↦ (
        record s { active_faults = erase_if (is_fault tenant_id device_id code) s.active_faults },
        ok,
      )
    ]

unfoldable pub seed_mock_data : FaultManager → FaultManager
seed_mock_data s = record s {
  active_faults = s.active_faults ++ pump_flow ∷ beans_low ∷ heartbeats_missed ∷ tray_leak ∷ [];
}

-- `stored` is what `list_active_faults` of the database answers.
unfoldable pub load_from_database : List FaultInfo → FaultManager → FaultManager × StatusCode
load_from_database stored s =
    if not s.db then (s, storage_read_error) else (record s { active_faults = stored }, ok)

unfoldable pub reassign : List String → String → List FaultInfo → List FaultInfo
reassign valid_ids target [] = []
reassign valid_ids target (f ∷ fs) =
    (if any (λ i. i == f.device_id) valid_ids then f else record f { device_id = target })
    ∷ reassign valid_ids target fs

unfoldable pub reassign_unknown_devices : List String → String → FaultManager → FaultManager
unfolding reassign
reassign_unknown_devices valid_ids target s = record s {
  active_faults = reassign valid_ids target s.active_faults;
}
