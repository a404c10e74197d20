-- ===== src/Catalog.antt =====
-- src/app/device/device_type_manager.{h,cpp}: the types and models of devices in the database, whose
-- operations run SQL on an external engine: they are the record `Store` over the states `S` of the engine.
pub mod Typed
use iot_dev_sys.Common.{
  String, Bool, true, false, not, ◌||◌, List, [], ◌∷◌, Option, none, some, ◌==◌, is_empty, is_some,
  if◌then◌else◌,
}
use iot_dev_sys.Status.{StatusCode, error, dev_already_active, recipe_not_found, org_has_devices}
use iot_dev_sys.Types.Activation.{DeviceTypeInfo, DeviceModelInfo}

-- The operations of src/middleware/storage/database.h on types and models.
pub record Store (S : Type 0) : Type 0 where
  pub list_device_types : Bool → S → List DeviceTypeInfo
  pub get_device_type : String → S → Option DeviceTypeInfo
  pub insert_device_type : DeviceTypeInfo → S → S × StatusCode
  pub update_device_type : DeviceTypeInfo → S → S × StatusCode
  pub delete_device_type : String → S → S × StatusCode
  pub list_device_models : String → Bool → S → List DeviceModelInfo
  pub get_device_model : String → S → Option DeviceModelInfo
  pub insert_device_model : DeviceModelInfo → S → S × StatusCode
  pub update_device_model : DeviceModelInfo → S → S × StatusCode
  pub delete_device_model : String → S → S × StatusCode

abbrev pub no_models : List DeviceModelInfo → Bool
no_models [] = true
no_models (m ∷ ms) = false

module _ {S : Type 0} (db : Store S) where
  unfoldable pub list_types : Bool → S → List DeviceTypeInfo
  list_types active_only s = db.list_device_types active_only s

  unfoldable pub get_type : String → S → Option DeviceTypeInfo
  get_type type_code s = db.get_device_type type_code s

  unfoldable pub type_exists : String → S → Bool
  type_exists type_code s = is_some (db.get_device_type type_code s)

  unfoldable pub model_exists : String → S → Bool
  model_exists model_code s = is_some (db.get_device_model model_code s)

  unfoldable pub create_type : DeviceTypeInfo → S → S × StatusCode
  create_type info s =
      if is_empty info.type_code || is_empty info.display_name
      then (s, error)
      else if type_exists info.type_code s
      then (s, dev_already_active)
      else db.insert_device_type info s

  unfoldable pub update_type : String → DeviceTypeInfo → S → S × StatusCode
  update_type type_code info s =
      if not (type_exists type_code s) then (s, recipe_not_found) else db.update_device_type info s

  unfoldable pub delete_type : String → S → S × StatusCode
  delete_type type_code s =
      if type_code == "other"
      then (s, error)
      else if not (no_models (db.list_device_models type_code true s))
      then (s, org_has_devices)
      else db.delete_device_type type_code s

  unfoldable pub list_models : String → Bool → S → List DeviceModelInfo
  list_models type_code active_only s = db.list_device_models type_code active_only s

  unfoldable pub get_model : String → S → Option DeviceModelInfo
  get_model model_code s = db.get_device_model model_code s

  unfoldable pub create_model : DeviceModelInfo → S → S × StatusCode
  create_model info s =
      if is_empty info.model_code || is_empty info.display_name || is_empty info.type_code
      then (s, error)
      else if not (type_exists info.type_code s)
      then (s, recipe_not_found)
      else if model_exists info.model_code s
      then (s, dev_already_active)
      else db.insert_device_model info s

  unfoldable pub update_model : String → DeviceModelInfo → S → S × StatusCode
  update_model model_code info s =
      if not (model_exists model_code s)
      then (s, recipe_not_found)
      else if not (type_exists info.type_code s)
      then (s, recipe_not_found)
      else db.update_device_model info s

  unfoldable pub delete_model : String → S → S × StatusCode
  delete_model model_code s = db.delete_device_model model_code s
