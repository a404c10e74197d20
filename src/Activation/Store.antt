-- ===== src/Activation/Store.antt =====
-- What an activation of src/app/device/device_activation.cpp relies on of the database, whose tables stand in
-- src/middleware/storage/database.cpp.
use iot_dev_sys.Common.{◌≡◌, String, Bool, true, some}
use iot_dev_sys.Common.Int.{ℤ}
use iot_dev_sys.Types.Device.{Device}
use iot_dev_sys.Types.Activation.{DeviceModelInfo}
use iot_dev_sys.Activation.{Database, is_ok}

-- The columns that a row keeps of a device; its work status is not among them.
abbrev pub SameRow : Device → Device → Type 0
SameRow e d =
    (e.device_id ≡ d.device_id)
    × (e.tenant_id ≡ d.tenant_id)
    × (e.product_id ≡ d.product_id)
    × (e.firmware_version ≡ d.firmware_version)

module _ {S : Type 0} (db : Database S) where
  -- Two states that answer the questions about models and types alike.
  abbrev pub SameCatalog : S → S → Type 0
  SameCatalog s r =
      ((k : String) → db.get_device_model_by_key k r ≡ db.get_device_model_by_key k s)
      × ((c : String) → db.get_device_type c r ≡ db.get_device_type c s)

  -- And those about devices.
  abbrev pub SameDevices : S → S → Type 0
  SameDevices s r =
      ((u : String) → db.device_exists u r ≡ db.device_exists u s)
      × ((u : String) → db.get_device_by_hwuid u r ≡ db.get_device_by_hwuid u s)

  -- A model is stored; the build without PostgreSQL stores nothing and finds none.
  abbrev pub HasModel : S → Type 0
  HasModel s = (k : String) × (m : DeviceModelInfo) × (db.get_device_model_by_key k s ≡ some m)

  -- What the tables of the database keep: the row of a device that was inserted is found by its hardware
  -- id, which is unique, and writes of one table do not show in the others.
  pub record IsStore : Type 0 where
    pub tenant-catalog : (t : String) (s : S) → SameCatalog s (db.add_tenant t s)
    pub insert-catalog : (d : Device) (s : S) → SameCatalog s (db.insert_device d s).0
    pub insert-exists :
        (d : Device) (s : S)
        → HasModel s
        → is_ok (db.insert_device d s).1 ≡ true
        → db.device_exists d.hardware_uid (db.insert_device d s).0 ≡ true
    pub insert-found :
        (d : Device) (s : S)
        → HasModel s
        → is_ok (db.insert_device d s).1 ≡ true
        → (e : Device) × (db.get_device_by_hwuid d.hardware_uid (db.insert_device d s).0 ≡ some e)
          × SameRow e d
    pub token-catalog :
        (i t : String) (a b : ℤ) (s : S) → SameCatalog s (db.store_activation_token i t a b s)
    pub token-devices :
        (i t : String) (a b : ℤ) (s : S) → SameDevices s (db.store_activation_token i t a b s)
    pub log-catalog :
        (i u a : String) (b : Bool) (m : String) (s : S)
        → SameCatalog s (db.log_activation i u a b m s)
    pub log-devices :
        (i u a : String) (b : Bool) (m : String) (s : S)
        → SameDevices s (db.log_activation i u a b m s)
