-- ===== src/Types/Recipe.antt =====
-- include/dev_sys/common/types.h: recipes. The `double` values of a step's parameters are a parameter
-- of the types, and the map of a step is the list of its entries.
use iot_dev_sys.Common.{String, Bool, List}
use iot_dev_sys.Common.Int.{ℤ}
use iot_dev_sys.Types.Device.{DeviceType}

pub record RecipeStep (Double : Type 0) : Type 0 where
  pub action : String
  pub duration_ms : ℤ
  pub params : List (String × Double)

pub record CupSizeOption : Type 0 where
  pub size : String
  pub price : ℤ
  pub volume_ml : ℤ

pub record Recipe (Double : Type 0) : Type 0 where
  pub recipe_id : String
  pub recipe_name : String
  pub device_type : DeviceType
  pub category : String
  pub description : String
  pub steps : List (RecipeStep Double)
  pub cup_sizes : List CupSizeOption
  pub is_active : Bool
  pub version : ℤ
