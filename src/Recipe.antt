-- ===== src/Recipe.antt =====
-- src/app/recipe/recipe_manager.{h,cpp}: the recipes in the order of their creation. `db` says whether
-- `set_database` was called. An operation returns the new state and the status code.
mod Seeds
pub mod Lookup
pub mod Run
use Seeds.{americano, latte, cappuccino, mocha, hot_water, milk_tea}
use iot_dev_sys.Common.{
  ℕ, String, Bool, not, List, [], ◌∷◌, ◌++◌, Option, none, some, ◌==◌, if◌then◌else◌, length,
  select, find_if, update_if,
}
use iot_dev_sys.Status.{StatusCode, ok, order_invalid_state, storage_read_error}
use iot_dev_sys.Types.Device.{DeviceType, other}
use iot_dev_sys.Types.Recipe.{Recipe}

pub record RecipeManager (Double : Type 0) : Type 0 where
  pub recipes : List (Recipe Double)
  pub device_type : DeviceType
  pub db : Bool

unfoldable pub new_manager : (Double : Type 0) → Bool → RecipeManager Double
new_manager Double db = record { recipes = []; device_type = other; db = db }

module _ {Double : Type 0} where
  abbrev pub has_id : String → Recipe Double → Bool
  has_id recipe_id r = r.recipe_id == recipe_id

  unfoldable pub load_recipes :
      DeviceType → RecipeManager Double → RecipeManager Double × StatusCode
  load_recipes device_type s = (record s { device_type = device_type }, ok)

  unfoldable pub sync_from_cloud : RecipeManager Double → RecipeManager Double × StatusCode
  sync_from_cloud s = (s, ok)

  unfoldable pub all_recipes : RecipeManager Double → List (Recipe Double)
  all_recipes s = s.recipes

  unfoldable pub find_by_id : String → RecipeManager Double → Option (Recipe Double)
  find_by_id recipe_id s = find_if (has_id recipe_id) s.recipes

  unfoldable pub recipe_count : RecipeManager Double → ℕ
  recipe_count s = length s.recipes

  unfoldable pub create_recipe :
      Recipe Double → RecipeManager Double → RecipeManager Double × StatusCode
  create_recipe r s = elim (find_if (has_id r.recipe_id) s.recipes) [
    | some duplicate ↦ (s, order_invalid_state)
    | none ↦ (record s { recipes = s.recipes ++ r ∷ [] }, ok)
  ]

  unfoldable pub update_recipe :
      Recipe Double → RecipeManager Double → RecipeManager Double × StatusCode
  update_recipe r s = elim (find_if (has_id r.recipe_id) s.recipes) [
    | some old ↦ (record s { recipes = update_if (has_id r.recipe_id) (λ x. r) s.recipes }, ok)
    | none ↦ (record s { recipes = s.recipes ++ r ∷ [] }, ok)
  ]

  unfoldable pub remove_recipe : String → RecipeManager Double → RecipeManager Double × StatusCode
  remove_recipe recipe_id s =
      (record s { recipes = select (λ r. not (has_id recipe_id r)) s.recipes }, ok)

  unfoldable pub seed_mock_data : (ℕ → Double) → RecipeManager Double → RecipeManager Double
  seed_mock_data double s = record s {
    recipes =
        s.recipes
        ++ americano double
          ∷ latte double
          ∷ cappuccino double
          ∷ mocha double
          ∷ hot_water double
          ∷ milk_tea double
          ∷ [];
  }

  -- `stored` is what `list_all_recipes` of the database answers.
  unfoldable pub load_from_database :
      List (Recipe Double) → RecipeManager Double → RecipeManager Double × StatusCode
  load_from_database stored s =
      if not s.db then (s, storage_read_error) else (record s { recipes = stored }, ok)
