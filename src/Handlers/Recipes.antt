-- ===== src/Handlers/Recipes.antt =====
-- The handlers of /api/v1/recipes in src/main.cpp, over the recipe manager. `show` prints a
-- `double`. A device type without an enumerator is kept as `other`, so that 4 stands where the code prints
-- the number.
pub mod Steps
use iot_dev_sys.Common.{
  ℕ, String, Bool, true, false, not, ◌||◌, List, [], ◌∷◌, ◌++◌, map, Option, none, some, ◌==◌,
  is_empty, length, if◌then◌else◌,
}
use iot_dev_sys.Common.Int.{ℤ, pos, neg, ltb_ℤ}
use iot_dev_sys.Common.Text.{append}
use iot_dev_sys.Json.{get_string, get_int, get_bool}
use iot_dev_sys.Status.{StatusCode}
use iot_dev_sys.Types.Recipe.{Recipe, RecipeStep, CupSizeOption}
use iot_dev_sys.Recipe.{
  RecipeManager, all_recipes, find_by_id, create_recipe, update_recipe, remove_recipe,
}
use iot_dev_sys.Activation.{to_device_type}
use iot_dev_sys.Api.{HttpRequest, HttpResponse, json_response, error_response}
use iot_dev_sys.Handlers.{
  Reply, thrown, answered, rest_of, or_thrown, by_status, text_field, int_field, raw_field,
  bool_field, object, array, success,
}
use iot_dev_sys.Handlers.Devices.{type_number}
use iot_dev_sys.Org.{keep_or}

unfoldable pub cup_size : CupSizeOption → String
cup_size c =
    object (
      text_field "size" c.size ∷ int_field "price" c.price ∷ int_field "volume_ml" c.volume_ml ∷ [])

abbrev pub no_recipe : String → HttpResponse
no_recipe recipe_id = error_response (pos 404) (pos 1002) (append "Recipe not found: " recipe_id)

module _ {Double : Type 0} where
  abbrev pub params_field : (Double → String) → List (String × Double) → List String
  params_field show [] = []
  params_field show (p ∷ ps) =
      raw_field "params" (object (map (λ (e : String × Double). raw_field e.0 (show e.1)) (p ∷ ps)))
      ∷ []

  unfoldable pub step : (Double → String) → RecipeStep Double → String
  step show t = object (
      (text_field "action" t.action ∷ int_field "duration_ms" t.duration_ms ∷ [])
      ++ params_field show t.params)

  -- A recipe, in the list and alone.
  unfoldable pub recipe_body : (Double → String) → Recipe Double → String
  unfolding step cup_size
  recipe_body show r = object (
      text_field "recipe_id" r.recipe_id
      ∷ text_field "recipe_name" r.recipe_name
      ∷ int_field "device_type" (pos (type_number r.device_type))
      ∷ text_field "category" r.category
      ∷ bool_field "is_active" r.is_active
      ∷ int_field "version" r.version
      ∷ raw_field "steps" (array (map (step show) r.steps))
      ∷ raw_field "cup_sizes" (array (map cup_size r.cup_sizes))
      ∷ [])

  unfoldable pub get_recipes : (Double → String) → HttpRequest → RecipeManager Double → HttpResponse
  unfolding all_recipes recipe_body
  get_recipes show req s = json_response (pos 200) (
      success (
        object (
          int_field "total" (pos (length (all_recipes s)))
          ∷ raw_field "recipes" (array (map (recipe_body show) (all_recipes s)))
          ∷ [])))

  unfoldable pub recipe_by_id :
      (Double → String) → HttpRequest → RecipeManager Double → Reply (RecipeManager Double)
  unfolding rest_of find_by_id recipe_body
  recipe_by_id show req s = or_thrown (rest_of "/api/v1/recipes/" req) (λ recipe_id.
      elim (find_by_id recipe_id s) [
        | none ↦ answered (no_recipe recipe_id) s
        | some r ↦ answered (json_response (pos 200) (success (recipe_body show r))) s
      ])

  abbrev pub posted : HttpRequest → ℤ → ℤ → Recipe Double
  posted req device_type version = record {
    recipe_id = get_string req.body "recipe_id";
    recipe_name = get_string req.body "recipe_name";
    device_type = to_device_type device_type;
    category = get_string req.body "category";
    description = "";
    steps = [];
    cup_sizes = [];
    is_active = get_bool req.body "is_active" true;
    version = version;
  }

  -- The answer to a call of the manager.
  abbrev pub reply :
      ℤ → List String → RecipeManager Double × StatusCode → Reply (RecipeManager Double)
  reply status fields (t, sc) =
      answered (by_status sc (json_response status (success (object fields)))) t

  abbrev pub admit_recipe : Recipe Double → RecipeManager Double → Reply (RecipeManager Double)
  admit_recipe r s =
      if is_empty r.recipe_id || is_empty r.recipe_name
      then answered (error_response (pos 400) (pos 1001) "recipe_id and recipe_name are required") s
      else reply (pos 201) (text_field "recipe_id" r.recipe_id ∷ []) (create_recipe r s)

  unfoldable pub post_recipe : HttpRequest → RecipeManager Double → Reply (RecipeManager Double)
  unfolding get_int get_string get_bool create_recipe
  post_recipe req s = or_thrown (get_int req.body "device_type" (pos 4)) (λ device_type.
      or_thrown (get_int req.body "version" (pos 1))
        (λ version. admit_recipe (posted req device_type version) s))

  -- A device type is written if it is not negative.
  abbrev pub changed : HttpRequest → ℤ → Recipe Double → Recipe Double
  changed req dt r = record r {
    recipe_name = keep_or r.recipe_name (get_string req.body "recipe_name");
    category = keep_or r.category (get_string req.body "category");
    device_type = if ltb_ℤ dt (pos 0) then r.device_type else to_device_type dt;
    is_active = get_bool req.body "is_active" r.is_active;
  }

  unfoldable pub put_recipe : HttpRequest → RecipeManager Double → Reply (RecipeManager Double)
  unfolding rest_of find_by_id get_int get_string get_bool update_recipe
  put_recipe req s = or_thrown (rest_of "/api/v1/recipes/" req) (λ recipe_id.
      elim (find_by_id recipe_id s) [
        | none ↦ answered (no_recipe recipe_id) s
        | some existing ↦ or_thrown (get_int req.body "device_type" (neg 1)) (λ dt.
            reply (pos 200) (text_field "recipe_id" recipe_id ∷ [])
              (update_recipe (changed req dt existing) s))
      ])

  unfoldable pub delete_recipe : HttpRequest → RecipeManager Double → Reply (RecipeManager Double)
  unfolding rest_of remove_recipe
  delete_recipe req s = or_thrown (rest_of "/api/v1/recipes/" req) (λ recipe_id.
      reply (pos 200) (text_field "recipe_id" recipe_id ∷ raw_field "deleted" "true" ∷ [])
        (remove_recipe recipe_id s))
