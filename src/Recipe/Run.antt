-- ===== src/Recipe/Run.antt =====
-- Histories of calls of src/app/recipe/recipe_manager.cpp.
use iot_dev_sys.Common.{String, List, [], ◌∷◌, arith, inl, inr, Option-cases, find_if}
use iot_dev_sys.Types.Recipe.{Recipe}
use iot_dev_sys.Recipe.{RecipeManager, has_id, create_recipe, update_recipe, remove_recipe}
use iot_dev_sys.Recipe.Lookup.{AreUnique, concat-AreUnique, update-AreUnique, select-AreUnique}

pub data Call (Double : Type 0) : Type 0 where
  create update : Recipe Double → Call Double
  remove : String → Call Double

module _ {Double : Type 0} where
  unfoldable pub call : Call Double → RecipeManager Double → RecipeManager Double
  unfolding create_recipe update_recipe remove_recipe
  call (create r) s = (create_recipe r s).0
  call (update r) s = (update_recipe r s).0
  call (remove i) s = (remove_recipe i s).0

  unfoldable pub run : List (Call Double) → RecipeManager Double → RecipeManager Double
  run [] s = s
  run (c ∷ cs) s = run cs (call c s)

  pub call-AreUnique :
      (c : Call Double) (s : RecipeManager Double)
      → AreUnique s.recipes
      → AreUnique (call c s).recipes
  unfolding call
  call-AreUnique (create r) s u = ground (arith, concat-AreUnique r s.recipes)
  call-AreUnique (update r) s u = elim (Option-cases (find_if (has_id r.recipe_id) s.recipes)) [
    | inl miss ↦ ground (arith, concat-AreUnique r s.recipes)
    | inr (old, hit) ↦ ground (arith, update-AreUnique r old s.recipes)
  ]
  call-AreUnique (remove i) s u = select-AreUnique i s.recipes u

  -- Creations, updates and removals, in any order, keep the ids of the recipes distinct.
  run-AreUnique :
      (cs : List (Call Double)) (s : RecipeManager Double)
      → AreUnique s.recipes
      → AreUnique (run cs s).recipes
  unfolding run
  run-AreUnique [] s u = u
  run-AreUnique (c ∷ cs) s u = run-AreUnique cs (call c s) (call-AreUnique c s u)
