-- ===== src/Handlers/Recipes/Steps.antt =====
-- Each handler of /api/v1/recipes in src/main.cpp makes at most one call of the recipe manager.
use iot_dev_sys.Handlers.{rest_of}
use iot_dev_sys.Handlers.Via.{Via, only_answered, made, Via-or_thrown, Via-option, Via-if}
use iot_dev_sys.Api.{HttpRequest}
use iot_dev_sys.Common.{String}
use iot_dev_sys.Common.Int.{pos, neg}
use iot_dev_sys.Json.{get_int}
use iot_dev_sys.Recipe.Run
use iot_dev_sys.Recipe.{RecipeManager, find_by_id}
use iot_dev_sys.Handlers.Recipes.{
  recipe_by_id, post_recipe, put_recipe, delete_recipe, posted, changed,
}

module _ {Double : Type 0} (show : Double → String) (req : HttpRequest)
    (s : RecipeManager Double) where
  pub recipe_by_id-Via : Via Run.call s (recipe_by_id show req s)
  unfolding recipe_by_id
  recipe_by_id-Via =
      Via-or_thrown Run.call s (rest_of "/api/v1/recipes/" req) _
        (λ i. Via-option Run.call s (find_by_id i s) _ _ (only_answered _) (λ r. only_answered _))

  pub post_recipe-Via : Via Run.call s (post_recipe req s)
  unfolding post_recipe Run.call
  post_recipe-Via = Via-or_thrown Run.call s (get_int req.body "device_type" (pos 4)) _ (λ d.
      Via-or_thrown Run.call s (get_int req.body "version" (pos 1)) _
        (λ n. Via-if Run.call s _ _ _ (only_answered _) (made _ (Run.create (posted req d n)))))

  pub put_recipe-Via : Via Run.call s (put_recipe req s)
  unfolding put_recipe Run.call
  put_recipe-Via = Via-or_thrown Run.call s (rest_of "/api/v1/recipes/" req) _ (λ i.
      Via-option Run.call s (find_by_id i s) _ _ (only_answered _) (λ r.
        Via-or_thrown Run.call s (get_int req.body "device_type" (neg 1)) _
          (λ d. made _ (Run.update (changed req d r)))))

  pub delete_recipe-Via : Via Run.call s (delete_recipe req s)
  unfolding delete_recipe Run.call
  delete_recipe-Via =
      Via-or_thrown Run.call s (rest_of "/api/v1/recipes/" req) _ (λ i. made _ (Run.remove i))
