-- ===== src/Recipe/Lookup.antt =====
-- The recipes of src/app/recipe/recipe_manager.cpp as a map from ids, and the uniqueness of the ids.
use iot_dev_sys.Common.{
  ◌≡◌, ◌↔◌, refl, String, not, List, [], ◌∷◌, ◌++◌, none, some, arith, ◌==◌, text_iff,
  if◌then◌else◌, inl, inr, Option-cases, select, find_if, update_if, is_some,
}
use iot_dev_sys.Status.{ok}
use iot_dev_sys.Types.Recipe.{Recipe}
use iot_dev_sys.Recipe.{
  RecipeManager, has_id, find_by_id, create_recipe, update_recipe, remove_recipe,
}

module _ {Double : Type 0} where
  find-concat :
      (i : String) (r : Recipe Double) (rs : List (Recipe Double))
      → find_if (has_id r.recipe_id) rs ≡ none
      → find_if (has_id i) (rs ++ r ∷ [])
        ≡ (if r.recipe_id == i then some r else find_if (has_id i) rs)
  unfolding find_if
  find-concat i r [] e = refl
  find-concat i r (x ∷ rs) e = ground (
    arith,
    find-concat i r rs,
    text_iff r.recipe_id i,
    text_iff x.recipe_id i,
    text_iff x.recipe_id r.recipe_id,
  )

  find-update :
      (i : String) (r old : Recipe Double) (rs : List (Recipe Double))
      → find_if (has_id r.recipe_id) rs ≡ some old
      → find_if (has_id i) (update_if (has_id r.recipe_id) (λ x. r) rs)
        ≡ (if r.recipe_id == i then some r else find_if (has_id i) rs)
  unfolding find_if update_if
  find-update i r old [] e = cc
  find-update i r old (x ∷ rs) e = ground (
    arith,
    find-update i r old rs,
    text_iff r.recipe_id i,
    text_iff x.recipe_id i,
    text_iff x.recipe_id r.recipe_id,
  )

  find-select :
      (i j : String) (rs : List (Recipe Double))
      → find_if (has_id i) (select (λ r. not (has_id j r)) rs)
        ≡ (if j == i then none else find_if (has_id i) rs)
  unfolding find_if select
  find-select i j [] = ground arith
  find-select i j (x ∷ rs) =
      ground
        (arith, find-select i j rs, text_iff j i, text_iff x.recipe_id i, text_iff x.recipe_id j)

  -- Creation answers OK exactly when the id is new; the recipe is then found under its id, and what
  -- is found under any other id is unchanged.
  create_recipe-find :
      (r : Recipe Double) (i : String) (s : RecipeManager Double)
      → (((create_recipe r s).1 ≡ ok) ↔ (find_by_id r.recipe_id s ≡ none))
        × (find_by_id i (create_recipe r s).0 ≡ (
            if is_some (find_by_id r.recipe_id s)
            then find_by_id i s
            else if r.recipe_id == i
            then some r
            else find_by_id i s))
  unfolding create_recipe find_by_id
  create_recipe-find r i s = (ground arith, ground (arith, find-concat i r s.recipes))

  -- An update stores the recipe under its id, whether or not the id was there, and changes nothing
  -- under any other id.
  update_recipe-find :
      (r : Recipe Double) (i : String) (s : RecipeManager Double)
      → find_by_id i (update_recipe r s).0 ≡ (if r.recipe_id == i then some r else find_by_id i s)
  unfolding update_recipe find_by_id
  update_recipe-find r i s = elim (Option-cases (find_if (has_id r.recipe_id) s.recipes)) [
    | inl miss ↦ ground (arith, find-concat i r s.recipes)
    | inr (old, hit) ↦ ground (arith, find-update i r old s.recipes)
  ]

  -- A removal leaves no recipe under the id, and changes nothing under any other id.
  remove_recipe-find :
      (j i : String) (s : RecipeManager Double)
      → find_by_id i (remove_recipe j s).0 ≡ (if j == i then none else find_by_id i s)
  unfolding remove_recipe find_by_id
  remove_recipe-find j i s = find-select i j s.recipes

  -- No two recipes have one id.
  abbrev pub AreUnique : List (Recipe Double) → Type 0
  AreUnique [] = Unit
  AreUnique (r ∷ rs) = (find_if (has_id r.recipe_id) rs ≡ none) × AreUnique rs

  pub concat-AreUnique :
      (r : Recipe Double) (rs : List (Recipe Double))
      → find_if (has_id r.recipe_id) rs ≡ none
      → AreUnique rs
      → AreUnique (rs ++ r ∷ [])
  unfolding find_if
  concat-AreUnique r [] e u = (refl, tt)
  concat-AreUnique r (x ∷ rs) e u = ground (
    arith,
    concat-AreUnique r rs,
    find-concat x.recipe_id r rs,
    text_iff r.recipe_id x.recipe_id,
    text_iff x.recipe_id r.recipe_id,
  )

  pub update-AreUnique :
      (r old : Recipe Double) (rs : List (Recipe Double))
      → find_if (has_id r.recipe_id) rs ≡ some old
      → AreUnique rs
      → AreUnique (update_if (has_id r.recipe_id) (λ x. r) rs)
  unfolding find_if update_if
  update-AreUnique r old [] e u = tt
  update-AreUnique r old (x ∷ rs) e u = ground (
    arith,
    update-AreUnique r old rs,
    find-update x.recipe_id r old rs,
    text_iff x.recipe_id r.recipe_id,
    text_iff r.recipe_id x.recipe_id,
  )

  pub select-AreUnique :
      (j : String) (rs : List (Recipe Double))
      → AreUnique rs
      → AreUnique (select (λ r. not (has_id j r)) rs)
  unfolding select
  select-AreUnique j [] u = tt
  select-AreUnique j (x ∷ rs) u =
      ground (arith, select-AreUnique j rs, find-select x.recipe_id j rs)
