-- ===== src/Service/Safety.antt =====
-- The invariants of the managers of src/main.cpp under any HTTP requests.
use iot_dev_sys.Common.{String, List, [], ◌∷◌}
use iot_dev_sys.Common.Int.{ℤ}
use iot_dev_sys.Status.{StatusCode}
use iot_dev_sys.Api.{HttpRequest}
use iot_dev_sys.Order.{OrderManager}
use iot_dev_sys.Order.Bounds.{IsBounded, call-IsBounded}
use iot_dev_sys.Recipe.{RecipeManager}
use iot_dev_sys.Recipe.Run.{call-AreUnique}
use iot_dev_sys.Recipe.Lookup.{AreUnique}
use iot_dev_sys.Org.{OrgManager}
use iot_dev_sys.Org.Wellformed.{IsWellformed}
use iot_dev_sys.Org.Calls.{call-IsWellformed}
use iot_dev_sys.Account.{AccountManager}
use iot_dev_sys.Account.Calls.{IsValid, next, next-Step, Step-IsValid}
use iot_dev_sys.Device.{DeviceManager}
use iot_dev_sys.Device.Consistent.{IsConsistent}
use iot_dev_sys.Device.Calls.{call-IsConsistent}
use iot_dev_sys.Fault.{FaultManager}
use iot_dev_sys.Handlers.{Reply, thrown, answered}
use iot_dev_sys.Handlers.Via.{Via, only_answered, left_by, Via-keeps}
use iot_dev_sys.Handlers.Orders.Steps.{
  next_order, order_by_id-Via, post_order-Via, put_order-Via, delete_order-Via,
}
use iot_dev_sys.Handlers.Recipes.Steps.{
  recipe_by_id-Via, post_recipe-Via, put_recipe-Via, delete_recipe-Via,
}
use iot_dev_sys.Handlers.Orgs.Steps.{
  next_org, get_orgs-Via, get_tree-Via, org_by_id-Via, post_org-Via, put_org-Via,
  delete_org_by_id-Via,
}
use iot_dev_sys.Handlers.Accounts.Steps.{
  post_login-Via, post_logout-Via, get_profile-Via, account_by_id-Via, post_account-Via,
  put_password-Via, put_account-Via, delete_account_by_id-Via,
}
use iot_dev_sys.Handlers.Devices.Steps.{get_devices-Via, put_tenant-Via, delete_device-Via}
use iot_dev_sys.Handlers.Tenants.Steps.{get_tenants-Via, get_tenant-Via, get_tenant_devices-Via}
use iot_dev_sys.Service.{
  Service, Event, Route, World, OrderRoute, RecipeRoute, OrgRoute, AccountRoute, DeviceRoute,
  at_orders, at_recipes, at_orgs, at_accounts, at_devices, at_faults, within, dispatch, serve,
  order_list, order_get, order_post, order_put, order_delete, recipe_list, recipe_get, recipe_post,
  recipe_put, recipe_delete, org_list, org_tree, org_get, org_post, org_put, org_delete, auth_login,
  auth_logout, auth_profile, account_list, account_get, account_post, account_password, account_put,
  account_delete, device_list, device_tenant, device_delete, tenant_list, tenant_get,
  tenant_devices, order, recipe, org, account, device, fault,
}
use iot_dev_sys.Recipe.Run as RecipeRun
use iot_dev_sys.Device.Calls as DeviceCalls

-- The queue of orders is bounded and the current order is being brewed, the ids of the recipes are
-- distinct, the tree of the organizations and the accounts are well formed, and the maps of the devices
-- agree with the ids in the devices.
pub record IsSafe {Double : Type 0} (v : Service Double) : Type 0 where
  pub orders : IsBounded v.orders
  pub recipes : AreUnique v.recipes.recipes
  pub orgs : IsWellformed v.orgs
  pub accounts : IsValid v.accounts
  pub devices : IsConsistent v.devices

module _ {Double : Type 0} where
  at_orders-Via :
      (text : String) (recipes : RecipeManager Double) (r : OrderRoute) (req : HttpRequest)
      (s : OrderManager)
      → Via next_order s (at_orders text recipes r req s)
  unfolding at_orders
  at_orders-Via text recipes order_list req s = only_answered _
  at_orders-Via text recipes order_get req s = order_by_id-Via req s
  at_orders-Via text recipes order_post req s = post_order-Via req s
  at_orders-Via text recipes order_put req s = put_order-Via req s
  at_orders-Via text recipes order_delete req s = delete_order-Via req s

  at_recipes-Via :
      (show : Double → String) (r : RecipeRoute) (req : HttpRequest) (s : RecipeManager Double)
      → Via RecipeRun.call s (at_recipes show r req s)
  unfolding at_recipes
  at_recipes-Via show recipe_list req s = only_answered _
  at_recipes-Via show recipe_get req s = recipe_by_id-Via show req s
  at_recipes-Via show recipe_post req s = post_recipe-Via show req s
  at_recipes-Via show recipe_put req s = put_recipe-Via show req s
  at_recipes-Via show recipe_delete req s = delete_recipe-Via show req s

at_orgs-Via :
    (text : String) (r : OrgRoute) (req : HttpRequest) (s : OrgManager)
    → Via next_org s (at_orgs text r req s)
unfolding at_orgs
at_orgs-Via text org_list req s = get_orgs-Via text req s
at_orgs-Via text org_tree req s = get_tree-Via text req s
at_orgs-Via text org_get req s = org_by_id-Via text req s
at_orgs-Via text org_post req s = post_org-Via text req s
at_orgs-Via text org_put req s = put_org-Via text req s
at_orgs-Via text org_delete req s = delete_org_by_id-Via text req s

at_accounts-Via :
    (hex_hash : String → String) (orgs : OrgManager) (epoch later : ℤ) (text : String)
    (r : AccountRoute) (req : HttpRequest) (s : AccountManager)
    → Via (next hex_hash) s (at_accounts hex_hash orgs epoch later text r req s)
unfolding at_accounts
at_accounts-Via h orgs epoch later text auth_login req s =
    post_login-Via h orgs epoch later text req s
at_accounts-Via h orgs epoch later text auth_logout req s =
    post_logout-Via h orgs epoch later text req s
at_accounts-Via h orgs epoch later text auth_profile req s =
    get_profile-Via h orgs epoch later text req s
at_accounts-Via h orgs epoch later text account_list req s = only_answered _
at_accounts-Via h orgs epoch later text account_get req s =
    account_by_id-Via h orgs epoch later text req s
at_accounts-Via h orgs epoch later text account_post req s =
    post_account-Via h orgs epoch later text req s
at_accounts-Via h orgs epoch later text account_password req s =
    put_password-Via h orgs epoch later text req s
at_accounts-Via h orgs epoch later text account_put req s =
    put_account-Via h orgs epoch later text req s
at_accounts-Via h orgs epoch later text account_delete req s =
    delete_account_by_id-Via h orgs epoch later text req s

at_devices-Via :
    (update_db : String → String → StatusCode) (orgs : OrgManager) (accounts : AccountManager)
    (epoch : ℤ) (r : DeviceRoute) (req : HttpRequest) (s : DeviceManager)
    → Via DeviceCalls.call s (at_devices update_db orgs accounts epoch r req s)
unfolding at_devices
at_devices-Via u orgs accounts epoch device_list req s = get_devices-Via u orgs accounts epoch req s
at_devices-Via u orgs accounts epoch device_tenant req s =
    put_tenant-Via u orgs accounts epoch req s
at_devices-Via u orgs accounts epoch device_delete req s =
    delete_device-Via u orgs accounts epoch req s
at_devices-Via u orgs accounts epoch tenant_list req s = get_tenants-Via orgs accounts epoch req s
at_devices-Via u orgs accounts epoch tenant_get req s = get_tenant-Via orgs accounts epoch req s
at_devices-Via u orgs accounts epoch tenant_devices req s =
    get_tenant_devices-Via orgs accounts epoch req s

module _ {Double : Type 0} (w : World Double) where
  -- A reply of a manager's handler, put into the service.
  within-IsSafe :
      {S C : Type 0} (P : S → Type 0) (step : C → S → S) (put : S → Service Double) (s : S)
      (reply : Reply S) (v : Service Double)
      → ((c : C) (t : S) → P t → P (step c t))
      → ((t : S) → P t → IsSafe (put t))
      → P s
      → IsSafe v
      → Via step s reply
      → IsSafe (left_by v (within put reply))
  within-IsSafe P step put s thrown v keep h p safe via = safe
  within-IsSafe P step put s (answered r t) v keep h p safe via =
      h t (Via-keeps P step s (answered r t) (λ c q. keep c s q) via p)

  -- One request.
  dispatch-IsSafe :
      (r : Route) (e : Event) (v : Service Double)
      → IsSafe v
      → IsSafe (left_by v (dispatch w r e v))
  unfolding dispatch
  dispatch-IsSafe (order r) e v safe =
      within-IsSafe IsBounded next_order (λ t. record v { orders = t }) v.orders _ v call-IsBounded
        (λ t p. record {
          orders = p;
          recipes = safe.recipes;
          orgs = safe.orgs;
          accounts = safe.accounts;
          devices = safe.devices;
        })
        safe.orders safe (at_orders-Via e.text v.recipes r e.request v.orders)
  dispatch-IsSafe (recipe r) e v safe =
      within-IsSafe (λ (t : RecipeManager Double). AreUnique t.recipes) RecipeRun.call
        (λ t. record v { recipes = t }) v.recipes _ v RecipeRun.call-AreUnique
        (λ t p. record {
          orders = safe.orders;
          recipes = p;
          orgs = safe.orgs;
          accounts = safe.accounts;
          devices = safe.devices;
        })
        safe.recipes safe (at_recipes-Via w.show r e.request v.recipes)
  dispatch-IsSafe (org r) e v safe =
      within-IsSafe IsWellformed next_org (λ t. record v { orgs = t }) v.orgs _ v call-IsWellformed
        (λ t p. record {
          orders = safe.orders;
          recipes = safe.recipes;
          orgs = p;
          accounts = safe.accounts;
          devices = safe.devices;
        })
        safe.orgs safe (at_orgs-Via e.text r e.request v.orgs)
  dispatch-IsSafe (account r) e v safe =
      within-IsSafe IsValid (next w.hex_hash) (λ t. record v { accounts = t }) v.accounts _ v
        (λ c t p. Step-IsValid t (next w.hex_hash c t) (next-Step w.hex_hash c t) p)
        (λ t p. record {
          orders = safe.orders;
          recipes = safe.recipes;
          orgs = safe.orgs;
          accounts = p;
          devices = safe.devices;
        })
        safe.accounts safe
        (at_accounts-Via w.hex_hash v.orgs e.epoch e.later e.text r e.request v.accounts)
  dispatch-IsSafe (device r) e v safe =
      within-IsSafe IsConsistent DeviceCalls.call (λ t. record v { devices = t }) v.devices _ v
        DeviceCalls.call-IsConsistent
        (λ t p. record {
          orders = safe.orders;
          recipes = safe.recipes;
          orgs = safe.orgs;
          accounts = safe.accounts;
          devices = p;
        })
        safe.devices safe
        (at_devices-Via w.update_db v.orgs v.accounts e.epoch r e.request v.devices)
  dispatch-IsSafe (fault r) e v safe = safe_faults (at_faults r e.request v.faults)
    where
      safe_faults :
          (reply : Reply FaultManager)
          → IsSafe (left_by v (within (λ t. record v { faults = t }) reply))
      safe_faults thrown = safe
      safe_faults (answered q t) = record {
        orders = safe.orders;
        recipes = safe.recipes;
        orgs = safe.orgs;
        accounts = safe.accounts;
        devices = safe.devices;
      }

  -- A property of the state before a request, and of every state that an answer leaves.
  reply_goes_on :
      (P : Service Double → Type 0) (v : Service Double) (reply : Reply (Service Double))
      (k : Service Double → Service Double)
      → P (left_by v reply)
      → ((t : Service Double) → P t → P (k t))
      → P (elim reply [ thrown ↦ v | answered r t ↦ k t ])
  reply_goes_on P v thrown k p h = p
  reply_goes_on P v (answered r t) k p h = h t p

  -- Whatever requests reach whatever handlers, with any paths, headers and bodies, every invariant of the
  -- managers holds after them, or after those in front of the one that ends the process, given that they
  -- held before. The queue of orders has at most its maximal depth and the current order is being brewed;
  -- no two recipes have the same id; the ids, tenants, paths and levels of the organizations fit their
  -- tree; the account ids ascend and the usernames are distinct; and a device found under a tenant and an
  -- id carries these two.
  pub serve-IsSafe : (es : List Event) (v : Service Double) → IsSafe v → IsSafe (serve w es v)
  unfolding serve
  serve-IsSafe [] v safe = safe
  serve-IsSafe (e ∷ es) v safe =
      reply_goes_on IsSafe v (dispatch w e.route e v) (λ t. serve w es t)
        (dispatch-IsSafe e.route e v safe) (λ t q. serve-IsSafe es t q)
