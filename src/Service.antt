-- ===== src/Service.antt =====
-- src/main.cpp: the managers of the service behind its HTTP handlers, one step for a request. Which handler
-- a request reaches is left open. An exception that leaves a handler ends the process, since the thread of
-- the connection does not catch it.

pub mod Safety
pub mod Numbers
use iot_dev_sys.Common.{String, List, [], ◌∷◌}
use iot_dev_sys.Common.Int.{ℤ}
use iot_dev_sys.Status.{StatusCode}
use iot_dev_sys.Api.{HttpRequest, HttpResponse}
use iot_dev_sys.Order.{OrderManager}
use iot_dev_sys.Recipe.{RecipeManager}
use iot_dev_sys.Org.{OrgManager}
use iot_dev_sys.Account.{AccountManager}
use iot_dev_sys.Device.{DeviceManager}
use iot_dev_sys.Fault.{FaultManager}
use iot_dev_sys.Handlers.{Reply, thrown, answered}
use iot_dev_sys.Handlers.Orders.{list_orders, order_by_id, post_order, put_order, delete_order}
use iot_dev_sys.Handlers.Recipes.{get_recipes, recipe_by_id, post_recipe, put_recipe, delete_recipe}
use iot_dev_sys.Handlers.Orgs.{get_orgs, get_tree, org_by_id, post_org, put_org, delete_org_by_id}
use iot_dev_sys.Handlers.Auth.{post_login, post_logout, get_profile}
use iot_dev_sys.Handlers.Accounts.{
  get_accounts, account_by_id, post_account, put_password, put_account, delete_account_by_id,
}
use iot_dev_sys.Handlers.Devices.{get_devices, put_tenant, delete_device}
use iot_dev_sys.Handlers.Tenants.{get_tenants, get_tenant, get_tenant_devices}
use iot_dev_sys.Handlers.Faults.{get_faults, get_active_faults, get_device_faults, put_resolve}

pub record Service (Double : Type 0) : Type 0 where
  pub orders : OrderManager
  pub recipes : RecipeManager Double
  pub orgs : OrgManager
  pub accounts : AccountManager
  pub devices : DeviceManager
  pub faults : FaultManager

-- The handlers, by the manager that they can change.
pub data OrderRoute : Type 0 where
  order_list order_get order_post order_put order_delete : OrderRoute

pub data RecipeRoute : Type 0 where
  recipe_list recipe_get recipe_post recipe_put recipe_delete : RecipeRoute

pub data OrgRoute : Type 0 where
  org_list org_tree org_get org_post org_put org_delete : OrgRoute

pub data AccountRoute : Type 0 where
  auth_login auth_logout auth_profile account_list account_get account_post account_password
        account_put account_delete :
      AccountRoute

pub data DeviceRoute : Type 0 where
  device_list device_tenant device_delete tenant_list tenant_get tenant_devices : DeviceRoute

pub data FaultRoute : Type 0 where
  fault_list fault_active fault_device fault_resolve : FaultRoute

pub data Route : Type 0 where
  order : OrderRoute → Route
  recipe : RecipeRoute → Route
  org : OrgRoute → Route
  account : AccountRoute → Route
  device : DeviceRoute → Route
  fault : FaultRoute → Route

-- A request at its handler, with the seconds of the clock, those of a second reading, and its text.
pub record Event : Type 0 where
  pub route : Route
  pub request : HttpRequest
  pub epoch : ℤ
  pub later : ℤ
  pub text : String

-- What is not in the repository: the hash of a password, the print of a `double`, and what the database
-- answers to the update of a device's tenant.
pub record World (Double : Type 0) : Type 0 where
  pub hex_hash : String → String
  pub show : Double → String
  pub update_db : String → String → StatusCode

abbrev pub within : {S T : Type 0} → (S → T) → Reply S → Reply T
within put thrown = thrown
within put (answered r s) = answered r (put s)

module _ {Double : Type 0} where
  unfoldable pub at_orders :
      String → RecipeManager Double → OrderRoute → HttpRequest → OrderManager → Reply OrderManager
  unfolding list_orders order_by_id post_order put_order delete_order
  at_orders text recipes order_list req s = answered (list_orders text recipes s req) s
  at_orders text recipes order_get req s = order_by_id req s
  at_orders text recipes order_post req s = post_order req s
  at_orders text recipes order_put req s = put_order req s
  at_orders text recipes order_delete req s = delete_order req s

  unfoldable pub at_recipes :
      (Double → String)
      → RecipeRoute
      → HttpRequest
      → RecipeManager Double
      → Reply (RecipeManager Double)
  unfolding get_recipes recipe_by_id post_recipe put_recipe delete_recipe
  at_recipes show recipe_list req s = answered (get_recipes show req s) s
  at_recipes show recipe_get req s = recipe_by_id show req s
  at_recipes show recipe_post req s = post_recipe req s
  at_recipes show recipe_put req s = put_recipe req s
  at_recipes show recipe_delete req s = delete_recipe req s

unfoldable pub at_orgs : String → OrgRoute → HttpRequest → OrgManager → Reply OrgManager
unfolding get_orgs get_tree org_by_id post_org put_org delete_org_by_id
at_orgs text org_list req s = get_orgs req s
at_orgs text org_tree req s = get_tree req s
at_orgs text org_get req s = org_by_id req s
at_orgs text org_post req s = post_org text req s
at_orgs text org_put req s = put_org text req s
at_orgs text org_delete req s = delete_org_by_id req s

unfoldable pub at_accounts :
    (String → String)
    → OrgManager
    → ℤ
    → ℤ
    → String
    → AccountRoute
    → HttpRequest
    → AccountManager
    → Reply AccountManager
unfolding post_login post_logout get_profile get_accounts account_by_id post_account put_password
    put_account delete_account_by_id
at_accounts hex_hash orgs epoch later text auth_login req s =
    post_login hex_hash epoch later text req s
at_accounts hex_hash orgs epoch later text auth_logout req s = post_logout req s
at_accounts hex_hash orgs epoch later text auth_profile req s = get_profile orgs epoch req s
at_accounts hex_hash orgs epoch later text account_list req s = answered (get_accounts req s) s
at_accounts hex_hash orgs epoch later text account_get req s = account_by_id req s
at_accounts hex_hash orgs epoch later text account_post req s =
    post_account hex_hash orgs text req s
at_accounts hex_hash orgs epoch later text account_password req s = put_password hex_hash req s
at_accounts hex_hash orgs epoch later text account_put req s = put_account text req s
at_accounts hex_hash orgs epoch later text account_delete req s = delete_account_by_id req s

unfoldable pub at_devices :
    (String → String → StatusCode)
    → OrgManager
    → AccountManager
    → ℤ
    → DeviceRoute
    → HttpRequest
    → DeviceManager
    → Reply DeviceManager
unfolding get_devices put_tenant delete_device get_tenants get_tenant get_tenant_devices
at_devices update_db orgs accounts epoch device_list req s = get_devices orgs accounts epoch req s
at_devices update_db orgs accounts epoch device_tenant req s = put_tenant update_db req s
at_devices update_db orgs accounts epoch device_delete req s = delete_device req s
at_devices update_db orgs accounts epoch tenant_list req s = get_tenants orgs accounts epoch req s
at_devices update_db orgs accounts epoch tenant_get req s = get_tenant orgs epoch req s
at_devices update_db orgs accounts epoch tenant_devices req s = get_tenant_devices req s

unfoldable pub at_faults : FaultRoute → HttpRequest → FaultManager → Reply FaultManager
unfolding get_faults get_active_faults get_device_faults put_resolve
at_faults fault_list req s = answered (get_faults req s) s
at_faults fault_active req s = answered (get_active_faults req s) s
at_faults fault_device req s = get_device_faults req s
at_faults fault_resolve req s = put_resolve req s

module _ {Double : Type 0} (w : World Double) where
  unfoldable pub dispatch : Route → Event → Service Double → Reply (Service Double)
  unfolding at_orders at_recipes at_orgs at_accounts at_devices at_faults
  dispatch (order r) e v =
      within (λ t. record v { orders = t }) (at_orders e.text v.recipes r e.request v.orders)
  dispatch (recipe r) e v =
      within (λ t. record v { recipes = t }) (at_recipes w.show r e.request v.recipes)
  dispatch (org r) e v = within (λ t. record v { orgs = t }) (at_orgs e.text r e.request v.orgs)
  dispatch (account r) e v =
      within (λ t. record v { accounts = t })
        (at_accounts w.hex_hash v.orgs e.epoch e.later e.text r e.request v.accounts)
  dispatch (device r) e v =
      within (λ t. record v { devices = t })
        (at_devices w.update_db v.orgs v.accounts e.epoch r e.request v.devices)
  dispatch (fault r) e v = within (λ t. record v { faults = t }) (at_faults r e.request v.faults)

  abbrev pub handle : Event → Service Double → Reply (Service Double)
  handle e v = dispatch e.route e v

  -- The state after the requests, or the last one before the request that ends the process.
  unfoldable pub serve : List Event → Service Double → Service Double
  unfolding dispatch
  serve [] v = v
  serve (e ∷ es) v = elim (handle e v) [ thrown ↦ v | answered r t ↦ serve es t ]
