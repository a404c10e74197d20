-- ===== src/Examples/Service.antt =====
-- Requests to the handlers of src/main.cpp.
use iot_dev_sys.Common.{
  ◌≡◌, ◌↔◌, refl, String, true, false, [], ◌∷◌, List, some, arith, find_if, ◌==◌, any, length,
}
use iot_dev_sys.Common.Int.{pos, ◌+ℤ◌}
use iot_dev_sys.Common.Text.{append, lacks, concat}
use iot_dev_sys.Json.{get_string, stoi, stoll}
use iot_dev_sys.Json.Numbers.{to_string}
use iot_dev_sys.Types.Org.{new_org}
use iot_dev_sys.Types.Account.{AccountInfo, new_account}
use iot_dev_sys.Order
use iot_dev_sys.Order.{OrderManager}
use iot_dev_sys.Recipe
use iot_dev_sys.Recipe.{RecipeManager}
use iot_dev_sys.Org.{OrgManager, new_manager, org_exists, get_org_scope}
use iot_dev_sys.Org.Calls.{new_manager-IsWellformed}
use iot_dev_sys.Account
use iot_dev_sys.Account.Calls as AccountCalls
use iot_dev_sys.Account.{
  AccountManager, granted, payload_of, lifetime, hidden, logged_in, hash_password,
  get_account_by_username, get_account, login, create_account, generate_token, verify_token,
  read_payload, admit, colon_split,
}
use iot_dev_sys.Api.{HttpRequest, json_response}
use iot_dev_sys.Handlers.{answered, success, commas}
use iot_dev_sys.Handlers.Auth.{
  bearer, profile_body, get_profile, post_login, extract_auth, login_body,
}
use iot_dev_sys.Handlers.Auth.Session.{login_response, after_login, post_login-get_profile}
use iot_dev_sys.Json.{get_int, after, seek, strip, until, search_for, numeral}
use iot_dev_sys.Service.{at_orgs, at_orders}
use iot_dev_sys.Handlers.Orgs.{post_org}
use iot_dev_sys.Handlers.Orders.{post_order}
use iot_dev_sys.Org.{create_org, create_under, get_org, tenant_exists}
use iot_dev_sys.Types.Order.{new_order}
use iot_dev_sys.Handlers.Orgs.{get_orgs, org_list}
use iot_dev_sys.Handlers.Orgs.Filters.{get_orgs_unfiltered}
use iot_dev_sys.Service.{
  Service, Event, World, dispatch, serve, org, order, order_post, org_post, org_delete,
}
use iot_dev_sys.Service.Safety.{IsSafe, serve-IsSafe}
use iot_dev_sys.Status.{ok}
use iot_dev_sys.Types.Device.{Device, new_device}
use iot_dev_sys.Device.{DeviceManager, list_all_devices}
use iot_dev_sys.Handlers.Devices.{shown_devices}
use iot_dev_sys.Handlers.Devices.Scope.{IsIn, InScope, shown_devices-InScope}
use iot_dev_sys.Device.Calls.{empty-IsConsistent}

abbrev asked : String → String → String → HttpRequest
asked method path body = record {
  method = method;
  path = path;
  query = "";
  body = body;
  headers = [];
  remote_ip = "";
}

abbrev reversed : String → String
reversed password = append "h" password

abbrev firm : OrgManager
firm = record {
  orgs = record new_org { org_id = pos 1; tenant_id = "company"; path = "/1" } ∷ [];
  next_id = pos 2;
  db = false;
}

abbrev filtered : HttpRequest
filtered = record (asked "GET" "/api/v1/orgs" "") { query = "parent_id=7" }

get_orgs_unfiltered_example : get_orgs filtered firm ≡ answered (org_list firm.orgs) firm
unfolding lacks
get_orgs_unfiltered_example = get_orgs_unfiltered filtered firm refl

abbrev world : World String
world = record { hex_hash = reversed; show = λ d. d; update_db = λ d t. ok }

abbrev empty_service : Service String
empty_service = record {
  orders = Order.new_manager true;
  recipes = Recipe.new_manager String true;
  orgs = new_manager true;
  accounts = Account.new_manager true;
  devices = record { tenants = []; offline_cb = true; db = true };
  faults = record { active_faults = []; alert_cb = true; db = true };
}

abbrev events : List Event
events =
    record {
      route = org org_post;
      request = asked "POST" "/api/v1/orgs" "{\"org_name\":\"acme\",\"org_type\":\"company\"}";
      epoch = pos 1000;
      later = pos 1000;
      text = "t1";
    }
    ∷ record {
      route = order order_post;
      request = asked "POST" "/api/v1/orders" "{\"order_id\":\"o1\",\"device_id\":\"d1\"}";
      epoch = pos 1001;
      later = pos 1001;
      text = "t2";
    }
    ∷ []

empty_service-IsSafe : IsSafe empty_service
unfolding Order.new_manager Recipe.new_manager
empty_service-IsSafe = record {
  orders = record { depth = omega arith; current_brews = tt };
  recipes = tt;
  orgs = new_manager-IsWellformed true;
  accounts = AccountCalls.new_manager-IsValid true;
  devices = empty-IsConsistent true true;
}

-- Both requests are answered: the organization is created, and the order is queued.
served :
    let v = serve world events empty_service in
    (length v.orgs.orgs ≡ 1) × (length v.orders.order_queue ≡ 1)
unfolding serve dispatch at_orgs at_orders post_org post_order create_org create_under
    Order.create_order new_manager Order.new_manager get_org get_int get_string after seek strip
    until search_for numeral stoi find_if any append tenant_exists ◌==◌ new_org new_order
served = (refl, refl)

serve-IsSafe_example : IsSafe (serve world events empty_service)
serve-IsSafe_example = serve-IsSafe world events empty_service empty_service-IsSafe

abbrev misspelt : Event
misspelt = record {
  route = org org_delete;
  request = asked "DELETE" "/api/v1/orgs/acme" "";
  epoch = pos 1000;
  later = pos 1000;
  text = "t1";
}

abbrev anna : AccountInfo
anna = record new_account { username = "anna"; org_id = pos 1; role_code = "viewer" }

abbrev staffed : AccountManager
staffed =
    AccountCalls.run reversed (AccountCalls.create firm "t1" anna "pw" ∷ [])
      (Account.new_manager true)

abbrev stored_anna : AccountInfo
stored_anna = record anna {
  account_id = pos 1;
  password_hash = "mock_hash:hpw";
  created_at = "t1";
  updated_at = "t1";
}

abbrev entry : HttpRequest
entry = asked "POST" "/api/v1/auth/login" "{\"username\":\"anna\",\"password\":\"pw\"}"

abbrev bearing : HttpRequest
bearing = record (asked "GET" "/api/v1/auth/profile" "") {
  headers = ("Authorization", "Bearer mock_jwt:1:87400") ∷ [];
}

post_login-get_profile_example :
    (post_login reversed (pos 1000) (pos 1000) "t2" entry staffed
      ≡ answered
          (login_response reversed (pos 1000) (pos 1000) "t2" entry staffed)
          (after_login reversed (pos 1000) (pos 1000) "t2" entry staffed))
    × ((login_response reversed (pos 1000) (pos 1000) "t2" entry staffed).status_code ≡ pos 200)
    × (get_profile firm
          (pos 2000)
          bearing
          (after_login reversed (pos 1000) (pos 1000) "t2" entry staffed)
        ≡ answered
            (json_response (pos 200) (
              success (
                profile_body
                  (hidden (logged_in "t2" stored_anna))
                  (payload_of firm (pos 2000) (pos 1000 +ℤ lifetime) stored_anna))))
            (after_login reversed (pos 1000) (pos 1000) "t2" entry staffed))
unfolding ◌==◌ get_string get_account_by_username find_if AccountCalls.run Account.new_manager
    org_exists any hash_password new_account new_org ◌+ℤ◌ json_response bearer concat login_body
    commas generate_token to_string
post_login-get_profile_example =
    post_login-get_profile reversed (pos 1000) (pos 1000) "t2" entry staffed firm stored_anna
      (pos 2000) bearing
      (AccountCalls.run-IsValid reversed (AccountCalls.create firm "t1" anna "pw" ∷ [])
        (Account.new_manager true) (AccountCalls.new_manager-IsValid true))
      refl refl refl (refl, refl) (omega arith, omega arith) (omega arith, omega arith)
      (omega arith) refl (omega arith) refl

abbrev fleet : DeviceManager
fleet = record {
  tenants =
      ("company", ("m1", record new_device { tenant_id = "company"; device_id = "m1" }) ∷ [])
      ∷ ("other", ("m2", record new_device { tenant_id = "other"; device_id = "m2" }) ∷ [])
      ∷ [];
  offline_cb = true;
  db = true;
}

anna_bears :
    extract_auth firm (pos 2000) bearing staffed
    ≡ granted (payload_of firm (pos 2000) (pos 87400) stored_anna)
unfolding extract_auth ◌==◌ any AccountCalls.run get_account_by_username find_if Account.new_manager
    org_exists colon_split read_payload stoi stoll get_account
anna_bears = refl

shown_devices-InScope_example :
    (ds : List Device) × (shown_devices firm staffed (pos 2000) bearing fleet ≡ some ds)
    × ((d : Device)
        → IsIn d ds
          ↔ (IsIn d (list_all_devices fleet) × InScope firm (get_org_scope (pos 1) firm) d))
unfolding ◌==◌
shown_devices-InScope_example =
    shown_devices-InScope firm staffed (pos 2000) bearing fleet
      (payload_of firm (pos 2000) (pos 87400) stored_anna) anna_bears refl
