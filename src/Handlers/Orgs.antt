-- ===== src/Handlers/Orgs.antt =====
-- The handlers of /api/v1/orgs in src/main.cpp, over the organization manager. `now` is the clock's text.
pub mod Steps
pub mod Filters
use iot_dev_sys.Common.{
  String, Bool, true, false, not, ◌&&◌, List, [], ◌∷◌, ◌++◌, map, Option, none, some, ◌==◌,
  is_empty, length, if◌then◌else◌,
}
use iot_dev_sys.Common.Int.{ℤ, pos, neg, int_eq}
use iot_dev_sys.Common.Text.{append, concat}
use iot_dev_sys.Json.{get_string, get_int, get_bool, after, until, stoi}
use iot_dev_sys.Json.Numbers.{to_string}
use iot_dev_sys.Types.Org.{OrgInfo, new_org}
use iot_dev_sys.Org.{
  OrgManager, Outcome, get_org, org_exists, list_orgs, create_org, update_org, delete_org,
}
use iot_dev_sys.Org.Tree.{OrgTreeNode, OrgTreeNodes, node, none_left, then_node, get_org_tree}
use iot_dev_sys.Api.{HttpRequest, HttpResponse, json_response, error_response}
use iot_dev_sys.Handlers.{
  Reply, thrown, answered, rest_of, or_thrown, by_status, text_field, int_field, raw_field,
  bool_field, object, array, success,
}

-- The number after `?parent_id=` in the path, and the text after `?org_type=`.
abbrev pub parent_filter : String → Option ℤ
parent_filter path = elim (after "?parent_id=" path) [ none ↦ some (neg 1) | some t ↦ stoi t ]

abbrev pub up_to_amp : String → String
up_to_amp t = elim (until "&" t) [ none ↦ t | some u ↦ u ]

abbrev pub type_filter : String → String
type_filter path = elim (after "?org_type=" path) [ none ↦ "" | some t ↦ up_to_amp t ]

unfoldable pub listed_org : OrgInfo → String
listed_org o = object (
    int_field "org_id" o.org_id
    ∷ int_field "parent_id" o.parent_id
    ∷ text_field "tenant_id" o.tenant_id
    ∷ text_field "org_name" o.org_name
    ∷ text_field "org_type" o.org_type
    ∷ int_field "level" o.level
    ∷ text_field "path" o.path
    ∷ int_field "children_count" o.children_count
    ∷ bool_field "is_active" o.is_active
    ∷ [])

abbrev pub org_list : List OrgInfo → HttpResponse
org_list orgs = json_response (pos 200) (
    success (
      object (
        int_field "total" (pos (length orgs))
        ∷ raw_field "list" (array (map listed_org orgs))
        ∷ [])))

unfoldable pub get_orgs : HttpRequest → OrgManager → Reply OrgManager
unfolding after until stoi list_orgs listed_org
get_orgs req s =
    or_thrown (parent_filter req.path)
      (λ parent_id. answered (org_list (list_orgs parent_id (type_filter req.path) false s)) s)

abbrev pub node_head : OrgInfo → String
node_head o = concat (
    "{"
    ∷ int_field "org_id" o.org_id
    ∷ ","
    ∷ text_field "org_name" o.org_name
    ∷ ","
    ∷ text_field "org_type" o.org_type
    ∷ ","
    ∷ text_field "tenant_id" o.tenant_id
    ∷ ","
    ∷ int_field "parent_id" o.parent_id
    ∷ ","
    ∷ int_field "level" o.level
    ∷ ",\"children\":["
    ∷ [])

abbrev pub no_children : OrgTreeNodes → Bool
no_children none_left = true
no_children (then_node t ts) = false

unfoldable mutual
  unfolding append

  pub serialize : OrgTreeNode → String
  serialize (node o ts) =
      let has_self = not (int_eq o.org_id (pos 0)) in
      let inner = serialize_all has_self true ts in
      if not has_self && no_children ts
      then ""
      else if has_self
      then append (node_head o) (append inner "]}")
      else inner

  pub serialize_all : Bool → Bool → OrgTreeNodes → String
  serialize_all has_self first none_left = ""
  serialize_all has_self first (then_node t ts) =
      append (if not first && has_self then "," else "")
        (append (serialize t) (serialize_all has_self false ts))

abbrev pub each : OrgTreeNodes → List String
each none_left = []
each (then_node t ts) = serialize t ∷ each ts

abbrev pub roots : OrgTreeNode → List String
roots (node o ts) = each ts

-- A tree for which the fuel of `get_org_tree` does not suffice counts as an exception here.
unfoldable pub get_tree : HttpRequest → OrgManager → Reply OrgManager
unfolding get_org_tree serialize
get_tree req s = or_thrown (get_org_tree s) (λ tree.
    answered
      (json_response (pos 200) (success (object (raw_field "tree" (array (roots tree)) ∷ [])))) s)

-- `std::stoi(path.substr(prefix.size()))`
abbrev pub number_after : String → HttpRequest → Option ℤ
number_after prefix req = elim (rest_of prefix req) [ none ↦ none | some t ↦ stoi t ]

abbrev pub no_org : ℤ → HttpResponse
no_org org_id = error_response (pos 404) (pos 1002) (append "Org not found: " (to_string org_id))

unfoldable pub single_org : OrgInfo → String
single_org o = object (
    int_field "org_id" o.org_id
    ∷ int_field "parent_id" o.parent_id
    ∷ text_field "tenant_id" o.tenant_id
    ∷ text_field "org_name" o.org_name
    ∷ text_field "org_type" o.org_type
    ∷ text_field "contact_name" o.contact_name
    ∷ text_field "contact_phone" o.contact_phone
    ∷ text_field "contact_email" o.contact_email
    ∷ text_field "address" o.address
    ∷ int_field "level" o.level
    ∷ text_field "path" o.path
    ∷ int_field "children_count" o.children_count
    ∷ bool_field "is_active" o.is_active
    ∷ text_field "created_at" o.created_at
    ∷ text_field "updated_at" o.updated_at
    ∷ [])

unfoldable pub org_by_id : HttpRequest → OrgManager → Reply OrgManager
unfolding rest_of stoi get_org single_org
org_by_id req s = or_thrown (number_after "/api/v1/orgs/" req) (λ org_id. elim (get_org org_id s) [
  | none ↦ answered (no_org org_id) s
  | some o ↦ answered (json_response (pos 200) (success (single_org o))) s
])

abbrev pub posted : HttpRequest → ℤ → OrgInfo
posted req parent_id = record new_org {
  parent_id = parent_id;
  tenant_id =
      if is_empty (get_string req.body "tenant_id")
      then get_string req.body "org_name"
      else get_string req.body "tenant_id";
  org_name = get_string req.body "org_name";
  org_type = get_string req.body "org_type";
  contact_name = get_string req.body "contact_name";
  contact_phone = get_string req.body "contact_phone";
  contact_email = get_string req.body "contact_email";
  address = get_string req.body "address";
}

-- `create_org` writes the new id into the organization that it is given by reference.
abbrev pub created : Outcome × OrgInfo → Reply OrgManager
created (out, info) =
    answered
      (by_status out.status (
        json_response (pos 201) (
          success (
            object (int_field "org_id" info.org_id ∷ text_field "tenant_id" info.tenant_id ∷ [])))))
      out.state

unfoldable pub post_org : String → HttpRequest → OrgManager → Reply OrgManager
unfolding get_int get_string new_org create_org
post_org now req s = or_thrown (get_int req.body "parent_id" (pos 0)) (λ parent_id.
    if is_empty (get_string req.body "org_name")
    then answered (error_response (pos 400) (pos 1001) "org_name is required") s
    else created (create_org now (posted req parent_id) s))

abbrev pub changed : HttpRequest → OrgInfo
changed req = record new_org {
  org_name = get_string req.body "org_name";
  contact_name = get_string req.body "contact_name";
  contact_phone = get_string req.body "contact_phone";
  contact_email = get_string req.body "contact_email";
  address = get_string req.body "address";
  is_active = get_bool req.body "is_active" true;
}

abbrev pub reply : Outcome → List String → Reply OrgManager
reply out fields =
    answered (by_status out.status (json_response (pos 200) (success (object fields)))) out.state

unfoldable pub put_org : String → HttpRequest → OrgManager → Reply OrgManager
unfolding rest_of stoi org_exists get_string get_bool new_org update_org
put_org now req s = or_thrown (number_after "/api/v1/orgs/" req) (λ org_id.
    if not (org_exists org_id s)
    then answered (no_org org_id) s
    else reply (update_org now org_id (changed req) s) (int_field "org_id" org_id ∷ []))

unfoldable pub delete_org_by_id : HttpRequest → OrgManager → Reply OrgManager
unfolding rest_of stoi delete_org
delete_org_by_id req s = or_thrown (number_after "/api/v1/orgs/" req) (λ org_id.
    reply (delete_org org_id s) (int_field "org_id" org_id ∷ raw_field "deleted" "true" ∷ []))
