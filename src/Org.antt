-- ===== src/Org.antt =====
-- src/app/organization/org_manager.{h,cpp}: the organizations of all levels, in the order of their
-- creation. `now` is the formatted time of the clock; `db` says whether `set_database` was called. The
-- calls of the database and of the MQTT broker are listed in their order; the source ignores their
-- answers.
mod Seeds
pub mod Spots
pub mod Wellformed
pub mod Calls
pub mod Paths
pub mod Scope
pub mod Tree
pub mod Removal
pub mod Rooted
use Seeds.{company, huadong, shanghai, hangzhou, huanan, rnd}
use iot_dev_sys.Common.{
  ℕ, zero, suc, String, Bool, true, false, not, ◌&&◌, List, [], ◌∷◌, ◌++◌, map, Option, none, some,
  length, ◌==◌, is_empty, is_some, if◌then◌else◌, find_if, erase_if, update_if, select, any,
}
use iot_dev_sys.Common.Int.{ℤ, pos, ◌+ℤ◌, int_eq, ltb_ℤ}
use iot_dev_sys.Common.Text.{append}
use iot_dev_sys.Json.{strip}
use iot_dev_sys.Json.Numbers.{to_string}
use iot_dev_sys.Status.{
  StatusCode, ok, error, storage_read_error, org_not_found, org_duplicate_tenant, org_has_children,
}
use iot_dev_sys.Types.Org.{OrgInfo}

pub data Effect : Type 0 where
  insert_org update_org_db : OrgInfo → Effect
  delete_org_db : ℤ → Effect
  sync_tenant_to_broker delete_tenant_from_broker : String → Effect

pub record OrgManager : Type 0 where
  pub orgs : List OrgInfo
  pub next_id : ℤ
  pub db : Bool

pub record Outcome : Type 0 where
  pub state : OrgManager
  pub status : StatusCode
  pub effects : List Effect

unfoldable pub new_manager : Bool → OrgManager
new_manager db = record { orgs = []; next_id = pos 1; db = db }

abbrev pub has_id : ℤ → OrgInfo → Bool
has_id org_id o = int_eq o.org_id org_id

unfoldable pub get_org : ℤ → OrgManager → Option OrgInfo
get_org org_id s = find_if (has_id org_id) s.orgs

abbrev pub has_tenant : String → OrgInfo → Bool
has_tenant tenant_id o = o.tenant_id == tenant_id

unfoldable pub get_org_by_tenant : String → OrgManager → Option OrgInfo
get_org_by_tenant tenant_id s = find_if (has_tenant tenant_id) s.orgs

unfoldable pub org_exists : ℤ → OrgManager → Bool
unfolding get_org
org_exists org_id s = is_some (get_org org_id s)

unfoldable pub tenant_exists : String → OrgManager → Bool
tenant_exists tenant_id s = any (has_tenant tenant_id) s.orgs

abbrev pub is_active_child : ℤ → OrgInfo → Bool
is_active_child org_id o = int_eq o.parent_id org_id && o.is_active

unfoldable pub has_children : ℤ → OrgManager → Bool
has_children org_id s = any (is_active_child org_id) s.orgs

abbrev pub refuse : OrgManager → StatusCode → Outcome
refuse s c = record { state = s; status = c; effects = [] }

-- The level and the path below a parent, or at the root.
abbrev pub level_under : Option OrgInfo → ℤ
level_under none = pos 0
level_under (some p) = p.level +ℤ pos 1

abbrev pub path_under : Option OrgInfo → ℤ → String
path_under none id = append "/" (to_string id)
path_under (some p) id = append p.path (append "/" (to_string id))

abbrev pub placed : Option OrgInfo → ℤ → OrgInfo → OrgInfo
placed parent id info = record info {
  org_id = id;
  level = level_under parent;
  path = path_under parent id;
}

abbrev pub count_child : OrgInfo → OrgInfo
count_child o = record o { children_count = o.children_count +ℤ pos 1 }

-- The parent is found again, and one more child is counted.
abbrev pub with_child : ℤ → List OrgInfo → List OrgInfo
with_child parent_id os =
    if int_eq parent_id (pos 0) then os else update_if (has_id parent_id) count_child os

-- What follows the checks of the parent. The second part is the organization that was given by
-- reference.
unfoldable pub create_under : Option OrgInfo → String → OrgInfo → OrgManager → Outcome × OrgInfo
unfolding tenant_exists
create_under parent now info s =
    if tenant_exists info.tenant_id s
    then (refuse s org_duplicate_tenant, info)
    else let o : OrgInfo = record (placed parent s.next_id info) {
      created_at = now;
      updated_at = now;
    } in
      (
        record {
          state = record s {
            orgs = with_child info.parent_id (s.orgs ++ o ∷ []);
            next_id = s.next_id +ℤ pos 1;
          };
          status = ok;
          effects =
              (if s.db then insert_org o ∷ [] else []) ++ sync_tenant_to_broker o.tenant_id ∷ [];
        },
        o,
      )

unfoldable pub create_org : String → OrgInfo → OrgManager → Outcome × OrgInfo
unfolding get_org
create_org now info s =
    if int_eq info.parent_id (pos 0)
    then create_under none now info s
    else elim (get_org info.parent_id s) [
      | none ↦ (refuse s org_not_found, info)
      | some p ↦
          if not p.is_active
          then (refuse s org_not_found, info)
          else if p.org_type == "company" && not (info.org_type == "department")
          then (refuse s error, info)
          else create_under (some p) now info s
    ]

abbrev pub keep_or : String → String → String
keep_or old new = if is_empty new then old else new

abbrev pub updated : String → OrgInfo → OrgInfo → OrgInfo
updated now info o = record o {
  org_name = keep_or o.org_name info.org_name;
  contact_name = keep_or o.contact_name info.contact_name;
  contact_phone = keep_or o.contact_phone info.contact_phone;
  contact_email = keep_or o.contact_email info.contact_email;
  address = keep_or o.address info.address;
  is_active = info.is_active;
  updated_at = now;
}

unfoldable pub update_org : String → ℤ → OrgInfo → OrgManager → Outcome
update_org now org_id info s = elim (find_if (has_id org_id) s.orgs) [
  | none ↦ refuse s org_not_found
  | some o ↦ record {
    state = record s { orgs = update_if (has_id org_id) (updated now info) s.orgs };
    status = ok;
    effects = if s.db then update_org_db (updated now info o) ∷ [] else [];
  }
]

unfoldable pub delete_org : ℤ → OrgManager → Outcome
unfolding has_children
delete_org org_id s = elim (find_if (has_id org_id) s.orgs) [
  | none ↦ refuse s org_not_found
  | some o ↦ if has_children org_id s then refuse s org_has_children else record {
    state = record s { orgs = erase_if (has_id org_id) s.orgs };
    status = ok;
    effects =
        (if s.db then delete_org_db org_id ∷ [] else [])
        ++ delete_tenant_from_broker o.tenant_id ∷ [];
  }
]

abbrev pub is_listed : ℤ → String → Bool → OrgInfo → Bool
is_listed parent_id org_type active_only o =
    not (active_only && not o.is_active)
    && not (not (ltb_ℤ parent_id (pos 0)) && not (int_eq o.parent_id parent_id))
    && not (not (is_empty org_type) && not (o.org_type == org_type))

unfoldable pub list_orgs : ℤ → String → Bool → OrgManager → List OrgInfo
list_orgs parent_id org_type active_only s =
    select (is_listed parent_id org_type active_only) s.orgs

-- `path.find(prefix) == 0`
abbrev pub starts_with : String → String → Bool
starts_with prefix path = is_some (strip prefix path)

unfoldable pub get_descendants : ℤ → OrgManager → List OrgInfo
unfolding get_org
get_descendants org_id s = elim (get_org org_id s) [
  | none ↦ []
  | some self ↦ select (λ o. starts_with (append self.path "/") o.path) s.orgs
]

unfoldable pub get_org_scope : ℤ → OrgManager → List ℤ
unfolding get_descendants
get_org_scope org_id s = org_id ∷ map (λ o. o.org_id) (get_descendants org_id s)

unfoldable pub org_count : OrgManager → ℕ
org_count s = length s.orgs

-- `stored` is what `list_orgs_db` of the database answers.
abbrev pub max_id : ℤ → List OrgInfo → ℤ
max_id m [] = m
max_id m (o ∷ os) = max_id (if ltb_ℤ m o.org_id then o.org_id else m) os

unfoldable pub load_from_database : List OrgInfo → OrgManager → OrgManager × StatusCode
load_from_database stored s = if not s.db then (s, storage_read_error) else elim stored [
  | [] ↦ (s, ok)
  | o ∷ os ↦ (record s { orgs = s.orgs ++ o ∷ os; next_id = max_id (pos 0) (o ∷ os) +ℤ pos 1 }, ok)
]

abbrev pub created : String → OrgInfo → OrgManager → OrgManager
created now info s = (create_org now info s).0.state

-- Each call reads the clock again: `now` gives the time of the call with that number.
unfoldable pub seed_mock_data : (ℕ → String) → OrgManager → OrgManager
unfolding create_org
seed_mock_data now s = created (now 5) rnd (
    created (now 4) huanan (
      created (now 3) hangzhou
        (created (now 2) shanghai (created (now 1) huadong (created (now 0) company s)))))
