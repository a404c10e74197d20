-- ===== src/Examples/Org.antt =====
-- Organizations of src/app/organization/org_manager.cpp: a company with its departments.
use iot_dev_sys.Common.{
  ◌≡◌, ◌≢◌, ◌↔◌, refl, true, List, [], ◌∷◌, none, some, inl, inr, find_if, update_if, ◌==◌, any,
  select, if◌then◌else◌,
}
use iot_dev_sys.Common.Int.{ℤ, pos, ◌+ℤ◌, int_eq}
use iot_dev_sys.Common.Text.{append, pick}
use iot_dev_sys.Json.{strip}
use iot_dev_sys.Json.Numbers.{to_string, decimal, digit}
use iot_dev_sys.Status.{ok}
use iot_dev_sys.Types.Org.{OrgInfo, new_org}
use iot_dev_sys.Org.{
  OrgManager, new_manager, has_id, get_org, create_org, create_under, tenant_exists, delete_org,
  get_descendants, get_org_scope, list_orgs,
}
use iot_dev_sys.Org.Calls.{
  Call, create, delete, call, run, run-IsWellformed, new_manager-IsWellformed,
}
use iot_dev_sys.Org.Wellformed.{IsWellformed}
use iot_dev_sys.Org.Scope.{IsRooted, Under, get_descendants-Under, All-IsRooted}
use iot_dev_sys.Org.Rooted.{DeletesLeaves, run-IsRooted}
use iot_dev_sys.Org.Tree.{OrgTreeNodes, get_org_tree, get_org_tree_lem, infos, IsComplete, node}
use iot_dev_sys.Org.Removal.{IsRemovable, delete_org-IsRemovable}

abbrev company : OrgInfo
company = record new_org { tenant_id = "company"; org_type = "company" }

abbrev north : OrgInfo
north = record new_org { parent_id = pos 1; tenant_id = "north"; org_type = "department" }

abbrev shop : OrgInfo
shop = record new_org { parent_id = pos 2; tenant_id = "shop"; org_type = "department" }

abbrev founding : List Call
founding = create "t1" company ∷ create "t2" north ∷ create "t3" shop ∷ []

abbrev firm : OrgManager
firm = run founding (new_manager true)

firm-IsWellformed : IsWellformed firm
firm-IsWellformed = run-IsWellformed founding (new_manager true) (new_manager-IsWellformed true)

-- The scope of the department holds the shop.
firm_scope : get_org_scope (pos 2) firm ≡ pos 2 ∷ pos 3 ∷ []
unfolding get_org_scope get_descendants run call create_org create_under new_manager tenant_exists
    get_org find_if update_if any select to_string strip append decimal digit pick ◌+ℤ◌ new_org ◌==◌
firm_scope = refl

run-IsWellformed_example : IsWellformed (run (delete (pos 3) ∷ []) firm)
run-IsWellformed_example = run-IsWellformed (delete (pos 3) ∷ []) firm firm-IsWellformed

abbrev stored_north : OrgInfo
stored_north = record north {
  org_id = pos 2;
  level = pos 1;
  path = "/1/2";
  children_count = pos 1;
  created_at = "t2";
  updated_at = "t2";
}

abbrev stored_shop : OrgInfo
stored_shop = record shop {
  org_id = pos 3;
  level = pos 2;
  path = "/1/2/3";
  created_at = "t3";
  updated_at = "t3";
}

get_north : get_org (pos 2) firm ≡ some stored_north
unfolding run call create_org create_under new_manager tenant_exists get_org find_if update_if any
    to_string append decimal digit pick ◌+ℤ◌ new_org ◌==◌
get_north = refl

get_descendants-Under_example :
    (find_if (has_id (pos 3)) (get_descendants (pos 2) firm) ≡ some stored_shop)
    ↔ ((get_org (pos 3) firm ≡ some stored_shop) × Under firm.orgs (pos 2) (pos 3))
unfolding run call create_org create_under new_manager tenant_exists get_org find_if update_if any
    to_string append decimal digit pick ◌+ℤ◌ new_org ◌==◌
get_descendants-Under_example =
    get_descendants-Under (pos 2) stored_north firm (pos 3) stored_shop firm-IsWellformed
      (All-IsRooted firm.orgs (inl refl, (inr (_, refl), (inr (_, refl), tt)))) get_north

get_org_tree_lem_example :
    (ts : OrgTreeNodes) × (get_org_tree firm ≡ some (node new_org ts))
    × (infos ts ≡ list_orgs (pos 0) "" true firm)
    × IsComplete firm ts
get_org_tree_lem_example = get_org_tree_lem firm firm-IsWellformed

delete_org-IsRemovable_example :
    (((delete_org (pos 2) firm).status ≡ ok) ↔ IsRemovable (pos 2) firm)
    × ((delete_org (pos 2) firm).status ≡ ok
        → (j : ℤ)
        → get_org j (delete_org (pos 2) firm).state
          ≡ (if int_eq j (pos 2) then none else get_org j firm))
    × ((delete_org (pos 2) firm).status ≢ ok → (delete_org (pos 2) firm).state ≡ firm)
delete_org-IsRemovable_example = delete_org-IsRemovable (pos 2) firm firm-IsWellformed

firm-IsRooted : IsRooted firm.orgs
unfolding run call create_org create_under new_manager tenant_exists get_org find_if update_if any
    to_string append decimal digit pick ◌+ℤ◌ new_org ◌==◌
firm-IsRooted = All-IsRooted firm.orgs (inl refl, (inr (_, refl), (inr (_, refl), tt)))

shop_leaf : DeletesLeaves (delete (pos 3) ∷ []) firm
unfolding run call create_org create_under new_manager tenant_exists get_org find_if update_if any
    to_string append decimal digit pick ◌+ℤ◌ new_org ◌==◌
shop_leaf = (refl, tt)

run-IsRooted_example : IsRooted (run (delete (pos 3) ∷ []) firm).orgs
run-IsRooted_example =
    run-IsRooted (delete (pos 3) ∷ []) firm firm-IsWellformed shop_leaf firm-IsRooted
