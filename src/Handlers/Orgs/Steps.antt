-- ===== src/Handlers/Orgs/Steps.antt =====
-- Each handler of /api/v1/orgs in src/main.cpp makes at most one call of the organization manager.
use iot_dev_sys.Handlers.Via.{Via, only_answered, made, Via-or_thrown, Via-option, Via-if}
use iot_dev_sys.Api.{HttpRequest}
use iot_dev_sys.Common.{String}
use iot_dev_sys.Common.Int.{pos}
use iot_dev_sys.Json.{get_int}
use iot_dev_sys.Org.Calls
use iot_dev_sys.Org.{OrgManager, get_org}
use iot_dev_sys.Org.Tree.{get_org_tree}
use iot_dev_sys.Handlers.Orgs.{
  get_orgs, parent_filter, get_tree, org_by_id, number_after, post_org, posted, changed, put_org,
  delete_org_by_id,
}

abbrev pub next_org : Calls.Call → OrgManager → OrgManager
next_org c s = (Calls.call c s).state

module _ (now : String) (req : HttpRequest) (s : OrgManager) where
  pub get_orgs-Via : Via next_org s (get_orgs req s)
  unfolding get_orgs
  get_orgs-Via = Via-or_thrown next_org s (parent_filter req.path) _ (λ i. only_answered _)

  pub get_tree-Via : Via next_org s (get_tree req s)
  unfolding get_tree
  get_tree-Via = Via-or_thrown next_org s (get_org_tree s) _ (λ t. only_answered _)

  pub org_by_id-Via : Via next_org s (org_by_id req s)
  unfolding org_by_id
  org_by_id-Via =
      Via-or_thrown next_org s (number_after "/api/v1/orgs/" req) _
        (λ i. Via-option next_org s (get_org i s) _ _ (only_answered _) (λ o. only_answered _))

  pub post_org-Via : Via next_org s (post_org now req s)
  unfolding post_org Calls.call
  post_org-Via =
      Via-or_thrown next_org s (get_int req.body "parent_id" (pos 0)) _
        (λ i. Via-if next_org s _ _ _ (only_answered _) (made _ (Calls.create now (posted req i))))

  pub put_org-Via : Via next_org s (put_org now req s)
  unfolding put_org Calls.call
  put_org-Via =
      Via-or_thrown next_org s (number_after "/api/v1/orgs/" req) _
        (λ i. Via-if next_org s _ _ _ (only_answered _) (made _ (Calls.update now i (changed req))))

  pub delete_org_by_id-Via : Via next_org s (delete_org_by_id req s)
  unfolding delete_org_by_id Calls.call
  delete_org_by_id-Via =
      Via-or_thrown next_org s (number_after "/api/v1/orgs/" req) _ (λ i. made _ (Calls.delete i))
