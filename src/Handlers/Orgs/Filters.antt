-- ===== src/Handlers/Orgs/Filters.antt =====
-- The filters of the list of organizations in src/main.cpp, on a path without its query.
use Prim.Native.Char.{Char}
use iot_dev_sys.Common.{
  ◌≡◌, refl, String, true, false, Option, some, ap, ◌∙◌, List, [], ◌∷◌, select, text_self,
}
use iot_dev_sys.Common.Int.{ℤ, neg}
use iot_dev_sys.Common.Text.{lacks}
use iot_dev_sys.Json.Digits.{after-lacks}
use iot_dev_sys.Types.Org.{OrgInfo}
use iot_dev_sys.Org.{OrgManager, list_orgs, is_listed}
use iot_dev_sys.Api.{HttpRequest}
use iot_dev_sys.Handlers.{answered, or_thrown}
use iot_dev_sys.Handlers.Orgs.{get_orgs, org_list, parent_filter, type_filter}

abbrev mark : Char
mark = "?"

parent_filter-lacks : (path : String) → lacks mark path ≡ true → parent_filter path ≡ some (neg 1)
parent_filter-lacks path h = rw (after-lacks mark "parent_id=" path h, parent_filter) refl

type_filter-lacks : (path : String) → lacks mark path ≡ true → type_filter path ≡ ""
type_filter-lacks path h = rw (after-lacks mark "org_type=" path h, type_filter) refl

every_listed : (os : List OrgInfo) → select (is_listed (neg 1) "" false) os ≡ os
unfolding select
every_listed [] = refl
every_listed (o ∷ os) = rw (text_self "") (ap (◌∷◌ o) (every_listed os))

list_orgs_all : (s : OrgManager) → list_orgs (neg 1) "" false s ≡ s.orgs
unfolding list_orgs
list_orgs_all s = every_listed s.orgs

-- The server splits the query off the path, so that the list of organizations is never filtered: for a
-- path without a question mark the answer lists every organization of the manager, in order and whether
-- active or not, and says how many there are, whatever the query is.
pub get_orgs_unfiltered :
    (req : HttpRequest) (s : OrgManager)
    → lacks mark req.path ≡ true
    → get_orgs req s ≡ answered (org_list s.orgs) s
unfolding get_orgs
get_orgs_unfiltered req s h =
    ap
      (λ (o : Option ℤ).
        or_thrown o
          (λ parent_id. answered (org_list (list_orgs parent_id (type_filter req.path) false s)) s))
      (parent_filter-lacks req.path h)
    ∙ ap (λ (t : String). answered (org_list (list_orgs (neg 1) t false s)) s)
        (type_filter-lacks req.path h)
    ∙ ap (λ os. answered (org_list os) s) (list_orgs_all s)
