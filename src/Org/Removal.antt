-- ===== src/Org/Removal.antt =====
-- `delete_org` of src/app/organization/org_manager.cpp.
use iot_dev_sys.Common.{
  ◌≡◌, ◌≢◌, ◌↔◌, false, none, some, arith, inl, inr, Bool-cases, Option-cases, if◌then◌else◌,
  find_if,
}
use iot_dev_sys.Common.Int.{ℤ, pos, int_eq}
use iot_dev_sys.Common.Keyed.{find-erase_if}
use iot_dev_sys.Status.{ok}
use iot_dev_sys.Types.Org.{OrgInfo}
use iot_dev_sys.Org.{OrgManager, has_id, get_org, has_children, delete_org}
use iot_dev_sys.Org.Spots.{id}
use iot_dev_sys.Org.Wellformed.{IsWellformed}

-- What is there to delete.
abbrev pub IsRemovable : ℤ → OrgManager → Type 0
IsRemovable i s = (o : OrgInfo) × (get_org i s ≡ some o) × (has_children i s ≡ false)

-- In a well-formed manager an organization can be deleted exactly if it is there and has no active
-- child. A deletion takes this organization away and leaves every other one as it was; one that is
-- refused changes nothing.
pub delete_org-IsRemovable :
    (i : ℤ) (s : OrgManager)
    → IsWellformed s
    → (((delete_org i s).status ≡ ok) ↔ IsRemovable i s)
      × ((delete_org i s).status ≡ ok
          → (j : ℤ) → get_org j (delete_org i s).state ≡ (if int_eq j i then none else get_org j s))
      × ((delete_org i s).status ≢ ok → (delete_org i s).state ≡ s)
unfolding delete_org get_org
delete_org-IsRemovable i s v = elim (Option-cases (find_if (has_id i) s.orgs)) [
  | inl miss ↦ (
    (λ e. absurd (ground (arith, e, miss)), λ w. absurd (cc (w.1, miss))),
    λ e. absurd (ground (arith, e, miss)),
    λ _. ground (arith, miss),
  )
  | inr (o, hit) ↦ (
    (λ e. (o, hit, ground (arith, e, hit)), λ w. ground (arith, hit, w.2)),
    λ e j. ground (arith, e, hit, find-erase_if id j i (pos 0) s.orgs v.ascends),
    λ n. elim (Bool-cases (has_children i s)) [
      | inl full ↦ ground (arith, hit, full)
      | inr free ↦ absurd (n (ground (arith, hit, free)))
    ],
  )
]
