-- ===== src/Org/Calls.antt =====
-- Histories of calls of src/app/organization/org_manager.cpp that change its state.
use mathlib.Core.Option
use iot_dev_sys.Common.{
  ◌≡◌, refl, sym, ap, subst, String, Bool, false, List, [], ◌∷◌, ◌++◌, not, ◌&&◌, ◌==◌, Option,
  none, some, arith, inl, inr, Bool-cases, Option-cases, if_both, find_if,
}
use iot_dev_sys.Common.Int.{ℤ, pos, ◌+ℤ◌, ◌<ℤ◌, int_eq, int_iff}
use iot_dev_sys.Common.Text.{append}
use iot_dev_sys.Common.Keyed.{find-above}
use iot_dev_sys.Types.Org.{OrgInfo}
use iot_dev_sys.Org.{
  OrgManager, Outcome, has_id, get_org, placed, with_child, count_child, tenant_exists,
  create_under, create_org, has_children, has_children, updated, update_org, delete_org,
  new_manager,
}
use iot_dev_sys.Org.Spots.{Spot, spot, spots, id}
use iot_dev_sys.Org.Wellformed.{
  Fits, IsWellformed, rewrite-IsWellformed, erase-IsWellformed, concat-IsWellformed, found-below,
}

pub data Call : Type 0 where
  create : String → OrgInfo → Call
  update : String → ℤ → OrgInfo → Call
  delete : ℤ → Call

unfoldable pub call : Call → OrgManager → Outcome
unfolding create_org update_org delete_org
call (create now info) s = (create_org now info s).0
call (update now i info) s = update_org now i info s
call (delete i) s = delete_org i s

unfoldable pub run : List Call → OrgManager → OrgManager
run [] s = s
run (c ∷ cs) s = run cs (call c s).state

with_child-IsWellformed :
    (parent_id : ℤ) (s : OrgManager)
    → IsWellformed s
    → IsWellformed (record s { orgs = with_child parent_id s.orgs })
with_child-IsWellformed parent_id s v =
    if_both (λ os. IsWellformed (record s { orgs = os })) (int_eq parent_id (pos 0)) _ _ v
      (rewrite-IsWellformed count_child parent_id s (λ o. refl) (λ o. refl) (λ o. refl) v)

-- What `create_under` stores.
abbrev pub stored : Option OrgInfo → String → OrgInfo → OrgManager → OrgInfo
stored parent now info s = record (placed parent s.next_id info) {
  created_at = now;
  updated_at = now;
}

create_under-IsWellformed :
    (parent : Option OrgInfo) (now : String) (info : OrgInfo) (s : OrgManager)
    → Fits s.orgs s.next_id (spot (stored parent now info s))
    → IsWellformed s
    → IsWellformed (create_under parent now info s).0.state
unfolding create_under
create_under-IsWellformed parent now info s fit v =
    elim (Bool-cases (tenant_exists info.tenant_id s)) [
      | inl taken ↦ rw (taken, create_under) v
      | inr free ↦
          rw (free, create_under)
            (with_child-IsWellformed info.parent_id
              (record s {
                orgs = s.orgs ++ stored parent now info s ∷ [];
                next_id = s.next_id +ℤ pos 1;
              })
              (concat-IsWellformed (stored parent now info s) s refl (unfold tenant_exists in free)
                fit v))
    ]

found_at_root :
    (i : ℤ) (p : Spot) (s : OrgManager) → i ≡ pos 0 → spots i s.orgs ≡ some p → IsWellformed s → ⊥
found_at_root i p s e h v = ground (arith, find-above id i (pos 0) s.orgs v.ascends)

Fits-root :
    (now : String) (info : OrgInfo) (s : OrgManager)
    → info.parent_id ≡ pos 0
    → IsWellformed s
    → Fits s.orgs s.next_id (spot (stored none now info s))
unfolding append
Fits-root now info s e v = record {
  later = subst (λ k. k <ℤ s.next_id) (sym e) v.counter;
  root = λ _. (refl, refl);
  ends = ("", refl);
  child = λ p h. absurd (found_at_root info.parent_id p s e h v);
}

Fits-child :
    (now : String) (info p : OrgInfo) (s : OrgManager)
    → int_eq info.parent_id (pos 0) ≡ false
    → get_org info.parent_id s ≡ some p
    → IsWellformed s
    → Fits s.orgs s.next_id (spot (stored (some p) now info s))
unfolding get_org
Fits-child now info p s nonzero found v = record {
  later = found-below info.parent_id s.next_id s.orgs (spot p) v.below (ap (Option.map spot) found);
  root = λ e. absurd (cc (nonzero, (int_iff info.parent_id (pos 0)).1 e));
  child = λ q h. ground (arith, found);
  ends = (p.path, refl);
}

create_org-IsWellformed :
    (now : String) (info : OrgInfo) (s : OrgManager)
    → IsWellformed s
    → IsWellformed (create_org now info s).0.state
unfolding create_org
create_org-IsWellformed now info s v = elim (Bool-cases (int_eq info.parent_id (pos 0))) [
  | inl root ↦ rw root (
      create_under-IsWellformed none now info s
        (Fits-root now info s ((int_iff info.parent_id (pos 0)).0 root) v) v)
  | inr child ↦ elim (Option-cases (get_org info.parent_id s)) [
    | inl miss ↦ rw (child, miss) v
    | inr (p, hit) ↦
        rw (child, hit)
          (if_both (λ (o : Outcome × OrgInfo). IsWellformed o.0.state) (not p.is_active) _ _ v
            (if_both (λ (o : Outcome × OrgInfo). IsWellformed o.0.state)
              (p.org_type == "company" && not (info.org_type == "department")) _ _ v
              (create_under-IsWellformed (some p) now info s (Fits-child now info p s child hit v)
                v)))
  ]
]

pub call-IsWellformed : (c : Call) (s : OrgManager) → IsWellformed s → IsWellformed (call c s).state
unfolding call
call-IsWellformed (create now info) s v = create_org-IsWellformed now info s v
call-IsWellformed (update now i info) s v = elim (Option-cases (find_if (has_id i) s.orgs)) [
  | inl miss ↦ rw (miss, update_org) v
  | inr (o, hit) ↦
      rw (hit, update_org)
        (rewrite-IsWellformed (updated now info) i s (λ o. refl) (λ o. refl) (λ o. refl) v)
]
call-IsWellformed (delete i) s v = elim (Option-cases (find_if (has_id i) s.orgs)) [
  | inl miss ↦ rw (miss, delete_org) v
  | inr (o, hit) ↦
      rw (hit, delete_org)
        (if_both (λ (x : Outcome). IsWellformed x.state) (has_children i s) _ _ v
          (erase-IsWellformed i s v))
]

-- After any creations, updates and deletions the ids are positive, ascend and stay below the counter,
-- no two organizations have the same tenant, and each organization comes after its parent and has the
-- path and the level that follow from the parent's, or those of the root; given that this held before.
pub run-IsWellformed : (cs : List Call) (s : OrgManager) → IsWellformed s → IsWellformed (run cs s)
unfolding run
run-IsWellformed [] s v = v
run-IsWellformed (c ∷ cs) s v = run-IsWellformed cs (call c s).state (call-IsWellformed c s v)

pub new_manager-IsWellformed : (db : Bool) → IsWellformed (new_manager db)
unfolding new_manager find_if
new_manager-IsWellformed db = record {
  counter = omega arith;
  ascends = tt;
  below = tt;
  tenants = tt;
  fits = λ i x e. absurd (cc e);
}
