-- ===== src/Org/Rooted.antt =====
-- Which calls of src/app/organization/org_manager.cpp leave no organization without its parent.
use mathlib.Core.Option
use iot_dev_sys.Common.{
  ◌≡◌, refl, sym, ap, ◌∙◌, subst, String, false, List, [], ◌∷◌, ◌++◌, Option, none, some, ◌⊎◌,
  arith, inl, inr, Bool-cases, Option-cases, if_both, find_if, erase_if, update_if, any, some_inj,
  not, ◌&&◌, ◌==◌,
}
use iot_dev_sys.Common.Int.{ℤ, pos, int_eq, int_iff}
use iot_dev_sys.Types.Org.{OrgInfo}
use iot_dev_sys.Org.{
  OrgManager, Outcome, has_id, get_org, with_child, tenant_exists, create_under, create_org,
  updated, update_org, has_children, delete_org,
}
use iot_dev_sys.Org.Spots.{
  Spot, spot, spots, id, spots-update_if, spots-with_child, spots-concat, spots-erase_if,
}
use iot_dev_sys.Org.Wellformed.{IsWellformed, fresh}
use iot_dev_sys.Org.Calls.{Call, create, update, delete, call, run, call-IsWellformed, stored}
use iot_dev_sys.Org.Scope.{IsRooted}

same-IsRooted :
    (os r : List OrgInfo) → ((i : ℤ) → spots i r ≡ spots i os) → IsRooted os → IsRooted r
same-IsRooted os r same rooted i x e = elim (rooted i x (sym (same i) ∙ e)) [
  | inl root ↦ inl root
  | inr (y, up) ↦ inr (y, same x.parent_id ∙ up)
]

-- A parent that is there stays there when an organization is added.
parent-concat :
    (o : OrgInfo) (os : List OrgInfo) (i : ℤ) (y : Spot)
    → find_if (has_id (id o)) os ≡ none
    → spots i os ≡ some y
    → (z : Spot) × (spots i (os ++ o ∷ []) ≡ some z)
parent-concat o os i y new e = elim (Bool-cases (int_eq i (id o))) [
  | inl same ↦ (spot o, spots-concat i o os new ∙ rw same refl)
  | inr other ↦ (y, spots-concat i o os new ∙ rw other e)
]

-- The parent with this id is there, or it is the root.
abbrev HasParent : List OrgInfo → ℤ → Type 0
HasParent os i = (i ≡ pos 0) ⊎ ((y : Spot) × (spots i os ≡ some y))

HasParent-concat :
    (o : OrgInfo) (os : List OrgInfo) (i : ℤ)
    → find_if (has_id (id o)) os ≡ none
    → HasParent os i
    → HasParent (os ++ o ∷ []) i
HasParent-concat o os i new h = elim h [
  | inl root ↦ inl root
  | inr (y, up) ↦ inr (parent-concat o os i y new up)
]

concat-IsRooted :
    (o : OrgInfo) (os : List OrgInfo)
    → find_if (has_id (id o)) os ≡ none
    → (o.parent_id ≡ pos 0) ⊎ ((y : Spot) × (spots o.parent_id os ≡ some y))
    → IsRooted os
    → IsRooted (os ++ o ∷ [])
concat-IsRooted o os new fit rooted i x e = elim (Bool-cases (int_eq i (id o))) [
  | inl same ↦
      (let here : spots i (os ++ o ∷ []) ≡ some (spot o) = spots-concat i o os new ∙ rw same refl in
        let eq : spot o ≡ x = some_inj (sym here ∙ e) in
        subst (λ z. HasParent (os ++ o ∷ []) z.parent_id) eq
          (HasParent-concat o os o.parent_id new fit))
  | inr other ↦
      (let there : spots i (os ++ o ∷ []) ≡ spots i os = spots-concat i o os new ∙ rw other refl in
        HasParent-concat o os x.parent_id new (rooted i x (sym there ∙ e)))
]

-- No organization, active or not, has this parent.
abbrev pub IsLeaf : ℤ → OrgManager → Type 0
IsLeaf i s = any (λ o. int_eq o.parent_id i) s.orgs ≡ false

not_parent :
    (i j : ℤ) (x : Spot) (os : List OrgInfo)
    → any (λ o. int_eq o.parent_id j) os ≡ false
    → spots i os ≡ some x
    → int_eq x.parent_id j ≡ false
unfolding any find_if
not_parent i j x [] h e = absurd (cc e)
not_parent i j x (o ∷ os) h e = ground (arith, h, e, not_parent i j x os)

erase-IsRooted :
    (j : ℤ) (s : OrgManager)
    → IsWellformed s
    → IsLeaf j s
    → IsRooted s.orgs
    → IsRooted (erase_if (has_id j) s.orgs)
erase-IsRooted j s v leaf rooted i x e =
    (let was : spots i s.orgs ≡ some x = ground (arith, e, spots-erase_if i j s.orgs v.ascends) in
      elim (rooted i x was) [
        | inl root ↦ inl root
        | inr (y, up) ↦ inr (
          y,
          spots-erase_if x.parent_id j s.orgs v.ascends ∙ rw (not_parent i j x s.orgs leaf was) up,
        )
      ])

create_under-IsRooted :
    (parent : Option OrgInfo) (now : String) (info : OrgInfo) (s : OrgManager)
    → IsWellformed s
    → HasParent s.orgs info.parent_id
    → IsRooted s.orgs
    → IsRooted (create_under parent now info s).0.state.orgs
unfolding create_under
create_under-IsRooted parent now info s v fit rooted =
    if_both (λ (o : Outcome × OrgInfo). IsRooted o.0.state.orgs) (tenant_exists info.tenant_id s) _
      _ rooted
      (same-IsRooted (s.orgs ++ stored parent now info s ∷ [])
        (with_child info.parent_id (s.orgs ++ stored parent now info s ∷ []))
        (λ i. spots-with_child i info.parent_id (s.orgs ++ stored parent now info s ∷ []))
        (concat-IsRooted (stored parent now info s) s.orgs (fresh s.next_id s.orgs v.below) fit
          rooted))

found_spot :
    (i : ℤ) (p : OrgInfo) (s : OrgManager) → get_org i s ≡ some p → spots i s.orgs ≡ some (spot p)
unfolding get_org
found_spot i p s e = ap (Option.map spot) e

create_org-IsRooted :
    (now : String) (info : OrgInfo) (s : OrgManager)
    → IsWellformed s
    → IsRooted s.orgs
    → IsRooted (create_org now info s).0.state.orgs
unfolding create_org
create_org-IsRooted now info s v rooted = elim (Bool-cases (int_eq info.parent_id (pos 0))) [
  | inl root ↦ rw root (
      create_under-IsRooted none now info s v (inl ((int_iff info.parent_id (pos 0)).0 root))
        rooted)
  | inr child ↦ elim (Option-cases (get_org info.parent_id s)) [
    | inl miss ↦ rw (child, miss) rooted
    | inr (p, hit) ↦
        rw (child, hit)
          (if_both (λ (o : Outcome × OrgInfo). IsRooted o.0.state.orgs) (not p.is_active) _ _ rooted
            (if_both (λ (o : Outcome × OrgInfo). IsRooted o.0.state.orgs)
              (p.org_type == "company" && not (info.org_type == "department")) _ _ rooted
              (create_under-IsRooted (some p) now info s v
                (inr (spot p, found_spot info.parent_id p s hit)) rooted)))
  ]
]

-- Each deletion is of an organization without children at that time.
abbrev pub DeletesLeaf : Call → OrgManager → Type 0
DeletesLeaf (create now info) s = Unit
DeletesLeaf (update now i info) s = Unit
DeletesLeaf (delete i) s = IsLeaf i s

abbrev pub DeletesLeaves : List Call → OrgManager → Type 0
DeletesLeaves [] s = Unit
DeletesLeaves (c ∷ cs) s = DeletesLeaf c s × DeletesLeaves cs (call c s).state

call-IsRooted :
    (c : Call) (s : OrgManager)
    → IsWellformed s
    → DeletesLeaf c s
    → IsRooted s.orgs
    → IsRooted (call c s).state.orgs
unfolding call
call-IsRooted (create now info) s v leaf rooted = create_org-IsRooted now info s v rooted
call-IsRooted (update now i info) s v leaf rooted =
    elim (Option-cases (find_if (has_id i) s.orgs)) [
      | inl miss ↦ rw (miss, update_org) rooted
      | inr (o, hit) ↦
          rw (hit, update_org)
            (same-IsRooted s.orgs (update_if (has_id i) (updated now info) s.orgs)
              (λ j. spots-update_if (updated now info) j i s.orgs (λ o. refl) (λ o. refl)) rooted)
    ]
call-IsRooted (delete i) s v leaf rooted = elim (Option-cases (find_if (has_id i) s.orgs)) [
  | inl miss ↦ rw (miss, delete_org) rooted
  | inr (o, hit) ↦
      rw (hit, delete_org)
        (if_both (λ (x : Outcome). IsRooted x.state.orgs) (has_children i s) _ _ rooted
          (erase-IsRooted i s v leaf rooted))
]

-- In a well-formed manager every parent stays there over any calls, if each deletion is of an organization
-- that has no children at that time, not even inactive ones.
pub run-IsRooted :
    (cs : List Call) (s : OrgManager)
    → IsWellformed s
    → DeletesLeaves cs s
    → IsRooted s.orgs
    → IsRooted (run cs s).orgs
unfolding run
run-IsRooted [] s v leaves rooted = rooted
run-IsRooted (c ∷ cs) s v leaves rooted =
    run-IsRooted cs (call c s).state (call-IsWellformed c s v) leaves.1
      (call-IsRooted c s v leaves.0 rooted)
