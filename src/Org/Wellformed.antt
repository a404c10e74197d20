-- ===== src/Org/Wellformed.antt =====
-- The invariant of src/app/organization/org_manager.cpp: ids, tenants, and the paths and levels that
-- follow the parents.
use iot_dev_sys.Common.{
  ◌≡◌, refl, sym, ◌∙◌, subst, String, false, List, [], ◌∷◌, ◌++◌, none, some, arith, inl, inr,
  Bool-cases, if◌then◌else◌, find_if, erase_if, update_if, any, All, All-append, All-erase_if,
  All-update_if,
}
use iot_dev_sys.Common.Int.{ℤ, pos, ◌+ℤ◌, ◌<ℤ◌, ◌≤ℤ◌, int_eq, int_iff}
use iot_dev_sys.Common.Text.{append}
use iot_dev_sys.Common.Keyed.{Ascends, Ascends-concat, Ascends-update_if, Ascends-erase_if}
use iot_dev_sys.Common.Named.{Distinct, Distinct-update_if, Distinct-erase_if, Distinct-concat}
use iot_dev_sys.Json.Numbers.{to_string}
use iot_dev_sys.Types.Org.{OrgInfo}
use iot_dev_sys.Org.{OrgManager, has_id, has_tenant}
use iot_dev_sys.Org.Spots.{Spot, spot, spots, id, spots-update_if, spots-concat, spots-erase_if}

-- An organization stands below its parent, or at the root if its parent is 0.
pub record Fits (os : List OrgInfo) (i : ℤ) (x : Spot) : Type 0 where
  pub later : x.parent_id <ℤ i
  pub root : x.parent_id ≡ pos 0 → (x.path ≡ append "/" (to_string i)) × (x.level ≡ pos 0)
  pub child :
      (p : Spot)
      → spots x.parent_id os ≡ some p
      → (x.path ≡ append p.path (append "/" (to_string i))) × (x.level ≡ p.level +ℤ pos 1)
  pub ends : (q : String) × (x.path ≡ append q (append "/" (to_string i)))

abbrev pub tenant : OrgInfo → String
tenant o = o.tenant_id

pub record IsWellformed (s : OrgManager) : Type 0 where
  pub counter : pos 0 <ℤ s.next_id
  pub ascends : Ascends id (pos 0) s.orgs
  pub below : All (λ o. id o <ℤ s.next_id) s.orgs
  pub tenants : Distinct tenant s.orgs
  pub fits : (i : ℤ) (x : Spot) → spots i s.orgs ≡ some x → Fits s.orgs i x

-- An update writes no id, tenant or place.
pub rewrite-IsWellformed :
    (f : OrgInfo → OrgInfo) (j : ℤ) (s : OrgManager)
    → ((o : OrgInfo) → id (f o) ≡ id o)
    → ((o : OrgInfo) → (f o).tenant_id ≡ o.tenant_id)
    → ((o : OrgInfo) → spot (f o) ≡ spot o)
    → IsWellformed s
    → IsWellformed (record s { orgs = update_if (has_id j) f s.orgs })
rewrite-IsWellformed f j s keep keep_tenant same v = record {
  counter = v.counter;
  ascends = Ascends-update_if id (has_id j) f (pos 0) s.orgs keep v.ascends;
  below =
      All-update_if (λ o. id o <ℤ s.next_id) (has_id j) f s.orgs
        (λ o h. subst (λ k. k <ℤ s.next_id) (sym (keep o)) h) v.below;
  tenants = Distinct-update_if tenant (has_id j) f s.orgs keep_tenant v.tenants;
  fits = λ i x e. record {
    later = (v.fits i x (sym (view i) ∙ e)).later;
    root = (v.fits i x (sym (view i) ∙ e)).root;
    child = λ p h. (v.fits i x (sym (view i) ∙ e)).child p (sym (view x.parent_id) ∙ h);
    ends = (v.fits i x (sym (view i) ∙ e)).ends;
  };
}
  where
    view : (i : ℤ) → spots i (update_if (has_id j) f s.orgs) ≡ spots i s.orgs
    view i = spots-update_if f i j s.orgs keep same

pub erase-IsWellformed :
    (j : ℤ) (s : OrgManager)
    → IsWellformed s
    → IsWellformed (record s { orgs = erase_if (has_id j) s.orgs })
erase-IsWellformed j s v = record {
  counter = v.counter;
  ascends = Ascends-erase_if id (has_id j) (pos 0) s.orgs v.ascends;
  below = All-erase_if (λ o. id o <ℤ s.next_id) (has_id j) s.orgs v.below;
  tenants = Distinct-erase_if tenant (has_id j) s.orgs v.tenants;
  fits = λ i x e. record {
    later = (v.fits i x (was i x e)).later;
    root = (v.fits i x (was i x e)).root;
    child = λ p h. (v.fits i x (was i x e)).child p (was x.parent_id p h);
    ends = (v.fits i x (was i x e)).ends;
  };
}
  where
    was :
        (i : ℤ) (x : Spot) → spots i (erase_if (has_id j) s.orgs) ≡ some x → spots i s.orgs ≡ some x
    was i x e = ground (arith, spots-erase_if i j s.orgs v.ascends)

pub found-below :
    (i n : ℤ) (os : List OrgInfo) (x : Spot)
    → All (λ o. id o <ℤ n) os
    → spots i os ≡ some x
    → i <ℤ n
unfolding find_if
found-below i n [] x h e = cc
found-below i n (o ∷ os) x h e = ground (arith, int_iff (id o) i, found-below i n os x h.1)

below-next : (a b : ℤ) → a <ℤ b → a <ℤ b +ℤ pos 1
unfolding ◌+ℤ◌
below-next a b h = ground arith

self_next : (b : ℤ) → b <ℤ b +ℤ pos 1
unfolding ◌+ℤ◌
self_next b = ground arith

All-below : (n : ℤ) (os : List OrgInfo) → All (λ o. id o <ℤ n) os → All (λ o. id o <ℤ n +ℤ pos 1) os
All-below n [] h = tt
All-below n (o ∷ os) h = (below-next (id o) n h.0, All-below n os h.1)

pub fresh : (n : ℤ) (os : List OrgInfo) → All (λ o. id o <ℤ n) os → find_if (has_id n) os ≡ none
unfolding find_if
fresh n [] h = refl
fresh n (o ∷ os) h = ground (arith, int_iff (id o) n, fresh n os h.1)

Fits-concat :
    (o : OrgInfo) (os : List OrgInfo) (i : ℤ) (x : Spot)
    → find_if (has_id (id o)) os ≡ none
    → i ≤ℤ id o
    → Fits os i x
    → Fits (os ++ o ∷ []) i x
Fits-concat o os i x new le f = record {
  later = f.later;
  root = f.root;
  ends = f.ends;
  child = λ p h.
      f.child p
        (ground (arith, f.later, spots-concat x.parent_id o os new, int_iff x.parent_id (id o)));
}

-- A new organization, below a parent that is there or at the root.
pub concat-IsWellformed :
    (o : OrgInfo) (s : OrgManager)
    → id o ≡ s.next_id
    → any (has_tenant o.tenant_id) s.orgs ≡ false
    → Fits s.orgs (id o) (spot o)
    → IsWellformed s
    → IsWellformed (record s { orgs = s.orgs ++ o ∷ []; next_id = s.next_id +ℤ pos 1 })
concat-IsWellformed o s new free fit v = record {
  counter = below-next (pos 0) s.next_id v.counter;
  ascends =
      Ascends-concat id (pos 0) s.orgs o (subst (λ k. pos 0 <ℤ k) (sym new) v.counter)
        (subst (λ k. All (λ x. id x <ℤ k) s.orgs) (sym new) v.below) v.ascends;
  below =
      All-append (λ x. id x <ℤ s.next_id +ℤ pos 1) s.orgs (o ∷ [])
        (All-below s.next_id s.orgs v.below)
        (subst (λ k. k <ℤ s.next_id +ℤ pos 1) (sym new) (self_next s.next_id), tt);
  tenants = Distinct-concat tenant s.orgs o free v.tenants;
  fits = λ i x e. elim (Bool-cases (int_eq i (id o))) [
    | inl here ↦ ground (
      arith,
      view i,
      int_iff i (id o),
      Fits-concat o s.orgs (id o) (spot o) new_id (omega arith) fit,
    )
    | inr there ↦
        (let e' : spots i s.orgs ≡ some x = ground (arith, view i) in
          Fits-concat o s.orgs i x new_id (omega (arith, below_new i x e')) (v.fits i x e'))
  ];
}
  where
    new_id : find_if (has_id (id o)) s.orgs ≡ none
    new_id = rw new (fresh s.next_id s.orgs v.below)

    view :
        (i : ℤ)
        → spots i (s.orgs ++ o ∷ []) ≡ (if int_eq i (id o) then some (spot o) else spots i s.orgs)
    view i = spots-concat i o s.orgs new_id

    below_new : (i : ℤ) (x : Spot) → spots i s.orgs ≡ some x → i <ℤ id o
    below_new i x e = subst (λ k. i <ℤ k) (sym new) (found-below i s.next_id s.orgs x v.below e)
