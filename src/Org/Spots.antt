-- ===== src/Org/Spots.antt =====
-- Where the organizations of src/app/organization/org_manager.cpp stand: the parent, the path and the
-- level of each id, and what the calls do to them.
use mathlib.Core.Option
use iot_dev_sys.Common.{
  ◌≡◌, refl, ap, ◌∙◌, String, List, [], ◌∷◌, ◌++◌, Option, none, some, arith, inl, inr, Bool-cases,
  Option-cases, if◌then◌else◌, find_if, erase_if, update_if, find_if-append_none,
  find_if-append_some,
}
use iot_dev_sys.Common.Int.{ℤ, pos, int_eq, int_iff}
use iot_dev_sys.Common.Keyed.{Ascends, find-update_if, find-erase_if}
use iot_dev_sys.Types.Org.{OrgInfo}
use iot_dev_sys.Org.{has_id, with_child, count_child}

pub record Spot : Type 0 where
  pub parent_id : ℤ
  pub path : String
  pub level : ℤ

abbrev pub spot : OrgInfo → Spot
spot o = record { parent_id = o.parent_id; path = o.path; level = o.level }

abbrev pub spots : ℤ → List OrgInfo → Option Spot
spots i os = Option.map spot (find_if (has_id i) os)

abbrev pub id : OrgInfo → ℤ
id o = o.org_id

pub spots-update_if :
    (f : OrgInfo → OrgInfo) (i j : ℤ) (os : List OrgInfo)
    → ((o : OrgInfo) → id (f o) ≡ id o)
    → ((o : OrgInfo) → spot (f o) ≡ spot o)
    → spots i (update_if (has_id j) f os) ≡ spots i os
spots-update_if f i j os keep same =
    ap (Option.map spot) (find-update_if id f i j os keep)
    ∙ elim (Option-cases (find_if (has_id i) os)) [
      | inl miss ↦ ground (arith, miss)
      | inr (o, hit) ↦ ground (arith, hit, same o)
    ]

pub spots-with_child :
    (i parent_id : ℤ) (os : List OrgInfo) → spots i (with_child parent_id os) ≡ spots i os
spots-with_child i parent_id os = elim (Bool-cases (int_eq parent_id (pos 0))) [
  | inl root ↦ rw root refl
  | inr child ↦ rw child (spots-update_if count_child i parent_id os (λ o. refl) (λ o. refl))
]

pub spots-concat :
    (i : ℤ) (o : OrgInfo) (os : List OrgInfo)
    → find_if (has_id (id o)) os ≡ none
    → spots i (os ++ o ∷ []) ≡ (if int_eq i (id o) then some (spot o) else spots i os)
unfolding find_if
spots-concat i o os fresh = elim (Option-cases (find_if (has_id i) os)) [
  | inl miss ↦
      ap (Option.map spot) (find_if-append_none (has_id i) os (o ∷ []) miss)
      ∙ ground (arith, int_iff i (id o), int_iff (id o) i, miss)
  | inr (x, hit) ↦
      ap (Option.map spot) (find_if-append_some (has_id i) os (o ∷ []) hit)
      ∙ ground (arith, int_iff i (id o), hit)
]

pub spots-erase_if :
    (i j : ℤ) (os : List OrgInfo)
    → Ascends id (pos 0) os
    → spots i (erase_if (has_id j) os) ≡ (if int_eq i j then none else spots i os)
spots-erase_if i j os a = ap (Option.map spot) (find-erase_if id i j (pos 0) os a) ∙ ground arith
