-- ===== src/Org/Tree.antt =====
-- `get_org_tree` and `build_tree` of src/app/organization/org_manager.cpp. The recursion of `build_tree`
-- is bounded by fuel, and `none` says that the fuel did not suffice.
use mathlib.Core.Option
use iot_dev_sys.Common.{
  ℕ, zero, suc, ◌≡◌, refl, ap, sym, ◌∙◌, true, false, List, [], ◌∷◌, Option, none, some, arith, inl,
  inr, Bool-cases, if◌then◌else◌, All, All-find_if, find_if, find_if-passes, select, subst,
  text_iff,
}
use iot_dev_sys.Common.Int.{ℤ, pos, negsuc, ◌+ℤ◌, ◌<ℤ◌, ◌≤ℤ◌, int_eq, int_iff, pos_part}
use iot_dev_sys.Types.Org.{OrgInfo, new_org}
use iot_dev_sys.Common.Keyed.{All-found}
use iot_dev_sys.Org.{OrgManager, has_id, is_active_child, is_listed, list_orgs}
use iot_dev_sys.Org.Spots.{id, spot}
use iot_dev_sys.Org.Wellformed.{IsWellformed}

mutual
  pub data OrgTreeNode : Type 0 where
    node : OrgInfo → OrgTreeNodes → OrgTreeNode

  pub data OrgTreeNodes : Type 0 where
    none_left : OrgTreeNodes
    then_node : OrgTreeNode → OrgTreeNodes → OrgTreeNodes

abbrev push_node : OrgInfo → OrgTreeNodes → OrgTreeNodes → OrgTreeNodes
push_node o children ts = then_node (node o children) ts

-- The loop over all organizations; `below` builds the children of one.
unfoldable pub build_each : (ℤ → Option OrgTreeNodes) → ℤ → List OrgInfo → Option OrgTreeNodes
build_each below parent_id [] = some none_left
build_each below parent_id (o ∷ os) =
    let rest : Option OrgTreeNodes = build_each below parent_id os in
    if is_active_child parent_id o
    then elim (below o.org_id) [
      | none ↦ none
      | some children ↦ elim rest [ none ↦ none | some ts ↦ some (push_node o children ts) ]
    ]
    else rest

unfoldable pub build_tree : ℕ → ℤ → List OrgInfo → Option OrgTreeNodes
unfolding build_each
build_tree zero parent_id os = none
build_tree (suc fuel) parent_id os = build_each (λ i. build_tree fuel i os) parent_id os

-- The root of the answer stands for no organization. The next id is fuel enough.
unfoldable pub get_org_tree : OrgManager → Option OrgTreeNode
unfolding build_tree
get_org_tree s = elim (build_tree (pos_part s.next_id) (pos 0) s.orgs) [
  | none ↦ none
  | some ts ↦ some (node new_org ts)
]

-- The organizations of one level.
abbrev pub infos : OrgTreeNodes → List OrgInfo
infos none_left = []
infos (then_node (node o children) ts) = o ∷ infos ts

-- At every node stand the active organizations that have it as their parent, in the order of the list.
abbrev pub IsComplete : OrgManager → OrgTreeNodes → Type 0
IsComplete s none_left = Unit
IsComplete s (then_node (node o children) ts) =
    (infos children ≡ list_orgs o.org_id "" true s) × IsComplete s children × IsComplete s ts

is_listed_child : (i : ℤ) (o : OrgInfo) → (pos 0 ≤ℤ i) → is_listed i "" true o ≡ is_active_child i o
is_listed_child (pos n) o h = ground (arith, (text_iff "" "").1 refl)
is_listed_child (negsuc n) o h = absurd (omega arith)

listed_children :
    (s : OrgManager) (i : ℤ)
    → pos 0 ≤ℤ i
    → (os : List OrgInfo) → select (is_active_child i) os ≡ select (is_listed i "" true) os
unfolding select
listed_children s i h [] = refl
listed_children s i h (o ∷ os) = rw (is_listed_child i o h, listed_children s i h os) refl

-- What one call of `build_tree` answers.
abbrev Builds : OrgManager → ℤ → List OrgInfo → Option OrgTreeNodes → Type 0
Builds s i os answer =
    (ts : OrgTreeNodes) × (answer ≡ some ts)
    × (infos ts ≡ select (is_active_child i) os)
    × IsComplete s ts

Builds-node :
    (s : OrgManager) (i : ℤ) (o : OrgInfo) (os : List OrgInfo) (answer rest : Option OrgTreeNodes)
    → pos 0 ≤ℤ id o
    → is_active_child i o ≡ true
    → Builds s (id o) s.orgs answer
    → Builds s i os rest
    → Builds s i (o ∷ os) (elim answer [
      | none ↦ none
      | some children ↦ elim rest [ none ↦ none | some ts ↦ some (push_node o children ts) ]
    ])
unfolding select list_orgs
Builds-node s i o os answer rest h active b r = (
  push_node o b.0 r.0,
  rw (b.1, r.1) refl,
  rw active (ap (λ xs. o ∷ xs) r.2),
  (b.2 ∙ listed_children s (id o) h s.orgs, b.3, r.3),
)

Builds-skip :
    (s : OrgManager) (i : ℤ) (o : OrgInfo) (os : List OrgInfo) (rest : Option OrgTreeNodes)
    → is_active_child i o ≡ false
    → Builds s i os rest
    → Builds s i (o ∷ os) rest
unfolding select
Builds-skip s i o os rest inactive r = (r.0, r.1, rw inactive r.2, r.3)

Builds-nothing : (s : OrgManager) (i : ℤ) → Builds s i [] (some none_left)
unfolding select
Builds-nothing s i = (none_left, refl, refl, tt)

build_each-Builds :
    (below : ℤ → Option OrgTreeNodes) (s : OrgManager) (i : ℤ) (os : List OrgInfo)
    → pos 0 ≤ℤ i
    → All
        (λ o. int_eq o.parent_id i ≡ true → (pos 0 ≤ℤ id o) × Builds s (id o) s.orgs (below (id o)))
        os
    → Builds s i os (build_each below i os)
unfolding build_each
build_each-Builds below s i [] h k = Builds-nothing s i
build_each-Builds below s i (o ∷ os) h k = elim (Bool-cases (is_active_child i o)) [
  | inl active ↦ rw active (
      Builds-node s i o os (below o.org_id) (build_each below i os) (k.0 (ground (arith, active))).0
        active (k.0 (ground (arith, active))).1 (build_each-Builds below s i os h k.1))
  | inr inactive ↦
      rw inactive (
        Builds-skip s i o os (build_each below i os) inactive
          (build_each-Builds below s i os h k.1))
]

no_fuel : (i n : ℤ) → pos 0 ≤ℤ i → i <ℤ n → n ≤ℤ i +ℤ pos 0 → ⊥
unfolding ◌+ℤ◌
no_fuel i n h l e = ground arith

less_fuel :
    (fuel : ℕ) (i k n : ℤ) → pos 0 ≤ℤ i → i <ℤ k → n ≤ℤ i +ℤ pos (suc fuel) → n ≤ℤ k +ℤ pos fuel
unfolding ◌+ℤ◌
less_fuel fuel i k n h l e = ground arith

next_fuel : (n : ℤ) → n ≤ℤ pos 0 +ℤ pos (pos_part n)
unfolding ◌+ℤ◌
next_fuel n = ground arith

-- A child that is found comes later.
found_child :
    (i k : ℤ) (x : OrgInfo) (s : OrgManager)
    → IsWellformed s
    → find_if (has_id k) s.orgs ≡ some x
    → int_eq x.parent_id i ≡ true
    → i <ℤ id x
found_child i k x s v found eq =
    subst (λ j. j <ℤ id x) ((int_iff x.parent_id i).0 eq)
      (subst (λ j. x.parent_id <ℤ j)
        (sym ((int_iff (id x) k).0 (find_if-passes (has_id k) s.orgs found)))
        (v.fits k (spot x) (ap (Option.map spot) found)).later)

-- A call with enough fuel: the children come later than their parent.
build_tree-Builds :
    (fuel : ℕ) (s : OrgManager) (i : ℤ)
    → IsWellformed s
    → pos 0 ≤ℤ i
    → i <ℤ s.next_id
    → s.next_id ≤ℤ i +ℤ pos fuel
    → Builds s i s.orgs (build_tree fuel i s.orgs)
unfolding build_tree
build_tree-Builds zero s i v h l e = absurd (no_fuel i s.next_id h l e)
build_tree-Builds (suc fuel) s i v h l e =
    build_each-Builds (λ k. build_tree fuel k s.orgs) s i s.orgs h
      (All-found id
        (λ o.
          int_eq o.parent_id i ≡ true
          → (pos 0 ≤ℤ id o) × Builds s (id o) s.orgs (build_tree fuel (id o) s.orgs))
        (pos 0) s.orgs v.ascends
        (λ k x found eq.
          (let later : i <ℤ id x = found_child i k x s v found eq in
            (
              omega (arith, h, later),
              build_tree-Builds fuel s (id x) v (omega (arith, h, later))
                  (All-find_if (λ o. id o <ℤ s.next_id) (has_id k) s.orgs x v.below found)
                  (less_fuel fuel i (id x) s.next_id h later e),
            ))))

-- In a well-formed manager the tree is built, with as much fuel as the next id says; its first
-- level are the active organizations at the root, and below every node stand the active
-- organizations with that parent, as `list_orgs` lists them.
pub get_org_tree_lem :
    (s : OrgManager)
    → IsWellformed s
    → (ts : OrgTreeNodes) × (get_org_tree s ≡ some (node new_org ts))
      × (infos ts ≡ list_orgs (pos 0) "" true s)
      × IsComplete s ts
unfolding list_orgs get_org_tree
get_org_tree_lem s v =
    (let b : Builds s (pos 0) s.orgs (build_tree (pos_part s.next_id) (pos 0) s.orgs) =
        build_tree-Builds (pos_part s.next_id) s (pos 0) v (omega arith) v.counter
          (next_fuel s.next_id) in
      (b.0, rw (b.1, get_org_tree) refl, b.2 ∙ listed_children s (pos 0) (omega arith) s.orgs, b.3))
