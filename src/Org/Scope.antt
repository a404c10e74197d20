-- ===== src/Org/Scope.antt =====
-- `get_descendants` and `get_org_scope` of src/app/organization/org_manager.cpp search the paths; here is
-- what they find in terms of the parents.
use mathlib.Core.Option
use iot_dev_sys.Common.{
  ℕ, zero, suc, ◌≡◌, ◌↔◌, refl, ap, sym, ◌∙◌, subst, String, Bool, true, false, ◌||◌, List, some,
  arith, inl, inr, ◌⊎◌, Bool-cases, Option-cases, All, All-find_if, some_inj, find_if, ◌==◌,
  text_iff, select,
}
use iot_dev_sys.Common.Int.{ℤ, pos, negsuc, ◌<ℤ◌}
use iot_dev_sys.Common.Text.{append}
use iot_dev_sys.Common.Keyed.{Ascends, find-above, find-select}
use iot_dev_sys.Json.Numbers.{to_string}
use iot_dev_sys.Types.Org.{OrgInfo}
use iot_dev_sys.Org.{OrgManager, has_id, get_org, starts_with, get_descendants}
use iot_dev_sys.Org.Spots.{Spot, spot, spots, id}
use iot_dev_sys.Org.Wellformed.{IsWellformed}
use iot_dev_sys.Topic.Downlink.{slash}
use iot_dev_sys.Json.{strip}
use iot_dev_sys.Common.Compare.{cons-eq}
use iot_dev_sys.Org.Paths.{starts_with-segment, path_inj, segment-lacks}

-- An organization below `a`, through any number of parents.
pub data Under (os : List OrgInfo) (a : ℤ) : ℤ → Type 0 where
  child : {i : ℤ} (x : Spot) → spots i os ≡ some x → x.parent_id ≡ a → Under os a i
  below : {i : ℤ} (x : Spot) → spots i os ≡ some x → Under os a x.parent_id → Under os a i

-- Every parent is there.
abbrev pub IsRooted : List OrgInfo → Type 0
IsRooted os =
    (i : ℤ) (x : Spot)
    → spots i os ≡ some x
    → (x.parent_id ≡ pos 0) ⊎ ((y : Spot) × (spots x.parent_id os ≡ some y))

-- It suffices to look at each stored organization.
pub All-IsRooted :
    (os : List OrgInfo)
    → All (λ o. (o.parent_id ≡ pos 0) ⊎ ((y : Spot) × (spots o.parent_id os ≡ some y))) os
    → IsRooted os
All-IsRooted os all i x e = elim (Option-cases (find_if (has_id i) os)) [
  | inl miss ↦ absurd (ground (arith, e, miss))
  | inr (o, hit) ↦
      subst (λ z. (z.parent_id ≡ pos 0) ⊎ ((y : Spot) × (spots z.parent_id os ≡ some y)))
        (some_inj (ap (Option.map spot) (sym hit) ∙ e))
        (All-find_if (λ z. (z.parent_id ≡ pos 0) ⊎ ((y : Spot) × (spots z.parent_id os ≡ some y)))
          (has_id i) os o all hit)
]

spots-positive :
    (i : ℤ) (x : Spot) (s : OrgManager) → IsWellformed s → spots i s.orgs ≡ some x → pos 0 <ℤ i
spots-positive i x s v e = ground (arith, find-above id i (pos 0) s.orgs v.ascends)

-- What the search for a prefix finds at an organization whose parent has the path `p`.
starts_with-child :
    (i : ℤ) (p q : String)
    → pos 0 <ℤ i
    → starts_with (append p "/") (append q (append "/" (to_string i)))
      ≡ (p == q || starts_with (append p "/") q)
starts_with-child i p q h = starts_with-segment p q (to_string i) (segment-lacks i h)

or_true : (b : Bool) → (b || true) ≡ true
or_true b = ground arith

Under-prefix :
    (a : ℤ) (s : OrgManager) (i : ℤ) (p : Spot)
    → IsWellformed s
    → spots a s.orgs ≡ some p
    → Under s.orgs a i
    → (x : Spot) × (spots i s.orgs ≡ some x) × (starts_with (append p.path "/") x.path ≡ true)
Under-prefix a s i p v there (Under.child x e up) = (
  x,
  e,
  rw
      (
        ((v.fits i x e).child p (subst (λ k. spots k s.orgs ≡ some p) (sym up) there)).0,
        starts_with-child i p.path p.path (spots-positive i x s v e),
        (text_iff p.path p.path).1 refl,
      )
      refl,
)
Under-prefix a s i p v there (Under.below x e u) =
    (let w : (y : Spot) × (spots x.parent_id s.orgs ≡ some y)
          × (starts_with (append p.path "/") y.path ≡ true) =
        Under-prefix a s x.parent_id p v there u in
      (
        x,
        e,
        rw
            (
              ((v.fits i x e).child w.0 w.1).0,
              starts_with-child i p.path w.0.path (spots-positive i x s v e),
              w.2,
            )
            (or_true (p.path == w.0.path)),
      ))

ends-nonempty :
    (q t : String)
    → (append q (append "/" t) == "" || starts_with (append (append q (append "/" t)) "/") "")
      ≡ false
unfolding append strip
ends-nonempty String.[] t = rw (cons-eq slash t) refl
ends-nonempty (String.◌∷◌ c q) t = rw (cons-eq c (append q (append "/" t))) refl

-- No path is empty.
path-nonempty :
    (a : ℤ) (p : Spot) (s : OrgManager)
    → IsWellformed s
    → spots a s.orgs ≡ some p
    → (p.path == "" || starts_with (append p.path "/") "") ≡ false
path-nonempty a p s v there =
    rw (v.fits a p there).ends.1 (ends-nonempty (v.fits a p there).ends.0 (to_string a))

prefix-Under :
    (n : ℕ) (a : ℤ) (s : OrgManager) (i : ℤ) (p x : Spot)
    → IsWellformed s
    → IsRooted s.orgs
    → i <ℤ pos n
    → spots a s.orgs ≡ some p
    → spots i s.orgs ≡ some x
    → starts_with (append p.path "/") x.path ≡ true
    → Under s.orgs a i
unfolding append
prefix-Under zero a s i p x v r h there e pre = absurd (omega (arith, spots-positive i x s v e))
prefix-Under (suc n) a s i p x v r h there e pre = elim (r i x e) [
  | inl root ↦ absurd (
      cc (
        pre,
        ap (starts_with (append p.path "/")) ((v.fits i x e).root root).0,
        path-nonempty a p s v there,
        starts_with-child i p.path "" (spots-positive i x s v e),
      ))
  | inr (y, up) ↦ elim (Bool-cases (p.path == y.path)) [
    | inl same ↦ Under.child x e (
        path_inj (v.fits x.parent_id y up).ends.0 (v.fits a p there).ends.0 x.parent_id a
          (spots-positive x.parent_id y s v up) (spots-positive a p s v there)
          (sym (v.fits x.parent_id y up).ends.1
            ∙ sym ((text_iff p.path y.path).0 same)
            ∙ (v.fits a p there).ends.1))
    | inr other ↦ Under.below x e (
        prefix-Under n a s x.parent_id p y v r (omega (arith, (v.fits i x e).later)) there up (
          ground (
            arith,
            pre,
            other,
            ((v.fits i x e).child y up).0,
            starts_with-child i p.path y.path (spots-positive i x s v e),
          )))
  ]
]

top : ℤ → ℕ
top (pos n) = suc n
top (negsuc n) = zero

below_top : (i : ℤ) → i <ℤ pos (top i)
unfolding top
below_top (pos n) = omega arith
below_top (negsuc n) = omega arith

found-select :
    (q : OrgInfo → Bool) (i : ℤ) (os : List OrgInfo) (o : OrgInfo)
    → Ascends id (pos 0) os
    → (find_if (has_id i) (select q os) ≡ some o)
      ↔ ((find_if (has_id i) os ≡ some o) × (q o ≡ true))
found-select q i os o a = elim (Option-cases (find_if (has_id i) os)) [
  | inl miss ↦
      (λ e. absurd (cc (e, miss, find-select id q i (pos 0) os a)), λ h. absurd (cc (h.0, miss)))
  | inr (x, hit) ↦ ground (arith, hit, find-select id q i (pos 0) os a)
]

prefix-of :
    (a : ℤ) (s : OrgManager) (i : ℤ) (p o : Spot)
    → spots i s.orgs ≡ some o
    → (x : Spot) × (spots i s.orgs ≡ some x) × (starts_with (append p.path "/") x.path ≡ true)
    → starts_with (append p.path "/") o.path ≡ true
prefix-of a s i p o e w = ground (arith, e, w.1, w.2)

descendants_of :
    (a : ℤ) (self : OrgInfo) (s : OrgManager)
    → get_org a s ≡ some self
    → get_descendants a s ≡ select (λ o. starts_with (append self.path "/") o.path) s.orgs
unfolding get_descendants
descendants_of a self s there = rw (there, get_descendants) refl

-- In a well-formed manager in which every parent is there, the descendants of an organization that
-- is there are exactly those below it through any number of parents: an id is found among them
-- with the organization stored under it.
pub get_descendants-Under :
    (a : ℤ) (self : OrgInfo) (s : OrgManager) (i : ℤ) (o : OrgInfo)
    → IsWellformed s
    → IsRooted s.orgs
    → get_org a s ≡ some self
    → (find_if (has_id i) (get_descendants a s) ≡ some o)
      ↔ ((get_org i s ≡ some o) × Under s.orgs a i)
unfolding get_org
get_descendants-Under a self s i o v r there = rw (descendants_of a self s there) (
  λ e.
      (let f =
          (found-select (λ x. starts_with (append self.path "/") x.path) i s.orgs o v.ascends).0
            e in
        (
          f.0,
          prefix-Under (top i) a s i (spot self) (spot o) v r (below_top i)
              (ap (Option.map spot) there) (ap (Option.map spot) f.0) f.1,
        )),
  λ h. (found-select (λ x. starts_with (append self.path "/") x.path) i s.orgs o v.ascends).1 (
    h.0,
    prefix-of a s i (spot self) (spot o) (ap (Option.map spot) h.0)
        (Under-prefix a s i (spot self) v (ap (Option.map spot) there) h.1),
  ),
)
