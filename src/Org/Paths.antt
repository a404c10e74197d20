-- ===== src/Org/Paths.antt =====
-- Paths of slashes and segments, as src/app/organization/org_manager.cpp builds and searches them.
use iot_dev_sys.Common.{
  ◌≡◌, refl, ap, sym, ◌∙◌, String, Bool, true, false, ◌||◌, Option, none, some, arith,
  if◌then◌else◌, ◌==◌, text_iff, is_some, some_inj,
}
use iot_dev_sys.Common.Int.{ℤ, pos, ◌<ℤ◌}
use iot_dev_sys.Common.Text.{append, is, lacks}
use iot_dev_sys.Common.Compare.{eq-cons, nil-eq, cons-eq}
use iot_dev_sys.Json.{strip}
use iot_dev_sys.Json.Digits.{to_string-lacks}
use iot_dev_sys.Json.Numbers.{to_string, to_string_inj}
use iot_dev_sys.Topic.Downlink.{slash}
use iot_dev_sys.Org.{starts_with}

strip-lacks : (a x : String) → lacks slash x ≡ true → strip (append a "/") x ≡ none
unfolding strip append lacks
strip-lacks String.[] String.[] h = refl
strip-lacks String.[] (String.◌∷◌ d x) h = ground arith
strip-lacks (String.◌∷◌ c a) String.[] h = refl
strip-lacks (String.◌∷◌ c a) (String.◌∷◌ d x) h = ground (arith, strip-lacks a x)

is_some-pair :
    (b : Bool) (s t : String)
    → is_some (if b then some s else none) ≡ is_some (if b then some t else none)
is_some-pair true s t = refl
is_some-pair false s t = refl

-- A folder contains what lies below a folder exactly if it is that folder or contains it.
pub starts_with-segment :
    (a p x : String)
    → lacks slash x ≡ true
    → starts_with (append a "/") (append p (append "/" x))
      ≡ (a == p || starts_with (append a "/") p)
unfolding strip append lacks
starts_with-segment String.[] String.[] x h = rw ((text_iff "" "").1 refl) refl
starts_with-segment String.[] (String.◌∷◌ d p) x h =
    rw (nil-eq d p) (is_some-pair (is slash d) (append p (append "/" x)) p)
starts_with-segment (String.◌∷◌ c a) String.[] x h = ground (arith, cons-eq c a, strip-lacks a x h)
starts_with-segment (String.◌∷◌ c a) (String.◌∷◌ d p) x h =
    ground (arith, eq-cons c d a p, starts_with-segment a p x h)

-- What stands behind the last slash.
base : String → Option String
base String.[] = none
base (String.◌∷◌ c s) = elim (base s) [
  | some r ↦ some r
  | none ↦ if is c slash then some s else none
]

base-lacks : (x : String) → lacks slash x ≡ true → base x ≡ none
unfolding base lacks
base-lacks String.[] h = refl
base-lacks (String.◌∷◌ c x) h = ground (arith, base-lacks x)

base-append : (q x : String) → lacks slash x ≡ true → base (append q (append "/" x)) ≡ some x
unfolding base append
base-append String.[] x h = ground (arith, base-lacks x h)
base-append (String.◌∷◌ c q) x h = ground (arith, base-append q x h)

pub segment-lacks : (i : ℤ) → pos 0 <ℤ i → lacks slash (to_string i) ≡ true
segment-lacks i h = to_string-lacks slash i refl (omega arith)

-- The last segment of a path tells the ids apart.
pub path_inj :
    (q r : String) (i j : ℤ)
    → pos 0 <ℤ i
    → pos 0 <ℤ j
    → append q (append "/" (to_string i)) ≡ append r (append "/" (to_string j))
    → i ≡ j
path_inj q r i j hi hj e = to_string_inj i j hi hj (
    some_inj (
      sym (base-append q (to_string i) (segment-lacks i hi))
      ∙ ap base e
      ∙ base-append r (to_string j) (segment-lacks j hj)))
