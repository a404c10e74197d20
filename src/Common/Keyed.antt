-- ===== src/Common/Keyed.antt =====
-- Vectors of records that carry a number each, in ascending order of it: the numbers are handed out
-- by a counter, and a record is searched for by its number.
use mathlib.Core.Path.{◌≡◌, refl, subst}
use mathlib.Core.Bool.{Bool}
use mathlib.Core.List.{List, [], ◌∷◌, ◌++◌}
use mathlib.Core.Option.{Option, none, some}
use mathlib.Core.Option
use mathlib.Core.Logic.{inl, inr}
use native.Mathlib.Omega.{arith}
use iot_dev_sys.Common.Tests.{if◌then◌else◌, Bool-cases, some_inj}
use iot_dev_sys.Common.Lists.{All, find_if, erase_if, update_if, select}
use iot_dev_sys.Common.Int.{ℤ, int_eq, int_iff, ◌<ℤ◌, ◌≤ℤ◌}

module _ {ℓ} {A : Type ℓ} (key : A → ℤ) where
  abbrev pub has : ℤ → A → Bool
  has i x = int_eq (key x) i

  -- The keys ascend, from above `lo`.
  abbrev pub Ascends : ℤ → List A → Type 0
  Ascends lo [] = Unit
  Ascends lo (x ∷ xs) = (lo <ℤ key x) × Ascends (key x) xs

  pub find-above : (i lo : ℤ) (xs : List A) → Ascends lo xs → i ≤ℤ lo → find_if (has i) xs ≡ none
  unfolding find_if
  find-above i lo [] a h = refl
  find-above i lo (x ∷ xs) a h = ground (arith, find-above i (key x) xs a.1, int_iff (key x) i)

  pub Ascends-lower : (lo hi : ℤ) (xs : List A) → lo ≤ℤ hi → Ascends hi xs → Ascends lo xs
  Ascends-lower lo hi [] h a = tt
  Ascends-lower lo hi (x ∷ xs) h a = (omega (arith, a.0), a.1)

  pub Ascends-concat :
      (lo : ℤ) (xs : List A) (y : A)
      → lo <ℤ key y
      → All (λ x. key x <ℤ key y) xs
      → Ascends lo xs
      → Ascends lo (xs ++ y ∷ [])
  Ascends-concat lo [] y l h a = (l, tt)
  Ascends-concat lo (x ∷ xs) y l h a = (a.0, Ascends-concat (key x) xs y h.0 h.1 a.1)

  pub Ascends-erase_if :
      (p : A → Bool) (lo : ℤ) (xs : List A) → Ascends lo xs → Ascends lo (erase_if p xs)
  unfolding erase_if
  Ascends-erase_if p lo [] a = tt
  Ascends-erase_if p lo (x ∷ xs) a = elim (Bool-cases (p x)) [
    | inl hit ↦ rw hit (Ascends-lower lo (key x) xs (omega (arith, a.0)) a.1)
    | inr miss ↦ rw miss (a.0, Ascends-erase_if p (key x) xs a.1)
  ]

  pub Ascends-update_if :
      (p : A → Bool) (f : A → A) (lo : ℤ) (xs : List A)
      → ((x : A) → key (f x) ≡ key x)
      → Ascends lo xs
      → Ascends lo (update_if p f xs)
  unfolding update_if
  Ascends-update_if p f lo [] keep a = tt
  Ascends-update_if p f lo (x ∷ xs) keep a = elim (Bool-cases (p x)) [
    | inl hit ↦ rw hit (rw (keep x) a)
    | inr miss ↦ rw miss (a.0, Ascends-update_if p f (key x) xs keep a.1)
  ]

  pub find-update_if :
      (f : A → A) (i j : ℤ) (xs : List A)
      → ((x : A) → key (f x) ≡ key x)
      → find_if (has i) (update_if (has j) f xs)
        ≡ (if int_eq i j then Option.map f (find_if (has i) xs) else find_if (has i) xs)
  unfolding find_if update_if
  find-update_if f i j [] keep = ground arith
  find-update_if f i j (x ∷ xs) keep = ground (
    arith,
    keep x,
    int_iff (key x) i,
    int_iff (key x) j,
    int_iff i j,
    int_iff (key (f x)) i,
    find-update_if f i j xs keep,
  )

  pub find-erase_if :
      (i j lo : ℤ) (xs : List A)
      → Ascends lo xs
      → find_if (has i) (erase_if (has j) xs) ≡ (if int_eq i j then none else find_if (has i) xs)
  unfolding find_if erase_if
  find-erase_if i j lo [] a = ground arith
  find-erase_if i j lo (x ∷ xs) a = ground (
    arith,
    int_iff (key x) i,
    int_iff (key x) j,
    int_iff i j,
    find-erase_if i j (key x) xs a.1,
    find-above i (key x) xs a.1,
  )

  pub find-select :
      (q : A → Bool) (i lo : ℤ) (xs : List A)
      → Ascends lo xs
      → find_if (has i) (select q xs)
        ≡ elim (find_if (has i) xs) [ none ↦ none | some x ↦ if q x then some x else none ]
  unfolding find_if select
  find-select q i lo [] a = refl
  find-select q i lo (x ∷ xs) a =
      ground (arith, int_iff (key x) i, find-select q i (key x) xs a.1, find-above i (key x) xs a.1)

  -- What holds of every record that can be found holds of all.
  pub All-found {κ} :
      (P : A → Type κ) (lo : ℤ) (xs : List A)
      → Ascends lo xs
      → ((i : ℤ) (x : A) → find_if (has i) xs ≡ some x → P x)
      → All P xs
  unfolding find_if
  All-found P lo [] a h = tt
  All-found P lo (x ∷ xs) a h = (
    h (key x) x (rw ((int_iff (key x) (key x)).1 refl)),
    All-found P (key x) xs a.1
        (λ i y e. h i y (ground (arith, int_iff (key x) i, find-above i (key x) xs a.1))),
  )

  -- Whatever is found is found by its key.
  above-miss :
      (p : A → Bool) (lo : ℤ) (xs : List A) (x : A)
      → Ascends lo xs
      → find_if p xs ≡ some x
      → lo <ℤ key x
  unfolding find_if
  above-miss p lo [] x a e = absurd (cc e)
  above-miss p lo (y ∷ xs) x a e = elim (Bool-cases (p y)) [
    | inl hit ↦ subst (λ z. lo <ℤ key z) (some_inj (ground (arith, hit))) a.0
    | inr miss ↦ omega (arith, a.0, above-miss p (key y) xs x a.1 (ground (arith, miss)))
  ]

  pub find-keyed :
      (p : A → Bool) (lo : ℤ) (xs : List A) (x : A)
      → Ascends lo xs
      → find_if p xs ≡ some x
      → find_if (has (key x)) xs ≡ some x
  unfolding find_if
  find-keyed p lo [] x a e = absurd (cc e)
  find-keyed p lo (y ∷ xs) x a e =
      ground (
        arith,
        int_iff (key y) (key x),
        above-miss p (key y) xs x a.1,
        find-keyed p (key y) xs x a.1,
      )
