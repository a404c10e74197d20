-- ===== src/Common/Named.antt =====
-- Vectors of records that carry a name each, no name twice.
use mathlib.Core.Path.{◌≡◌, refl, ◌∙◌, ap}
use mathlib.Core.Bool.{Bool, false}
use mathlib.Core.List.{List, [], ◌∷◌, ◌++◌}
use mathlib.Core.Option.{none, some}
use mathlib.Core.Logic.{inl, inr}
use Prim.Native.String.{String}
use native.Mathlib.Omega.{arith}
use iot_dev_sys.Common.Tests.{Bool-cases, ◌==◌, text_iff}
use iot_dev_sys.Common.Lists.{find_if, erase_if, update_if, any, any-append}

module _ {ℓ} {A : Type ℓ} where
  any-update_if :
      (p q : A → Bool) (f : A → A) (xs : List A)
      → ((x : A) → q (f x) ≡ q x)
      → any q (update_if p f xs) ≡ any q xs
  unfolding any update_if
  any-update_if p q f [] keep = refl
  any-update_if p q f (x ∷ xs) keep = ground (arith, keep x, any-update_if p q f xs keep)

  any-erase_if : (p q : A → Bool) (xs : List A) → any q xs ≡ false → any q (erase_if p xs) ≡ false
  unfolding any erase_if
  any-erase_if p q [] h = refl
  any-erase_if p q (x ∷ xs) h = ground (arith, any-erase_if p q xs)

  pub any-find_if : (p : A → Bool) (xs : List A) → find_if p xs ≡ none → any p xs ≡ false
  unfolding any find_if
  any-find_if p [] h = refl
  any-find_if p (x ∷ xs) h = ground (arith, any-find_if p xs)

  any-found :
      (p q : A → Bool) (xs : List A) (x : A)
      → find_if p xs ≡ some x
      → any q xs ≡ false
      → q x ≡ false
  unfolding any find_if
  any-found p q [] x e h = absurd (cc e)
  any-found p q (y ∷ xs) x e h = ground (arith, any-found p q xs x)

module _ {ℓ} {A : Type ℓ} (key : A → String) where
  abbrev pub named : String → A → Bool
  named name x = key x == name

  abbrev pub Distinct : List A → Type 0
  Distinct [] = Unit
  Distinct (x ∷ xs) = (any (named (key x)) xs ≡ false) × Distinct xs

  pub Distinct-update_if :
      (p : A → Bool) (f : A → A) (xs : List A)
      → ((x : A) → key (f x) ≡ key x)
      → Distinct xs
      → Distinct (update_if p f xs)
  unfolding update_if
  Distinct-update_if p f [] keep d = tt
  Distinct-update_if p f (x ∷ xs) keep d = elim (Bool-cases (p x)) [
    | inl hit ↦ rw hit (rw (keep x) d)
    | inr miss ↦ rw miss (
      any-update_if p (named (key x)) f xs (λ y. ap (λ t. t == key x) (keep y)) ∙ d.0,
      Distinct-update_if p f xs keep d.1,
    )
  ]

  pub Distinct-erase_if : (p : A → Bool) (xs : List A) → Distinct xs → Distinct (erase_if p xs)
  unfolding erase_if
  Distinct-erase_if p [] d = tt
  Distinct-erase_if p (x ∷ xs) d = elim (Bool-cases (p x)) [
    | inl hit ↦ rw hit d.1
    | inr miss ↦ rw miss (any-erase_if p (named (key x)) xs d.0, Distinct-erase_if p xs d.1)
  ]

  pub Distinct-concat :
      (xs : List A) (x : A) → any (named (key x)) xs ≡ false → Distinct xs → Distinct (xs ++ x ∷ [])
  unfolding any
  Distinct-concat [] x free d = (refl, tt)
  Distinct-concat (y ∷ xs) x free d = ground (
    arith,
    any-append (named (key y)) xs (x ∷ []),
    text_iff (key y) (key x),
    text_iff (key x) (key y),
    Distinct-concat xs x,
  )

  -- Whatever is found is found by its name.
  pub find-named :
      (p : A → Bool) (xs : List A) (x : A)
      → Distinct xs
      → find_if p xs ≡ some x
      → find_if (named (key x)) xs ≡ some x
  unfolding find_if
  find-named p [] x d e = absurd (cc e)
  find-named p (y ∷ xs) x d e = ground (
    arith,
    text_iff (key y) (key x),
    text_iff (key x) (key y),
    any-found p (named (key y)) xs x,
    find-named p xs x d.1,
  )
