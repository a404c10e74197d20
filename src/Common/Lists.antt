-- ===== src/Common/Lists.antt =====
-- Sequences: the loops of `<algorithm>` that the source calls on vectors and deques.
use Prim.Native.Nat.{ℕ, suc, ◌+◌, ◌≤◌}
use mathlib.Core.Path.{◌≡◌, refl, ap, subst}
use mathlib.Core.Logic.{inl, inr}
use mathlib.Core.Bool.{Bool, true, false, ◌&&◌, ◌||◌}
use mathlib.Core.List.{List, [], ◌∷◌, ◌++◌, map, Perm}
use mathlib.Core.List.Perm
use mathlib.Core.Option.{Option, none, some}
use native.Mathlib.Omega.{arith}
use iot_dev_sys.Common.Tests.{if◌then◌else◌, Bool-cases, some_inj}

module _ {ℓ} {A : Type ℓ} where
  abbrev pub length : List A → ℕ
  length [] = 0
  length (x ∷ xs) = suc (length xs)

  pub length-append : (xs ys : List A) → length (xs ++ ys) ≡ length xs + length ys
  length-append [] ys = omega arith
  length-append (x ∷ xs) ys = omega (arith, length-append xs ys)

  -- `std::find_if`, dereferenced; `none` is the end iterator.
  unfoldable pub find_if : (A → Bool) → List A → Option A
  find_if p [] = none
  find_if p (x ∷ xs) = if p x then some x else find_if p xs

  -- `erase` of the iterator that `find_if` returned.
  unfoldable pub erase_if : (A → Bool) → List A → List A
  erase_if p [] = []
  erase_if p (x ∷ xs) = if p x then xs else x ∷ erase_if p xs

  -- A write through the iterator that `find_if` returned.
  unfoldable pub update_if : (A → Bool) → (A → A) → List A → List A
  update_if p f [] = []
  update_if p f (x ∷ xs) = if p x then f x ∷ xs else x ∷ update_if p f xs

  -- The elements that pass, in order; a loop that pushes them back.
  unfoldable pub select : (A → Bool) → List A → List A
  select p [] = []
  select p (x ∷ xs) = if p x then x ∷ select p xs else select p xs

  -- `std::any_of`
  unfoldable pub any : (A → Bool) → List A → Bool
  any p [] = false
  any p (x ∷ xs) = if p x then true else any p xs

module _ {ℓ κ} {A : Type ℓ} (P : A → Type κ) where
  abbrev pub All : List A → Type κ
  All [] = Unit
  All (x ∷ xs) = P x × All xs

  pub All-append : (xs ys : List A) → All xs → All ys → All (xs ++ ys)
  All-append [] ys h k = k
  All-append (x ∷ xs) ys h k = (h.0, All-append xs ys h.1 k)

  pub All-erase_if : (p : A → Bool) (xs : List A) → All xs → All (erase_if p xs)
  unfolding erase_if
  All-erase_if p [] h = tt
  All-erase_if p (x ∷ xs) h = ground (arith, All-erase_if p xs h.1)

  pub All-select : (p : A → Bool) (xs : List A) → All xs → All (select p xs)
  unfolding select
  All-select p [] h = tt
  All-select p (x ∷ xs) h = ground (arith, All-select p xs h.1)

  pub All-update_if :
      (p : A → Bool) (f : A → A) (xs : List A)
      → ((x : A) → P x → P (f x))
      → All xs
      → All (update_if p f xs)
  unfolding update_if
  All-update_if p f [] keep h = tt
  All-update_if p f (x ∷ xs) keep h = ground (arith, keep x h.0, All-update_if p f xs keep h.1)

  pub All-find_if : (p : A → Bool) (xs : List A) (x : A) → All xs → find_if p xs ≡ some x → P x
  unfolding find_if
  All-find_if p [] x h e = cc
  All-find_if p (y ∷ xs) x h e = elim (Bool-cases (p y)) [
    | inl hit ↦ subst P (some_inj (rw hit at e)) h.0
    | inr miss ↦ All-find_if p xs x h.1 (rw miss at e)
  ]

module _ {ℓ} {A : Type ℓ} (p : A → Bool) where
  -- What `find_if` returns passes the test.
  pub find_if-passes : (xs : List A) {x : A} → find_if p xs ≡ some x → p x ≡ true
  unfolding find_if
  find_if-passes [] e = cc
  find_if-passes (y ∷ xs) {x} e = elim (Bool-cases (p y)) [
    | inl hit ↦ subst (λ z. p z ≡ true) (some_inj (rw hit at e)) hit
    | inr miss ↦ find_if-passes xs (rw miss at e)
  ]

  -- `erase` takes out one copy of what `find_if` found and nothing else.
  pub erase_if-perm : (xs : List A) (x : A) → find_if p xs ≡ some x → Perm xs (x ∷ erase_if p xs)
  unfolding find_if erase_if
  erase_if-perm [] x e = cc
  erase_if-perm (y ∷ xs) x e = elim (Bool-cases (p y)) [
    | inl hit ↦ rw hit (Perm.cons' (some_inj (rw hit at e)) Perm.rfl)
    | inr miss ↦
        rw miss (Perm.trans (Perm.cons y (erase_if-perm xs x (rw miss at e))) (Perm.swap x y _))
  ]

  pub length-erase_if :
      (xs : List A) (x : A) → find_if p xs ≡ some x → suc (length (erase_if p xs)) ≡ length xs
  unfolding find_if erase_if
  length-erase_if [] x e = cc
  length-erase_if (y ∷ xs) x e = elim (Bool-cases (p y)) [
    | inl hit ↦ rw hit refl
    | inr miss ↦ rw miss (ap suc (length-erase_if xs x (rw miss at e)))
  ]

  pub length-erase_if-le : (xs : List A) → length (erase_if p xs) ≤ length xs
  unfolding erase_if
  length-erase_if-le [] = omega arith
  length-erase_if-le (x ∷ xs) = ground (arith, length-erase_if-le xs)

  pub length-update_if : (f : A → A) (xs : List A) → length (update_if p f xs) ≡ length xs
  unfolding update_if
  length-update_if f [] = refl
  length-update_if f (x ∷ xs) = ground (arith, length-update_if f xs)

  -- A projection that the written value keeps is kept along the whole sequence.
  pub map-update_if {κ} :
      {B : Type κ} (g : A → B) (f : A → A) (xs : List A)
      → ((x : A) → g (f x) ≡ g x)
      → map g (update_if p f xs) ≡ map g xs
  unfolding update_if
  map-update_if g f [] keep = refl
  map-update_if g f (x ∷ xs) keep = elim (Bool-cases (p x)) [
    | inl hit ↦ rw hit (ap (λ y. y ∷ map g xs) (keep x))
    | inr miss ↦ rw miss (ap (λ ys. g x ∷ ys) (map-update_if g f xs keep))
  ]

  pub find_if-append_none :
      (xs ys : List A) → find_if p xs ≡ none → find_if p (xs ++ ys) ≡ find_if p ys
  unfolding find_if
  find_if-append_none [] ys e = refl
  find_if-append_none (x ∷ xs) ys e = ground (arith, find_if-append_none xs ys)

  pub find_if-append_some :
      (xs ys : List A) {x : A} → find_if p xs ≡ some x → find_if p (xs ++ ys) ≡ some x
  unfolding find_if
  find_if-append_some [] ys e = cc
  find_if-append_some (y ∷ xs) ys {x} e = ground (arith, find_if-append_some xs ys {x = x})

  pub find_if-update_if :
      (f : A → A) (xs : List A) {x : A}
      → find_if p xs ≡ some x
      → p (f x) ≡ true
      → find_if p (update_if p f xs) ≡ some (f x)
  unfolding find_if update_if
  find_if-update_if f [] e h = cc
  find_if-update_if f (y ∷ xs) {x} e h = ground (arith, find_if-update_if f xs {x = x})

  -- A missed search leaves both `erase` and the write with nothing to do.
  pub erase_if-miss : (xs : List A) → find_if p xs ≡ none → erase_if p xs ≡ xs
  unfolding find_if erase_if
  erase_if-miss [] e = refl
  erase_if-miss (x ∷ xs) e = ground (arith, erase_if-miss xs)

  -- Searching for the element that was pushed back last.
  pub find_if-concat :
      (xs : List A) (y : A) → find_if p xs ≡ none → p y ≡ true → find_if p (xs ++ y ∷ []) ≡ some y
  unfolding find_if
  find_if-concat [] y e h = rw h
  find_if-concat (x ∷ xs) y e h = ground (arith, find_if-concat xs y)

  pub update_if-concat :
      (f : A → A) (xs : List A) (y : A)
      → find_if p xs ≡ none
      → p y ≡ true
      → update_if p f (xs ++ y ∷ []) ≡ xs ++ f y ∷ []
  unfolding find_if update_if
  update_if-concat f [] y e h = rw h
  update_if-concat f (x ∷ xs) y e h = ground (arith, update_if-concat f xs y)

  pub erase_if-concat :
      (xs : List A) (y : A) → find_if p xs ≡ none → p y ≡ true → erase_if p (xs ++ y ∷ []) ≡ xs
  unfolding find_if erase_if
  erase_if-concat [] y e h = rw h
  erase_if-concat (x ∷ xs) y e h = ground (arith, erase_if-concat xs y)

  pub any-append : (xs ys : List A) → any p (xs ++ ys) ≡ (any p xs || any p ys)
  unfolding any
  any-append [] ys = refl
  any-append (x ∷ xs) ys = ground (arith, any-append xs ys)

  -- Where all the elements that pass `p` are one value, some selected element passes exactly when
  -- some element passes and that value is selected.
  pub any-select :
      (q : A → Bool) (a : A) (xs : List A)
      → All (λ x. p x ≡ true → x ≡ a) xs
      → any p (select q xs) ≡ (any p xs && q a)
  unfolding any select
  any-select q a [] h = refl
  any-select q a (x ∷ xs) h = elim (Bool-cases (p x)) [
    | inl hit ↦ ground (arith, any-select q a xs h.1, h.0 hit, ap q (h.0 hit))
    | inr miss ↦ ground (arith, any-select q a xs h.1)
  ]
