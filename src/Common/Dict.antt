-- ===== src/Common/Dict.antt =====
-- Dictionaries with text keys, `std::map` and `std::unordered_map`: the list of the entries in the
-- order in which a loop visits them. The source leaves that order open for an unordered map, so it
-- is whatever the list says, and no statement depends on where `put` adds a new key.
use mathlib.Core.Path.{◌≡◌, refl, ap, subst}
use mathlib.Core.Bool.{Bool, true}
use mathlib.Core.List.{List, [], ◌∷◌}
use mathlib.Core.Option.{Option, none, some}
use mathlib.Core.Logic.{inl, inr}
use native.Mathlib.Omega.{arith}
use Prim.Native.Nat.{suc}
use Prim.Native.String.{String}
use iot_dev_sys.Common.Tests.{◌==◌, text_iff, text_self, if◌then◌else◌, Bool-cases, some_inj}
use iot_dev_sys.Common.Lists.{All, length, any}

abbrev pub Dict {ℓ} : Type ℓ → Type ℓ
Dict V = List (String × V)

module _ {ℓ} {V : Type ℓ} where
  unfoldable pub lookup : String → Dict V → Option V
  lookup k [] = none
  lookup k ((j, v) ∷ m) = if j == k then some v else lookup k m

  -- `m[k] = v`
  unfoldable pub put : String → V → Dict V → Dict V
  put k v [] = (k, v) ∷ []
  put k v ((j, w) ∷ m) = if j == k then (j, v) ∷ m else (j, w) ∷ put k v m

  -- `m.erase(k)`
  unfoldable pub without : String → Dict V → Dict V
  without k [] = []
  without k ((j, v) ∷ m) = if j == k then without k m else (j, v) ∷ without k m

  unfoldable pub values : Dict V → List V
  values [] = []
  values ((k, v) ∷ m) = v ∷ values m

  -- The keys of a map are distinct.
  abbrev pub Distinct : Dict V → Type ℓ
  Distinct [] = Unit
  Distinct ((k, v) ∷ m) = (lookup k m ≡ none) × Distinct m

  pub lookup-put :
      (k j : String) (v : V) (m : Dict V)
      → lookup j (put k v m) ≡ (if k == j then some v else lookup j m)
  unfolding lookup put
  lookup-put k j v [] = refl
  lookup-put k j v ((i, w) ∷ m) =
      ground (arith, text_iff k j, text_iff i k, text_iff i j, lookup-put k j v m)

  pub lookup-without :
      (k j : String) (m : Dict V) → lookup j (without k m) ≡ (if k == j then none else lookup j m)
  unfolding lookup without
  lookup-without k j [] = ground arith
  lookup-without k j ((i, v) ∷ m) =
      ground (arith, text_iff k j, text_iff i k, text_iff i j, lookup-without k j m)

  pub put-Distinct : (k : String) (v : V) (m : Dict V) → Distinct m → Distinct (put k v m)
  unfolding put
  put-Distinct k v [] d = (unfold lookup in refl, tt)
  put-Distinct k v ((j, w) ∷ m) d =
      ground (arith, put-Distinct k v m d.1, lookup-put k j v m, text_iff j k, text_iff k j)

  pub without-Distinct : (k : String) (m : Dict V) → Distinct m → Distinct (without k m)
  unfolding without
  without-Distinct k [] d = tt
  without-Distinct k ((j, w) ∷ m) d = ground (arith, without-Distinct k m d.1, lookup-without k j m)

  -- What a key gives is among the values.
  pub length-values : (m : Dict V) → length (values m) ≡ length m
  unfolding values
  length-values [] = refl
  length-values ((k, v) ∷ m) = ap suc (length-values m)

  without_miss : (k : String) (m : Dict V) → lookup k m ≡ none → without k m ≡ m
  unfolding lookup without
  without_miss k [] e = refl
  without_miss k ((j, w) ∷ m) e = ground (arith, without_miss k m)

  -- Taking out a key that is there takes out one entry.
  pub length-without :
      (k : String) (v : V) (m : Dict V)
      → Distinct m
      → lookup k m ≡ some v
      → suc (length (without k m)) ≡ length m
  unfolding lookup without
  length-without k v [] d e = cc
  length-without k v ((j, w) ∷ m) d e =
      ground (arith, length-without k v m d.1, without_miss k m, text_iff j k)

  -- A property of every value.
  abbrev pub Each {κ} : (V → Type κ) → Dict V → Type κ
  Each P [] = Unit
  Each P ((k, v) ∷ m) = P v × Each P m

  pub Each-put {κ} :
      (P : V → Type κ) (k : String) (v : V) (m : Dict V) → P v → Each P m → Each P (put k v m)
  unfolding put
  Each-put P k v [] p h = (p, tt)
  Each-put P k v ((j, w) ∷ m) p h = ground (arith, Each-put P k v m p h.1)

  pub Each-without {κ} :
      (P : V → Type κ) (k : String) (m : Dict V) → Each P m → Each P (without k m)
  unfolding without
  Each-without P k [] h = tt
  Each-without P k ((j, w) ∷ m) h = ground (arith, Each-without P k m h.1)

  pub Each-lookup {κ} :
      (P : V → Type κ) (k : String) (v : V) (m : Dict V) → Each P m → lookup k m ≡ some v → P v
  unfolding lookup
  Each-lookup P k v [] h e = cc
  Each-lookup P k v ((j, w) ∷ m) h e = elim (Bool-cases (j == k)) [
    | inl hit ↦ subst P (some_inj (rw hit at e)) h.0
    | inr miss ↦ Each-lookup P k v m h.1 (rw miss at e)
  ]

  pub All-values {κ} :
      (P : V → Type κ) (m : Dict V)
      → Distinct m
      → ((k : String) (v : V) → lookup k m ≡ some v → P v)
      → All P (values m)
  unfolding lookup values
  All-values P [] d h = tt
  All-values P ((j, w) ∷ m) d h =
      (h j w (rw (text_self j)), All-values P m d.1 (λ k v e. h k v (ground (arith, text_iff j k))))

  pub any-values :
      (p : V → Bool) (k : String) (v : V) (m : Dict V)
      → lookup k m ≡ some v
      → p v ≡ true
      → any p (values m) ≡ true
  unfolding lookup values any
  any-values p k v [] e h = cc
  any-values p k v ((j, w) ∷ m) e h = ground (arith, any-values p k v m)

  -- A new key is one more entry.
  pub length-put_new :
      (k : String) (v : V) (m : Dict V) → lookup k m ≡ none → length (put k v m) ≡ suc (length m)
  unfolding lookup put
  length-put_new k v [] e = refl
  length-put_new k v ((j, w) ∷ m) e = ground (arith, length-put_new k v m)
