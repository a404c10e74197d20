-- ===== src/Ulid/Order.antt =====
-- The order of the texts that `UlidGenerator` of include/dev_sys/common/types.h makes.
use Prim.Native.Char.{Char, code}
use iot_dev_sys.Common.{
  ℕ, zero, suc, ◌+◌, ◌-◌, ◌/◌, ◌%◌, ◌^◌, ◌<◌, ◌≤◌, ◌≡◌, ◌≢◌, ◌↔◌, refl, sym, ap, ◌∙◌, subst, Bool,
  true, false, ◌&&◌, String, arith, inl, inr, Bool-cases, ltb, nat_eq, if◌then◌else◌, List,
}
use native.Mathlib.Nat.{le-div_iff_mul-le, div-mul-le_self, div-div-eq-div-mul}
use iot_dev_sys.Common.Text.{append, is}
use iot_dev_sys.Ulid.{crockford, char_at, place, time_from, encode_time, generate, encode_random}

-- The order of texts by their characters.
unfoldable pub precedes : String → String → Bool
precedes s String.[] = false
precedes String.[] (String.◌∷◌ d t) = true
precedes (String.◌∷◌ c s) (String.◌∷◌ d t) =
    if ltb (code c) (code d) then true else if is c d then precedes s t else false

all_below : ℕ → (ℕ → Bool) → Bool
all_below zero p = true
all_below (suc n) p = p n && all_below n p

all_below_lem : (n i : ℕ) (p : ℕ → Bool) → all_below n p ≡ true → i < n → p i ≡ true
unfolding all_below
all_below_lem zero i p h l = absurd (omega arith)
all_below_lem (suc n) i p h l = elim (Bool-cases (nat_eq i n)) [
  | inl same ↦
      (let e : n ≡ i = ground (arith, same) in subst (λ j. p j ≡ true) e (ground (arith, h)))
  | inr other ↦ all_below_lem n i p (ground (arith, h)) (ground (arith, other))
]

abbrev symbol : ℕ → ℕ
symbol n = code (char_at n crockford)

ascends : ℕ → Bool
ascends n = ltb (symbol n) (symbol (suc n))

symbols_ascend : all_below 31 ascends ≡ true
unfolding all_below ascends char_at
symbols_ascend = refl

symbol-next : (n : ℕ) → n < 31 → symbol n < symbol (suc n)
unfolding ascends
symbol-next n h = ground (arith, all_below_lem 31 n ascends symbols_ascend h)

symbol_mono : (m k : ℕ) → m + suc k < 32 → symbol m < symbol (m + suc k)
symbol_mono m zero h = (ground (arith, symbol-next m))
symbol_mono m (suc k) h = ground (arith, symbol-next (m + suc k), symbol_mono m k)

symbol_lt : (m n : ℕ) → m < n → n < 32 → symbol m < symbol n
symbol_lt m n h l =
    (let e : m + suc (n - m - 1) ≡ n = omega arith in
      subst (λ j. symbol m < symbol j) e (symbol_mono m (n - m - 1) (omega arith)))

place-positive : (k : ℕ) → 0 < place k
unfolding place
place-positive zero = omega arith
place-positive (suc k) = omega (arith, place-positive k)

div_mono : (a b d : ℕ) → 0 < d → a ≤ b → a / d ≤ b / d
div_mono a b d h l = (le-div_iff_mul-le h).1 (omega (arith, l, div-mul-le_self a d))

place-suc : (a k : ℕ) → a / place (suc k) ≡ a / place k / 32
unfolding place
place-suc a k = sym (div-div-eq-div-mul a (place k) 32)

-- The same character in front of both texts, or a smaller one in front of the first.
precedes_same :
    (c d : Char) (s t : String)
    → code c ≡ code d
    → precedes s t ≡ true
    → precedes (String.◌∷◌ c s) (String.◌∷◌ d t) ≡ true
unfolding precedes
precedes_same c d s t e h = ground (arith, e, h)

precedes_smaller :
    (c d : Char) (s t : String)
    → code c < code d
    → precedes (String.◌∷◌ c s) (String.◌∷◌ d t) ≡ true
unfolding precedes
precedes_smaller c d s t h = ground (arith, h)

place-zero : (a b : ℕ) → a / place zero ≡ b / place zero → a < b → ⊥
unfolding place
place-zero a b e h = omega (arith, e, h)

digit_lt : (m n : ℕ) → m ≤ n → m ≢ n → m / 32 ≡ n / 32 → m % 32 < n % 32
digit_lt m n l d e = ground (arith, l, d, e)

time_from-precedes :
    (k a b : ℕ) (s t : String)
    → a / place k ≡ b / place k
    → a < b
    → precedes (append (time_from k a) s) (append (time_from k b) t) ≡ true
unfolding time_from append
time_from-precedes zero a b s t e h = absurd (place-zero a b e h)
time_from-precedes (suc k) a b s t e h = elim (Bool-cases (nat_eq (a / place k) (b / place k))) [
  | inl same ↦
      (let e' : a / place k ≡ b / place k = ground (arith, same) in
        precedes_same _ _ _ _ (ap (λ q. symbol (q % 32)) e') (time_from-precedes k a b s t e' h))
  | inr other ↦ precedes_smaller _ _ _ _ (
      symbol_lt (a / place k % 32) (b / place k % 32)
        (digit_lt (a / place k) (b / place k)
          (div_mono a b (place k) (place-positive k) (omega arith)) (ground (arith, other))
          (sym (place-suc a k) ∙ e ∙ place-suc b k))
        (omega arith))
]

encode_time-small : (a : ℕ) → a < 2 ^ 48 → encode_time a ≡ time_from 10 a
unfolding encode_time
encode_time-small a h = ap (time_from 10) {x = a % 2 ^ 48} {y = a} (omega arith)

high-zero : (a : ℕ) → a < 2 ^ 48 → a / place 10 ≡ 0
unfolding place
high-zero a h = omega arith

-- An id that was made at an earlier millisecond comes before one that was made later, whatever the random
-- bytes are, as long as the time is below 2 ^ 48.
pub generate-precedes :
    (a b : ℕ) (r q : List ℕ) → a < b → b < 2 ^ 48 → precedes (generate a r) (generate b q) ≡ true
unfolding generate
generate-precedes a b r q h l =
    rw (encode_time-small a (omega arith), encode_time-small b l)
      (time_from-precedes 10 a b (encode_random r) (encode_random q)
        (high-zero a (omega arith) ∙ sym (high-zero b l)) h)

precedes-irreflexive : (s : String) → precedes s s ≡ false
unfolding precedes
precedes-irreflexive String.[] = refl
precedes-irreflexive (String.◌∷◌ c s) = ground (arith, precedes-irreflexive s)

time_from_differs : (a b : ℕ) → a < b → b < 2 ^ 48 → time_from 10 a ≢ time_from 10 b
time_from_differs a b h l e = absurd (
    cc (
      precedes-irreflexive (append (time_from 10 b) ""),
      subst (λ x. precedes (append x "") (append (time_from 10 b) "") ≡ true) e
          (time_from-precedes 10 a b "" "" (high-zero a (omega arith) ∙ sym (high-zero b l)) h),
    ))

time_from_inj : (a b : ℕ) → a < 2 ^ 48 → b < 2 ^ 48 → time_from 10 a ≡ time_from 10 b → a ≡ b
time_from_inj a b h l e = elim (Bool-cases (nat_eq a b)) [
  | inl same ↦ ground (arith, same)
  | inr other ↦ elim (Bool-cases (ltb a b)) [
    | inl less ↦ absurd (time_from_differs a b (ground (arith, less)) l e)
    | inr more ↦ absurd (time_from_differs b a (ground (arith, other, more)) h (sym e))
  ]
]

-- The ten characters of the time tell two times apart exactly if they differ by other than a multiple of
-- 2 ^ 48 milliseconds.
encode_time_iff : (a b : ℕ) → (encode_time a ≡ encode_time b) ↔ (a % 2 ^ 48 ≡ b % 2 ^ 48)
unfolding encode_time
encode_time_iff a b = (
  λ e. time_from_inj (a % 2 ^ 48) (b % 2 ^ 48) (omega arith) (omega arith) e,
  λ e. ap (time_from 10) e,
)
