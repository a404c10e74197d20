-- ===== src/Json/Numbers.antt =====
-- `std::to_string` of an `int` in src/app/message_router.cpp, for the numbers that `std::stoi` of
-- include/dev_sys/common/types.h reads.
use iot_dev_sys.Common.{
  ℕ, zero, suc, ◌+◌, ◌*◌, ◌/◌, ◌%◌, ◌≤◌, ◌<◌, ◌≡◌, refl, sym, ap, ◌∙◌, Bool, true, false, String,
  some, arith, inl, inr, Bool-cases, ltb, if◌then◌else◌,
}
use iot_dev_sys.Common.Int.{ℤ, pos, negsuc, neg, ◌≤ℤ◌, ◌<ℤ◌}
use iot_dev_sys.Common.Text.{append, pick}
use iot_dev_sys.Json.{is_digit, digits, in_range, number, signed, stoi, stoll, skip_space}

abbrev begins : String → Bool
begins String.[] = false
begins (String.◌∷◌ c s) = is_digit c

unfoldable pub digit : ℕ → String
unfolding pick
digit n = pick n "0123456789"

-- The decimal digits of `n`, in front of `t`; a number has at most as many digits as it is large.
unfoldable pub decimal : ℕ → ℕ → String → String
unfolding digit append
decimal zero n t = append (digit n) t
decimal (suc fuel) n t =
    if ltb n 10 then append (digit n) t else decimal fuel (n / 10) (append (digit (n % 10)) t)

unfoldable pub to_string : ℤ → String
unfolding decimal
to_string (pos n) = decimal n n ""
to_string (negsuc n) = append "-" (decimal (suc n) (suc n) "")

-- Reading one digit, and that it is one.
digits-digit :
    (n acc : ℕ) (t : String) → n < 10 → digits acc (append (digit n) t) ≡ digits (acc * 10 + n) t
unfolding digits digit append pick
digits-digit zero acc t h = refl
digits-digit (suc zero) acc t h = refl
digits-digit (suc (suc zero)) acc t h = refl
digits-digit (suc (suc (suc zero))) acc t h = refl
digits-digit (suc (suc (suc (suc zero)))) acc t h = refl
digits-digit (suc (suc (suc (suc (suc zero))))) acc t h = refl
digits-digit (suc (suc (suc (suc (suc (suc zero)))))) acc t h = refl
digits-digit (suc (suc (suc (suc (suc (suc (suc zero))))))) acc t h = refl
digits-digit (suc (suc (suc (suc (suc (suc (suc (suc zero)))))))) acc t h = refl
digits-digit (suc (suc (suc (suc (suc (suc (suc (suc (suc zero))))))))) acc t h = refl
digits-digit (suc (suc (suc (suc (suc (suc (suc (suc (suc (suc n)))))))))) acc t h = omega arith

begins-digit : (n : ℕ) (t : String) → n < 10 → begins (append (digit n) t) ≡ true
unfolding digit append pick
begins-digit zero t h = refl
begins-digit (suc zero) t h = refl
begins-digit (suc (suc zero)) t h = refl
begins-digit (suc (suc (suc zero))) t h = refl
begins-digit (suc (suc (suc (suc zero)))) t h = refl
begins-digit (suc (suc (suc (suc (suc zero))))) t h = refl
begins-digit (suc (suc (suc (suc (suc (suc zero)))))) t h = refl
begins-digit (suc (suc (suc (suc (suc (suc (suc zero))))))) t h = refl
begins-digit (suc (suc (suc (suc (suc (suc (suc (suc zero)))))))) t h = refl
begins-digit (suc (suc (suc (suc (suc (suc (suc (suc (suc zero))))))))) t h = refl
begins-digit (suc (suc (suc (suc (suc (suc (suc (suc (suc (suc n)))))))))) t h = ground arith

digits-decimal : (fuel n : ℕ) (t : String) → n ≤ fuel → digits 0 (decimal fuel n t) ≡ digits n t
unfolding decimal
digits-decimal zero n t h = digits-digit n 0 t (omega arith) ∙ ap (λ k. digits k t) (omega arith)
digits-decimal (suc fuel) n t h = elim (Bool-cases (ltb n 10)) [
  | inl short ↦ rw short (digits-digit n 0 t (ground arith) ∙ ap (λ k. digits k t) (omega arith))
  | inr long ↦ rw long (
      digits-decimal fuel (n / 10) (append (digit (n % 10)) t) (ground arith)
      ∙ digits-digit (n % 10) (n / 10) t (omega arith)
      ∙ ap (λ k. digits k t) (omega arith))
]

begins-decimal : (fuel n : ℕ) (t : String) → n ≤ fuel → begins (decimal fuel n t) ≡ true
unfolding decimal
begins-decimal zero n t h = begins-digit n t (omega arith)
begins-decimal (suc fuel) n t h = elim (Bool-cases (ltb n 10)) [
  | inl short ↦ rw short (begins-digit n t (ground arith))
  | inr long ↦ rw long (begins-decimal fuel (n / 10) (append (digit (n % 10)) t) (ground arith))
]

-- The text read is a number that begins with a digit.
number_lem :
    (limit : ℕ) (negative : Bool) (s : String)
    → begins s ≡ true
    → number limit negative s ≡ in_range limit negative (digits 0 s)
unfolding number
number_lem limit negative String.[] h = ground arith
number_lem limit negative (String.◌∷◌ c s) h = ground arith

signed-number :
    (limit : ℕ) (s : String) → begins s ≡ true → signed limit (skip_space s) ≡ number limit false s
unfolding signed skip_space
signed-number limit String.[] h = ground arith
signed-number limit (String.◌∷◌ c s) h = ground arith

number-decimal :
    (limit : ℕ) (negative : Bool) (n : ℕ)
    → number limit negative (decimal n n "") ≡ in_range limit negative n
unfolding digits
number-decimal limit negative n =
    number_lem limit negative (decimal n n "") (begins-decimal n n "" (omega arith))
    ∙ rw (digits-decimal n n "" (omega arith)) refl

signed_minus :
    (limit : ℕ) (s : String) → signed limit (skip_space (append "-" s)) ≡ number limit true s
unfolding signed skip_space append
signed_minus limit s = refl

neg-suc : (n : ℕ) → neg (suc n) ≡ negsuc n
neg-suc n = ground arith

abbrev pub IsInt : ℤ → Type 0
IsInt z = (neg 2147483648 ≤ℤ z) × (z ≤ℤ pos 2147483647)

abbrev pub IsLong : ℤ → Type 0
IsLong z = (neg 9223372036854775808 ≤ℤ z) × (z ≤ℤ pos 9223372036854775807)

-- A number in the range of a type that is printed is read back as itself.
signed-to_string :
    (limit : ℕ) (z : ℤ)
    → neg (suc limit) ≤ℤ z
    → z ≤ℤ pos limit
    → signed limit (skip_space (to_string z)) ≡ some z
unfolding to_string
signed-to_string limit (pos n) l h =
    signed-number limit (decimal n n "") (begins-decimal n n "" (omega arith))
    ∙ number-decimal limit false n
    ∙ ground arith
signed-to_string limit (negsuc n) l h =
    signed_minus limit (decimal (suc n) (suc n) "")
    ∙ number-decimal limit true (suc n)
    ∙ ground (arith, neg-suc n)

-- A number of any size that is printed is read as itself if it is in the range, and not at all otherwise.
pub stoi_natural : (n : ℕ) → stoi (to_string (pos n)) ≡ in_range 2147483647 false n
unfolding stoi to_string
stoi_natural n =
    signed-number 2147483647 (decimal n n "") (begins-decimal n n "" (omega arith))
    ∙ number-decimal 2147483647 false n

pub stoi_negative : (n : ℕ) → stoi (to_string (negsuc n)) ≡ in_range 2147483647 true (suc n)
unfolding stoi to_string
stoi_negative n =
    signed_minus 2147483647 (decimal (suc n) (suc n) "") ∙ number-decimal 2147483647 true (suc n)

-- An `int` that is printed is read back as itself.
pub stoi-to_string : (z : ℤ) → IsInt z → stoi (to_string z) ≡ some z
unfolding stoi
stoi-to_string z h = signed-to_string 2147483647 z h.0 h.1

-- So is a number of 64 bits.
pub stoll-to_string : (z : ℤ) → IsLong z → stoll (to_string z) ≡ some z
unfolding stoll
stoll-to_string z h = signed-to_string 9223372036854775807 z h.0 h.1

-- Natural numbers that are printed alike are equal.
pub pos-to_string : (m n : ℕ) → to_string (pos m) ≡ to_string (pos n) → m ≡ n
unfolding to_string digits
pos-to_string m n e =
    sym (digits-decimal m m "" (omega arith))
    ∙ ap (digits 0) e
    ∙ digits-decimal n n "" (omega arith)

-- Positive numbers that are printed alike are equal.
pub to_string_inj : (i j : ℤ) → pos 0 <ℤ i → pos 0 <ℤ j → to_string i ≡ to_string j → i ≡ j
unfolding to_string digits
to_string_inj (pos m) (pos n) hi hj e = ap pos (pos-to_string m n e)
to_string_inj (pos m) (negsuc n) hi hj e = absurd (omega arith)
to_string_inj (negsuc m) j hi hj e = absurd (omega arith)
