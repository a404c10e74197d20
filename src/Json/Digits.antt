-- ===== src/Json/Digits.antt =====
-- The characters of a number that `std::to_string` prints, and the text around a separator.
use Prim.Native.Char.{Char}
use iot_dev_sys.Common.{
  ℕ, zero, suc, ◌/◌, ◌%◌, ◌≤◌, ◌<◌, ◌≡◌, refl, ◌∙◌, Bool, true, false, ◌&&◌, String, none, some,
  arith, inl, inr, Bool-cases, ltb,
}
use iot_dev_sys.Common.Int.{ℤ, pos, negsuc, ◌≤ℤ◌}
use iot_dev_sys.Common.Text.{append, lacks, pick}
use iot_dev_sys.Json.{is_digit, until, after, seek, strip, has_char}
use iot_dev_sys.Json.Numbers.{to_string, decimal, digit}

are_digits : String → Bool
are_digits String.[] = true
are_digits (String.◌∷◌ c s) = is_digit c && are_digits s

are_digits-lacks :
    (c : Char) (s : String) → is_digit c ≡ false → are_digits s ≡ true → lacks c s ≡ true
unfolding are_digits lacks
are_digits-lacks c String.[] h k = refl
are_digits-lacks c (String.◌∷◌ d s) h k = ground (arith, are_digits-lacks c s)

digit-are_digits : (n : ℕ) (t : String) → n < 10 → are_digits (append (digit n) t) ≡ are_digits t
unfolding digit append pick are_digits
digit-are_digits zero t h = refl
digit-are_digits (suc zero) t h = refl
digit-are_digits (suc (suc zero)) t h = refl
digit-are_digits (suc (suc (suc zero))) t h = refl
digit-are_digits (suc (suc (suc (suc zero)))) t h = refl
digit-are_digits (suc (suc (suc (suc (suc zero))))) t h = refl
digit-are_digits (suc (suc (suc (suc (suc (suc zero)))))) t h = refl
digit-are_digits (suc (suc (suc (suc (suc (suc (suc zero))))))) t h = refl
digit-are_digits (suc (suc (suc (suc (suc (suc (suc (suc zero)))))))) t h = refl
digit-are_digits (suc (suc (suc (suc (suc (suc (suc (suc (suc zero))))))))) t h = refl
digit-are_digits (suc (suc (suc (suc (suc (suc (suc (suc (suc (suc n)))))))))) t h = ground arith

decimal-are_digits :
    (fuel n : ℕ) (t : String) → n ≤ fuel → are_digits (decimal fuel n t) ≡ are_digits t
unfolding decimal
decimal-are_digits zero n t h = digit-are_digits n t (omega arith)
decimal-are_digits (suc fuel) n t h = elim (Bool-cases (ltb n 10)) [
  | inl short ↦ rw short (digit-are_digits n t (ground arith))
  | inr long ↦ rw long (
      decimal-are_digits fuel (n / 10) (append (digit (n % 10)) t) (ground arith)
      ∙ digit-are_digits (n % 10) t (omega arith))
]

-- A number that is not negative is printed without any other character.
pub to_string-lacks :
    (c : Char) (i : ℤ) → is_digit c ≡ false → pos 0 ≤ℤ i → lacks c (to_string i) ≡ true
unfolding to_string are_digits
to_string-lacks c (pos n) d h =
    are_digits-lacks c (decimal n n "") d (decimal-are_digits n n "" (omega arith))
to_string-lacks c (negsuc n) d h = absurd (omega arith)

-- A text up to a mark that it does not hold, and what follows the mark.
pub until-mark :
    (c : Char) (s t : String)
    → lacks c s ≡ true
    → until (String.◌∷◌ c "") (append s (String.◌∷◌ c t)) ≡ some s
unfolding until append lacks has_char
until-mark c String.[] t h = ground arith
until-mark c (String.◌∷◌ d s) t h = ground (arith, until-mark c s t)

pub after-mark :
    (c : Char) (s t : String)
    → lacks c s ≡ true
    → after (String.◌∷◌ c "") (append s (String.◌∷◌ c t)) ≡ some t
unfolding after seek strip append lacks
after-mark c String.[] t h = ground arith
after-mark c (String.◌∷◌ d s) t h = ground (arith, after-mark c s t)

seek-lacks : (c : Char) (p s : String) → lacks c s ≡ true → seek (String.◌∷◌ c p) s ≡ none
unfolding seek strip lacks
seek-lacks c p String.[] h = refl
seek-lacks c p (String.◌∷◌ d s) h = ground (arith, seek-lacks c p s)

-- A text that lacks the first character of what is searched for.
pub after-lacks : (c : Char) (p s : String) → lacks c s ≡ true → after (String.◌∷◌ c p) s ≡ none
unfolding after
after-lacks c p s h = rw (seek-lacks c p s h, after) refl

pub until-lacks : (c : Char) (s : String) → lacks c s ≡ true → until (String.◌∷◌ c "") s ≡ none
unfolding until lacks has_char
until-lacks c String.[] h = refl
until-lacks c (String.◌∷◌ d s) h = ground (arith, until-lacks c s)
