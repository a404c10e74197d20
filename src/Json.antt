-- ===== src/Json.antt =====
-- include/dev_sys/common/types.h, `JsonHelper`: fields of a flat JSON body, found by searching the text
-- for the key. `std::stoi` throws for a text without a number and for one out of range: none.
pub mod Numbers
pub mod Fields
pub mod Digits
use Prim.Native.Char.{Char, code}
use iot_dev_sys.Common.{
  ℕ, ◌+◌, ◌*◌, ◌-◌, String, Bool, true, false, ◌&&◌, ◌||◌, Option, none, some, ltb, leb, nat_eq,
  is_empty, if◌then◌else◌,
}
use iot_dev_sys.Common.Int.{ℤ, pos, neg, ltb_ℤ}
use iot_dev_sys.Common.Text.{append, is}

-- The rest of the text after a prefix.
unfoldable pub strip : String → String → Option String
strip String.[] s = some s
strip (String.◌∷◌ c p) String.[] = none
strip (String.◌∷◌ c p) (String.◌∷◌ d s) = if is c d then strip p s else none

-- `json.substr(json.find(search))`
unfoldable pub seek : String → String → Option String
unfolding strip
seek p String.[] = elim (strip p "") [ none ↦ none | some r ↦ some "" ]
seek p (String.◌∷◌ c s) = elim (strip p (String.◌∷◌ c s)) [
  | some r ↦ some (String.◌∷◌ c s)
  | none ↦ seek p s
]

-- The text that follows the first occurrence.
unfoldable pub after : String → String → Option String
unfolding seek
after p s = elim (seek p s) [ none ↦ none | some t ↦ strip p t ]

-- `find`, as a number of characters.
unfoldable pub find : String → String → Option ℕ
unfolding strip
find p String.[] = elim (strip p "") [ none ↦ none | some r ↦ some 0 ]
find p (String.◌∷◌ c s) = elim (strip p (String.◌∷◌ c s)) [
  | some r ↦ some 0
  | none ↦ elim (find p s) [ none ↦ none | some n ↦ some (n + 1) ]
]

unfoldable pub has_char : Char → String → Bool
has_char c String.[] = false
has_char c (String.◌∷◌ d s) = is c d || has_char c s

-- `find_first_of`
unfoldable pub find_first_of : String → String → Option ℕ
unfolding has_char
find_first_of cs String.[] = none
find_first_of cs (String.◌∷◌ c s) =
    if has_char c cs
    then some 0
    else elim (find_first_of cs s) [ none ↦ none | some n ↦ some (n + 1) ]

-- What stands before the first of the characters, if one of them occurs.
unfoldable pub until : String → String → Option String
unfolding has_char
until cs String.[] = none
until cs (String.◌∷◌ c s) =
    if has_char c cs
    then some ""
    else elim (until cs s) [ none ↦ none | some t ↦ some (String.◌∷◌ c t) ]

-- The comparison of two positions, with `npos` above all others.
unfoldable pub before : Option ℕ → Option ℕ → Bool
before none b = false
before (some a) none = true
before (some a) (some b) = ltb a b

-- The text `"` key `":` and a tail.
unfoldable pub search_for : String → String → String
unfolding append
search_for key tail = append "\"" (append key (append "\":" tail))

unfoldable pub get_string : String → String → String
unfolding after until search_for
get_string json key = elim (after (search_for key "\"") json) [
  | none ↦ ""
  | some t ↦ elim (until "\"" t) [ none ↦ "" | some v ↦ v ]
]

abbrev pub is_digit : Char → Bool
is_digit c = leb b'0' (code c) && leb (code c) b'9'

-- The digits that the text begins with, after `acc`.
unfoldable pub digits : ℕ → String → ℕ
digits acc String.[] = acc
digits acc (String.◌∷◌ c s) = if is_digit c then digits (acc * 10 + (code c - b'0')) s else acc

abbrev pub is_space : Char → Bool
is_space c = nat_eq (code c) b' ' || (leb 9 (code c) && leb (code c) 13)

unfoldable pub skip_space : String → String
skip_space String.[] = ""
skip_space (String.◌∷◌ c s) = if is_space c then skip_space s else String.◌∷◌ c s

-- The number with its sign, if there is a digit and the number is in the range up to `limit`.
abbrev pub in_range : ℕ → Bool → ℕ → Option ℤ
in_range limit negative n =
    if negative
    then if leb n (limit + 1) then some (neg n) else none
    else if leb n limit
    then some (pos n)
    else none

unfoldable pub number : ℕ → Bool → String → Option ℤ
unfolding digits
number limit negative String.[] = none
number limit negative (String.◌∷◌ c s) =
    if is_digit c then in_range limit negative (digits 0 (String.◌∷◌ c s)) else none

unfoldable pub signed : ℕ → String → Option ℤ
unfolding number
signed limit String.[] = none
signed limit (String.◌∷◌ c s) =
    if nat_eq (code c) b'-'
    then number limit true s
    else if nat_eq (code c) b'+'
    then number limit false s
    else number limit false (String.◌∷◌ c s)

unfoldable pub stoi : String → Option ℤ
unfolding skip_space signed
stoi s = signed 2147483647 (skip_space s)

-- `std::stoll`, which reads a number of 64 bits.
unfoldable pub stoll : String → Option ℤ
unfolding skip_space signed
stoll s = signed 9223372036854775807 (skip_space s)

-- `substr` up to the end of the number, which is the end of the text if no such character occurs.
unfoldable pub numeral : String → String
unfolding until
numeral t = elim (until ",}\n\r ]" t) [ none ↦ t | some n ↦ n ]

unfoldable pub get_int : String → String → ℤ → Option ℤ
unfolding after search_for numeral stoi
get_int json key default_val = elim (after (search_for key "") json) [
  | none ↦ some default_val
  | some t ↦ let num = numeral t in if is_empty num then some default_val else stoi num
]

unfoldable pub get_bool : String → String → Bool → Bool
unfolding seek find find_first_of before search_for
get_bool json key default_val = elim (seek (search_for key "") json) [
  | none ↦ default_val
  | some t ↦
      if before (find "true" t) (find_first_of ",}\n\r" t)
      then true
      else if before (find "false" t) (find_first_of ",}\n\r" t)
      then false
      else default_val
]
