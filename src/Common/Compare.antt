-- ===== src/Common/Compare.antt =====
-- Texts that begin with a character, compared.
use Prim.Native.Char.{Char, code}
use Prim.Native.String.{String}
use text.Mathlib.TextEquality.{Char-path}
use text.Mathlib.TextLemmas.{head-eq_of_cons-eq, tail-eq_of_cons-eq}
use mathlib.Core.Path.{◌≡◌, refl}
use mathlib.Core.Bool.{false, ◌&&◌}
use mathlib.Core.Logic.{inl, inr}
use native.Mathlib.Omega.{arith}
use iot_dev_sys.Common.Tests.{◌==◌, text_iff, Bool-cases}
use iot_dev_sys.Common.Text.{is}

same_head : (c d : Char) (a b : String) → code c ≡ code d → a ≡ b → String.◌∷◌ c a ≡ String.◌∷◌ d b
same_head c d a b h e = rw (Char-path c d h, e) refl

-- Two texts that begin with a character.
pub eq-cons : (c d : Char) (a b : String) → (String.◌∷◌ c a == String.◌∷◌ d b) ≡ (is c d && a == b)
eq-cons c d a b = ground (
  arith,
  text_iff (String.◌∷◌ c a) (String.◌∷◌ d b),
  text_iff a b,
  same_head c d a b,
  λ (e : String.◌∷◌ c a ≡ String.◌∷◌ d b). tail-eq_of_cons-eq e,
  λ (e : String.◌∷◌ c a ≡ String.◌∷◌ d b). head-eq_of_cons-eq e,
)

pub nil-eq : (d : Char) (p : String) → ("" == String.◌∷◌ d p) ≡ false
nil-eq d p = elim (Bool-cases ("" == String.◌∷◌ d p)) [
  | inl same ↦ absurd (cc ((text_iff "" (String.◌∷◌ d p)).0 same))
  | inr other ↦ other
]

pub cons-eq : (c : Char) (a : String) → (String.◌∷◌ c a == "") ≡ false
cons-eq c a = elim (Bool-cases (String.◌∷◌ c a == "")) [
  | inl same ↦ absurd (cc ((text_iff (String.◌∷◌ c a) "").0 same))
  | inr other ↦ other
]
