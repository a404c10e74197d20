-- ===== src/Common/Text.antt =====
-- Text that the source takes apart or puts together. `String` has its own `[]` and `∷`; all that is
-- searched for is ASCII, so a walk over the characters finds what a walk over the bytes does.
use Prim.Native.Char.{Char, code}
use Prim.Native.String.{String}
use Prim.Native.Nat.{ℕ, zero, suc}
use mathlib.Core.Path.{◌≡◌, refl, ap}
use mathlib.Core.Bool.{Bool, true, false}
use mathlib.Core.List.{List, [], ◌∷◌}
use iot_dev_sys.Common.Tests.{nat_eq, if◌then◌else◌}

-- `a + b`
unfoldable pub append : String → String → String
append String.[] t = t
append (String.◌∷◌ c s) t = String.◌∷◌ c (append s t)

-- `a << b << …` into a string stream.
unfoldable pub concat : List String → String
unfolding append
concat [] = ""
concat (s ∷ ss) = append s (concat ss)

abbrev pub is : Char → Char → Bool
is c d = nat_eq (code c) (code d)

-- No character of the text is `c`.
unfoldable pub lacks : Char → String → Bool
lacks c String.[] = true
lacks c (String.◌∷◌ d s) = if is d c then false else lacks c s

pub append-nil : (s : String) → append s "" ≡ s
unfolding append
append-nil String.[] = refl
append-nil (String.◌∷◌ c s) = ap (String.◌∷◌ c) (append-nil s)

pub append_assoc : (a b c : String) → append (append a b) c ≡ append a (append b c)
unfolding append
append_assoc String.[] b c = refl
append_assoc (String.◌∷◌ x a) b c = ap (String.◌∷◌ x) (append_assoc a b c)

-- The character at a place, as a text.
unfoldable pub pick : ℕ → String → String
pick n String.[] = ""
pick zero (String.◌∷◌ c s) = String.◌∷◌ c ""
pick (suc n) (String.◌∷◌ c s) = pick n s
