-- ===== src/Log/Escape.antt =====
-- The lines that `LogManager::write` of src/middleware/storage/log_manager.cpp makes, read back as JSON.
use Prim.Native.Char.{Char, code}
use text.Mathlib.TextEquality.{Char-path}
use iot_dev_sys.Common.{
  String, Bool, true, false, ◌≡◌, refl, sym, subst, ap, ◌∙◌, Bool-cases, inl, inr, Option, none,
  some, arith, nat_eq, if◌then◌else◌, ◌||◌, ◌&&◌, ltb, leb,
}
use iot_dev_sys.Common.Text.{append, append_assoc, is, lacks}
use iot_dev_sys.Api.Parse.{newline}
use iot_dev_sys.Json.Fields.{quote}
use iot_dev_sys.Log.{json_escape, escape_char}

abbrev pub backslash : Char
backslash = "\\"

-- The character that an escape with this letter stands for. The other escapes of JSON are not read.
abbrev pub decode : Char → Option Char
decode d =
    if nat_eq (code d) b'n'
    then some newline
    else if nat_eq (code d) b'r'
    then some "\r"
    else if nat_eq (code d) b't'
    then some "\t"
    else if is d quote || is d backslash
    then some d
    else none

abbrev pub push : Char → Option (String × String) → Option (String × String)
push c none = none
push c (some (v, rest)) = some (String.◌∷◌ c v, rest)

-- An escaped character in front of what was read.
abbrev pub push_decoded : Option Char → Option (String × String) → Option (String × String)
push_decoded none rest = none
push_decoded (some c) rest = push c rest

-- A JSON string up to its closing quote, and what follows it. A control character that is not escaped, such
-- as a raw newline, is no part of one.
unfoldable pub json_string : Bool → String → Option (String × String)
json_string escaped String.[] = none
json_string true (String.◌∷◌ d s) = push_decoded (decode d) (json_string false s)
json_string false (String.◌∷◌ c s) =
    let rest = json_string (is c backslash) s in
    if is c quote
    then some ("", s)
    else if is c backslash
    then rest
    else if ltb (code c) 32
    then none
    else push c rest

-- The only control characters are newlines, carriage returns and tabs.
abbrev pub is_clean_char : Char → Bool
is_clean_char c = leb 32 (code c) || (is c newline || (is c "\r" || is c "\t"))

unfoldable pub is_clean : String → Bool
is_clean String.[] = true
is_clean (String.◌∷◌ c s) = is_clean_char c && is_clean s

by_code : (P : Char → Type 0) (c d : Char) → P d → is c d ≡ true → P c
by_code P c d p e = subst P (sym (Char-path c d (ground arith))) p

-- A claim on a character that is one of the escaped ones, or none of them.
by_escape :
    (P : Char → Type 0) (c : Char)
    → P quote
    → P backslash
    → P newline
    → P "\r"
    → P "\t"
    → (escape_char c ≡ String.◌∷◌ c ""
        → is c quote ≡ false
        → is c backslash ≡ false
        → is c newline ≡ false
        → is c "\r" ≡ false
        → is c "\t" ≡ false
        → P c)
    → P c
by_escape P c q b n r t other = elim (Bool-cases (is c quote)) [
  | inl e ↦ by_code P c quote q e
  | inr q' ↦ elim (Bool-cases (is c backslash)) [
    | inl e ↦ by_code P c backslash b e
    | inr b' ↦ elim (Bool-cases (is c newline)) [
      | inl e ↦ by_code P c newline n e
      | inr n' ↦ elim (Bool-cases (is c "\r")) [
        | inl e ↦ by_code P c "\r" r e
        | inr r' ↦ elim (Bool-cases (is c "\t")) [
          | inl e ↦ by_code P c "\t" t e
          | inr t' ↦ other (ground arith) q' b' n' r' t'
        ]
      ]
    ]
  ]
]

json_string-escape_char :
    (c : Char) (t : String)
    → is_clean_char c ≡ true
    → json_string false (append (escape_char c) t) ≡ push c (json_string false t)
unfolding json_string append
json_string-escape_char c t =
    by_escape
      (λ d.
        is_clean_char d ≡ true
        → json_string false (append (escape_char d) t) ≡ push d (json_string false t))
      c (λ h. refl) (λ h. refl) (λ h. refl) (λ h. refl) (λ h. refl)
      (λ e q b n r l h. rw e (rw q (rw b (ground (arith, h, n, r, l)))))

-- A text that was escaped is read back as itself, up to the quote that closes it.
pub json_string-json_escape :
    (s t : String)
    → is_clean s ≡ true
    → json_string false (append (json_escape s) (append "\"" t)) ≡ some (s, t)
unfolding json_string json_escape append is_clean
json_string-json_escape String.[] t h = refl
json_string-json_escape (String.◌∷◌ c s) t h =
    ap (json_string false) (append_assoc (escape_char c) (json_escape s) (append "\"" t))
    ∙ json_string-escape_char c (append (json_escape s) (append "\"" t)) (ground (arith, h))
    ∙ ap (push c) (json_string-json_escape s t (ground (arith, h)))

pub lacks-append :
    (c : Char) (s t : String) → lacks c s ≡ true → lacks c t ≡ true → lacks c (append s t) ≡ true
unfolding lacks append
lacks-append c String.[] t h k = k
lacks-append c (String.◌∷◌ d s) t h k = ground (arith, lacks-append c s t)

-- The escaped text stands in one line.
pub json_escape-lacks : (s : String) → lacks newline (json_escape s) ≡ true
unfolding json_escape lacks
json_escape-lacks String.[] = refl
json_escape-lacks (String.◌∷◌ c s) =
    lacks-append newline (escape_char c) (json_escape s)
      (by_escape (λ d. lacks newline (escape_char d) ≡ true) c refl refl refl refl refl
        (λ e q b n r t. rw e (ground arith)))
      (json_escape-lacks s)
