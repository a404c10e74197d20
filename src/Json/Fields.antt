-- ===== src/Json/Fields.antt =====
-- The search of `JsonHelper::get_string` of include/dev_sys/common/types.h in a text of quoted words.
use Prim.Native.Char.{Char}
use text.Mathlib.TextEquality.{Char-path}
use iot_dev_sys.Common.{
  ◌≡◌, ◌≢◌, refl, ◌∙◌, ap, String, true, false, ◌||◌, none, some, arith, ◌==◌, text_iff,
  if◌then◌else◌, if_both, inl, inr, Bool-cases,
}
use iot_dev_sys.Common.Text.{append, is, lacks}
use iot_dev_sys.Json.{strip, seek, after, until, search_for, get_string, has_char}

abbrev pub quote : Char
quote = "\""

pub strip-append : (p s : String) → strip p (append p s) ≡ some s
unfolding strip append
strip-append String.[] s = refl
strip-append (String.◌∷◌ c p) s = ground (arith, strip-append p s)

until_lem : (v t : String) → lacks quote v ≡ true → until "\"" (append v (append "\"" t)) ≡ some v
unfolding until has_char append lacks
until_lem String.[] t h = refl
until_lem (String.◌∷◌ c v) t h = ground (arith, until_lem v t)

-- Up to the next quote the search finds nothing.
pub seek_skip :
    (p v t : String)
    → lacks quote v ≡ true
    → seek (append "\"" p) (append v t) ≡ seek (append "\"" p) t
unfolding seek strip append lacks
seek_skip p String.[] t h = refl
seek_skip p (String.◌∷◌ c v) t h = ground (arith, seek_skip p v t)

strip_same :
    (v p t : String) → strip (append v (append "\"" p)) (append v (append "\"" t)) ≡ strip p t
unfolding strip append
strip_same String.[] p t = refl
strip_same (String.◌∷◌ c v) p t = ground (arith, strip_same v p t)

-- A word that is compared up to its closing quote.
strip_other :
    (k v p t : String)
    → lacks quote k ≡ true
    → lacks quote v ≡ true
    → k ≢ v
    → strip (append k (append "\"" p)) (append v (append "\"" t)) ≡ none
unfolding strip append lacks
strip_other String.[] String.[] p t hk hv n = absurd (n refl)
strip_other String.[] (String.◌∷◌ d v) p t hk hv n = ground arith
strip_other (String.◌∷◌ c k) String.[] p t hk hv n = ground arith
strip_other (String.◌∷◌ c k) (String.◌∷◌ d v) p t hk hv n = elim (Bool-cases (is c d)) [
  | inl same ↦ rw same (
      strip_other k v p t (ground arith) (ground arith)
        (λ e. n (cc (Char-path c d (ground arith), e))))
  | inr other ↦ rw other refl
]

strip_word :
    (k v p t : String)
    → lacks quote k ≡ true
    → lacks quote v ≡ true
    → strip (append k (append "\"" p)) (append v (append "\"" t))
      ≡ (if k == v then strip p t else none)
strip_word k v p t hk hv = elim (Bool-cases (k == v)) [
  | inl same ↦ rw (same, (text_iff k v).0 same) (strip_same v p t)
  | inr other ↦ rw other (strip_other k v p t hk hv (λ e. cc (other, (text_iff k v).1 e)))
]

strip_quote : (p t : String) → strip (append "\"" p) (append "\"" t) ≡ strip p t
unfolding strip append
strip_quote p t = refl

seek_here :
    (p t u : String)
    → strip p t ≡ some u
    → seek (append "\"" p) (append "\"" t) ≡ some (append "\"" t)
unfolding seek strip append
seek_here p t u h = rw h refl

seek_on :
    (p t : String)
    → strip p t ≡ none
    → seek (append "\"" p) (append "\"" t) ≡ seek (append "\"" p) t
unfolding seek strip append
seek_on p t h = rw h refl

-- A quoted word is passed, up to its closing quote, if it is not the key or if what is searched for
-- behind the key does not follow.
past :
    (k v p t : String)
    → lacks quote k ≡ true
    → lacks quote v ≡ true
    → (if k == v then strip p t else none) ≡ none
    → seek (append "\"" (append k (append "\"" p))) (append "\"" (append v (append "\"" t)))
      ≡ seek (append "\"" (append k (append "\"" p))) (append "\"" t)
past k v p t hk hv n =
    seek_on (append k (append "\"" p)) (append v (append "\"" t)) (strip_word k v p t hk hv ∙ n)
    ∙ seek_skip (append k (append "\"" p)) v (append "\"" t) hv

punctuation : (lacks quote ":" ≡ true) × (lacks quote "," ≡ true)
unfolding lacks
punctuation = (refl, refl)

-- A whole field with a quoted value, and the comma behind it, is passed.
pub past_field :
    (k key v p t : String)
    → lacks quote k ≡ true
    → lacks quote key ≡ true
    → lacks quote v ≡ true
    → ((k == key) || (k == ":") || (k == ",")) ≡ false
    → ((u : String) → strip p (append "," u) ≡ none)
    → seek (append "\"" (append k (append "\"" p))) (
        append "\"" (
          append key (
            append "\""
              (append ":" (append "\"" (append v (append "\"" (append "," (append "\"" t)))))))))
      ≡ seek (append "\"" (append k (append "\"" p))) (append "\"" t)
past_field k key v p t hk hkey hv n comma =
    past k key p _ hk hkey (ground arith)
    ∙ past k ":" p _ hk punctuation.0 (ground arith)
    ∙ past k v p _ hk hv (if_both (λ x. x ≡ none) (k == v) _ _ (comma _) refl)
    ∙ past k "," p _ hk punctuation.1 (ground arith)

-- At the key with what is searched for behind it the search ends.
pub seek_key :
    (k p t : String)
    → seek
        (append "\"" (append k (append "\"" p)))
        (append "\"" (append k (append "\"" (append p t))))
      ≡ some (append "\"" (append k (append "\"" (append p t))))
seek_key k p t = seek_here _ _ t (strip_same k p (append p t) ∙ strip-append p t)

after_found :
    (k t json : String)
    → seek (append "\"" (append k (append "\"" ":\""))) json
      ≡ some (append "\"" (append k (append "\"" (append ":\"" t))))
    → after (append "\"" (append k (append "\"" ":\""))) json ≡ some t
unfolding after
after_found k t json found =
    rw (found, after) (strip_quote _ _ ∙ strip_same k ":\"" (append ":\"" t) ∙ strip-append ":\"" t)

-- At its key, a field with a quoted value is found.
pub at_key :
    (k v t : String)
    → lacks quote v ≡ true
    → (json : String)
    → seek (append "\"" (append k (append "\"" ":\""))) json
      ≡ some (append "\"" (append k (append "\"" (append ":\"" (append v (append "\"" t))))))
    → get_string json k ≡ v
unfolding get_string search_for append
at_key k v t hv json found =
    ap
      (λ o. elim o as (λ x. String) [
        | none ↦ ""
        | some r ↦ elim (until "\"" r) as (λ x. String) [ none ↦ "" | some w ↦ w ]
      ])
      (after_found k (append v (append "\"" t)) json found)
    ∙ rw (until_lem v t hv) refl
