-- ===== src/Account/Granted.antt =====
-- What a token that `verify_token` of src/app/organization/account_manager.cpp grants says.
use Prim.Native.Char.{Char}
use text.Mathlib.TextEquality.{Char-path}
use iot_dev_sys.Common.{
  ◌≡◌, ◌≢◌, refl, sym, ap, ◌∙◌, subst, String, true, false, not, some, arith, inl, inr, Bool-cases,
  Option-cases, some_inj, none, if◌then◌else◌, find_if, find_if-passes,
}
use iot_dev_sys.Common.Int.{ℤ, ◌≤ℤ◌, ltb_ℤ, int_iff}
use iot_dev_sys.Common.Text.{append, is, lacks}
use iot_dev_sys.Json.{strip, until, after, has_char, stoi, stoll}
use iot_dev_sys.Json.Digits.{after-mark}
use iot_dev_sys.Types.Account.{AccountInfo, TokenPayload}
use iot_dev_sys.Org.{OrgManager}
use iot_dev_sys.Account.{
  AccountManager, thrown, refused, granted, has_id, get_account, colon_split, read_payload, admit,
  payload_of, verify_token,
}
use iot_dev_sys.Account.Tokens.{is_invalidated}

abbrev colon : Char
colon = ":"

-- What stands in front of a text that is stripped off, and in front of a mark.
strip_found : (p s t : String) → strip p s ≡ some t → s ≡ append p t
unfolding strip append
strip_found String.[] s t e = ground (arith, e)
strip_found (String.◌∷◌ c p) String.[] t e = ground (arith, e)
strip_found (String.◌∷◌ c p) (String.◌∷◌ d s) t e = elim (Bool-cases (is c d)) [
  | inl same ↦
      ap (λ k. String.◌∷◌ k s) (sym (Char-path c d (ground arith)))
      ∙ ap (String.◌∷◌ c) (strip_found p s t (rw same at e))
  | inr other ↦ absurd (ground (arith, e, other))
]

-- The text begins with `a`, which has no colon, and a colon.
abbrev UpTo : String → String → Type 0
UpTo a s = (t : String) × (s ≡ append a (append ":" t)) × (lacks colon a ≡ true)

at_colon : (c : Char) (s : String) → is c colon ≡ true → until ":" (String.◌∷◌ c s) ≡ some ""
unfolding until has_char
at_colon c s h = ground (arith, h)

past_colon :
    (c : Char) (s : String)
    → is c colon ≡ false
    → until ":" (String.◌∷◌ c s)
      ≡ elim (until ":" s) [ none ↦ none | some t ↦ some (String.◌∷◌ c t) ]
unfolding until has_char
past_colon c s h = ground (arith, h)

past_found :
    (c : Char) (s b : String)
    → is c colon ≡ false
    → until ":" s ≡ some b
    → until ":" (String.◌∷◌ c s) ≡ some (String.◌∷◌ c b)
past_found c s b h found = past_colon c s h ∙ rw found refl

until_found : (s a : String) → until ":" s ≡ some a → UpTo a s
unfolding append lacks
until_found String.[] a e = absurd (unfold until in ground (arith, e))
until_found (String.◌∷◌ c s) a e = elim (Bool-cases (is c colon)) [
  | inl hit ↦
      subst (λ k. UpTo k (String.◌∷◌ c s)) (some_inj (sym (at_colon c s hit) ∙ e))
        (s, ap (λ k. String.◌∷◌ k s) (Char-path c colon (ground arith)), refl)
  | inr miss ↦ elim (Option-cases (until ":" s)) [
    | inl none_left ↦ absurd (ground (arith, e, past_colon c s miss, none_left))
    | inr (b, found) ↦
        (let (t, whole, free) = until_found s b found in
          subst (λ k. UpTo k (String.◌∷◌ c s)) (some_inj (sym (past_found c s b miss found) ∙ e))
            (t, ap (String.◌∷◌ c) whole, ground (arith, free, miss)))
  ]
]

split_none :
    (payload : String) {parts : String × String}
    → until ":" payload ≡ none
    → colon_split payload ≢ some parts
unfolding colon_split
split_none payload miss e = ground (arith, miss, e)

split_some :
    (payload a t : String)
    → until ":" payload ≡ some a
    → after ":" payload ≡ some t
    → colon_split payload ≡ some (a, t)
unfolding colon_split
split_some payload a t u v = rw (u, v, colon_split) refl

colon_split_found :
    (payload : String) (parts : String × String)
    → colon_split payload ≡ some parts
    → (payload ≡ append parts.0 (append ":" parts.1)) × (lacks colon parts.0 ≡ true)
unfolding append
colon_split_found payload parts e = elim (Option-cases (until ":" payload)) [
  | inl miss ↦ absurd (split_none payload miss e)
  | inr (a, hit) ↦
      (let (t, whole, free) = until_found payload a hit in
        subst
          (λ (p : String × String).
            (payload ≡ append p.0 (append ":" p.1)) × (lacks colon p.0 ≡ true))
          (some_inj (
            sym (split_some payload a t hit (ap (after ":") whole ∙ after-mark colon a t free))
            ∙ e))
          (whole, free))
]

-- The text of a token with an account id and a time.
abbrev pub Names : String → ℤ → ℤ → Type 0
Names token i exp =
    (first : String) × (second : String) × (token
      ≡ append "mock_jwt:" (append first (append ":" second)))
    × (lacks colon first ≡ true)
    × (stoi first ≡ some i)
    × (stoll second ≡ some exp)

-- What is granted of a token, from an account that is found.
abbrev pub Grants : OrgManager → ℤ → String → AccountManager → TokenPayload → Type 0
Grants orgs now token s tp =
    Names token tp.account_id tp.exp
    × (now ≤ℤ tp.exp)
    × (a : AccountInfo) × (get_account tp.account_id s ≡ some a)
    × (a.is_active ≡ true)
    × (tp ≡ payload_of orgs now tp.exp a)

get_account-id :
    (i : ℤ) (s : AccountManager) (a : AccountInfo) → get_account i s ≡ some a → i ≡ a.account_id
unfolding get_account
get_account-id i s a e = elim (Option-cases (find_if (has_id i) s.accounts)) [
  | inl miss ↦ absurd (cc (e, miss))
  | inr (b, hit) ↦
      ground (arith, e, hit, int_iff b.account_id i, find_if-passes (has_id i) s.accounts hit)
]

granted_inj : (x y : TokenPayload) → granted x ≡ granted y → x ≡ y
granted_inj x y e = ap (λ v. elim v [ thrown ↦ x | refused ↦ x | granted t ↦ t ]) e

found-Grants :
    (orgs : OrgManager) (now i exp : ℤ) (token : String) (s : AccountManager) (a : AccountInfo)
    (tp : TokenPayload)
    → Names token i exp
    → now ≤ℤ exp
    → get_account i s ≡ some a
    → (if not a.is_active then refused else granted (payload_of orgs now exp a)) ≡ granted tp
    → Grants orgs now token s tp
found-Grants orgs now i exp token s a tp named le found e = elim (Bool-cases a.is_active) [
  | inl active ↦
      subst (Grants orgs now token s)
        (granted_inj (payload_of orgs now exp a) tp (ground (arith, e, active)))
        (
          subst (λ k. Names token k exp) (get_account-id i s a found) named,
          le,
          a,
          subst (λ k. get_account k s ≡ some a) (get_account-id i s a found) found,
          active,
          refl,
        )
  | inr inactive ↦ absurd (ground (arith, e, inactive))
]

admit-Grants :
    (orgs : OrgManager) (now i exp : ℤ) (token : String) (s : AccountManager) (tp : TokenPayload)
    → Names token i exp
    → admit orgs now i exp s ≡ granted tp
    → Grants orgs now token s tp
unfolding admit
admit-Grants orgs now i exp token s tp named e = elim (Bool-cases (ltb_ℤ exp now)) [
  | inl late ↦ absurd (ground (arith, e, late))
  | inr early ↦ elim (Option-cases (get_account i s)) [
    | inl miss ↦ absurd (ground (arith, e, early, miss))
    | inr (a, hit) ↦
        found-Grants orgs now i exp token s a tp named (ground (arith, early)) hit
          (ground (arith, e, early, hit))
  ]
]

read_payload-Grants :
    (orgs : OrgManager) (now : ℤ) (token first second : String) (s : AccountManager)
    (tp : TokenPayload)
    → token ≡ append "mock_jwt:" (append first (append ":" second))
    → lacks colon first ≡ true
    → read_payload orgs now first second s ≡ granted tp
    → Grants orgs now token s tp
unfolding read_payload
read_payload-Grants orgs now token first second s tp whole free e =
    elim (Option-cases (stoi first)) [
      | inl miss ↦ absurd (ground (arith, e, miss))
      | inr (i, hi) ↦ elim (Option-cases (stoll second)) [
        | inl miss ↦ absurd (ground (arith, e, hi, miss))
        | inr (exp, he) ↦
            admit-Grants orgs now i exp token s tp (first, second, whole, free, hi, he)
              (ground (arith, e, hi, he))
      ]
    ]

-- What a granted token says of its text and of the state: it is `mock_jwt:<id>:<time>`, where `std::stoi` and
-- `std::stoll` read the account id and the expiry of the answer; it was not logged out, its time is not over,
-- and the account that it names is there and active; the answer has the account's fields, the ids of its organization
-- and of the organizations below, and the permissions of its role.
pub verify_token-granted :
    (orgs : OrgManager) (now : ℤ) (token : String) (s : AccountManager) (tp : TokenPayload)
    → verify_token orgs now token s ≡ granted tp
    → (is_invalidated token s ≡ false) × Grants orgs now token s tp
unfolding verify_token
verify_token-granted orgs now token s tp e = elim (Bool-cases (is_invalidated token s)) [
  | inl out ↦ absurd (ground (arith, e, out))
  | inr valid ↦ elim (Option-cases (strip "mock_jwt:" token)) [
    | inl miss ↦ absurd (ground (arith, e, valid, miss))
    | inr (payload, hit) ↦ elim (Option-cases (colon_split payload)) [
      | inl whole ↦ absurd (ground (arith, e, valid, hit, whole))
      | inr (parts, cut) ↦ (
        valid,
        (let (joined, free) = colon_split_found payload parts cut in
            read_payload-Grants orgs now token parts.0 parts.1 s tp
              (strip_found "mock_jwt:" token payload hit ∙ ap (append "mock_jwt:") joined) free
              (ground (arith, e, valid, hit, cut))),
      )
    ]
  ]
]
