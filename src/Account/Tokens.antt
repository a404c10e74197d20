-- ===== src/Account/Tokens.antt =====
-- The tokens of src/app/organization/account_manager.cpp: what `generate_token` writes and
-- `verify_token` reads.
use Prim.Native.Char.{Char}
use iot_dev_sys.Common.{
  ◌≡◌, refl, ◌∙◌, String, Bool, true, List, [], ◌∷◌, ◌==◌, some, arith, if◌then◌else◌, any,
  any-append, text_iff,
}
use iot_dev_sys.Common.Int.{ℤ, pos, ◌+ℤ◌, ◌<ℤ◌, ◌≤ℤ◌}
use iot_dev_sys.Common.Text.{append}
use iot_dev_sys.Json.{strip}
use iot_dev_sys.Json.Numbers.{to_string, IsInt, IsLong, stoi-to_string, stoll-to_string}
use iot_dev_sys.Json.Fields.{strip-append}
use iot_dev_sys.Json.Digits.{to_string-lacks, until-mark, after-mark}
use iot_dev_sys.Types.Account.{AccountInfo}
use iot_dev_sys.Org.{OrgManager}
use iot_dev_sys.Account.{
  AccountManager, Verdict, refused, lifetime, generate_token, colon_split, read_payload, admit,
  verify_token, logout,
}
use iot_dev_sys.Account.Calls.{Call, Step, next, next-Step, run}

abbrev pub is_invalidated : String → AccountManager → Bool
is_invalidated token s = any (λ t. t == token) s.invalidated_tokens

abbrev colon : Char
colon = ":"

colon_split-append :
    (i : ℤ) (t : String)
    → pos 0 ≤ℤ i
    → colon_split (append (to_string i) (append ":" t)) ≡ some (to_string i, t)
unfolding colon_split append
colon_split-append i t h =
    rw
      (
        colon_split,
        until-mark colon (to_string i) t (to_string-lacks colon i refl h),
        after-mark colon (to_string i) t (to_string-lacks colon i refl h),
      )
      refl

strip-token :
    (epoch : ℤ) (a : AccountInfo)
    → strip "mock_jwt:" (generate_token epoch a)
      ≡ some (append (to_string a.account_id) (append ":" (to_string (epoch +ℤ lifetime))))
unfolding generate_token
strip-token epoch a =
    strip-append "mock_jwt:"
      (append (to_string a.account_id) (append ":" (to_string (epoch +ℤ lifetime))))

read_payload_lem :
    (orgs : OrgManager) (now i exp : ℤ) (s : AccountManager)
    → IsInt i
    → IsLong exp
    → read_payload orgs now (to_string i) (to_string exp) s ≡ admit orgs now i exp s
unfolding read_payload
read_payload_lem orgs now i exp s hi he =
    rw (read_payload, stoi-to_string i hi, stoll-to_string exp he) refl

if_equal : (b : Bool) (x y z : Verdict) → y ≡ z → (if b then x else y) ≡ (if b then x else z)
if_equal b x y z e = ground arith

-- A token that `generate_token` wrote is read as the id of its account and the time it was written for.
pub verify_token-generate_token :
    (orgs : OrgManager) (now epoch : ℤ) (a : AccountInfo) (s : AccountManager)
    → pos 0 ≤ℤ a.account_id
    → IsInt a.account_id
    → IsLong (epoch +ℤ lifetime)
    → verify_token orgs now (generate_token epoch a) s ≡ (
        if is_invalidated (generate_token epoch a) s
        then refused
        else admit orgs now a.account_id (epoch +ℤ lifetime) s)
unfolding verify_token
verify_token-generate_token orgs now epoch a s h i l =
    if_equal (is_invalidated (generate_token epoch a) s) refused _ _ (
      rw (strip-token epoch a, colon_split-append a.account_id (to_string (epoch +ℤ lifetime)) h)
        (read_payload_lem orgs now a.account_id (epoch +ℤ lifetime) s i l))

-- A token that `generate_token` wrote for an account whose id is an `int` and not negative, at a
-- time that fits 64 bits, is refused when its 24 hours are over, whatever the state is then.
pub verify_token-expired :
    (orgs : OrgManager) (now epoch : ℤ) (a : AccountInfo) (s : AccountManager)
    → pos 0 ≤ℤ a.account_id
    → IsInt a.account_id
    → IsLong (epoch +ℤ lifetime)
    → epoch +ℤ lifetime <ℤ now
    → verify_token orgs now (generate_token epoch a) s ≡ refused
unfolding admit
verify_token-expired orgs now epoch a s h i l late =
    verify_token-generate_token orgs now epoch a s h i l ∙ ground arith

Step-invalidated :
    (token : String) (s r : AccountManager)
    → Step s r
    → is_invalidated token s ≡ true
    → is_invalidated token r ≡ true
Step-invalidated token s r Step.stay h = h
Step-invalidated token s r (Step.changed i f keep same) h = h
Step-invalidated token s r (Step.added a new free) h = h
Step-invalidated token s r (Step.invalidated t) h =
    any-append (λ x. x == token) s.invalidated_tokens (t ∷ []) ∙ ground (arith, h)

run-invalidated :
    (hex_hash : String → String) (token : String) (cs : List Call) (s : AccountManager)
    → is_invalidated token s ≡ true
    → is_invalidated token (run hex_hash cs s) ≡ true
unfolding run
run-invalidated hex_hash token [] s h = h
run-invalidated hex_hash token (c ∷ cs) s h =
    run-invalidated hex_hash token cs (next hex_hash c s)
      (Step-invalidated token s (next hex_hash c s) (next-Step hex_hash c s) h)

logout-invalidated :
    (token : String) (s : AccountManager) → is_invalidated token (logout token s).state ≡ true
unfolding logout any
logout-invalidated token s =
    any-append (λ x. x == token) s.invalidated_tokens (token ∷ [])
    ∙ ground (arith, text_iff token token)

-- A token that was logged out is refused ever after, through any further calls.
pub logout-verify_token :
    (hex_hash : String → String) (orgs : OrgManager) (now : ℤ) (token : String) (cs : List Call)
    (s : AccountManager)
    → verify_token orgs now token (run hex_hash cs (logout token s).state) ≡ refused
unfolding verify_token
logout-verify_token hex_hash orgs now token cs s =
    rw
      (
        verify_token,
        run-invalidated hex_hash token cs (logout token s).state (logout-invalidated token s),
      )
      refl
