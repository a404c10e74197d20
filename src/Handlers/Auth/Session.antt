-- ===== src/Handlers/Auth/Session.antt =====
-- A login and a request with its token, through the handlers of src/main.cpp.
use iot_dev_sys.Common.{
  ◌≡◌, refl, sym, ap, ◌∙◌, subst, String, true, false, some, arith, is_empty, find_if,
}
use iot_dev_sys.Common.Int.{ℤ, pos, ◌+ℤ◌, ◌≤ℤ◌}
use iot_dev_sys.Common.Text.{append, append_assoc, concat, lacks}
use iot_dev_sys.Common.Compare.{cons-eq}
use iot_dev_sys.Common.Keyed.{find-keyed}
use iot_dev_sys.Api.Parse.{or_empty}
use iot_dev_sys.Json.{get_string, after, seek, strip, until, search_for}
use iot_dev_sys.Json.Fields.{quote}
use iot_dev_sys.Json.Digits.{until-mark, to_string-lacks}
use iot_dev_sys.Json.Numbers.{to_string, IsInt, IsLong}
use iot_dev_sys.Log.Escape.{lacks-append}
use iot_dev_sys.Types.Account.{AccountInfo, LoginResponse}
use iot_dev_sys.Org.{OrgManager}
use iot_dev_sys.Account.{
  AccountManager, Verdict, granted, has_id, has_username, hidden, get_account,
  get_account_by_username, change, lifetime, generate_token, payload_of, verify_token, login,
  logged_in,
}
use iot_dev_sys.Account.Calls.{IsValid, id}
use iot_dev_sys.Account.Tokens.{is_invalidated}
use iot_dev_sys.Account.Login.{
  IsAllowed, login-verify_token, login_lem, success_found, changed_found, account_id-positive,
}
use iot_dev_sys.Api.{HttpRequest, HttpResponse, json_response}
use iot_dev_sys.Handlers.{answered, success, commas}
use iot_dev_sys.Handlers.Auth.{
  bearer, credentials, login_body, login_answer, post_login, profile_of, get_profile, profile_body,
}

until_nested :
    (v x y z : String)
    → lacks quote v ≡ true
    → until "\"" (append (append (append (append v "\"") x) y) z) ≡ some v
unfolding append
until_nested v x y z h =
    ap (λ k. until "\"" (append (append k y) z)) (append_assoc v "\"" x)
    ∙ ap (λ k. until "\"" (append k z)) (append_assoc v (append "\"" x) y)
    ∙ ap (until "\"") (append_assoc v (append (append "\"" x) y) z)
    ∙ until-mark quote v (append (append x y) z) h

-- The token is found in the body of the answer.
token_body :
    (resp : LoginResponse)
    → lacks quote resp.token ≡ true
    → get_string (success (login_body resp)) "token" ≡ resp.token
unfolding get_string after search_for seek strip append concat commas login_body
token_body resp h = ap or_empty (until_nested resp.token _ _ _ h)

generate_token-lacks :
    (epoch : ℤ) (a : AccountInfo)
    → pos 0 ≤ℤ a.account_id
    → pos 0 ≤ℤ epoch +ℤ lifetime
    → lacks quote (generate_token epoch a) ≡ true
unfolding generate_token lacks
generate_token-lacks epoch a i e = lacks-append quote "mock_jwt:" _ refl (
    lacks-append quote (to_string a.account_id) _ (to_string-lacks quote a.account_id refl i)
      (lacks-append quote ":" _ refl (to_string-lacks quote (epoch +ℤ lifetime) refl e)))

-- The answer to the second request, where the first one logged the account in.
get_account_changed :
    (f : AccountInfo → AccountInfo) (s : AccountManager) (a : AccountInfo)
    → ((x : AccountInfo) → id (f x) ≡ id x)
    → find_if (has_id a.account_id) s.accounts ≡ some a
    → get_account a.account_id (change a.account_id f s) ≡ some (hidden (f a))
unfolding get_account
get_account_changed f s a keep found =
    rw (changed_found f a.account_id s a keep found, get_account) refl

post_login_state :
    (hex_hash : String → String) (epoch t : ℤ) (now : String) (req : HttpRequest)
    (s : AccountManager)
    → is_empty (credentials req).username ≡ false
    → is_empty (credentials req).password ≡ false
    → post_login hex_hash epoch t now req s
      ≡ answered
          (login_answer (login hex_hash epoch t now (credentials req) s).1)
          (login hex_hash epoch t now (credentials req) s).0
unfolding post_login
post_login_state hex_hash epoch t now req s u p = rw u (rw p refl)

get_profile_granted :
    (orgs : OrgManager) (now : ℤ) (req : HttpRequest) (s : AccountManager) (v : Verdict)
    → is_empty (bearer req) ≡ false
    → verify_token orgs now (bearer req) s ≡ v
    → get_profile orgs now req s ≡ profile_of s v
unfolding get_profile
get_profile_granted orgs now req s v e h = rw e (rw h refl)

generate_token_filled : (epoch : ℤ) (a : AccountInfo) → is_empty (generate_token epoch a) ≡ false
unfolding generate_token append
generate_token_filled epoch a = cons-eq _ _

module _ (hex_hash : String → String) (epoch t : ℤ) (now : String) (req : HttpRequest)
    (s : AccountManager) where
  abbrev pub entered : AccountManager × LoginResponse
  entered = login hex_hash epoch t now (credentials req) s

  -- The response to a login that has both texts, and the state that it leaves.
  abbrev pub login_response : HttpResponse
  login_response = login_answer entered.1

  abbrev pub after_login : AccountManager
  after_login = entered.0

  entered_token :
      (a : AccountInfo)
      → entered.1.token ≡ generate_token epoch a
      → entered.1.success ≡ true
      → pos 0 ≤ℤ a.account_id
      → pos 0 ≤ℤ epoch +ℤ lifetime
      → (login_response.status_code ≡ pos 200)
        × (get_string login_response.body "token" ≡ generate_token epoch a)
  unfolding json_response
  entered_token a e g i n = (
    rw g refl,
    rw g (
          token_body entered.1
            (subst (λ k. lacks quote k ≡ true) (sym e) (generate_token-lacks epoch a i n)))
        ∙ e,
  )

  -- After a login with the right password of an active account, the response has the status 200 and its
  -- body holds a token with which, until it expires, the profile request is answered with the profile of
  -- that account. The manager is valid, the id of the account is an `int`, the time fits 64 bits and is
  -- not negative, and the text of the token was not logged out before.
  pub post_login-get_profile :
      (orgs : OrgManager) (a : AccountInfo) (later : ℤ) (profile_req : HttpRequest)
      → IsValid s
      → is_empty (credentials req).username ≡ false
      → is_empty (credentials req).password ≡ false
      → get_account_by_username (credentials req).username s ≡ some a
      → IsAllowed hex_hash (credentials req) a
      → IsInt a.account_id
      → IsLong (epoch +ℤ lifetime)
      → pos 0 ≤ℤ epoch +ℤ lifetime
      → is_invalidated (generate_token epoch a) s ≡ false
      → later ≤ℤ epoch +ℤ lifetime
      → bearer profile_req ≡ get_string login_response.body "token"
      → (post_login hex_hash epoch t now req s ≡ answered login_response after_login)
        × (login_response.status_code ≡ pos 200)
        × (get_profile orgs later profile_req after_login
            ≡ answered
                (json_response (pos 200) (
                  success (
                    profile_body
                      (hidden (logged_in now a))
                      (payload_of orgs later (epoch +ℤ lifetime) a))))
                after_login)
  post_login-get_profile orgs a later profile_req v u p found allowed i l n fresh time same =
      let known : find_if (has_id a.account_id) s.accounts ≡ some a =
        find-keyed id (has_username (credentials req).username) (pos 0) s.accounts a v.ascends
          (unfold get_account_by_username in found) in
      let (state, token) = login_lem hex_hash epoch t now (credentials req) s a found allowed in
      let good : entered.1.success ≡ true =
        success_found hex_hash epoch t now (credentials req) s a found ∙ ground (arith, allowed) in
      let (status, body) =
        entered_token a token good (account_id-positive s a.account_id a v known) n in
      let bears : bearer profile_req ≡ generate_token epoch a = same ∙ body in
      (
        post_login_state hex_hash epoch t now req s u p,
        status,
        get_profile_granted orgs later profile_req after_login
              (granted (payload_of orgs later (epoch +ℤ lifetime) a))
              (rw bears (generate_token_filled epoch a))
              (ap (λ k. verify_token orgs later k after_login) (bears ∙ sym token)
                ∙ login-verify_token hex_hash orgs epoch t now (credentials req) s a later v found
                    good i l fresh time)
            ∙ rw state
                (rw (get_account_changed (logged_in now) s a (λ x. refl) known, profile_of) refl),
      )
