-- ===== src/Handlers/Auth.antt =====
-- `extract_auth` and the handlers of /api/v1/auth in src/main.cpp, over the account manager and the
-- organization manager. `now` and `epoch` are the seconds of the clock, `text` its text.
pub mod Session
use iot_dev_sys.Common.{
  String, Bool, true, false, not, ◌||◌, List, [], ◌∷◌, map, Option, none, some, ◌==◌, is_empty,
  if◌then◌else◌,
}
use iot_dev_sys.Common.Int.{ℤ, pos}
use iot_dev_sys.Common.Text.{concat}
use iot_dev_sys.Common.Dict.{Dict, lookup}
use iot_dev_sys.Json.{strip, get_string}
use iot_dev_sys.Json.Numbers.{to_string}
use iot_dev_sys.Types.Account.{AccountInfo, LoginRequest, LoginResponse, TokenPayload}
use iot_dev_sys.Org.{OrgManager}
use iot_dev_sys.Account.{
  AccountManager, Outcome, Verdict, thrown, refused, granted, verify_token, login, logout,
  get_account,
}
use iot_dev_sys.Account.Roles.{permissions_for_role}
use iot_dev_sys.Api.{HttpRequest, HttpResponse, json_response, error_response}
use iot_dev_sys.Handlers.{Reply, answered, text_field, int_field, raw_field, object, array, success}

-- The text after `Bearer ` in the header `Authorization`.
abbrev pub after_bearer : Option String → String
after_bearer none = ""
after_bearer (some v) = elim (strip "Bearer " v) [ none ↦ "" | some token ↦ token ]

unfoldable pub bearer : HttpRequest → String
unfolding lookup strip
bearer req = after_bearer (lookup "Authorization" req.headers)

-- The first text, or the second if that is empty.
abbrev pub or_else : String → String → String
or_else a b = if is_empty a then b else a

unfoldable pub extract_auth : OrgManager → ℤ → HttpRequest → AccountManager → Verdict
unfolding bearer get_string verify_token
extract_auth orgs now req s =
    let token = or_else (bearer req) (get_string req.body "token") in
    if is_empty token then refused else verify_token orgs now token s

abbrev pub quoted : String → String
quoted t = concat ("\"" ∷ t ∷ "\"" ∷ [])

unfoldable pub login_body : LoginResponse → String
login_body resp = object (
    text_field "token" resp.token
    ∷ text_field "expires_at" resp.expires_at
    ∷ raw_field "account" (
        object (
          int_field "account_id" resp.account.account_id
          ∷ text_field "username" resp.account.username
          ∷ text_field "display_name" resp.account.display_name
          ∷ int_field "org_id" resp.account.org_id
          ∷ text_field "org_name" resp.account.org_name
          ∷ text_field "role_code" resp.account.role_code
          ∷ raw_field "permissions" (array (map quoted resp.permissions))
          ∷ []))
    ∷ [])

abbrev pub login_answer : LoginResponse → HttpResponse
login_answer resp =
    if not resp.success
    then error_response (pos 401) resp.error_code resp.error_message
    else json_response (pos 200) (success (login_body resp))

abbrev pub login_reply : AccountManager × LoginResponse → Reply AccountManager
login_reply (t, resp) = answered (login_answer resp) t

abbrev pub credentials : HttpRequest → LoginRequest
credentials req = record {
  username = get_string req.body "username";
  password = get_string req.body "password";
}

unfoldable pub post_login :
    (String → String) → ℤ → ℤ → String → HttpRequest → AccountManager → Reply AccountManager
unfolding get_string login login_body
post_login hex_hash epoch t text req s =
    let c = credentials req in
    if is_empty c.username || is_empty c.password
    then answered (error_response (pos 400) (pos 1001) "username and password are required") s
    else login_reply (login hex_hash epoch t text c s)

unfoldable pub post_logout : HttpRequest → AccountManager → Reply AccountManager
unfolding bearer get_string logout
post_logout req s =
    answered (json_response (pos 200) (success (object (raw_field "logout" "true" ∷ []))))
      (logout (or_else (get_string req.body "token") (bearer req)) s).state

unfoldable pub profile_body : AccountInfo → TokenPayload → String
profile_body a tp = object (
    int_field "account_id" a.account_id
    ∷ text_field "username" a.username
    ∷ text_field "display_name" a.display_name
    ∷ int_field "org_id" a.org_id
    ∷ text_field "org_name" a.org_name
    ∷ text_field "role_code" a.role_code
    ∷ text_field "email" a.email
    ∷ text_field "phone" a.phone
    ∷ raw_field "permissions" (array (map quoted (permissions_for_role a.role_code)))
    ∷ raw_field "org_scope" (array (map to_string tp.org_scope))
    ∷ [])

abbrev pub unauthorized : String → HttpResponse
unauthorized message = error_response (pos 401) (pos 1004) message

abbrev pub profile_of : AccountManager → Verdict → Reply AccountManager
profile_of s thrown = Reply.thrown
profile_of s refused = answered (unauthorized "Invalid or expired token") s
profile_of s (granted tp) = elim (get_account tp.account_id s) [
  | none ↦ answered (unauthorized "Account not found") s
  | some a ↦ answered (json_response (pos 200) (success (profile_body a tp))) s
]

unfoldable pub get_profile : OrgManager → ℤ → HttpRequest → AccountManager → Reply AccountManager
unfolding bearer verify_token get_account profile_body
get_profile orgs now req s =
    if is_empty (bearer req)
    then answered (unauthorized "Missing Authorization Bearer Token") s
    else profile_of s (verify_token orgs now (bearer req) s)
