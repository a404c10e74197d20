-- ===== src/Handlers/Accounts.antt =====
-- The handlers of /api/v1/accounts in src/main.cpp, over the account manager. `now` is the clock's text.
pub mod Steps
use Prim.Native.Char.{Char}
use iot_dev_sys.Common.{
  ℕ, ◌-◌, String, Bool, true, false, not, ◌||◌, List, [], ◌∷◌, map, Option, none, some, ◌==◌,
  is_empty, length, if◌then◌else◌,
}
use iot_dev_sys.Common.Int.{ℤ, pos, neg}
use iot_dev_sys.Common.Text.{append}
use iot_dev_sys.Json.{get_string, get_int, get_bool, stoi, seek, has_char}
use iot_dev_sys.Json.Numbers.{to_string}
use iot_dev_sys.Types.Account.{AccountInfo, new_account}
use iot_dev_sys.Org.{OrgManager}
use iot_dev_sys.Account.{
  AccountManager, Outcome, list_accounts, get_account, create_account, change_password,
  update_account, delete_account,
}
use iot_dev_sys.Api.{HttpRequest, HttpResponse, json_response, error_response}
use iot_dev_sys.Api.Parse.{chars, take}
use iot_dev_sys.Handlers.{
  Reply, thrown, answered, rest_of, or_thrown, by_status, text_field, int_field, raw_field,
  bool_field, object, array, success,
}
use iot_dev_sys.Handlers.Orgs.{number_after}

unfoldable pub listed_account : AccountInfo → String
listed_account a = object (
    int_field "account_id" a.account_id
    ∷ text_field "username" a.username
    ∷ text_field "display_name" a.display_name
    ∷ int_field "org_id" a.org_id
    ∷ text_field "org_name" a.org_name
    ∷ text_field "role_code" a.role_code
    ∷ text_field "email" a.email
    ∷ text_field "phone" a.phone
    ∷ bool_field "is_active" a.is_active
    ∷ [])

unfoldable pub get_accounts : HttpRequest → AccountManager → HttpResponse
unfolding list_accounts listed_account
get_accounts req s =
    let accounts = list_accounts (neg 1) "" false s in
    json_response (pos 200) (
      success (
        object (
          int_field "total" (pos (length accounts))
          ∷ raw_field "list" (array (map listed_account accounts))
          ∷ [])))

unfoldable pub single_account : AccountInfo → String
single_account a = object (
    int_field "account_id" a.account_id
    ∷ text_field "username" a.username
    ∷ text_field "display_name" a.display_name
    ∷ int_field "org_id" a.org_id
    ∷ text_field "org_name" a.org_name
    ∷ text_field "role_code" a.role_code
    ∷ text_field "email" a.email
    ∷ text_field "phone" a.phone
    ∷ bool_field "is_active" a.is_active
    ∷ text_field "created_at" a.created_at
    ∷ text_field "last_login_at" a.last_login_at
    ∷ [])

unfoldable pub account_by_id : HttpRequest → AccountManager → Reply AccountManager
unfolding rest_of stoi get_account single_account
account_by_id req s = or_thrown (number_after "/api/v1/accounts/" req) (λ account_id.
    elim (get_account account_id s) [
      | none ↦
          answered
            (error_response (pos 404) (pos 1002)
              (append "Account not found: " (to_string account_id)))
            s
      | some a ↦ answered (json_response (pos 200) (success (single_account a))) s
    ])

abbrev pub posted : HttpRequest → ℤ → AccountInfo
posted req org_id = record new_account {
  username = get_string req.body "username";
  display_name = get_string req.body "display_name";
  org_id = org_id;
  role_code = get_string req.body "role_code";
  email = get_string req.body "email";
  phone = get_string req.body "phone";
}

-- `create_account` writes the new id into the account that it is given by reference.
abbrev pub created : Outcome × AccountInfo → Reply AccountManager
created (out, info) =
    answered
      (by_status out.status (
        json_response (pos 201) (
          success (
            object (
              int_field "account_id" info.account_id ∷ text_field "username" info.username ∷ [])))))
      out.state

abbrev pub lacks_field : AccountInfo → String → Bool
lacks_field info password = is_empty info.username || is_empty password || is_empty info.role_code

unfoldable pub post_account :
    (String → String) → OrgManager → String → HttpRequest → AccountManager → Reply AccountManager
unfolding get_int get_string new_account create_account
post_account hex_hash orgs now req s = or_thrown (get_int req.body "org_id" (pos 0)) (λ org_id.
    let info = posted req org_id in
    let password = get_string req.body "password" in
    if lacks_field info password
    then answered
        (error_response (pos 400) (pos 1001) "username, password, and role_code are required") s
    else created (create_account hex_hash orgs now info password s))

abbrev pub reply : Outcome → List String → Reply AccountManager
reply out fields =
    answered (by_status out.status (json_response (pos 200) (success (object fields)))) out.state

-- The text in front of the suffix, if the text ends with it.
unfoldable pub without_end : String → String → Option String
without_end suffix String.[] = if suffix == "" then some "" else none
without_end suffix (String.◌∷◌ c s) =
    let rest = without_end suffix s in
    if String.◌∷◌ c s == suffix
    then some ""
    else elim rest [ none ↦ none | some t ↦ some (String.◌∷◌ c t) ]

abbrev pub not_found : HttpRequest → HttpResponse
not_found req = error_response (pos 404) (pos 1002) (append "Not found: " req.path)

-- `path.substr(prefix.size(), path.size() - prefix.size() - suffix.size())` for a path that ends with the
-- suffix. A path that is shorter than both together makes the length wrap around, so that the rest of the
-- path is taken.
abbrev pub between : String → String → HttpRequest → Option String
between prefix suffix req = elim (rest_of prefix req) [
  | none ↦ none
  | some t ↦ some (elim (without_end suffix t) [ none ↦ t | some u ↦ u ])
]

abbrev pub set_password :
    (String → String) → ℤ → HttpRequest → AccountManager → Reply AccountManager
set_password hex_hash account_id req s =
    let old_pwd = get_string req.body "old_password" in
    let new_pwd = get_string req.body "new_password" in
    if is_empty old_pwd || is_empty new_pwd
    then answered (error_response (pos 400) (pos 1001) "old_password and new_password are required")
        s
    else reply (change_password hex_hash account_id old_pwd new_pwd s)
        (raw_field "updated" "true" ∷ [])

abbrev pub path_number : Option String → Option ℤ
path_number none = none
path_number (some t) = stoi t

unfoldable pub put_password :
    (String → String) → HttpRequest → AccountManager → Reply AccountManager
unfolding rest_of without_end stoi get_string change_password
put_password hex_hash req s = elim (without_end "/password" req.path) [
  | none ↦ answered (not_found req) s
  | some front ↦
      or_thrown (path_number (between "/api/v1/accounts/" "/password" req))
        (λ account_id. set_password hex_hash account_id req s)
]

abbrev pub slash : Char
slash = "/"

abbrev pub changed : HttpRequest → AccountInfo
changed req = record new_account {
  display_name = get_string req.body "display_name";
  email = get_string req.body "email";
  phone = get_string req.body "phone";
  is_active = get_bool req.body "is_active" true;
}

unfoldable pub put_account : String → HttpRequest → AccountManager → Reply AccountManager
unfolding rest_of has_char stoi get_string get_bool new_account update_account
put_account now req s = or_thrown (rest_of "/api/v1/accounts/" req) (λ id_str.
    if has_char slash id_str
    then answered (not_found req) s
    else or_thrown (stoi id_str) (λ account_id.
      reply (update_account now account_id (changed req) s)
        (int_field "account_id" account_id ∷ [])))

unfoldable pub delete_account_by_id : HttpRequest → AccountManager → Reply AccountManager
unfolding rest_of stoi delete_account
delete_account_by_id req s = or_thrown (number_after "/api/v1/accounts/" req) (λ account_id.
    reply (delete_account account_id s)
      (int_field "account_id" account_id ∷ raw_field "deleted" "true" ∷ []))
