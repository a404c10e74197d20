-- ===== src/Examples/Account.antt =====
-- Accounts of src/app/organization/account_manager.cpp: an administrator who logs in and out.
use iot_dev_sys.Common.{
  ◌≡◌, ◌↔◌, refl, String, true, false, [], ◌∷◌, Option, some, arith, find_if, update_if, ◌==◌, any,
}
use iot_dev_sys.Common.Int.{pos, ◌+ℤ◌}
use iot_dev_sys.Common.Text.{append, pick}
use iot_dev_sys.Json.{
  strip, until, after, seek, has_char, stoi, stoll, signed, skip_space, number, digits,
}
use iot_dev_sys.Json.Numbers.{to_string, decimal, digit}
use iot_dev_sys.Status.{ok}
use iot_dev_sys.Types.Org.{new_org}
use iot_dev_sys.Types.Account.{AccountInfo, LoginRequest, TokenPayload, new_account, new_response}
use iot_dev_sys.Org.{OrgManager, org_exists, get_org}
use iot_dev_sys.Account.{
  AccountManager, new_manager, refused, granted, get_account, get_account_by_username,
  create_account, hash_password, login, logout, delete_account, generate_token, verify_token,
  payload_of, lifetime, read_payload, admit, colon_split, has_id,
}
use iot_dev_sys.Account.Calls.{
  create, enter, leave, IsValid, run, next, run-IsValid, new_manager-IsValid,
}
use iot_dev_sys.Account.Granted.{Grants, verify_token-granted}
use iot_dev_sys.Account.Tokens.{is_invalidated, verify_token-expired, logout-verify_token}
use iot_dev_sys.Account.Login.{IsAllowed, login-success, login-verify_token}

-- A hash for these tests.
abbrev reversed : String → String
reversed password = append "h" password

abbrev firm : OrgManager
firm = record {
  orgs = record new_org { org_id = pos 1; tenant_id = "company"; path = "/1" } ∷ [];
  next_id = pos 2;
  db = false;
}

abbrev anna : AccountInfo
anna = record new_account { username = "anna"; org_id = pos 1; role_code = "viewer" }

abbrev staffed : AccountManager
staffed = run reversed (create firm "t1" anna "pw" ∷ []) (new_manager true)

staffed-IsValid : IsValid staffed
staffed-IsValid =
    run-IsValid reversed (create firm "t1" anna "pw" ∷ []) (new_manager true)
      (new_manager-IsValid true)

abbrev stored_anna : AccountInfo
stored_anna = record anna {
  account_id = pos 1;
  password_hash = "mock_hash:hpw";
  created_at = "t1";
  updated_at = "t1";
}

abbrev request : LoginRequest
request = record { username = "anna"; password = "pw" }

found_anna : get_account_by_username "anna" staffed ≡ some stored_anna
unfolding run next create_account new_manager hash_password append get_account_by_username find_if
    ◌==◌ org_exists get_org any ◌+ℤ◌ new_org new_account
found_anna = refl

login_anna : (login reversed (pos 1000) (pos 1000) "t2" request staffed).1.success ≡ true
unfolding run next create_account new_manager hash_password append get_account_by_username find_if
    ◌==◌ org_exists get_org any ◌+ℤ◌ new_org new_account login new_response
login_anna = refl

run-IsValid_example :
    IsValid (run reversed (enter (pos 1000) (pos 1000) "t2" request ∷ leave "x" ∷ []) staffed)
run-IsValid_example =
    run-IsValid reversed (enter (pos 1000) (pos 1000) "t2" request ∷ leave "x" ∷ []) staffed
      staffed-IsValid

-- A token reads as it was written.
token_of_anna : generate_token (pos 1000) stored_anna ≡ "mock_jwt:1:87400"
unfolding generate_token to_string decimal digit pick append ◌+ℤ◌
token_of_anna = refl

verify_token-expired_example :
    verify_token firm (pos 90000) (generate_token (pos 1000) stored_anna) staffed ≡ refused
unfolding ◌+ℤ◌
verify_token-expired_example =
    verify_token-expired firm (pos 90000) (pos 1000) stored_anna staffed (omega arith)
      (omega arith, omega arith) (omega arith, omega arith) (omega arith)

login-success_example :
    ((login reversed (pos 1000) (pos 1000) "t2" request staffed).1.success ≡ true) ↔ (
      (a : AccountInfo) × (get_account_by_username "anna" staffed ≡ some a)
      × IsAllowed reversed request a)
login-success_example = login-success reversed (pos 1000) (pos 1000) "t2" request staffed

-- Nothing has been logged out yet.
fresh_token : is_invalidated (generate_token (pos 1000) stored_anna) staffed ≡ false
unfolding run next create_account new_manager hash_password append get_account_by_username find_if
    ◌==◌ org_exists get_org any ◌+ℤ◌ new_org new_account
fresh_token = refl

login-verify_token_example :
    verify_token firm
      (pos 2000)
      (login reversed (pos 1000) (pos 1000) "t2" request staffed).1.token
      (login reversed (pos 1000) (pos 1000) "t2" request staffed).0
    ≡ granted (payload_of firm (pos 2000) (pos 1000 +ℤ lifetime) stored_anna)
unfolding ◌+ℤ◌
login-verify_token_example =
    login-verify_token reversed firm (pos 1000) (pos 1000) "t2" request staffed stored_anna
      (pos 2000) staffed-IsValid found_anna login_anna (omega arith, omega arith)
      (omega arith, omega arith) fresh_token (omega arith)

abbrev payload : TokenPayload
payload = payload_of firm (pos 2000) (pos 87400) stored_anna

granted_anna : verify_token firm (pos 2000) "mock_jwt:1:87400" staffed ≡ granted payload
unfolding run next create_account new_manager hash_password append get_account_by_username find_if
    ◌==◌ org_exists get_org any ◌+ℤ◌ new_org new_account verify_token read_payload admit get_account
    colon_split strip until after seek has_char stoi stoll signed skip_space number digits
granted_anna = refl

verify_token-granted_example :
    (is_invalidated "mock_jwt:1:87400" staffed ≡ false)
    × Grants firm (pos 2000) "mock_jwt:1:87400" staffed payload
verify_token-granted_example =
    verify_token-granted firm (pos 2000) "mock_jwt:1:87400" staffed payload granted_anna

logout-verify_token_example :
    verify_token firm (pos 2000) "mock_jwt:1:87400" (
      run reversed
        (enter (pos 1000) (pos 1000) "t2" request ∷ [])
        (logout "mock_jwt:1:87400" staffed).state)
    ≡ refused
logout-verify_token_example =
    logout-verify_token reversed firm (pos 2000) "mock_jwt:1:87400"
      (enter (pos 1000) (pos 1000) "t2" request ∷ []) staffed

abbrev by_id : AccountManager → Option AccountInfo
by_id s = find_if (has_id (pos 1)) s.accounts

stored_by_id : by_id staffed ≡ some stored_anna
unfolding run next create_account new_manager hash_password append get_account_by_username find_if
    ◌==◌ org_exists get_org any ◌+ℤ◌ new_org new_account
stored_by_id = refl

abbrev two : AccountManager
two = run reversed (create firm "t2" (record anna { username = "bert" }) "pw" ∷ []) staffed

deleted_bert : (delete_account (pos 2) two).status ≡ ok
unfolding run next create_account new_manager hash_password append get_account_by_username find_if
    ◌==◌ org_exists get_org any ◌+ℤ◌ new_org new_account delete_account
deleted_bert = refl

granted_after :
    verify_token firm (pos 2000) "mock_jwt:1:87400" (delete_account (pos 2) two).state
    ≡ granted payload
unfolding run next create_account new_manager hash_password append get_account_by_username find_if
    ◌==◌ org_exists get_org any ◌+ℤ◌ new_org new_account verify_token read_payload admit get_account
    colon_split strip until after seek has_char stoi stoll signed skip_space number digits
    delete_account update_if
granted_after = refl
