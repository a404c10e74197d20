-- ===== src/Account.antt =====
-- src/app/organization/account_manager.{h,cpp}: the accounts, in the order of their creation, and the
-- tokens that were logged out. `orgs` is the organization manager that the constructor is given, `now`
-- the formatted time of the clock, `epoch` its seconds, and `hex_hash` gives what `std::hash` answers, in
-- hexadecimal digits. `db` says whether `set_database` was called; the calls of the database are listed.
pub mod Roles
mod Seeds
pub mod Calls
pub mod Tokens
pub mod Granted
pub mod Login
use Roles.{is_role, permissions_for_role}
use Seeds.{admin, lijingli, wangwu, operator1, viewer1}
use iot_dev_sys.Common.{
  ℕ, String, Bool, true, false, not, ◌&&◌, List, [], ◌∷◌, ◌++◌, map, Option, none, some, length,
  ◌==◌, is_empty, is_some, if◌then◌else◌, find_if, update_if, select, any,
}
use iot_dev_sys.Common.Int.{ℤ, pos, ◌+ℤ◌, int_eq, ltb_ℤ}
use iot_dev_sys.Common.Text.{append}
use iot_dev_sys.Json.{strip, after, until, stoi, stoll}
use iot_dev_sys.Json.Numbers.{to_string}
use iot_dev_sys.Status.{
  StatusCode, ok, error, storage_read_error, org_not_found, account_not_found, account_locked,
  account_bad_password, account_duplicate, code,
}
use iot_dev_sys.Types.Org.{OrgInfo}
use iot_dev_sys.Types.Account.{AccountInfo, LoginRequest, LoginResponse, TokenPayload, new_response}
use iot_dev_sys.Org.{OrgManager, org_exists, get_org, get_org_scope, keep_or}

pub data Effect : Type 0 where
  insert_account update_account_db : AccountInfo → Effect

pub record AccountManager : Type 0 where
  pub accounts : List AccountInfo
  pub invalidated_tokens : List String
  pub next_id : ℤ
  pub db : Bool

pub record Outcome : Type 0 where
  pub state : AccountManager
  pub status : StatusCode
  pub effects : List Effect

unfoldable pub new_manager : Bool → AccountManager
new_manager db = record { accounts = []; invalidated_tokens = []; next_id = pos 1; db = db }

abbrev pub has_id : ℤ → AccountInfo → Bool
has_id account_id a = int_eq a.account_id account_id

abbrev pub has_username : String → AccountInfo → Bool
has_username username a = a.username == username

abbrev pub hidden : AccountInfo → AccountInfo
hidden a = record a { password_hash = "" }

unfoldable pub get_account : ℤ → AccountManager → Option AccountInfo
get_account account_id s = elim (find_if (has_id account_id) s.accounts) [
  | none ↦ none
  | some a ↦ some (hidden a)
]

unfoldable pub get_account_by_username : String → AccountManager → Option AccountInfo
get_account_by_username username s = find_if (has_username username) s.accounts

abbrev pub is_listed : ℤ → String → Bool → AccountInfo → Bool
is_listed org_id role_code active_only a =
    not (active_only && not a.is_active)
    && not (not (ltb_ℤ org_id (pos 0)) && not (int_eq a.org_id org_id))
    && not (not (is_empty role_code) && not (a.role_code == role_code))

unfoldable pub list_accounts : ℤ → String → Bool → AccountManager → List AccountInfo
list_accounts org_id role_code active_only s =
    map hidden (select (is_listed org_id role_code active_only) s.accounts)

unfoldable pub account_count : AccountManager → ℕ
account_count s = length s.accounts

unfoldable pub hash_password : (String → String) → String → String
hash_password hex_hash password = append "mock_hash:" (hex_hash password)

abbrev pub refuse : AccountManager → StatusCode → Outcome
refuse s c = record { state = s; status = c; effects = [] }

abbrev pub name_of : Option OrgInfo → String → String
name_of none name = name
name_of (some o) name = o.org_name

-- What is stored for a new account.
abbrev pub fresh_account :
    (String → String) → OrgManager → String → ℤ → String → AccountInfo → AccountInfo
fresh_account hex_hash orgs now id password info = record info {
  account_id = id;
  password_hash = hash_password hex_hash password;
  created_at = now;
  updated_at = now;
  is_active = true;
  org_name = name_of (get_org info.org_id orgs) info.org_name;
}

-- The second part is the account that was given by reference.
unfoldable pub create_account :
    (String → String)
    → OrgManager
    → String
    → AccountInfo
    → String
    → AccountManager
    → Outcome × AccountInfo
create_account hex_hash orgs now info password s =
    if is_some (get_account_by_username info.username s)
    then (refuse s account_duplicate, info)
    else if not (org_exists info.org_id orgs)
    then (refuse s org_not_found, info)
    else if not (is_role info.role_code)
    then (refuse s error, info)
    else let a : AccountInfo = fresh_account hex_hash orgs now s.next_id password info in
      (
        record {
          state = record s { accounts = s.accounts ++ a ∷ []; next_id = s.next_id +ℤ pos 1 };
          status = ok;
          effects = if s.db then insert_account a ∷ [] else [];
        },
        a,
      )

abbrev pub updated : String → AccountInfo → AccountInfo → AccountInfo
updated now info a = record a {
  display_name = keep_or a.display_name info.display_name;
  email = keep_or a.email info.email;
  phone = keep_or a.phone info.phone;
  role_code = keep_or a.role_code info.role_code;
  is_active = info.is_active;
  updated_at = now;
}

abbrev pub change : ℤ → (AccountInfo → AccountInfo) → AccountManager → AccountManager
change account_id f s = record s { accounts = update_if (has_id account_id) f s.accounts }

unfoldable pub update_account : String → ℤ → AccountInfo → AccountManager → Outcome
update_account now account_id info s = elim (find_if (has_id account_id) s.accounts) [
  | none ↦ refuse s account_not_found
  | some a ↦ record {
    state = change account_id (updated now info) s;
    status = ok;
    effects = if s.db then update_account_db (updated now info a) ∷ [] else [];
  }
]

abbrev pub with_hash : String → AccountInfo → AccountInfo
with_hash h a = record a { password_hash = h }

unfoldable pub change_password : (String → String) → ℤ → String → String → AccountManager → Outcome
change_password hex_hash account_id old_password new_password s =
    elim (find_if (has_id account_id) s.accounts) [
      | none ↦ refuse s account_not_found
      | some a ↦
          if not (a.password_hash == hash_password hex_hash old_password)
          then refuse s account_bad_password
          else record {
            state = change account_id (with_hash (hash_password hex_hash new_password)) s;
            status = ok;
            effects = [];
          }
    ]

abbrev pub deactivated : AccountInfo → AccountInfo
deactivated a = record a { is_active = false }

unfoldable pub delete_account : ℤ → AccountManager → Outcome
delete_account account_id s = elim (find_if (has_id account_id) s.accounts) [
  | none ↦ refuse s account_not_found
  | some a ↦ record {
    state = change account_id deactivated s;
    status = ok;
    effects = if s.db then update_account_db (deactivated a) ∷ [] else [];
  }
]

abbrev pub lifetime : ℤ
lifetime = pos 86400

unfoldable pub generate_token : ℤ → AccountInfo → String
generate_token epoch a =
    append "mock_jwt:"
      (append (to_string a.account_id) (append ":" (to_string (epoch +ℤ lifetime))))

abbrev pub failed : StatusCode → String → LoginResponse
failed c message = record new_response { error_code = code c; error_message = message }

abbrev pub logged_in : String → AccountInfo → AccountInfo
logged_in now a = record a { last_login_at = now }

-- The clock is read twice: for the token, and then for the time of the login, `t` with its format `now`.
unfoldable pub login :
    (String → String)
    → ℤ
    → ℤ
    → String
    → LoginRequest
    → AccountManager
    → AccountManager × LoginResponse
login hex_hash epoch t now req s = elim (get_account_by_username req.username s) [
  | none ↦ (s, failed account_not_found "Account not found")
  | some a ↦
      if not a.is_active
      then (s, failed account_locked "Account is disabled")
      else if not (a.password_hash == hash_password hex_hash req.password)
      then (s, failed account_bad_password "Invalid password")
      else (
        change a.account_id (logged_in now) s,
        record new_response {
          success = true;
          token = generate_token epoch a;
          expires_at = to_string (t +ℤ lifetime);
          account = hidden a;
          permissions = permissions_for_role a.role_code;
        },
      )
]

unfoldable pub logout : String → AccountManager → Outcome
logout token s = record {
  state = record s { invalidated_tokens = s.invalidated_tokens ++ token ∷ [] };
  status = ok;
  effects = [];
}

-- What `verify_token` does: `thrown` is an exception of `std::stoi` or `std::stoll`.
pub data Verdict : Type 0 where
  thrown refused : Verdict
  granted : TokenPayload → Verdict

abbrev pub payload_of : OrgManager → ℤ → ℤ → AccountInfo → TokenPayload
payload_of orgs now exp a = record {
  account_id = a.account_id;
  username = a.username;
  org_id = a.org_id;
  org_scope = get_org_scope a.org_id orgs;
  role_code = a.role_code;
  permissions = permissions_for_role a.role_code;
  iat = now;
  exp = exp;
}

-- What follows when both numbers are read.
unfoldable pub admit : OrgManager → ℤ → ℤ → ℤ → AccountManager → Verdict
admit orgs now account_id exp s =
    if ltb_ℤ exp now then refused else elim (get_account account_id s) [
      | none ↦ refused
      | some a ↦ if not a.is_active then refused else granted (payload_of orgs now exp a)
    ]

-- The number before the first colon and the one after it.
unfoldable pub read_payload : OrgManager → ℤ → String → String → AccountManager → Verdict
unfolding admit
read_payload orgs now first second s = elim (stoi first) [
  | none ↦ thrown
  | some account_id ↦ elim (stoll second) [
    | none ↦ thrown
    | some exp ↦ admit orgs now account_id exp s
  ]
]

-- The text before the first colon and what follows it.
unfoldable pub colon_split : String → Option (String × String)
unfolding until after
colon_split payload = elim (until ":" payload) [
  | none ↦ none
  | some first ↦ elim (after ":" payload) [ none ↦ none | some second ↦ some (first, second) ]
]

unfoldable pub verify_token : OrgManager → ℤ → String → AccountManager → Verdict
verify_token orgs now token s =
    if any (λ t. t == token) s.invalidated_tokens then refused else elim (strip "mock_jwt:" token) [
      | none ↦ refused
      | some payload ↦ elim (colon_split payload) [
        | none ↦ refused
        | some parts ↦ read_payload orgs now parts.0 parts.1 s
      ]
    ]

-- `stored` is what `list_accounts_db` of the database answers.
abbrev pub max_id : ℤ → List AccountInfo → ℤ
max_id m [] = m
max_id m (a ∷ rest) = max_id (if ltb_ℤ m a.account_id then a.account_id else m) rest

unfoldable pub load_from_database : List AccountInfo → AccountManager → AccountManager × StatusCode
load_from_database stored s = if not s.db then (s, storage_read_error) else elim stored [
  | [] ↦ (s, ok)
  | a ∷ rest ↦ (
    record s { accounts = s.accounts ++ a ∷ rest; next_id = max_id (pos 0) (a ∷ rest) +ℤ pos 1 },
    ok,
  )
]

abbrev pub created :
    (String → String) → OrgManager → String → AccountInfo → String → AccountManager → AccountManager
created hex_hash orgs now info password s =
    (create_account hex_hash orgs now info password s).0.state

-- Each call reads the clock again: `now` gives the time of the call with that number.
unfoldable pub seed_mock_data :
    (String → String) → OrgManager → (ℕ → String) → AccountManager → AccountManager
seed_mock_data hex_hash orgs now s = created hex_hash orgs (now 4) viewer1 "View@12345" (
    created hex_hash orgs (now 3) operator1 "Oper@12345" (
      created hex_hash orgs (now 2) wangwu "Dept@12345" (
        created hex_hash orgs (now 1) lijingli "Org@12345"
          (created hex_hash orgs (now 0) admin "Admin@123" s))))
