-- ===== src/Types/Account.antt =====
-- include/dev_sys/common/types.h: accounts, logins and the content of tokens.
use iot_dev_sys.Common.{String, Bool, true, false, List, []}
use iot_dev_sys.Common.Int.{ℤ, pos}

pub record AccountInfo : Type 0 where
  pub account_id : ℤ
  pub username : String
  pub password_hash : String
  pub display_name : String
  pub org_id : ℤ
  pub org_name : String
  pub role_code : String
  pub email : String
  pub phone : String
  pub is_active : Bool
  pub last_login_at : String
  pub created_at : String
  pub updated_at : String

unfoldable pub new_account : AccountInfo
new_account = record {
  account_id = pos 0;
  username = "";
  password_hash = "";
  display_name = "";
  org_id = pos 0;
  org_name = "";
  role_code = "";
  email = "";
  phone = "";
  is_active = true;
  last_login_at = "";
  created_at = "";
  updated_at = "";
}

pub record LoginRequest : Type 0 where
  pub username : String
  pub password : String

pub record LoginResponse : Type 0 where
  pub success : Bool
  pub token : String
  pub expires_at : String
  pub account : AccountInfo
  pub permissions : List String
  pub error_code : ℤ
  pub error_message : String

unfoldable pub new_response : LoginResponse
unfolding new_account
new_response = record {
  success = false;
  token = "";
  expires_at = "";
  account = new_account;
  permissions = [];
  error_code = pos 0;
  error_message = "";
}

pub record TokenPayload : Type 0 where
  pub account_id : ℤ
  pub username : String
  pub org_id : ℤ
  pub org_scope : List ℤ
  pub role_code : String
  pub permissions : List String
  pub iat : ℤ
  pub exp : ℤ
