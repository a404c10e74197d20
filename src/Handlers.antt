-- ===== src/Handlers.antt =====
-- The HTTP handlers of src/main.cpp: what they share. A handler takes the request and the managers that
-- it captures by reference, and gives the response with their new state, or `thrown` for an exception
-- of `std::stoi`, `std::stoll` or `substr`, which nothing catches.
pub mod Orders
pub mod Orgs
pub mod Auth
pub mod Accounts
pub mod Devices
pub mod Tenants
pub mod Faults
pub mod Recipes
pub mod Via
use iot_dev_sys.Common.{
  ℕ, zero, suc, String, Bool, true, false, List, [], ◌∷◌, ◌++◌, Option, none, some, ◌==◌,
  if◌then◌else◌,
}
use iot_dev_sys.Common.Int.{ℤ, pos}
use iot_dev_sys.Common.Text.{append, concat}
use iot_dev_sys.Json.{strip}
use iot_dev_sys.Json.Numbers.{to_string}
use iot_dev_sys.Status.{StatusCode, code, status_message}
use iot_dev_sys.Activation.{is_ok}
use iot_dev_sys.Api.{HttpRequest, HttpResponse, json_response, error_response}
use iot_dev_sys.Api.Parse.{chars}

pub data Reply (S : Type 0) : Type 0 where
  thrown : Reply S
  answered : HttpResponse → S → Reply S

-- `s.substr(n)`
unfoldable pub skip : ℕ → String → Option String
skip zero s = some s
skip (suc n) String.[] = none
skip (suc n) (String.◌∷◌ c s) = skip n s

-- `req.path.substr(prefix.size())`
unfoldable pub rest_of : String → HttpRequest → Option String
unfolding skip chars
rest_of prefix req = skip (chars prefix) req.path

-- A value whose reading may throw.
abbrev pub or_thrown {ℓ} : {A : Type ℓ} {S : Type 0} → Option A → (A → Reply S) → Reply S
or_thrown none k = thrown
or_thrown (some a) k = k a

-- The answer to a call that gave a status code.
abbrev pub by_status : StatusCode → HttpResponse → HttpResponse
by_status sc response =
    if is_ok sc then response else error_response (pos 400) (code sc) (status_message sc)

-- The texts with commas between them.
unfoldable pub commas : List String → String
unfolding append
commas [] = ""
commas (s ∷ []) = s
commas (s ∷ t ∷ ss) = append s (append "," (commas (t ∷ ss)))

-- `"key":"value"` and `"key":value`
abbrev pub text_field : String → String → String
text_field k v = concat ("\"" ∷ k ∷ "\":\"" ∷ v ∷ "\"" ∷ [])

abbrev pub raw_field : String → String → String
raw_field k v = concat ("\"" ∷ k ∷ "\":" ∷ v ∷ [])

abbrev pub int_field : String → ℤ → String
int_field k n = raw_field k (to_string n)

abbrev pub bool_text : Bool → String
bool_text true = "true"
bool_text false = "false"

abbrev pub bool_field : String → Bool → String
bool_field k b = raw_field k (bool_text b)

abbrev pub object : List String → String
object fields = concat ("{" ∷ commas fields ∷ "}" ∷ [])

abbrev pub array : List String → String
array items = concat ("[" ∷ commas items ∷ "]" ∷ [])

-- `{"code":0,"message":"success","data":…}`
abbrev pub success : String → String
success payload = concat ("{\"code\":0,\"message\":\"success\",\"data\":" ∷ payload ∷ "}" ∷ [])
