-- ===== src/Service/Numbers.antt =====
-- The requests to src/main.cpp that name an organization or an account by its number.
use iot_dev_sys.Common.{◌≡◌, String, Bool, false, ◌||◌, leb}
use Prim.Native.Char.{Char}
use iot_dev_sys.Common.Int.{ℤ, pos, negsuc}
use iot_dev_sys.Common.Text.{is}
use iot_dev_sys.Json.{is_digit, is_space}
use iot_dev_sys.Json.Numbers.{to_string}
use iot_dev_sys.Handlers.{Reply, thrown, answered}
use iot_dev_sys.Service.{
  Service, Route, org, account, org_get, org_put, org_delete, account_get, account_delete,
}

-- The handlers that read a number from the end of the path.
pub data ByNumber : Type 0 where
  read_org write_org remove_org read_account remove_account : ByNumber

abbrev pub route_of : ByNumber → Route
route_of read_org = org org_get
route_of write_org = org org_put
route_of remove_org = org org_delete
route_of read_account = account account_get
route_of remove_account = account account_delete

abbrev pub prefix_of : ByNumber → String
prefix_of read_org = "/api/v1/orgs/"
prefix_of write_org = "/api/v1/orgs/"
prefix_of remove_org = "/api/v1/orgs/"
prefix_of read_account = "/api/v1/accounts/"
prefix_of remove_account = "/api/v1/accounts/"

abbrev IsAnswer : {S : Type 0} → Reply S → Type 0
IsAnswer thrown = ⊥
IsAnswer (answered r s) = Unit

-- The ways in which a path can go on behind the prefix: with a number, with a text whose first character is
-- no digit, no sign and no white space, or not at all.
pub data Ending : Type 0 where
  numeral : ℤ → Ending
  word : Char → String → Ending
  nothing : Ending

unfoldable pub text_of : Ending → String
unfolding to_string
text_of (numeral z) = to_string z
text_of (word c t) = String.◌∷◌ c t
text_of nothing = ""

abbrev pub Fits : Ending → Type 0
Fits (numeral z) = Unit
Fits (word c t) = (is_digit c || is_space c || (is c "-" || is c "+")) ≡ false
Fits nothing = Unit

-- The path goes on with a number of 32 bits.
abbrev pub is_int : Ending → Bool
is_int (numeral (pos n)) = leb n 2147483647
is_int (numeral (negsuc n)) = leb n 2147483647
is_int (word c t) = false
is_int nothing = false
