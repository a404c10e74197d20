-- ===== src/Api.antt =====
-- src/middleware/communication/api_server.{h,cpp}: what the server does between the sockets. A handler is a
-- function from requests to responses; the routes are in the order of the iteration over their map.
-- `size` gives the number of bytes of a text.
pub mod Routes
pub mod Parse
use iot_dev_sys.Common.{
  ℕ, zero, suc, ◌+◌, String, Bool, true, false, not, ◌&&◌, ◌||◌, List, [], ◌∷◌, Option, none, some,
  ◌==◌, is_empty, is_some, if◌then◌else◌,
}
use iot_dev_sys.Common.Int.{ℤ, pos, negsuc, neg, int_eq}
use iot_dev_sys.Common.Text.{append, concat}
use iot_dev_sys.Common.Dict.{Dict, put}
use iot_dev_sys.Json.{strip, until, after, seek}
use iot_dev_sys.Json.Numbers.{to_string}

pub record HttpRequest : Type 0 where
  pub method : String
  pub path : String
  pub query : String
  pub body : String
  pub headers : Dict String
  pub remote_ip : String

pub record HttpResponse : Type 0 where
  pub status_code : ℤ
  pub content_type : String
  pub body : String
  pub extra_headers : String

unfoldable pub new_http_response : HttpResponse
new_http_response = record {
  status_code = pos 200;
  content_type = "application/json";
  body = "";
  extra_headers = "";
}

abbrev pub RouteHandler : Type 0
RouteHandler = HttpRequest → HttpResponse

abbrev pub route_key : String → String → String
route_key method path = append method (append " " path)

unfoldable pub add_route : String → String → RouteHandler → Dict RouteHandler → Dict RouteHandler
add_route method path handler routes = put (route_key method path) handler routes

abbrev pub get : String → RouteHandler → Dict RouteHandler → Dict RouteHandler
get p h routes = add_route "GET" p h routes

abbrev pub post : String → RouteHandler → Dict RouteHandler → Dict RouteHandler
post p h routes = add_route "POST" p h routes

abbrev pub put_route : String → RouteHandler → Dict RouteHandler → Dict RouteHandler
put_route p h routes = add_route "PUT" p h routes

abbrev pub del : String → RouteHandler → Dict RouteHandler → Dict RouteHandler
del p h routes = add_route "DELETE" p h routes

unfoldable pub json_response : ℤ → String → HttpResponse
unfolding new_http_response
json_response code json = record new_http_response {
  status_code = code;
  content_type = "application/json";
  body = json;
}

unfoldable pub error_response : ℤ → ℤ → String → HttpResponse
unfolding json_response
error_response code err msg = json_response code (
    concat (
      "{\"success\":false,\"error_code\":"
      ∷ to_string err
      ∷ ",\"error_message\":\""
      ∷ msg
      ∷ "\"}"
      ∷ []))

-- The method and the path of a key, around its first space.
unfoldable pub key_parts : String → Option (String × String)
unfolding until after
key_parts key = elim (until " " key) [
  | none ↦ none
  | some method ↦ elim (after " " key) [ none ↦ none | some path ↦ some (method, path) ]
]

abbrev pub has_text : String → String → Bool
has_text t s = is_some (seek t s)

abbrev pub is_exact : HttpRequest → String → Bool
is_exact req key = elim (key_parts key) [
  | none ↦ false
  | some parts ↦ parts.0 == req.method && not (has_text "{" parts.1) && parts.1 == req.path
]

-- A suffix matches a pattern with the text `rest` from its brace on.
abbrev pub fits_rest : String → String → Bool
fits_rest rest suffix = not (is_empty suffix) && (has_text "/" rest || not (has_text "/" suffix))

abbrev pub fits_pattern : String → String → Bool
fits_pattern pattern path = elim (seek "{" pattern) [
  | none ↦ false
  | some rest ↦ elim (until "{" pattern) [
    | none ↦ false
    | some prefix ↦ elim (strip prefix path) [ none ↦ false | some suffix ↦ fits_rest rest suffix ]
  ]
]

abbrev pub is_pattern : HttpRequest → String → Bool
is_pattern req key = elim (key_parts key) [
  | none ↦ false
  | some parts ↦ parts.0 == req.method && fits_pattern parts.1 req.path
]

-- The first route in the order of the iteration whose key passes.
unfoldable pub first_route : (String → Bool) → Dict RouteHandler → Option RouteHandler
first_route passes [] = none
first_route passes (r ∷ rs) = if passes r.0 then some r.1 else first_route passes rs

unfoldable pub preflight : HttpResponse
unfolding new_http_response
preflight = record new_http_response {
  status_code = pos 204;
  content_type = "text/plain";
  extra_headers =
      "Access-Control-Allow-Origin: *\r\nAccess-Control-Allow-Methods: GET,POST,PUT,DELETE,OPTIONS\r\nAccess-Control-Allow-Headers: Content-Type,Authorization,X-Firmware-Version,X-Firmware-Product,X-Firmware-Changelog,Range\r\nAccess-Control-Max-Age: 86400\r\n";
}

-- What `handle_connection` does with a request that was read.
unfoldable pub respond : Dict RouteHandler → HttpRequest → HttpResponse
respond routes req =
    if req.method == "OPTIONS" then preflight else elim (first_route (is_exact req) routes) [
      | some h ↦ h req
      | none ↦ elim (first_route (is_pattern req) routes) [
        | some h ↦ h req
        | none ↦ error_response (pos 404) (neg 404) (append "Not Found: " req.path)
      ]
    ]

abbrev pub reason : ℤ → String
reason status_code =
    if int_eq status_code (pos 200)
    then "OK"
    else if int_eq status_code (pos 201)
    then "Created"
    else if int_eq status_code (pos 206)
    then "Partial Content"
    else if int_eq status_code (pos 400)
    then "Bad Request"
    else if int_eq status_code (pos 401)
    then "Unauthorized"
    else if int_eq status_code (pos 404)
    then "Not Found"
    else if int_eq status_code (pos 500)
    then "Internal Server Error"
    else "Unknown"

-- The last character of the text is a newline.
abbrev pub ends_line : String → Bool
ends_line String.[] = false
ends_line (String.◌∷◌ c s) = if is_empty s then String.◌∷◌ c s == "\n" else ends_line s

abbrev pub extra : String → String
extra t = if is_empty t then "" else if ends_line t then t else append t "\r\n"

unfoldable pub build_response : (String → ℕ) → HttpResponse → String
unfolding concat
build_response size resp = concat (
    "HTTP/1.1 "
    ∷ to_string resp.status_code
    ∷ " "
    ∷ reason resp.status_code
    ∷ "\r\nContent-Type: "
    ∷ resp.content_type
    ∷ "\r\nContent-Length: "
    ∷ to_string (pos (size resp.body))
    ∷ "\r\nConnection: close\r\n"
    ∷ extra resp.extra_headers
    ∷ "\r\n"
    ∷ resp.body
    ∷ [])
