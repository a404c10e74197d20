-- ===== src/Examples/Server.antt =====
-- Requests to src/middleware/communication/api_server.cpp and ids of include/dev_sys/common/types.h.
use iot_dev_sys.Common.{some, ◌≡◌, ◌≢◌, refl, true, false, List, [], ◌∷◌, arith, ◌==◌, is_empty, ℕ}
use iot_dev_sys.Common.Int.{pos}
use iot_dev_sys.Common.Text.{append, lacks}
use iot_dev_sys.Common.Dict.{Dict}
use iot_dev_sys.Json.{seek, strip, until, after, has_char}
use iot_dev_sys.Api.{HttpRequest, RouteHandler, json_response, respond, add_route, key_parts}
use iot_dev_sys.Api.Routes.{IsUnknown, respond-add_route}
use iot_dev_sys.Api.Parse.{newline, parse_request}
use iot_dev_sys.Api.Parse.Line.{AreRead, is_solid, target_of, request_line, parse_request-line}
use iot_dev_sys.Ulid.{
  generate, encode_time, time_from, encode_random, random_from, char_at, place, byte,
}
use iot_dev_sys.Ulid.Order.{precedes, generate-precedes}

abbrev request : HttpRequest
request = record {
  method = "GET";
  path = "/api/v1/orgs";
  query = "";
  body = "";
  headers = [];
  remote_ip = "";
}

abbrev list_handler : RouteHandler
list_handler req = json_response (pos 200) "[]"

abbrev one_handler : RouteHandler
one_handler req = json_response (pos 200) "{}"

abbrev routes : Dict RouteHandler
routes = ("GET /api/v1/{any}", one_handler) ∷ ("PUT /api/v1/orgs", one_handler) ∷ []

get-lacks : lacks " " "GET" ≡ true
unfolding lacks
get-lacks = refl

path-lacks : lacks "{" "/api/v1/orgs" ≡ true
unfolding lacks
path-lacks = refl

get_differs : request.method ≢ "OPTIONS"
get_differs = λ e. cc

respond-add_route_example :
    respond (add_route "GET" "/api/v1/orgs" list_handler routes) request
    ≡ json_response (pos 200) "[]"
respond-add_route_example =
    respond-add_route list_handler routes request get-lacks path-lacks get_differs

abbrev others : Dict RouteHandler
others = ("GET /api/v1/faults", one_handler) ∷ ("PUT /api/v1/orgs", one_handler) ∷ []

others-IsUnknown : IsUnknown request others
unfolding key_parts until after seek strip has_char ◌==◌
others-IsUnknown = ((refl, refl), ((refl, refl), tt))

get_nonempty : is_empty "GET" ≡ false
unfolding ◌==◌
get_nonempty = refl

path_nonempty : is_empty "/api/v1/orgs" ≡ false
unfolding ◌==◌
path_nonempty = refl

get_solid : is_solid "GET" ≡ true
unfolding is_solid
get_solid = refl

path_solid : is_solid "/api/v1/orgs" ≡ true
unfolding is_solid
path_solid = refl

query_solid : is_solid "parent=1" ≡ true
unfolding is_solid
query_solid = refl

path_free : lacks "?" "/api/v1/orgs" ≡ true
unfolding lacks
path_free = refl

version_free : lacks newline "HTTP/1.1" ≡ true
unfolding lacks
version_free = refl

parse_request-line_example : AreRead "GET" "/api/v1/orgs" "parent=1" (
    parse_request
      (append
        (request_line "GET" (target_of "/api/v1/orgs" (some "parent=1")) "HTTP/1.1")
        (append "\n" "Host: a\r\n\r\n"))
      0)
parse_request-line_example =
    parse_request-line "GET" "/api/v1/orgs" (some "parent=1") "HTTP/1.1" "Host: a\r\n\r\n" 0
      get_nonempty get_solid path_nonempty path_solid query_solid path_free version_free

abbrev zeros : List ℕ
zeros = 0 ∷ 0 ∷ 0 ∷ 0 ∷ 0 ∷ 0 ∷ 0 ∷ 0 ∷ 0 ∷ 0 ∷ []

abbrev ones : List ℕ
ones = 255 ∷ 255 ∷ 255 ∷ 255 ∷ 255 ∷ 255 ∷ 255 ∷ 255 ∷ 255 ∷ 255 ∷ []

-- 1700000000000 milliseconds, and the largest random bytes.
id_text : generate 1700000000000 ones ≡ "01HF7YAT00ZZZZZZZZZZZZZZZZ"
unfolding generate encode_time time_from encode_random random_from char_at place byte append
id_text = refl

generate-precedes_example :
    precedes (generate 1700000000000 ones) (generate 1700000000001 zeros) ≡ true
generate-precedes_example =
    generate-precedes 1700000000000 1700000000001 ones zeros (omega arith) (omega arith)
