-- ===== src/Api/Routes.antt =====
-- Which handler of src/middleware/communication/api_server.cpp answers a request.
use Prim.Native.Char.{Char, code}
use text.Mathlib.TextEquality.{Char-path}
use iot_dev_sys.Common.{
  ◌≡◌, ◌≢◌, refl, sym, ap, ◌∙◌, String, true, false, [], ◌∷◌, none, some, arith, inl, inr,
  Bool-cases, Option-cases, ◌==◌, text_iff, All,
}
use iot_dev_sys.Common.Int.{pos, neg}
use iot_dev_sys.Common.Text.{append, lacks, is}
use iot_dev_sys.Common.Dict.{Dict, lookup, lookup-put}
use iot_dev_sys.Json.{until, after, seek, strip, has_char}
use iot_dev_sys.Json.Digits.{until-mark, after-mark}
use iot_dev_sys.Api.{
  HttpRequest, RouteHandler, route_key, add_route, key_parts, is_exact, is_pattern, first_route,
  has_text, respond, error_response,
}

abbrev pub space : Char
space = " "

abbrev pub brace : Char
brace = "{"

key_parts-route_key :
    (m p : String) → lacks space m ≡ true → key_parts (route_key m p) ≡ some (m, p)
unfolding key_parts append
key_parts-route_key m p h = rw (key_parts, until-mark space m p h, after-mark space m p h) refl

same_head : (c d : Char) (a b : String) → code c ≡ code d → a ≡ b → String.◌∷◌ c a ≡ String.◌∷◌ d b
same_head c d a b h e = rw (Char-path c d h, e) refl

-- The parts of a key make it up.
until-append :
    (key m p : String)
    → until " " key ≡ some m
    → after " " key ≡ some p
    → key ≡ append m (append " " p)
unfolding until after seek strip append has_char
until-append String.[] m p hm hp = absurd (cc hm)
until-append (String.◌∷◌ c key) m p hm hp = elim (Bool-cases (is c space)) [
  | inl mark ↦
      (let em : m ≡ "" = ground (arith, mark, hm) in
        let ep : key ≡ p = ground (arith, mark, hp) in
        same_head c space key p (ground (arith, mark)) ep
        ∙ ap (λ x. append x (append " " p)) (sym em))
  | inr other ↦ elim (Option-cases (until " " key)) [
    | inl miss ↦ absurd (ground (arith, other, hm, miss))
    | inr (n, hit) ↦
        (let made : key ≡ append n (append " " p) =
            until-append key n p hit (ground (arith, other, hp)) in
          ground (arith, other, hm, hit, made, same_head c c key (append n (append " " p))))
  ]
]

key_parts-made : (key m p : String) → key_parts key ≡ some (m, p) → key ≡ route_key m p
unfolding key_parts
key_parts-made key m p e = elim (Option-cases (until " " key)) [
  | inl miss ↦ absurd (ground (arith, e, miss))
  | inr (n, hit) ↦ elim (Option-cases (after " " key)) [
    | inl miss ↦ absurd (ground (arith, e, hit, miss))
    | inr (q, found) ↦
        (let first : n ≡ m = ground (arith, e, hit, found) in
          let second : q ≡ p = ground (arith, e, hit, found) in
          until-append key n q hit found ∙ rw (first, second) refl)
  ]
]

lacks-brace : (p : String) → lacks brace p ≡ true → has_text "{" p ≡ false
unfolding lacks seek strip
lacks-brace String.[] h = refl
lacks-brace (String.◌∷◌ c p) h = ground (arith, lacks-brace p)

is_exact-same :
    (req : HttpRequest) (key : String)
    → lacks space req.method ≡ true
    → lacks brace req.path ≡ true
    → key ≡ route_key req.method req.path
    → is_exact req key ≡ true
is_exact-same req key hm hp e =
    (let parts : key_parts key ≡ some (req.method, req.path) =
        ap key_parts e ∙ key_parts-route_key req.method req.path hm in
      ground (
        arith,
        parts,
        lacks-brace req.path hp,
        text_iff req.method req.method,
        text_iff req.path req.path,
      ))

is_exact-made :
    (req : HttpRequest) (key : String)
    → is_exact req key ≡ true
    → key ≡ route_key req.method req.path
is_exact-made req key h = elim (Option-cases (key_parts key)) [
  | inl miss ↦ absurd (ground (arith, h, miss))
  | inr (parts, hit) ↦
      (let first : parts.0 ≡ req.method = ground (arith, h, hit, text_iff parts.0 req.method) in
        let second : parts.1 ≡ req.path = ground (arith, h, hit, text_iff parts.1 req.path) in
        key_parts-made key parts.0 parts.1 hit ∙ rw (first, second) refl)
]

-- A key is matched exactly if it is the method and the path of the request.
is_exact-route_key :
    (req : HttpRequest) (key : String)
    → lacks space req.method ≡ true
    → lacks brace req.path ≡ true
    → is_exact req key ≡ (key == route_key req.method req.path)
is_exact-route_key req key hm hp = elim (Bool-cases (key == route_key req.method req.path)) [
  | inl same ↦
      is_exact-same req key hm hp ((text_iff key (route_key req.method req.path)).0 same) ∙ sym same
  | inr other ↦ elim (Bool-cases (is_exact req key)) [
    | inl hit ↦
        absurd
          (cc (other, (text_iff key (route_key req.method req.path)).1 (is_exact-made req key hit)))
    | inr miss ↦ miss ∙ sym other
  ]
]

first_route-lookup :
    (req : HttpRequest) (routes : Dict RouteHandler)
    → lacks space req.method ≡ true
    → lacks brace req.path ≡ true
    → first_route (is_exact req) routes ≡ lookup (route_key req.method req.path) routes
unfolding first_route lookup
first_route-lookup req [] hm hp = refl
first_route-lookup req (r ∷ routes) hm hp =
    rw (is_exact-route_key req r.0 hm hp, first_route-lookup req routes hm hp) refl

lookup-add_route :
    (m p : String) (h : RouteHandler) (routes : Dict RouteHandler)
    → lookup (route_key m p) (add_route m p h routes) ≡ some h
unfolding add_route
lookup-add_route m p h routes =
    lookup-put (route_key m p) (route_key m p) h routes
    ∙ rw ((text_iff (route_key m p) (route_key m p)).1 refl) refl

not_options : (req : HttpRequest) → req.method ≢ "OPTIONS" → (req.method == "OPTIONS") ≡ false
not_options req other = elim (Bool-cases (req.method == "OPTIONS")) [
  | inl same ↦ absurd (other ((text_iff req.method "OPTIONS").0 same))
  | inr differs ↦ differs
]

respond_exact :
    (h : RouteHandler) (routes : Dict RouteHandler) (req : HttpRequest)
    → req.method ≢ "OPTIONS"
    → first_route (is_exact req) routes ≡ some h
    → respond routes req ≡ h req
unfolding respond
respond_exact h routes req other found = rw (respond, not_options req other, found) refl

-- A handler that was registered for a method and a path without parameters answers every request for
-- them, except OPTIONS, whatever other routes there are and in whatever order the map holds them.
pub respond-add_route :
    (h : RouteHandler) (routes : Dict RouteHandler) (req : HttpRequest)
    → lacks space req.method ≡ true
    → lacks brace req.path ≡ true
    → req.method ≢ "OPTIONS"
    → respond (add_route req.method req.path h routes) req ≡ h req
respond-add_route h routes req hm hp other =
    respond_exact h (add_route req.method req.path h routes) req other (
      first_route-lookup req (add_route req.method req.path h routes) hm hp
      ∙ lookup-add_route req.method req.path h routes)

-- No route matches.
abbrev pub IsUnknown : HttpRequest → Dict RouteHandler → Type 0
IsUnknown req routes = All (λ r. (is_exact req r.0 ≡ false) × (is_pattern req r.0 ≡ false)) routes

missing :
    (req : HttpRequest) (routes : Dict RouteHandler)
    → IsUnknown req routes
    → (first_route (is_exact req) routes ≡ none) × (first_route (is_pattern req) routes ≡ none)
unfolding first_route
missing req [] u = (refl, refl)
missing req (r ∷ routes) u =
    (let rest : (first_route (is_exact req) routes ≡ none)
          × (first_route (is_pattern req) routes ≡ none) =
        missing req routes u.1 in
      (rw (u.0.0) rest.0, rw (u.0.1) rest.1))

-- A request, other than OPTIONS, whose method and path match no route is answered with 404 and its path.
respond-IsUnknown :
    (routes : Dict RouteHandler) (req : HttpRequest)
    → req.method ≢ "OPTIONS"
    → IsUnknown req routes
    → respond routes req ≡ error_response (pos 404) (neg 404) (append "Not Found: " req.path)
unfolding respond
respond-IsUnknown routes req other u =
    rw (respond, not_options req other, (missing req routes u).0, (missing req routes u).1) refl
