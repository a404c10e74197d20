-- ===== src/Api/Parse/Line.antt =====
-- The request line as `parse_request` of src/middleware/communication/api_server.cpp reads it.
use Prim.Native.Char.{Char}
use iot_dev_sys.Common.{
  ℕ, inl, inr, Bool-cases, ◌≡◌, refl, ap, ◌∙◌, String, Bool, true, false, not, ◌&&◌, ◌∷◌, arith,
  ◌==◌, is_empty, text_iff, Option, none, some,
}
use iot_dev_sys.Common.Text.{append, lacks}
use iot_dev_sys.Json.{is_space, skip_space}
use iot_dev_sys.Json.Digits.{until-mark, after-mark, until-lacks, after-lacks}
use iot_dev_sys.Api.{HttpRequest}
use iot_dev_sys.Api.Parse.{
  newline, lines, chomp, take_word, drop_word, second_word, first_line, parse_request, path_of,
  query_of, or_empty,
}

abbrev question : Char
question = "?"

-- No character is white space.
unfoldable pub is_solid : String → Bool
is_solid String.[] = true
is_solid (String.◌∷◌ c s) = not (is_space c) && is_solid s

lines-line :
    (l rest : String)
    → lacks newline l ≡ true
    → lines (append l (append "\n" rest)) ≡ l ∷ lines rest
unfolding lines append lacks
lines-line String.[] rest h = refl
lines-line (String.◌∷◌ c l) rest h = ground (arith, lines-line l rest)

take_word-append :
    (w t : String) (c : Char)
    → is_solid w ≡ true
    → is_space c ≡ true
    → take_word (append w (String.◌∷◌ c t)) ≡ w
unfolding take_word append is_solid
take_word-append String.[] t c h k = ground (arith, k)
take_word-append (String.◌∷◌ d w) t c h k = ground (arith, take_word-append w t c, k)

drop_word-append :
    (w t : String) (c : Char)
    → is_solid w ≡ true
    → is_space c ≡ true
    → drop_word (append w (String.◌∷◌ c t)) ≡ String.◌∷◌ c t
unfolding drop_word append is_solid
drop_word-append String.[] t c h k = ground (arith, k)
drop_word-append (String.◌∷◌ d w) t c h k = ground (arith, drop_word-append w t c, k)

skip_space-append :
    (w t : String) → is_empty w ≡ false → is_solid w ≡ true → skip_space (append w t) ≡ append w t
unfolding skip_space append is_solid
skip_space-append String.[] t e h = absurd (cc (e, (text_iff "" "").1 refl))
skip_space-append (String.◌∷◌ c w) t e h = ground (arith, h)

solid-lacks : (w : String) (c : Char) → is_space c ≡ true → is_solid w ≡ true → lacks c w ≡ true
unfolding is_solid lacks
solid-lacks String.[] c k h = refl
solid-lacks (String.◌∷◌ d w) c k h = ground (arith, k, solid-lacks w c k)

lacks-append : (c : Char) (a b : String) → lacks c (append a b) ≡ (lacks c a && lacks c b)
unfolding append lacks
lacks-append c String.[] b = refl
lacks-append c (String.◌∷◌ d a) b = ground (arith, lacks-append c a b)

is_solid-append : (a b : String) → is_solid (append a b) ≡ (is_solid a && is_solid b)
unfolding append is_solid
is_solid-append String.[] b = refl
is_solid-append (String.◌∷◌ d a) b = ground (arith, is_solid-append a b)

cons-nonempty : (c : Char) (a : String) → is_empty (String.◌∷◌ c a) ≡ false
cons-nonempty c a = elim (Bool-cases (is_empty (String.◌∷◌ c a))) [
  | inl same ↦ absurd (cc ((text_iff (String.◌∷◌ c a) "").0 same))
  | inr differs ↦ differs
]

nonempty-append : (a b : String) → is_empty a ≡ false → is_empty (append a b) ≡ false
unfolding append
nonempty-append String.[] b h = absurd (cc (h, (text_iff "" "").1 refl))
nonempty-append (String.◌∷◌ c a) b h = cons-nonempty c (append a b)

nonempty_end : (a : String) → is_empty (append a "\r") ≡ false
unfolding append
nonempty_end String.[] = cons-nonempty "\r" ""
nonempty_end (String.◌∷◌ c a) = cons-nonempty c (append a "\r")

chomp_return : chomp "\r" ≡ ""
unfolding chomp ◌==◌
chomp_return = refl

chomp-return : (a : String) → chomp (append a "\r") ≡ a
unfolding chomp append
chomp-return String.[] = chomp_return
chomp-return (String.◌∷◌ c a) = rw (nonempty_end a) (ap (String.◌∷◌ c) (chomp-return a))

-- The words of a request line, and the line up to its newline.
abbrev words : String → String → String → String
words method target version = append method (append " " (append target (String.◌∷◌ " " version)))

abbrev pub request_line : String → String → String → String
request_line method target version = append (words method target version) "\r"

line-lacks :
    (m t v : String)
    → is_solid m ≡ true
    → is_solid t ≡ true
    → lacks newline v ≡ true
    → lacks newline (request_line m t v) ≡ true
unfolding append lacks
line-lacks m t v hm ht hv =
    lacks-append newline (words m t v) "\r"
    ∙ ground (
      arith,
      hv,
      lacks-append newline m (append " " (append t (String.◌∷◌ " " v))),
      lacks-append newline t (String.◌∷◌ " " v),
      solid-lacks m newline refl hm,
      solid-lacks t newline refl ht,
    )

first_line-line :
    (m t v rest : String)
    → is_solid m ≡ true
    → is_solid t ≡ true
    → lacks newline v ≡ true
    → first_line (lines (append (request_line m t v) (append "\n" rest))) ≡ words m t v
unfolding append
first_line-line m t v rest hm ht hv =
    ap first_line (lines-line (request_line m t v) rest (line-lacks m t v hm ht hv))
    ∙ chomp-return (words m t v)

method-line :
    (m t : String)
    → is_empty m ≡ false
    → is_solid m ≡ true
    → take_word (skip_space (append m (append " " t))) ≡ m
unfolding append
method-line m t e h = rw (skip_space-append m (append " " t) e h) (take_word-append m t " " h refl)

skip_space-blank : (t : String) → skip_space (append " " t) ≡ skip_space t
unfolding skip_space append
skip_space-blank t = refl

target-line :
    (m t v : String)
    → is_empty m ≡ false
    → is_solid m ≡ true
    → is_empty t ≡ false
    → is_solid t ≡ true
    → second_word (words m t v) ≡ t
unfolding append
target-line m t v em hm et ht =
    ap (λ x. take_word (skip_space (drop_word x)))
      (skip_space-append m (append " " (append t (String.◌∷◌ " " v))) em hm)
    ∙ ap (λ x. take_word (skip_space x))
        (drop_word-append m (append t (String.◌∷◌ " " v)) " " hm refl)
    ∙ ap take_word (
        skip_space-blank (append t (String.◌∷◌ " " v))
        ∙ skip_space-append t (String.◌∷◌ " " v) et ht)
    ∙ take_word-append t v " " ht refl

-- The target: a path, and a query string if there is one.
abbrev pub target_of : String → Option String → String
target_of path none = path
target_of path (some query) = append path (append "?" query)

target_of-solid :
    (path : String) (query : Option String)
    → is_solid path ≡ true
    → is_solid (or_empty query) ≡ true
    → is_solid (target_of path query) ≡ true
unfolding append is_solid
target_of-solid path none hp hq = hp
target_of-solid path (some query) hp hq =
    is_solid-append path (append "?" query) ∙ ground (arith, hp, hq)

target_of-nonempty :
    (path : String) (query : Option String)
    → is_empty path ≡ false
    → is_empty (target_of path query) ≡ false
target_of-nonempty path none h = h
target_of-nonempty path (some query) h = nonempty-append path (append "?" query) h

path_of-target_of :
    (path : String) (query : Option String)
    → lacks question path ≡ true
    → path_of (target_of path query) ≡ path
unfolding append
path_of-target_of path none free = rw (path_of, until-lacks question path free) refl
path_of-target_of path (some query) free = rw (path_of, until-mark question path query free) refl

query_of-target_of :
    (path : String) (query : Option String)
    → lacks question path ≡ true
    → query_of (target_of path query) ≡ or_empty query
unfolding append
query_of-target_of path none free = rw (after-lacks question "" path free) refl
query_of-target_of path (some query) free = rw (after-mark question path query free) refl

-- The parts of the request line that was read.
abbrev pub AreRead : String → String → String → HttpRequest → Type 0
AreRead method path query req = (req.method ≡ method) × (req.path ≡ path) × (req.query ≡ query)

-- A request line that ends in a carriage return and a newline is read as its method, its path and its query
-- string, which is empty if the target has no question mark, whatever follows. The method, the path and the
-- query hold no white space, the method and the path are not empty and the path has no question mark; a
-- space stands between the method, the target and the version, and the version holds no newline.
pub parse_request-line :
    (method path : String) (query : Option String) (version rest : String) (content_len : ℕ)
    → is_empty method ≡ false
    → is_solid method ≡ true
    → is_empty path ≡ false
    → is_solid path ≡ true
    → is_solid (or_empty query) ≡ true
    → lacks question path ≡ true
    → lacks newline version ≡ true
    → AreRead method path (or_empty query) (
        parse_request
          (append (request_line method (target_of path query) version) (append "\n" rest))
          content_len)
unfolding parse_request
parse_request-line method path query version rest content_len em hm ep hp hq free hv =
    (let target : String = target_of path query in
      let ht : is_solid target ≡ true = target_of-solid path query hp hq in
      let line : first_line (lines (append (request_line method target version) (append "\n" rest)))
          ≡ words method target version =
        first_line-line method target version rest hm ht hv in
      let second : second_word
            (first_line (lines (append (request_line method target version) (append "\n" rest))))
          ≡ target =
        ap second_word line
        ∙ target-line method target version em hm (target_of-nonempty path query ep) ht in
      (
        ap (λ x. take_word (skip_space x)) line
            ∙ method-line method (append target (String.◌∷◌ " " version)) em hm,
        ap path_of second ∙ path_of-target_of path query free,
        ap query_of second ∙ query_of-target_of path query free,
      ))
