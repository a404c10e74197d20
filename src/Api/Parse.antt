-- ===== src/Api/Parse.antt =====
-- `parse_request` of src/middleware/communication/api_server.cpp. Texts are counted in characters, which
-- are the bytes of an ASCII text; `content_len` is what `handle_connection` read from the headers.
pub mod Line
use iot_dev_sys.Common.{
  ℕ, zero, suc, ◌+◌, String, Bool, true, false, ◌&&◌, ◌||◌, List, [], ◌∷◌, Option, none, some, leb,
  ltb, nat_eq, is_empty, if◌then◌else◌,
}
use Prim.Native.Char.{Char, code}
use iot_dev_sys.Common.Text.{is}
use iot_dev_sys.Common.Dict.{Dict, put}
use iot_dev_sys.Json.{is_space, skip_space, until, after}
use iot_dev_sys.Api.{HttpRequest}

abbrev pub newline : Char
newline = "\n"

abbrev pub return : Char
return = "\r"

abbrev pub in_front : Char → List String → List String
in_front c [] = (String.◌∷◌ c "") ∷ []
in_front c (l ∷ ls) = (String.◌∷◌ c l) ∷ ls

-- The lines that `std::getline` reads one after the other.
unfoldable pub lines : String → List String
lines String.[] = []
lines (String.◌∷◌ c s) = if is c newline then "" ∷ lines s else in_front c (lines s)

-- Without a carriage return at the end.
unfoldable pub chomp : String → String
chomp String.[] = ""
chomp (String.◌∷◌ c s) = if is_empty s && is c return then "" else String.◌∷◌ c (chomp s)

-- What `>>` reads into a string after the leading space, and what it leaves.
unfoldable pub take_word : String → String
take_word String.[] = ""
take_word (String.◌∷◌ c s) = if is_space c then "" else String.◌∷◌ c (take_word s)

unfoldable pub drop_word : String → String
drop_word String.[] = ""
drop_word (String.◌∷◌ c s) = if is_space c then String.◌∷◌ c s else drop_word s

abbrev pub second_word : String → String
second_word line = take_word (skip_space (drop_word (skip_space line)))

abbrev pub drop_blank : String → String
drop_blank String.[] = ""
drop_blank (String.◌∷◌ c s) = if nat_eq (code c) b' ' then s else String.◌∷◌ c s

abbrev pub or_empty : Option String → String
or_empty none = ""
or_empty (some s) = s

-- The headers up to the first empty line.
unfoldable pub read_headers : List String → Dict String → Dict String
unfolding until after chomp
read_headers [] headers = headers
read_headers (l ∷ ls) headers = if is_empty (chomp l) then headers else elim (until ":" (chomp l)) [
  | none ↦ read_headers ls headers
  | some key ↦ read_headers ls (put key (drop_blank (or_empty (after ":" (chomp l)))) headers)
]

unfoldable pub chars : String → ℕ
chars String.[] = 0
chars (String.◌∷◌ c s) = chars s + 1

unfoldable pub take : ℕ → String → String
take zero s = ""
take (suc n) String.[] = ""
take (suc n) (String.◌∷◌ c s) = String.◌∷◌ c (take n s)

abbrev pub read_body : ℕ → Option String → String
read_body content_len none = ""
read_body content_len (some rest) =
    if ltb 0 content_len && leb content_len (chars rest) then take content_len rest else ""

abbrev pub first_line : List String → String
first_line [] = ""
first_line (l ∷ ls) = chomp l

abbrev pub other_lines : List String → List String
other_lines [] = []
other_lines (l ∷ ls) = ls

-- The path without its query string.
abbrev pub path_of : String → String
path_of target = elim (until "?" target) [ none ↦ target | some path ↦ path ]

abbrev pub query_of : String → String
query_of target = or_empty (after "?" target)

unfoldable pub parse_request : String → ℕ → HttpRequest
parse_request raw content_len = record {
  method = take_word (skip_space (first_line (lines raw)));
  path = path_of (second_word (first_line (lines raw)));
  query = query_of (second_word (first_line (lines raw)));
  headers = read_headers (other_lines (lines raw)) [];
  body = read_body content_len (after "\r\n\r\n" raw);
  remote_ip = "";
}
