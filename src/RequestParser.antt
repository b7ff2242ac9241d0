-- ===== src/RequestParser.antt =====
-- src/request_parser.cc: the request of a text, on top of the parser of Boost.Beast.
use creeper_url_shortening_w.Http.{Header, Request}
use creeper_url_shortening_w.Prelude.Decimal.{dec}
use creeper_url_shortening_w.Prelude.Text.{Bytes, codes, str_eq}
use creeper_url_shortening_w.Prelude.{
  ℕ, ◌/◌, ◌%◌, Bool, true, false, ◌&&◌, ◌||◌, List, [], ◌∷◌, ◌++◌, Option, none, some, ◌==◌,
  if◌then◌else◌,
}

-- What `parser.get()` gives.
pub record Message : Type 0 where
  pub version : ℕ
  pub method_string : Bytes
  pub target : Bytes
  pub body : Bytes
  pub fields : List Header

-- `parser.put` and `parser.get`: `none` where `ec` is set.
abbrev pub BeastParser : Type 0
BeastParser = Bytes → Option Message

unfoldable pub get_version : ℕ → Bytes
get_version version = codes "HTTP/" ++ (dec (version / 10) ++ (codes "." ++ dec (version % 10)))

unfoldable pub allowed_methods : List Bytes
allowed_methods = codes "GET" ∷ codes "POST" ∷ codes "PUT" ∷ codes "DELETE" ∷ []

unfoldable pub is_in : Bytes → List Bytes → Bool
is_in word [] = false
is_in word (w ∷ ws) = str_eq w word || is_in word ws

-- The `req` of the caller, which no one has written to but for `valid`.
abbrev pub invalid_request : Request
invalid_request = record {
  method = [];
  uri = [];
  version = [];
  headers = [];
  body = [];
  valid = false;
}

unfoldable pub is_accepted : Message → Bool
unfolding is_in allowed_methods
is_accepted m = m.version == 11 && is_in m.method_string allowed_methods

unfoldable pub fill : Message → Request
unfolding get_version
fill m = record {
  method = m.method_string;
  uri = m.target;
  version = get_version m.version;
  headers = m.fields;
  body = m.body;
  valid = true;
}

unfoldable pub parse : BeastParser → Bytes → Request
unfolding is_accepted fill
parse beast raw_request = elim (beast raw_request) [
  | none ↦ invalid_request
  | some m ↦ if is_accepted m then fill m else invalid_request
]
