-- ===== src/Crud.antt =====
-- include/crud_request_handler.h and src/crud_request_handler.cc: the handler of entities.
pub mod Uri
pub mod Handler
pub mod Spec
pub mod Throws
pub mod Ends
pub mod Reads
pub mod Writes
pub mod Refines
pub mod Memory
pub mod OnDisk
pub mod RoundTrip
use creeper_url_shortening_w.Config.{NginxConfigStatement, simple, block, statements, tokens}
use creeper_url_shortening_w.Handlers.Files.{FileSystem, create_at}
use creeper_url_shortening_w.Http.{Header, Request}
use creeper_url_shortening_w.Prelude.Integer.{ℤ}
use creeper_url_shortening_w.Prelude.Stoi.{Stoi, number, stoi, int_to_string}
use creeper_url_shortening_w.Prelude.Text.{Bytes, codes, str_eq}
use creeper_url_shortening_w.Prelude.{
  ℕ, ◌+◌, Bool, true, false, ◌&&◌, List, [], ◌∷◌, ◌++◌, map, Option, none, some, ◌==◌, leb, length,
  if◌then◌else◌,
}
use creeper_url_shortening_w.Registry.{Created, returned}

pub data HttpMethod : Type 0 where
  post get put delete invalid_method : HttpMethod

unfoldable pub get_method : Bytes → HttpMethod
get_method method =
    if str_eq method (codes "POST")
    then post
    else if str_eq method (codes "GET")
    then get
    else if str_eq method (codes "PUT")
    then put
    else if str_eq method (codes "DELETE")
    then delete
    else invalid_method

abbrev pub whole : ℕ → Stoi → Option ℤ
whole size (number value idx) = if idx == size then some value else none
whole size _ = none

-- `outValue` where it returns true
unfoldable pub is_valid_integer : Bytes → Option ℤ
is_valid_integer input = whole (length input) (stoi input)

-- the loop of `vector_to_json` from the second round on, with the comma of the round before
unfoldable pub more_ids : List ℤ → Bytes
more_ids [] = codes "]"
more_ids (id ∷ ids) = codes ",\"" ++ (int_to_string id ++ (codes "\"" ++ more_ids ids))

unfoldable pub vector_to_json : List ℤ → Bytes
unfolding more_ids
vector_to_json [] = codes "[]"
vector_to_json (id ∷ ids) = codes "[\"" ++ (int_to_string id ++ (codes "\"" ++ more_ids ids))

-- `std::tolower` on a byte
abbrev tolower : ℕ → ℕ
tolower c = if leb b'A' c && leb c b'Z' then c + 32 else c

unfoldable pub to_lower : Bytes → Bytes
to_lower input = map tolower input

-- The first header of the name decides.
unfoldable pub json_header : List Header → Bool
unfolding to_lower
json_header [] = false
json_header (h ∷ hs) =
    if str_eq (to_lower h.name) (to_lower (codes "Content-Type"))
    then str_eq h.value (codes "application/json")
    else json_header hs

unfoldable pub is_json_content_type : Request → Bool
unfolding json_header
is_json_content_type request = json_header request.headers

abbrev create_of_data_path : FileSystem → List Bytes → Created Bytes
create_of_data_path fs (word ∷ data_path ∷ []) =
    if str_eq word (codes "data_path") then create_at fs data_path else returned none
create_of_data_path fs _ = returned none

abbrev create_of_statements : FileSystem → List NginxConfigStatement → Created Bytes
create_of_statements fs (s ∷ []) = create_of_data_path fs (tokens s)
create_of_statements fs _ = returned none

-- `CrudRequestHandlerArgs::create_from_config`, which resolves the path as that of the static handler
-- does; the argument is the path.
unfoldable pub create_crud : FileSystem → NginxConfigStatement → Created Bytes
create_crud fs (simple words) = returned none
create_crud fs (block words config) = create_of_statements fs (statements config)
