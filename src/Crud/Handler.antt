-- ===== src/Crud/Handler.antt =====
-- The requests of `CrudRequestHandler`, over a storage and over Boost.JSON, which are arguments.
use creeper_url_shortening_w.Crud.{
  HttpMethod, post, get, put, delete, invalid_method, get_method, is_valid_integer, vector_to_json,
  is_json_content_type,
}
use creeper_url_shortening_w.Crud.Uri.{BasePattern, extract_entity, extract_id}
use creeper_url_shortening_w.Handlers.{version_of}
use creeper_url_shortening_w.Http.{
  Request, Response, content_type, stock_400, stock_404, stock_415, stock_500,
}
use creeper_url_shortening_w.Storage.{IEntityStorage}
use creeper_url_shortening_w.Prelude.Integer.{ℤ}
use creeper_url_shortening_w.Prelude.Stoi.{int_to_string}
use creeper_url_shortening_w.Prelude.Text.{Bytes, codes}
use creeper_url_shortening_w.Prelude.{
  ℕ, ◌≡◌, Bool, true, false, List, [], ◌∷◌, ◌++◌, Option, none, some, if◌then◌else◌,
}

-- `boost::json::parse`, `none` where it sets `ec`, and `boost::json::serialize`. What is serialised can
-- be parsed, and serialises to the same text again.
pub record JsonLibrary : Type 1 where
  pub Value : Type 0
  pub parse : Bytes → Option Value
  pub serialize : Value → Bytes
  pub parse-serialize :
      (v : Value) → (w : Value) × (parse (serialize v) ≡ some w) × (serialize w ≡ serialize v)

-- `res->body = …` behind a stock response
abbrev pub with_body : Response → Bytes → Response
with_body response body = record response { body = body }

unfoldable pub bare_405 : Bytes → Response
bare_405 body = record {
  version = [];
  status_code = 405;
  status_message = [];
  headers = [];
  body = body;
}

unfoldable pub no_body : Request → ℕ → Bytes → Response
no_body request status message = record {
  version = version_of request;
  status_code = status;
  status_message = message;
  headers = [];
  body = [];
}

unfoldable pub json_response : Request → ℕ → Bytes → Bytes → Response
json_response request status message body = record {
  version = version_of request;
  status_code = status;
  status_message = message;
  headers = content_type (codes "application/json");
  body = body;
}

module _ (storage_ : IEntityStorage) (library : JsonLibrary) where
  open storage_ use {Storage, create, retrieve, update, remove, list}
  open library use {Value, parse, serialize}

  -- The storage behind a request and the response; `none` where an exception leaves the handler.
  abbrev pub Outcome : Type 0
  Outcome = Option (Storage × Response)

  abbrev pub created : Request → Option (Storage × Option ℤ) → Outcome
  created request none = none
  created request (some (s, none)) = some (s, with_body stock_500 (codes "Failed to create entity"))
  created request (some (s, some id)) = some (
    s,
    json_response request 201 (codes "Created")
        (codes "{\"id\": " ++ (int_to_string id ++ codes "}")),
  )

  abbrev pub post_value : Request → Bytes → Storage → Option Value → Outcome
  post_value request entity s none = some (s, with_body stock_400 (codes "Invalid JSON body"))
  post_value request entity s (some value) = created request (create entity (serialize value) s)

  unfoldable pub handle_post : BasePattern → Request → Storage → Outcome
  handle_post base request s =
      if is_json_content_type request
      then post_value request (extract_entity base request.uri) s (parse request.body)
      else some (s, with_body stock_415 (codes "Content-Type must be application/json"))

  abbrev pub get_value : Request → Option Value → Response
  get_value request none = with_body stock_500 (codes "Stored JSON could not be parsed")
  get_value request (some value) = json_response request 200 (codes "OK") (serialize value)

  abbrev pub get_stored : Request → Option Bytes → Response
  get_stored request none = with_body stock_404 (codes "ID not found")
  get_stored request (some text) = get_value request (parse text)

  abbrev pub get_number : Request → Bytes → Storage → Option ℤ → Response
  get_number request entity s none = with_body stock_404 (codes "ID not found")
  get_number request entity s (some id) = get_stored request (retrieve s entity id)

  abbrev pub get_list : Request → List ℤ → Response
  get_list request [] = with_body stock_404 (codes "Entity type not found")
  get_list request (id ∷ ids) = json_response request 200 (codes "OK") (vector_to_json (id ∷ ids))

  abbrev pub get_id : Request → Bytes → Storage → Bytes → Response
  get_id request entity s [] = get_list request (list s entity)
  get_id request entity s (c ∷ id) = get_number request entity s (is_valid_integer (c ∷ id))

  unfoldable pub handle_get : BasePattern → Request → Storage → Response
  handle_get base request s =
      get_id request (extract_entity base request.uri) s (extract_id base request.uri)

  -- `existed`: `file_previously_existed`
  abbrev pub updated : Request → Option Bytes → Option (Storage × Bool) → Outcome
  updated request existed none = none
  updated request existed (some (s, false)) = some (s, with_body stock_500 (codes "PUT failed"))
  updated request none (some (s, true)) = some (s, no_body request 201 (codes "Created"))
  updated request (some _) (some (s, true)) = some (s, no_body request 200 (codes "OK"))

  abbrev pub put_value : Request → Bytes → ℤ → Storage → Option Value → Outcome
  put_value request entity id s none = some (s, with_body stock_400 (codes "Invalid JSON body"))
  put_value request entity id s (some value) =
      updated request (retrieve s entity id) (update entity id (serialize value) s)

  abbrev pub put_number : Request → Bytes → Storage → Option ℤ → Outcome
  put_number request entity s none = some (s, with_body stock_404 (codes "ID invalid"))
  put_number request entity s (some id) =
      if is_json_content_type request
      then put_value request entity id s (parse request.body)
      else some (s, with_body stock_415 (codes "Content-Type must be application/json"))

  abbrev pub put_id : Request → Bytes → Storage → Bytes → Outcome
  put_id request entity s [] = some (s, bare_405 (codes "ID must be specified for PUT"))
  put_id request entity s (c ∷ id) = put_number request entity s (is_valid_integer (c ∷ id))

  unfoldable pub handle_put : BasePattern → Request → Storage → Outcome
  handle_put base request s =
      put_id request (extract_entity base request.uri) s (extract_id base request.uri)

  abbrev pub removed : Request → Option (Storage × Bool) → Outcome
  removed request none = none
  removed request (some (s, false)) = some (s, with_body stock_404 (codes "ID not found"))
  removed request (some (s, true)) = some (s, no_body request 204 (codes "No Content"))

  abbrev pub delete_number : Request → Bytes → Storage → Option ℤ → Outcome
  delete_number request entity s none = some (s, with_body stock_404 (codes "Invalid ID"))
  delete_number request entity s (some id) = removed request (remove entity id s)

  abbrev pub delete_id : Request → Bytes → Storage → Bytes → Outcome
  delete_id request entity s [] = some (s, bare_405 (codes "ID must be specified for DELETE"))
  delete_id request entity s (c ∷ id) = delete_number request entity s (is_valid_integer (c ∷ id))

  unfoldable pub handle_delete : BasePattern → Request → Storage → Outcome
  handle_delete base request s =
      delete_id request (extract_entity base request.uri) s (extract_id base request.uri)

  abbrev pub by_method : HttpMethod → BasePattern → Request → Storage → Outcome
  by_method post base request s = handle_post base request s
  by_method get base request s = some (s, handle_get base request s)
  by_method put base request s = handle_put base request s
  by_method delete base request s = handle_delete base request s
  by_method invalid_method base request s =
      some (s, with_body stock_400 (codes "Unsupported operation or malformed request"))

  abbrev pub of_entity : BasePattern → Request → Storage → Bytes → Outcome
  of_entity base request s [] = some (s, with_body stock_400 (codes "Invalid URI: missing entity"))
  of_entity base request s (c ∷ entity) = by_method (get_method request.method) base request s

  -- `none` for the pattern: `base_uri` is no regular expression, and `std::regex` throws.
  unfoldable pub handle_request : Option BasePattern → Request → Storage → Outcome
  unfolding handle_post handle_get handle_put handle_delete
  handle_request none request s = none
  handle_request (some base) request s = of_entity base request s (extract_entity base request.uri)
