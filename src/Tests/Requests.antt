-- ===== src/Tests/Requests.antt =====
-- Requests of the CRUD handler, over the storage in memory.
use creeper_url_shortening_w.Crud.{
  get_method, is_json_content_type, json_header, to_lower, is_valid_integer, vector_to_json,
  more_ids,
}
use creeper_url_shortening_w.Crud.Handler.{JsonLibrary, json_response, with_body, handle_request}
use creeper_url_shortening_w.Crud.RoundTrip.{post-get}
use creeper_url_shortening_w.Crud.Spec.{Refines}
use creeper_url_shortening_w.Crud.Throws.{Throws}
use creeper_url_shortening_w.Crud.Uri.{
  literal, extract_entity, search_from, entity_at, id_at, extract_id,
}
use creeper_url_shortening_w.Http.{Request, header, stock_404}
use creeper_url_shortening_w.Prelude.Assoc.{insert, lookup}
use creeper_url_shortening_w.Prelude.Decimal.{dec}
use creeper_url_shortening_w.Prelude.Integer.{ℤ, pos, int_eq}
use creeper_url_shortening_w.Prelude.Stoi.{int_to_string, stoi}
use creeper_url_shortening_w.Prelude.Text.{Bytes, codes, str_eq, is_prefix}
use creeper_url_shortening_w.Prelude.{◌≡◌, refl, true, [], ◌∷◌, ◌++◌, Option, some}
use creeper_url_shortening_w.Storage.Sim.{SimEntityStorage, create, retrieve, list}
use creeper_url_shortening_w.Storage.Sim.Implements.{sim_entity_storage}

-- Values that are their own text.
abbrev pub texts : JsonLibrary
texts = record {
  Value = Bytes;
  parse = λ s. some s;
  serialize = λ v. v;
  parse-serialize = λ v. (v, refl, refl);
}

abbrev pub request : Bytes → Bytes → Bytes → Request
request method uri body = record {
  method = method;
  uri = uri;
  version = codes "HTTP/1.1";
  headers = header (codes "content-type") (codes "application/json") ∷ [];
  body = body;
  valid = true;
}

abbrev pub posting : Request
posting = request (codes "POST") (codes "/api/Shoes") (codes "{}")

abbrev getting : Request
getting = request (codes "GET") (codes "/api/Shoes/1") []

abbrev shoes : SimEntityStorage
shoes = (codes "Shoes", (pos 1, codes "{}") ∷ []) ∷ []

runs :
    (handle_request sim_entity_storage texts
        (some (literal (codes "/api")))
        (request (codes "GET") (codes "/api/Shoes") [])
        shoes
      ≡ some (shoes, json_response getting 200 (codes "OK") (codes "[\"1\"]")))
    × (handle_request sim_entity_storage texts
          (some (literal (codes "/api")))
          (request (codes "GET") (codes "/api/Shoes/1x") [])
          shoes
        ≡ some (shoes, with_body stock_404 (codes "ID not found")))
unfolding handle_request extract_entity extract_id search_from literal entity_at id_at get_method
    str_eq is_valid_integer stoi vector_to_json more_ids int_to_string dec list retrieve lookup
    json_response is_prefix
runs = (refl, refl)

is_json : is_json_content_type posting ≡ true
unfolding is_json_content_type json_header to_lower str_eq
is_json = refl

created_1 :
    ◌≡◌ {A = Option (SimEntityStorage × Option ℤ)}
      (some (create (codes "Shoes") (codes "{}") []))
      (some (shoes, some (pos 1)))
unfolding create int_eq lookup insert
created_1 = refl

uri_is :
    codes "/api/Shoes/1" ≡ codes "/api" ++ (b'/' ∷ (codes "Shoes" ++ b'/' ∷ int_to_string (pos 1)))
unfolding int_to_string dec
uri_is = refl

post-get_example :
    (handle_request sim_entity_storage texts (some (literal (codes "/api"))) posting []
      ≡ some (
        shoes,
        json_response posting 201
            (codes "Created")
            (codes "{\"id\": " ++ (int_to_string (pos 1) ++ codes "}")),
      ))
    × (handle_request sim_entity_storage texts (some (literal (codes "/api"))) getting shoes
        ≡ some (shoes, json_response getting 200 (codes "OK") (codes "{}")))
post-get_example =
    post-get sim_entity_storage texts (literal (codes "/api")) (codes "/api") (λ s. refl) posting
      getting (codes "Shoes") [] shoes (codes "{}") (pos 1)
      (λ e. cc e, ((λ e. cc e), ((λ e. cc e), ((λ e. cc e), ((λ e. cc e), ((λ e. cc e), tt))))))
      refl tt refl refl is_json refl created_1 refl uri_is
