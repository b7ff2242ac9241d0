-- ===== src/Crud/RoundTrip.antt =====
-- A value that was posted can be got under the id that the answer tells.
use creeper_url_shortening_w.Crud.{
  get_method, is_valid_integer, HttpMethod, post, get, is_json_content_type, whole,
}
use creeper_url_shortening_w.Crud.Handler.{
  JsonLibrary, json_response, handle_post, get_value, get_stored, get_number, get_id, handle_get,
  by_method, of_entity, handle_request,
}
use creeper_url_shortening_w.Crud.Uri.{BasePattern, literal, extract_entity, extract_id}
use creeper_url_shortening_w.Crud.Uri.Written.{
  IsSegment, int_to_string-IsSegment, extract_entity-written, extract-written,
}
use creeper_url_shortening_w.Http.{Request}
use creeper_url_shortening_w.Prelude.Integer.{ℤ, int_eq_iff}
use creeper_url_shortening_w.Prelude.Stoi.{IsInt, number, int_to_string, stoi-int_to_string}
use creeper_url_shortening_w.Prelude.Text.{Bytes, codes, str_eq, str_eq_refl}
use creeper_url_shortening_w.Prelude.{
  ℕ, ◌≡◌, ◌≢◌, refl, ap, ◌∙◌, Bool, true, ◌&&◌, [], ◌∷◌, ◌++◌, some, ◌==◌, length, arith,
  if◌then◌else◌,
}
use creeper_url_shortening_w.Storage.{IEntityStorage}

both : {A : Type 0} (x y : A) {b c : Bool} → b ≡ true → c ≡ true → (if b && c then x else y) ≡ x
both x y e f = rw (e, f) refl

whole_all : (id : ℤ) (size : ℕ) → whole size (number id size) ≡ some id
whole_all id size = let all : size == size ≡ true = ground arith in rw all refl

-- An id that the server writes is an id that it reads.
pub is_valid_integer-int_to_string :
    (id : ℤ) → IsInt id → is_valid_integer (int_to_string id) ≡ some id
unfolding is_valid_integer
is_valid_integer-int_to_string id int =
    let size : ℕ = length (int_to_string id) in
    ap (whole size) (stoi-int_to_string id int) ∙ whole_all id size

module _ (storage_ : IEntityStorage) (library : JsonLibrary) (base : BasePattern) (base_uri : Bytes)
    (plain : (s : Bytes) → base s ≡ literal base_uri s) where
  open storage_ use {Storage, create, retrieve, is_resource, IsValid, create_some}
  open library use {Value, parse, serialize, parse-serialize}

  of_entity-written :
      (request : Request) (s : Storage) (m : HttpMethod) (entity : Bytes)
      → entity ≢ []
      → get_method request.method ≡ m
      → of_entity storage_ library base request s entity
        ≡ by_method storage_ library m base request s
  of_entity-written request s m [] some_byte e = absurd (some_byte refl)
  of_entity-written request s m (c ∷ entity) some_byte e =
      ap (λ x. by_method storage_ library x base request s) e

  handle_request-written :
      (request : Request) (s : Storage) (m : HttpMethod) (entity : Bytes)
      → entity ≢ []
      → extract_entity base request.uri ≡ entity
      → get_method request.method ≡ m
      → handle_request storage_ library (some base) request s
        ≡ by_method storage_ library m base request s
  unfolding handle_request
  handle_request-written request s m entity some_byte same e =
      ap (of_entity storage_ library base request s) same
      ∙ of_entity-written request s m entity some_byte e

  handle_post-stored :
      (request : Request) (s t : Storage) (entity : Bytes) (value : Value) (id : ℤ)
      → extract_entity base request.uri ≡ entity
      → is_json_content_type request ≡ true
      → parse request.body ≡ some value
      → create entity (serialize value) s ≡ some (t, some id)
      → handle_post storage_ library base request s
        ≡ some (
          t,
          json_response request 201
              (codes "Created")
              (codes "{\"id\": " ++ (int_to_string id ++ codes "}")),
        )
  unfolding handle_post
  handle_post-stored request s t entity value id same json parsed made =
      rw (handle_post, json, parsed, same, made) refl

  get_id-number :
      (request : Request) (s : Storage) (entity text : Bytes) (id : ℤ)
      → text ≢ []
      → is_valid_integer text ≡ some id
      → get_id storage_ library request entity s text
        ≡ get_stored storage_ library request (retrieve s entity id)
  get_id-number request s entity [] id some_byte e = absurd (some_byte refl)
  get_id-number request s entity (c ∷ text) id some_byte e =
      ap (get_number storage_ library request entity s) e

  handle_get-stored :
      (request : Request) (s : Storage) (entity : Bytes) (value : Value) (id : ℤ)
      → extract_entity base request.uri ≡ entity
      → extract_id base request.uri ≡ int_to_string id
      → IsInt id
      → retrieve s entity id ≡ some (serialize value)
      → handle_get storage_ library base request s
        ≡ json_response request 200 (codes "OK") (serialize value)
  unfolding handle_get
  handle_get-stored request s entity value id same same_id int stored =
      let (again, reads, same_text) = parse-serialize value in
      ap (λ e. get_id storage_ library request e s (extract_id base request.uri)) same
      ∙ ap (get_id storage_ library request entity s) same_id
      ∙ get_id-number request s entity (int_to_string id) id (int_to_string-IsSegment id).0
          (is_valid_integer-int_to_string id int)
      ∙ ap (get_stored storage_ library request) stored
      ∙ ap (get_value storage_ library request) reads
      ∙ ap (json_response request 200 (codes "OK")) same_text

  -- Where the base of the URIs has no special characters and the storage takes the value of a POST to
  -- an entity, the answer tells the id, and a GET of that entity and id behind it answers the value.
  pub post-get :
      (posting getting : Request) (entity : Bytes) (s t : Storage) (value : Value) (id : ℤ)
      → IsSegment entity
      → is_resource entity ≡ true
      → IsValid s
      → posting.method ≡ codes "POST"
      → posting.uri ≡ base_uri ++ (b'/' ∷ entity)
      → is_json_content_type posting ≡ true
      → parse posting.body ≡ some value
      → create entity (serialize value) s ≡ some (t, some id)
      → getting.method ≡ codes "GET"
      → getting.uri ≡ base_uri ++ (b'/' ∷ (entity ++ b'/' ∷ int_to_string id))
      → (handle_request storage_ library (some base) posting s
          ≡ some (
            t,
            json_response posting 201
                (codes "Created")
                (codes "{\"id\": " ++ (int_to_string id ++ codes "}")),
          ))
        × (handle_request storage_ library (some base) getting t
            ≡ some (t, json_response getting 200 (codes "OK") (serialize value)))
  unfolding get_method str_eq
  post-get posting getting entity s t value id segment known valid posts at json parsed made gets
        at_id =
      let (still, int, fresh, changes) =
        create_some entity (serialize value) s t id valid known made in
      let stored : retrieve t entity id ≡ some (serialize value) =
        changes entity id known
        ∙ both (some (serialize value)) (retrieve s entity id) (str_eq_refl entity)
            ((int_eq_iff id id).1 refl) in
      let post_entity : extract_entity base posting.uri ≡ entity =
        ap (extract_entity base) at ∙ extract_entity-written base base_uri entity plain segment in
      let (get_entity, get_id_text) =
        extract-written base base_uri entity (int_to_string id) plain segment
          (int_to_string-IsSegment id) in
      let entity_again : extract_entity base getting.uri ≡ entity =
        ap (extract_entity base) at_id ∙ get_entity in
      (
        handle_request-written posting s post entity segment.0 post_entity (ap get_method posts)
            ∙ handle_post-stored posting s t entity value id post_entity json parsed made,
        handle_request-written getting t get entity segment.0 entity_again (ap get_method gets)
            ∙ ap (λ r. some (t, r))
                (handle_get-stored getting t entity value id entity_again
                  (ap (extract_id base) at_id ∙ get_id_text) int stored),
      )
