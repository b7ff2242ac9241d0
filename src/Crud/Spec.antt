-- ===== src/Crud/Spec.antt =====
-- What the CRUD handler promises: what a request and its response do to the map from resources and ids
-- to texts, whatever storage keeps it.
use mathlib.Core.List.{Memᴰ}
use creeper_url_shortening_w.Crud.{
  get_method, HttpMethod, post, get, put, delete, invalid_method, is_json_content_type, whole,
  is_valid_integer, vector_to_json,
}
use creeper_url_shortening_w.Crud.Handler.{JsonLibrary, json_response, no_body}
use creeper_url_shortening_w.Crud.Uri.{BasePattern, extract_entity, extract_id}
use creeper_url_shortening_w.Http.{Request, Response}
use creeper_url_shortening_w.Storage.{IEntityStorage, Changes}
use creeper_url_shortening_w.Prelude.Integer.{ℤ}
use creeper_url_shortening_w.Prelude.Stoi.{
  Stoi, number, invalid_argument, out_of_range, stoi, stoi-IsInt, IsInt, int_to_string,
}
use creeper_url_shortening_w.Prelude.Text.{Bytes, codes}
use creeper_url_shortening_w.Prelude.{
  ◌≡◌, ◌≢◌, ◌↔◌, refl, ap, ◌∙◌, ◌⊎◌, inl, inr, ℕ, Bool, true, false, List, [], ◌∷◌, ◌++◌, Option,
  none, some, Bool-cases, ◌==◌, length,
}

pub is_valid_integer-IsInt : (input : Bytes) (id : ℤ) → is_valid_integer input ≡ some id → IsInt id
unfolding is_valid_integer
is_valid_integer-IsInt input id e = by_result (stoi input) refl e
  where
    by_result : (r : Stoi) → stoi input ≡ r → whole (length input) r ≡ some id → IsInt id
    by_result (number value idx) same f = elim (Bool-cases (idx == length input)) [
      | inl all ↦ stoi-IsInt input id idx (same ∙ ap (λ v. number v idx) (cc (rw all at f)))
      | inr part ↦ cc (rw part at f)
    ]
    by_result invalid_argument same f = cc
    by_result out_of_range same f = cc

abbrev pub View : Type 0
View = Bytes → ℤ → Option Bytes

module _ (is_resource : Bytes → Bool) (library : JsonLibrary) (base : BasePattern) where
  open library use {Value, parse, serialize}

  abbrev pub Unchanged : View → View → Type 0
  Unchanged before after =
      (other : Bytes) (k : ℤ) → is_resource other ≡ true → after other k ≡ before other k

  module _ (request : Request) where
    abbrev pub Is : HttpMethod → Type 0
    Is method = get_method request.method ≡ method

    abbrev pub entity_of_request : Bytes
    entity_of_request = extract_entity base request.uri

    abbrev pub id_of_request : Bytes
    id_of_request = extract_id base request.uri

    -- Why a request finds nothing: the id is no `int`, nothing is stored under it, or no id was
    -- asked for and the resource has no entity.
    pub data NotThere (before : View) : Type 0 where
      no_number :
          Is get ⊎ Is put ⊎ Is delete → is_valid_integer id_of_request ≡ none → NotThere before
      not_stored :
          (id : ℤ)
          → Is get ⊎ Is delete
          → is_valid_integer id_of_request ≡ some id
          → before entity_of_request id ≡ none
          → NotThere before
      no_entities :
          Is get
          → id_of_request ≡ []
          → ((id : ℤ) → IsInt id → before entity_of_request id ≡ none)
          → NotThere before

    -- Why a request is refused, and with which status.
    pub data Refused (before : View) : ℕ → Type 0 where
      no_entity : entity_of_request ≡ [] → Refused before 400
      bad_method : Is invalid_method → Refused before 400
      no_id : Is put ⊎ Is delete → id_of_request ≡ [] → Refused before 405
      not_json : Is post ⊎ Is put → is_json_content_type request ≡ false → Refused before 415
      bad_body :
          Is post ⊎ Is put
          → is_json_content_type request ≡ true
          → parse request.body ≡ none
          → Refused before 400
      -- The storage answers that it could not.
      storage_failed :
          (value : Value)
          → Is post ⊎ Is put
          → is_json_content_type request ≡ true
          → parse request.body ≡ some value
          → Refused before 500
      bad_text :
          (id : ℤ) (text : Bytes)
          → Is get
          → is_valid_integer id_of_request ≡ some id
          → before entity_of_request id ≡ some text
          → parse text ≡ none
          → Refused before 500

    -- A response to the request, with the map before and behind it.
    pub data Behaves (before after : View) : Response → Type 0 where
      refused :
          (res : Response)
          → Unchanged before after
          → Refused before res.status_code
          → Behaves before after res
      missing :
          (res : Response)
          → Unchanged before after
          → res.status_code ≡ 404
          → NotThere before
          → Behaves before after res
      posted :
          (value : Value) (id : ℤ)
          → Is post
          → is_json_content_type request ≡ true
          → parse request.body ≡ some value
          → IsInt id
          → before entity_of_request id ≡ none
          → Changes is_resource before after entity_of_request id (some (serialize value))
          → Behaves before after (
              json_response request 201
                (codes "Created")
                (codes "{\"id\": " ++ (int_to_string id ++ codes "}")))
      listed :
          (id : ℤ) (ids : List ℤ)
          → Is get
          → Unchanged before after
          → id_of_request ≡ []
          → ((k : ℤ) → IsInt k → Memᴰ k (id ∷ ids) ↔ (before entity_of_request k ≢ none))
          → Behaves before after
              (json_response request 200 (codes "OK") (vector_to_json (id ∷ ids)))
      got :
          (id : ℤ) (text : Bytes) (value : Value)
          → Is get
          → Unchanged before after
          → is_valid_integer id_of_request ≡ some id
          → before entity_of_request id ≡ some text
          → parse text ≡ some value
          → Behaves before after (json_response request 200 (codes "OK") (serialize value))
      put_new :
          (id : ℤ) (value : Value)
          → Is put
          → is_json_content_type request ≡ true
          → is_valid_integer id_of_request ≡ some id
          → parse request.body ≡ some value
          → before entity_of_request id ≡ none
          → Changes is_resource before after entity_of_request id (some (serialize value))
          → Behaves before after (no_body request 201 (codes "Created"))
      put_old :
          (id : ℤ) (value : Value) (old : Bytes)
          → Is put
          → is_json_content_type request ≡ true
          → is_valid_integer id_of_request ≡ some id
          → parse request.body ≡ some value
          → before entity_of_request id ≡ some old
          → Changes is_resource before after entity_of_request id (some (serialize value))
          → Behaves before after (no_body request 200 (codes "OK"))
      deleted :
          (id : ℤ)
          → Is delete
          → is_valid_integer id_of_request ≡ some id
          → before entity_of_request id ≢ none
          → Changes is_resource before after entity_of_request id none
          → Behaves before after (no_body request 204 (codes "No Content"))

module _ (storage_ : IEntityStorage) (library : JsonLibrary) (base : BasePattern) where
  open storage_ use {Storage, create, retrieve, update, remove, list, is_resource, IsValid}
  open library use {Value, parse, serialize}

  -- The storage stays valid, and the request behaves as the map says.
  abbrev pub Refines : Request → Storage → Storage → Response → Type 0
  Refines request s t res =
      IsValid t × Behaves is_resource library base request (retrieve s) (retrieve t) res

  abbrev pub itself : (s : Storage) → Unchanged is_resource library base (retrieve s) (retrieve s)
  itself s other k h = refl
