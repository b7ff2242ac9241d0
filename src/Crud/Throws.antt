-- ===== src/Crud/Throws.antt =====
-- No request throws but where the storage does.
use creeper_url_shortening_w.Crud.{
  get_method, is_valid_integer, HttpMethod, post, get, put, delete, invalid_method,
  is_json_content_type,
}
use creeper_url_shortening_w.Crud.Handler.{
  JsonLibrary, created, post_value, handle_post, updated, put_value, put_number, put_id, handle_put,
  removed, delete_number, delete_id, handle_delete, by_method, of_entity, handle_request,
}
use creeper_url_shortening_w.Crud.Uri.{BasePattern, extract_entity, extract_id}
use creeper_url_shortening_w.Http.{Request}
use creeper_url_shortening_w.Storage.{IEntityStorage}
use creeper_url_shortening_w.Prelude.Integer.{ℤ}
use creeper_url_shortening_w.Prelude.Text.{Bytes}
use creeper_url_shortening_w.Prelude.{
  ◌≡◌, refl, inl, inr, Bool, true, false, [], ◌∷◌, Option, none, some, Bool-cases,
}

module _ (storage_ : IEntityStorage) (library : JsonLibrary) where
  open storage_ use {Storage, create, retrieve, update, remove}
  open library use {Value, parse, serialize}

  -- An operation of the storage on the entity throws.
  pub data Throws (entity : Bytes) (s : Storage) : Type 0 where
    create_throws : (value : Value) → create entity (serialize value) s ≡ none → Throws entity s
    update_throws :
        (id : ℤ) (value : Value) → update entity id (serialize value) s ≡ none → Throws entity s
    remove_throws : (id : ℤ) → remove entity id s ≡ none → Throws entity s

  module _ (request : Request) (s : Storage) (entity : Bytes) where
    created-none :
        (r : Option (Storage × Option ℤ)) → created storage_ library request r ≡ none → r ≡ none
    created-none none e = refl
    created-none (some (t, none)) e = cc
    created-none (some (t, some id)) e = cc

    post_value-Throws :
        (v : Option Value) → post_value storage_ library request entity s v ≡ none → Throws entity s
    post_value-Throws none e = cc
    post_value-Throws (some value) e =
        create_throws value (created-none (create entity (serialize value) s) e)

    updated-none :
        (existed : Option Bytes) (r : Option (Storage × Bool))
        → updated storage_ library request existed r ≡ none
        → r ≡ none
    updated-none existed none e = refl
    updated-none existed (some (t, false)) e = cc
    updated-none none (some (t, true)) e = cc
    updated-none (some old) (some (t, true)) e = cc

    put_value-Throws :
        (id : ℤ) (v : Option Value)
        → put_value storage_ library request entity id s v ≡ none
        → Throws entity s
    put_value-Throws id none e = cc
    put_value-Throws id (some value) e =
        update_throws id value
          (updated-none (retrieve s entity id) (update entity id (serialize value) s) e)

    put_number-Throws :
        (n : Option ℤ) → put_number storage_ library request entity s n ≡ none → Throws entity s
    put_number-Throws none e = cc
    put_number-Throws (some id) e = elim (Bool-cases (is_json_content_type request)) [
      | inl json ↦ put_value-Throws id (parse request.body) (rw json at e)
      | inr other ↦ cc (rw other at e)
    ]

    put_id-Throws :
        (text : Bytes) → put_id storage_ library request entity s text ≡ none → Throws entity s
    put_id-Throws [] e = cc
    put_id-Throws (c ∷ text) e = put_number-Throws (is_valid_integer (c ∷ text)) e

    removed-none :
        (r : Option (Storage × Bool)) → removed storage_ library request r ≡ none → r ≡ none
    removed-none none e = refl
    removed-none (some (t, false)) e = cc
    removed-none (some (t, true)) e = cc

    delete_number-Throws :
        (n : Option ℤ) → delete_number storage_ library request entity s n ≡ none → Throws entity s
    delete_number-Throws none e = cc
    delete_number-Throws (some id) e = remove_throws id (removed-none (remove entity id s) e)

    delete_id-Throws :
        (text : Bytes) → delete_id storage_ library request entity s text ≡ none → Throws entity s
    delete_id-Throws [] e = cc
    delete_id-Throws (c ∷ text) e = delete_number-Throws (is_valid_integer (c ∷ text)) e

  module _ (base : BasePattern) (request : Request) (s : Storage) where
    abbrev entity : Bytes
    entity = extract_entity base request.uri

    handle_post-Throws :
        handle_post storage_ library base request s ≡ none
        → Throws (extract_entity base request.uri) s
    unfolding handle_post
    handle_post-Throws e = elim (Bool-cases (is_json_content_type request)) [
      | inl json ↦ post_value-Throws request s entity (parse request.body) (rw json at e)
      | inr other ↦ cc (rw other at e)
    ]

    by_method-Throws :
        (m : HttpMethod) → by_method storage_ library m base request s ≡ none → Throws entity s
    unfolding handle_put handle_delete
    by_method-Throws post e = handle_post-Throws e
    by_method-Throws get e = cc
    by_method-Throws put e = put_id-Throws request s entity (extract_id base request.uri) e
    by_method-Throws delete e = delete_id-Throws request s entity (extract_id base request.uri) e
    by_method-Throws invalid_method e = cc

    of_entity-Throws :
        (name : Bytes) → of_entity storage_ library base request s name ≡ none → Throws entity s
    of_entity-Throws [] e = cc
    of_entity-Throws (c ∷ name) e = by_method-Throws (get_method request.method) e

    pub handle_request-Throws :
        handle_request storage_ library (some base) request s ≡ none
        → Throws (extract_entity base request.uri) s
    unfolding handle_request
    handle_request-Throws e = of_entity-Throws entity e
