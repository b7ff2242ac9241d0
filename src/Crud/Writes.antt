-- ===== src/Crud/Writes.antt =====
-- The POST and PUT requests do what `Behaves` says.
use creeper_url_shortening_w.Crud.{
  get_method, is_valid_integer, HttpMethod, post, put, is_json_content_type,
}
use creeper_url_shortening_w.Crud.Handler.{
  JsonLibrary, bare_405, created, post_value, handle_post, updated, put_value, put_number, put_id,
}
use creeper_url_shortening_w.Crud.Uri.{BasePattern, extract_entity, extract_id}
use creeper_url_shortening_w.Http.{Request, Response}
use creeper_url_shortening_w.Storage.{IEntityStorage}
use creeper_url_shortening_w.Prelude.Integer.{ℤ}
use creeper_url_shortening_w.Prelude.Text.{Bytes}
use creeper_url_shortening_w.Prelude.{
  ◌≡◌, refl, ap, inl, inr, Bool, true, false, [], ◌∷◌, Option, none, some, Bool-cases,
}
use creeper_url_shortening_w.Crud.Spec.{
  is_valid_integer-IsInt, no_number, no_id, not_json, bad_body, storage_failed, refused, posted,
  put_new, put_old, Refines,
}
use creeper_url_shortening_w.Crud.Ends.{moved, error, nothing_found}

module _ (storage_ : IEntityStorage) (library : JsonLibrary) (base : BasePattern) where
  open storage_ use {
    Storage, create, retrieve, update, remove, list, is_resource, IsValid, create_some, create_none,
    update_true, update_false, remove_true, remove_false, list_iff,
  }
  open library use {Value, parse, serialize}

  module _ (request : Request) (s : Storage) (valid : IsValid s)
      (known : is_resource (extract_entity base request.uri) ≡ true) where
    abbrev entity : Bytes
    entity = extract_entity base request.uri

    abbrev id_text : Bytes
    id_text = extract_id base request.uri

    abbrev Ends : Storage → Response → Type 0
    Ends t res = Refines storage_ library base request s t res

    abbrev Way : HttpMethod → Type 0
    Way method = get_method request.method ≡ method

    module _ (way : Way post) where
      module _ (json : is_json_content_type request ≡ true) where
        created-Ends :
            (value : Value) (r : Option (Storage × Option ℤ)) (t : Storage) (res : Response)
            → parse request.body ≡ some value
            → create entity (serialize value) s ≡ r
            → created storage_ library request r ≡ some (t, res)
            → Ends t res
        created-Ends value none t res parsed made e = cc
        created-Ends value (some (u, none)) t res parsed made e =
            let (still, unchanged) = create_none entity (serialize value) s u valid known made in
            moved storage_ library base request s valid known u t _ res e
              (still, refused _ unchanged (storage_failed value (inl way) json parsed))
        created-Ends value (some (u, some id)) t res parsed made e =
            let (still, int, fresh, changes) =
              create_some entity (serialize value) s u id valid known made in
            moved storage_ library base request s valid known u t _ res e
              (still, posted value id way json parsed int fresh changes)

        post_value-Ends :
            (v : Option Value) (t : Storage) (res : Response)
            → parse request.body ≡ v
            → post_value storage_ library request entity s v ≡ some (t, res)
            → Ends t res
        post_value-Ends none t res parsed e =
            error storage_ library base request s valid known t _ res e
              (bad_body (inl way) json parsed)
        post_value-Ends (some value) t res parsed e =
            created-Ends value (create entity (serialize value) s) t res parsed refl e

      pub handle_post-Ends :
          (t : Storage) (res : Response)
          → handle_post storage_ library base request s ≡ some (t, res)
          → Ends t res
      unfolding handle_post
      handle_post-Ends t res e = elim (Bool-cases (is_json_content_type request)) [
        | inl json ↦ post_value-Ends json (parse request.body) t res refl (rw json at e)
        | inr other ↦
            error storage_ library base request s valid known t _ res (rw other at e)
              (not_json (inl way) other)
      ]

    module _ (way : Way put) where
      module _ (json : is_json_content_type request ≡ true) where
        updated-Ends :
            (id : ℤ) (value : Value) (existed : Option Bytes) (r : Option (Storage × Bool))
            (t : Storage) (res : Response)
            → is_valid_integer id_text ≡ some id
            → parse request.body ≡ some value
            → retrieve s entity id ≡ existed
            → update entity id (serialize value) s ≡ r
            → updated storage_ library request existed r ≡ some (t, res)
            → Ends t res
        updated-Ends id value existed none t res found parsed before made e = cc
        updated-Ends id value existed (some (u, false)) t res found parsed before made e =
            let (still, unchanged) =
              update_false entity id (serialize value) s u valid known
                (is_valid_integer-IsInt id_text id found) made in
            moved storage_ library base request s valid known u t _ res e
              (still, refused _ unchanged (storage_failed value (inr way) json parsed))
        updated-Ends id value none (some (u, true)) t res found parsed before made e =
            let (still, changes) =
              update_true entity id (serialize value) s u valid known
                (is_valid_integer-IsInt id_text id found) made in
            moved storage_ library base request s valid known u t _ res e
              (still, put_new id value way json found parsed before changes)
        updated-Ends id value (some old) (some (u, true)) t res found parsed before made e =
            let (still, changes) =
              update_true entity id (serialize value) s u valid known
                (is_valid_integer-IsInt id_text id found) made in
            moved storage_ library base request s valid known u t _ res e
              (still, put_old id value old way json found parsed before changes)

        put_value-Ends :
            (id : ℤ) (v : Option Value) (t : Storage) (res : Response)
            → is_valid_integer id_text ≡ some id
            → parse request.body ≡ v
            → put_value storage_ library request entity id s v ≡ some (t, res)
            → Ends t res
        put_value-Ends id none t res found parsed e =
            error storage_ library base request s valid known t _ res e
              (bad_body (inr way) json parsed)
        put_value-Ends id (some value) t res found parsed e =
            updated-Ends id value (retrieve s entity id) (update entity id (serialize value) s) t
              res found parsed refl refl e

      put_number-Ends :
          (n : Option ℤ) (t : Storage) (res : Response)
          → is_valid_integer id_text ≡ n
          → put_number storage_ library request entity s n ≡ some (t, res)
          → Ends t res
      put_number-Ends none t res found e =
          nothing_found storage_ library base request s valid known t _ res e refl
            (no_number (inr (inl way)) found)
      put_number-Ends (some id) t res found e = elim (Bool-cases (is_json_content_type request)) [
        | inl json ↦ put_value-Ends json id (parse request.body) t res found refl (rw json at e)
        | inr other ↦
            error storage_ library base request s valid known t _ res (rw other at e)
              (not_json (inr way) other)
      ]

      pub put_id-Ends :
          (text : Bytes) (t : Storage) (res : Response)
          → id_text ≡ text
          → put_id storage_ library request entity s text ≡ some (t, res)
          → Ends t res
      unfolding bare_405
      put_id-Ends [] t res same_text e =
          error storage_ library base request s valid known t _ res e (no_id (inl way) same_text)
      put_id-Ends (c ∷ text) t res same_text e =
          put_number-Ends (is_valid_integer (c ∷ text)) t res (ap is_valid_integer same_text) e
