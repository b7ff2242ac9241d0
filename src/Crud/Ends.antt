-- ===== src/Crud/Ends.antt =====
-- The ends of a request with which nothing is done.
use creeper_url_shortening_w.Crud.{get_method, HttpMethod}
use creeper_url_shortening_w.Crud.Handler.{JsonLibrary}
use creeper_url_shortening_w.Crud.Uri.{BasePattern, extract_entity, extract_id}
use creeper_url_shortening_w.Http.{Request, Response}
use creeper_url_shortening_w.Storage.{IEntityStorage}
use creeper_url_shortening_w.Prelude.Text.{Bytes}
use creeper_url_shortening_w.Prelude.{◌≡◌, subst, true, Option, some}
use creeper_url_shortening_w.Crud.Spec.{NotThere, Refused, refused, missing, Refines, itself}

module _ (storage_ : IEntityStorage) (library : JsonLibrary) (base : BasePattern) where
  open storage_ use {
    Storage, create, retrieve, update, remove, list, is_resource, IsValid, create_some, create_none,
    update_true, update_false, remove_true, remove_false, list_iff,
  }
  open library use {Value, parse, serialize}

  module _ (request : Request) (s : Storage) (valid : IsValid s)
      (known : is_resource (extract_entity base request.uri) ≡ true) where
    abbrev entity : Bytes
    entity = extract_entity base request.uri

    abbrev id_text : Bytes
    id_text = extract_id base request.uri

    abbrev pub Ends : Storage → Response → Type 0
    Ends t res = Refines storage_ library base request s t res

    abbrev Way : HttpMethod → Type 0
    Way method = get_method request.method ≡ method

    pub moved :
        (u t : Storage) (r res : Response)
        → ◌≡◌ {A = Option (Storage × Response)} (some (u, r)) (some (t, res))
        → Ends u r
        → Ends t res
    moved u t r res e p =
        let left : u ≡ t = cc in
        let right : r ≡ res = cc in subst (λ x. Ends x res) left (subst (Ends u) right p)

    pub error :
        (t : Storage) (r res : Response)
        → ◌≡◌ {A = Option (Storage × Response)} (some (s, r)) (some (t, res))
        → Refused is_resource library base request (retrieve s) r.status_code
        → Ends t res
    error t r res e why = moved s t r res e (valid, refused r (itself storage_ library base s) why)

    pub nothing_found :
        (t : Storage) (r res : Response)
        → ◌≡◌ {A = Option (Storage × Response)} (some (s, r)) (some (t, res))
        → r.status_code ≡ 404
        → NotThere is_resource library base request (retrieve s)
        → Ends t res
    nothing_found t r res e status why =
        moved s t r res e (valid, missing r (itself storage_ library base s) status why)
