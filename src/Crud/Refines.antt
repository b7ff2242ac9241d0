-- ===== src/Crud/Refines.antt =====
-- The handler does what `Behaves` says, over every storage that keeps the laws of its interface.
use creeper_url_shortening_w.Crud.{get_method, HttpMethod}
use creeper_url_shortening_w.Crud.Handler.{JsonLibrary}
use creeper_url_shortening_w.Crud.Uri.{BasePattern, extract_entity, extract_id}
use creeper_url_shortening_w.Http.{Request, Response}
use creeper_url_shortening_w.Storage.{IEntityStorage}
use creeper_url_shortening_w.Prelude.Text.{Bytes}
use creeper_url_shortening_w.Prelude.{◌≡◌, true}
use creeper_url_shortening_w.Crud.Spec.{Refines}
use creeper_url_shortening_w.Crud.Throws.{Throws}

module _ (storage_ : IEntityStorage) (library : JsonLibrary) (base : BasePattern) where
  open storage_ use {
    Storage, create, retrieve, update, remove, list, is_resource, IsValid, create_some, create_none,
    update_true, update_false, remove_true, remove_false, list_iff,
  }
  open library use {Value, parse, serialize}

  module _ (request : Request) (s : Storage) (valid : IsValid s)
      (known : is_resource (extract_entity base request.uri) ≡ true) where
    abbrev entity : Bytes
    entity = extract_entity base request.uri

    abbrev id_text : Bytes
    id_text = extract_id base request.uri

    abbrev Ends : Storage → Response → Type 0
    Ends t res = Refines storage_ library base request s t res

    abbrev Way : HttpMethod → Type 0
    Way method = get_method request.method ≡ method
