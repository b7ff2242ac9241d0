-- ===== src/Crud/Reads.antt =====
-- The GET requests do what `Behaves` says.
use mathlib.Core.List.{Memᴰ}
use mathlib.Core.List.Memᴰ
use creeper_url_shortening_w.Crud.{get_method, is_valid_integer, HttpMethod, get}
use creeper_url_shortening_w.Crud.Handler.{
  JsonLibrary, get_value, get_stored, get_number, get_list, get_id,
}
use creeper_url_shortening_w.Crud.Uri.{BasePattern, extract_entity, extract_id}
use creeper_url_shortening_w.Http.{Request, Response}
use creeper_url_shortening_w.Storage.{IEntityStorage}
use creeper_url_shortening_w.Prelude.Integer.{ℤ}
use creeper_url_shortening_w.Prelude.Text.{Bytes}
use creeper_url_shortening_w.Prelude.{
  ◌≡◌, ◌≢◌, ◌↔◌, refl, ap, subst, inl, inr, true, List, [], ◌∷◌, Option, none, some, Option-cases,
}
use creeper_url_shortening_w.Crud.Spec.{
  no_number, not_stored, no_entities, bad_text, refused, missing, listed, got, Refines, itself,
}

module _ (storage_ : IEntityStorage) (library : JsonLibrary) (base : BasePattern) where
  open storage_ use {
    Storage, create, retrieve, update, remove, list, is_resource, IsValid, create_some, create_none,
    update_true, update_false, remove_true, remove_false, list_iff,
  }
  open library use {Value, parse, serialize}

  module _ (request : Request) (s : Storage) (valid : IsValid s)
      (known : is_resource (extract_entity base request.uri) ≡ true) where
    abbrev entity : Bytes
    entity = extract_entity base request.uri

    abbrev id_text : Bytes
    id_text = extract_id base request.uri

    abbrev Ends : Storage → Response → Type 0
    Ends t res = Refines storage_ library base request s t res

    abbrev Way : HttpMethod → Type 0
    Way method = get_method request.method ≡ method

    module _ (way : Way get) where
      get_list-Ends :
          (ids : List ℤ)
          → list s entity ≡ ids
          → id_text ≡ []
          → Ends s (get_list storage_ library request ids)
      get_list-Ends [] listing empty = (
        valid,
        missing _ (itself storage_ library base s) refl (
            no_entities way empty (λ k int. elim (Option-cases (retrieve s entity k)) [
              | inl absent ↦ absent
              | inr (text, present) ↦
                  let stored : retrieve s entity k ≢ none = λ f. cc in
                  absurd (
                    Memᴰ.not-nil
                      (subst (Memᴰ k) listing ((list_iff entity k s valid known int).1 stored)))
            ])),
      )
      get_list-Ends (id ∷ ids) listing empty = (
        valid,
        listed id ids way (itself storage_ library base s) empty (λ k int.
            subst (λ l. Memᴰ k l ↔ (retrieve s entity k ≢ none)) listing
              (list_iff entity k s valid known int)),
      )

      get_value-Ends :
          (id : ℤ) (text : Bytes) (v : Option Value)
          → is_valid_integer id_text ≡ some id
          → retrieve s entity id ≡ some text
          → parse text ≡ v
          → Ends s (get_value storage_ library request v)
      get_value-Ends id text none found stored parsed = (
        valid,
        refused _ (itself storage_ library base s) (bad_text id text way found stored parsed),
      )
      get_value-Ends id text (some value) found stored parsed =
          (valid, got id text value way (itself storage_ library base s) found stored parsed)

      get_number-Ends :
          (n : Option ℤ)
          → is_valid_integer id_text ≡ n
          → Ends s (get_number storage_ library request entity s n)
      get_number-Ends none found =
          (valid, missing _ (itself storage_ library base s) refl (no_number (inl way) found))
      get_number-Ends (some id) found = by_stored (retrieve s entity id) refl
        where
          by_stored :
              (o : Option Bytes)
              → retrieve s entity id ≡ o
              → Ends s (get_stored storage_ library request o)
          by_stored none stored = (
            valid,
            missing _ (itself storage_ library base s) refl (not_stored id (inl way) found stored),
          )
          by_stored (some text) stored = get_value-Ends id text (parse text) found stored refl

      pub get_id-Ends :
          (text : Bytes) → id_text ≡ text → Ends s (get_id storage_ library request entity s text)
      get_id-Ends [] same_text = get_list-Ends (list s entity) refl same_text
      get_id-Ends (c ∷ text) same_text =
          get_number-Ends (is_valid_integer (c ∷ text)) (ap is_valid_integer same_text)
