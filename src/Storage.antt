-- ===== src/Storage.antt =====
-- include/ientity_storage.h: the entities that the CRUD handler keeps, as an interface that the handler
-- takes, and the two implementations.
pub mod Disk
pub mod Real
pub mod Sim
use mathlib.Core.List.{Memᴰ}
use creeper_url_shortening_w.Prelude.Integer.{ℤ, pos, int_eq}
use creeper_url_shortening_w.Prelude.Stoi.{IsInt}
use creeper_url_shortening_w.Prelude.Text.{Bytes, str_eq}
use creeper_url_shortening_w.Prelude.{
  ◌≡◌, ◌≢◌, ◌↔◌, Bool, true, false, ◌&&◌, List, Option, none, some, if◌then◌else◌,
}

-- What is stored under the resource and the id, and nothing else, differs from `before`.
abbrev pub Changes :
    (Bytes → Bool) → (before after : Bytes → ℤ → Option Bytes) → Bytes → ℤ → Option Bytes → Type 0
Changes is_resource before after resource id json =
    (other : Bytes) (k : ℤ)
    → is_resource other ≡ true
    → after other k ≡ (if str_eq resource other && int_eq id k then json else before other k)

-- The operations; `none` where one throws. The laws are of the storages that are valid and of the
-- resources that the storage keeps apart, which `is_resource` tells.
pub record IEntityStorage : Type 1 where
  pub Storage : Type 0
  pub create : Bytes → Bytes → Storage → Option (Storage × Option ℤ)
  pub retrieve : Storage → Bytes → ℤ → Option Bytes
  pub update : Bytes → ℤ → Bytes → Storage → Option (Storage × Bool)
  pub remove : Bytes → ℤ → Storage → Option (Storage × Bool)
  pub list : Storage → Bytes → List ℤ
  pub is_resource : Bytes → Bool
  pub IsValid : Storage → Type 0
  pub create_some :
      (resource json : Bytes) (s t : Storage) (id : ℤ)
      → IsValid s
      → is_resource resource ≡ true
      → create resource json s ≡ some (t, some id)
      → IsValid t
        × IsInt id
        × (retrieve s resource id ≡ none)
        × Changes is_resource (retrieve s) (retrieve t) resource id (some json)
  pub create_none :
      (resource json : Bytes) (s t : Storage)
      → IsValid s
      → is_resource resource ≡ true
      → create resource json s ≡ some (t, none)
      → IsValid t
        × ((other : Bytes) (k : ℤ)
            → is_resource other ≡ true
            → retrieve t other k ≡ retrieve s other k)
  pub update_true :
      (resource : Bytes) (id : ℤ) (json : Bytes) (s t : Storage)
      → IsValid s
      → is_resource resource ≡ true
      → IsInt id
      → update resource id json s ≡ some (t, true)
      → IsValid t × Changes is_resource (retrieve s) (retrieve t) resource id (some json)
  pub update_false :
      (resource : Bytes) (id : ℤ) (json : Bytes) (s t : Storage)
      → IsValid s
      → is_resource resource ≡ true
      → IsInt id
      → update resource id json s ≡ some (t, false)
      → IsValid t
        × ((other : Bytes) (k : ℤ)
            → is_resource other ≡ true
            → retrieve t other k ≡ retrieve s other k)
  pub remove_true :
      (resource : Bytes) (id : ℤ) (s t : Storage)
      → IsValid s
      → is_resource resource ≡ true
      → IsInt id
      → remove resource id s ≡ some (t, true)
      → IsValid t
        × (retrieve s resource id ≢ none)
        × Changes is_resource (retrieve s) (retrieve t) resource id none
  pub remove_false :
      (resource : Bytes) (id : ℤ) (s t : Storage)
      → IsValid s
      → is_resource resource ≡ true
      → IsInt id
      → remove resource id s ≡ some (t, false)
      → IsValid t
        × (retrieve s resource id ≡ none)
        × ((other : Bytes) (k : ℤ)
            → is_resource other ≡ true
            → retrieve t other k ≡ retrieve s other k)
  pub list_iff :
      (resource : Bytes) (id : ℤ) (s : Storage)
      → IsValid s
      → is_resource resource ≡ true
      → IsInt id
      → Memᴰ id (list s resource) ↔ (retrieve s resource id ≢ none)
