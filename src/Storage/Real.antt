-- ===== src/Storage/Real.antt =====
-- include/real_entity_storage.h and src/real_entity_storage.cc: the storage on disk. A resource has no
-- slash, as the CRUD handler asks for none that has.
pub mod Names
pub mod Valid
pub mod Ids
pub mod Laws
pub mod Implements
pub mod Races
use creeper_url_shortening_w.Prelude.Integer.{ℤ, pos, negsuc}
use creeper_url_shortening_w.Prelude.Stoi.{
  Stoi, number, invalid_argument, out_of_range, stoi, int_to_string,
}
use creeper_url_shortening_w.Prelude.Text.{Bytes}
use creeper_url_shortening_w.Prelude.{ℕ, Bool, true, false, List, [], ◌∷◌, Option, none, some}
use creeper_url_shortening_w.Storage.Disk.{Disk, FilePath, Node, absent, directory, file}
use creeper_url_shortening_w.Storage.Sim.{larger, next_id}

abbrev pub make_entity_dir : Bytes → FilePath
make_entity_dir resource = resource ∷ []

abbrev pub make_entity_path : Bytes → ℤ → FilePath
make_entity_path resource id = resource ∷ int_to_string id ∷ []

-- `if (id > max_id) max_id = id`, or the `continue` of the handler
abbrev pub larger_of : ℕ → Stoi → ℕ
larger_of max_id (number id idx) = larger max_id id
larger_of max_id invalid_argument = max_id
larger_of max_id out_of_range = max_id

unfoldable pub max_of : ℕ → List Bytes → ℕ
unfolding larger
max_of max_id [] = max_id
max_of max_id (name ∷ names) = max_of (larger_of max_id (stoi name)) names

-- on the names in the directory
abbrev pub get_next_available_id : List Bytes → ℤ
get_next_available_id ns = next_id (max_of 0 ns)

abbrev pub is_regular_file : Node → Bool
is_regular_file (file text) = true
is_regular_file absent = false
is_regular_file directory = false

abbrev pub push : Bool → Stoi → List ℤ → List ℤ
push true (number id idx) ids = id ∷ ids
push true _ ids = ids
push false _ ids = ids

module _ (disk : Disk) where
  open disk use {Files, node, names, read, write}

  abbrev pub written : Bytes → ℤ → Bytes → Files → Option Files → Files × Option ℤ
  written resource id data_ f none = (f, none)
  written resource id data_ f (some g) = (g, some id)

  abbrev pub create_as : Bytes → Bytes → Files → ℤ → Files × Option ℤ
  create_as resource data_ f (negsuc n) = (f, none)
  create_as resource data_ f (pos n) =
      written resource (pos n) data_ f (write (make_entity_path resource (pos n)) data_ f)

  -- behind `create_directories`, with what `get_next_available_id` goes through
  abbrev pub create_in : Bytes → Bytes → Files → Option (List Bytes) → Option (Files × Option ℤ)
  create_in resource data_ f none = none
  create_in resource data_ f (some ns) =
      some (create_as resource data_ f (get_next_available_id ns))

  -- `none` where it throws
  unfoldable pub create : Bytes → Bytes → Files → Option (Files × Option ℤ)
  unfolding max_of next_id
  create resource data_ f = elim (disk.create_directories (make_entity_dir resource) f) [
    | none ↦ none
    | some g ↦ create_in resource data_ g (names g (make_entity_dir resource))
  ]

  unfoldable pub retrieve : Files → Bytes → ℤ → Option Bytes
  retrieve f resource id = read f (make_entity_path resource id)

  abbrev pub updated : Files → Option Files → Files × Bool
  updated f none = (f, false)
  updated f (some g) = (g, true)

  unfoldable pub update : Bytes → ℤ → Bytes → Files → Option (Files × Bool)
  update resource id data_ f = elim (disk.create_directories (make_entity_dir resource) f) [
    | none ↦ none
    | some g ↦ some (updated g (write (make_entity_path resource id) data_ g))
  ]

  unfoldable pub remove : Bytes → ℤ → Files → Option (Files × Bool)
  remove resource id f = disk.remove (make_entity_path resource id) f

  unfoldable pub ids_among : Files → Bytes → List Bytes → List ℤ
  ids_among f resource [] = []
  ids_among f resource (name ∷ ns) =
      push (is_regular_file (node f (resource ∷ name ∷ []))) (stoi name) (ids_among f resource ns)

  abbrev pub list_names : Files → Bytes → Option (List Bytes) → Option (List ℤ)
  list_names f resource none = none
  list_names f resource (some ns) = some (ids_among f resource ns)

  abbrev pub list_node : Files → Bytes → Node → Option (List ℤ)
  list_node f resource directory = list_names f resource (names f (make_entity_dir resource))
  list_node f resource absent = some []
  list_node f resource (file text) = some []

  unfoldable pub list : Files → Bytes → Option (List ℤ)
  unfolding ids_among
  list f resource = list_node f resource (node f (make_entity_dir resource))
