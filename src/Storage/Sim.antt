-- ===== src/Storage/Sim.antt =====
-- include/sim_entity_storage.h and src/sim_entity_storage.cc: the storage in memory. A
-- `std::map<int, std::string>` is the list of its entries in ascending order.
pub mod Laws
pub mod Order
pub mod Ids
pub mod Implements
use creeper_url_shortening_w.Prelude.Assoc.{Assoc, lookup, insert}
use creeper_url_shortening_w.Prelude.Integer.{ℤ, pos, negsuc, int_eq, int_lt}
use creeper_url_shortening_w.Prelude.Text.{Bytes}
use creeper_url_shortening_w.Prelude.{
  ℕ, ◌+◌, Bool, true, false, not, List, [], ◌∷◌, map, Option, none, some, ltb, if◌then◌else◌,
}

abbrev pub Entities : Type 0
Entities = List (ℤ × Bytes)

abbrev pub SimEntityStorage : Type 0
SimEntityStorage = Assoc Entities

-- `m.find(id)`
unfoldable pub find : ℤ → Entities → Option Bytes
find id [] = none
find id ((j, json) ∷ m) = if int_eq j id then some json else find id m

-- `m[id] = data`
unfoldable pub put : ℤ → Bytes → Entities → Entities
put id json [] = (id, json) ∷ []
put id json ((j, old) ∷ m) =
    if int_eq j id
    then (id, json) ∷ m
    else if int_lt id j
    then (id, json) ∷ (j, old) ∷ m
    else (j, old) ∷ put id json m

-- `m.erase(it)`, where `it` is the entry with the id
unfoldable pub erase : ℤ → Entities → Entities
erase id [] = []
erase id ((j, json) ∷ m) = if int_eq j id then erase id m else (j, json) ∷ erase id m

abbrev pub int_max : ℕ
int_max = 2147483647

-- `if (id > maxID) maxID = id`
unfoldable pub larger : ℕ → ℤ → ℕ
larger max_id (pos id) = if ltb max_id id then id else max_id
larger max_id (negsuc id) = max_id

-- the loop over the entities; `maxID` is never negative
unfoldable pub max_from : ℕ → Entities → ℕ
unfolding larger
max_from max_id [] = max_id
max_from max_id ((id, json) ∷ m) = max_from (larger max_id id) m

unfoldable pub next_id : ℕ → ℤ
next_id max_id = if not (ltb max_id int_max) then negsuc 0 else pos (max_id + 1)

unfoldable pub get_next_available_id : Bytes → SimEntityStorage → ℤ
unfolding max_from next_id
get_next_available_id resource storage = elim (lookup resource storage) [
  | none ↦ pos 1
  | some m ↦ next_id (max_from 0 m)
]

-- the resource's entities with the new one, in both branches of the source
unfoldable pub written_to : ℤ → Bytes → Option Entities → Entities
unfolding put
written_to id json none = (id, json) ∷ []
written_to id json (some m) = put id json m

-- `storage[resource][id] = data`
unfoldable pub write : Bytes → ℤ → Bytes → SimEntityStorage → SimEntityStorage
unfolding written_to
write resource id json storage =
    insert resource (written_to id json (lookup resource storage)) storage

unfoldable pub create : Bytes → Bytes → SimEntityStorage → SimEntityStorage × Option ℤ
unfolding get_next_available_id write
create resource json storage =
    let id = get_next_available_id resource storage in
    if int_eq id (negsuc 0) then (storage, none) else (write resource id json storage, some id)

unfoldable pub entity_of : ℤ → Option Entities → Option Bytes
unfolding find
entity_of id none = none
entity_of id (some m) = find id m

unfoldable pub retrieve : Bytes → ℤ → SimEntityStorage → Option Bytes
unfolding entity_of
retrieve resource id storage = entity_of id (lookup resource storage)

unfoldable pub update : Bytes → ℤ → Bytes → SimEntityStorage → SimEntityStorage × Bool
update resource id json storage = (write resource id json storage, true)

unfoldable pub remove : Bytes → ℤ → SimEntityStorage → SimEntityStorage × Bool
unfolding erase
remove resource id storage = elim (lookup resource storage) [
  | none ↦ (storage, false)
  | some m ↦ elim (find id m) [
    | none ↦ (storage, false)
    | some _ ↦ (insert resource (erase id m) storage, true)
  ]
]

unfoldable pub ids_of : Entities → List ℤ
ids_of [] = []
ids_of ((id, json) ∷ m) = id ∷ ids_of m

unfoldable pub ids_in : Option Entities → List ℤ
unfolding ids_of
ids_in none = []
ids_in (some m) = ids_of m

unfoldable pub list : Bytes → SimEntityStorage → List ℤ
unfolding ids_in
list resource storage = ids_in (lookup resource storage)
