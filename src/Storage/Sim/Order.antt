-- ===== src/Storage/Sim/Order.antt =====
-- The entries of a resource stand in ascending order, as in the `std::map` of the source.
use creeper_url_shortening_w.Prelude.Integer.{ℤ, int_lt}
use creeper_url_shortening_w.Prelude.Text.{Bytes}
use creeper_url_shortening_w.Prelude.{◌≡◌, true, List, [], ◌∷◌}
use creeper_url_shortening_w.Storage.Sim.{SimEntityStorage, create, update, remove, list}

-- Each id is above the one before it, and the first above `low`.
abbrev pub IsAfter : ℤ → List ℤ → Type 0
IsAfter low [] = Unit
IsAfter low (id ∷ ids) = (int_lt low id ≡ true) × IsAfter id ids

abbrev pub IsAscending : List ℤ → Type 0
IsAscending [] = Unit
IsAscending (id ∷ ids) = IsAfter id ids

-- The ids of every resource are in ascending order.
abbrev pub IsOrdered : SimEntityStorage → Type 0
IsOrdered s = (resource : Bytes) → IsAscending (list resource s)

-- A change of the storage.
pub data Step : SimEntityStorage → SimEntityStorage → Type 0 where
  created : (resource json : Bytes) (s : SimEntityStorage) → Step s (create resource json s).0
  updated :
      (resource : Bytes) (id : ℤ) (json : Bytes) (s : SimEntityStorage)
      → Step s (update resource id json s).0
  removed : (resource : Bytes) (id : ℤ) (s : SimEntityStorage) → Step s (remove resource id s).0

-- A storage that operations make out of the empty one.
pub data Reached : SimEntityStorage → Type 0 where
  start : Reached []
  next : {s t : SimEntityStorage} → Reached s → Step s t → Reached t
