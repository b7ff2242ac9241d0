-- ===== src/Storage/Disk.antt =====
-- `std::filesystem` and the file streams, as src/real_entity_storage.cc uses them: an argument, with
-- what is relied on of a tree without links. A path is the list of its components behind `root_`.
use mathlib.Core.List.{Memᴰ}
use creeper_url_shortening_w.Prelude.Text.{Bytes, codes, str_eq}
use creeper_url_shortening_w.Prelude.{
  ◌≡◌, ◌≢◌, ◌↔◌, Bool, true, false, not, ◌&&◌, List, [], ◌∷◌, Option, none, some, ◌==◌,
  if◌then◌else◌,
}

abbrev pub FilePath : Type 0
FilePath = List Bytes

unfoldable pub path_eq : FilePath → FilePath → Bool
path_eq [] [] = true
path_eq (a ∷ p) (b ∷ q) = str_eq a b && path_eq p q
path_eq _ _ = false

-- The second path is in the directory that the first one names, or is the same.
unfoldable pub is_above : FilePath → FilePath → Bool
is_above [] q = true
is_above (a ∷ p) (b ∷ q) = str_eq a b && is_above p q
is_above (a ∷ p) [] = false

unfoldable pub is_plain : Bytes → Bool
is_plain [] = true
is_plain (c ∷ s) = not (c == b'/') && (not (c == 0) && is_plain s)

-- A component that names an entry of its directory.
unfoldable pub is_name : Bytes → Bool
unfolding is_plain
is_name s =
    not (str_eq s []) && (not (str_eq s (codes ".")) && (not (str_eq s (codes "..")) && is_plain s))

unfoldable pub are_names : FilePath → Bool
unfolding is_name
are_names [] = true
are_names (s ∷ p) = is_name s && are_names p

pub data Node : Type 0 where
  absent directory : Node
  file : Bytes → Node

-- `names` is what `directory_iterator` goes through, `read` what `std::ifstream` reads, `write` writes
-- by `std::ofstream`. They are `none` where a call throws or a stream does not open.
pub record Disk : Type 1 where
  pub Files : Type 0
  pub node : Files → FilePath → Node
  pub names : Files → FilePath → Option (List Bytes)
  pub read : Files → FilePath → Option Bytes
  pub write : FilePath → Bytes → Files → Option Files
  pub create_directories : FilePath → Files → Option Files
  pub remove : FilePath → Files → Option (Files × Bool)
  pub parent :
      (f : Files) (resource name : Bytes)
      → node f (resource ∷ name ∷ []) ≢ absent
      → node f (resource ∷ []) ≡ directory
  pub names_some :
      (f : Files) (resource : Bytes)
      → node f (resource ∷ []) ≡ directory
      → (ns : List Bytes) × (names f (resource ∷ []) ≡ some ns)
  pub names_iff :
      (f : Files) (resource name : Bytes) (ns : List Bytes)
      → is_name resource ≡ true
      → names f (resource ∷ []) ≡ some ns
      → Memᴰ name ns ↔ ((is_name name ≡ true) × (node f (resource ∷ name ∷ []) ≢ absent))
  pub read_file :
      (f : Files) (p : FilePath) (text : Bytes) → node f p ≡ file text → read f p ≡ some text
  pub read_absent : (f : Files) (p : FilePath) → node f p ≡ absent → read f p ≡ none
  pub write_node :
      (p : FilePath) (data_ : Bytes) (f g : Files) (q : FilePath)
      → are_names p ≡ true
      → are_names q ≡ true
      → write p data_ f ≡ some g
      → node g q ≡ (if path_eq p q then file data_ else node f q)
  pub create_directories_keeps :
      (p : FilePath) (f g : Files) (q : FilePath)
      → are_names p ≡ true
      → are_names q ≡ true
      → create_directories p f ≡ some g
      → is_above q p ≡ false
      → node g q ≡ node f q
  pub remove_true :
      (p : FilePath) (f g : Files) (q : FilePath)
      → are_names p ≡ true
      → are_names q ≡ true
      → remove p f ≡ some (g, true)
      → (node f p ≢ absent) × (node g q ≡ (if path_eq p q then absent else node f q))
  pub remove_false :
      (p : FilePath) (f g : Files) (q : FilePath)
      → are_names p ≡ true
      → are_names q ≡ true
      → remove p f ≡ some (g, false)
      → (node f p ≡ absent) × (node g q ≡ node f q)
